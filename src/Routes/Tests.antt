-- ===== src/Routes/Tests.antt =====
-- A concrete route table for the theorems on portal routes.
use openportal.Base.{
  List, [], ◌∷◌, ◌++◌, true, false, none, some, if◌then◌else◌, All, ◌≡◌, ◌↔◌, refl, arith, nat_eq,
  list_eq, pair_eq,
}
use openportal.Base.Text.{Text, text, split, join, contains, is_whitespace}
use openportal.Base.Assoc.{lookup, insert, remove}
use openportal.Destination.{Destination, destination_beq, has_whitespace, parse, display, last}
use openportal.Portal.{PortalIdentifier}
use openportal.Peer.{Peer, peer_beq}
use openportal.Routes.{
  PortalRoute, RouteEntry, RouteTable, key, insert_route, originate, receive_route, receive_routes,
  withdraw, withdraw_each, receive, withdraw_all_from, routes_for_peer, destination_matches_route,
}
use openportal.Routes.Changes.{Keeps, receive-Keeps}
use openportal.Routes.Origins.{IsTable, receive-IsTable}
use openportal.Routes.Peers.{
  is_from, withdraw_all_from_lem, ComesFromEntry, routes_for_peer-All,
  destination_matches_route_iff,
}

abbrev zone : Text
zone = text "west"

abbrev brics : PortalIdentifier
brics = record { portal = text "brics" }

abbrev other : PortalIdentifier
other = record { portal = text "other" }

abbrev provider : Peer
provider = record { name = text "provider"; zone = zone }

abbrev rival : Peer
rival = record { name = text "rival"; zone = zone }

abbrev me : Text
me = text "cluster"

abbrev brics_path : Destination
brics_path = record { agents = text "brics" ∷ text "provider" ∷ [] }

abbrev held : RouteEntry
held = record {
  route = record { agents = text "brics" ∷ text "provider" ∷ me ∷ [] };
  learned_from = some provider;
}

abbrev empty : RouteTable
empty = record { routes = []; collided = [] }

abbrev table : RouteTable
table = record { routes = (key zone brics, held) ∷ []; collided = [] }

abbrev advert : PortalRoute
advert = record { portal = brics; route = brics_path }

abbrev forged : PortalRoute
forged = record { portal = brics; route = record { agents = text "brics" ∷ text "rival" ∷ [] } }

program : Unit {0}
unfolding lookup insert remove destination_beq peer_beq has_whitespace parse display last split join
    contains is_whitespace insert_route originate receive_route receive_routes withdraw
    withdraw_each receive
program = tt

receive_runs : receive empty provider (advert ∷ []) [] me ≡ (table, true)
unfolding program
receive_runs = refl

-- The rival's route is correctly terminated, and collides.
forged_runs :
    receive table rival (forged ∷ []) (brics ∷ []) me
    ≡ (record table { collided = key zone brics ∷ [] }, false)
unfolding program
forged_runs = refl

table_held : lookup (key zone brics) table.routes ≡ some held
unfolding program
table_held = refl

receive-Keeps_example :
    Keeps table (receive table rival (forged ∷ []) (brics ∷ []) me).0 (key zone brics) held
receive-Keeps_example =
    receive-Keeps table rival (forged ∷ []) (brics ∷ []) me (key zone brics) held table_held
      (λ e. ground arith)

receive-IsTable_example : IsTable me (receive empty provider (advert ∷ []) [] me).0
unfolding contains has_whitespace is_whitespace
receive-IsTable_example =
    receive-IsTable me empty provider (advert ∷ []) [] (refl, refl, refl)
      (
        record { two_agents = omega arith; names = ((refl, refl, refl), ((refl, refl, refl), tt)) },
        tt,
      )
      tt

withdraw_all_from_lem_example :
    lookup (key zone brics) (withdraw_all_from table provider).0.routes ≡ (
      if is_from provider (lookup (key zone brics) table.routes)
      then none
      else lookup (key zone brics) table.routes)
unfolding lookup
withdraw_all_from_lem_example = withdraw_all_from_lem table provider (key zone brics) (refl, tt)

routes_for_peer-All_example : All (ComesFromEntry rival table.routes) (routes_for_peer table rival)
routes_for_peer-All_example = routes_for_peer-All table rival

destination_matches_route_iff_example :
    (destination_matches_route held.route brics_path ≡ true)
    ↔ ((rest : List Text) × (held.route.agents ≡ brics_path.agents ++ rest))
destination_matches_route_iff_example = destination_matches_route_iff held.route brics_path
