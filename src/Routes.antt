-- ===== src/Routes.antt =====
-- templemeads/src/portalroutes.rs: the table of routes by which each portal reaches this agent. The
-- table is the value under the lock `ROUTES`; its public functions take the lock and call these.
use openportal.Base.{
  ℕ, List, [], ◌∷◌, ◌++◌, Bool, true, false, not, ◌&&◌, ◌||◌, Option, none, some, ◌==◌, nat_eq,
  list_eq, pair_eq, option_eq, if◌then◌else◌, filter, any, leb, ltb, length,
}
use openportal.Base.Text.{Text, period}
use openportal.Base.Assoc.{lookup, insert, remove}
use openportal.Error.{Result, ok, err, ◌>>=◌}
use openportal.Destination.{Destination, destination_eq}
use openportal.Destination
use openportal.Portal.{PortalIdentifier}
use openportal.Portal
use openportal.Peer.{Peer, peer_eq}
pub mod Origins
pub mod Changes
pub mod Peers
mod Tests

abbrev pub max_portals_per_peer : ℕ
max_portals_per_peer = 16

abbrev pub max_route_depth : ℕ
max_route_depth = 16

pub record PortalRoute : Type 0 where
  pub portal : PortalIdentifier
  pub route : Destination

-- `learned_from` is `none` for a route that comes from this agent's own config.
pub record RouteEntry : Type 0 where
  pub route : Destination
  pub learned_from : Option Peer

-- A zone and a portal's name.
abbrev pub Key : Type 0
Key = Text × Text

pub record RouteTable : Type 0 where
  pub routes : List (Key × RouteEntry)
  pub collided : List Key

abbrev pub key : Text → PortalIdentifier → Key
key zone portal = (zone, portal.portal)

-- The set `collided`: `contains`, `insert` and `remove`.
abbrev pub holds_key : Key → List Key → Bool
holds_key k ks = any (λ j. j == k) ks

abbrev pub add_key : Key → List Key → List Key
add_key k ks = if holds_key k ks then ks else k ∷ ks

abbrev pub drop_key : Key → List Key → List Key
drop_key k ks = filter (λ j. not (j == k)) ks

-- `RouteTable::insert`
unfoldable pub insert_route : RouteTable → Text → PortalIdentifier → RouteEntry → RouteTable × Bool
insert_route t zone portal entry =
    let k = key zone portal in
    elim (lookup k t.routes) [
      | some existing ↦
          if existing.route == entry.route
          then (t, false)
          else (record t { collided = add_key k t.collided }, false)
      | none ↦ (record t { routes = insert k entry t.routes }, true)
    ]

abbrev pub extend : Text → Text → Text
extend path me = path ++ (period ∷ me)

unfoldable pub originate : RouteTable → PortalIdentifier → Text → Text → Result (RouteTable × Bool)
originate t portal zone me = do
  route ← Destination.parse (extend portal.portal me)
  ok (insert_route t zone portal (record { route = route; learned_from = none }))

-- The body of the loop over the advertised routes; each `continue` leaves the table alone.
unfoldable pub receive_route : RouteTable → Peer → PortalRoute → Text → RouteTable × Bool
receive_route t from advertised me =
    if not (Destination.last advertised.route == from.name)
    then (t, false)
    else if leb max_route_depth (length advertised.route.agents)
    then (t, false)
    else elim (Destination.parse (extend (Destination.display advertised.route) me)) [
      | err e ↦ (t, false)
      | ok route ↦
          insert_route t from.zone advertised.portal
            (record { route = route; learned_from = some from })
    ]

-- The two loops of `receive`, with the flag `changed`.
unfoldable pub receive_routes :
    RouteTable × Bool → Peer → List PortalRoute → Text → RouteTable × Bool
receive_routes (t, changed) from [] me = (t, changed)
receive_routes (t, changed) from (r ∷ rs) me =
    let (t', new) = receive_route t from r me in
    receive_routes (t', if new then true else changed) from rs me

-- The `match` on who told us and who asks.
abbrev pub told_by : Option Peer → Option Peer → Bool
told_by (some learned) (some from) = learned == from
told_by (some learned) none = true
told_by none from = false

abbrev pub may_withdraw : Option RouteEntry → Option Peer → Bool
may_withdraw none from = false
may_withdraw (some entry) from = told_by entry.learned_from from

unfoldable pub withdraw : RouteTable → Text → PortalIdentifier → Option Peer → RouteTable × Bool
withdraw t zone portal from =
    let k = key zone portal in
    if may_withdraw (lookup k t.routes) from
    then (record t { routes = remove k t.routes; collided = drop_key k t.collided }, true)
    else (t, false)

unfoldable pub withdraw_each : RouteTable × Bool → Peer → List PortalIdentifier → RouteTable × Bool
withdraw_each (t, changed) from [] = (t, changed)
withdraw_each (t, changed) from (p ∷ ps) =
    let (t', gone) = withdraw t from.zone p (some from) in
    withdraw_each (t', if gone then true else changed) from ps

unfoldable pub receive :
    RouteTable → Peer → List PortalRoute → List PortalIdentifier → Text → RouteTable × Bool
receive t from routes withdrawn me =
    if ltb max_portals_per_peer (length routes)
    then (t, false)
    else withdraw_each (receive_routes (t, false) from routes me) from withdrawn

-- The keys of the routes learned from a peer, and the loop that removes them.
unfoldable pub stale_keys : Peer → List (Key × RouteEntry) → List Key
stale_keys peer [] = []
stale_keys peer ((k, entry) ∷ m) =
    let rest = stale_keys peer m in if entry.learned_from == some peer then k ∷ rest else rest

unfoldable pub remove_keys : RouteTable → List Key → RouteTable
remove_keys t [] = t
remove_keys t (k ∷ ks) =
    remove_keys (record t { routes = remove k t.routes; collided = drop_key k t.collided }) ks

abbrev is_empty {ℓ} : {A : Type ℓ} → List A → Bool
is_empty [] = true
is_empty (x ∷ xs) = false

unfoldable pub withdraw_all_from : RouteTable → Peer → RouteTable × Bool
withdraw_all_from t peer =
    let stale = stale_keys peer t.routes in (remove_keys t stale, not (is_empty stale))

-- `filter` and then `filter_map`, which drops a key whose portal does not parse.
abbrev pub advertise : Text → RouteEntry → List PortalRoute → List PortalRoute
advertise portal entry rest = elim (Portal.parse portal) [
  | err e ↦ rest
  | ok p ↦ record { portal = p; route = entry.route } ∷ rest
]

abbrev pub is_for_peer : Peer → Text → RouteEntry → Bool
is_for_peer peer zone entry = zone == peer.zone && not (entry.learned_from == some peer)

unfoldable pub routes_from : Peer → List (Key × RouteEntry) → List PortalRoute
routes_from peer [] = []
routes_from peer (((zone, portal), entry) ∷ m) =
    let rest = routes_from peer m in
    if is_for_peer peer zone entry then advertise portal entry rest else rest

unfoldable pub routes_for_peer : RouteTable → Peer → List PortalRoute
routes_for_peer t peer = routes_from peer t.routes

abbrev route_of : Option RouteEntry → Option Destination
route_of none = none
route_of (some entry) = some entry.route

unfoldable pub expected_route : RouteTable → Text → Text → Option Destination
expected_route t zone portal = route_of (lookup (zone, portal) t.routes)

unfoldable pub is_collided : RouteTable → Text → Text → Bool
is_collided t zone portal = holds_key (zone, portal) t.collided

unfoldable pub zone_has_portal_route : RouteTable → Text → Bool
zone_has_portal_route t zone = any (λ e. e.0.0 == zone) t.routes

abbrev pub starts_with_path : List Text → List Text → Bool
starts_with_path path [] = true
starts_with_path [] (r ∷ rs) = false
starts_with_path (a ∷ path) (r ∷ rs) = a == r && starts_with_path path rs

unfoldable pub destination_matches_route : Destination → Destination → Bool
destination_matches_route destination route =
    if leb (length route.agents) (length destination.agents)
    then starts_with_path destination.agents route.agents
    else false
