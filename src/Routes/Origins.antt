-- ===== src/Routes/Origins.antt =====
-- Where the routes of the table come from: a learned route ends with the peer that told it and then
-- this agent, and lies in that peer's zone; every other one is a portal and this agent.
use openportal.Base.{
  ◌≤◌, List, [], ◌∷◌, ◌++◌, Bool, true, false, Option, none, some, ◌==◌, nat_eq, list_eq, pair_eq,
  option_eq, ==_iff, if◌then◌else◌, leb, ltb, length, length-append, All, All-append, Bool-cases,
  inl, inr, ◌≡◌, refl, ◌∙◌, ap, arith,
}
use openportal.Base.Text.{Text, period, join}
use openportal.Base.Assoc.{lookup, insert, insert-All, remove-All}
use openportal.Error.{ok}
use openportal.Destination.{Destination, destination_eq, unwrap_or_empty, last_elem}
use openportal.Destination
use openportal.Destination.Parse.{IsPath, IsAgentName, parse-display}
use openportal.Portal.{PortalIdentifier}
use openportal.Peer.{Peer}
use openportal.Routes.{
  PortalRoute, RouteEntry, Key, RouteTable, key, insert_route, extend, originate, receive_route,
  receive_routes, withdraw, withdraw_each, receive, may_withdraw, add_key,
}
use mathlib.Core.List.{append_assoc}

-- A route by its origin, for the agent `me`.
abbrev pub Origin : Text → Option Peer → Text → List Text → Type 0
Origin me none zone agents = (portal : Text) × (agents ≡ portal ∷ me ∷ [])
Origin me (some p) zone agents =
    (path : List Text) × (agents ≡ path ++ (p.name ∷ me ∷ [])) × (zone ≡ p.zone)

abbrev pub ComesFrom : Text → Key × RouteEntry → Type 0
ComesFrom me (k, entry) = Origin me entry.learned_from k.0 entry.route.agents

abbrev pub IsTable : Text → RouteTable → Type 0
IsTable me t = All (ComesFrom me) t.routes

join-snoc :
    (w : Text) (ws : List Text) (me : Text)
    → extend (join period (w ∷ ws)) me ≡ join period (w ∷ (ws ++ (me ∷ [])))
unfolding join
join-snoc w [] me = refl
join-snoc w (v ∷ ws) me =
    append_assoc w (period ∷ join period (v ∷ ws)) (period ∷ me)
    ∙ ap (λ t. w ++ (period ∷ t)) (join-snoc v ws me)

-- Appending our own name to a printed path gives the path with one agent more.
pub parse-extend :
    (d : Destination) (me : Text)
    → IsPath d
    → IsAgentName me
    → Destination.parse (extend (Destination.display d) me)
      ≡ ok (record { agents = d.agents ++ (me ∷ []) })
parse-extend d me h n = go d.agents h.two_agents h.names
  where
    go :
        (ws : List Text)
        → 2 ≤ length ws
        → All IsAgentName ws
        → Destination.parse (extend (Destination.display (record { agents = ws })) me)
          ≡ ok (record { agents = ws ++ (me ∷ []) })
    go [] l a = absurd (omega arith)
    go (w ∷ ws) l a =
        let longer : Destination = record { agents = w ∷ (ws ++ (me ∷ [])) } in
        let path : IsPath longer = record {
          two_agents = omega (arith, length-append ws (me ∷ []));
          names = (a.0, All-append IsAgentName ws (me ∷ []) a.1 (n, tt));
        } in
        unfold Destination.display in rw (join-snoc w ws me) (parse-display longer path)

last_elem-snoc :
    (x : Text) (l : List Text)
    → 1 ≤ length l
    → unwrap_or_empty (last_elem l) ≡ x
    → (path : List Text) × (l ≡ path ++ (x ∷ []))
last_elem-snoc x [] h e = absurd (omega arith)
last_elem-snoc x (y ∷ []) h e = ([], ap (λ t. t ∷ []) e)
last_elem-snoc x (y ∷ z ∷ l) h e =
    let (path, p) = last_elem-snoc x (z ∷ l) (omega arith) e in (y ∷ path, ap (◌∷◌ y) p)

insert_route-IsTable :
    (me : Text) (t : RouteTable) (zone : Text) (portal : PortalIdentifier) (entry : RouteEntry)
    → Origin me entry.learned_from zone entry.route.agents
    → IsTable me t
    → IsTable me (insert_route t zone portal entry).0
unfolding insert_route
insert_route-IsTable me t zone portal entry o h = go (lookup (key zone portal) t.routes)
  where
    go :
        (held : Option RouteEntry)
        → IsTable me
            (elim held as (λ x. RouteTable × Bool) [
              | some existing ↦
                  if existing.route == entry.route
                  then (t, false)
                  else (record t { collided = add_key (key zone portal) t.collided }, false)
              | none ↦ (record t { routes = insert (key zone portal) entry t.routes }, true)
            ]).0
    go none = insert-All (ComesFrom me) (key zone portal) entry t.routes o h
    go (some existing) = elim (Bool-cases (existing.route == entry.route)) [
      | inl e ↦ rw e h
      | inr e ↦ rw e h
    ]

two_agents :
    (portal me : Text)
    → IsAgentName portal
    → IsAgentName me
    → IsPath (record { agents = portal ∷ me ∷ [] })
two_agents portal me p n = record { two_agents = omega arith; names = (p, (n, tt)) }

receive_route-IsTable :
    (me : Text) (t : RouteTable) (from : Peer) (r : PortalRoute)
    → IsAgentName me
    → IsPath r.route
    → IsTable me t
    → IsTable me (receive_route t from r me).0
unfolding receive_route
receive_route-IsTable me t from r n p h =
    elim (Bool-cases (Destination.last r.route == from.name)) [
      | inl e ↦ elim (Bool-cases (leb 16 (length r.route.agents))) [
        | inl f ↦ rw (e, f) h
        | inr f ↦
            let last : Destination.last r.route ≡ from.name =
              (==_iff (Destination.last r.route) from.name).0 e in
            let (path, split) =
              last_elem-snoc from.name r.route.agents (omega (arith, p.two_agents))
                (unfold Destination.last in last) in
            let longer : r.route.agents ++ (me ∷ []) ≡ path ++ (from.name ∷ me ∷ []) =
              rw split (append_assoc path (from.name ∷ []) (me ∷ [])) in
            rw (e, f, parse-extend r.route me p n)
              (insert_route-IsTable me t from.zone r.portal
                (record {
                  route = record { agents = r.route.agents ++ (me ∷ []) };
                  learned_from = some from;
                })
                (path, longer, refl) h)
      ]
      | inr e ↦ rw e h
    ]

receive_routes-IsTable :
    (me : Text) (t : RouteTable) (changed : Bool) (from : Peer) (rs : List PortalRoute)
    → IsAgentName me
    → All (λ (r : PortalRoute). IsPath r.route) rs
    → IsTable me t
    → IsTable me (receive_routes (t, changed) from rs me).0
unfolding receive_routes
receive_routes-IsTable me t changed from [] n p h = h
receive_routes-IsTable me t changed from (r ∷ rs) n p h =
    let (t', new) = receive_route t from r me in
    receive_routes-IsTable me t' (if new then true else changed) from rs n p.1
      (receive_route-IsTable me t from r n p.0 h)

withdraw-IsTable :
    (me : Text) (t : RouteTable) (zone : Text) (portal : PortalIdentifier) (from : Option Peer)
    → IsTable me t
    → IsTable me (withdraw t zone portal from).0
unfolding withdraw
withdraw-IsTable me t zone portal from h =
    elim (Bool-cases (may_withdraw (lookup (key zone portal) t.routes) from)) [
      | inl e ↦ rw e (remove-All (ComesFrom me) (key zone portal) t.routes h)
      | inr e ↦ rw e h
    ]

withdraw_each-IsTable :
    (me : Text) (t : RouteTable) (changed : Bool) (from : Peer) (ps : List PortalIdentifier)
    → IsTable me t
    → IsTable me (withdraw_each (t, changed) from ps).0
unfolding withdraw_each
withdraw_each-IsTable me t changed from [] h = h
withdraw_each-IsTable me t changed from (p ∷ ps) h =
    let (t', gone) = withdraw t from.zone p (some from) in
    withdraw_each-IsTable me t' (if gone then true else changed) from ps
      (withdraw-IsTable me t from.zone p (some from) h)

-- Every route that a peer's message can bring into the table ends with that peer and then this agent,
-- and is filed under that peer's zone; so a peer can only claim to be the last hop before us. It is
-- assumed that our own name and the names on the advertised paths are names that parsing accepts.
pub receive-IsTable :
    (me : Text) (t : RouteTable) (from : Peer) (routes : List PortalRoute)
    (withdrawn : List PortalIdentifier)
    → IsAgentName me
    → All (λ (r : PortalRoute). IsPath r.route) routes
    → IsTable me t
    → IsTable me (receive t from routes withdrawn me).0
unfolding receive
receive-IsTable me t from routes withdrawn n p h = elim (Bool-cases (ltb 16 (length routes))) [
  | inl e ↦ rw e h
  | inr e ↦
      let (t', changed) = receive_routes (t, false) from routes me in
      rw e (
        withdraw_each-IsTable me t' changed from withdrawn
          (receive_routes-IsTable me t false from routes n p h))
]

-- A portal of our own config gets the route of two agents, the portal and us, and the table stays
-- well formed.
pub originate-IsTable :
    (me : Text) (t : RouteTable) (portal : PortalIdentifier) (zone : Text)
    → IsAgentName me
    → IsAgentName portal.portal
    → IsTable me t
    → (r : RouteTable × Bool) × (originate t portal zone me ≡ ok r) × IsTable me r.0
unfolding originate
originate-IsTable me t portal zone n p h =
    let path : Destination = record { agents = portal.portal ∷ me ∷ [] } in
    let read : Destination.parse (extend portal.portal me) ≡ ok path =
      unfold Destination.display join in parse-display path (two_agents portal.portal me p n) in
    let entry : RouteEntry = record { route = path; learned_from = none } in
    (
      insert_route t zone portal entry,
      rw read refl,
      insert_route-IsTable me t zone portal entry (portal.portal, refl) h,
    )
