-- ===== src/Routes/Changes.antt =====
-- What each change of the route table leaves alone: a route is first come, first served, and only the
-- peer that told it can take it back.
use openportal.Base.{
  List, [], ◌∷◌, Bool, true, false, not, Option, none, some, ◌==◌, nat_eq, list_eq, pair_eq,
  option_eq, ==_iff, ==_refl, if◌then◌else◌, leb, ltb, length, Bool-cases, Option-cases, inl, inr,
  ◌≡◌, ◌≢◌, refl, ◌∙◌, arith,
}
use openportal.Base.Text.{Text}
use openportal.Base.Assoc.{lookup, lookup-insert, lookup-remove}
use openportal.Error.{Result, ok, err}
use openportal.Destination.{Destination, destination_eq}
use openportal.Destination
use openportal.Portal.{PortalIdentifier}
use openportal.Peer.{Peer, peer_eq}
use openportal.Routes.{
  PortalRoute, RouteEntry, Key, RouteTable, key, holds_key, add_key, drop_key, insert_route, extend,
  receive_route, receive_routes, told_by, may_withdraw, withdraw, withdraw_each, receive,
}

holds_key-add_key :
    (k j : Key) (ks : List Key) → holds_key j ks ≡ true → holds_key j (add_key k ks) ≡ true
holds_key-add_key k j ks h = ground arith

holds_key-add_key_self : (k : Key) (ks : List Key) → holds_key k (add_key k ks) ≡ true
holds_key-add_key_self k ks = ground (arith, ==_refl k)

holds_key-drop_key_ne :
    (k j : Key) (ks : List Key) → k ≢ j → holds_key j (drop_key k ks) ≡ holds_key j ks
holds_key-drop_key_ne k j [] ne = refl
holds_key-drop_key_ne k j (i ∷ ks) ne =
    ground (arith, ==_iff i k, ==_iff i j, holds_key-drop_key_ne k j ks ne)

-- A second advertisement for a portal never changes the route that is held: the same route leaves the
-- whole table as it was, and another route only marks the portal as collided.
pub insert_route_held :
    (t : RouteTable) (zone : Text) (portal : PortalIdentifier) (entry held : RouteEntry)
    → lookup (key zone portal) t.routes ≡ some held
    → ((insert_route t zone portal entry).0.routes ≡ t.routes)
      × ((insert_route t zone portal entry).1 ≡ false)
      × (held.route ≡ entry.route → (insert_route t zone portal entry).0 ≡ t)
      × (held.route ≢ entry.route
          → holds_key (key zone portal) (insert_route t zone portal entry).0.collided ≡ true)
unfolding insert_route
insert_route_held t zone portal entry held h = (
  ground arith,
  ground arith,
  λ e. ground (arith, ==_iff held.route entry.route),
  λ ne.
      ground
        (arith, ==_iff held.route entry.route, holds_key-add_key_self (key zone portal) t.collided),
)

-- What a change that the peer makes keeps of an entry that it did not tell.
abbrev pub Keeps : RouteTable → RouteTable → Key → RouteEntry → Type 0
Keeps t t' j held =
    (lookup j t'.routes ≡ some held)
    × (holds_key j t.collided ≡ true → holds_key j t'.collided ≡ true)

insert_route-Keeps :
    (t : RouteTable) (zone : Text) (portal : PortalIdentifier) (entry : RouteEntry) (j : Key)
    (held : RouteEntry)
    → lookup j t.routes ≡ some held
    → Keeps t (insert_route t zone portal entry).0 j held
unfolding insert_route
insert_route-Keeps t zone portal entry j held h =
    elim (Option-cases (lookup (key zone portal) t.routes)) [
      | inl absent ↦ (
        ground
            (arith, lookup-insert (key zone portal) j entry t.routes, ==_iff (key zone portal) j),
        ground arith,
      )
      | inr (existing, e) ↦ elim (Bool-cases (existing.route == entry.route)) [
        | inl same ↦ (ground arith, ground arith)
        | inr other ↦
            (ground arith, ground (arith, holds_key-add_key (key zone portal) j t.collided))
      ]
    ]

Keeps-trans :
    (t u v : RouteTable) (j : Key) (held : RouteEntry)
    → Keeps t u j held
    → Keeps u v j held
    → Keeps t v j held
Keeps-trans t u v j held a b = (b.0, λ h. b.1 (a.1 h))

receive_route-Keeps :
    (t : RouteTable) (from : Peer) (r : PortalRoute) (me : Text) (j : Key) (held : RouteEntry)
    → lookup j t.routes ≡ some held
    → Keeps t (receive_route t from r me).0 j held
unfolding receive_route
receive_route-Keeps t from r me j held h =
    elim (Bool-cases (not (Destination.last r.route == from.name))) [
      | inl e ↦ rw e (h, λ x. x)
      | inr e ↦ elim (Bool-cases (leb 16 (length r.route.agents))) [
        | inl f ↦ rw (e, f) (h, λ x. x)
        | inr f ↦ rw (e, f) (parsed (Destination.parse (extend (Destination.display r.route) me)))
      ]
    ]
  where
    parsed :
        (m : Result Destination)
        → Keeps t
            (elim m as (λ x. RouteTable × Bool) [
              | err e ↦ (t, false)
              | ok route ↦
                  insert_route t from.zone r.portal
                    (record { route = route; learned_from = some from })
            ]).0
            j
            held
    parsed (err e) = (h, λ x. x)
    parsed (ok route) =
        insert_route-Keeps t from.zone r.portal (record { route = route; learned_from = some from })
          j held h

receive_routes-Keeps :
    (t : RouteTable) (changed : Bool) (from : Peer) (rs : List PortalRoute) (me : Text) (j : Key)
    (held : RouteEntry)
    → lookup j t.routes ≡ some held
    → Keeps t (receive_routes (t, changed) from rs me).0 j held
unfolding receive_routes
receive_routes-Keeps t changed from [] me j held h = (h, λ x. x)
receive_routes-Keeps t changed from (r ∷ rs) me j held h =
    let (t', new) = receive_route t from r me in
    let kept = receive_route-Keeps t from r me j held h in
    Keeps-trans t t' _ j held kept
      (receive_routes-Keeps t' (if new then true else changed) from rs me j held kept.0)

-- Only the peer that told a route may withdraw it.
withdraw-Keeps :
    (t : RouteTable) (zone : Text) (portal : PortalIdentifier) (from : Peer) (j : Key)
    (held : RouteEntry)
    → lookup j t.routes ≡ some held
    → held.learned_from ≢ some from
    → Keeps t (withdraw t zone portal (some from)).0 j held
unfolding withdraw
withdraw-Keeps t zone portal from j held h ne = elim (Bool-cases (key zone portal == j)) [
  | inl same ↦
      let e = (==_iff (key zone portal) j).0 same in
      let no : may_withdraw (lookup (key zone portal) t.routes) (some from) ≡ false =
        rw (e, h) (refused held.learned_from ne) in
      rw no (h, λ x. x)
  | inr other ↦
      let differ : key zone portal ≢ j = λ e. ground (arith, ==_iff (key zone portal) j) in
      elim (Bool-cases (may_withdraw (lookup (key zone portal) t.routes) (some from))) [
        | inl gone ↦ rw gone (
          rw (lookup-remove (key zone portal) j t.routes, other) h,
          λ x. holds_key-drop_key_ne (key zone portal) j t.collided differ ∙ x,
        )
        | inr stays ↦ rw stays (h, λ x. x)
      ]
]
  where
    refused : (l : Option Peer) → l ≢ some from → told_by l (some from) ≡ false
    refused none m = refl
    refused (some q) m = ground (arith, ==_iff q from)

withdraw_each-Keeps :
    (t : RouteTable) (changed : Bool) (from : Peer) (ps : List PortalIdentifier) (j : Key)
    (held : RouteEntry)
    → lookup j t.routes ≡ some held
    → held.learned_from ≢ some from
    → Keeps t (withdraw_each (t, changed) from ps).0 j held
unfolding withdraw_each
withdraw_each-Keeps t changed from [] j held h ne = (h, λ x. x)
withdraw_each-Keeps t changed from (p ∷ ps) j held h ne =
    let (t', gone) = withdraw t from.zone p (some from) in
    let kept = withdraw-Keeps t from.zone p from j held h ne in
    Keeps-trans t t' _ j held kept
      (withdraw_each-Keeps t' (if gone then true else changed) from ps j held kept.0 ne)

-- Whatever a peer advertises and withdraws in one message, a route that this agent has from its own
-- config or from another peer stays in the table unchanged, and so does the mark that its portal has
-- collided.
pub receive-Keeps :
    (t : RouteTable) (from : Peer) (routes : List PortalRoute) (withdrawn : List PortalIdentifier)
    (me : Text) (j : Key) (held : RouteEntry)
    → lookup j t.routes ≡ some held
    → held.learned_from ≢ some from
    → Keeps t (receive t from routes withdrawn me).0 j held
unfolding receive
receive-Keeps t from routes withdrawn me j held h ne = elim (Bool-cases (ltb 16 (length routes))) [
  | inl e ↦ rw e (h, λ x. x)
  | inr e ↦
      let (t', changed) = receive_routes (t, false) from routes me in
      let kept = receive_routes-Keeps t false from routes me j held h in
      rw e (
        Keeps-trans t t' _ j held kept
          (withdraw_each-Keeps t' changed from withdrawn j held kept.0 ne))
]
