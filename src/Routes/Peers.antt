-- ===== src/Routes/Peers.antt =====
-- A peer that disconnects takes all of its routes with it; what a peer is told, and the check of a
-- destination against a route.
use openportal.Base.{
  List, [], ◌∷◌, ◌++◌, Bool, true, false, Option, none, some, ◌==◌, nat_eq, list_eq, pair_eq,
  option_eq, ==_iff, if◌then◌else◌, length, Bool-cases, All, All-map, inl, inr, ◌≡◌, ◌≢◌, ◌↔◌, ◌⊎◌,
  refl, ◌∙◌, ap, ap₂, arith, length-append, ◌+◌,
}
use openportal.Base.Text.{Text}
use openportal.Base.Assoc.{lookup, remove, lookup-remove}
use openportal.Error.{Result, ok, err}
use openportal.Destination.{Destination}
use openportal.Portal.{PortalIdentifier}
use openportal.Portal
use openportal.Peer.{Peer, peer_eq}
use openportal.Routes.{
  PortalRoute, RouteEntry, Key, RouteTable, holds_key, drop_key, stale_keys, remove_keys,
  withdraw_all_from, advertise, is_for_peer, routes_from, routes_for_peer, starts_with_path,
  destination_matches_route,
}
use mathlib.Core.List.{Memᴰ}

-- No key stands twice, as in a `HashMap`.
abbrev pub HasDistinctKeys : List (Key × RouteEntry) → Type 0
HasDistinctKeys [] = Unit
HasDistinctKeys ((k, entry) ∷ m) = (lookup k m ≡ none) × HasDistinctKeys m

lookup-remove_keys :
    (ks : List Key) (t : RouteTable) (j : Key)
    → lookup j (remove_keys t ks).routes ≡ (if holds_key j ks then none else lookup j t.routes)
unfolding remove_keys
lookup-remove_keys [] t j = refl
lookup-remove_keys (k ∷ ks) t j =
    lookup-remove_keys ks
      (record t { routes = remove k t.routes; collided = drop_key k t.collided }) j
    ∙ ground (arith, lookup-remove k j t.routes)

abbrev pub is_from : Peer → Option RouteEntry → Bool
is_from peer none = false
is_from peer (some entry) = entry.learned_from == some peer

-- The stale keys are those whose route was learned from the peer.
holds_key-stale_keys :
    (peer : Peer) (m : List (Key × RouteEntry)) (j : Key)
    → HasDistinctKeys m
    → holds_key j (stale_keys peer m) ≡ is_from peer (lookup j m)
unfolding stale_keys lookup
holds_key-stale_keys peer [] j d = refl
holds_key-stale_keys peer ((k, entry) ∷ m) j d =
    let ih = holds_key-stale_keys peer m j d.1 in
    elim (Bool-cases (k == j)) [
      | inl e ↦
          let same : k ≡ j = (==_iff k j).0 e in
          let absent : lookup j m ≡ none = rw (← same) d.0 in ground (arith, absent)
      | inr e ↦ ground arith
    ]

-- When a peer disconnects, exactly the routes that were learned from it leave the table; every other
-- route stays as it was.
pub withdraw_all_from_lem :
    (t : RouteTable) (peer : Peer) (j : Key)
    → HasDistinctKeys t.routes
    → lookup j (withdraw_all_from t peer).0.routes
      ≡ (if is_from peer (lookup j t.routes) then none else lookup j t.routes)
unfolding withdraw_all_from
withdraw_all_from_lem t peer j d =
    lookup-remove_keys (stale_keys peer t.routes) t j
    ∙ (rw (holds_key-stale_keys peer t.routes j d) refl)

-- An advertised route, traced to the entry that it comes from.
abbrev pub ComesFromEntry : Peer → List (Key × RouteEntry) → PortalRoute → Type 0
ComesFromEntry peer m r =
    (zone : Text) × (portal : Text) × (entry : RouteEntry) × Memᴰ ((zone, portal), entry) m
    × (zone ≡ peer.zone)
    × (entry.learned_from ≢ some peer)
    × (r.route ≡ entry.route)
    × (Portal.parse portal ≡ ok r.portal)

comes_later :
    (peer : Peer) (e : Key × RouteEntry) (m : List (Key × RouteEntry)) (r : PortalRoute)
    → ComesFromEntry peer m r
    → ComesFromEntry peer (e ∷ m) r
comes_later peer e m r (zone, portal, entry, found, z, l, same, parsed) =
    (zone, portal, entry, Memᴰ.tail found, z, l, same, parsed)

routes_from-All :
    (peer : Peer) (m : List (Key × RouteEntry)) → All (ComesFromEntry peer m) (routes_from peer m)
unfolding routes_from
routes_from-All peer [] = tt
routes_from-All peer (((zone, portal), entry) ∷ m) =
    step (Bool-cases (is_for_peer peer zone entry)) (Portal.parse portal) refl (
      All-map _ _ (routes_from peer m) (comes_later peer ((zone, portal), entry) m)
        (routes_from-All peer m))
  where
    step :
        (is_for_peer peer zone entry ≡ true) ⊎ (is_for_peer peer zone entry ≡ false)
        → (parsed : Result PortalIdentifier) → Portal.parse portal ≡ parsed
        → All (ComesFromEntry peer (((zone, portal), entry) ∷ m)) (routes_from peer m)
        → All
            (ComesFromEntry peer (((zone, portal), entry) ∷ m))
            (routes_from peer (((zone, portal), entry) ∷ m))
    step (inr no_advert) parsed k rest = rw no_advert rest
    step (inl yes_advert) (err e) k rest = rw yes_advert (rw (k, advertise) rest)
    step (inl yes_advert) (ok p) k rest = rw yes_advert (
        rw (k, advertise)
          (
            (
              zone,
              portal,
              entry,
              Memᴰ.head refl,
              ground (arith, ==_iff zone peer.zone),
              (λ e. ground (arith, ==_iff entry.learned_from (some peer))),
              refl,
              k,
            ),
            rest,
          ))

-- Every route that is advertised to a peer is an entry of the table in that peer's zone, unchanged,
-- and none that was learned from that peer itself.
pub routes_for_peer-All :
    (t : RouteTable) (peer : Peer) → All (ComesFromEntry peer t.routes) (routes_for_peer t peer)
unfolding routes_for_peer
routes_for_peer-All t peer = routes_from-All peer t.routes

starts_with_path_iff :
    (path r : List Text)
    → (starts_with_path path r ≡ true) ↔ ((rest : List Text) × (path ≡ r ++ rest))
starts_with_path_iff path [] = (λ h. (path, refl), λ h. refl)
starts_with_path_iff [] (x ∷ r) = (λ h. cc, λ h. absurd (nil_ne x (r ++ h.0) h.1))
  where
    nil_ne : (y : Text) (l : List Text) → [] ≢ y ∷ l
    nil_ne y l e = cc
starts_with_path_iff (a ∷ path) (x ∷ r) = (
  λ h.
      let (rest, e) = (starts_with_path_iff path r).0 (ground arith) in
      (rest, ap₂ ◌∷◌ ((==_iff a x).0 (ground arith)) e),
  λ h.
      let e = h.1 in
      let same : a ≡ x = cc in
      let tails : path ≡ r ++ h.0 = cc in
      ground (arith, ==_iff a x, (starts_with_path_iff path r).1 (h.0, tails)),
)

-- A destination matches a route exactly when the route is the beginning of its path.
pub destination_matches_route_iff :
    (d r : Destination)
    → (destination_matches_route d r ≡ true) ↔ ((rest : List Text) × (d.agents ≡ r.agents ++ rest))
unfolding destination_matches_route
destination_matches_route_iff d r = (
  λ h. (starts_with_path_iff d.agents r.agents).0 (ground arith),
  λ h.
      let k = (starts_with_path_iff d.agents r.agents).1 h in
      let longer : length d.agents ≡ length r.agents + length h.0 =
        ap length h.1 ∙ length-append r.agents h.0 in
      ground arith,
)
