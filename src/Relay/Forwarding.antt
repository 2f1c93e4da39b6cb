-- ===== src/Relay/Forwarding.antt =====
-- paddington/src/relay.rs: what the proxy passes on, and what a configuration keeps of its entries.
use openportal.Base.{
  List, [], ◌∷◌, ◌++◌, Bool, true, false, Option, none, some, ◌==◌, nat_eq, list_eq, ==_iff, ◌&&◌,
  ◌||◌, &&-eq-true, All, any, ap₂, Bool-cases, inl, inr, ◌⊎◌, ◌≡◌, refl, sym, ◌∙◌, arith,
  if◌then◌else◌, is_some, ==_refl, All-map,
}
use openportal.Base.Assoc.{lookup, insert, lookup-insert}
use openportal.Base.Text.{Text}
use mathlib.Core.Path.{subst}
use mathlib.Core.Option.{some_inj}
use openportal.Relay.Errors.{Error, Result, pass, fail, ◌>>=◌, fail_is_not_pass, pass_inj}
use openportal.Relay.{
  RelayEnvelope, RelayedRole, client, server, RelayedPeer, Environment, Message, Action, send,
}
use openportal.Relay.Proxy.{
  PeerEntry, ServiceConfig, peer_of, add_relayed, add_entry, add_entries, relay_zone_of,
  relayed_peers, RelayPolicy, allow, permits, ProxyState, real_zone, forward, proxy_handler,
  add_zones, use_zones, proxy_client_zones, configure_proxy,
}
use openportal.Relay.Zones.{HasPair, IsZoneOf, Filed, permits-HasPair, add_zones-Filed}

-- An envelope that the proxy may pass on: its sender is the agent that the connection authenticated,
-- and the policy has the pair. It goes unread, to the zone of the client of its name.
abbrev pub IsForwarded :
    Environment → Message → List PeerEntry → List (Text × Text) → Action → Type 0
IsForwarded env message clients pairs action =
    (v : RelayEnvelope) × (zone : Text) × (env.read_envelope message.payload ≡ some v)
    × (v.from ≡ message.sender)
    × HasPair pairs v.from v.to
    × IsZoneOf clients v.to v.zone zone
    × (action ≡ send v.to zone message.payload)

Filed-IsZoneOf :
    (clients : List PeerEntry) (zones : List (Text × Text)) (v : RelayEnvelope)
    → Filed clients [] zones v.to
    → IsZoneOf clients v.to v.zone (real_zone (lookup v.to zones) v)
unfolding lookup
Filed-IsZoneOf clients zones v (inl (zone, found, inl has)) = rw found (inl has)
Filed-IsZoneOf clients zones v (inl (zone, found, inr old)) = cc
Filed-IsZoneOf clients zones v (inr (missing, others, old)) = rw missing (inr (others, refl))

handler-IsForwarded :
    (env : Environment) (message : Message) (clients : List PeerEntry) (s : ProxyState)
    → add_zones clients [] ≡ pass s.client_zones
    → All (IsForwarded env message clients s.policy.pairs) (proxy_handler env message s)
unfolding proxy_handler
handler-IsForwarded env message clients s made = step (env.read_envelope message.payload) refl
  where
    chosen :
        (b : Bool) (v : RelayEnvelope)
        → (v.from == message.sender && permits s.policy v.from v.to) ≡ b
        → env.read_envelope message.payload ≡ some v
        → All (IsForwarded env message clients s.policy.pairs) (
            if b
            then send v.to (real_zone (lookup v.to s.client_zones) v) message.payload ∷ []
            else [])
    chosen false v e r = tt
    chosen true v e r =
        let (same, permitted) =
          &&-eq-true (v.from == message.sender) (permits s.policy v.from v.to) e in
        (
          (
            v,
            real_zone (lookup v.to s.client_zones) v,
            r,
            (==_iff v.from message.sender).0 same,
            permits-HasPair s.policy v.from v.to permitted,
            Filed-IsZoneOf clients s.client_zones v
                (add_zones-Filed clients [] s.client_zones v.to made),
            refl,
          ),
          tt,
        )

    step :
        (o : Option RelayEnvelope)
        → env.read_envelope message.payload ≡ o
        → All (IsForwarded env message clients s.policy.pairs) (forward o message s)
    step none r = unfold forward in tt
    step (some v) r =
        unfold forward in chosen (v.from == message.sender && permits s.policy v.from v.to) v refl r

-- When the proxy has accepted a configuration: whatever it sends is the message that it received,
-- unchanged; its envelope names the authenticated sender of the connection, the policy has the pair in
-- one direction or the other, and the message goes to the recipient that the envelope names, in the zone
-- that the configuration gives the client of that name. Only when no client has that name does it go
-- to the zone that the envelope names.
pub proxy_handler-IsForwarded :
    (env : Environment) (message : Message) (c : ServiceConfig) (s : ProxyState)
    → (configure_proxy c s).1 ≡ pass tt
    → All
        (IsForwarded env message c.clients s.policy.pairs)
        (proxy_handler env message (configure_proxy c s).0)
unfolding configure_proxy proxy_client_zones
proxy_handler-IsForwarded env message c s done = step (add_zones c.clients []) refl done
  where
    step :
        (r : Result (List (Text × Text)))
        → add_zones c.clients [] ≡ r
        → (use_zones r s).1 ≡ pass tt
        → All
            (IsForwarded env message c.clients s.policy.pairs)
            (proxy_handler env message (use_zones r s).0)
    step (fail e) made h =
        let refused : fail e ≡ pass tt = unfold use_zones in h in absurd (fail_is_not_pass refused)
    step (pass zones) made h =
        unfold use_zones in
        handler-IsForwarded env message c.clients (record s { client_zones = zones }) made

any_comm :
    (pairs : List (Text × Text)) (a b : Text)
    → any (λ pair. pair.0 == a && pair.1 == b || (pair.0 == b && pair.1 == a)) pairs
      ≡ any (λ pair. pair.0 == b && pair.1 == a || (pair.0 == a && pair.1 == b)) pairs
any_comm [] a b = refl
any_comm ((x, y) ∷ pairs) a b =
    ap₂ (λ p q. p || q) (swap (x == a && y == b) (x == b && y == a)) (any_comm pairs a b)
  where
    swap : (p q : Bool) → (p || q) ≡ (q || p)
    swap p q = ground arith

any-append :
    (pairs : List (Text × Text)) (f : Text × Text → Bool) (x : Text × Text)
    → any f (pairs ++ x ∷ []) ≡ (any f pairs || f x)
any-append [] f x = ground arith
any-append (y ∷ pairs) f x = rw (any-append pairs f x) (assoc (f y) (any f pairs) (f x))
  where
    assoc : (p q r : Bool) → (p || (q || r)) ≡ (p || q || r)
    assoc p q r = ground arith

-- The policy does not look at the direction of a pair, and allowing a pair permits it and changes the
-- answer for no other pair.
pub permits-allow :
    (policy : RelayPolicy) (a b from to : Text)
    → (permits policy from to ≡ permits policy to from)
      × (permits (allow policy a b) from to
          ≡ (permits policy from to || (a == from && b == to || (a == to && b == from))))
unfolding permits allow
permits-allow policy a b from to = (any_comm policy.pairs from to, any-append policy.pairs _ (a, b))

-- The entries that a configuration reaches over a proxy, each under its own name.
abbrev pub IsKept :
    (Text → RelayedRole) → List PeerEntry → List (Text × RelayedPeer) → PeerEntry → Type 0
IsKept role servers peers e =
    (relay : Text)
    → e.proxy ≡ some relay
    → lookup e.name peers ≡ some (peer_of role (relay_zone_of servers) e relay)

-- A step adds a peer under a new name, so the peers that are there are found as before.
abbrev pub Extends : List (Text × RelayedPeer) → List (Text × RelayedPeer) → Type 0
Extends peers out =
    (name : Text) (p : RelayedPeer) → lookup name peers ≡ some p → lookup name out ≡ some p

insert-Extends :
    (name : Text) (p : RelayedPeer) (peers : List (Text × RelayedPeer))
    → is_some (lookup name peers) ≡ false
    → Extends peers (insert name p peers)
insert-Extends name p peers new other q found =
    rw (lookup-insert name other p peers) (step (Bool-cases (name == other)))
  where
    step :
        ((name == other) ≡ true) ⊎ ((name == other) ≡ false)
        → (if name == other then some p else lookup other peers) ≡ some q
    step (inl e) =
        absurd (clash (subst (λ k. lookup k peers ≡ some q) (sym ((==_iff name other).0 e)) found))
      where
        clash : lookup name peers ≡ some q → ⊥
        clash f = ground (arith, f, new)
    step (inr e) = rw e found

add_relayed-Extends :
    (role : Text → RelayedRole) (zone_of : Text → Text) (e : PeerEntry) (relay : Text)
    (peers out : List (Text × RelayedPeer))
    → add_relayed role zone_of e relay peers ≡ pass out
    → Extends peers out × (lookup e.name out ≡ some (peer_of role zone_of e relay))
unfolding add_relayed
add_relayed-Extends role zone_of e relay peers out = step (is_some (lookup e.name peers)) refl
  where
    p : RelayedPeer
    p = peer_of role zone_of e relay

    step :
        (b : Bool)
        → is_some (lookup e.name peers) ≡ b
        → (if b then fail Error.invalid_peer else pass (insert e.name p peers)) ≡ pass out
        → Extends peers out × (lookup e.name out ≡ some p)
    step true known h = absurd (fail_is_not_pass h)
    step false new h =
        subst (λ out. Extends peers out × (lookup e.name out ≡ some p)) (pass_inj h)
          (
            insert-Extends e.name p peers new,
            lookup-insert e.name e.name p peers ∙ rw (==_refl e.name) refl,
          )

-- Every entry with a proxy is found in the end, and so is what was there before.
abbrev pub Adds :
    (Text → RelayedRole)
    → (Text → Text)
    → List PeerEntry
    → List (Text × RelayedPeer)
    → List (Text × RelayedPeer)
    → Type 0
Adds role zone_of es peers out =
    Extends peers out
    × All
        (λ e.
          (relay : Text)
          → e.proxy ≡ some relay
          → lookup e.name out ≡ some (peer_of role zone_of e relay))
        es

add_entries-Adds :
    (role : Text → RelayedRole) (zone_of : Text → Text) (es : List PeerEntry)
    (peers out : List (Text × RelayedPeer))
    → add_entries role zone_of es peers ≡ pass out
    → Adds role zone_of es peers out
unfolding add_entries
add_entries-Adds role zone_of [] peers out h =
    (λ name p found. subst (λ ps. lookup name ps ≡ some p) (pass_inj h) found, tt)
add_entries-Adds role zone_of (e ∷ es) peers out h =
    by_proxy e.proxy refl (λ ps. add_entries-Adds role zone_of es ps out) h
  where
    Later : Type 0
    Later =
        (ps : List (Text × RelayedPeer))
        → add_entries role zone_of es ps ≡ pass out
        → Adds role zone_of es ps out

    by_added :
        (relay : Text) (r : Result (List (Text × RelayedPeer)))
        → e.proxy ≡ some relay
        → add_relayed role zone_of e relay peers ≡ r
        → Later
        → (r >>= add_entries role zone_of es) ≡ pass out
        → Adds role zone_of (e ∷ es) peers out
    by_added relay (fail x) q added rest h = absurd (fail_is_not_pass h)
    by_added relay (pass ps) q added rest h =
        let (before, found) = add_relayed-Extends role zone_of e relay peers ps added in
        let (later, all_found) = rest ps h in
        (
          λ name p there. later name p (before name p there),
          (
            λ other k.
                subst (λ r. lookup e.name out ≡ some (peer_of role zone_of e r))
                  (some_inj.0 (sym q ∙ k)) (later e.name (peer_of role zone_of e relay) found),
            all_found,
          ),
        )

    clash : {relay : Text} → none ≡ some relay → ⊥
    clash h = cc

    by_proxy :
        (o : Option Text)
        → e.proxy ≡ o
        → Later
        → (add_entry role zone_of e o peers >>= add_entries role zone_of es) ≡ pass out
        → Adds role zone_of (e ∷ es) peers out
    by_proxy none q rest h =
        let (later, all_found) = rest peers h in
        (later, (λ relay k. absurd (clash (sym q ∙ k)), all_found))
    by_proxy (some relay) q rest h =
        by_added relay (add_relayed role zone_of e relay peers) q refl rest h

-- A configuration that is accepted keeps every server and every client that it reaches over a proxy,
-- with the entry's own zone, keys and relay: no entry is lost to another of the same name.
pub relayed_peers-IsKept :
    (c : ServiceConfig) (peers : List (Text × RelayedPeer))
    → relayed_peers c ≡ pass peers
    → All (IsKept client c.servers peers) c.servers × All (IsKept server c.servers peers) c.clients
unfolding relayed_peers
relayed_peers-IsKept c peers h = step (add_entries client zone_of c.servers []) refl h
  where
    zone_of : Text → Text
    zone_of = relay_zone_of c.servers

    step :
        (r : Result (List (Text × RelayedPeer)))
        → add_entries client zone_of c.servers [] ≡ r
        → (r >>= add_entries server zone_of c.clients) ≡ pass peers
        → All (IsKept client c.servers peers) c.servers
          × All (IsKept server c.servers peers) c.clients
    step (fail e) added h = absurd (fail_is_not_pass h)
    step (pass ps) added h =
        let (_, servers) = add_entries-Adds client zone_of c.servers [] ps added in
        let (later, clients) = add_entries-Adds server zone_of c.clients ps peers h in
        (
          All-map (IsKept client c.servers ps) (IsKept client c.servers peers) c.servers
              (λ e kept relay q. later e.name (peer_of client zone_of e relay) (kept relay q))
              servers,
          clients,
        )
