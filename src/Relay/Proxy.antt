-- ===== src/Relay/Proxy.antt =====
-- paddington/src/relay.rs: what `configure` reads from a service's configuration, and the proxy, which
-- passes envelopes on between its clients: `RelayPolicy`, `configure_proxy` and `proxy_handler`.
use openportal.Base.{
  ℕ, List, [], ◌∷◌, ◌++◌, Bool, Option, none, some, ◌==◌, nat_eq, list_eq, ◌&&◌, ◌||◌,
  if◌then◌else◌, any, is_some,
}
use openportal.Base.Text.{Text, text}
use openportal.Base.Assoc.{lookup, insert}
use openportal.Relay.Errors.{Error, Result, pass, fail, ◌>>=◌}
use openportal.Relay.{
  RelayEnvelope, RelayedRole, client, server, RelayedPeer, RelayState, Environment, Message, Action,
  send,
}

-- What `configure` reads of a `ServerConfig` or a `ClientConfig`.
pub record PeerEntry : Type 0 where
  pub name : Text
  pub zone : Text
  pub proxy : Option Text
  pub inner_key : List ℕ
  pub outer_key : List ℕ

-- What it reads of a `ServiceConfig`.
pub record ServiceConfig : Type 0 where
  pub name : Text
  pub servers : List PeerEntry
  pub clients : List PeerEntry

-- `relay_zone_of`: the zone of the first server of that name.
unfoldable pub relay_zone_of : List PeerEntry → Text → Text
relay_zone_of [] relay = text "default"
relay_zone_of (e ∷ servers) relay =
    let rest = relay_zone_of servers relay in if e.name == relay then e.zone else rest

-- `check_unique` and the insertion, for an entry with a proxy. Every name that was checked is a key of
-- the map of peers.
abbrev pub peer_of : (Text → RelayedRole) → (Text → Text) → PeerEntry → Text → RelayedPeer
peer_of role zone_of e relay = record {
  zone = e.zone;
  relay_zone = zone_of relay;
  role = role relay;
  inner_key = e.inner_key;
  outer_key = e.outer_key;
}

unfoldable pub add_relayed :
    (Text → RelayedRole)
    → (Text → Text)
    → PeerEntry
    → Text
    → List (Text × RelayedPeer)
    → Result (List (Text × RelayedPeer))
add_relayed role zone_of e relay peers =
    if is_some (lookup e.name peers)
    then fail Error.invalid_peer
    else pass (insert e.name (peer_of role zone_of e relay) peers)

abbrev pub add_entry :
    (Text → RelayedRole)
    → (Text → Text)
    → PeerEntry
    → Option Text
    → List (Text × RelayedPeer)
    → Result (List (Text × RelayedPeer))
add_entry role zone_of e none peers = pass peers
add_entry role zone_of e (some relay) peers = add_relayed role zone_of e relay peers

unfoldable pub add_entries :
    (Text → RelayedRole)
    → (Text → Text)
    → List PeerEntry
    → List (Text × RelayedPeer)
    → Result (List (Text × RelayedPeer))
add_entries role zone_of [] peers = pass peers
add_entries role zone_of (e ∷ es) peers =
    add_entry role zone_of e e.proxy peers >>= add_entries role zone_of es

unfoldable pub relayed_peers : ServiceConfig → Result (List (Text × RelayedPeer))
relayed_peers c =
    add_entries client (relay_zone_of c.servers) c.servers []
    >>= add_entries server (relay_zone_of c.servers) c.clients

unfoldable pub use_peers :
    Result (List (Text × RelayedPeer)) → ServiceConfig → RelayState → RelayState × Result (Unit {0})
use_peers (fail e) c s = (s, fail e)
use_peers (pass peers) c s =
    (record s { config = some (record { my_name = c.name; peers = peers }) }, pass tt)

-- `configure`
unfoldable pub configure : ServiceConfig → RelayState → RelayState × Result (Unit {0})
configure c s = use_peers (relayed_peers c) c s

pub record RelayPolicy : Type 0 where
  pub pairs : List (Text × Text)

unfoldable pub allow : RelayPolicy → Text → Text → RelayPolicy
allow policy a b = record { pairs = policy.pairs ++ (a, b) ∷ [] }

unfoldable pub permits : RelayPolicy → Text → Text → Bool
permits policy from to =
    any (λ pair. pair.0 == from && pair.1 == to || (pair.0 == to && pair.1 == from)) policy.pairs

-- The state of a proxy.
pub record ProxyState : Type 0 where
  pub policy : RelayPolicy
  pub client_zones : List (Text × Text)

unfoldable pub add_zones : List PeerEntry → List (Text × Text) → Result (List (Text × Text))
add_zones [] zones = pass zones
add_zones (c ∷ clients) zones =
    let rest = add_zones clients (insert c.name c.zone zones) in
    if is_some (lookup c.name zones) then fail Error.invalid_peer else rest

-- `proxy_client_zones`
unfoldable pub proxy_client_zones : ServiceConfig → Result (List (Text × Text))
proxy_client_zones c = add_zones c.clients []

unfoldable pub use_zones : Result (List (Text × Text)) → ProxyState → ProxyState × Result (Unit {0})
use_zones (fail e) s = (s, fail e)
use_zones (pass zones) s = (record s { client_zones = zones }, pass tt)

unfoldable pub configure_proxy : ServiceConfig → ProxyState → ProxyState × Result (Unit {0})
configure_proxy c s = use_zones (proxy_client_zones c) s

abbrev pub real_zone : Option Text → RelayEnvelope → Text
real_zone (some zone) v = zone
real_zone none v = v.zone

unfoldable pub forward : Option RelayEnvelope → Message → ProxyState → List Action
forward none message s = []
forward (some v) message s =
    if v.from == message.sender && permits s.policy v.from v.to
    then send v.to (real_zone (lookup v.to s.client_zones) v) message.payload ∷ []
    else []

-- `proxy_handler`: what it sends. It answers `Ok` in every case.
unfoldable pub proxy_handler : Environment → Message → ProxyState → List Action
proxy_handler env message s = forward (env.read_envelope message.payload) message s
