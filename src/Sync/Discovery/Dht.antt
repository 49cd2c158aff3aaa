-- ===== src/Sync/Discovery/Dht.antt =====
-- internal/sync/discovery/dht.go and mdns.go: the services that find peers by themselves. What the DHT
-- and mDNS answer is an argument.
pub mod Loop
use clipman_daemon.Prelude.{
  ℕ, Bool, true, false, not, ◌||◌, Option, none, some, List, [], ◌∷◌, ◌++◌, map, Bytes, codes,
  bytes_equal, if◌then◌else◌,
}
use clipman_daemon.Sync.Discovery.{DiscoveryPeerInfo}
use clipman_daemon.Sync.Discovery.Manual.{Host}

-- The DHT and the ticker are kept as whether there is one.
pub record DhtDiscovery (M : Type 0) : Type 0 where
  pub bootstrap_peers : List (Bytes × List M)
  pub has_dht : Bool
  pub has_ticker : Bool
  pub cancelled : Bool
  pub started : Bool

pub record MdnsDiscovery : Type 0 where
  pub has_service : Bool
  pub started : Bool

-- What a service does when it finds a peer: it tells the manager, and asks for a connection.
pub record Finding (M : Type 0) : Type 0 where
  pub noticed : DiscoveryPeerInfo
  pub dialled : Bytes × List M

module _ {M : Type 0} (host : Host M) where
  -- The addresses that name a peer (peer.AddrInfoFromString), the others skipped.
  unfoldable pub parse_bootstrap_peers : List Bytes → List (Bytes × List M)
  parse_bootstrap_peers [] = []
  parse_bootstrap_peers (s ∷ strings) =
      let rest = parse_bootstrap_peers strings in
      elim (host.parse_address s) [
        | none ↦ rest
        | some a ↦ elim (host.address_info a) [ none ↦ rest | some info ↦ info ∷ rest ]
      ]

  unfoldable pub new_dht_discovery : List Bytes → DhtDiscovery M
  unfolding parse_bootstrap_peers
  new_dht_discovery strings = record {
    bootstrap_peers = parse_bootstrap_peers strings;
    has_dht = false;
    has_ticker = false;
    cancelled = false;
    started = false;
  }

  -- The peer that is told of, under the name's prefix and the method.
  unfoldable pub found_peer : Bytes → Bytes → Bytes × List M → ℕ → DiscoveryPeerInfo
  found_peer prefix method (id, addrs') now = record {
    peer_id = host.id_string id;
    name = prefix ++ host.short_string id;
    addrs = map host.address_string addrs';
    groups = [];
    last_seen = now;
    capabilities = (codes "discovery", method) ∷ [];
    version = [];
    device_type = codes "unknown";
  }

  -- The loop over the providers: the host itself is skipped.
  unfoldable pub process_providers : ℕ → List (Bytes × List M) → List (Finding M)
  unfolding found_peer
  process_providers now [] = []
  process_providers now (p ∷ providers) =
      let rest = process_providers now providers in
      if bytes_equal p.0 host.host_id
      then rest
      else record { noticed = found_peer (codes "DHT-Peer-") (codes "dht") p now; dialled = p }
        ∷ rest

  unfoldable pub discover_dht_peers : DhtDiscovery M → ℕ → List (Bytes × List M) → List (Finding M)
  unfolding process_providers
  discover_dht_peers d now providers =
      if not d.started || not d.has_dht then [] else process_providers now providers

  -- `HandlePeerFound`
  unfoldable pub handle_peer_found : ℕ → Bytes × List M → Option (Finding M)
  unfolding found_peer
  handle_peer_found now p =
      if bytes_equal p.0 host.host_id
      then none
      else some
          (record { noticed = found_peer (codes "mDNS-Peer-") (codes "mdns") p now; dialled = p })

-- `Start`, and whether it succeeds: the DHT is made or not, all bootstrap peers are dialled, and the
-- errors of the connections and of the bootstrap are logged.
unfoldable pub start : {M : Type 0} → Bool → DhtDiscovery M → DhtDiscovery M × Bool
start makes d =
    if d.started
    then (d, true)
    else if not makes
    then (d, false)
    else (record d { has_dht = true; has_ticker = true; started = true }, true)

-- `Stop` always succeeds.
unfoldable pub stop : {M : Type 0} → DhtDiscovery M → DhtDiscovery M
stop d =
    if not d.started
    then d
    else record d { has_ticker = false; cancelled = true; has_dht = false; started = false }

unfoldable pub new_mdns_discovery : MdnsDiscovery
new_mdns_discovery = record { has_service = false; started = false }

unfoldable pub start_mdns : MdnsDiscovery → MdnsDiscovery
start_mdns m = if m.started then m else record { has_service = true; started = true }

unfoldable pub stop_mdns : MdnsDiscovery → MdnsDiscovery
stop_mdns m = if not m.started then m else record { has_service = false; started = false }
