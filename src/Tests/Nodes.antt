-- ===== src/Tests/Nodes.antt =====
-- The theorems on the life of a node at concrete inputs.
use clipman_daemon.Prelude.{
  ℕ, ◌≡◌, refl, true, false, not, none, some, List, [], ◌∷◌, Bytes, codes, bytes_equal,
  bytes_equal_refl, is_some, All, arith,
}
use clipman_daemon.Prelude.Dict.{Dict, lookup}
use clipman_daemon.Sync.Discovery.{DiscoveryPeerInfo, File, missing, written}
use clipman_daemon.Sync.Discovery.Manual.{Host, manual, manual_peer}
use clipman_daemon.Sync.Node.{
  InternalPeerInfo, SyncNode, Services, start, stop, add_peer_by_address, remove_peer_by_id,
  to_internal, peer_discovered,
}
use clipman_daemon.Sync.Node.Restart.{or_else, stop-start}
use clipman_daemon.Sync.Node.Adding.{add_peer_by_address_lem}

-- An address is the text of its peer.
abbrev host : Host Bytes
host = record {
  host_id = codes "me";
  parse_address = some;
  address_info = λ a. some (a, a ∷ []);
  address_string = λ a. a;
  id_string = λ id. id;
  short_string = λ id. id;
  decode = some;
  connects = λ cancelled id addrs. not cancelled;
}

abbrev services : Services ℕ ℕ (Dict DiscoveryPeerInfo)
services = record {
  marshal = some;
  unmarshal = some;
  start_other = λ x. (x, true);
  stop_other = λ x. (x, true);
  start_handler = λ h. h;
  stop_handler = λ h. h;
}

abbrev friend : InternalPeerInfo
friend = record {
  peer_id = codes "friend";
  name = [];
  addrs = [];
  groups = [];
  last_seen = 3;
  capabilities = [];
  version = [];
  device_type = [];
}

abbrev running : SyncNode Bytes ℕ ℕ
running = record {
  group_node = record { has_pubsub = true; topics = []; subscriptions = [] };
  discovery = record {
    services = (codes "manual", manual (record { started = true })) ∷ [];
    on_peer_discovered = some (peer_discovered host);
    started = true;
    cancelled = false;
    persist_peers = true;
  };
  protocols = record { started = true; cancelled = false; handlers = []; stream_handlers = [] };
  peers = record { peer_store = (codes "friend", friend) ∷ []; dialled = [] };
  started = true;
  cancelled = false;
  persist_discovered_peers = true;
  auto_reconnect_to_peers = true;
}

abbrev fresh : SyncNode Bytes ℕ ℕ
fresh = record running { peers = record { peer_store = []; dialled = [] }; started = false }

abbrev no_peers_file : File (Dict DiscoveryPeerInfo)
no_peers_file = missing

still_found :
    (j : Bytes) (w : DiscoveryPeerInfo) (d d' : Dict DiscoveryPeerInfo)
    → All (λ e. is_some (lookup e.0 d) ≡ true) d'
    → All (λ e. is_some (lookup e.0 ((j, w) ∷ d)) ≡ true) d'
unfolding lookup
still_found j w d [] found = tt
still_found j w d ((k, v) ∷ d') found = (ground (arith, found.0), still_found j w d d' found.1)

keys_found : (d : Dict DiscoveryPeerInfo) → All (λ e. is_some (lookup e.0 d) ≡ true) d
unfolding lookup
keys_found [] = tt
keys_found ((k, v) ∷ d) = (ground (arith, bytes_equal_refl k), still_found k v d d (keys_found d))

stop-start_example :
    lookup
      (codes "friend")
      (start host services
        (stop host services true written no_peers_file running).0
        true
        fresh).peers.peer_store
    ≡ or_else (lookup (codes "friend") running.peers.peer_store) (lookup (codes "friend") [])
stop-start_example =
    stop-start host services (λ p. Unit {0}) (λ p is_id. refl)
      (λ d. (d, refl, d, refl, (λ k. refl), keys_found d)) running fresh no_peers_file true
      (codes "friend") tt (tt, tt) refl refl refl refl refl refl refl refl

other_is_added : (add_peer_by_address host (codes "other") 4 running).1 ≡ none
unfolding add_peer_by_address clipman_daemon.Sync.Discovery.Manual.get_manual_discovery lookup
    bytes_equal clipman_daemon.Sync.Discovery.Manual.add_peer
other_is_added = refl

add_peer_by_address_lem_example :
    (a : Bytes) × (some (codes "other") ≡ some a)
    × (id : Bytes) × (addrs : List Bytes) × (host.address_info a ≡ some (id, addrs))
    × (bytes_equal id (codes "me") ≡ false)
    × (lookup id (add_peer_by_address host (codes "other") 4 running).0.peers.peer_store
        ≡ some (to_internal (manual_peer host id addrs 4)))
    × (lookup id
          (remove_peer_by_id host id
            (add_peer_by_address host (codes "other") 4 running).0).0.peers.peer_store
        ≡ none)
add_peer_by_address_lem_example =
    add_peer_by_address_lem host (codes "other") 4 running (λ p. refl) refl other_is_added
