-- ===== src/Sync/Node.antt =====
-- internal/sync/node.go: the life of a node, its peers, and the file that keeps them. libp2p is the
-- argument `host`. The model records the connections that the node asks for, in their order; whether
-- one comes about changes nothing of the node.
pub mod Making
pub mod Connected
pub mod Restart
pub mod Adding
use clipman_daemon.Prelude.{
  ℕ, Bool, true, false, not, ◌&&◌, Option, none, some, List, [], ◌∷◌, ◌++◌, Bytes, if◌then◌else◌,
}
use clipman_daemon.Prelude.Dict.{Dict, insert, delete}
use clipman_daemon.Sync.Discovery.{
  DiscoveryPeerInfo, Manager, PeersError, Write, File, handle_peer_discovered,
  save_discovered_peers, load_discovered_peers,
}
use clipman_daemon.Sync.Discovery as Discovery
use clipman_daemon.Sync.Discovery.Manual.{
  AnyService, Host, ManualError, start_any, stop_any, get_manual_discovery,
}
use clipman_daemon.Sync.Discovery.Manual as Manual
use clipman_daemon.Sync.Protocols.{ProtocolManager}
use clipman_daemon.Sync.Protocols as Protocols
use clipman_daemon.Sync.Topics as Topics

pub record InternalPeerInfo : Type 0 where
  pub peer_id : Bytes
  pub name : Bytes
  pub addrs : List Bytes
  pub groups : List Bytes
  pub last_seen : ℕ
  pub capabilities : Dict Bytes
  pub version : Bytes
  pub device_type : Bytes

unfoldable pub to_internal : DiscoveryPeerInfo → InternalPeerInfo
to_internal p = record {
  peer_id = p.peer_id;
  name = p.name;
  addrs = p.addrs;
  groups = p.groups;
  last_seen = p.last_seen;
  capabilities = p.capabilities;
  version = p.version;
  device_type = p.device_type;
}

unfoldable pub to_discovery : InternalPeerInfo → DiscoveryPeerInfo
to_discovery p = record {
  peer_id = p.peer_id;
  name = p.name;
  addrs = p.addrs;
  groups = p.groups;
  last_seen = p.last_seen;
  capabilities = p.capabilities;
  version = p.version;
  device_type = p.device_type;
}

-- The peers by their peer.ID, and the connections asked for.
pub record Peers (M : Type 0) : Type 0 where
  pub peer_store : Dict InternalPeerInfo
  pub dialled : List (Bytes × List M)

pub record SyncNode (M X H : Type 0) : Type 0 where
  pub group_node : Topics.Node
  pub discovery : Manager (AnyService X) (Peers M)
  pub protocols : ProtocolManager H
  pub peers : Peers M
  pub started : Bool
  pub cancelled : Bool
  pub persist_discovered_peers : Bool
  pub auto_reconnect_to_peers : Bool

module _ {M : Type 0} (host : Host M) where
  -- The addresses that are read, the others skipped.
  unfoldable pub parse_addresses : List Bytes → List M
  parse_addresses [] = []
  parse_addresses (s ∷ strings) =
      let rest = parse_addresses strings in
      elim (host.parse_address s) [ none ↦ rest | some a ↦ a ∷ rest ]

  unfoldable pub peer_info_to_addr_info : InternalPeerInfo → Option (Bytes × List M)
  unfolding parse_addresses
  peer_info_to_addr_info p = elim (host.decode p.peer_id) [
    | none ↦ none
    | some id ↦ some (id, parse_addresses p.addrs)
  ]

  -- In the callback an address must name its peer (peer.AddrInfoFromString).
  unfoldable pub parse_peer_addresses : List Bytes → List M
  parse_peer_addresses [] = []
  parse_peer_addresses (s ∷ strings) =
      let rest = parse_peer_addresses strings in
      elim (host.parse_address s) [
        | none ↦ rest
        | some a ↦ elim (host.address_info a) [ none ↦ rest | some info ↦ info.1 ++ rest ]
      ]

  -- The callback that `NewNode` sets.
  unfoldable pub peer_discovered : DiscoveryPeerInfo → Peers M → Peers M
  unfolding to_internal parse_peer_addresses
  peer_discovered info peers = elim (host.decode info.peer_id) [
    | none ↦ peers
    | some id ↦ record {
      peer_store = insert id (to_internal info) peers.peer_store;
      dialled = peers.dialled ++ (id, parse_peer_addresses info.addrs) ∷ [];
    }
  ]

  -- The loop of `Start` over the peers of the file. Go fixes no order; the first comes last here.
  unfoldable pub load_peers : Dict DiscoveryPeerInfo → Peers M → Peers M
  unfolding to_internal peer_info_to_addr_info
  load_peers [] peers = peers
  load_peers ((id, info) ∷ previous) peers =
      let rest = load_peers previous peers in
      elim (host.decode id) [
        | none ↦ rest
        | some pid ↦ record {
          peer_store = insert pid (to_internal info) rest.peer_store;
          dialled = elim (peer_info_to_addr_info (to_internal info)) [
            | none ↦ rest.dialled
            | some addr ↦ rest.dialled ++ addr ∷ []
          ];
        }
      ]

  -- The loop of `savePeers`.
  unfoldable pub discovery_peers : Dict InternalPeerInfo → Dict DiscoveryPeerInfo
  unfolding to_discovery
  discovery_peers [] = []
  discovery_peers ((id, info) ∷ store) =
      insert (host.id_string id) (to_discovery info) (discovery_peers store)

module _ {M X H : Type 0} (host : Host M) where
  unfoldable pub add_peer : InternalPeerInfo → SyncNode M X H → SyncNode M X H
  add_peer p n = elim (host.decode p.peer_id) [
    | none ↦ n
    | some id ↦ record n {
      peers = record (n.peers) { peer_store = insert id p n.peers.peer_store };
    }
  ]

  -- `RemovePeerByID`, with `RemovePeer`; false is the error. The host forgets the addresses.
  unfoldable pub remove_peer_by_id : Bytes → SyncNode M X H → SyncNode M X H × Bool
  remove_peer_by_id peer_id n = elim (host.decode peer_id) [
    | none ↦ (n, false)
    | some id ↦
        (record n { peers = record (n.peers) { peer_store = delete id n.peers.peer_store } }, true)
  ]

  -- `AddPeerByAddress`; the manual service tells the manager, which calls the node back.
  unfoldable pub add_peer_by_address :
      Bytes → ℕ → SyncNode M X H → SyncNode M X H × Option ManualError
  add_peer_by_address addr now n =
      let (e, found) = get_manual_discovery n.discovery in
      elim found [
        | none ↦ (n, e)
        | some service ↦
            let (failure, notice) = Manual.add_peer host service n.discovery.cancelled addr now in
            elim notice [
              | none ↦ (n, failure)
              | some info ↦
                  (record n { peers = handle_peer_discovered n.discovery info n.peers }, failure)
            ]
      ]

-- What the node's surroundings do: the JSON format, other services, the handlers, pubsub.
pub record Services (X H D : Type 0) : Type 0 where
  pub marshal : Dict DiscoveryPeerInfo → Option D
  pub unmarshal : D → Option (Dict DiscoveryPeerInfo)
  pub start_other : X → X × Bool
  pub stop_other : X → X × Bool
  pub start_handler : H → H
  pub stop_handler : H → H

module _ {M X H D : Type 0} (host : Host M) (services : Services X H D) where
  -- `Start`, which cannot fail, since neither manager's Start does. `pubsub_made` is whether
  -- NewGossipSub succeeds.
  unfoldable pub start : File D → Bool → SyncNode M X H → SyncNode M X H
  start file pubsub_made n = if n.started then n else record n {
    peers =
        if n.persist_discovered_peers && n.auto_reconnect_to_peers
        then load_peers host (load_discovered_peers services.unmarshal n.discovery file).0 n.peers
        else n.peers;
    discovery = Discovery.start (start_any services.start_other) n.discovery;
    protocols = Protocols.start services.start_handler n.protocols;
    group_node = if pubsub_made then record (n.group_node) { has_pubsub = true } else n.group_node;
    started = true;
  }

  -- `savePeers`: the file, and the error.
  unfoldable pub save_peers : Bool → Write D → File D → SyncNode M X H → File D × Option PeersError
  unfolding save_discovered_peers discovery_peers
  save_peers mkdir write file n = elim n.peers.peer_store [
    | [] ↦ (file, none)
    | p ∷ store ↦
        if not n.persist_discovered_peers
        then (file, none)
        else save_discovered_peers services.marshal n.discovery (discovery_peers host (p ∷ store))
            mkdir write file
  ]

  -- `Stop`: the file that it leaves, and the node. The errors are logged.
  unfoldable pub stop : Bool → Write D → File D → SyncNode M X H → File D × SyncNode M X H
  stop mkdir write file n = if not n.started then (file, n) else (
    if n.persist_discovered_peers then (save_peers mkdir write file n).0 else file,
    record n {
      protocols = Protocols.stop services.stop_handler n.protocols;
      discovery = Discovery.stop (stop_any services.stop_other) n.discovery;
      group_node = record (n.group_node) { subscriptions = []; topics = [] };
      started = false;
    },
  )

  -- `Close`
  unfoldable pub close : Bool → Write D → File D → SyncNode M X H → File D × SyncNode M X H
  unfolding stop
  close mkdir write file n =
      let r = if n.started then stop mkdir write file n else (file, n) in
      (r.0, record (r.1) { cancelled = true })
