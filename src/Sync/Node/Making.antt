-- ===== src/Sync/Node/Making.antt =====
-- internal/sync/node.go: `NewNode`, without options, and what of a node changes while it runs.
use clipman_daemon.Prelude.{
  ◌≡◌, ◌≢◌, Bool, true, false, not, ◌&&◌, Option, none, some, List, [], Bytes, codes, bytes_equal,
  if◌then◌else◌, is_some, arith,
}
use clipman_daemon.Prelude.Int.{ℤ}
use clipman_daemon.Prelude.Dict.{values}
use clipman_daemon.Sync.Config.{
  SyncConfig, validate_sync_config, get_node_config, convert_to_discovery_config,
}
use clipman_daemon.Sync.Config.Loading.{
  map_to_libp2p_options, load_identity_from_string, persist_discovered_peers,
  auto_reconnect_to_peers, options_of_identity,
}
use clipman_daemon.Sync.Discovery.{new_manager, add_service, set_peer_discovered_callback}
use clipman_daemon.Sync.Discovery.Manual.{Host, manual, other, new_manual_discovery}
use clipman_daemon.Sync.Protocols.{new_protocol_manager, add_handler, pairing_protocol_path}
use clipman_daemon.Sync.Node.{SyncNode, InternalPeerInfo, peer_discovered}

-- What libp2p and the random source answer: whether a key is generated, a host made, an address read,
-- and the services of mDNS, of the DHT if it can be made, and of the paired devices.
pub record Making (X : Type 0) : Type 0 where
  pub generates : Bool
  pub makes_host : Bool
  pub parses : Bytes → Bool
  pub show_port : ℤ → Bytes
  pub mdns : X
  pub dht : Option X
  pub paired : X

pub data NodeError : Type 0 where
  invalid_config identity_failed options_failed host_failed : NodeError

pub data NodeResult (M X H : Type 0) : Type 0 where
  created : SyncNode M X H → NodeResult M X H
  failed : NodeError → NodeResult M X H

module _ {M X H : Type 0} (host : Host M) (pairing_handler : H) where
  -- The node around a host that was made.
  unfoldable pub node_of : Making X → SyncConfig → SyncNode M X H
  unfolding convert_to_discovery_config new_manual_discovery
  node_of making c =
      let d = convert_to_discovery_config c in
      let manager =
        new_manager persist_discovered_peers d.discovery_mdns d.discovery_dht (other making.mdns)
          (elim making.dht [ none ↦ none | some x ↦ some (other x) ])
          (manual new_manual_discovery) in
      let with_paired =
        if bytes_equal c.discovery_method (codes "paired")
        then add_service (codes "paired") (other making.paired) manager
        else manager in
      record {
        group_node = record { has_pubsub = false; topics = []; subscriptions = [] };
        discovery = set_peer_discovered_callback (peer_discovered host) with_paired;
        protocols = add_handler pairing_protocol_path pairing_handler new_protocol_manager;
        peers = record { peer_store = []; dialled = [] };
        started = false;
        cancelled = false;
        persist_discovered_peers = persist_discovered_peers;
        auto_reconnect_to_peers = auto_reconnect_to_peers;
      }

  -- The key that is loaded or generated is not used.
  unfoldable pub new_node : Making X → SyncConfig → NodeResult M X H
  unfolding node_of get_node_config load_identity_from_string
  new_node making c =
      let n = get_node_config making.show_port c in
      let loaded =
        not (bytes_equal n.node_identity [])
        && is_some (load_identity_from_string n.node_identity) in
      if is_some (validate_sync_config c)
      then failed invalid_config
      else if not loaded && not making.generates
      then failed identity_failed
      else elim (map_to_libp2p_options making.parses n) [
        | none ↦ failed options_failed
        | some options ↦
            if making.makes_host then created (node_of making c) else failed host_failed
      ]

  -- From a configuration that passes the check and has no identity a node is made, if a key is
  -- generated and the host is made.
  pub new_node_lem :
      (making : Making X) (c : SyncConfig)
      → validate_sync_config c ≡ none
      → bytes_equal c.peer_identity [] ≡ true
      → making.generates ≡ true
      → making.makes_host ≡ true
      → new_node making c ≡ created (node_of making c)
  unfolding new_node get_node_config map_to_libp2p_options
  new_node_lem making c valid without generates makes =
      ground (arith, valid, without, generates, makes)

  -- A node is never made from a configuration with an identity.
  new_node_identity :
      (making : Making X) (c : SyncConfig)
      → bytes_equal c.peer_identity [] ≡ false
      → (n : SyncNode M X H) → new_node making c ≢ created n
  unfolding new_node get_node_config
  new_node_identity making c given n = λ e.
      ground
        (arith, e, options_of_identity making.parses (get_node_config making.show_port c) given)

module _ {M X H : Type 0} where
  unfoldable pub get_peers : SyncNode M X H → List InternalPeerInfo
  get_peers n = values n.peers.peer_store
