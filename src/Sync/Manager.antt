-- ===== src/Sync/Manager.antt =====
-- internal/sync/sync.go: the manager around a node and its pairing manager. The pairing manager, which is
-- also a handler of the node's protocols, is kept once, beside the node. The operations on groups are
-- in Topics.
use clipman_daemon.Prelude.{
  ℕ, Bool, true, false, not, ◌&&◌, Option, none, some, List, [], map, Bytes, if◌then◌else◌,
}
use clipman_daemon.Sync.Config.{SyncConfig}
use clipman_daemon.Sync.Discovery.{Write, File}
use clipman_daemon.Sync.Discovery.Manual.{Host, ManualError}
use clipman_daemon.Sync.Node.{SyncNode, Services, add_peer_by_address, remove_peer_by_id}
use clipman_daemon.Sync.Node as Node
use clipman_daemon.Sync.Node.Making.{Making, NodeError, created, failed, new_node, get_peers}
use clipman_daemon.Sync.Node.Connected.{
  PeerInfo, to_external_peer_info, get_connected_peers, disconnect_peer,
}
use clipman_daemon.Sync.Pairing.{
  PairingManager, PairingConfig, PairingError, done, new_pairing_manager,
}
use clipman_daemon.Sync.External.{
  ExternalCallback, ExternalResponse, ExternalDevice, external_response, external_device,
  internal_handler,
}
use clipman_daemon.Sync.Pairing as Pairing
use clipman_daemon.Sync.Pairing.Code.{Hmac}
use clipman_daemon.Sync.Pairing.Protocol.{Outgoing, request_pairing}

-- The handlers of the protocols stand for their names.
pub record SyncManager (M X : Type 0) : Type 0 where
  pub node : SyncNode M X (Unit {0})
  pub pairing : PairingManager
  pub config : SyncConfig
  pub started : Bool

pub data ManagerError : Type 0 where
  not_started : ManagerError
  add_failed : ManualError → ManagerError
  remove_failed invalid_peer_id : ManagerError
  pairing_failed : PairingError → ManagerError

-- `New`; the address and the peer id are those of the new host.
pub data NewResult (M X : Type 0) : Type 0 where
  made : SyncManager M X → NewResult M X
  not_made : NodeError → NewResult M X

unfoldable pub pairing_config : SyncConfig → Bytes → Bytes → PairingConfig
pairing_config c peer_id address = record {
  own_device_name = c.device_name;
  own_device_type = c.device_type;
  own_peer_id = peer_id;
  host_address = address;
  config_pairing_timeout = c.pairing_timeout;
}

module _ {M X : Type 0} (host : Host M) where
  unfoldable pub new : Making X → SyncConfig → Bytes → NewResult M X
  unfolding new_node pairing_config new_pairing_manager
  new making c address = elim (new_node host tt making c) [
    | failed e ↦ not_made e
    | created n ↦ made (record {
      node = n;
      pairing = new_pairing_manager (pairing_config c (host.id_string host.host_id) address);
      config = c;
      started = false;
    })
  ]

  unfoldable pub add_peer : Bytes → ℕ → SyncManager M X → SyncManager M X × Option ManagerError
  add_peer address now m = if not m.started then (m, some not_started) else (
    record m { node = (add_peer_by_address host address now m.node).0 },
    elim (add_peer_by_address host address now m.node).1 [
      | none ↦ none
      | some e ↦ some (add_failed e)
    ],
  )

  unfoldable pub remove_peer : Bytes → SyncManager M X → SyncManager M X × Option ManagerError
  remove_peer peer_id m = if not m.started then (m, some not_started) else (
    record m { node = (remove_peer_by_id host peer_id m.node).0 },
    if (remove_peer_by_id host peer_id m.node).1 then none else some remove_failed,
  )

  -- `DisconnectPeer`: the peer whose connections are closed, or the error.
  unfoldable pub disconnect : Bytes → SyncManager M X → Option ManagerError × Option Bytes
  disconnect peer_id m =
      if not m.started then (some not_started, none) else elim (disconnect_peer host peer_id) [
        | none ↦ (some invalid_peer_id, none)
        | some id ↦ (none, some id)
      ]

  -- `RequestPairing`: the peer is added by its address first.
  unfoldable pub request :
      Hmac
      → Outgoing
      → ℕ
      → SyncManager M X
      → SyncManager M X × Option ManagerError × Option ExternalResponse
  unfolding add_peer external_response
  request hmac o now m =
      let (m', e) = add_peer o.address now m in
      let r = request_pairing hmac m'.pairing o in
      if not m.started then (m, some not_started, none) else elim e [
        | some x ↦ (m', some x, none)
        | none ↦ elim r.result [
          | Pairing.failed x ↦ (record m' { pairing = r.requester }, some (pairing_failed x), none)
          | done response ↦
              (record m' { pairing = r.requester }, none, some (external_response response))
        ]
      ]

module _ {M X D : Type 0} (host : Host M) (services : Services X (Unit {0}) D) where
  -- The node's Start cannot fail.
  unfoldable pub start : File D → Bool → SyncManager M X → SyncManager M X
  start file pubsub_made m =
      if m.started
      then m
      else record m { node = Node.start host services file pubsub_made m.node; started = true }

  -- Stopping the node's protocols stops the pairing manager; then the manager's context, which the
  -- others depend on, is cancelled.
  unfoldable pub stop : Bool → Write D → File D → SyncManager M X → File D × SyncManager M X
  stop mkdir write file m =
      let r = Node.stop host services mkdir write file m.node in
      let pairing' =
        if m.node.started && m.node.protocols.started then Pairing.stop m.pairing else m.pairing in
      if not m.started then (file, m) else (
        r.0,
        record m {
          node = record (r.1) { cancelled = true };
          pairing = record pairing' { context_cancelled = true };
          started = false;
        },
      )

module _ {M X : Type 0} where
  unfoldable pub get_discovered_peers : SyncManager M X → List PeerInfo
  unfolding get_peers to_external_peer_info
  get_discovered_peers m = map to_external_peer_info (get_peers m.node)

  -- `GetConnectedPeers`; nil is the empty list.
  unfoldable pub connected_peers :
      Host M → (Bytes → List M) → (ℕ → ℕ) → List Bytes → SyncManager M X → List PeerInfo
  connected_peers host addrs_of clock ids m =
      if not m.started
      then []
      else map to_external_peer_info
          (get_connected_peers host addrs_of clock m.node.peers.peer_store ids)

  unfoldable pub enable_pairing :
      ExternalCallback → SyncManager M X → SyncManager M X × Option ManagerError × Bytes
  unfolding internal_handler
  enable_pairing handler m =
      let r = Pairing.enable_pairing m.pairing (internal_handler handler) in
      if not m.started then (m, some not_started, []) else elim r.1 [
        | done address ↦ (record m { pairing = r.0 }, none, address)
        | Pairing.failed e ↦ (record m { pairing = r.0 }, some (pairing_failed e), [])
      ]

  unfoldable pub disable_pairing : SyncManager M X → SyncManager M X
  disable_pairing m =
      if not m.started then m else record m { pairing = Pairing.disable_pairing m.pairing }

  unfoldable pub is_pairing_enabled : SyncManager M X → Bool
  is_pairing_enabled m = if not m.started then false else Pairing.is_pairing_enabled m.pairing

  unfoldable pub is_paired : SyncManager M X → Bytes → Bool
  is_paired m peer_id = if not m.started then false else Pairing.is_paired m.pairing peer_id

  unfoldable pub get_paired_devices : SyncManager M X → List ExternalDevice
  unfolding external_device
  get_paired_devices m =
      if not m.started then [] else map external_device (Pairing.get_paired_devices m.pairing)

  unfoldable pub remove_paired_device :
      Bytes → SyncManager M X → SyncManager M X × Option ManagerError
  remove_paired_device peer_id m = if not m.started then (m, some not_started) else (
    record m { pairing = (Pairing.remove_paired_device m.pairing peer_id).0 },
    elim (Pairing.remove_paired_device m.pairing peer_id).1 [
      | none ↦ none
      | some e ↦ some (pairing_failed e)
    ],
  )
