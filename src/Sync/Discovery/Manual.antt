-- ===== src/Sync/Discovery/Manual.antt =====
-- internal/sync/discovery/manual.go: peers that are added by their address.
use clipman_daemon.Prelude.{
  ℕ, Bool, true, false, not, Option, none, some, List, [], ◌∷◌, ◌++◌, map, Bytes, codes,
  bytes_equal, if◌then◌else◌,
}
use clipman_daemon.Prelude.Dict.{lookup}
use clipman_daemon.Sync.Discovery.{DiscoveryPeerInfo, Manager}

-- Of the service its state; the host and the manager are arguments of the operations.
pub record ManualDiscovery : Type 0 where
  pub started : Bool

unfoldable pub new_manual_discovery : ManualDiscovery
new_manual_discovery = record { started = false }

-- `Start` and `Stop` always succeed.
unfoldable pub start : ManualDiscovery → ManualDiscovery × Bool
start m = if m.started then (m, true) else (record { started = true }, true)

unfoldable pub stop : ManualDiscovery → ManualDiscovery × Bool
stop m = if not m.started then (m, true) else (record { started = false }, true)

-- A service of the manager: the manual one, or another of type `X`.
pub data AnyService (X : Type 0) : Type 0 where
  manual : ManualDiscovery → AnyService X
  other : X → AnyService X

unfoldable pub start_any : {X : Type 0} → (X → X × Bool) → AnyService X → AnyService X × Bool
unfolding start
start_any start_other (manual m) = (manual (start m).0, (start m).1)
start_any start_other (other x) = (other (start_other x).0, (start_other x).1)

unfoldable pub stop_any : {X : Type 0} → (X → X × Bool) → AnyService X → AnyService X × Bool
unfolding stop
stop_any stop_other (manual m) = (manual (stop m).0, (stop m).1)
stop_any stop_other (other x) = (other (stop_other x).0, (stop_other x).1)

pub data ManualError : Type 0 where
  not_started parse_failed no_peer_info self_peer connect_failed invalid_peer_id : ManualError
  not_available unexpected_type : ManualError

-- `GetManualDiscovery`
unfoldable pub get_manual_discovery :
    {X W : Type 0} → Manager (AnyService X) W → Option ManualError × Option ManualDiscovery
get_manual_discovery m = elim (lookup (codes "manual") m.services) [
  | none ↦ (some not_available, none)
  | some (manual d) ↦ (none, some d)
  | some (other x) ↦ (some unexpected_type, none)
]

-- What libp2p does for a host: addresses of type `M` are parsed and printed, and name a peer. A
-- peer.ID is its bytes.
pub record Host (M : Type 0) : Type 0 where
  pub host_id : Bytes
  pub parse_address : Bytes → Option M
  pub address_info : M → Option (Bytes × List M)
  pub address_string : M → Bytes
  pub id_string : Bytes → Bytes
  pub short_string : Bytes → Bytes
  pub decode : Bytes → Option Bytes
  -- Whether a connection comes about, or is there, under a context that is cancelled or not.
  pub connects : Bool → Bytes → List M → Bool

module _ {M : Type 0} (host : Host M) where
  unfoldable pub manual_peer : Bytes → List M → ℕ → DiscoveryPeerInfo
  manual_peer id addrs' now = record {
    peer_id = host.id_string id;
    name = codes "Manual-Peer-" ++ host.short_string id;
    addrs = map host.address_string addrs';
    groups = [];
    last_seen = now;
    capabilities = (codes "discovery", codes "manual") ∷ [];
    version = [];
    device_type = codes "unknown";
  }

  -- `AddPeer` up to the notice to the manager, which is its second result; `cancelled` is the
  -- state of the context.
  unfoldable pub add_peer :
      ManualDiscovery → Bool → Bytes → ℕ → Option ManualError × Option DiscoveryPeerInfo
  unfolding manual_peer
  add_peer m cancelled addr_str now =
      if not m.started then (some not_started, none) else elim (host.parse_address addr_str) [
        | none ↦ (some parse_failed, none)
        | some addr ↦ elim (host.address_info addr) [
          | none ↦ (some no_peer_info, none)
          | some info ↦
              if bytes_equal info.0 host.host_id
              then (some self_peer, none)
              else if not (host.connects cancelled info.0 info.1)
              then (some connect_failed, none)
              else (none, some (manual_peer info.0 info.1 now))
        ]
      ]

  -- `RemovePeer`: the peer whose addresses the host forgets, or the error.
  unfoldable pub remove_peer : ManualDiscovery → Bytes → Option ManualError × Option Bytes
  remove_peer m peer_id =
      if not m.started then (some not_started, none) else elim (host.decode peer_id) [
        | none ↦ (some invalid_peer_id, none)
        | some id ↦ (none, some id)
      ]
