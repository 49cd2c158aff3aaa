-- ===== src/Sync/Discovery.antt =====
-- internal/sync/discovery/manager.go: the services that find peers, started and stopped together, the
-- callback for a peer that was found, and the file of known peers. A service has its own type `S`;
-- the callback works on a state `W`; `D` is the content of the file, in JSON.
pub mod Manual
pub mod Dht
use clipman_daemon.Prelude.{
  ℕ, Bool, true, false, not, Option, none, some, List, [], ◌∷◌, Bytes, codes, if◌then◌else◌,
}
use clipman_daemon.Prelude.Dict.{Dict, insert}

pub record DiscoveryPeerInfo : Type 0 where
  pub peer_id : Bytes
  pub name : Bytes
  pub addrs : List Bytes
  pub groups : List Bytes
  pub last_seen : ℕ
  pub capabilities : Dict Bytes
  pub version : Bytes
  pub device_type : Bytes

-- The context is `cancelled` for good. Of the configuration the manager keeps whether it persists
-- peers; the path of their file is left out.
pub record Manager (S W : Type 0) : Type 0 where
  pub services : Dict S
  pub on_peer_discovered : Option (DiscoveryPeerInfo → W → W)
  pub started : Bool
  pub cancelled : Bool
  pub persist_peers : Bool

pub data PeersError : Type 0 where
  mkdir_failed marshal_failed write_failed read_failed unmarshal_failed : PeersError

-- What writing the file comes to; a failed write leaves what it leaves.
pub data Write (D : Type 0) : Type 0 where
  written : Write D
  broken_off : Option D → Write D

-- Reading it: the file is missing, cannot be read, or holds its content.
pub data File (D : Type 0) : Type 0 where
  missing : File D
  unreadable : File D
  holding : D → File D

-- The loops over the services: each is started (stopped), whether the others succeed or not. The
-- argument gives what a service becomes, and whether it succeeds.
unfoldable pub each_service : {S : Type 0} → (S → S × Bool) → Dict S → Dict S
each_service act [] = []
each_service act ((n, s) ∷ services) = (n, (act s).0) ∷ each_service act services

module _ {S W : Type 0} where
  unfoldable pub add_service : Bytes → S → Manager S W → Manager S W
  add_service service_name service m = record m {
    services = insert service_name service m.services;
  }

  -- `NewManager`: the services of mDNS and of the DHT, of which the second may fail to be made, and
  -- the manual one.
  unfoldable pub new_manager : Bool → Bool → Bool → S → Option S → S → Manager S W
  unfolding add_service
  new_manager persist enable_mdns enable_dht mdns dht manual =
      let none_yet : Manager S W = record {
        services = [];
        on_peer_discovered = none;
        started = false;
        cancelled = false;
        persist_peers = persist;
      } in
      let with_mdns = if enable_mdns then add_service (codes "mdns") mdns none_yet else none_yet in
      let with_dht =
        if enable_dht
        then elim dht [
          | none ↦ with_mdns
          | some service ↦ add_service (codes "dht") service with_mdns
        ]
        else with_mdns in
      add_service (codes "manual") manual with_dht

  unfoldable pub set_peer_discovered_callback :
      (DiscoveryPeerInfo → W → W) → Manager S W → Manager S W
  set_peer_discovered_callback callback m = record m { on_peer_discovered = some callback }

  unfoldable pub handle_peer_discovered : Manager S W → DiscoveryPeerInfo → W → W
  handle_peer_discovered m peer_info w = elim m.on_peer_discovered [
    | none ↦ w
    | some callback ↦ callback peer_info w
  ]

  unfoldable pub start : (S → S × Bool) → Manager S W → Manager S W
  unfolding each_service
  start start_one m =
      if m.started
      then m
      else record m { services = each_service start_one m.services; started = true }

  unfoldable pub stop : (S → S × Bool) → Manager S W → Manager S W
  unfolding each_service
  stop stop_one m = if not m.started then m else record m {
    services = each_service stop_one m.services;
    cancelled = true;
    started = false;
  }

  module _ {D : Type 0} (marshal : Dict DiscoveryPeerInfo → Option D) where
    -- The file after `SaveDiscoveredPeers`, and the error.
    unfoldable pub save_discovered_peers :
        Manager S W → Dict DiscoveryPeerInfo → Bool → Write D → File D → File D × Option PeersError
    save_discovered_peers m [] mkdir write file = (file, none)
    save_discovered_peers m (p ∷ peers) mkdir write file =
        if not m.persist_peers
        then (file, none)
        else if not mkdir
        then (file, some mkdir_failed)
        else elim (marshal (p ∷ peers)) [
          | none ↦ (file, some marshal_failed)
          | some data' ↦ elim write [
            | written ↦ (holding data', none)
            | broken_off none ↦ (file, some write_failed)
            | broken_off (some left) ↦ (holding left, some write_failed)
          ]
        ]

  module _ {D : Type 0} (unmarshal : D → Option (Dict DiscoveryPeerInfo)) where
    unfoldable pub load_discovered_peers :
        Manager S W → File D → Dict DiscoveryPeerInfo × Option PeersError
    load_discovered_peers m file = if not m.persist_peers then ([], none) else elim file [
      | missing ↦ ([], none)
      | unreadable ↦ ([], some read_failed)
      | holding data' ↦ elim (unmarshal data') [
        | none ↦ ([], some unmarshal_failed)
        | some peers ↦ (peers, none)
      ]
    ]
