-- ===== src/Sync/Config/Loading.antt =====
-- internal/sync/config.go: the sync configuration that a manager gets, and the options of libp2p that are
-- made of it. Of the settings those are kept that the model reads.
use clipman_daemon.Prelude.{
  ◌≡◌, refl, Bool, true, false, Option, none, some, List, [], ◌∷◌, ◌++◌, Bytes, codes, bytes_equal,
  if◌then◌else◌,
}
use clipman_daemon.Prelude.Int.{ℤ, pos}
use clipman_daemon.Sync.Config.{SyncConfig, NodeConfig}

-- config.SyncConfig, with the name of the device.
pub record Settings : Type 0 where
  pub sync_over_internet : Bool
  pub use_relay_nodes : Bool
  pub listen_port : ℤ
  pub discovery_method : Bytes
  pub clipboard_types : List Bytes
  pub max_clipboard_size_kb : ℤ
  pub max_file_size_mb : ℤ
  pub device_name : Bytes

-- Peers are persisted and reconnected to.
abbrev pub persist_discovered_peers : Bool
persist_discovered_peers = true

abbrev pub auto_reconnect_to_peers : Bool
auto_reconnect_to_peers = true

unfoldable pub load_sync_config : Settings → SyncConfig
load_sync_config c = record {
  sync_over_internet = c.sync_over_internet;
  use_relay_nodes = c.use_relay_nodes;
  listen_port = c.listen_port;
  peer_identity = [];
  discovery_method = c.discovery_method;
  dht_bootstrap_peers = [];
  bootstrap_peers = [];
  clipboard_types = c.clipboard_types;
  max_clipboard_size_kb = c.max_clipboard_size_kb;
  max_file_size_mb = c.max_file_size_mb;
  pairing_enabled = true;
  device_name = c.device_name;
  device_type = codes "desktop";
  pairing_timeout = pos 300;
}

-- A private key is its bytes. Loading one is a stub that fails.
unfoldable pub load_identity_from_string : Bytes → Option Bytes
load_identity_from_string identity = none

pub data Libp2pOption : Type 0 where
  identity : Bytes → Libp2pOption
  security_noise : Libp2pOption
  listen_address : Bytes → Libp2pOption
  nat_port_map : Libp2pOption
  enable_relay : Libp2pOption

-- The addresses that are read; the others are skipped.
unfoldable pub listen_options : (Bytes → Bool) → List Bytes → List Libp2pOption
listen_options parses [] = []
listen_options parses (a ∷ addresses) =
    let rest = listen_options parses addresses in if parses a then listen_address a ∷ rest else rest

-- The options after the identity.
unfoldable pub other_options : (Bytes → Bool) → NodeConfig → List Libp2pOption
unfolding listen_options
other_options parses c =
    security_noise ∷ listen_options parses c.listen_addresses
    ++ ((if c.enable_nat then nat_port_map ∷ [] else [])
        ++ (if c.enable_relay then Libp2pOption.enable_relay ∷ [] else []))

-- none is the error.
unfoldable pub map_to_libp2p_options : (Bytes → Bool) → NodeConfig → Option (List Libp2pOption)
unfolding load_identity_from_string other_options
map_to_libp2p_options parses c =
    if bytes_equal c.node_identity []
    then some (other_options parses c)
    else elim (load_identity_from_string c.node_identity) [
      | none ↦ none
      | some key ↦ some (identity key ∷ other_options parses c)
    ]

-- Since loading is a stub, an identity in the configuration is an error.
pub options_of_identity :
    (parses : Bytes → Bool) (c : NodeConfig)
    → bytes_equal c.node_identity [] ≡ false
    → map_to_libp2p_options parses c ≡ none
unfolding map_to_libp2p_options
options_of_identity parses c given = rw (map_to_libp2p_options, given) refl
