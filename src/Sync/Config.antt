-- ===== src/Sync/Config.antt =====
-- internal/sync/config.go and internal/config/config_sync.go: the checks of the sync configuration,
-- and the configurations derived from it. Fields that no operation below reads are left out.
pub mod Loading
use clipman_daemon.Prelude.{
  ◌≡◌, refl, ◌↔◌, inl, inr, Bool, true, false, not, ◌&&◌, ◌||◌, Option, none, some, List, [], ◌∷◌,
  ◌++◌, Bytes, codes, bytes_equal, if◌then◌else◌, arith, Bool-cases, All,
}
use clipman_daemon.Prelude.Int.{ℤ, pos, ltb_ℤ}

-- SyncConfig
pub record SyncConfig : Type 0 where
  pub sync_over_internet : Bool
  pub use_relay_nodes : Bool
  pub listen_port : ℤ
  pub peer_identity : Bytes
  pub discovery_method : Bytes
  pub dht_bootstrap_peers : List Bytes
  pub bootstrap_peers : List Bytes
  pub clipboard_types : List Bytes
  pub max_clipboard_size_kb : ℤ
  pub max_file_size_mb : ℤ
  pub pairing_enabled : Bool
  pub device_name : Bytes
  pub device_type : Bytes
  pub pairing_timeout : ℤ

pub data ConfigError : Type 0 where
  invalid_discovery_method : Bytes → ConfigError
  invalid_clipboard_type : Bytes → ConfigError
  negative_clipboard_size negative_file_size negative_pairing_timeout : ConfigError
  missing_device_name missing_device_type : ConfigError

-- A switch over strings: whether a string is one of the cases.
unfoldable pub one_of : List Bytes → Bytes → Bool
one_of [] s = false
one_of (c ∷ cases) s = if bytes_equal s c then true else one_of cases s

abbrev pub discovery_methods : List Bytes
discovery_methods = codes "mdns" ∷ codes "dht" ∷ codes "manual" ∷ codes "paired" ∷ []

abbrev pub clipboard_type_names : List Bytes
clipboard_type_names = codes "text" ∷ codes "image" ∷ codes "files" ∷ []

-- The names that internal/config/config_sync.go accepts.
abbrev pub config_type_names : List Bytes
config_type_names = codes "text" ∷ codes "image" ∷ codes "files" ∷ codes "url" ∷ []

-- The loop over ClipboardTypes: the first that is not one of the names.
unfoldable pub check_types : List Bytes → List Bytes → Option ConfigError
check_types names [] = none
check_types names (t ∷ types) =
    if one_of names t then check_types names types else some (invalid_clipboard_type t)

-- `ValidateSyncConfig` of internal/sync/config.go
unfoldable pub validate_sync_config : SyncConfig → Option ConfigError
validate_sync_config c =
    if not (one_of discovery_methods c.discovery_method)
    then some (invalid_discovery_method c.discovery_method)
    else elim (check_types clipboard_type_names c.clipboard_types) [
      | some x ↦ some x
      | none ↦
          if ltb_ℤ c.max_clipboard_size_kb (pos 0)
          then some negative_clipboard_size
          else if ltb_ℤ c.max_file_size_mb (pos 0)
          then some negative_file_size
          else if ltb_ℤ c.pairing_timeout (pos 0)
          then some negative_pairing_timeout
          else if c.pairing_enabled && bytes_equal c.device_name []
          then some missing_device_name
          else if c.pairing_enabled && bytes_equal c.device_type []
          then some missing_device_type
          else none
    ]

-- `Config.ValidateSyncConfig` of internal/config/config_sync.go
unfoldable pub config_validate_sync_config : SyncConfig → Option ConfigError
config_validate_sync_config c =
    if not (one_of discovery_methods c.discovery_method)
    then some (invalid_discovery_method c.discovery_method)
    else elim (check_types config_type_names c.clipboard_types) [
      | some x ↦ some x
      | none ↦
          if ltb_ℤ c.max_clipboard_size_kb (pos 0)
          then some negative_clipboard_size
          else if ltb_ℤ c.max_file_size_mb (pos 0)
          then some negative_file_size
          else none
    ]

pub record NodeConfig : Type 0 where
  pub listen_addresses : List Bytes
  pub enable_nat : Bool
  pub enable_relay : Bool
  pub node_identity : Bytes

-- `GetNodeConfig`; `show` is "%d".
unfoldable pub get_node_config : (ℤ → Bytes) → SyncConfig → NodeConfig
get_node_config show c = record {
  listen_addresses =
      if ltb_ℤ (pos 0) c.listen_port
      then (codes "/ip4/0.0.0.0/tcp/" ++ show c.listen_port)
        ∷ (codes "/ip4/0.0.0.0/udp/" ++ show c.listen_port ++ codes "/quic")
        ∷ []
      else codes "/ip4/0.0.0.0/tcp/0" ∷ codes "/ip4/0.0.0.0/udp/0/quic" ∷ [];
  enable_nat = c.sync_over_internet;
  enable_relay = c.use_relay_nodes;
  node_identity = c.peer_identity;
}

pub record DiscoveryConfig : Type 0 where
  pub method : Bytes
  pub discovery_mdns : Bool
  pub discovery_dht : Bool
  pub discovery_bootstrap : List Bytes

abbrev pub default_bootstrap_peers : List Bytes
default_bootstrap_peers =
    codes "/dnsaddr/bootstrap.libp2p.io/p2p/QmNnooDu7bfjPFoTZYxMNLWUQJyrVwtbZg5gBMjTezGAJN"
    ∷ codes "/dnsaddr/bootstrap.libp2p.io/p2p/QmQCU2EcMqAqQPR2i9bChDtGNJchTbq5TbXJJ16u19uLTa"
    ∷ codes "/dnsaddr/bootstrap.libp2p.io/p2p/QmbLHAnMoJPWSCR5Zhtx6BHJX9KiKNN6tpvbUcqanj75Nb"
    ∷ codes "/dnsaddr/bootstrap.libp2p.io/p2p/QmcZf59bWwK5XFi76CZX8cbJ4BhTzzA3gU1ZjYZcYW3dwt"
    ∷ []

-- `GetDiscoveryConfig`
unfoldable pub get_discovery_config : SyncConfig → DiscoveryConfig
get_discovery_config c = record {
  method = c.discovery_method;
  discovery_mdns =
      bytes_equal c.discovery_method (codes "mdns") || bytes_equal c.discovery_method [];
  discovery_dht = bytes_equal c.discovery_method (codes "dht");
  discovery_bootstrap = elim c.dht_bootstrap_peers [
    | [] ↦ default_bootstrap_peers
    | p ∷ ps ↦ p ∷ ps
  ];
}

-- `ConvertToDiscoveryConfig`: the two switches and the bootstrap peers. The other fields are copied.
unfoldable pub convert_to_discovery_config : SyncConfig → DiscoveryConfig
convert_to_discovery_config c = record {
  method = c.discovery_method;
  discovery_mdns =
      bytes_equal c.discovery_method (codes "mdns") || bytes_equal c.discovery_method (codes "all");
  discovery_dht =
      (bytes_equal c.discovery_method (codes "dht") || bytes_equal c.discovery_method (codes "all"))
      || c.sync_over_internet;
  discovery_bootstrap = c.bootstrap_peers;
}

-- `ClipboardTypesToContentTypes`; `to_lower` is strings.ToLower.
unfoldable pub clipboard_types_to_content_types : (Bytes → Bytes) → List Bytes → List Bytes
clipboard_types_to_content_types to_lower [] = []
clipboard_types_to_content_types to_lower (t ∷ types) =
    let rest = clipboard_types_to_content_types to_lower types in
    if bytes_equal (to_lower t) (codes "text")
    then codes "text/plain" ∷ rest
    else if bytes_equal (to_lower t) (codes "image")
    then codes "image/png" ∷ codes "image/jpeg" ∷ codes "image/gif" ∷ rest
    else if bytes_equal (to_lower t) (codes "files")
    then codes "application/octet-stream" ∷ rest
    else rest

check_types_iff :
    (names types : List Bytes)
    → (check_types names types ≡ none) ↔ All (λ t. one_of names t ≡ true) types
unfolding check_types
check_types_iff names [] = (λ h. tt, λ h. refl)
check_types_iff names (t ∷ types) = elim (Bool-cases (one_of names t)) [
  | inl known ↦ (
    λ h. (known, (check_types_iff names types).0 (rw (check_types, known) at h)),
    λ h. rw known ((check_types_iff names types).1 h.1),
  )
  | inr unknown ↦ (λ h. cc (rw (check_types, unknown) at h), λ h. cc (rw unknown at h.0))
]

-- What `ValidateSyncConfig` of internal/sync promises.
pub record IsValid (c : SyncConfig) : Type 0 where
  pub known_method : one_of discovery_methods c.discovery_method ≡ true
  pub known_types : All (λ t. one_of clipboard_type_names t ≡ true) c.clipboard_types
  pub clipboard_size : ltb_ℤ c.max_clipboard_size_kb (pos 0) ≡ false
  pub file_size : ltb_ℤ c.max_file_size_mb (pos 0) ≡ false
  pub timeout : ltb_ℤ c.pairing_timeout (pos 0) ≡ false
  pub named : (c.pairing_enabled && bytes_equal c.device_name []) ≡ false
  pub typed : (c.pairing_enabled && bytes_equal c.device_type []) ≡ false

-- The check passes exactly the configurations that meet every condition.
pub validate_sync_config_iff : (c : SyncConfig) → (validate_sync_config c ≡ none) ↔ IsValid c
unfolding validate_sync_config
validate_sync_config_iff c = (there, back)
  where
    there : validate_sync_config c ≡ none → IsValid c
    there h = record {
      known_method = ground (arith, h);
      known_types = (check_types_iff clipboard_type_names c.clipboard_types).0 (ground (arith, h));
      clipboard_size = ground (arith, h);
      file_size = ground (arith, h);
      timeout = ground (arith, h);
      named = ground (arith, h);
      typed = ground (arith, h);
    }

    back : IsValid c → validate_sync_config c ≡ none
    back v = ground (
      arith,
      v.known_method,
      (check_types_iff clipboard_type_names c.clipboard_types).1 v.known_types,
      v.clipboard_size,
      v.file_size,
      v.timeout,
      v.named,
      v.typed,
    )

url_accepted : check_types config_type_names (codes "url" ∷ []) ≡ none
unfolding check_types one_of bytes_equal
url_accepted = refl

url_rejected :
    check_types clipboard_type_names (codes "url" ∷ [])
    ≡ some (invalid_clipboard_type (codes "url"))
unfolding check_types one_of bytes_equal
url_rejected = refl

-- With a known discovery method and sizes that are not negative, the daemon's check accepts the
-- clipboard type "url", and the check of the sync package rejects it.
pub validate_disagree :
    (c : SyncConfig)
    → one_of discovery_methods c.discovery_method ≡ true
    → c.clipboard_types ≡ codes "url" ∷ []
    → ltb_ℤ c.max_clipboard_size_kb (pos 0) ≡ false
    → ltb_ℤ c.max_file_size_mb (pos 0) ≡ false
    → (config_validate_sync_config c ≡ none)
      × (validate_sync_config c ≡ some (invalid_clipboard_type (codes "url")))
unfolding validate_sync_config config_validate_sync_config
validate_disagree c m t k f = rw (m, t, url_accepted, url_rejected, k, f) (refl, refl)
