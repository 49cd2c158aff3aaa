-- ===== src/Config.antt =====
-- internal/config/config.go: the configuration, its defaults, its file and the environment. What package
-- os, strconv, path/filepath, uuid and the JSON format do is the argument `System`; `D` is the content
-- of the file.
pub mod Loading
use clipman_daemon.Prelude.{
  Bool, true, false, not, Option, none, some, [], Bytes, codes, bytes_equal, if◌then◌else◌,
}
use clipman_daemon.Prelude.Int.{ℤ, pos}
use clipman_daemon.Content.{HistoryOptions, zero_time}

pub record SystemPaths : Type 0 where
  pub config_file : Bytes
  pub data_dir : Bytes
  pub db_file : Bytes
  pub temp_dir : Bytes
  pub log_dir : Bytes

pub record LogConfig : Type 0 where
  pub enable_file_logging : Bool
  pub max_log_size : ℤ
  pub max_log_files : ℤ
  pub format : Bytes

pub record StorageConfig : Type 0 where
  pub db_path : Bytes
  pub max_size : ℤ
  pub keep_items : ℤ

-- Of types.SyncConfig the fields that the environment overrides.
pub record SyncSettings : Type 0 where
  pub enabled : Bool
  pub sync_over_internet : Bool
  pub use_relay_nodes : Bool
  pub listen_port : ℤ
  pub discovery_method : Bytes

-- The server's configuration is left out: nothing uses it.
pub record Config : Type 0 where
  pub device_id : Bytes
  pub device_name : Bytes
  pub enable_logging : Bool
  pub system_paths : SystemPaths
  pub log : LogConfig
  pub history : HistoryOptions
  pub storage : StorageConfig
  pub sync : SyncSettings
  pub stealth_mode : Bool
  pub polling_interval : ℤ

pub record System (D : Type 0) : Type 0 where
  -- The empty text for a variable that is not set.
  pub getenv : Bytes → Bytes
  pub atoi : Bytes → Option ℤ
  -- strconv.ParseInt in base 10 with 64 bits
  pub parse_int : Bytes → Option ℤ
  pub user_home_dir : Option Bytes
  pub temp_dir : Bytes
  pub hostname : Option Bytes
  pub uuid : Bytes
  pub join : Bytes → Bytes → Bytes
  pub default_sync : SyncSettings
  -- The content of a file that exists, or none for one that cannot be opened.
  pub files : Bytes → Option (Option D)
  pub decode : D → Config → Option Config
  pub encode : Config → D
  pub mkdir_all : Bytes → Bool
  pub create : Bytes → Bool

-- A variable that is set and not empty takes the place of a text, of a switch, of a number that it can
-- be read as.
unfoldable pub env_text : (Bytes → Bytes) → Bytes → Bytes → Bytes
env_text getenv name old = if bytes_equal (getenv name) [] then old else getenv name

unfoldable pub env_bool : (Bytes → Bytes) → Bytes → Bool → Bool
env_bool getenv name old =
    if bytes_equal (getenv name) [] then old else bytes_equal (getenv name) (codes "true")

unfoldable pub env_int : (Bytes → Bytes) → (Bytes → Option ℤ) → Bytes → ℤ → ℤ
env_int getenv read name old =
    if bytes_equal (getenv name) []
    then old
    else elim (read (getenv name)) [ none ↦ old | some n ↦ n ]

module _ {D : Type 0} (os : System D) where
  unfoldable pub get_default_data_dir : Option Bytes
  get_default_data_dir = elim os.user_home_dir [
    | none ↦ none
    | some home ↦ some (os.join home (codes ".clipman"))
  ]

  -- The directory that both users of it fall back to.
  unfoldable pub data_dir_or_temp : Bytes
  unfolding get_default_data_dir
  data_dir_or_temp = elim get_default_data_dir [
    | none ↦ os.join os.temp_dir (codes "clipman")
    | some dir ↦ dir
  ]

  unfoldable pub get_default_device_name : Bytes
  get_default_device_name = elim os.hostname [
    | none ↦ os.uuid
    | some name ↦ if bytes_equal name [] then os.uuid else name
  ]

  unfoldable pub default_system_paths : SystemPaths
  unfolding data_dir_or_temp
  default_system_paths = record {
    config_file = os.join data_dir_or_temp (codes "config.json");
    data_dir = data_dir_or_temp;
    db_file = os.join data_dir_or_temp (codes "clipman.db");
    log_dir = os.join data_dir_or_temp (codes "logs");
    temp_dir = os.join data_dir_or_temp (codes "temp");
  }

  unfoldable pub default_log_config : LogConfig
  default_log_config = record {
    enable_file_logging = true;
    max_log_size = pos 10485760;
    max_log_files = pos 5;
    format = codes "text";
  }

  unfoldable pub default_storage_config : StorageConfig
  default_storage_config = record { db_path = []; max_size = pos 104857600; keep_items = pos 10 }

  unfoldable pub default_history_options : HistoryOptions
  default_history_options = record {
    limit = pos 50;
    since = zero_time;
    before = zero_time;
    filter_type = [];
    reversed = true;
    min_size = pos 0;
    max_size = pos 0;
  }

  unfoldable pub default_config : Config
  unfolding default_system_paths get_default_device_name
  default_config = record {
    device_id = os.uuid;
    device_name = get_default_device_name;
    enable_logging = true;
    system_paths = default_system_paths;
    log = default_log_config;
    history = default_history_options;
    storage = default_storage_config;
    sync = os.default_sync;
    stealth_mode = true;
    polling_interval = pos 10000;
  }

  unfoldable pub get_system_paths : Config → SystemPaths
  unfolding data_dir_or_temp
  get_system_paths c =
      let data_dir =
        if bytes_equal c.system_paths.data_dir []
        then data_dir_or_temp
        else c.system_paths.data_dir in
      record {
        config_file = c.system_paths.config_file;
        data_dir = data_dir;
        db_file =
            if bytes_equal c.storage.db_path []
            then os.join data_dir (codes "clipman.db")
            else c.storage.db_path;
        log_dir = os.join data_dir (codes "logs");
        temp_dir = os.join data_dir (codes "temp");
      }

  unfoldable pub override_from_env : Config → Config
  override_from_env c = record c {
    device_id = env_text os.getenv (codes "CLIPMAN_DEVICE_ID") c.device_id;
    device_name = env_text os.getenv (codes "CLIPMAN_DEVICE_NAME") c.device_name;
    system_paths = record (c.system_paths) {
      data_dir = env_text os.getenv (codes "CLIPMAN_DATA_DIR") c.system_paths.data_dir;
    };
    sync = record {
      enabled = env_bool os.getenv (codes "CLIPMAN_SYNC_ENABLED") c.sync.enabled;
      sync_over_internet =
          env_bool os.getenv (codes "CLIPMAN_SYNC_INTERNET") c.sync.sync_over_internet;
      use_relay_nodes = env_bool os.getenv (codes "CLIPMAN_SYNC_RELAY") c.sync.use_relay_nodes;
      listen_port = env_int os.getenv os.atoi (codes "CLIPMAN_SYNC_PORT") c.sync.listen_port;
      discovery_method =
          env_text os.getenv (codes "CLIPMAN_SYNC_DISCOVERY") c.sync.discovery_method;
    };
    stealth_mode = env_bool os.getenv (codes "CLIPMAN_STEALTH_MODE") c.stealth_mode;
    polling_interval =
        env_int os.getenv os.parse_int (codes "CLIPMAN_POLLING_INTERVAL") c.polling_interval;
  }

  -- What `Load` computes after the file and the environment.
  unfoldable pub computed : Config → Config
  computed c = record c {
    device_id = if bytes_equal c.device_id [] then os.uuid else c.device_id;
    device_name = if bytes_equal c.device_name [] then get_default_device_name else c.device_name;
    system_paths = get_system_paths c;
  }

pub data LoadError : Type 0 where
  open_failed decode_failed mkdir_failed save_failed : LoadError

-- The configuration, with the file that was written and its content, if one was; or the error.
pub data Loaded (D : Type 0) : Type 0 where
  loaded : Config → Option (Bytes × D) → Loaded D
  load_error : LoadError → Loaded D

module _ {D : Type 0} (os : System D) where
  -- `Save`: the file and its content, or the error. The directory is that of the file.
  unfoldable pub save : Config → Option (Bytes × D)
  save c =
      if not (os.mkdir_all c.system_paths.config_file)
      then none
      else if not (os.create c.system_paths.config_file)
      then none
      else some (c.system_paths.config_file, os.encode c)

  -- The configuration after the file: the environment, then the computed values.
  unfoldable pub prepared : Config → Config
  unfolding override_from_env computed
  prepared c = computed os (override_from_env os c)

  -- The end of `Load`, on whether the file exists.
  unfoldable pub finish : Bool → Config → Loaded D
  unfolding save
  finish exists c =
      if not (os.mkdir_all c.system_paths.data_dir)
      then load_error mkdir_failed
      else if exists
      then loaded c none
      else elim (save c) [ none ↦ load_error save_failed | some file ↦ loaded c (some file) ]

  unfoldable pub load : Bytes → Loaded D
  unfolding default_config
  load file_path =
      let c = default_config os in
      let path = if bytes_equal file_path [] then c.system_paths.config_file else file_path in
      elim (os.files path) [
        | none ↦ finish false (prepared c)
        | some content ↦ elim content [
          | none ↦ load_error open_failed
          | some d ↦ elim (os.decode d c) [
            | none ↦ load_error decode_failed
            | some c' ↦ finish true (
                prepared
                  (record c' { system_paths = record (c'.system_paths) { config_file = path } }))
          ]
        ]
      ]
