-- ===== src/Cli/Root.antt =====
-- internal/cli/root.go: what runs before every command, and the daemon, which is the command without a
-- name. What the system and the network answer is an argument; what is logged is left out.
pub mod Publishing
use clipman_daemon.Prelude.{
  ℕ, Bool, true, false, not, ◌&&◌, Option, none, some, List, [], ◌∷◌, ◌++◌, Bytes, codes,
  bytes_equal, if◌then◌else◌, is_some,
}
use clipman_daemon.Prelude.Int.{ℤ, pos, ltb_ℤ}
use clipman_daemon.Config.{Config, SystemPaths, System, get_system_paths}
use clipman_daemon.Storage.{BoltStorage, StorageConfig, ok, err, new_bolt_storage}
use clipman_daemon.Storage.Cursor.{Bucket}
use clipman_daemon.Clipboard.Monitor.{
  ContentPublisher, Event, Monitor, new_monitor, start, monitor_clipboard,
}
use clipman_daemon.Clipboard.Monitor as Monitor
use clipman_daemon.Platform.Daemon.{DaemonAnswers, Daemonized, daemonize}
use clipman_daemon.Sync.Config.Loading.{Settings, load_sync_config}
use clipman_daemon.Sync.Discovery.{File}
use clipman_daemon.Sync.Discovery.Manual.{Host}
use clipman_daemon.Sync.Manager.{SyncManager, made, not_made, new}
use clipman_daemon.Sync.Manager as Manager
use clipman_daemon.Sync.Node.{Services}
use clipman_daemon.Sync.Node.Making.{Making}
use clipman_daemon.Sync.Publisher.{SyncPublisher, is_connected, publish_content}
use clipman_daemon.Sync.Topics as Topics

pub record RootFlags : Type 0 where
  pub log_level : Bytes
  pub device_id : Bytes
  pub no_file_log : Bool
  pub detach : Bool
  pub no_sync : Bool
  pub max_size : ℤ
  pub no_stealth_mode : Bool
  pub polling_interval : ℤ

-- The flags of all commands take the place of what the configuration says.
unfoldable pub override_config : RootFlags → Config → Config
override_config f c = record c {
  log = if bytes_equal f.log_level [] then c.log else record (c.log) { format = f.log_level };
  device_id = if bytes_equal f.device_id [] then c.device_id else f.device_id;
}

pub data ZapLevel : Type 0 where
  debug_level info_level warn_level error_level : ZapLevel

unfoldable pub get_zap_log_level : Bytes → ZapLevel
get_zap_log_level level =
    if bytes_equal level (codes "debug")
    then debug_level
    else if bytes_equal level (codes "info")
    then info_level
    else if bytes_equal level (codes "warn")
    then warn_level
    else if bytes_equal level (codes "warning")
    then warn_level
    else if bytes_equal level (codes "error")
    then error_level
    else info_level

-- zap's production configuration, as far as it is changed: the files are the last of the outputs.
pub record ZapConfig : Type 0 where
  pub level : ZapLevel
  pub is_development : Bool
  pub output_paths : List Bytes
  pub error_output_paths : List Bytes

unfoldable pub is_debug : ZapLevel → Bool
is_debug debug_level = true
is_debug info_level = false
is_debug warn_level = false
is_debug error_level = false

-- In development the encoding is the console's, too.
unfoldable pub zap_config : RootFlags → SystemPaths → Config → ZapConfig
unfolding get_zap_log_level is_debug
zap_config f paths c = record {
  level = get_zap_log_level c.log.format;
  is_development = is_debug (get_zap_log_level c.log.format);
  output_paths =
      if c.log.enable_file_logging && not f.no_file_log
      then (paths.log_dir ++ codes "/clipman.log") ∷ []
      else [];
  error_output_paths =
      if c.log.enable_file_logging && not f.no_file_log
      then (paths.log_dir ++ codes "/clipman_error.log") ∷ []
      else [];
}

-- What the daemon's own flags change.
unfoldable pub override_daemon : RootFlags → Config → Config
override_daemon f c = record c {
  storage =
      if ltb_ℤ (pos 0) f.max_size then record (c.storage) { max_size = f.max_size } else c.storage;
  stealth_mode = if f.no_stealth_mode then false else c.stealth_mode;
  polling_interval =
      if ltb_ℤ (pos 0) f.polling_interval then f.polling_interval else c.polling_interval;
}

-- The content publisher: none, or a manager and the group that it joined.
pub data Publisher (M X : Type 0) : Type 0 where
  no_op : Publisher M X
  synced : SyncManager M X → Bytes → Publisher M X

-- What the sync manager meets; the fields of the configuration that Config leaves out, and the number of
-- the connections while the daemon runs.
pub record Network (M X D : Type 0) : Type 0 where
  pub host : Host M
  pub services : Services X (Unit {0}) D
  pub making : Making X
  pub address : Bytes
  pub file : File D
  pub pubsub_made : Bool
  pub joins : Bool
  pub subscribes : Bool
  pub clipboard_types : List Bytes
  pub max_clipboard_size_kb : ℤ
  pub max_file_size_mb : ℤ
  pub connections : ℕ

abbrev pub default_group : Bytes
default_group = codes "clipman-default"

-- The manager as Topics has it.
unfoldable pub topics_manager : {M X : Type 0} → SyncManager M X → Topics.Manager
topics_manager m = record {
  node = m.node.group_node;
  started = m.started;
  is_cancelled = m.node.cancelled;
}

module _ {M X D : Type 0} (n : Network M X D) where
  -- From the started manager on.
  unfoldable pub joined : SyncManager M X → Publisher M X
  unfolding topics_manager
  joined m =
      let r = Topics.join_group (topics_manager m) default_group n.joins n.subscribes in
      if is_some r.1
      then no_op
      else synced (record m { node = record (m.node) { group_node = r.0.node } }) default_group

  -- What the configuration says of the sync.
  unfoldable pub settings : Config → Settings
  settings c = record {
    sync_over_internet = c.sync.sync_over_internet;
    use_relay_nodes = c.sync.use_relay_nodes;
    listen_port = c.sync.listen_port;
    discovery_method = c.sync.discovery_method;
    clipboard_types = n.clipboard_types;
    max_clipboard_size_kb = n.max_clipboard_size_kb;
    max_file_size_mb = n.max_file_size_mb;
    device_name = c.device_name;
  }

  -- Every error makes it the publisher that does nothing.
  unfoldable pub sync_publisher : Config → Publisher M X
  unfolding joined settings
  sync_publisher c = elim (new n.host n.making (load_sync_config (settings c)) n.address) [
    | not_made e ↦ no_op
    | made m ↦ joined (Manager.start n.host n.services n.file n.pubsub_made m)
  ]

  -- The publisher as the monitor has it: NoOpPublisher is connected and succeeds.
  unfoldable pub content_publisher : Publisher M X → ContentPublisher
  unfolding topics_manager is_connected publish_content
  content_publisher no_op = record { is_connected = true; publish = λ c. true }
  content_publisher (synced m group) =
      let p : SyncPublisher = record {
        sync_manager = some (topics_manager m);
        group_name = group;
      } in
      record {
        is_connected = is_connected p n.connections;
        publish = λ c. not (is_some (publish_content p n.connections));
      }

-- The configuration's `keep_items` is not handed on.
unfoldable pub storage_config : SystemPaths → Config → StorageConfig
storage_config paths c = record {
  db_path = paths.db_file;
  config_max_size = c.storage.max_size;
  device_id = c.device_id;
  config_keep_items = pos 0;
}

-- The system around a daemon: the environment says that it is the child, the program, its arguments, and
-- the working directory.
pub record Process : Type 0 where
  pub is_child : Bool
  pub executable : Option Bytes
  pub work_dir : Option Bytes
  pub arguments : List Bytes
  pub daemon_answers : DaemonAnswers

pub data DaemonOutcome : Type 0 where
  no_executable no_work_dir storage_failed panicked : DaemonOutcome
  detached : Daemonized → DaemonOutcome
  -- interrupted after the events: the monitor then
  interrupted : Monitor → DaemonOutcome

-- The monitor on a storage, started, after the events; none is a panic.
unfoldable pub monitored :
    Monitor.Services → Config → ContentPublisher → BoltStorage → List Event → Option Monitor
unfolding new_monitor start
monitored s c publisher storage events =
    monitor_clipboard s (start s (new_monitor c.storage.max_size (some publisher) storage)) events

-- The part of the daemon that runs in the background or the foreground. `database` is the file as bbolt
-- finds it; a signal ends the process without closing it.
unfoldable pub run_in_process :
    Monitor.Services
    → SystemPaths
    → Config
    → ContentPublisher
    → Option Bucket
    → List Event
    → DaemonOutcome
unfolding monitored storage_config
run_in_process s paths c publisher database events =
    elim (new_bolt_storage (storage_config paths c) database) [
      | err x ↦ storage_failed
      | ok storage ↦ elim (monitored s c publisher storage events) [
        | none ↦ panicked
        | some m ↦ interrupted m
      ]
    ]

module _ {M X D : Type 0} (n : Network M X D) where
  unfoldable pub run_daemon :
      {F : Type 0}
      → System F
      → Monitor.Services
      → Process
      → RootFlags
      → Config
      → Option Bucket
      → List Event
      → DaemonOutcome
  unfolding override_daemon sync_publisher content_publisher run_in_process
  run_daemon os s p f config database events =
      let c = override_daemon f config in
      if f.detach && not p.is_child
      then elim p.executable [
        | none ↦ no_executable
        | some program ↦ elim p.work_dir [
          | none ↦ no_work_dir
          | some dir ↦ detached (daemonize p.daemon_answers p.arguments)
        ]
      ]
      else run_in_process s (get_system_paths os c) c
          (content_publisher n (if f.no_sync then no_op else sync_publisher n c)) database events
