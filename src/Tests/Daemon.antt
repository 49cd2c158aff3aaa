-- ===== src/Tests/Daemon.antt =====
-- The theorems on the daemon, the run command and the flush command at concrete inputs.
use clipman_daemon.Prelude.{
  ◌+◌, All, ℕ, ◌-◌, ◌≤◌, ◌≡◌, refl, true, false, none, some, List, [], ◌∷◌, Bytes, codes,
  bytes_equal, length, take, drop,
}
use clipman_daemon.Prelude.Int.{pos}
use clipman_daemon.Prelude.Dict.{Dict, lookup}
use clipman_daemon.Sync.Discovery.{DiscoveryPeerInfo, missing}
use clipman_daemon.Storage.Cursor.{Bucket, byte_size}
use clipman_daemon.Storage.Flush.{data_size, items}
use clipman_daemon.Storage.Saving.{IsSound}
use clipman_daemon.Clipboard.Monitor.{Monitor}
use clipman_daemon.Cli.Root.{
  Network, Process, RootFlags, info_level, run_daemon, interrupted, override_config,
  get_zap_log_level, override_daemon,
}
use clipman_daemon.Clipboard.Monitor.Provenance.{IsExplained}
use clipman_daemon.Cli.Root.{settings, sync_publisher, synced, default_group, content_publisher}
use clipman_daemon.Cli.Root.Publishing.{sync_publisher_lem}
use clipman_daemon.Content.{ClipboardContent}
use clipman_daemon.Sync.Config.{validate_sync_config}
use clipman_daemon.Sync.Config.Loading.{load_sync_config}
use clipman_daemon.Sync.Manager.{SyncManager}
use clipman_daemon.Sync.Topics.{topic_name}
use clipman_daemon.Cli.Run.{Moments, run}
use clipman_daemon.Cli.Run.Storing.{left, configured_processor, run_bound, run_daemon_lem}
use clipman_daemon.Cli.Flush.{Flushed, flush, done, flush_lem}
use clipman_daemon.Config.{Config, get_system_paths}
use clipman_daemon.Tests.Samples.{backend, backend_laws}
use clipman_daemon.Tests.Running.{
  system, first_config, printing, items_from, items_from-IsAscending, items_from-IsItem,
}
use clipman_daemon.Tests.Clipping.{services, events}
use clipman_daemon.Tests.Commands.{host, making}
use clipman_daemon.Tests.Commands as Commands

abbrev network : Network Bytes ℕ (Dict DiscoveryPeerInfo)
network = record {
  host = host;
  services = Commands.services;
  making = making;
  address = codes "/ip4/10.0.0.1/tcp/4001";
  file = missing;
  pubsub_made = true;
  joins = true;
  subscribes = true;
  clipboard_types = codes "text" ∷ [];
  max_clipboard_size_kb = pos 100;
  max_file_size_mb = pos 10;
  connections = 2;
}

abbrev root_flags : RootFlags
root_flags = record {
  log_level = [];
  device_id = [];
  no_file_log = false;
  detach = false;
  no_sync = false;
  max_size = pos 100;
  no_stealth_mode = false;
  polling_interval = pos 0;
}

abbrev process : Process
process = record {
  is_child = false;
  executable = some (codes "/usr/bin/clipman");
  work_dir = some (codes "/home/u");
  arguments = [];
  daemon_answers = record {
    makes_log_dir = true;
    opens_stdout = true;
    opens_stderr = true;
    makes_pid_dir = true;
    starts = λ args. some 7;
    writes_pid = true;
    releases = true;
    is_alive = true;
  };
}

abbrev twelve : Bucket
twelve = items_from 12 1

twelve-IsSound : IsSound backend twelve
twelve-IsSound = record {
  ascending = items_from-IsAscending 12 1;
  all_items = items_from-IsItem 12 1;
}

-- The same items come at every moment.
abbrev moments : Moments
moments = record {
  in_time = events;
  while_logging = events;
  while_listing = events;
  while_closing = events;
}

run_bound_example :
    (db : Bucket) × (left (
        run services printing network system
          (record { duration = pos 5; max_size = pos 0; no_sync = false })
          first_config
          (some twelve)
          moments)
      ≡ some db)
    × IsSound backend db
    × (length db ≤ 10 + length events)
run_bound_example =
    run_bound services backend_laws printing network system
      (record { duration = pos 5; max_size = pos 0; no_sync = false }) first_config twelve moments
      twelve-IsSound refl

run_daemon_lem_example :
    (m : Monitor) × (run_daemon network system services process root_flags first_config
        (some twelve)
        events
      ≡ interrupted m)
    × IsSound backend m.storage.db
    × All
        (IsExplained services
          (configured_processor (override_daemon root_flags first_config))
          events
          twelve)
        m.storage.db
run_daemon_lem_example =
    run_daemon_lem services backend_laws network system process root_flags first_config twelve
      events twelve-IsSound refl

flush_lem_example :
    (before after : List Bytes) × (r : Flushed) × (flush backend printing
        (get_system_paths system first_config)
        true
        first_config
        (some twelve)
      ≡ done before r after (drop (length twelve - 10) twelve))
    × (r.freed ≡ pos (data_size (items backend (take (length twelve - 10) twelve))))
    × (r.size_before ≡ pos (byte_size twelve))
flush_lem_example =
    flush_lem backend backend_laws printing (get_system_paths system first_config) true first_config
      twelve twelve-IsSound

-- The flag for the level takes the place of the format.
level_in_format :
    (override_config (record root_flags { log_level = codes "debug" }) first_config).log.format
    ≡ codes "debug"
unfolding override_config clipman_daemon.Prelude.bytes_equal
level_in_format = refl

default_level : get_zap_log_level first_config.log.format ≡ info_level
unfolding get_zap_log_level clipman_daemon.Prelude.bytes_equal clipman_daemon.Config.prepared
    clipman_daemon.Config.default_config clipman_daemon.Config.default_log_config
default_level = refl

first_config_is_valid :
    validate_sync_config (load_sync_config (settings network first_config)) ≡ none
unfolding validate_sync_config load_sync_config settings bytes_equal
    clipman_daemon.Sync.Config.one_of clipman_daemon.Config.prepared clipman_daemon.Config.env_text
    clipman_daemon.Config.default_config clipman_daemon.Sync.Config.check_types
first_config_is_valid = refl

sync_publisher_lem_example :
    (m : SyncManager Bytes ℕ) × (sync_publisher network first_config ≡ synced m default_group)
    × (lookup default_group m.node.group_node.topics ≡ some (topic_name default_group))
    × ((content_publisher network (sync_publisher network first_config)).is_connected ≡ true)
    × ((d : ClipboardContent)
        → (content_publisher network (sync_publisher network first_config)).publish d ≡ false)
sync_publisher_lem_example =
    sync_publisher_lem network first_config first_config_is_valid refl refl refl refl refl
