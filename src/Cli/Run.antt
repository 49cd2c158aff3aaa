-- ===== src/Cli/Run.antt =====
-- internal/cli/cmd/run.go: the command that runs the monitor, for a duration or until it is interrupted.
pub mod Storing
use clipman_daemon.Prelude.{
  ℕ, Bool, not, ◌||◌, Option, none, some, List, map, Bytes, codes, bytes_equal, length, take,
  if◌then◌else◌,
}
use clipman_daemon.Prelude.Int.{ℤ, pos, ltb_ℤ}
use clipman_daemon.Content.{ContentType, Timestamp, type_text, type_url}
use clipman_daemon.Config.{Config, SystemPaths, System, get_system_paths}
use clipman_daemon.Storage.{ok, err, new_bolt_storage, close}
use clipman_daemon.Storage.Cursor.{Bucket}
use clipman_daemon.Storage.Display.{Printing, log_complete_history}
use clipman_daemon.Clipboard.History.{HistoryItem}
use clipman_daemon.Clipboard.Monitor.{
  ContentPublisher, Event, Services, Monitor, get_history_items, monitor_clipboard,
}
use clipman_daemon.Cli.Root.{
  Network, no_op, sync_publisher, content_publisher, storage_config, monitored,
}

pub record RunFlags : Type 0 where
  pub duration : ℤ
  pub max_size : ℤ
  pub no_sync : Bool

unfoldable pub override_run : RunFlags → Config → Config
override_run f c = record c {
  storage =
      if ltb_ℤ (pos 0) f.max_size then record (c.storage) { max_size = f.max_size } else c.storage;
}

-- What is logged of an item at the end.
pub record RecentItem : Type 0 where
  pub item_type : ContentType
  pub time : Timestamp
  pub data_length : ℕ
  pub preview : Bytes

unfoldable pub recent_item : HistoryItem → RecentItem
recent_item i = record {
  item_type = i.item_content.content_type;
  time = i.item_time;
  data_length = length i.item_content.content_data;
  preview =
      if bytes_equal i.item_content.content_type type_text
        || bytes_equal i.item_content.content_type type_url
      then take 50 i.item_content.content_data
      else codes "binary data";
}

-- `finished` has the lines of the history, the recent items, and the database that is left.
pub data RunOutcome : Type 0 where
  storage_failed panicked : RunOutcome
  interrupted : Monitor → RunOutcome
  finished : List Bytes → List RecentItem → Bucket → RunOutcome

-- What the monitor's goroutine, which nothing waits for, takes: before the duration is over, while the
-- history is logged, while the recent items are, and after Close has flushed, until the file is closed.
-- The cancelled context is one of the events.
pub record Moments : Type 0 where
  pub in_time : List Event
  pub while_logging : List Event
  pub while_listing : List Event
  pub while_closing : List Event

module _ (s : Services) (printing : Printing) where
  -- From the listing of the recent items on, with the lines of the history.
  unfoldable pub close_run : List Bytes → Monitor → Moments → RunOutcome
  unfolding recent_item get_history_items
  close_run logged m t =
      let recent = map recent_item (get_history_items m 10) in
      elim (monitor_clipboard s m t.while_listing) [
        | none ↦ panicked
        | some listed ↦
            elim (monitor_clipboard s (record listed { storage = close s.backend listed.storage })
              t.while_closing) [
                | none ↦ panicked
                | some closed ↦ finished logged recent closed.storage.db
              ]
      ]

  -- The end of a run.
  unfoldable pub end_run : Config → Monitor → Moments → RunOutcome
  unfolding log_complete_history close_run
  end_run c m t =
      let logged = log_complete_history printing s.backend m.storage c.history in
      elim (monitor_clipboard s m t.while_logging) [
        | none ↦ panicked
        | some after ↦ close_run logged after t
      ]

  -- From the publisher on: the monitor takes the events before the duration is over, or before it is
  -- interrupted.
  unfoldable pub run_monitor :
      SystemPaths → RunFlags → Config → ContentPublisher → Option Bucket → Moments → RunOutcome
  unfolding end_run storage_config
  run_monitor paths f c publisher database t =
      elim (new_bolt_storage (storage_config paths c) database) [
        | err x ↦ storage_failed
        | ok storage ↦ elim (monitored s c publisher storage t.in_time) [
          | none ↦ panicked
          | some m ↦ if ltb_ℤ (pos 0) f.duration then end_run c m t else interrupted m
        ]
      ]

  unfoldable pub run :
      {M X D F : Type 0}
      → Network M X D
      → System F
      → RunFlags
      → Config
      → Option Bucket
      → Moments
      → RunOutcome
  unfolding override_run sync_publisher content_publisher run_monitor
  run n os f config database t =
      let c = override_run f config in
      run_monitor (get_system_paths os c) f c
        (content_publisher n
          (if f.no_sync || not c.sync.enabled then no_op else sync_publisher n c))
        database t
