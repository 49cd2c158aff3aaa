-- ===== src/Clipboard/Monitor.antt =====
-- internal/clipboard/monitor.go: the loop that takes items from the platform's monitor. The channel
-- is a list of events; what the loop logs is left out.
pub mod Invariant
pub mod Repeats
pub mod Total
pub mod Provenance
use clipman_daemon.Prelude.{
  ℕ, ◌+◌, Bool, true, false, not, ◌&&◌, Option, none, some, List, [], ◌∷◌, ◌++◌, bytes_equal, ltb,
  if◌then◌else◌,
}
use clipman_daemon.Prelude.Int.{ℤ, pos, ltb_ℤ}
use clipman_daemon.Content.{ClipboardContent, Timestamp}
use clipman_daemon.Storage.{BoltStorage, ok, err, save_content}
use clipman_daemon.Storage.Services.{Backend}
use clipman_daemon.Storage.Reads.{get_latest_content}
use clipman_daemon.Clipboard.History.{
  ClipboardHistory, HistoryItem, new_clipboard_history, add, get_last,
}
use clipman_daemon.Clipboard.Detection.{UrlParse, detect_content_type}
use clipman_daemon.Clipboard.Processing.{
  Files, ContentProcessor, new_content_processor, set_max_size, add_transformer, process,
  trim_transformer,
}

-- ContentPublisher: whether it is connected, and whether publishing an item succeeds.
pub record ContentPublisher : Type 0 where
  pub is_connected : Bool
  pub publish : ClipboardContent → Bool

-- `published` collects what was handed to a publisher, oldest first.
pub record Monitor : Type 0 where
  pub content_publisher : Option ContentPublisher
  pub storage : BoltStorage
  pub last_content : Option ClipboardContent
  pub history : ClipboardHistory
  pub content_processor : ContentProcessor
  pub published : List ClipboardContent
  pub stopped : Bool

-- What the monitor calls and does not implement.
pub record Services : Type 0 where
  pub backend : Backend
  pub url_parse : UrlParse
  pub files : Files

-- `max_size` is cfg.Storage.MaxSize.
unfoldable pub new_monitor : ℤ → Option ContentPublisher → BoltStorage → Monitor
unfolding set_max_size add_transformer new_clipboard_history
new_monitor max_size publisher storage = record {
  content_publisher = publisher;
  storage = storage;
  last_content = none;
  history = new_clipboard_history 100;
  content_processor =
      add_transformer
        (if ltb_ℤ (pos 0) max_size
          then set_max_size new_content_processor max_size
          else new_content_processor)
        trim_transformer;
  published = [];
  stopped = false;
}

-- 5*time.Second
abbrev pub repeat_window : ℕ
repeat_window = 5_000_000_000

-- `isContentEqual`; `none` is the nil pointer.
unfoldable pub is_content_equal : Option ClipboardContent → Option ClipboardContent → Bool
is_content_equal none none = true
is_content_equal none (some d) = false
is_content_equal (some c) none = false
is_content_equal (some c) (some d) =
    (bytes_equal c.content_type d.content_type && bytes_equal c.content_data d.content_data)
    && not (ltb (d.created.instant + repeat_window) c.created.instant)

-- `publishContent`: what is published, and whether it succeeded.
unfoldable pub publish_content :
    Option ContentPublisher → ClipboardContent → List ClipboardContent × Bool
publish_content none c = ([], true)
publish_content (some p) c = if not p.is_connected then ([], true) else (c ∷ [], p.publish c)

pub data Event : Type 0 where
  -- an item, or nil, from the channel, at a time
  received : Option ClipboardContent → Timestamp → Event
  -- the context is done
  cancelled : Event

module _ (s : Services) where
  unfoldable pub start : Monitor → Monitor
  unfolding get_latest_content
  start m = elim (get_latest_content s.backend m.storage) [
    | err x ↦ m
    | ok none ↦ m
    | ok (some c) ↦ record m { last_content = some c }
  ]

  unfoldable pub prepare_content : ClipboardContent → ClipboardContent
  prepare_content c = record c { content_type = detect_content_type s.url_parse c.content_data }

  -- From the save on: errors of the save and of the publisher are logged, and the item goes to the
  -- history all the same. `none` is a panic of the history's ring.
  unfoldable pub keep_content : Monitor → ClipboardContent → Timestamp → Option Monitor
  unfolding publish_content
  keep_content m c now = elim (add m.history c now) [
    | none ↦ none
    | some history' ↦ some (record m {
      storage = (save_content s.backend m.storage c).0;
      published = m.published ++ (publish_content m.content_publisher c).0;
      history = history';
      last_content = some c;
    })
  ]

  unfoldable pub process_new_content : Monitor → ClipboardContent → Timestamp → Option Monitor
  process_new_content m c now = elim (process s.files m.content_processor (some c)) [
    | none ↦ some m
    | some d ↦ keep_content m (prepare_content d) now
  ]

  -- One round of the loop of `monitorClipboard`.
  unfoldable pub monitor_step : Monitor → Event → Option Monitor
  monitor_step m cancelled = some (record m { stopped = true })
  monitor_step m (received none now) = some m
  monitor_step m (received (some c) now) =
      if not (is_content_equal (some c) m.last_content) then process_new_content m c now else some m

  unfoldable pub monitor_clipboard : Monitor → List Event → Option Monitor
  monitor_clipboard m [] = some m
  monitor_clipboard m (ev ∷ evs) = elim m.stopped [
    | true ↦ some m
    | false ↦ elim (monitor_step m ev) [ none ↦ none | some m' ↦ monitor_clipboard m' evs ]
  ]

-- `GetHistory`
unfoldable pub get_history_items : Monitor → ℕ → List HistoryItem
unfolding get_last
get_history_items m n = get_last m.history n
