-- ===== src/Tests/Clipping.antt =====
-- The theorems on internal/clipboard at concrete inputs.
use clipman_daemon.Prelude.{
  ℕ, ◌≡◌, refl, ap, ◌∙◌, true, false, none, some, List, [], ◌∷◌, Bytes, codes, length, arith,
  bytes_equal, has_prefix, contains, take, reverse, if◌then◌else◌,
}
use clipman_daemon.Prelude.Int.{pos, ltb_ℤ}
use clipman_daemon.Content.{ClipboardContent, Timestamp, type_text, type_file}
use clipman_daemon.Text.{
  trim_space, ext, space_size, is_space, is_space2, is_space3, space_size_rev,
}
use clipman_daemon.Storage.{save_content}
use clipman_daemon.Storage.Saving.{IsSound}
use clipman_daemon.Clipboard.History.{
  HistoryItem, ClipboardHistory, new_clipboard_history, get_last, add,
}
use clipman_daemon.Clipboard.History.Window.{add_all, last_items, get_last-add_all}
use clipman_daemon.Clipboard.Detection.{
  detect_content_type, is_valid_url, is_likely_file_path, is_image,
}
use clipman_daemon.Clipboard.Processing.{
  Files, process, process_by_type, transform_all, filter_all, trim_transformer,
  process_text_content,
}
use clipman_daemon.Clipboard.Processing.Laws.{process_lem, monitor_processor, is_trimmed_type}
use clipman_daemon.Clipboard.Monitor.{
  Monitor, Services, Event, received, cancelled, monitor_step, publish_content, monitor_clipboard,
  keep_content, process_new_content, prepare_content, is_content_equal,
}
use clipman_daemon.Tests.Samples.{backend, text_at, at, storage_with}

abbrev item_at : ℕ → HistoryItem
item_at t = record { item_content = text_at t (codes "x"); item_time = at t }

get_last-add_all_example :
    (ch : ClipboardHistory) × (add_all
        (new_clipboard_history 2)
        (item_at 1 ∷ item_at 2 ∷ item_at 3 ∷ [])
      ≡ some ch)
    × (get_last ch 1 ≡ reverse (take 1 (last_items 2 (item_at 1 ∷ item_at 2 ∷ item_at 3 ∷ []))))
get_last-add_all_example =
    get_last-add_all 2 1 (item_at 1 ∷ item_at 2 ∷ item_at 3 ∷ []) (omega arith)

-- No path exists, and nothing is a list of paths.
abbrev files : Files
files = record { stat = λ p. false; unmarshal_paths = λ d. none; marshal_paths = λ ps. none }

abbrev pub services : Services
services = record { backend = backend; url_parse = λ s. none; files = files }

abbrev spaced : ClipboardContent
spaced = text_at 1 (codes " hi ")

abbrev trimmed : ClipboardContent
trimmed = text_at 1 (codes "hi")

spaced_processed : process files (monitor_processor (pos 100)) (some spaced) ≡ some trimmed
unfolding process process_by_type transform_all filter_all trim_transformer process_text_content
    trim_space bytes_equal space_size is_space is_space2 is_space3 space_size_rev
spaced_processed = refl

text_is_no_file : bytes_equal type_text type_file ≡ false
unfolding bytes_equal
text_is_no_file = refl

process_lem_example : process files (monitor_processor (pos 100)) (some spaced) ≡ (
    if ltb_ℤ (pos 100) (pos (length spaced.content_data))
    then none
    else if is_trimmed_type spaced
    then some (record spaced { content_data = trim_space spaced.content_data })
    else some spaced)
process_lem_example = process_lem files (pos 100) spaced text_is_no_file

-- A GIF whose trimmed bytes hold a slash.
abbrev gif : Bytes
gif = codes "GIF89a/"

gif_magic : is_image gif ≡ true
unfolding is_image has_prefix
gif_magic = refl

gif_is_likely_path : is_likely_file_path (trim_space gif) ≡ true
unfolding is_likely_file_path trim_space contains has_prefix bytes_equal ext space_size is_space
    is_space2 is_space3 space_size_rev
gif_is_likely_path = refl

gif_is_no_url : is_valid_url (λ s. none) (trim_space gif) ≡ false
unfolding is_valid_url
gif_is_no_url = refl

abbrev monitor : Monitor
monitor = record {
  content_publisher = none;
  storage = storage_with (pos 1000) [];
  last_content = none;
  history = new_clipboard_history 2;
  content_processor = monitor_processor (pos 100);
  published = [];
  stopped = false;
}

empty-IsSound : IsSound backend []
empty-IsSound = record { ascending = tt; all_items = tt }

-- The monitor after the item.
abbrev kept : ClipboardContent → Monitor
kept c = record monitor {
  storage = (save_content backend monitor.storage c).0;
  history = record {
    slots = none ∷ some (record { item_content = c; item_time = at 2 }) ∷ [];
    size = 2;
  };
  last_content = some c;
}

keep_trimmed : keep_content services monitor trimmed (at 2) ≡ some (kept trimmed)
unfolding keep_content add publish_content new_clipboard_history
keep_trimmed = refl

prepare_trimmed : prepare_content services trimmed ≡ trimmed
unfolding prepare_content detect_content_type is_valid_url is_likely_file_path is_image trim_space
    ext has_prefix contains bytes_equal space_size is_space is_space2 is_space3 space_size_rev
prepare_trimmed = refl

process_then_keep :
    (m : Monitor) (c d : ClipboardContent) (now : Timestamp)
    → process files m.content_processor (some c) ≡ some d
    → process_new_content services m c now
      ≡ keep_content services m (prepare_content services d) now
unfolding process_new_content
process_then_keep m c d now p = rw (process_new_content, p) refl

process_new_spaced : process_new_content services monitor spaced (at 2) ≡ some (kept trimmed)
process_new_spaced =
    process_then_keep monitor spaced trimmed (at 2) spaced_processed
    ∙ ap (λ d. keep_content services monitor d (at 2)) prepare_trimmed
    ∙ keep_trimmed

abbrev pub events : List Event
events = received (some spaced) (at 2) ∷ cancelled ∷ []

step_spaced : monitor_step services monitor (received (some spaced) (at 2)) ≡ some (kept trimmed)
unfolding monitor_step is_content_equal
step_spaced = process_new_spaced

run_after :
    (n : Monitor) (ev : Event) (evs : List Event)
    → monitor_step services monitor ev ≡ some n
    → monitor_clipboard services monitor (ev ∷ evs) ≡ monitor_clipboard services n evs
unfolding monitor_clipboard
run_after n ev evs step =
    ap (λ r. elim r [ none ↦ none | some m ↦ monitor_clipboard services m evs ]) step

stop_after :
    monitor_clipboard services (kept trimmed) (cancelled ∷ [])
    ≡ some (record (kept trimmed) { stopped = true })
unfolding monitor_clipboard monitor_step
stop_after = refl

run_events :
    monitor_clipboard services monitor events ≡ some (record (kept trimmed) { stopped = true })
run_events =
    run_after (kept trimmed) (received (some spaced) (at 2)) (cancelled ∷ []) step_spaced
    ∙ stop_after
