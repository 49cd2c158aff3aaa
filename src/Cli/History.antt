-- ===== src/Cli/History.antt =====
-- internal/cli/cmd/history.go: the command that shows the history. It opens the database and closes it when
-- it is done; what it prints are lines.
pub mod Running
pub mod Shown
use clipman_daemon.Prelude.{
  ◌+◌, ◌-◌, ◌≡◌, ap, Bool, true, false, Option, none, some, List, [], ◌∷◌, ◌++◌, Bytes, codes,
  bytes_equal, length, drop, if◌then◌else◌, All, inl, inr,
}
use clipman_daemon.Prelude as Prelude
use clipman_daemon.Prelude.Int.{ℤ, pos, ltb_ℤ}
use clipman_daemon.Content.{
  ContentType, Timestamp, HistoryOptions, zero_time, type_text, type_string, type_image, type_file,
  type_url, type_filepath,
}
use clipman_daemon.Text.Decimal.{decimal}
use clipman_daemon.Storage.{BoltStorage, StorageConfig, ok, err, new_bolt_storage, close}
use clipman_daemon.Storage.Cursor.{Bucket, IsAscending}
use clipman_daemon.Storage.Services.{Backend, BackendLaws}
use clipman_daemon.Storage.Reads.{get_history, get_latest_content}
use clipman_daemon.Storage.Flush.{IsItem, flush_cache_lem, newest}
use clipman_daemon.Storage.Display.{Printing, log_complete_history}
use Running.{Processes, is_in_use}
use Shown.{JsonItem, json_items, display_formatted_content}

pub record Flags : Type 0 where
  pub limit : ℤ
  pub since : Bytes
  pub before : Bytes
  pub item_type : Bytes
  pub reverse : Bool
  pub min_size : ℤ
  pub content_max_size : ℤ
  pub json_output : Bool
  pub dump_all : Bool
  pub most_recent : Bool

pub data CommandError : Type 0 where
  database_locked storage_failed invalid_since invalid_before invalid_type latest_failed :
      CommandError

-- The switch on the name of a type; none is the error.
unfoldable pub type_of_name : Bytes → Option ContentType
type_of_name n =
    if bytes_equal n (codes "text")
    then some type_text
    else if bytes_equal n (codes "string")
    then some type_string
    else if bytes_equal n (codes "image")
    then some type_image
    else if bytes_equal n (codes "url")
    then some type_url
    else if bytes_equal n (codes "file")
    then some type_file
    else if bytes_equal n (codes "filepath")
    then some type_filepath
    else none

-- An optional flag: the empty text leaves the default.
abbrev pub optional {ℓ} : {A : Type ℓ} → A → (Bytes → Option A) → Bytes → Option A
optional default read [] = some default
optional default read (c ∷ s) = read (c ∷ s)

-- The options that the flags stand for; `parse` is time.Parse in the layout RFC3339.
unfoldable pub history_options :
    (Bytes → Option Timestamp) → Flags → Prelude.◌⊎◌ CommandError HistoryOptions
unfolding type_of_name
history_options parse f = elim (optional zero_time parse f.since) [
  | none ↦ Prelude.inl invalid_since
  | some since' ↦ elim (optional zero_time parse f.before) [
    | none ↦ Prelude.inl invalid_before
    | some before' ↦ elim (optional [] type_of_name f.item_type) [
      | none ↦ Prelude.inl invalid_type
      | some t ↦ Prelude.inr (record {
        limit = if f.most_recent then pos 1 else f.limit;
        since = since';
        before = before';
        filter_type = t;
        reversed = if f.most_recent then true else f.reverse;
        min_size = f.min_size;
        max_size = if ltb_ℤ (pos 0) f.content_max_size then f.content_max_size else pos 0;
      })
    ]
  ]
]

-- What a command prints.
pub data Output : Type 0 where
  lines : List Bytes → Output
  json : List JsonItem → Output
  failure : CommandError → Output

-- What the command asks of its surroundings, beside the printing.
pub record Surroundings : Type 0 where
  pub printing : Printing
  pub parse_time : Bytes → Option Timestamp
  pub stat : Bytes → Option (List Bytes)
  pub processes : Processes
  pub db_file : Bytes
  pub device_id : Bytes

module _ (e : Backend) (w : Surroundings) where
  -- The item that --most-recent shows.
  unfoldable pub latest_lines : BoltStorage → Output
  unfolding get_latest_content display_formatted_content
  latest_lines s = elim (get_latest_content e s) [
    | err x ↦ failure latest_failed
    | ok none ↦ lines (codes "No clipboard history found." ∷ [])
    | ok (some c) ↦ lines (
        codes "=== MOST RECENT CLIPBOARD ITEM ==="
        ∷ (codes "Timestamp: " ++ w.printing.rfc3339 c.created)
        ∷ (codes "Type: " ++ c.content_type)
        ∷ (codes "Size: " ++ decimal (length c.content_data) ++ codes " bytes")
        ∷ codes "Content:"
        ∷ display_formatted_content w.printing.json_paths w.stat c)
  ]

  abbrev no_options : HistoryOptions
  no_options = record {
    limit = pos 0;
    since = zero_time;
    before = zero_time;
    filter_type = [];
    reversed = false;
    min_size = pos 0;
    max_size = pos 0;
  }

  -- What the command prints from an open database.
  unfoldable pub show_history : Flags → BoltStorage → Output
  unfolding history_options log_complete_history json_items latest_lines
  show_history f s =
      if f.dump_all
      then lines (log_complete_history w.printing e s no_options)
      else elim (history_options w.parse_time f) [
        | Prelude.inl x ↦ failure x
        | Prelude.inr o ↦
            if f.json_output
            then json (json_items w.printing.rfc3339 (get_history e s o))
            else if f.most_recent
            then latest_lines s
            else lines (log_complete_history w.printing e s o)
      ]

  -- The configuration that the command opens the database with: the rest is left at its zero values.
  unfoldable pub storage_config : StorageConfig
  storage_config = record {
    db_path = w.db_file;
    config_max_size = pos 0;
    device_id = w.device_id;
    config_keep_items = pos 0;
  }

  -- The command, on the database as bbolt finds it: what it prints, and the database that it leaves.
  unfoldable pub history : Flags → Option Bucket → Output × Option Bucket
  unfolding storage_config is_in_use
  history f database =
      if is_in_use w.processes w.db_file
      then (failure database_locked, database)
      else elim (new_bolt_storage storage_config database) [
        | err x ↦ (failure storage_failed, database)
        | ok s ↦ (show_history f s, some (close e s).db)
      ]

  close-newest :
      (laws : BackendLaws e) (s : BoltStorage)
      → IsAscending s.db
      → All (IsItem e) s.db
      → (close e s).db ≡ newest e s
  unfolding close
  close-newest laws s asc items = ap (λ r. r.0.db) (flush_cache_lem e laws s asc items)

  -- Showing the history, with any flags, where no daemon is found and the database is not locked, leaves
  -- of a database whose entries are items, in the order of their keys, only the last 10.
  pub history-drop :
      (laws : BackendLaws e) (f : Flags) (b : Bucket)
      → IsAscending b
      → All (IsItem e) b
      → is_in_use w.processes w.db_file ≡ false
      → (history f (some b)).1 ≡ some (drop (length b - 10) b)
  unfolding history new_bolt_storage
  history-drop laws f b asc items free = rw (free) (ap some (close-newest laws _ asc items))
