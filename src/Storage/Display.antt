-- ===== src/Storage/Display.antt =====
-- internal/storage/boltdb.go: how the history is shown. The texts that are printed are lines; the layouts
-- of package time, json.Unmarshal and os.Stat are the argument `Printing`.
pub mod Preview
use clipman_daemon.Prelude.{
  ℕ, zero, suc, ◌+◌, ◌-◌, Bool, false, ◌&&◌, ◌||◌, ◌==◌, Option, none, some, List, [], ◌∷◌, ◌++◌,
  map, Bytes, codes, bytes_equal, length, take, ltb, leb, if◌then◌else◌,
}
use clipman_daemon.Prelude.Int.{ℤ, pos, negsuc, ltb_ℤ}
use clipman_daemon.Content.{
  ClipboardContent, Timestamp, HistoryOptions, is_zero, type_image, type_file, type_url,
  type_filepath,
}
use clipman_daemon.Text.{trim_space}
use clipman_daemon.Text.Decimal.{decimal}
use clipman_daemon.Storage.{BoltStorage}
use clipman_daemon.Storage.Services.{Backend}
use clipman_daemon.Storage.Reads.{get_history}
use Preview.{format_time_ago, format_text_preview}

-- What the display asks of package time, encoding/json and os; the age of an item is in seconds.
pub record Printing : Type 0 where
  pub date_time : Timestamp → Bytes
  pub rfc3339 : Timestamp → Bytes
  pub age : Timestamp → ℕ
  pub json_paths : Bytes → Option (List Bytes)
  -- None for a file that is found, else the error.
  pub stat_error : Bytes → Option Bytes

abbrev pub decimal_ℤ : ℤ → Bytes
decimal_ℤ (pos n) = decimal n
decimal_ℤ (negsuc n) = codes "-" ++ decimal (suc n)

-- `optionOrDefault` on a number and on a string.
unfoldable pub limit_or_default : ℤ → Bytes → Bytes
limit_or_default (pos zero) default_text = default_text
limit_or_default (pos (suc n)) default_text = decimal_ℤ (pos (suc n))
limit_or_default (negsuc n) default_text = decimal_ℤ (negsuc n)

unfoldable pub text_or_default : Bytes → Bytes → Bytes
text_or_default [] default_text = default_text
text_or_default (c ∷ s) default_text = c ∷ s

module _ (p : Printing) where
  -- The header of item number `i`, from 0, of `count`.
  unfoldable pub item_header : HistoryOptions → ℕ → ℕ → ClipboardContent → Bytes
  unfolding format_time_ago
  item_header o count i c =
      let ago = format_time_ago (p.age c.created) ++ codes " ago):" in
      if o.reversed
      then (if is_one o.limit || (i == 0 && leb count 3)
          then codes "MOST RECENT ITEM (" ++ ago
          else codes "ITEM " ++ decimal (i + 1) ++ codes " (" ++ ago)
      else if i + 1 == count && ltb 1 count
      then codes "MOST RECENT ITEM "
        ++ decimal (i + 1)
        ++ codes " of "
        ++ decimal count
        ++ codes " ("
        ++ ago
      else codes "ITEM " ++ decimal (i + 1) ++ codes " of " ++ decimal count ++ codes ":"
    where
      is_one : ℤ → Bool
      is_one (pos n) = n == 1
      is_one (negsuc n) = false

  abbrev dashed : Bytes → Bytes
  dashed file = codes "    - " ++ file

  unfoldable pub file_lines : Bytes → List Bytes → List Bytes
  unfolding format_text_preview
  file_lines d [] = format_text_preview d 120 4
  file_lines d (f ∷ []) = (codes "    [File: " ++ f ++ codes "]") ∷ []
  file_lines d (f ∷ g ∷ files) =
      let count = 2 + length files in
      let more =
        if ltb 3 count
        then (codes "    - ... and " ++ decimal (count - 3) ++ codes " more files") ∷ []
        else [] in
      (codes "    [Files: " ++ decimal count ++ codes " total]")
        ∷ map dashed (take 3 (f ∷ g ∷ files))
      ++ more

  unfoldable pub content_lines : ClipboardContent → List Bytes
  unfolding file_lines format_text_preview
  content_lines c =
      if bytes_equal c.content_type type_image
      then codes "    [Binary image data]" ∷ []
      else if bytes_equal c.content_type type_file
      then elim (p.json_paths c.content_data) [
        | none ↦ format_text_preview c.content_data 120 4
        | some files ↦ file_lines c.content_data files
      ]
      else if bytes_equal c.content_type type_url
      then (codes "    " ++ trim_space c.content_data) ∷ []
      else if bytes_equal c.content_type type_filepath
      then (codes "    " ++ trim_space c.content_data)
        ∷ elim (p.stat_error (trim_space c.content_data)) [
          | none ↦ codes "    (File exists)"
          | some e ↦ codes "    (File not found: " ++ e ++ codes ")"
        ]
        ∷ []
      else format_text_preview c.content_data 120 4

  -- The loop over the items, from item number `i`.
  unfoldable pub item_lines : HistoryOptions → ℕ → ℕ → List ClipboardContent → List Bytes
  unfolding item_header content_lines
  item_lines o count i [] = []
  item_lines o count i (c ∷ contents) =
      item_header o count i c
        ∷ (codes "  Timestamp: " ++ p.date_time c.created)
        ∷ (codes "  Type: " ++ c.content_type)
        ∷ (codes "  Size: " ++ decimal (length c.content_data) ++ codes " bytes")
        ∷ codes "  Content:"
        ∷ content_lines c
      ++ item_lines o count (i + 1) contents

  unfoldable pub filter_lines : HistoryOptions → List Bytes
  unfolding limit_or_default text_or_default
  filter_lines o =
      (codes "=== CLIPBOARD HISTORY "
          ++ (if o.reversed then codes " (newest first)" else codes " (oldest first)")
          ++ codes "===")
        ∷ (codes "Filters: limit="
            ++ limit_or_default o.limit (codes "no limit")
            ++ codes ", type="
            ++ text_or_default o.filter_type (codes "all types"))
        ∷ (if ltb_ℤ (pos 0) o.min_size
            then (codes "         min_size=" ++ decimal_ℤ o.min_size ++ codes " bytes") ∷ []
            else [])
      ++ (if is_zero o.since then [] else (codes "         since=" ++ p.rfc3339 o.since) ∷ [])
      ++ (if is_zero o.before then [] else (codes "         before=" ++ p.rfc3339 o.before) ∷ [])

  -- `LogCompleteHistory`: the lines that are printed, without the blank ones. GetHistory gives no error
  -- here.
  unfoldable pub log_complete_history : Backend → BoltStorage → HistoryOptions → List Bytes
  unfolding filter_lines item_lines get_history
  log_complete_history e s o = filter_lines o ++ elim (get_history e s o) [
    | [] ↦ codes "No clipboard history matching the specified filters." ∷ []
    | c ∷ rest ↦
        item_lines o (length (c ∷ rest)) 0 (c ∷ rest)
        ++ ((codes "=== END OF CLIPBOARD HISTORY ("
              ++ decimal (length (c ∷ rest))
              ++ codes " items) ===")
            ∷ [])
  ]
