-- ===== src/Cli/History/Shown.antt =====
-- internal/cli/cmd/history.go: what is shown of an item, and the list of items that --json prints.
use clipman_daemon.Prelude.{
  ℕ, ◌-◌, Option, none, some, List, [], ◌∷◌, ◌++◌, map, Bytes, codes, bytes_equal, length, take,
  ltb, leb, if◌then◌else◌,
}
use clipman_daemon.Content.{
  ClipboardContent, ContentType, Timestamp, type_image, type_file, type_url, type_filepath,
}
use clipman_daemon.Text.{trim_space, split_lines}
use clipman_daemon.Text.Decimal.{decimal}

-- An item of `displayHistoryJSON`.
pub record JsonItem : Type 0 where
  pub json_type : ContentType
  pub timestamp : Bytes
  pub size : ℕ
  pub preview : Bytes

unfoldable pub json_preview : ClipboardContent → Bytes
json_preview c = elim c.content_data [
  | [] ↦ []
  | b ∷ d ↦
      if bytes_equal c.content_type type_image
      then codes "[Binary image data]"
      else if leb (length (b ∷ d)) 100
      then b ∷ d
      else take 100 (b ∷ d) ++ codes "..."
]

unfoldable pub json_items : (Timestamp → Bytes) → List ClipboardContent → List JsonItem
unfolding json_preview
json_items rfc3339 [] = []
json_items rfc3339 (c ∷ contents) =
    record {
      json_type = c.content_type;
      timestamp = rfc3339 c.created;
      size = length c.content_data;
      preview = json_preview c;
    }
    ∷ json_items rfc3339 contents

-- A line of `formatMultilineContent`.
unfoldable pub cut_line : ℕ → Bytes → Bytes
cut_line max_line_length line =
    if ltb max_line_length (length line) then take max_line_length line ++ codes "..." else line

-- `formatMultilineContent`: its lines, without the blank one before the last.
unfoldable pub format_multiline_content : Bytes → ℕ → List Bytes
unfolding cut_line
format_multiline_content text max_line_length =
    let lines = split_lines text in
    let visible = map (cut_line max_line_length) (take 25 lines) in
    if ltb 25 (length lines)
    then visible
      ++ ((codes "... [" ++ decimal (length lines - 25) ++ codes " more lines not shown] ...") ∷ [])
    else visible

abbrev listed : Bytes → Bytes
listed file = codes "  - " ++ file

-- The loop over the files of a list.
unfoldable pub file_list_lines : List Bytes → List Bytes
file_list_lines files =
    let count = length files in
    (codes "File list (" ++ decimal count ++ codes " files):")
    ∷ (if leb count 15
        then map listed files
        else map listed (take 10 files)
          ++ ((codes "  - ... and " ++ decimal (count - 10) ++ codes " more files") ∷ []))

-- What `displayFormattedContent` prints; `stat` gives the three lines on a file that is found.
unfoldable pub display_formatted_content :
    (Bytes → Option (List Bytes)) → (Bytes → Option (List Bytes)) → ClipboardContent → List Bytes
unfolding format_multiline_content file_list_lines
display_formatted_content json_paths stat c = elim c.content_data [
  | [] ↦ codes "[Empty content]" ∷ []
  | b ∷ d ↦
      if bytes_equal c.content_type type_image
      then codes "[Binary image data]"
        ∷ (codes "Size: " ++ decimal (length (b ∷ d)) ++ codes " bytes")
        ∷ []
      else if bytes_equal c.content_type type_file
      then elim (json_paths (b ∷ d)) [
        | none ↦ format_multiline_content (b ∷ d) 80
        | some files ↦ elim files [
          | [] ↦ format_multiline_content (b ∷ d) 80
          | f ∷ rest ↦ file_list_lines (f ∷ rest)
        ]
      ]
      else if bytes_equal c.content_type type_url
      then (codes "URL: " ++ trim_space (b ∷ d)) ∷ []
      else if bytes_equal c.content_type type_filepath
      then (codes "File path: " ++ trim_space (b ∷ d)) ∷ elim (stat (trim_space (b ∷ d))) [
        | none ↦ codes "  - File does not exist or is inaccessible" ∷ []
        | some lines ↦ lines
      ]
      else format_multiline_content (b ∷ d) 100
]
