-- ===== src/Clipboard/Processing.antt =====
-- internal/clipboard/content_processing.go. The transformers and filters change or drop an item; a
-- transformer may return nil, which is `none`. File system and JSON enter as functions.
pub mod Laws
use clipman_daemon.Prelude.{
  Bool, true, false, not, ◌&&◌, ◌||◌, Option, none, some, List, [], ◌∷◌, ◌++◌, Bytes, bytes_equal,
  length, ltb, ◌==◌, ◌+◌, keep, if◌then◌else◌,
}
use clipman_daemon.Prelude.Int.{ℤ, pos, ltb_ℤ}
use clipman_daemon.Text.{trim_space}
use clipman_daemon.Content.{
  ClipboardContent, ContentType, type_text, type_string, type_url, type_filepath, type_file,
}

-- os.Stat on a path (whether it succeeds), and JSON for lists of paths.
pub record Files : Type 0 where
  pub stat : Bytes → Bool
  pub unmarshal_paths : Bytes → Option (List Bytes)
  pub marshal_paths : List Bytes → Option Bytes

abbrev pub ContentFilter : Type 0
ContentFilter = ClipboardContent → Bool

abbrev pub ContentTransformer : Type 0
ContentTransformer = ClipboardContent → Option ClipboardContent

pub record ContentProcessor : Type 0 where
  pub filters : List ContentFilter
  pub transformers : List ContentTransformer
  pub max_size_bytes : ℤ

abbrev pub new_content_processor : ContentProcessor
new_content_processor = record { filters = []; transformers = []; max_size_bytes = pos 104857600 }

unfoldable pub set_max_size : ContentProcessor → ℤ → ContentProcessor
set_max_size cp n = record cp { max_size_bytes = n }

unfoldable pub add_filter : ContentProcessor → ContentFilter → ContentProcessor
add_filter cp f = record cp { filters = cp.filters ++ f ∷ [] }

unfoldable pub add_transformer : ContentProcessor → ContentTransformer → ContentProcessor
add_transformer cp t = record cp { transformers = cp.transformers ++ t ∷ [] }

unfoldable pub process_text_content : ClipboardContent → ClipboardContent
process_text_content c = record c { content_data = trim_space c.content_data }

unfoldable pub process_url_content : ClipboardContent → ClipboardContent
process_url_content c = record c { content_data = trim_space c.content_data }

module _ (files : Files) where
  -- Whether the file can be reached or not, and whether it is a directory or not, the path is kept.
  unfoldable pub process_file_path_content : ClipboardContent → ClipboardContent
  process_file_path_content c = if not (files.stat c.content_data) then c else c

  unfoldable pub process_file_list_content : ClipboardContent → ClipboardContent
  process_file_list_content c = elim (files.unmarshal_paths c.content_data) [
    | none ↦ c
    | some paths ↦
        let valid = keep files.stat paths in
        if length valid == 0 && ltb 0 (length paths) then c else elim (files.marshal_paths valid) [
          | none ↦ c
          | some new_data ↦ record c { content_data = new_data }
        ]
  ]

  unfoldable pub process_by_type : ClipboardContent → ClipboardContent
  process_by_type c =
      if bytes_equal c.content_type type_text || bytes_equal c.content_type type_string
      then process_text_content c
      else if bytes_equal c.content_type type_url
      then process_url_content c
      else if bytes_equal c.content_type type_filepath
      then process_file_path_content c
      else if bytes_equal c.content_type type_file
      then process_file_list_content c
      else c

  unfoldable pub transform_all :
      List ContentTransformer → ClipboardContent → Option ClipboardContent
  transform_all [] c = some c
  transform_all (t ∷ ts) c = elim (t c) [ none ↦ none | some d ↦ transform_all ts d ]

  unfoldable pub filter_all : List ContentFilter → ClipboardContent → Option ClipboardContent
  filter_all [] c = some c
  filter_all (f ∷ fs) c = let rest = filter_all fs c in if f c then rest else none

  unfoldable pub process : ContentProcessor → Option ClipboardContent → Option ClipboardContent
  process cp none = none
  process cp (some c) =
      if ltb_ℤ cp.max_size_bytes (pos (length c.content_data))
      then none
      else elim (transform_all cp.transformers (process_by_type c)) [
        | none ↦ none
        | some d ↦ filter_all cp.filters d
      ]

unfoldable pub size_filter : ℤ → ContentFilter
size_filter max c = not (ltb_ℤ max (pos (length c.content_data)))

unfoldable pub type_filter : List ContentType → ContentFilter
type_filter [] c = false
type_filter (t ∷ ts) c = if bytes_equal c.content_type t then true else type_filter ts c

unfoldable pub exclude_type_filter : List ContentType → ContentFilter
exclude_type_filter [] c = true
exclude_type_filter (t ∷ ts) c =
    if bytes_equal c.content_type t then false else exclude_type_filter ts c

unfoldable pub trim_transformer : ContentTransformer
trim_transformer c =
    if bytes_equal c.content_type type_text || bytes_equal c.content_type type_url
    then some (record c { content_data = trim_space c.content_data })
    else some c

-- `lower` is bytes.ToLower.
unfoldable pub lowercase_transformer : (Bytes → Bytes) → ContentTransformer
lowercase_transformer lower c =
    if bytes_equal c.content_type type_text || bytes_equal c.content_type type_string
    then some (record c { content_data = lower c.content_data })
    else some c

-- `matches` is regex.Match for the compiled pattern.
unfoldable pub regex_filter : (Bytes → Bool) → ContentFilter
regex_filter matches c = matches c.content_data
