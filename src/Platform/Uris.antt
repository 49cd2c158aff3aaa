-- ===== src/Platform/Uris.antt =====
-- The lists of files in internal/platform/clipboard_linux.go: how they are read from the clipboard and
-- the texts in which they are written to it. url.QueryUnescape and json.Marshal are arguments.
pub mod RoundTrip
use clipman_daemon.Prelude.{
  false, not, ◌&&◌, Option, none, some, List, [], ◌∷◌, ◌++◌, Bytes, codes, bytes_equal, has_prefix,
  drop, if◌then◌else◌, map,
}
use clipman_daemon.Content.{ClipboardContent, Timestamp, type_filepath, type_file}
use clipman_daemon.Text.{trim_space, split_lines}

-- `parseXClipFormats` and `parseWaylandFormats`, which are alike.
unfoldable pub kept_lines : List Bytes → List Bytes
kept_lines [] = []
kept_lines (l ∷ lines) =
    let rest = kept_lines lines in
    if not (bytes_equal (trim_space l) []) then trim_space l ∷ rest else rest

unfoldable pub parse_xclip_formats : Bytes → List Bytes
unfolding kept_lines
parse_xclip_formats output = kept_lines (split_lines output)

unfoldable pub parse_wayland_formats : Bytes → List Bytes
unfolding kept_lines
parse_wayland_formats output = kept_lines (split_lines output)

-- The lines of the GNOME format that are not blank, as they are.
unfoldable pub gnome_files : List Bytes → List Bytes
gnome_files [] = []
gnome_files (l ∷ lines) =
    let rest = gnome_files lines in if not (bytes_equal (trim_space l) []) then l ∷ rest else rest

abbrev pub gnome_prefix : Bytes
gnome_prefix = codes "copy\n"

abbrev pub file_scheme : Bytes
file_scheme = codes "file://"

module _ (query_unescape : Bytes → Option Bytes) where
  -- The lines of a list of URIs: comments and blank lines are skipped, and so are paths that cannot be
  -- unescaped.
  unfoldable pub uri_files : List Bytes → List Bytes
  uri_files [] = []
  uri_files (l ∷ lines) =
      let line = trim_space l in
      let rest = uri_files lines in
      if not (bytes_equal line []) && not (has_prefix line (codes "#"))
      then (if has_prefix line file_scheme
          then elim (query_unescape (drop 7 line)) [ none ↦ rest | some path ↦ path ∷ rest ]
          else line ∷ rest)
      else rest

-- What the files become: one path, or a JSON list; none for no file and for an error of json.Marshal.
unfoldable pub file_content :
    (List Bytes → Option Bytes) → Timestamp → List Bytes → Option ClipboardContent
file_content marshal now [] = none
file_content marshal now (file ∷ []) = some (record {
  content_type = type_filepath;
  content_data = file;
  created = now;
  compressed = false;
})
file_content marshal now (file ∷ file' ∷ files) = elim (marshal (file ∷ file' ∷ files)) [
  | none ↦ none
  | some file_json ↦ some (record {
    content_type = type_file;
    content_data = file_json;
    created = now;
    compressed = false;
  })
]

module _ (query_unescape : Bytes → Option Bytes) (marshal : List Bytes → Option Bytes) where
  unfoldable pub parse_uri_data : Timestamp → Bytes → Option ClipboardContent
  unfolding gnome_files uri_files file_content
  parse_uri_data now data' =
      let as_uris = file_content marshal now (uri_files query_unescape (split_lines data')) in
      if has_prefix data' gnome_prefix
      then elim (gnome_files (split_lines (drop 5 data'))) [
        | [] ↦ as_uris
        | file ∷ files ↦ file_content marshal now (file ∷ files)
      ]
      else as_uris

-- The texts that `writeFileListContent` makes of the paths.
unfoldable pub path_lines : List Bytes → Bytes
path_lines [] = []
path_lines (path ∷ paths) = path ++ (10 ∷ path_lines paths)

unfoldable pub gnome_format : List Bytes → Bytes
unfolding path_lines
gnome_format paths = gnome_prefix ++ path_lines paths

unfoldable pub uri_format : List Bytes → Bytes
unfolding path_lines
uri_format paths = path_lines (map (λ path. file_scheme ++ path) paths)
