-- ===== src/Platform/Uris/RoundTrip.antt =====
-- internal/platform/clipboard_linux.go: files that are written to the clipboard and read from it.
use clipman_daemon.Prelude.{
  ◌≡◌, refl, ap, ◌∙◌, inl, inr, false, Option, some, List, [], ◌∷◌, ◌++◌, Bytes, bytes_equal,
  has_prefix, All, map, Bool-cases, ◌==◌,
}
use clipman_daemon.Content.{Timestamp}
use clipman_daemon.Text.{trim_space, split_lines}
use clipman_daemon.Platform.Uris.{
  gnome_files, uri_files, parse_uri_data, file_content, path_lines, gnome_format, uri_format,
  file_scheme,
}

-- A path without a line feed.
abbrev IsLine : Bytes → Type 0
IsLine path = All (λ c. (c == 10) ≡ false) path

split_lines-cons : (s : Bytes) → (l : Bytes) × (lines : List Bytes) × (split_lines s ≡ l ∷ lines)
unfolding split_lines
split_lines-cons [] = ([], [], refl)
split_lines-cons (c ∷ s) =
    let (l, lines, e) = split_lines-cons s in
    elim (Bool-cases (c == 10)) [
      | inl ends ↦ ([], l ∷ lines, rw (e, ends) refl)
      | inr goes_on ↦ (c ∷ l, lines, rw (e, goes_on) refl)
    ]

-- Splitting off a line that a line feed ends.
split_lines-line :
    (l rest : Bytes) → IsLine l → split_lines (l ++ (10 ∷ rest)) ≡ l ∷ split_lines rest
unfolding split_lines
split_lines-line [] rest h = let (l, lines, e) = split_lines-cons rest in rw (e) refl
split_lines-line (c ∷ l) rest h = rw (split_lines-line l rest h.1, h.0) refl

-- The lines of a text that is made of lines, and one that is empty.
split_lines-path_lines :
    (paths : List Bytes) → All IsLine paths → split_lines (path_lines paths) ≡ paths ++ ([] ∷ [])
unfolding path_lines split_lines
split_lines-path_lines [] h = refl
split_lines-path_lines (p ∷ paths) h =
    split_lines-line p (path_lines paths) h.0 ∙ ap (◌∷◌ p) (split_lines-path_lines paths h.1)

-- A path that is one line, and not blank.
abbrev pub IsPath : Bytes → Type 0
IsPath path = IsLine path × (bytes_equal (trim_space path) [] ≡ false)

lines_of : (paths : List Bytes) → All IsPath paths → All IsLine paths
lines_of [] h = tt
lines_of (p ∷ paths) h = (h.0.0, lines_of paths h.1)

trim_space-nil : trim_space [] ≡ []
unfolding trim_space
trim_space-nil = refl

gnome_files-paths :
    (paths : List Bytes) → All IsPath paths → gnome_files (paths ++ ([] ∷ [])) ≡ paths
unfolding gnome_files bytes_equal
gnome_files-paths [] h = rw (trim_space-nil) refl
gnome_files-paths (p ∷ paths) h = rw (h.0.1) (ap (◌∷◌ p) (gnome_files-paths paths h.1))

-- A path whose URI is one line with no white space at its ends.
abbrev pub IsUriPath : Bytes → Type 0
IsUriPath path = IsLine path × (trim_space (file_scheme ++ path) ≡ file_scheme ++ path)

uri_lines_of :
    (paths : List Bytes)
    → All IsUriPath paths
    → All IsLine (map (λ path. file_scheme ++ path) paths)
uri_lines_of [] h = tt
uri_lines_of (p ∷ paths) h =
    ((refl, (refl, (refl, (refl, (refl, (refl, (refl, h.0.0))))))), uri_lines_of paths h.1)

uri_files-paths :
    (query_unescape : Bytes → Option Bytes) (decoded : Bytes → Bytes) (paths : List Bytes)
    → All (λ p. query_unescape p ≡ some (decoded p)) paths
    → All IsUriPath paths
    → uri_files query_unescape (map (λ path. file_scheme ++ path) paths ++ ([] ∷ []))
      ≡ map decoded paths
unfolding uri_files has_prefix bytes_equal
uri_files-paths query_unescape decoded [] k h = rw (trim_space-nil) refl
uri_files-paths query_unescape decoded (p ∷ paths) k h =
    rw (h.0.1, k.0) (ap (◌∷◌ (decoded p)) (uri_files-paths query_unescape decoded paths k.1 h.1))

uri_files-format :
    (query_unescape : Bytes → Option Bytes) (decoded : Bytes → Bytes) (paths : List Bytes)
    → All (λ p. query_unescape p ≡ some (decoded p)) paths
    → All IsUriPath paths
    → uri_files query_unescape (split_lines (uri_format paths)) ≡ map decoded paths
unfolding uri_format
uri_files-format query_unescape decoded paths k h =
    ap (uri_files query_unescape)
      (split_lines-path_lines (map (λ path. file_scheme ++ path) paths) (uri_lines_of paths h))
    ∙ uri_files-paths query_unescape decoded paths k h

module _ (query_unescape : Bytes → Option Bytes) (marshal : List Bytes → Option Bytes) where
  read_gnome :
      (now : Timestamp) (file : Bytes) (files : List Bytes)
      → All IsPath (file ∷ files)
      → parse_uri_data query_unescape marshal now (gnome_format (file ∷ files))
        ≡ file_content marshal now (file ∷ files)
  unfolding parse_uri_data gnome_format has_prefix
  read_gnome now file files h =
      rw
        (
          split_lines-path_lines (file ∷ files) (lines_of (file ∷ files) h),
          gnome_files-paths (file ∷ files) h,
        )
        refl

  read_uris :
      (now : Timestamp) (decoded : Bytes → Bytes) (paths : List Bytes)
      → All (λ p. query_unescape p ≡ some (decoded p)) paths
      → All IsUriPath paths
      → parse_uri_data query_unescape marshal now (uri_format paths)
        ≡ file_content marshal now (map decoded paths)
  unfolding parse_uri_data uri_format path_lines has_prefix
  read_uris now decoded [] k h =
      ap (file_content marshal now) (uri_files-format query_unescape decoded [] k h)
  read_uris now decoded (p ∷ paths) k h =
      ap (file_content marshal now) (uri_files-format query_unescape decoded (p ∷ paths) k h)

  -- Files that are written as a GNOME list, each path one line that is not blank, are read as the same
  -- files. Files that are written as a list of URIs, each one line with no white space at its ends,
  -- are read as what url.QueryUnescape makes of their paths, since these are not escaped.
  pub parse_uri_data-format :
      (now : Timestamp) (decoded : Bytes → Bytes) (file : Bytes) (files paths : List Bytes)
      → All IsPath (file ∷ files)
      → All (λ p. query_unescape p ≡ some (decoded p)) paths
      → All IsUriPath paths
      → (parse_uri_data query_unescape marshal now (gnome_format (file ∷ files))
          ≡ file_content marshal now (file ∷ files))
        × (parse_uri_data query_unescape marshal now (uri_format paths)
            ≡ file_content marshal now (map decoded paths))
  parse_uri_data-format now decoded file files paths h k u =
      (read_gnome now file files h, read_uris now decoded paths k u)
