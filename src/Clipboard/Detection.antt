-- ===== src/Clipboard/Detection.antt =====
-- internal/clipboard/content_helpers.go: the type of an item is read off its bytes. url.Parse is the
-- standard library's: it gives the scheme and the host, or an error.
use clipman_daemon.Prelude.{
  ◌≡◌, ◌⊎◌, Bool, true, false, not, ◌&&◌, ◌||◌, Option, none, some, [], ◌∷◌, Bytes, codes,
  bytes_equal, has_prefix, contains, length, ltb, leb, ◌==◌, if◌then◌else◌, arith,
}
use clipman_daemon.Text.{trim_space, ext}
use clipman_daemon.Content.{ContentType, type_text, type_url, type_filepath, type_image}

abbrev pub UrlParse : Type 0
UrlParse = Bytes → Option (Bytes × Bytes)

unfoldable pub is_valid_url : UrlParse → Bytes → Bool
is_valid_url url_parse s = elim (url_parse s) [
  | none ↦ false
  | some (scheme, host) ↦ not (bytes_equal scheme []) && not (bytes_equal host [])
]

-- `s[1] == ':'` and a letter before it
unfoldable pub has_drive_letter : Bytes → Bool
has_drive_letter [] = false
has_drive_letter (a ∷ []) = false
has_drive_letter (a ∷ b ∷ s) =
    b == b':' && ((leb b'A' a && leb a b'Z') || (leb b'a' a && leb a b'z'))

unfoldable pub is_likely_file_path : Bytes → Bool
unfolding has_drive_letter
is_likely_file_path s =
    not (bytes_equal (ext s) [])
    || (has_prefix s (codes "/") || has_prefix s (92 ∷ []) || has_drive_letter s)
    || (contains s (codes "/") || contains s (92 ∷ []))

-- The magic bytes of PNG, JPEG, GIF and BMP.
unfoldable pub is_image : Bytes → Bool
is_image d =
    if ltb (length d) 4
    then false
    else has_prefix d (0x89 ∷ 0x50 ∷ 0x4e ∷ 0x47 ∷ [])
      || has_prefix d (0xff ∷ 0xd8 ∷ 0xff ∷ [])
      || has_prefix d (codes "GIF87a")
      || has_prefix d (codes "GIF89a")
      || has_prefix d (0x42 ∷ 0x4d ∷ [])

unfoldable pub detect_content_type : UrlParse → Bytes → ContentType
detect_content_type url_parse d =
    if length d == 0
    then type_text
    else if is_valid_url url_parse (trim_space d)
    then type_url
    else if is_likely_file_path (trim_space d)
    then type_filepath
    else if is_image d
    then type_image
    else type_text

-- Only four of the types are ever detected.
pub detect_range :
    (url_parse : UrlParse) (d : Bytes)
    → (detect_content_type url_parse d ≡ type_text)
      ⊎ (detect_content_type url_parse d ≡ type_url)
      ⊎ (detect_content_type url_parse d ≡ type_filepath)
      ⊎ (detect_content_type url_parse d ≡ type_image)
unfolding detect_content_type
detect_range url_parse d = ground arith

-- Image data whose trimmed bytes hold a slash or look like a path with an extension, and are no URL,
-- is taken for a file path: the magic bytes come too late.
pub detect_image_as_path :
    (url_parse : UrlParse) (d : Bytes)
    → is_image d ≡ true
    → is_valid_url url_parse (trim_space d) ≡ false
    → is_likely_file_path (trim_space d) ≡ true
    → detect_content_type url_parse d ≡ type_filepath
unfolding detect_content_type is_image
detect_image_as_path url_parse d i u p = ground arith
