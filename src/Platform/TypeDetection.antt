-- ===== src/Platform/TypeDetection.antt =====
-- internal/platform/clipboard_linux.go: the type of what the clipboard holds, and the format of images.
-- The patterns of package regexp, url.Parse, os.Stat, json.Unmarshal and image.DecodeConfig are
-- arguments.
use clipman_daemon.Prelude.{
  Bool, true, false, ◌&&◌, ◌||◌, Option, none, some, List, [], ◌∷◌, Bytes, codes, bytes_equal,
  has_prefix, length, ltb, leb, if◌then◌else◌,
}
use clipman_daemon.Prelude as Prelude
use clipman_daemon.Prelude.Dict.{Dict}
use clipman_daemon.Content.{
  ContentType, type_text, type_html, type_rtf, type_image, type_file, type_url, type_filepath,
}
use clipman_daemon.Text.{trim_space}
use clipman_daemon.Platform.Session.{
  mime_html, mime_rtf, mime_image, mime_bmp, mime_jpeg, mime_gif, mime_uri, mime_filenames,
}
use clipman_daemon.Platform.Formats.{contains}
use clipman_daemon.Platform.Cache.{CustomMimeTypeHandler}

pub record Probes : Type 0 where
  pub html_pattern : Bytes → Bool
  pub url_pattern : Bytes → Bool
  pub url_parses : Bytes → Bool
  pub stat : Bytes → Bool
  -- The strings of a JSON array, or none for an error.
  pub json_paths : Bytes → Option (List Bytes)
  pub decode_config : Bytes → Option Bytes

unfoldable pub is_rtf : Bytes → Bool
is_rtf data' = leb 5 (length data') && has_prefix data' (codes "{\\rtf")

unfoldable pub has_file_uri : Bytes → Bool
has_file_uri data' = Prelude.contains data' (codes "file://")

module _ (probes : Probes) where
  unfoldable pub is_html : Bytes → Bool
  is_html data' = probes.html_pattern data'

  unfoldable pub is_url : Bytes → Bool
  is_url text =
      let t = trim_space text in
      if bytes_equal t []
      then false
      else if probes.url_pattern t
      then probes.url_parses t
      else false

  unfoldable pub is_file_path : Bytes → Bool
  is_file_path text =
      let t = trim_space text in
      if bytes_equal t [] then false else if has_prefix t (codes "/") then probes.stat t else false

  unfoldable pub is_file_list : Bytes → Bool
  is_file_list data' = elim (probes.json_paths data') [
    | none ↦ false
    | some paths ↦ elim paths [ [] ↦ false | path ∷ rest ↦ probes.stat path ]
  ]

  -- The loop over the custom types. Go fixes no order; the model's is that of registration.
  unfoldable pub detect_custom : Dict CustomMimeTypeHandler → Bytes → Option ContentType
  detect_custom [] data' = none
  detect_custom ((mime, h) ∷ handlers) data' =
      let rest = detect_custom handlers data' in
      elim h.detect_func [
        | none ↦ rest
        | some detect ↦ if detect data' then some h.type_id else rest
      ]

  -- The tests on the list of formats, when it is not empty.
  unfoldable pub detect_by_formats : List Bytes → Bytes → Option ContentType
  unfolding contains has_file_uri
  detect_by_formats formats data' =
      if contains formats mime_html
      then some type_html
      else if contains formats mime_rtf
      then some type_rtf
      else if contains formats mime_image
          || contains formats mime_bmp
          || contains formats mime_jpeg
          || contains formats mime_gif
      then some type_image
      else if (contains formats mime_uri || contains formats mime_filenames) && has_file_uri data'
      then some type_file
      else none

  -- The tests on the data alone.
  unfoldable pub detect_by_data : Bytes → ContentType
  unfolding is_url is_file_path is_file_list is_html is_rtf
  detect_by_data data' =
      if is_url data'
      then type_url
      else if is_file_path data'
      then type_filepath
      else if is_file_list data'
      then type_file
      else if is_html data'
      then type_html
      else if is_rtf data'
      then type_rtf
      else type_text

  unfoldable pub detect_content_type : Dict CustomMimeTypeHandler → Bytes → List Bytes → ContentType
  unfolding detect_custom detect_by_formats detect_by_data
  detect_content_type custom_types [] formats = type_text
  detect_content_type custom_types (c ∷ data') formats =
      elim (detect_custom custom_types (c ∷ data')) [
        | some t ↦ t
        | none ↦ elim (detect_by_formats formats (c ∷ data')) [
          | some t ↦ t
          | none ↦ detect_by_data (c ∷ data')
        ]
      ]

  -- `detectImageFormat`: the format, and whether there is an error.
  unfoldable pub detect_image_format : Bytes → Bytes × Bool
  detect_image_format data' =
      if ltb (length data') 12
      then (codes "unknown", true)
      else if has_prefix data' (0x89 ∷ 0x50 ∷ 0x4e ∷ 0x47 ∷ 0x0d ∷ 0x0a ∷ 0x1a ∷ 0x0a ∷ [])
      then (codes "png", false)
      else if has_prefix data' (0xff ∷ 0xd8 ∷ 0xff ∷ [])
      then (codes "jpeg", false)
      else if has_prefix data' (codes "GIF87a") || has_prefix data' (codes "GIF89a")
      then (codes "gif", false)
      else if has_prefix data' (0x42 ∷ 0x4d ∷ [])
      then (codes "bmp", false)
      else elim (probes.decode_config data') [
        | none ↦ (codes "unknown", true)
        | some format ↦ (format, false)
      ]
