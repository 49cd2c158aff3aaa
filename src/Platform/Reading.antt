-- ===== src/Platform/Reading.antt =====
-- internal/platform/clipboard_linux.go: reading the clipboard.
pub mod Repeats
use clipman_daemon.Prelude.{
  ℕ, Bool, true, false, not, ◌&&◌, ◌||◌, Option, none, some, List, [], ◌∷◌, Bytes, codes,
  bytes_equal, if◌then◌else◌,
}
use clipman_daemon.Prelude.Dict.{Dict, lookup}
use clipman_daemon.Content.{
  ClipboardContent, ContentType, Timestamp, type_html, type_rtf, type_image,
}
use clipman_daemon.Platform.Session.{
  Session, is_x11_session, is_wayland_session, is_mir_session, has_command, mime_text, mime_html,
  mime_rtf, mime_image, mime_bmp, mime_jpeg, mime_gif, mime_uri, mime_filenames,
}
use clipman_daemon.Platform.Retry.{with_retry}
use clipman_daemon.Platform.Uris.{parse_xclip_formats, parse_wayland_formats, parse_uri_data}
use clipman_daemon.Platform.Formats.{contains, contains_any}
use clipman_daemon.Platform.Polling.Hash.{hash_content}
use clipman_daemon.Platform.TypeDetection.{Probes, detect_content_type}
use clipman_daemon.Platform.Cache.{
  LinuxClipboard, CustomMimeTypeHandler, is_cache_valid, get_cached_content, update_cache,
}

-- Beside the fields of the cache, the data that were read or written last.
pub record Reader : Type 0 where
  pub clipboard : LinuxClipboard
  pub last_content : Bytes

pub data ReadResult : Type 0 where
  content : ClipboardContent → ReadResult
  unchanged : ReadResult
  failed : ReadResult

-- Running xclip for a type in an X11 session, else wl-paste for another in a Wayland session.
unfoldable pub read_target : Session → Bytes → Bytes → Option Bytes
unfolding is_x11_session is_wayland_session has_command
read_target s x11_type wayland_type =
    if is_x11_session s && has_command s (codes "xclip")
    then s.run
        (codes "xclip"
          ∷ codes "-selection"
          ∷ codes "clipboard"
          ∷ codes "-t"
          ∷ x11_type
          ∷ codes "-o"
          ∷ [])
        []
    else if is_wayland_session s && has_command s (codes "wl-paste")
    then s.run (codes "wl-paste" ∷ codes "--no-newline" ∷ codes "--type" ∷ wayland_type ∷ []) []
    else none

abbrev pub item : ContentType → Timestamp → Option Bytes → Option ClipboardContent
item t now none = none
item t now (some d) =
    some (record { content_type = t; content_data = d; created = now; compressed = false })

unfoldable pub read_html_format : Session → Timestamp → List Bytes → Option ClipboardContent
unfolding contains read_target
read_html_format s now formats =
    if not (contains formats mime_html)
    then none
    else item type_html now (read_target s mime_html mime_html)

unfoldable pub read_rtf_format : Session → Timestamp → List Bytes → Option ClipboardContent
unfolding contains read_target
read_rtf_format s now formats =
    if not (contains formats mime_rtf)
    then none
    else item type_rtf now (read_target s mime_rtf mime_rtf)

-- The format that xclip is asked for, if one is supported.
unfoldable pub image_target : List Bytes → Option Bytes
unfolding contains
image_target formats =
    if contains formats mime_image
    then some mime_image
    else if contains formats mime_bmp
    then some mime_bmp
    else if contains formats mime_jpeg
    then some mime_jpeg
    else if contains formats mime_gif
    then some mime_gif
    else none

unfoldable pub read_image_format : Session → Timestamp → List Bytes → Option ClipboardContent
unfolding read_target image_target is_x11_session has_command
read_image_format s now formats =
    if is_x11_session s && has_command s (codes "xclip")
    then elim (image_target formats) [
      | none ↦ none
      | some format ↦ item type_image now (read_target s format mime_image)
    ]
    else item type_image now (read_target s mime_image mime_image)

-- The calls of other packages that reading makes.
pub record Packages : Type 0 where
  pub probes : Probes
  pub query_unescape : Bytes → Option Bytes
  pub marshal : List Bytes → Option Bytes

unfoldable pub read_file_format :
    Packages → Session → Timestamp → List Bytes → Option ClipboardContent
unfolding contains read_target parse_uri_data
read_file_format p s now formats =
    let format =
      if not (contains formats mime_filenames) && contains formats mime_uri
      then mime_uri
      else mime_filenames in
    elim (read_target s format format) [
      | none ↦ none
      | some d ↦ parse_uri_data p.query_unescape p.marshal now d
    ]

-- The first format for which a handler is registered.
unfoldable pub first_custom : Dict CustomMimeTypeHandler → List Bytes → Option CustomMimeTypeHandler
unfolding lookup
first_custom types [] = none
first_custom types (format ∷ formats) =
    let rest = first_custom types formats in
    elim (lookup format types) [ none ↦ rest | some h ↦ some h ]

-- `readCustomFormat`; without types or formats there is no handler.
unfoldable pub read_custom_format :
    Session → Timestamp → Dict CustomMimeTypeHandler → List Bytes → Option ClipboardContent
unfolding first_custom read_target
read_custom_format s now types formats = elim (first_custom types formats) [
  | none ↦ none
  | some h ↦ elim (read_target s h.mime_type h.mime_type) [
    | none ↦ none
    | some d ↦ elim h.detect_func [
      | none ↦ item h.type_id now (some d)
      | some detect ↦ if detect d then item h.type_id now (some d) else none
    ]
  ]
]

-- The readers of text, in their order, each with whether it is used.
unfoldable pub text_readers : Session → List (Bool × Option Bytes)
unfolding is_x11_session is_wayland_session is_mir_session has_command
text_readers s =
    (true, s.read_all)
    ∷ (
      is_x11_session s && has_command s (codes "xclip"),
      s.run (codes "xclip" ∷ codes "-selection" ∷ codes "clipboard" ∷ codes "-o" ∷ []) [],
    )
    ∷ (is_x11_session s && has_command s (codes "xsel"), s.run (codes "xsel" ∷ codes "-b" ∷ []) [])
    ∷ (is_wayland_session s && has_command s (codes "wl-paste"), s.run (codes "wl-paste" ∷ []) [])
    ∷ (
      is_mir_session s && has_command s (codes "mir-tool"),
      s.run (codes "mir-tool" ∷ codes "clipboard" ∷ codes "get" ∷ []) [],
    )
    ∷ []

unfoldable pub first_read : List (Bool × Option Bytes) → Option Bytes
first_read [] = none
first_read ((used, result) ∷ readers) =
    let rest = first_read readers in
    if used then elim result [ none ↦ rest | some d ↦ some d ] else rest

unfoldable pub read_clipboard_content : Session → Option Bytes
unfolding text_readers first_read
read_clipboard_content s = first_read (text_readers s)

-- `getAvailableFormats`; its error is not used by the callers below.
unfoldable pub get_available_formats : LinuxClipboard → Session → ℕ → List Bytes
unfolding is_x11_session is_wayland_session has_command is_cache_valid parse_xclip_formats
get_available_formats c s now = elim (cached_list c now) [
  | f ∷ formats ↦ f ∷ formats
  | [] ↦ elim (xclip_targets s) [
    | some output ↦ parse_xclip_formats output
    | none ↦ elim (wayland_types s) [
      | [] ↦ mime_text ∷ []
      | b ∷ output ↦ parse_wayland_formats (b ∷ output)
    ]
  ]
]
  where
    cached_list : LinuxClipboard → ℕ → List Bytes
    cached_list c now =
        if is_cache_valid c now
        then elim c.content_cache [ none ↦ [] | some k ↦ k.cached_formats ]
        else []

    xclip_targets : Session → Option Bytes
    xclip_targets s =
        if is_x11_session s && has_command s (codes "xclip")
        then s.run
            (codes "xclip"
              ∷ codes "-selection"
              ∷ codes "clipboard"
              ∷ codes "-t"
              ∷ codes "TARGETS"
              ∷ codes "-o"
              ∷ [])
            []
        else none

    wayland_types : Session → Bytes
    wayland_types s =
        if is_wayland_session s && has_command s (codes "wl-paste")
        then elim (s.run (codes "wl-paste" ∷ codes "--list-types" ∷ []) []) [
          | none ↦ []
          | some output ↦ output
        ]
        else []

-- The next step is taken after an error.
abbrev pub or_next : Option ClipboardContent → Option ClipboardContent → Option ClipboardContent
or_next none next = next
or_next (some c) next = some c

module _ (p : Packages) (s : Session) (now : Timestamp) where
  -- The steps of `Read` before it falls back to text: each is tried if its format is offered, and the
  -- next one after an error.
  unfoldable pub read_special : LinuxClipboard → List Bytes → Option ClipboardContent
  unfolding read_html_format read_rtf_format read_image_format read_file_format read_custom_format
      contains_any
  read_special c formats = or_next (read_custom_format s now c.custom_types formats) (
      or_next (read_html_format s now formats) (
        or_next (read_rtf_format s now formats) (
          or_next
            (if contains_any formats (mime_image ∷ mime_bmp ∷ mime_jpeg ∷ mime_gif ∷ [])
              then read_image_format s now formats
              else none)
            (if contains formats mime_uri || contains formats mime_filenames
              then read_file_format p s now formats
              else none))))

-- What follows each of those steps: the cache is updated before the comparison.
unfoldable pub deliver : Reader → List Bytes → Timestamp → ClipboardContent → Reader × ReadResult
unfolding update_cache hash_content
deliver r formats now c =
    let updated = update_cache r.clipboard c (hash_content c.content_data) formats now.instant in
    if bytes_equal c.content_data r.last_content
    then (record r { clipboard = updated }, unchanged)
    else (record { clipboard = updated; last_content = c.content_data }, content c)

-- The text, which is compared before its type is detected and the cache updated.
unfoldable pub deliver_text :
    Packages → Reader → List Bytes → Timestamp → Bytes → Reader × ReadResult
unfolding update_cache hash_content detect_content_type
deliver_text p r formats now d =
    if bytes_equal d r.last_content
    then (r, unchanged)
    else let c : ClipboardContent = record {
      content_type = detect_content_type p.probes r.clipboard.custom_types d formats;
      content_data = d;
      created = now;
      compressed = false;
    } in
      (
        record {
          clipboard = update_cache r.clipboard c (hash_content d) formats now.instant;
          last_content = d;
        },
        content c,
      )

-- `Read`. The desktop answers `attempts n` at attempt number `n` to read text, and `attempts 0` before.
unfoldable pub read : Packages → (ℕ → Session) → Timestamp → Reader → Reader × ReadResult
unfolding get_cached_content get_available_formats with_retry read_clipboard_content
read p attempts now r = elim (get_cached_content r.clipboard now.instant) [
  | some cached ↦ (r, content cached)
  | none ↦
      let formats = get_available_formats r.clipboard (attempts 0) now.instant in
      elim (read_special p (attempts 0) now r.clipboard formats) [
        | some c ↦ deliver r formats now c
        | none ↦ elim (with_retry (λ n. read_clipboard_content (attempts n))).0 [
          | none ↦ (r, failed)
          | some d ↦ deliver_text p r formats now d
        ]
      ]
]
