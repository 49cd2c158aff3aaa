-- ===== src/Platform/Writing.antt =====
-- internal/platform/clipboard_linux.go: writing to the clipboard. Beside its error each operation gives
-- the programs that it runs, in their order, and the temporary files that it adds.
pub mod Echo
use clipman_daemon.Prelude.{
  Bool, true, false, not, ◌&&◌, Option, none, some, List, [], ◌∷◌, ◌++◌, Bytes, codes, bytes_equal,
  if◌then◌else◌, is_some,
}
use clipman_daemon.Prelude.Dict.{Dict}
use clipman_daemon.Content.{
  ClipboardContent, ContentType, type_text, type_html, type_rtf, type_image, type_file, type_url,
  type_filepath,
}
use clipman_daemon.Platform.Session.{
  Session, Command, is_x11_session, is_wayland_session, is_mir_session, has_command, mime_text,
  mime_html, mime_rtf, mime_image, mime_uri, mime_filenames,
}
use clipman_daemon.Platform.Rtf.{extract_plain_text_from_rtf}
use clipman_daemon.Platform.Uris.{gnome_format, uri_format, gnome_prefix, file_scheme}
use clipman_daemon.Platform.TypeDetection.{Probes, detect_image_format}
use clipman_daemon.Platform.Cache.{CustomMimeTypeHandler, clear_cache}
use clipman_daemon.Platform.Reading.{Reader}

pub record Written : Type 0 where
  pub succeeds : Bool
  pub commands : List Command
  pub temp_files : List Bytes

-- The calls of other packages: bufio.Scanner, os, package image.
pub record WritePackages : Type 0 where
  pub probes : Probes
  pub scan : Bytes → List Bytes
  pub convert_to_png : Bytes → Bytes → Option Bytes
  pub temp_image_file : Bytes → Option Bytes

abbrev pub refused : Written
refused = record { succeeds = false; commands = []; temp_files = [] }

abbrev pub xclip_target : Bytes → List Bytes
xclip_target t = codes "xclip" ∷ codes "-selection" ∷ codes "clipboard" ∷ codes "-t" ∷ t ∷ []

abbrev pub wl_copy_type : Bytes → List Bytes
wl_copy_type t = codes "wl-copy" ∷ codes "--type" ∷ t ∷ []

module _ (s : Session) where
  -- cmd.Run with an input.
  unfoldable pub run_command : List Bytes → Bytes → Written
  run_command arguments input = record {
    succeeds = is_some (s.run arguments input);
    commands = record { arguments = arguments; input = input } ∷ [];
    temp_files = [];
  }

  -- The second where the first fails, after it.
  unfoldable pub or_then : Written → Written → Written
  or_then first second = if first.succeeds then first else record {
    succeeds = second.succeeds;
    commands = first.commands ++ second.commands;
    temp_files = first.temp_files ++ second.temp_files;
  }

  -- Both, with the error of the second (of the first).
  unfoldable pub and_then : Written → Written → Written
  and_then first second = record {
    succeeds = second.succeeds;
    commands = first.commands ++ second.commands;
    temp_files = first.temp_files ++ second.temp_files;
  }

  unfoldable pub and_also : Written → Written → Written
  and_also first second = record {
    succeeds = first.succeeds;
    commands = first.commands ++ second.commands;
    temp_files = first.temp_files ++ second.temp_files;
  }

  -- A writer that is used only under a condition.
  unfoldable pub when : Bool → Written → Written
  when used w = if used then w else refused

  unfoldable pub write_text_content : Bytes → Written
  unfolding run_command or_then when
  write_text_content d =
      if s.write_all d
      then record { succeeds = true; commands = []; temp_files = [] }
      else or_then
          (when (is_x11_session s && has_command s (codes "xclip"))
            (run_command (xclip_target mime_text) d))
          (or_then
            (when (is_x11_session s && has_command s (codes "xsel"))
              (run_command (codes "xsel" ∷ codes "-b" ∷ codes "-i" ∷ []) d))
            (or_then
              (when (is_wayland_session s && has_command s (codes "wl-copy"))
                (run_command (codes "wl-copy" ∷ []) d))
              (when (is_mir_session s && has_command s (codes "mir-tool"))
                (run_command (codes "mir-tool" ∷ codes "clipboard" ∷ codes "set" ∷ []) d))))

  -- The writers below use xclip in an X11 session, else wl-copy in a Wayland session.
  unfoldable pub by_session : Written → Written → Written
  by_session x11 wayland =
      if is_x11_session s && has_command s (codes "xclip")
      then x11
      else if is_wayland_session s && has_command s (codes "wl-copy")
      then wayland
      else refused

  unfoldable pub write_html_content : Bytes → Written
  unfolding and_then write_text_content by_session run_command
  write_html_content d =
      by_session (and_then (write_text_content d) (run_command (xclip_target mime_html) d))
        (and_then (write_text_content d) (run_command (wl_copy_type mime_html) d))

  -- A text that goes along, when there is one; its error is logged.
  unfoldable pub with_plaintext : Bytes → Written → Written
  unfolding and_then write_text_content
  with_plaintext [] w = w
  with_plaintext (c ∷ plaintext) w = and_then (write_text_content (c ∷ plaintext)) w

  unfoldable pub write_rtf_content : (Bytes → List Bytes) → Bytes → Written
  unfolding with_plaintext by_session run_command extract_plain_text_from_rtf
  write_rtf_content scan d =
      let plaintext = extract_plain_text_from_rtf scan d in
      by_session (with_plaintext plaintext (run_command (xclip_target mime_rtf) d))
        (with_plaintext plaintext (run_command (wl_copy_type mime_rtf) d))

  -- The GNOME format, then also the list of URIs; or, after an error, that list alone.
  unfoldable pub write_files : (Bytes → List Bytes) → Bytes → Bytes → Written
  unfolding run_command and_also or_then
  write_files target gnome uris =
      let first = run_command (target mime_filenames) gnome in
      let second = run_command (target mime_uri) uris in
      if first.succeeds then and_also first second else or_then first second

  unfoldable pub write_file_path_content : Probes → Bytes → Written
  unfolding by_session write_files
  write_file_path_content probes d =
      if not (probes.stat d)
      then refused
      else by_session (write_files xclip_target (gnome_prefix ++ d) (file_scheme ++ d))
          (write_files wl_copy_type (gnome_prefix ++ d) (file_scheme ++ d))

  unfoldable pub all_exist : Probes → List Bytes → Bool
  all_exist probes [] = true
  all_exist probes (path ∷ paths) = if probes.stat path then all_exist probes paths else false

  unfoldable pub write_file_list_content : Probes → Bytes → Written
  unfolding by_session write_files all_exist gnome_format uri_format
  write_file_list_content probes d = elim (probes.json_paths d) [
    | none ↦ refused
    | some paths ↦
        if not (all_exist probes paths)
        then refused
        else by_session (write_files xclip_target (gnome_format paths) (uri_format paths))
            (write_files wl_copy_type (gnome_format paths) (uri_format paths))
  ]

  -- What is written of an image: PNG, if its format is known and it can be converted.
  unfoldable pub image_to_write : WritePackages → Bytes → Bytes
  unfolding detect_image_format
  image_to_write p d =
      let (format, failure) = detect_image_format p.probes d in
      if failure
      then d
      else if bytes_equal format (codes "png")
      then d
      else if bytes_equal format (codes "unknown")
      then d
      else elim (p.convert_to_png d format) [ none ↦ d | some png ↦ png ]

  -- Through a temporary file, which xclip or wl-copy is given by name.
  unfoldable pub through_file : Option Bytes → (Bytes → List Bytes) → Written
  unfolding run_command
  through_file none arguments = refused
  through_file (some file) arguments = record (run_command (arguments file) []) {
    temp_files = file ∷ [];
  }

  unfoldable pub write_image_content : WritePackages → Bytes → Written
  unfolding image_to_write through_file by_session
  write_image_content p d =
      let file = p.temp_image_file (image_to_write p d) in
      by_session (through_file file (λ name. xclip_target mime_image ++ (codes "-i" ∷ name ∷ [])))
        (through_file file (λ name. wl_copy_type mime_image ++ (codes "--" ∷ name ∷ [])))

  -- The text that a handler makes of the data, if it makes one.
  unfoldable pub converted : CustomMimeTypeHandler → Bytes → Bytes
  converted h d = elim h.convert_func [
    | none ↦ []
    | some convert ↦ elim (convert d type_text) [ none ↦ [] | some text ↦ text ]
  ]

  unfoldable pub write_custom_content : Bytes → CustomMimeTypeHandler → Written
  unfolding with_plaintext by_session run_command converted
  write_custom_content d h =
      by_session (with_plaintext (converted h d) (run_command (xclip_target h.mime_type) d))
        (with_plaintext (converted h d) (run_command (wl_copy_type h.mime_type) d))

-- The first handler of a type.
unfoldable pub handler_of : Dict CustomMimeTypeHandler → ContentType → Option CustomMimeTypeHandler
handler_of [] t = none
handler_of ((mime, h) ∷ types) t =
    let rest = handler_of types t in if bytes_equal h.type_id t then some h else rest

-- The switch on the built-in types.
unfoldable pub write_built_in : WritePackages → Session → ContentType → Bytes → Written
write_built_in p s t d =
    if bytes_equal t type_text
    then write_text_content s d
    else if bytes_equal t type_html
    then write_html_content s d
    else if bytes_equal t type_rtf
    then write_rtf_content s p.scan d
    else if bytes_equal t type_image
    then write_image_content s p d
    else if bytes_equal t type_filepath
    then write_file_path_content s p.probes d
    else if bytes_equal t type_file
    then write_file_list_content s p.probes d
    else if bytes_equal t type_url
    then write_text_content s d
    else refused

-- `Write`; none is the nil pointer. A custom handler's result is returned at once.
unfoldable pub write : WritePackages → Session → Option ClipboardContent → Reader → Reader × Written
unfolding handler_of write_custom_content write_built_in clear_cache
write p s none r = (r, refused)
write p s (some c) r = elim c.content_data [
  | [] ↦ (r, refused)
  | b ∷ d ↦ elim (handler_of r.clipboard.custom_types c.content_type) [
    | some h ↦ (r, write_custom_content s (b ∷ d) h)
    | none ↦
        let w = write_built_in p s c.content_type (b ∷ d) in
        if not w.succeeds
        then (r, w)
        else (record { clipboard = clear_cache r.clipboard; last_content = b ∷ d }, w)
  ]
]
