-- ===== src/Platform/Windows.antt =====
-- internal/platform/clipboard_windows.go: reading, writing and watching the clipboard of Windows, with
-- what the system answers as an argument. The formats that the source has no priority for are left out.
pub mod Image
pub mod Watching
pub mod Rereading
pub mod Channel
pub mod Bounds
use clipman_daemon.Prelude.{
  ℕ, ◌>>=◌, ◌==◌, Bool, false, not, Option, none, some, List, [], ◌∷◌, Bytes, if◌then◌else◌,
}
use clipman_daemon.Content.{
  ClipboardContent, ContentType, Timestamp, type_text, type_url, type_image, type_file,
  type_filepath,
}
use clipman_daemon.Platform.Reading.{ReadResult, content, unchanged, failed}
use clipman_daemon.Platform.Windows.Image.{Dib, Rgba, convert_dib_to_png}

pub data ClipFormat : Type 0 where
  cf_hdrop cf_dibv5 cf_dib cf_unicodetext cf_html cf_text cf_oemtext : ClipFormat

abbrev pub format_priorities : List ClipFormat
format_priorities =
    cf_hdrop ∷ cf_dibv5 ∷ cf_dib ∷ cf_unicodetext ∷ cf_html ∷ cf_text ∷ cf_oemtext ∷ []

-- What the system answers to a read: whether the clipboard opens, its sequence number, and its data,
-- none for an error. A text in bytes is the memory that it stands in, a zero after it.
pub record Desk : Type 0 where
  pub opens : Bool
  pub sequence : ℕ
  pub is_available : ClipFormat → Bool
  pub unicode_text : Option (List ℕ)
  pub byte_text : ClipFormat → Option Bytes
  pub dib : ClipFormat → Option Dib
  pub dropped_files : Option (List Bytes)

-- The packages: UTF-16, the pattern of URLs, PNG and JSON.
pub record WindowsPackages : Type 0 where
  pub utf16_to_string : List ℕ → Option Bytes
  pub utf16_from_string : Bytes → Option (List ℕ)
  pub is_url : Bytes → Bool
  pub encode_png : List (List Rgba) → Option Bytes
  pub marshal : List Bytes → Option Bytes
  pub header_size : ℕ

-- msgChan is the number of its messages; they are all alike.
pub record WindowsClipboard : Type 0 where
  pub has_window : Bool
  pub last_clip_format : ℕ
  pub messages : ℕ
  pub is_running : Bool

unfoldable pub new_clipboard : WindowsClipboard
new_clipboard = record {
  has_window = false;
  last_clip_format = 0;
  messages = 0;
  is_running = false;
}

unfoldable pub first_available : (ClipFormat → Bool) → List ClipFormat → Option ClipFormat
first_available is_available [] = none
first_available is_available (f ∷ formats) =
    let rest = first_available is_available formats in if is_available f then some f else rest

-- `detectBestFormat`; none is 0.
unfoldable pub detect_best_format : Desk → Option ClipFormat
unfolding first_available
detect_best_format d = first_available d.is_available format_priorities

-- The bytes before the first zero.
unfoldable pub until_null : Bytes → Bytes
until_null [] = []
until_null (b ∷ memory) = let rest = until_null memory in if b == 0 then [] else b ∷ rest

abbrev item : ContentType → Bytes → Timestamp → ClipboardContent
item t d now = record { content_type = t; content_data = d; created = now; compressed = false }

unfoldable pub text_item : WindowsPackages → Bytes → Timestamp → ClipboardContent
text_item p d now = item (if p.is_url d then type_url else type_text) d now

abbrev or_failed : Option ClipboardContent → ReadResult
or_failed (some c) = content c
or_failed none = failed

-- `readTextFormat`
unfoldable pub read_text_format :
    WindowsPackages → Desk → Timestamp → ClipFormat → Option ClipboardContent
unfolding text_item until_null
read_text_format p d now cf_unicodetext = do
  units ← d.unicode_text
  text ← p.utf16_to_string units
  some (text_item p text now)
read_text_format p d now f = do memory ← d.byte_text f; some (text_item p (until_null memory) now)

-- `readImageFormat`
unfoldable pub read_image_format :
    WindowsPackages → Desk → Timestamp → ClipFormat → Option ClipboardContent
unfolding convert_dib_to_png
read_image_format p d now f = do
  bitmap ← d.dib f
  png ← convert_dib_to_png p.header_size p.encode_png bitmap
  some (item type_image png now)

-- `readFileFormat`, of the files' names.
unfoldable pub file_item : WindowsPackages → Timestamp → List Bytes → Option ClipboardContent
file_item p now (path ∷ []) = some (item type_filepath path now)
file_item p now files = do json ← p.marshal files; some (item type_file json now)

unfoldable pub read_file_format : WindowsPackages → Desk → Timestamp → Option ClipboardContent
unfolding file_item
read_file_format p d now = do files ← d.dropped_files; file_item p now files

-- `readFormat`: HTML has a priority, but is not supported.
unfoldable pub read_format :
    WindowsPackages → Desk → Timestamp → ClipFormat → Option ClipboardContent
unfolding read_text_format read_image_format read_file_format
read_format p d now cf_unicodetext = read_text_format p d now cf_unicodetext
read_format p d now cf_text = read_text_format p d now cf_text
read_format p d now cf_oemtext = read_text_format p d now cf_oemtext
read_format p d now cf_dib = read_image_format p d now cf_dib
read_format p d now cf_dibv5 = read_image_format p d now cf_dibv5
read_format p d now cf_hdrop = read_file_format p d now
read_format p d now cf_html = none

-- `Read`: the sequence number is kept before the data are read.
unfoldable pub read :
    WindowsPackages → Desk → Timestamp → WindowsClipboard → WindowsClipboard × ReadResult
unfolding detect_best_format read_format
read p d now c =
    let found = do f ← detect_best_format d; read_format p d now f
    in if not d.opens
      then (c, failed)
      else if d.sequence == c.last_clip_format
      then (c, unchanged)
      else (record c { last_clip_format = d.sequence }, or_failed found)
