-- ===== src/Platform/Session.antt =====
-- What internal/platform/clipboard_linux.go asks of the desktop: the display servers that run, the
-- programs that are installed and what they answer, and the package atotto/clipboard.
use clipman_daemon.Prelude.{Bool, Option, List, Bytes, codes}

-- The answers during one operation. `run` gives the output of a program, or none for an error, from
-- its arguments and its input.
pub record Session : Type 0 where
  pub display : Bool
  pub wayland_display : Bool
  pub mir_socket : Bool
  pub look_path : Bytes → Bool
  pub run : List Bytes → Bytes → Option Bytes
  pub read_all : Option Bytes
  pub write_all : Bytes → Bool

pub record Command : Type 0 where
  pub arguments : List Bytes
  pub input : Bytes

abbrev pub mime_text : Bytes
mime_text = codes "text/plain"

abbrev pub mime_image : Bytes
mime_image = codes "image/png"

abbrev pub mime_html : Bytes
mime_html = codes "text/html"

abbrev pub mime_rtf : Bytes
mime_rtf = codes "text/rtf"

abbrev pub mime_uri : Bytes
mime_uri = codes "text/uri-list"

abbrev pub mime_bmp : Bytes
mime_bmp = codes "image/bmp"

abbrev pub mime_jpeg : Bytes
mime_jpeg = codes "image/jpeg"

abbrev pub mime_gif : Bytes
mime_gif = codes "image/gif"

abbrev pub mime_filenames : Bytes
mime_filenames = codes "x-special/gnome-copied-files"

-- `isX11Session`, `isWaylandSession`, `isMirSession`, `hasCommand`
unfoldable pub is_x11_session : Session → Bool
is_x11_session s = s.display

unfoldable pub is_wayland_session : Session → Bool
is_wayland_session s = s.wayland_display

unfoldable pub is_mir_session : Session → Bool
is_mir_session s = s.mir_socket

unfoldable pub has_command : Session → Bytes → Bool
has_command s command = s.look_path command
