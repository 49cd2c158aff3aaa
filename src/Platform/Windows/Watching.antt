-- ===== src/Platform/Windows/Watching.antt =====
-- internal/platform/clipboard_windows.go: writing, the window that is told of changes, the monitor.
use clipman_daemon.Prelude.{
  ℕ, ◌+◌, ◌-◌, ◌==◌, Bool, true, false, not, ◌&&◌, ◌||◌, Option, none, some, List, [], ◌∷◌, Bytes,
  ltb, bytes_equal, if◌then◌else◌,
}
use clipman_daemon.Content.{
  ClipboardContent, ContentType, Timestamp, type_text, type_string, type_url,
}
use clipman_daemon.Platform.Reading.{ReadResult, content, unchanged, failed}
use clipman_daemon.Platform.Windows.{WindowsClipboard, WindowsPackages, Desk, read}

-- What the system answers to a write: whether the clipboard is opened and emptied, the memory allocated
-- and locked, and the data set.
pub record WriteAnswers : Type 0 where
  pub opens : Bool
  pub empties : Bool
  pub allocates : Bool
  pub locks : Bool
  pub sets : Bool

-- Whether the clipboard was emptied, the text that was set as CF_UNICODETEXT, and whether the write
-- succeeds.
pub record WriteResult : Type 0 where
  pub is_emptied : Bool
  pub put : Option (List ℕ)
  pub succeeds : Bool

abbrev stopped_at : Bool → WriteResult
stopped_at is_emptied = record { is_emptied = is_emptied; put = none; succeeds = false }

unfoldable pub write_text_format : WindowsPackages → WriteAnswers → Bytes → WriteResult
write_text_format p a d =
    if not a.opens
    then stopped_at false
    else if not a.empties
    then stopped_at false
    else elim (p.utf16_from_string d) [
      | none ↦ stopped_at true
      | some units ↦
          if a.allocates && a.locks && a.sets
          then record { is_emptied = true; put = some units; succeeds = true }
          else stopped_at true
    ]

abbrev is_text : ContentType → Bool
is_text t = bytes_equal t type_text || bytes_equal t type_string || bytes_equal t type_url

-- `Write`: images, files and the other types are refused.
unfoldable pub write : WindowsPackages → WriteAnswers → ClipboardContent → WriteResult
unfolding write_text_format
write p a c =
    if is_text c.content_type then write_text_format p a c.content_data else stopped_at false

pub data WindowMessage : Type 0 where
  clipboard_update destroy close_window other : WindowMessage

-- `wndProc`, and whether it posts the message to quit: an update is dropped if the channel is full.
unfoldable pub wnd_proc : WindowsClipboard → WindowMessage → WindowsClipboard × Bool
wnd_proc c clipboard_update =
    (if ltb c.messages 10 then record c { messages = c.messages + 1 } else c, false)
wnd_proc c destroy = (c, true)
wnd_proc c close_window = (c, true)
wnd_proc c other = (c, false)

-- `createClipboardWindow` up to its loop, and whether it gets there: the class is registered, the window
-- created, and the listener added.
unfoldable pub create_clipboard_window :
    WindowsClipboard → Bool → Bool → Bool → WindowsClipboard × Bool
create_clipboard_window c registers creates listens =
    if not registers
    then (c, false)
    else if not creates
    then (c, false)
    else (record c { has_window = true; is_running = true }, listens)

-- The end of the loop.
unfoldable pub window_quits : WindowsClipboard → WindowsClipboard
window_quits c = record c { is_running = false }

-- The window's goroutine has ended: whether it is started again.
unfoldable pub restarts_window : WindowsClipboard → Bool
restarts_window c = not c.is_running

-- `Close`
unfoldable pub close : WindowsClipboard → WindowsClipboard
close c = if c.has_window then record c { has_window = false } else c

-- What a monitor meets: a message to the window; a message taken from the channel, with what the desktop
-- then answers, and whether an item is taken before the stop; the stop.
pub data WindowEvent : Type 0 where
  window_message : WindowMessage → WindowEvent
  notified : Desk → Timestamp → Bool → WindowEvent
  stopped : WindowEvent

abbrev pub Run : Type 0
Run = List ClipboardContent × WindowsClipboard

unfoldable pub after_read : ReadResult → Bool → WindowsClipboard → Run → Run
after_read (content c) taken w rest = if taken then (c ∷ rest.0, rest.1) else ([], w)
after_read unchanged taken w rest = rest
after_read failed taken w rest = rest

-- `MonitorChanges`: a message can only be taken from the channel if there is one.
unfoldable pub monitor_changes : WindowsPackages → WindowsClipboard → List WindowEvent → Run
unfolding wnd_proc read after_read
monitor_changes p w [] = ([], w)
monitor_changes p w (stopped ∷ events) = ([], w)
monitor_changes p w (window_message m ∷ events) = monitor_changes p (wnd_proc w m).0 events
monitor_changes p w (notified d now taken ∷ events) =
    let (w', result) = read p d now (record w { messages = w.messages - 1 }) in
    let rest = monitor_changes p w' events in
    let idle = monitor_changes p w events in
    if w.messages == 0 then idle else after_read result taken w' rest
