-- ===== src/Platform/Windows/Rereading.antt =====
-- internal/platform/clipboard_windows.go: which contents are read, after a read and after a write.
use clipman_daemon.Prelude.{
  ℕ, ◌≡◌, ◌==◌, refl, inl, inr, true, false, some, List, arith, Option-cases,
}
use clipman_daemon.Content.{ClipboardContent, Timestamp}
use clipman_daemon.Platform.Reading.{content, unchanged, failed}
use clipman_daemon.Platform.Windows.{
  WindowsClipboard, WindowsPackages, Desk, cf_hdrop, cf_dibv5, cf_dib, cf_unicodetext, cf_html,
  read, read_format, detect_best_format, first_available, text_item, read_text_format,
}
use clipman_daemon.Platform.Windows.Watching.{WriteAnswers, write, write_text_format}

read_unchanged :
    (p : WindowsPackages) (d : Desk) (now : Timestamp) (c : WindowsClipboard)
    → d.opens ≡ true
    → (d.sequence == c.last_clip_format) ≡ true
    → read p d now c ≡ (c, unchanged)
unfolding read
read_unchanged p d now c opens same = simp (read, opens, same)

read_stores :
    (p : WindowsPackages) (d : Desk) (now : Timestamp) (c : WindowsClipboard)
    → d.opens ≡ true
    → (read p d now c).0.last_clip_format ≡ d.sequence
unfolding read
read_stores p d now c opens = ground (arith, opens)

-- Once the clipboard was opened at a sequence number, a read at that number finds it unchanged, also if
-- the first read failed.
pub reread_lem :
    (p : WindowsPackages) (d d' : Desk) (now now' : Timestamp) (c : WindowsClipboard)
    → d.opens ≡ true
    → d'.opens ≡ true
    → d'.sequence ≡ d.sequence
    → read p d' now' (read p d now c).0 ≡ ((read p d now c).0, unchanged)
reread_lem p d d' now now' c opens opens' same =
    let stored = read_stores p d now c opens in
    read_unchanged p d' now' (read p d now c).0 opens' (ground (arith, same, stored))

-- Without files and images, HTML hides the plain text unless there is a Unicode text: the read fails.
read_html :
    (p : WindowsPackages) (d : Desk) (now : Timestamp) (c : WindowsClipboard)
    → d.opens ≡ true
    → (d.sequence == c.last_clip_format) ≡ false
    → d.is_available cf_hdrop ≡ false
    → d.is_available cf_dibv5 ≡ false
    → d.is_available cf_dib ≡ false
    → d.is_available cf_unicodetext ≡ false
    → d.is_available cf_html ≡ true
    → (read p d now c).1 ≡ failed
unfolding read detect_best_format first_available read_format
read_html p d now c opens new no_files no_dibv5 no_dib no_text html =
    rw (opens, new, no_files, no_dibv5, no_dib, no_text, html) refl

written :
    (p : WindowsPackages) (a : WriteAnswers) (c : ClipboardContent)
    → (write p a c).succeeds ≡ true
    → (units : List ℕ) × (p.utf16_from_string c.content_data ≡ some units)
      × ((write p a c).put ≡ some units)
unfolding write write_text_format
written p a c ok = elim (Option-cases (p.utf16_from_string c.content_data)) [
  | inl fails ↦ absurd (ground (arith, ok, fails))
  | inr (units, e) ↦ (units, e, ground (arith, ok, e))
]

-- An item that was written is read again with its data, and the type url or text by the pattern of
-- URLs: if the data's UTF-16 gives them back (they are UTF-8), and the clipboard then has the text that
-- was set, a new sequence number, and neither files nor images.
pub write-read :
    (p : WindowsPackages) (a : WriteAnswers) (c : ClipboardContent) (d : Desk) (now : Timestamp)
    (w : WindowsClipboard)
    → ((u : List ℕ)
        → p.utf16_from_string c.content_data ≡ some u
        → p.utf16_to_string u ≡ some c.content_data)
    → (write p a c).succeeds ≡ true
    → d.unicode_text ≡ (write p a c).put
    → d.opens ≡ true
    → (d.sequence == w.last_clip_format) ≡ false
    → d.is_available cf_hdrop ≡ false
    → d.is_available cf_dibv5 ≡ false
    → d.is_available cf_dib ≡ false
    → d.is_available cf_unicodetext ≡ true
    → (read p d now w).1 ≡ content (text_item p c.content_data now)
unfolding read detect_best_format first_available read_format read_text_format
write-read p a c d now w back ok holds opens new no_files no_dibv5 no_dib text =
    let (units, encoded, put) = written p a c ok in
    let decoded = back units encoded in
    rw (opens, new, no_files, no_dibv5, no_dib, text, holds, put, decoded) refl
