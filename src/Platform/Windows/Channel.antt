-- ===== src/Platform/Windows/Channel.antt =====
-- internal/platform/clipboard_windows.go: the channel between the window and the monitor.
use clipman_daemon.Prelude.{
  ℕ, ◌+◌, ◌-◌, ◌≤◌, ◌≡◌, ◌==◌, inl, inr, Bool, true, false, List, [], ◌∷◌, length, arith,
  Bool-cases,
}
use clipman_daemon.Content.{Timestamp}
use clipman_daemon.Platform.Reading.{ReadResult, content, unchanged, failed}
use clipman_daemon.Platform.Windows.{WindowsClipboard, WindowsPackages, Desk, read}
use clipman_daemon.Platform.Windows.Watching.{
  WindowMessage, WindowEvent, Run, clipboard_update, destroy, close_window, other, window_message,
  notified, stopped, wnd_proc, after_read, monitor_changes,
}

abbrev pub told : WindowMessage → ℕ
told clipboard_update = 1
told destroy = 0
told close_window = 0
told other = 0

-- How often the window is told of an update.
abbrev pub updates : List WindowEvent → ℕ
updates [] = 0
updates (window_message m ∷ events) = told m + updates events
updates (notified d now taken ∷ events) = updates events
updates (stopped ∷ events) = updates events

-- The channel holds ten messages at most; and each item that was sent, and each message that is left,
-- answers one of `n` messages.
abbrev pub IsAccounted : ℕ → Run → Type 0
IsAccounted n run = (run.1.messages ≤ 10) × (length run.0 + run.1.messages ≤ n)

read-messages :
    (p : WindowsPackages) (d : Desk) (now : Timestamp) (c : WindowsClipboard)
    → (read p d now c).0.messages ≡ c.messages
unfolding read
read-messages p d now c = ground (arith)

after_read-IsAccounted :
    (result : ReadResult) (taken : Bool) (w : WindowsClipboard) (rest : Run) (n : ℕ)
    → w.messages ≤ 10
    → w.messages ≤ n
    → IsAccounted n rest
    → IsAccounted (n + 1) (after_read result taken w rest)
unfolding after_read
after_read-IsAccounted (content c) true w rest n small within ok = (ok.0, omega arith)
after_read-IsAccounted (content c) false w rest n small within ok = (small, omega arith)
after_read-IsAccounted unchanged taken w rest n small within ok = (ok.0, omega arith)
after_read-IsAccounted failed taken w rest n small within ok = (ok.0, omega arith)

weaken : (m n : ℕ) (run : Run) → m ≤ n → IsAccounted m run → IsAccounted n run
weaken m n run below ok = (ok.0, omega arith)

positive_of : (n : ℕ) → (n == 0) ≡ false → 1 ≤ n
positive_of n e = ground (arith, e)

wnd_proc_lem :
    (w : WindowsClipboard) (m : WindowMessage)
    → w.messages ≤ 10
    → ((wnd_proc w m).0.messages ≤ 10) × ((wnd_proc w m).0.messages ≤ w.messages + told m)
unfolding wnd_proc
wnd_proc_lem w clipboard_update small = (ground (arith), ground (arith))
wnd_proc_lem w destroy small = (small, omega arith)
wnd_proc_lem w close_window small = (small, omega arith)
wnd_proc_lem w other small = (small, omega arith)

-- From a channel that holds ten messages at most, a monitor leaves one that does, and sends no more items
-- than there were messages in it and updates, less the messages that are left.
pub monitor_changes-IsAccounted :
    (p : WindowsPackages) (events : List WindowEvent) (w : WindowsClipboard)
    → w.messages ≤ 10
    → IsAccounted (w.messages + updates events) (monitor_changes p w events)
unfolding monitor_changes
monitor_changes-IsAccounted p [] w small = (small, omega arith)
monitor_changes-IsAccounted p (stopped ∷ events) w small = (small, omega arith)
monitor_changes-IsAccounted p (window_message m ∷ events) w small =
    let step = wnd_proc_lem w m small in
    weaken _ _ (monitor_changes p (wnd_proc w m).0 events) (omega arith)
      (monitor_changes-IsAccounted p events (wnd_proc w m).0 step.0)
monitor_changes-IsAccounted p (notified d now taken ∷ events) w small =
    elim (Bool-cases (w.messages == 0)) [
      | inl idle ↦ rw (monitor_changes, idle) (monitor_changes-IsAccounted p events w small)
      | inr some_left ↦
          let w' = record w { messages = w.messages - 1 } in
          let kept = read-messages p d now w' in
          let positive = positive_of w.messages some_left in
          let rest = monitor_changes-IsAccounted p events (read p d now w').0 (omega arith) in
          let run =
            after_read (read p d now w').1 taken (read p d now w').0
              (monitor_changes p (read p d now w').0 events) in
          rw (monitor_changes, some_left)
            (weaken _ (w.messages + updates events) run (omega arith) (
              after_read-IsAccounted (read p d now w').1 taken (read p d now w').0 _
                ((read p d now w').0.messages + updates events) (omega arith) (omega arith) rest))
    ]
