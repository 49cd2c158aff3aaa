-- ===== src/Platform/Monitoring/Sent.antt =====
-- internal/platform/clipboard_linux.go: what a monitor sends, one item after the other.
use clipman_daemon.Prelude.{
  ℕ, ◌+◌, ◌≤◌, ◌≡◌, ◌≢◌, Option, Bool, true, false, none, some, List, [], ◌∷◌, Bytes, bytes_equal,
}
use clipman_daemon.Prelude.Int.{pos}
use clipman_daemon.Content.{ClipboardContent}
use clipman_daemon.Platform.Session.{Session}
use clipman_daemon.Platform.Cache.{ContentCache, LinuxClipboard}
use clipman_daemon.Platform.Reading.{Reader, ReadResult, Packages, content, unchanged, failed, read}
use clipman_daemon.Platform.Monitoring.{
  MonitorEvent, Run, changed, program_ended, stopped, gave_way, after_read, wayland_loop,
}

-- Each item's data differ from those before it; the first is compared with `last`.
abbrev pub AllNew : Bytes → List ClipboardContent → Type 0
AllNew last [] = Unit
AllNew last (c ∷ sent) = (bytes_equal c.content_data last ≡ false) × AllNew c.content_data sent

-- A cached item is not from after `t`.
abbrev pub IsFrom : ℕ → Option ContentCache → Type 0
IsFrom t none = Unit
IsFrom t (some k) = k.last_access_time ≤ t

-- The events of reads come one after the other, each the time `e` at least after the one before.
abbrev pub IsSpaced : ℕ → ℕ → List MonitorEvent → Type 0
IsSpaced e t [] = Unit
IsSpaced e t (stopped ∷ events) = IsSpaced e t events
IsSpaced e t (changed attempts now taken ∷ events) =
    (t + e ≤ now.instant) × IsSpaced e now.instant events
IsSpaced e t (program_ended attempts now taken ∷ events) =
    (t + e ≤ now.instant) × IsSpaced e now.instant events

-- A cache that expires after `e`, with no item from after `t`.
abbrev IsAged : ℕ → ℕ → LinuxClipboard → Type 0
IsAged e t c = (c.cache_expiry ≡ pos e) × IsFrom t c.content_cache

after_read_stays :
    (result : ReadResult) (taken : Bool) (r : Reader) (rest : Run)
    → rest.2 ≢ gave_way
    → (after_read result taken r rest).2 ≢ gave_way
unfolding after_read
after_read_stays (content c) true r rest stays = stays
after_read_stays (content c) false r rest stays = λ e. cc (e)
after_read_stays unchanged taken r rest stays = stays
after_read_stays failed taken r rest stays = stays

-- Once wl-paste has told of a change, its monitor never gives way to another one, also if wl-paste ends.
pub wayland_loop_stays :
    (p : Packages) (events : List MonitorEvent) (r : Reader)
    → (wayland_loop p true r events).2 ≢ gave_way
unfolding wayland_loop
wayland_loop_stays p [] r = λ e. cc (e)
wayland_loop_stays p (stopped ∷ events) r = λ e. cc (e)
wayland_loop_stays p (program_ended attempts now taken ∷ events) r =
    after_read_stays (read p attempts now r).1 taken _ _
      (wayland_loop_stays p events (read p attempts now r).0)
wayland_loop_stays p (changed attempts now taken ∷ events) r =
    after_read_stays (read p attempts now r).1 taken _ _
      (wayland_loop_stays p events (read p attempts now r).0)
