-- ===== src/Tests/Others.antt =====
-- The theorems on macOS at concrete inputs.
use clipman_daemon.Prelude.{◌≡◌, true, false, none, some, List, [], ◌∷◌, codes}
use clipman_daemon.Platform.Darwin.{
  DarwinError, DarwinEvent, Pasteboard, failed, interval_over, monitor_changes, monitor_loop,
  new_clipboard, nothing_is_read, read,
}
use clipman_daemon.Tests.Samples.{at}

abbrev pasteboard : Pasteboard
pasteboard = record { unsupported = false; text = some (codes "hi"); image = none; now = at 3 }

abbrev events : List DarwinEvent
events = interval_over pasteboard true ∷ interval_over pasteboard true ∷ []

nothing_is_read_example :
    ((e : DarwinError) × (read pasteboard new_clipboard ≡ (new_clipboard, failed e)))
    × (monitor_changes events new_clipboard ≡ [])
    × (monitor_loop true events new_clipboard ≡ [])
nothing_is_read_example = nothing_is_read pasteboard events
