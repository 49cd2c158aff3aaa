-- ===== src/Platform/Monitoring.antt =====
-- internal/platform/clipboard_linux.go: how changes of the clipboard are waited for, and what the monitors
-- that wait for events send.
pub mod Sent
pub mod Mir
use clipman_daemon.Prelude.{
  ℕ, Bool, true, false, not, ◌&&◌, Option, none, some, List, [], ◌∷◌, codes, if◌then◌else◌, is_some,
}
use clipman_daemon.Content.{ClipboardContent, Timestamp}
use clipman_daemon.Platform.Session.{
  Session, is_x11_session, is_wayland_session, is_mir_session, has_command,
}
use clipman_daemon.Platform.Reading.{Reader, ReadResult, Packages, content, unchanged, failed, read}

pub data MonitorMode : Type 0 where
  xfixes wayland mir polling : MonitorMode

-- `checkXFixesSupport`
unfoldable pub check_xfixes_support : Session → Bool
check_xfixes_support s =
    if not (is_some (s.run (codes "xprop" ∷ codes "-root" ∷ []) []))
    then false
    else is_some (s.run (codes "bash" ∷ codes "-c" ∷ codes "xprop -root | grep -q XFIXES" ∷ []) [])

-- After the tests for X11 and Wayland.
unfoldable pub mir_or_polling : Session → MonitorMode
unfolding is_mir_session has_command
mir_or_polling s = if is_mir_session s && has_command s (codes "mir-tool") then mir else polling

unfoldable pub detect_monitoring_mode : Session → MonitorMode
unfolding is_x11_session is_wayland_session has_command check_xfixes_support mir_or_polling
detect_monitoring_mode s =
    if is_x11_session s && is_wayland_session s
    then (if check_xfixes_support s then xfixes else mir_or_polling s)
    else if is_x11_session s && check_xfixes_support s
    then xfixes
    else if is_wayland_session s
    then (if has_command s (codes "wl-paste") then wayland else mir_or_polling s)
    else mir_or_polling s

-- `MonitorChanges`: the monitor that is started, unless one is running.
unfoldable pub monitor_changes : Bool → Session → Bool × Option MonitorMode
unfolding detect_monitoring_mode
monitor_changes is_running s =
    if is_running then (true, none) else (true, some (detect_monitoring_mode s))

-- What a monitor waits for: a change, or the end of the program that tells it of changes, each at a
-- time, with what the desktop then answers and whether the item, if there is one, is taken before the
-- stop; the stop.
pub data MonitorEvent : Type 0 where
  changed : (ℕ → Session) → Timestamp → Bool → MonitorEvent
  program_ended : (ℕ → Session) → Timestamp → Bool → MonitorEvent
  stopped : MonitorEvent

-- Whether a monitor still waits, has given way to another one, or was stopped.
pub data MonitorEnd : Type 0 where
  waiting gave_way was_stopped : MonitorEnd

-- The items that were sent, the reader, and the end.
abbrev pub Run : Type 0
Run = List ClipboardContent × Reader × MonitorEnd

-- After a read: an item is sent, or the monitor is stopped; an error is logged.
unfoldable pub after_read : ReadResult → Bool → Reader → Run → Run
after_read (content c) taken r rest =
    if taken then (c ∷ rest.0, rest.1, rest.2) else ([], r, was_stopped)
after_read unchanged taken r rest = rest
after_read failed taken r rest = rest

-- The loops with xprop, and the one of `tryAlternativeWaylandMonitoring`.
unfoldable pub event_loop : Packages → Reader → List MonitorEvent → Run
unfolding read after_read
event_loop p r [] = ([], r, waiting)
event_loop p r (stopped ∷ events) = ([], r, was_stopped)
event_loop p r (program_ended attempts now taken ∷ events) = ([], r, gave_way)
event_loop p r (changed attempts now taken ∷ events) =
    let (r', result) = read p attempts now r in
    let rest = event_loop p r' events in after_read result taken r' rest

-- The loop with wl-paste. `has_data` is whether readData has bytes: they are kept from the notification
-- before, so that the end of the program is only seen as such if it is the first event.
unfoldable pub wayland_loop : Packages → Bool → Reader → List MonitorEvent → Run
unfolding read after_read
wayland_loop p has_data r [] = ([], r, waiting)
wayland_loop p has_data r (stopped ∷ events) = ([], r, was_stopped)
wayland_loop p has_data r (program_ended attempts now taken ∷ events) =
    let (r', result) = read p attempts now r in
    let rest = wayland_loop p has_data r' events in
    if not has_data then ([], r, gave_way) else after_read result taken r' rest
wayland_loop p has_data r (changed attempts now taken ∷ events) =
    let (r', result) = read p attempts now r in
    let rest = wayland_loop p true r' events in after_read result taken r' rest

-- `tryDirectXpropMonitoring`: none if xprop is not started with a pipe.
unfoldable pub try_direct_xprop_monitoring :
    Packages → Bool → Bool → Reader → List MonitorEvent → Option Run
unfolding event_loop
try_direct_xprop_monitoring p pipes starts r events =
    if pipes && starts then some (event_loop p r events) else none

-- `monitorWithXFixes`: under Wayland xprop is tried first. Then the pipe is made, the script started and
-- the pipe opened; else the monitor gives way to the polling.
unfoldable pub monitor_with_xfixes :
    Packages → Session → Bool → Bool → Bool → Bool → Bool → Reader → List MonitorEvent → Run
unfolding is_wayland_session try_direct_xprop_monitoring event_loop
monitor_with_xfixes p s xprop_pipes xprop_starts makes starts opens r events =
    let direct =
      if is_wayland_session s
      then try_direct_xprop_monitoring p xprop_pipes xprop_starts r events
      else none in
    let own = if makes && starts && opens then event_loop p r events else ([], r, gave_way) in
    elim direct [ some run ↦ run | none ↦ own ]

-- `monitorWithWayland`: wl-paste is started with a pipe; else the monitor gives way to the other attempt.
unfoldable pub monitor_with_wayland : Packages → Bool → Bool → Reader → List MonitorEvent → Run
unfolding wayland_loop
monitor_with_wayland p pipes starts r events =
    if pipes && starts then wayland_loop p false r events else ([], r, gave_way)

-- `tryAlternativeWaylandMonitoring`: without `-n`; it gives way to the polling.
unfoldable pub try_alternative_wayland_monitoring :
    Packages → Bool → Bool → Reader → List MonitorEvent → Run
unfolding event_loop
try_alternative_wayland_monitoring p pipes starts r events =
    if pipes && starts then event_loop p r events else ([], r, gave_way)
