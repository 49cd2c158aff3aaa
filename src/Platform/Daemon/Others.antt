-- ===== src/Platform/Daemon/Others.antt =====
-- internal/platform/daemon_darwin.go and daemon_windows.go: starting the daemon on macOS and Windows.
use clipman_daemon.Prelude.{
  ℕ, ◌≡◌, Bool, false, not, Option, none, some, List, Bytes, leb, ◌==◌, if◌then◌else◌, arith, inl,
  inr, Option-cases,
}
use clipman_daemon.Text.Decimal.{decimal}
use clipman_daemon.Platform.Daemon.{filtered_args}

-- macOS opens /dev/null first; Windows opens nothing, which is true here.
pub record OtherAnswers : Type 0 where
  pub opens_null : Bool
  pub makes_pid_dir : Bool
  pub starts : List Bytes → Option ℕ
  pub writes_pid : Bool

pub data OtherError : Type 0 where
  null_failed pid_dir_failed start_failed pid_file_failed : OtherError

-- The number that is returned, the error, and the text of the file with the number, if it is written.
pub record OtherDaemonized : Type 0 where
  pub pid : ℕ
  pub error : Option OtherError
  pub pid_file : Option Bytes

abbrev stopped_early : OtherError → OtherDaemonized
stopped_early e = record { pid = 0; error = some e; pid_file = none }

unfoldable pub daemonize_windows : OtherAnswers → List Bytes → OtherDaemonized
unfolding filtered_args decimal
daemonize_windows a args =
    if not a.makes_pid_dir
    then stopped_early pid_dir_failed
    else elim (a.starts (filtered_args args)) [
      | none ↦ stopped_early start_failed
      | some pid ↦
          if a.writes_pid
          then record { pid = pid; error = none; pid_file = some (decimal pid) }
          else record { pid = pid; error = some pid_file_failed; pid_file = none }
    ]

unfoldable pub daemonize_darwin : OtherAnswers → List Bytes → OtherDaemonized
unfolding daemonize_windows
daemonize_darwin a args =
    if not a.opens_null then stopped_early null_failed else daemonize_windows a args

-- On Windows a parent with a small number is taken for the system.
unfoldable pub is_running_as_daemon_windows : ℕ → Bool
is_running_as_daemon_windows ppid = leb ppid 4

unfoldable pub is_running_as_daemon_darwin : ℕ → Option ℕ → ℕ → Bool
is_running_as_daemon_darwin pid none ppid = false
is_running_as_daemon_darwin pid (some pgid) ppid = if not (pid == pgid) then false else ppid == 1

-- On macOS, too, without an error the daemon was started with the filtered arguments, and its number is
-- the one in the file.
daemonize_darwin_lem :
    (a : OtherAnswers) (args : List Bytes)
    → (daemonize_darwin a args).error ≡ none
    → (a.starts (filtered_args args) ≡ some (daemonize_darwin a args).pid)
      × ((daemonize_darwin a args).pid_file ≡ some (decimal (daemonize_darwin a args).pid))
unfolding daemonize_darwin
daemonize_darwin_lem a args ok = elim (Option-cases (a.starts (filtered_args args))) [
  | inl fails ↦ absurd (ground (arith, ok, fails))
  | inr (pid, started) ↦ (ground (arith, ok, started), ground (arith, ok, started))
]
