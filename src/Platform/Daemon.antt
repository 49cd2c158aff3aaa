-- ===== src/Platform/Daemon.antt =====
-- internal/platform/daemon_linux.go: starting the daemon in the background, with what the system answers
-- as an argument.
pub mod Others
use clipman_daemon.Prelude.{
  ℕ, ◌≡◌, ◌==◌, Bool, true, false, not, ◌||◌, Option, none, some, List, [], ◌∷◌, Bytes, codes,
  bytes_equal, if◌then◌else◌, arith, All, inl, inr, Bool-cases, Option-cases,
}
use clipman_daemon.Text.Decimal.{decimal}

-- The arguments without `--detach`.
unfoldable pub filtered_args : List Bytes → List Bytes
filtered_args [] = []
filtered_args (arg ∷ args) =
    let rest = filtered_args args in
    if not (bytes_equal arg (codes "--detach")) then arg ∷ rest else rest

-- `starts` is the process's number, if the program starts with these arguments; `is_alive` is the answer
-- to the signal after a moment.
pub record DaemonAnswers : Type 0 where
  pub makes_log_dir : Bool
  pub opens_stdout : Bool
  pub opens_stderr : Bool
  pub makes_pid_dir : Bool
  pub starts : List Bytes → Option ℕ
  pub writes_pid : Bool
  pub releases : Bool
  pub is_alive : Bool

pub data DaemonError : Type 0 where
  log_dir_failed stdout_failed stderr_failed pid_dir_failed start_failed : DaemonError
  pid_file_failed release_failed process_died : DaemonError

-- The number that is returned, the error, and the text of the file with the number, if it is written.
pub record Daemonized : Type 0 where
  pub pid : ℕ
  pub error : Option DaemonError
  pub pid_file : Option Bytes

abbrev early : DaemonError → Daemonized
early e = record { pid = 0; error = some e; pid_file = none }

-- From the start of the process on.
unfoldable pub after_start : DaemonAnswers → ℕ → Daemonized
unfolding decimal
after_start a pid =
    if not a.writes_pid
    then record { pid = pid; error = some pid_file_failed; pid_file = none }
    else if not a.releases
    then record { pid = pid; error = some release_failed; pid_file = some (decimal pid) }
    else if not a.is_alive
    then record { pid = pid; error = some process_died; pid_file = some (decimal pid) }
    else record { pid = pid; error = none; pid_file = some (decimal pid) }

unfoldable pub daemonize : DaemonAnswers → List Bytes → Daemonized
unfolding filtered_args after_start
daemonize a args =
    if not a.makes_log_dir
    then early log_dir_failed
    else if not a.opens_stdout
    then early stdout_failed
    else if not a.opens_stderr
    then early stderr_failed
    else if not a.makes_pid_dir
    then early pid_dir_failed
    else elim (a.starts (filtered_args args)) [
      | none ↦ early start_failed
      | some pid ↦ after_start a pid
    ]

-- `IsRunningAsDaemon`: the process leads its group, and its parent is init.
unfoldable pub is_running_as_daemon : ℕ → Option ℕ → ℕ → Bool
is_running_as_daemon pid none ppid = false
is_running_as_daemon pid (some pgid) ppid =
    if not (pid == pgid) then false else ppid == 1 || ppid == 0

abbrev IsOther : Bytes → Type 0
IsOther arg = bytes_equal arg (codes "--detach") ≡ false

-- The daemon is not told to detach again.
filtered_args-All : (args : List Bytes) → All IsOther (filtered_args args)
unfolding filtered_args
filtered_args-All [] = tt
filtered_args-All (arg ∷ args) = elim (Bool-cases (bytes_equal arg (codes "--detach"))) [
  | inl same ↦ rw (filtered_args, same) (filtered_args-All args)
  | inr other ↦ rw (filtered_args, other) (other, filtered_args-All args)
]

-- Without an error the daemon was started with the filtered arguments, it is alive, and its number is
-- the one in the file.
daemonize_lem :
    (a : DaemonAnswers) (args : List Bytes)
    → (daemonize a args).error ≡ none
    → (a.starts (filtered_args args) ≡ some (daemonize a args).pid)
      × ((daemonize a args).pid_file ≡ some (decimal (daemonize a args).pid))
      × (a.is_alive ≡ true)
unfolding daemonize after_start
daemonize_lem a args ok = elim (Option-cases (a.starts (filtered_args args))) [
  | inl fails ↦ absurd (ground (arith, ok, fails))
  | inr (pid, started) ↦
      (ground (arith, ok, started), ground (arith, ok, started), ground (arith, ok, started))
]
