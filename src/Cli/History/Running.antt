-- ===== src/Cli/History/Running.antt =====
-- internal/cli/cmd/history.go: whether a daemon runs, and whether the database is locked.
use clipman_daemon.Prelude.{
  ◌≡◌, refl, Bool, true, false, not, ◌||◌, Option, none, some, List, [], ◌∷◌, ◌++◌, Bytes, codes,
  if◌then◌else◌, contains, Bool-cases, inl, inr,
}

-- What the system answers: whether a file is there, whether a command succeeds and what it prints, and
-- whether a file can be opened and locked.
pub record Processes : Type 0 where
  pub is_there : Bytes → Bool
  pub succeeds : Bytes → List Bytes → Bool
  pub output : Bytes → List Bytes → Option Bytes
  pub can_open : Bytes → Bool
  pub can_lock : Bytes → Bool

abbrev pub process_patterns : List Bytes
process_patterns = codes "clipman run" ∷ codes "clipmand run" ∷ codes "clipman-daemon run" ∷ []

-- The loop over the calls of pgrep.
unfoldable pub any_succeeds : Processes → List Bytes → Bool
any_succeeds p [] = false
any_succeeds p (pattern ∷ patterns) =
    p.succeeds (codes "pgrep") (codes "-f" ∷ pattern ∷ []) || any_succeeds p patterns

-- The loop over the patterns in what ps prints.
unfoldable pub any_contained : Bytes → List Bytes → Bool
unfolding contains
any_contained output_str [] = false
any_contained output_str (pattern ∷ patterns) =
    contains output_str pattern || any_contained output_str patterns

unfoldable pub check_daemon_running : Processes → Bytes → Bool
unfolding any_succeeds any_contained
check_daemon_running p db_path =
    if p.is_there (db_path ++ codes ".lock")
    then true
    else if any_succeeds p process_patterns
    then true
    else elim (p.output (codes "ps") (codes "aux" ∷ [])) [
      | none ↦ false
      | some output_str ↦ any_contained output_str process_patterns
    ]

-- The lock is released again.
unfoldable pub check_database_lock : Processes → Bytes → Bool
check_database_lock p db_path = if not (p.can_open db_path) then false else not (p.can_lock db_path)

-- What either check finds keeps the command from opening the database.
unfoldable pub is_in_use : Processes → Bytes → Bool
unfolding check_daemon_running check_database_lock
is_in_use p db_path = check_daemon_running p db_path || check_database_lock p db_path

-- A file that another process has locked is in use, whatever the search for processes finds.
pub is_in_use-locked :
    (p : Processes) (db_path : Bytes)
    → p.can_open db_path ≡ true
    → p.can_lock db_path ≡ false
    → is_in_use p db_path ≡ true
unfolding is_in_use check_database_lock
is_in_use-locked p db_path h k =
    rw (h, k)
      (elim (Bool-cases (check_daemon_running p db_path)) [
        | inl runs ↦ rw (runs) refl
        | inr free ↦ rw (free) refl
      ])
