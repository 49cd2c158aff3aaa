-- ===== src/Platform/Monitoring/Mir.antt =====
-- internal/platform/clipboard_linux.go: the monitor under Mir, which looks at the file that its program
-- writes. The file is then among the temporary files (Platform/Closing).
use clipman_daemon.Prelude.{
  ℕ, ◌≡◌, refl, Bool, true, not, ◌||◌, Option, none, some, List, [], ◌∷◌, ◌++◌, ltb, All, arith,
  if◌then◌else◌,
}
use clipman_daemon.Content.{ClipboardContent, Timestamp}
use clipman_daemon.Platform.Session.{Session}
use clipman_daemon.Platform.Reading.{Reader, ReadResult, Packages, content, unchanged, failed, read}

-- The ticker fires: the file's time, if Stat succeeds, what the desktop answers to a read, its time, and
-- whether an item is taken before the stop; or the stop.
pub data MirEvent : Type 0 where
  ticked : Option ℕ → (ℕ → Session) → Timestamp → Bool → MirEvent
  stopped : MirEvent

-- The items that are sent, or none for a panic.
abbrev pub Sent : Type 0
Sent = Option (List ClipboardContent)

unfoldable pub after_mir_read : ReadResult → Bool → Sent → Sent
after_mir_read (content c) taken rest =
    if taken then elim rest [ none ↦ none | some cs ↦ some (c ∷ cs) ] else some []
after_mir_read unchanged taken rest = rest
after_mir_read failed taken rest = rest

-- The time of the cache is read also when there is no cache: a nil pointer.
unfoldable pub mir_loop : Packages → Reader → List MirEvent → Sent
unfolding read after_mir_read
mir_loop p r [] = some []
mir_loop p r (stopped ∷ events) = some []
mir_loop p r (ticked none attempts now taken ∷ events) = mir_loop p r events
mir_loop p r (ticked (some modified) attempts now taken ∷ events) =
    let (r', result) = read p attempts now r in
    let later = mir_loop p r' events in
    let same = mir_loop p r events in
    elim r.clipboard.content_cache [
      | none ↦ none
      | some k ↦ if ltb k.last_access_time modified then after_mir_read result taken later else same
    ]

-- `monitorWithMir`: without the file or the program nothing is sent.
unfoldable pub monitor_with_mir : Packages → Bool → Bool → Reader → List MirEvent → Sent
unfolding mir_loop
monitor_with_mir p makes starts r events =
    if not makes || not starts then some [] else mir_loop p r events

-- Stat fails.
abbrev IsSilent : MirEvent → Type 0
IsSilent (ticked modified attempts now taken) = modified ≡ none
IsSilent stopped = ⊥

-- From a clipboard that caches nothing, the first file time that is had ends the program.
monitor_with_mir_panic :
    (p : Packages) (r : Reader) (silent events : List MirEvent) (modified : ℕ)
    (attempts : ℕ → Session) (now : Timestamp) (taken : Bool)
    → r.clipboard.content_cache ≡ none
    → All IsSilent silent
    → monitor_with_mir p true true r (silent ++ ticked (some modified) attempts now taken ∷ events)
      ≡ none
unfolding monitor_with_mir mir_loop
monitor_with_mir_panic p r [] events modified attempts now taken cold quiet = rw cold refl
monitor_with_mir_panic p r (stopped ∷ silent) events modified attempts now taken cold quiet =
    absurd quiet.0
monitor_with_mir_panic p r (ticked none a n k ∷ silent) events modified attempts now taken cold
      quiet =
    monitor_with_mir_panic p r silent events modified attempts now taken cold quiet.1
monitor_with_mir_panic p r (ticked (some t) a n k ∷ silent) events modified attempts now taken cold
      quiet =
    absurd (ground (arith, quiet.0))
