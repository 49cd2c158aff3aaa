-- ===== src/Clipboard/Monitor/Invariant.antt =====
-- The loop of internal/clipboard/monitor.go keeps what every save of its storage keeps, whatever events
-- come.
use clipman_daemon.Prelude.{
  ℕ, suc, ◌+◌, ◌≤◌, length, ◌≡◌, refl, inl, inr, Bool, true, false, Option, none, some, List, [],
  ◌∷◌, All, arith, Bool-cases, Option-cases,
}
use clipman_daemon.Content.{ClipboardContent, Timestamp}
use clipman_daemon.Storage.{BoltStorage, save_content}
use clipman_daemon.Storage.Services.{BackendLaws}
use clipman_daemon.Storage.Saving.{IsSound}
use clipman_daemon.Storage.Invariant.{save_content-IsSound, save_content-length}
use clipman_daemon.Clipboard.History.{add}
use clipman_daemon.Clipboard.Processing.{ContentProcessor, process}
use clipman_daemon.Clipboard.Monitor.{
  Monitor, Services, Event, received, cancelled, is_content_equal, prepare_content, keep_content,
  process_new_content, monitor_step, monitor_clipboard,
}

some_inj : {x y : Monitor} → some x ≡ some y → x ≡ y
some_inj h = ground (arith, h)

-- What the loop saves of an event, with this processor, is of a kind.
abbrev pub Offers {ℓ} : Services → ContentProcessor → (ClipboardContent → Type ℓ) → Event → Type ℓ
Offers s p Q ev =
    (c d : ClipboardContent) (now : Timestamp)
    → ev ≡ received (some c) now
    → process s.files p (some c) ≡ some d
    → Q (prepare_content s d)

-- The number of rounds after these events, from `n`.
abbrev pub rounds : ℕ → List Event → ℕ
rounds n [] = n
rounds n (ev ∷ evs) = rounds (suc n) evs

pub rounds-length : (n : ℕ) (evs : List Event) → rounds n evs ≡ n + length evs
rounds-length n [] = omega arith
rounds-length n (ev ∷ evs) = omega (arith, rounds-length (suc n) evs)

-- For any property of a storage after `n` rounds that a save of an item of a kind takes to one after the
-- next round, as a round without a save does.
module _ {ℓ κ} (s : Services) (P : ℕ → BoltStorage → Type ℓ) (Q : ClipboardContent → Type κ)
    (saves : (n : ℕ) (x : BoltStorage) (c : ClipboardContent)
      → Q c
      → P n x
      → P (suc n) (save_content s.backend x c).0)
    (waits : (n : ℕ) (x : BoltStorage) → P n x → P (suc n) x) where
  -- The property after a step, and the same processor.
  abbrev Preserves : ℕ → Monitor → Monitor → Type ℓ
  Preserves n m m' = P (suc n) m'.storage × (m'.content_processor ≡ m.content_processor)

  keep_content_keeps :
      (n : ℕ) (m m' : Monitor) (c : ClipboardContent) (now : Timestamp)
      → Q c
      → P n m.storage
      → keep_content s m c now ≡ some m'
      → Preserves n m m'
  unfolding keep_content
  keep_content_keeps n m m' c now kind kept h = elim (Option-cases (add m.history c now)) [
    | inl e ↦ cc (rw (keep_content, e) at h)
    | inr (history', e) ↦
        rw (← some_inj (rw (keep_content, e) at h)) (saves n m.storage c kind kept, refl)
  ]

  process_new_content_keeps :
      (n : ℕ) (m m' : Monitor) (c : ClipboardContent) (now : Timestamp)
      → ((d : ClipboardContent)
          → process s.files m.content_processor (some c) ≡ some d
          → Q (prepare_content s d))
      → P n m.storage
      → process_new_content s m c now ≡ some m'
      → Preserves n m m'
  unfolding process_new_content
  process_new_content_keeps n m m' c now offers kept h =
      elim (Option-cases (process s.files m.content_processor (some c))) [
        | inl e ↦ rw (← some_inj (rw (e, process_new_content) at h)) (waits n m.storage kept, refl)
        | inr (d, e) ↦
            keep_content_keeps n m m' (prepare_content s d) now (offers d e) kept
              (rw (process_new_content, e) at h)
      ]

  monitor_step_keeps :
      (n : ℕ) (m m' : Monitor) (ev : Event)
      → Offers s m.content_processor Q ev
      → P n m.storage
      → monitor_step s m ev ≡ some m'
      → Preserves n m m'
  unfolding monitor_step
  monitor_step_keeps n m m' cancelled offers kept h =
      rw (← some_inj h) (waits n m.storage kept, refl)
  monitor_step_keeps n m m' (received none now) offers kept h =
      rw (← some_inj h) (waits n m.storage kept, refl)
  monitor_step_keeps n m m' (received (some c) now) offers kept h =
      elim (Bool-cases (is_content_equal (some c) m.last_content)) [
        | inl same ↦ rw (← some_inj (rw same at h)) (waits n m.storage kept, refl)
        | inr new ↦
            process_new_content_keeps n m m' c now (λ d. offers c d now refl) kept (rw new at h)
      ]

  waits_for : (n : ℕ) (evs : List Event) (x : BoltStorage) → P n x → P (rounds n evs) x
  waits_for n [] x kept = kept
  waits_for n (ev ∷ evs) x kept = waits_for (suc n) evs x (waits n x kept)

  -- The property after the loop, if it held before.
  pub monitor_clipboard_rounds :
      (n : ℕ) (m m' : Monitor) (evs : List Event)
      → All (Offers s m.content_processor Q) evs
      → P n m.storage
      → monitor_clipboard s m evs ≡ some m'
      → P (rounds n evs) m'.storage
  unfolding monitor_clipboard
  monitor_clipboard_rounds n m m' [] offers kept h = rw (← some_inj h) kept
  monitor_clipboard_rounds n m m' (ev ∷ evs) offers kept h =
      go m.stopped (monitor_step s m ev) (λ x e. monitor_step_keeps n m x ev offers.0 kept e)
        (λ x same k. monitor_clipboard_rounds (suc n) x m' evs (rw same offers.1) k) h
    where
      go :
          (stopped : Bool) (r : Option Monitor)
          → ((x : Monitor) → r ≡ some x → Preserves n m x)
          → ((x : Monitor)
              → x.content_processor ≡ m.content_processor
              → P (suc n) x.storage
              → monitor_clipboard s x evs ≡ some m'
              → P (rounds (suc n) evs) m'.storage)
          → (elim stopped [
            | true ↦ some m
            | false ↦ elim r [ none ↦ none | some x ↦ monitor_clipboard s x evs ]
          ])
            ≡ some m'
          → P (rounds (suc n) evs) m'.storage
      go true r step ih k =
          rw (← some_inj k) (waits_for (suc n) evs m.storage (waits n m.storage kept))
      go false none step ih k = ground (arith, k)
      go false (some x) step ih k = ih x (step x refl).1 (step x refl).0 k

-- A property that saves of the items that the events offer keep holds after the loop, if it held
-- before.
pub monitor_clipboard_keeps {ℓ κ} :
    (s : Services) (P : BoltStorage → Type ℓ) (Q : ClipboardContent → Type κ)
    → ((x : BoltStorage) (c : ClipboardContent) → Q c → P x → P (save_content s.backend x c).0)
    → (m m' : Monitor) (evs : List Event) → All (Offers s m.content_processor Q) evs
    → P m.storage
    → monitor_clipboard s m evs ≡ some m'
    → P m'.storage
monitor_clipboard_keeps s P Q saves =
    monitor_clipboard_rounds s (λ n. P) Q (λ n. saves) (λ n x kept. kept) 0

-- Every event offers items of the kind that all items are of.
pub anything_is_offered :
    (s : Services) (p : ContentProcessor) (evs : List Event) → All (Offers s p (λ c. Unit {0})) evs
anything_is_offered s p [] = tt
anything_is_offered s p (ev ∷ evs) = (λ c d now e f. tt, anything_is_offered s p evs)

module _ (s : Services) (laws : BackendLaws s.backend) where
  -- The storage of a monitor keeps the bucket's order and holds only readable items.
  abbrev pub HasSoundStorage : Monitor → Type 0
  HasSoundStorage m = IsSound s.backend m.storage.db

  -- Whatever arrives on the channel, a loop that starts on a sound storage, and does not panic, leaves
  -- it sound.
  pub monitor_clipboard-Sound :
      (m m' : Monitor) (evs : List Event)
      → HasSoundStorage m
      → monitor_clipboard s m evs ≡ some m'
      → HasSoundStorage m'
  monitor_clipboard-Sound m m' evs sound h =
      monitor_clipboard_keeps s (λ x. IsSound s.backend x.db) (λ c. Unit {0})
        (λ x c kind. save_content-IsSound s.backend laws x c) m m' evs
        (anything_is_offered s m.content_processor evs) sound h

  -- The loop leaves a sound bucket sound, with at most one more item for each event.
  pub monitor_clipboard_bound :
      (m m' : Monitor) (evs : List Event)
      → HasSoundStorage m
      → monitor_clipboard s m evs ≡ some m'
      → HasSoundStorage m' × (length m'.storage.db ≤ length m.storage.db + length evs)
  monitor_clipboard_bound m m' evs sound h =
      let after =
        monitor_clipboard_rounds s
          (λ n x. IsSound s.backend x.db × (length x.db ≤ length m.storage.db + n)) (λ c. Unit {0})
          (λ n x c kind kept. (
            save_content-IsSound s.backend laws x c kept.0,
            omega (arith, save_content-length s.backend laws x c kept.0, kept.1),
          ))
          (λ n x kept. (kept.0, omega (arith, kept.1))) 0 m m' evs
          (anything_is_offered s m.content_processor evs) (sound, omega arith) h in
      (after.0, omega (arith, after.1, rounds-length 0 evs))
