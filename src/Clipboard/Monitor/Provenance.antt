-- ===== src/Clipboard/Monitor/Provenance.antt =====
-- Where the entries that the loop of internal/clipboard/monitor.go leaves in the storage come from.
use mathlib.Core.Path.{subst}
use mathlib.Core.List.{Mem, mem-cons_self, mem-cons_of_mem}
use clipman_daemon.Prelude.{
  ◌≡◌, ◌⊎◌, refl, inl, inr, false, some, List, [], ◌∷◌, Bytes, All, length,
}
use clipman_daemon.Prelude.Int.{pos, ltb_ℤ}
use clipman_daemon.Content.{ClipboardContent, Timestamp}
use clipman_daemon.Storage.Cursor.{Bucket}
use clipman_daemon.Storage.Services.{BackendLaws}
use clipman_daemon.Storage.Saving.{IsSound}
use clipman_daemon.Storage.Invariant.{save_content-IsSound, save_content-All}
use clipman_daemon.Clipboard.Processing.{ContentProcessor, process}
use clipman_daemon.Clipboard.Processing.Laws.{process-All}
use clipman_daemon.Clipboard.Monitor.{
  Monitor, Services, Event, received, prepare_content, monitor_clipboard,
}
use clipman_daemon.Clipboard.Monitor.Invariant.{Offers, monitor_clipboard_keeps}

-- What holds of every member holds of all.
All-Mem {ℓ κ} : {A : Type ℓ} (P : A → Type κ) (xs : List A) → ((x : A) → Mem x xs → P x) → All P xs
All-Mem P [] h = tt
All-Mem P (x ∷ xs) h = (h x mem-cons_self, All-Mem P xs (λ y m. h y (mem-cons_of_mem x m)))

module _ (s : Services) (p : ContentProcessor) (evs : List Event) where
  -- An item is what the processor makes of an item that came with one of the events and was not over
  -- the size limit, with the type that is detected.
  abbrev pub Arises : ClipboardContent → Type 0
  Arises x =
      (c d : ClipboardContent) × (now : Timestamp) × Mem (received (some c) now) evs
      × (ltb_ℤ p.max_size_bytes (pos (length c.content_data)) ≡ false)
      × (process s.files p (some c) ≡ some d)
      × (prepare_content s d ≡ x)

  -- An entry of a bucket, or the encoding of an item that arises, under its time.
  abbrev pub IsExplained : Bucket → Bytes × Bytes → Type 0
  IsExplained b (k, v) =
      Mem (k, v) b
      ⊎ ((x : ClipboardContent) × Arises x
          × (s.backend.format x.created ≡ k)
          × (s.backend.marshal x ≡ some v))

  Offers-Arises : All (Offers s p Arises) evs
  Offers-Arises = All-Mem (Offers s p Arises) evs (λ ev there c d now e passed. (
    c,
    d,
    now,
    subst (λ x. Mem x evs) e there,
    (process-All s.files p c d passed).1,
    passed,
    refl,
  ))

module _ (s : Services) (laws : BackendLaws s.backend) where
  -- Each entry that a loop leaves in the storage was there before, or is an item that arises from the
  -- events.
  pub monitor_clipboard-IsExplained :
      (m m' : Monitor) (evs : List Event)
      → IsSound s.backend m.storage.db
      → monitor_clipboard s m evs ≡ some m'
      → All (IsExplained s m.content_processor evs m.storage.db) m'.storage.db
  monitor_clipboard-IsExplained m m' evs sound h =
      (monitor_clipboard_keeps s (λ x. IsSound s.backend x.db × All Explained x.db)
        (Arises s m.content_processor evs)
        (λ x c arises kept. (
          save_content-IsSound s.backend laws x c kept.0,
          save_content-All s.backend laws Explained x c kept.0
              (λ v encoded. inr (c, arises, refl, encoded)) kept.1,
        ))
        m m' evs (Offers-Arises s m.content_processor evs)
        (sound, All-Mem Explained m.storage.db (λ e there. inl there)) h).1
    where
      Explained : Bytes × Bytes → Type 0
      Explained = IsExplained s m.content_processor evs m.storage.db
