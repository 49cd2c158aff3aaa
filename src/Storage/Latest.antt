-- ===== src/Storage/Latest.antt =====
-- What GetLatestContent of internal/storage/boltdb.go returns after a save.
use clipman_daemon.Prelude.{
  ℕ, ◌≤◌, ◌≡◌, refl, ap, true, false, some, [], ◌∷◌, ◌++◌, Bytes, length, arith, bytes_less,
  bytes_less-ne, All, All-drop, Bool-cases, inl, inr,
}
use clipman_daemon.Content.{ClipboardContent}
use clipman_daemon.Storage.Cursor.{Bucket, upsert}
use clipman_daemon.Storage.Services.{Backend, BackendLaws, max_value_size}
use clipman_daemon.Storage.{BoltStorage, ok, save_content}
use clipman_daemon.Storage.Reads.{last_entry, get_latest_content}
use clipman_daemon.Storage.Saving.{IsSound, over_limit, room_db, save_content_lem}

abbrev pub AllBelow : Bytes → Bucket → Type 0
AllBelow k = All (λ x. bytes_less x.0 k ≡ true)

upsert_last : (k v : Bytes) (m : Bucket) → AllBelow k m → upsert k v m ≡ m ++ (k, v) ∷ []
unfolding upsert
upsert_last k v [] a = refl
upsert_last k v ((j, w) ∷ m) a =
    rw (bytes_less-ne j k a.0, a.0) (ap (λ l. (j, w) ∷ l) (upsert_last k v m a.1))

last_entry-append : (m : Bucket) (x : Bytes × Bytes) → last_entry (m ++ x ∷ []) ≡ some x
unfolding last_entry
last_entry-append [] x = refl
last_entry-append (y ∷ []) x = refl
last_entry-append (y ∷ z ∷ m) x = last_entry-append (z ∷ m) x

module _ (e : Backend) (laws : BackendLaws e) where
  room_db-AllBelow :
      (s : BoltStorage) (n : ℕ) (k : Bytes) → AllBelow k s.db → AllBelow k (room_db e s n)
  room_db-AllBelow s n k a = elim (Bool-cases (over_limit e s n)) [
    | inl over ↦ rw over (All-drop (λ x. bytes_less x.0 k ≡ true) _ s.db a)
    | inr under ↦ rw under a
  ]

  last_of_saved :
      (s : BoltStorage) (c : ClipboardContent) (v : Bytes)
      → IsSound e s.db
      → e.marshal c ≡ some v
      → length v ≤ max_value_size
      → AllBelow (e.format c.created) s.db
      → last_entry (save_content e s c).0.db ≡ some (e.format c.created, v)
  last_of_saved s c v h m fits above =
      rw
        (
          save_content_lem e laws s c v h m fits,
          upsert_last (e.format c.created) v (room_db e s (length v))
              (room_db-AllBelow s (length v) (e.format c.created) above),
        )
        (last_entry-append (room_db e s (length v)) (e.format c.created, v))

  -- For a sound bucket: an accepted item that is not compressed, and whose key is above every key
  -- in the bucket, is the latest content, also when the save had to flush.
  pub get_latest-save :
      (s : BoltStorage) (c : ClipboardContent) (v : Bytes)
      → IsSound e s.db
      → e.marshal c ≡ some v
      → length v ≤ max_value_size
      → AllBelow (e.format c.created) s.db
      → c.compressed ≡ false
      → get_latest_content e (save_content e s c).0 ≡ ok (some c)
  unfolding get_latest_content
  get_latest-save s c v h m fits above plain =
      ground (arith, last_of_saved s c v h m fits above, laws.unmarshal-marshal c v m)
