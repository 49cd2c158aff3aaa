-- ===== src/Storage/Accounting.antt =====
-- What SaveContent leaves under each key, and how the counter of internal/storage/boltdb.go drifts.
use clipman_daemon.Prelude.{
  ℕ, suc, ◌≤◌, ◌≡◌, true, false, none, some, [], ◌∷◌, Bytes, length, if◌then◌else◌, arith,
  bytes_equal,
}
use clipman_daemon.Prelude.Int.{ℤ, pos, ◌+ℤ◌, ◌-ℤ◌, ltb_ℤ}
use clipman_daemon.Content.{ClipboardContent}
use clipman_daemon.Storage.Cursor.{remove, value_of, value_of-upsert, remove-upsert}
use clipman_daemon.Storage.Services.{Backend, BackendLaws, max_value_size}
use clipman_daemon.Storage.{BoltStorage, save_content, delete_contents}
use clipman_daemon.Storage.Saving.{IsSound, over_limit, room_db, save_content_lem}

module _ (e : Backend) (laws : BackendLaws e) where
  -- For a sound bucket: after an accepted save the item's key holds its encoding, which decodes to
  -- the item; every other key holds what it held after the flush, if there was one, and else what
  -- it held before.
  pub save_content-value_of :
      (s : BoltStorage) (c : ClipboardContent) (v j : Bytes)
      → IsSound e s.db
      → e.marshal c ≡ some v
      → length v ≤ max_value_size
      → (value_of j (save_content e s c).0.db ≡ (
          if bytes_equal (e.format c.created) j
          then some v
          else value_of j (room_db e s (length v))))
        × (e.unmarshal v ≡ some c)
  save_content-value_of s c v j h m fits = (
    rw (save_content_lem e laws s c v h m fits) (value_of-upsert (e.format c.created) j v _),
    laws.unmarshal-marshal c v m,
  )

  counter_up : (a : ℤ) (d n : ℕ) → suc d ≤ n → ltb_ℤ a (a +ℤ pos n -ℤ pos d) ≡ true
  unfolding ◌+ℤ◌ ◌-ℤ◌
  counter_up a d n h = ground arith

  delete_one :
      (s : BoltStorage) (c : ClipboardContent)
      → delete_contents e s (c ∷ []) ≡ (
        record s {
          db = remove (e.format c.created) s.db;
          cache_size = s.cache_size -ℤ pos (length c.content_data);
        },
        none,
      )
  unfolding delete_contents
  delete_one s c = ground (arith, laws.delete_ok (e.format c.created) s.db)

  -- The counter drifts: in a sound bucket, saving an item under a new key within the limit and
  -- deleting it again leaves the bucket as it was and the counter strictly higher.
  pub save_delete_drift :
      (s : BoltStorage) (c : ClipboardContent) (v : Bytes)
      → IsSound e s.db
      → e.marshal c ≡ some v
      → length v ≤ max_value_size
      → over_limit e s (length v) ≡ false
      → value_of (e.format c.created) s.db ≡ none
      → let s' = (delete_contents e (save_content e s c).0 (c ∷ [])).0 in
        (s'.db ≡ s.db) × (ltb_ℤ s.cache_size s'.cache_size ≡ true)
  save_delete_drift s c v h m fits under new =
      rw (save_content_lem e laws s c v h m fits, under, delete_one)
        (
          remove-upsert (e.format c.created) v s.db new,
          counter_up s.cache_size (length c.content_data) (length v) (laws.marshal_grows c v m),
        )
