-- ===== src/Storage/Invariant.antt =====
-- Every writing operation of internal/storage/boltdb.go keeps the bucket in order and readable.
use native.Mathlib.Decide.{dec_le}
use clipman_daemon.Prelude.{
  ℕ, ◌+◌, ◌-◌, ◌≤◌, ◌≡◌, refl, true, none, some, Option, List, [], ◌∷◌, Bytes, length, All,
  All-drop, arith, Bool-cases, Option-cases, inl, inr, length-drop,
}
use clipman_daemon.Content.{ClipboardContent}
use clipman_daemon.Storage.Cursor.{
  Bucket, upsert, remove, upsert-IsAscending, remove-IsAscending, drop-IsAscending, All-upsert,
  All-remove, length-upsert-le,
}
use clipman_daemon.Storage.Services.{Backend, BackendLaws, max_value_size}
use clipman_daemon.Storage.{
  BoltStorage, StorageError, delete_items, flush_cache, save_content, delete_contents, update_tx,
  account,
}
use clipman_daemon.Storage.Flush.{IsItem, newest, flush_cache_lem}
use clipman_daemon.Storage.Saving.{
  IsSound, over_limit, room_db, save_content_lem, save_content_refused,
}

module _ (e : Backend) (laws : BackendLaws e) where
  pub newest-IsSound : (s : BoltStorage) → IsSound e s.db → IsSound e (newest e s)
  newest-IsSound s h = record {
    ascending = drop-IsAscending _ s.db h.ascending;
    all_items = All-drop (IsItem e) _ s.db h.all_items;
  }

  upsert-IsSound :
      (b : Bucket) (k v : Bytes) → IsItem e (k, v) → IsSound e b → IsSound e (upsert k v b)
  upsert-IsSound b k v i h = record {
    ascending = upsert-IsAscending k v b h.ascending;
    all_items = All-upsert (IsItem e) k v b i h.all_items;
  }

  remove-IsSound : (b : Bucket) (k : Bytes) → IsSound e b → IsSound e (remove k b)
  remove-IsSound b k h = record {
    ascending = remove-IsAscending k b h.ascending;
    all_items = All-remove (IsItem e) k b h.all_items;
  }

  room_db-IsSound : (s : BoltStorage) (n : ℕ) → IsSound e s.db → IsSound e (room_db e s n)
  room_db-IsSound s n h = elim (Bool-cases (over_limit e s n)) [
    | inl over ↦ rw over (newest-IsSound s h)
    | inr under ↦ rw under h
  ]

  -- In a bucket whose keys ascend and whose entries are items, a save keeps them so, whether it
  -- succeeds or fails.
  pub save_content-IsSound :
      (s : BoltStorage) (c : ClipboardContent)
      → IsSound e s.db
      → IsSound e (save_content e s c).0.db
  save_content-IsSound s c h = elim (Option-cases (e.marshal c)) [
    | inl m ↦ unfold save_content in rw (m, save_content) h
    | inr (v, m) ↦ elim (dec_le (length v) max_value_size) [
      | yes fits ↦ rw (save_content_lem e laws s c v h m fits) (
          upsert-IsSound (room_db e s (length v)) (e.format c.created) v
            (c, laws.unmarshal-marshal c v m, refl) (room_db-IsSound s (length v) h))
      | no big ↦ rw (save_content_refused e laws s c v h m (omega arith)) h
    ]
  ]

  length-room_db : (s : BoltStorage) (n : ℕ) → length (room_db e s n) ≤ length s.db
  length-room_db s n = elim (Bool-cases (over_limit e s n)) [
    | inl over ↦ rw over (omega (arith, length-drop (length s.db - s.keep_items) s.db))
    | inr under ↦ rw under (omega arith)
  ]

  -- A save to a sound bucket adds one entry at most.
  pub save_content-length :
      (s : BoltStorage) (c : ClipboardContent)
      → IsSound e s.db
      → length (save_content e s c).0.db ≤ length s.db + 1
  save_content-length s c h = elim (Option-cases (e.marshal c)) [
    | inl m ↦ unfold save_content in rw (m, save_content) (omega arith)
    | inr (v, m) ↦ elim (dec_le (length v) max_value_size) [
      | yes fits ↦ rw (save_content_lem e laws s c v h m fits) (
          omega (
            arith,
            length-upsert-le (e.format c.created) v (room_db e s (length v)),
            length-room_db s (length v),
          ))
      | no big ↦ rw (save_content_refused e laws s c v h m (omega arith)) (omega arith)
    ]
  ]

  room_db-All :
      (P : Bytes × Bytes → Type 0) (s : BoltStorage) (n : ℕ) → All P s.db → All P (room_db e s n)
  room_db-All P s n h = elim (Bool-cases (over_limit e s n)) [
    | inl over ↦ rw over (All-drop P _ s.db h)
    | inr under ↦ rw under h
  ]

  -- What holds of every entry of a sound bucket and of the new one holds of every entry after a save.
  pub save_content-All :
      (P : Bytes × Bytes → Type 0) (s : BoltStorage) (c : ClipboardContent)
      → IsSound e s.db
      → ((v : Bytes) → e.marshal c ≡ some v → P (e.format c.created, v))
      → All P s.db
      → All P (save_content e s c).0.db
  save_content-All P s c sound new h = elim (Option-cases (e.marshal c)) [
    | inl m ↦ unfold save_content in rw (m, save_content) h
    | inr (v, m) ↦ elim (dec_le (length v) max_value_size) [
      | yes fits ↦ rw (save_content_lem e laws s c v sound m fits) (
          All-upsert P (e.format c.created) v (room_db e s (length v)) (new v m)
            (room_db-All P s (length v) h))
      | no big ↦ rw (save_content_refused e laws s c v sound m (omega arith)) h
    ]
  ]

  -- In a bucket whose keys ascend and whose entries are items, a flush keeps them so.
  pub flush_cache-IsSound : (s : BoltStorage) → IsSound e s.db → IsSound e (flush_cache e s).0.db
  flush_cache-IsSound s h =
      rw (flush_cache_lem e laws s h.ascending h.all_items) (newest-IsSound s h)

  delete_items-IsSound :
      (b : Bucket) (cs : List ClipboardContent) (n : ℕ)
      → IsSound e b
      → IsSound e (delete_items e b cs n).0
  unfolding delete_items
  delete_items-IsSound b [] n h = h
  delete_items-IsSound b (c ∷ cs) n h =
      rw (laws.delete_ok (e.format c.created) b, delete_items)
        (delete_items-IsSound (remove (e.format c.created) b) cs (n + length c.content_data)
          (remove-IsSound b (e.format c.created) h))

  db-account : (s : BoltStorage) (r : Bucket × Option ℕ) → (account s r).0.db ≡ r.0
  db-account s (b, none) = refl
  db-account s (b, some n) = refl

  db-update_tx :
      (s : BoltStorage) (r : BoltStorage × Option StorageError)
      → IsSound e s.db
      → IsSound e r.0.db
      → IsSound e (update_tx s r).0.db
  db-update_tx s (s', none) h k = k
  db-update_tx s (s', some x) h k = h

  -- In a bucket whose keys ascend and whose entries are items, a deletion of any items, in the bucket
  -- or not, keeps them so.
  pub delete_contents-IsSound :
      (s : BoltStorage) (cs : List ClipboardContent)
      → IsSound e s.db
      → IsSound e (delete_contents e s cs).0.db
  unfolding delete_contents
  delete_contents-IsSound s [] h = h
  delete_contents-IsSound s (c ∷ cs) h =
      db-update_tx s (account s (delete_items e s.db (c ∷ cs) 0)) h (
        rw (db-account s (delete_items e s.db (c ∷ cs) 0)) (delete_items-IsSound s.db (c ∷ cs) 0 h))

  -- For a sound bucket: after an accepted save that had to flush, at most `keep_items` entries and
  -- the new one are left.
  pub save_content_bound :
      (s : BoltStorage) (c : ClipboardContent) (v : Bytes)
      → IsSound e s.db
      → e.marshal c ≡ some v
      → length v ≤ max_value_size
      → over_limit e s (length v) ≡ true
      → length (save_content e s c).0.db ≤ s.keep_items + 1
  save_content_bound s c v h m fits over =
      rw (save_content_lem e laws s c v h m fits, over)
        (omega (
          arith,
          length-upsert-le (e.format c.created) v (newest e s),
          length-drop (length s.db - s.keep_items) s.db,
        ))
