-- ===== src/Storage/Saving.antt =====
-- Saving, in internal/storage/boltdb.go: what SaveContent leaves, and the invariant of the bucket.
use clipman_daemon.Prelude.{
  ℕ, ◌≤◌, ◌<◌, ◌≡◌, refl, Bool, none, some, ap, Bytes, length, if◌then◌else◌, All, arith,
  Bool-cases, inl, inr,
}
use clipman_daemon.Prelude.Int.{ℤ, pos, ◌+ℤ◌, ◌-ℤ◌, ltb_ℤ}
use clipman_daemon.Content.{ClipboardContent}
use clipman_daemon.Storage.Cursor.{Bucket, upsert, IsAscending}
use clipman_daemon.Storage.Services.{Backend, BackendLaws, max_value_size}
use clipman_daemon.Storage.{BoltStorage, put_failed, make_room, save_content}
use clipman_daemon.Storage.Flush.{IsItem, items, data_size, oldest, newest, flush_oldest_lem}

module _ (e : Backend) where
  -- The keys strictly ascend, and each is the printed creation time of its item.
  pub record IsSound (b : Bucket) : Type 0 where
    pub ascending : IsAscending b
    pub all_items : All (IsItem e) b

  -- Whether `n` more bytes pass the limit.
  abbrev pub over_limit : BoltStorage → ℕ → Bool
  over_limit s n = ltb_ℤ s.max_size (s.cache_size +ℤ pos n)

  -- The bucket, and the counter, that a save of `n` bytes finds when it writes.
  abbrev pub room_db : BoltStorage → ℕ → Bucket
  room_db s n = if over_limit s n then newest e s else s.db

  abbrev pub room_size : BoltStorage → ℕ → ℤ
  room_size s n =
      if over_limit s n
      then s.cache_size +ℤ pos n -ℤ pos (data_size (items e (oldest e s)))
      else s.cache_size +ℤ pos n

  make_room_lem :
      (laws : BackendLaws e) (s : BoltStorage) (n : ℕ)
      → IsSound s.db
      → make_room e (record s { cache_size = s.cache_size +ℤ pos n })
        ≡ record s { db = room_db s n; cache_size = room_size s n }
  unfolding make_room
  make_room_lem laws s n sound = elim (Bool-cases (over_limit s n)) [
    | inl over ↦ rw over (
        ap (λ r. r.0)
          (flush_oldest_lem e laws (record s { cache_size = s.cache_size +ℤ pos n }) sound.ascending
            sound.all_items))
    | inr under ↦ rw under refl
  ]

  -- For a sound bucket: a save whose encoding bbolt accepts puts the item under its creation time,
  -- after a flush if the counter with the new bytes passes the limit.
  pub save_content_lem :
      (laws : BackendLaws e) (s : BoltStorage) (c : ClipboardContent) (v : Bytes)
      → IsSound s.db
      → e.marshal c ≡ some v
      → length v ≤ max_value_size
      → save_content e s c ≡ (
        record s {
          db = upsert (e.format c.created) v (room_db s (length v));
          cache_size = room_size s (length v);
        },
        none,
      )
  unfolding save_content
  save_content_lem laws s c v sound m fits =
      rw (m, save_content, make_room_lem laws s (length v) sound)
        (ground (
          arith,
          laws.put_ok (e.format c.created) v (room_db s (length v)),
          laws.format_size c.created,
        ))

  -- For a sound bucket: a save whose encoding is too large for bbolt fails, and leaves the bucket
  -- as it was, and the counter as if it had succeeded.
  pub save_content_refused :
      (laws : BackendLaws e) (s : BoltStorage) (c : ClipboardContent) (v : Bytes)
      → IsSound s.db
      → e.marshal c ≡ some v
      → max_value_size < length v
      → save_content e s c ≡ (record s { cache_size = room_size s (length v) }, some put_failed)
  unfolding save_content
  save_content_refused laws s c v sound m big =
      rw (m, save_content, make_room_lem laws s (length v) sound)
        (ground (arith, laws.put_too_large (e.format c.created) v (room_db s (length v))))
