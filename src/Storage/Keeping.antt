-- ===== src/Storage/Keeping.antt =====
-- internal/storage/boltdb.go: how many items a flush keeps does not change.
use clipman_daemon.Prelude.{
  ℕ, ◌≡◌, refl, ◌∙◌, Option, none, some, List, [], ◌∷◌, Bytes, length, inl, inr, Bool-cases,
  Option-cases,
}
use clipman_daemon.Prelude.Int.{pos, ◌+ℤ◌, ltb_ℤ}
use clipman_daemon.Content.{ClipboardContent}
use clipman_daemon.Storage.{
  BoltStorage, StorageError, account, update_tx, delete_items_from_bucket, flush_oldest_content,
  make_room, put_content, save_content,
}
use clipman_daemon.Storage.Cursor.{Bucket}
use clipman_daemon.Storage.Services.{Backend}

account-keep_items :
    (s : BoltStorage) (r : Bucket × Option ℕ) → (account s r).0.keep_items ≡ s.keep_items
account-keep_items s (b, none) = refl
account-keep_items s (b, some n) = refl

update_tx-keep_items :
    (s : BoltStorage) (r : BoltStorage × Option StorageError)
    → r.0.keep_items ≡ s.keep_items
    → (update_tx s r).0.keep_items ≡ s.keep_items
update_tx-keep_items s (s', none) same = same
update_tx-keep_items s (s', some x) same = same

module _ (e : Backend) where
  delete_items-keep_items :
      (s : BoltStorage) (cs : List ClipboardContent)
      → (delete_items_from_bucket e s cs).0.keep_items ≡ s.keep_items
  unfolding delete_items_from_bucket
  delete_items-keep_items s [] = refl
  delete_items-keep_items s (c ∷ cs) = account-keep_items s _

  make_room-keep_items : (s : BoltStorage) → (make_room e s).keep_items ≡ s.keep_items
  unfolding make_room flush_oldest_content
  make_room-keep_items s = elim (Bool-cases (ltb_ℤ s.max_size s.cache_size)) [
    | inl over ↦ rw over (delete_items-keep_items s _)
    | inr under ↦ rw under refl
  ]

  put_content-keep_items :
      (s : BoltStorage) (k v : Bytes) → (put_content e s k v).0.keep_items ≡ s.keep_items
  unfolding put_content
  put_content-keep_items s k v = elim (Option-cases (e.put k v s.db)) [
    | inl refused ↦ rw (put_content, refused) refl
    | inr (b, put) ↦ rw (put_content, put) refl
  ]

  -- A save does not change how many items a flush keeps.
  pub save_content-keep_items :
      (s : BoltStorage) (c : ClipboardContent) → (save_content e s c).0.keep_items ≡ s.keep_items
  unfolding save_content
  save_content-keep_items s c = elim (Option-cases (e.marshal c)) [
    | inl m ↦ rw (save_content, m) refl
    | inr (v, m) ↦
        let counted = record s { cache_size = s.cache_size +ℤ pos (length v) } in
        let room = make_room e counted in
        rw (save_content, m)
          (update_tx-keep_items s (put_content e room (e.format c.created) v)
            (put_content-keep_items room (e.format c.created) v ∙ make_room-keep_items counted))
  ]
