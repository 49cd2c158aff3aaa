-- ===== src/Storage/Flush.antt =====
-- Flushing, in internal/storage/boltdb.go.
use mathlib.Core.Path.{subst}
use mathlib.Core.List.{reverse-cons, append_assoc, append-nil}
use native.Mathlib.Nat.{zero-add}
use clipman_daemon.Prelude.{
  ℕ, ◌+◌, ◌-◌, ◌≡◌, refl, sym, ap, ◌∙◌, true, false, ◌||◌, none, some, List, [], ◌∷◌, ◌++◌, reverse,
  Bytes, bytes_equal_refl, bytes_less-ne, length, take, drop, take-append-drop, take-reverse,
  drop-map, length-map, All, All-take, arith,
}
use clipman_daemon.Prelude.Int.{pos, ◌-ℤ◌, sub_zero}
use clipman_daemon.Content.{ClipboardContent}
use clipman_daemon.Storage.Cursor.{Bucket, remove, keys, IsAscending, Above}
use clipman_daemon.Storage.Services.{Backend, BackendLaws}
use clipman_daemon.Storage.{
  BoltStorage, account, update_tx, member, items_not_kept, collect_items_to_flush, delete_items,
  delete_items_from_bucket, flush_oldest_content, flush_cache,
}

member-append :
    (k : Bytes) (xs ys : List Bytes) → member k (xs ++ ys) ≡ (member k xs || member k ys)
unfolding member
member-append k [] ys = refl
member-append k (x ∷ xs) ys = ground (arith, member-append k xs ys)

member-reverse : (k : Bytes) (xs : List Bytes) → member k (reverse xs) ≡ member k xs
unfolding member
member-reverse k [] = refl
member-reverse k (x ∷ xs) =
    rw (reverse-cons x xs, member-append, member-reverse k xs) (ground arith)

member-Above : (k : Bytes) (m : Bucket) → Above k m → member k (keys m) ≡ false
unfolding member
member-Above k [] a = refl
member-Above k (e ∷ m) a = ground (arith, member-Above k m a.1, bytes_less-ne k e.0 a.0)

Above-append : (k : Bytes) (xs ys : Bucket) → Above k (xs ++ ys) → Above k ys
Above-append k [] ys a = a
Above-append k (x ∷ xs) ys a = Above-append k xs ys a.1

-- The lengths of the data of some items, added up.
unfoldable pub data_size : List ClipboardContent → ℕ
data_size [] = 0
data_size (c ∷ cs) = length c.content_data + data_size cs

module _ (e : Backend) where
  -- The value decodes to an item whose creation time, printed, is the key.
  abbrev pub IsItem : Bytes × Bytes → Type 0
  IsItem (k, v) = (c : ClipboardContent) × (e.unmarshal v ≡ some c) × (e.format c.created ≡ k)

  -- The items of a bucket, in the order of the keys.
  unfoldable pub items : Bucket → List ClipboardContent
  items [] = []
  items ((k, v) ∷ m) = elim (e.unmarshal v) [ none ↦ items m | some c ↦ c ∷ items m ]

  items_not_kept-All :
      (ks : List Bytes) (m : Bucket)
      → All (λ x. member x.0 ks ≡ true) m
      → items_not_kept e ks m ≡ []
  unfolding items_not_kept
  items_not_kept-All ks [] a = refl
  items_not_kept-All ks ((k, v) ∷ m) a = rw a.0 (items_not_kept-All ks m a.1)

  items_not_kept-append :
      (ks : List Bytes) (xs ys : Bucket)
      → All (λ x. member x.0 ks ≡ false) xs
      → items_not_kept e ks (xs ++ ys) ≡ items xs ++ items_not_kept e ks ys
  unfolding items_not_kept items
  items_not_kept-append ks [] ys a = refl
  items_not_kept-append ks ((k, v) ∷ xs) ys a =
      ground (arith, items_not_kept-append ks xs ys a.1, a.0)

  -- Deleting the items of the front of a bucket leaves the back.
  delete_items-append :
      (laws : BackendLaws e) (xs ys : Bucket) (n : ℕ)
      → All IsItem xs
      → delete_items e (xs ++ ys) (items xs) n ≡ (ys, some (n + data_size (items xs)))
  unfolding delete_items items data_size remove
  delete_items-append laws [] ys n a = ground arith
  delete_items-append laws ((k, v) ∷ xs) ys n a =
      let c = a.0.0 in
      let rest = delete_items-append laws xs ys (n + length c.content_data) a.1 in
      ground (arith, laws.delete_ok k ((k, v) ∷ (xs ++ ys)), bytes_equal_refl k, rest)

  -- What a flush removes: all but the last `keep_items` entries.
  abbrev pub oldest : BoltStorage → Bucket
  oldest s = take (length s.db - s.keep_items) s.db

  abbrev pub newest : BoltStorage → Bucket
  newest s = drop (length s.db - s.keep_items) s.db

  front_not_member :
      (xs ys : Bucket) → IsAscending (xs ++ ys) → All (λ x. member x.0 (keys ys) ≡ false) xs
  front_not_member [] ys a = tt
  front_not_member (x ∷ xs) ys a =
      (member-Above x.0 ys (Above-append x.0 xs ys a.0), front_not_member xs ys a.1)

  back_member : (ks : List Bytes) (ys : Bucket) → All (λ x. member x.0 (ks ++ keys ys) ≡ true) ys
  unfolding member
  back_member ks [] = tt
  back_member ks (y ∷ ys) = (
    rw (member-append, bytes_equal_refl y.0, member) (ground arith),
    subst (λ l. All (λ x. member x.0 l ≡ true) ys) (append_assoc ks (y.0 ∷ []) (keys ys))
        (back_member (ks ++ y.0 ∷ []) ys),
  )

  items_not_kept-reverse :
      (ks : List Bytes) (m : Bucket) → items_not_kept e (reverse ks) m ≡ items_not_kept e ks m
  unfolding items_not_kept
  items_not_kept-reverse ks [] = refl
  items_not_kept-reverse ks ((k, v) ∷ m) =
      ground (arith, member-reverse k ks, items_not_kept-reverse ks m)

  keep_keys_lem :
      (n : ℕ) (m : Bucket) → take n (reverse (keys m)) ≡ reverse (keys (drop (length m - n) m))
  keep_keys_lem n m = rw (take-reverse n (keys m), length-map, drop-map)

  items_not_kept_newest :
      (xs ys : Bucket) → IsAscending (xs ++ ys) → items_not_kept e (keys ys) (xs ++ ys) ≡ items xs
  items_not_kept_newest xs ys a =
      items_not_kept-append (keys ys) xs ys (front_not_member xs ys a)
      ∙ ap (λ l. items xs ++ l) (items_not_kept-All (keys ys) ys (back_member [] ys))
      ∙ append-nil (items xs)

  -- The items to flush are those of all entries but the last `keep_items`.
  pub collect_items_to_flush_lem :
      (s : BoltStorage) → IsAscending s.db → collect_items_to_flush e s ≡ items (oldest s)
  unfolding collect_items_to_flush
  collect_items_to_flush_lem s a =
      ap (λ ks. items_not_kept e ks s.db) (keep_keys_lem s.keep_items s.db)
      ∙ items_not_kept-reverse (keys (newest s)) s.db
      ∙ ap (items_not_kept e (keys (newest s))) (sym split)
      ∙ items_not_kept_newest (oldest s) (newest s) (subst IsAscending (sym split) a)
    where
      split : oldest s ++ newest s ≡ s.db
      split = take-append-drop (length s.db - s.keep_items) s.db

  -- The state after the items of the front of the bucket are deleted.
  abbrev pub deleted : BoltStorage → Bucket → Bucket → BoltStorage
  deleted s xs ys = record s { db = ys; cache_size = s.cache_size -ℤ pos (data_size (items xs)) }

  items-cons : (k v : Bytes) (m : Bucket) (x : IsItem (k, v)) → items ((k, v) ∷ m) ≡ x.0 ∷ items m
  unfolding items
  items-cons k v m x = rw (x.1, items)

  delete_items_cons :
      (s : BoltStorage) (c : ClipboardContent) (cs : List ClipboardContent)
      → delete_items_from_bucket e s (c ∷ cs) ≡ account s (delete_items e s.db (c ∷ cs) 0)
  unfolding delete_items_from_bucket
  delete_items_cons s c cs = refl

  delete_front :
      (laws : BackendLaws e) (s : BoltStorage) (xs ys : Bucket)
      → xs ++ ys ≡ s.db
      → All IsItem xs
      → delete_items_from_bucket e s (items xs) ≡ (deleted s xs ys, none)
  unfolding items data_size
  delete_front laws s [] ys q a =
      unfold delete_items_from_bucket in ground (arith, sub_zero s.cache_size)
  delete_front laws s ((k, v) ∷ xs) ys q a =
      ap (delete_items_from_bucket e s) ie
      ∙ delete_items_cons s a.0.0 (items xs)
      ∙ ap (λ l. account s (delete_items e s.db l 0)) (sym ie)
      ∙ ap (λ b. account s (delete_items e b (items ((k, v) ∷ xs)) 0)) (sym q)
      ∙ ap (account s) (delete_items-append laws ((k, v) ∷ xs) ys 0 a)
      ∙ rw zero-add refl
    where
      ie : items ((k, v) ∷ xs) ≡ a.0.0 ∷ items xs
      ie = items-cons k v xs a.0

  pub flush_oldest_lem :
      (laws : BackendLaws e) (s : BoltStorage)
      → IsAscending s.db
      → All IsItem s.db
      → flush_oldest_content e s ≡ (deleted s (oldest s) (newest s), none)
  unfolding flush_oldest_content
  flush_oldest_lem laws s asc a = rw (collect_items_to_flush_lem s asc) (
      delete_front laws s (oldest s) (newest s) (take-append-drop _ s.db)
        (All-take IsItem _ s.db a))

  -- A flush of a bucket whose entries are items, in the order of their keys, keeps the last
  -- `keep_items` entries, takes the data lengths of the others off the counter, and does not fail.
  pub flush_cache_lem :
      (laws : BackendLaws e) (s : BoltStorage)
      → IsAscending s.db
      → All IsItem s.db
      → flush_cache e s ≡ (deleted s (oldest s) (newest s), none)
  unfolding flush_cache
  flush_cache_lem laws s asc a = ap (update_tx s) (flush_oldest_lem laws s asc a)
