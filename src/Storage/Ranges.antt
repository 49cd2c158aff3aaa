-- ===== src/Storage/Ranges.antt =====
-- The range of entries that GetHistory of internal/storage/boltdb.go walks, and what it returns.
use mathlib.Core.List.{reverse-cons, append_assoc, append-nil}
use clipman_daemon.Prelude.{
  ◌≡◌, refl, sym, ap, ◌∙◌, Bool, true, false, not, none, some, List, [], ◌∷◌, ◌++◌, reverse, Bytes,
  if◌then◌else◌, arith, bytes_less, bytes_less_trans, All, Bool-cases, Option-cases, inl, inr, keep,
  ltb,
}
use clipman_daemon.Content.{Timestamp, HistoryOptions, is_zero}
use clipman_daemon.Storage.Cursor.{Bucket, seek, before_seek, IsAscending, Above}
use clipman_daemon.Storage.Services.{Backend}
use clipman_daemon.Storage.{BoltStorage}
use clipman_daemon.Storage.Reads.{start_entries, get_history, history_loop, accept_entry}
use clipman_daemon.Storage.History.{take_limit, take_limit-nil, accepted, history_loop_lem}

-- The entries whose keys are below `k`, and the others.
abbrev pub below : Bytes → Bucket → Bucket
below k = keep (λ x. bytes_less x.0 k)

abbrev pub from : Bytes → Bucket → Bucket
from k = keep (λ x. not (bytes_less x.0 k))

not_below_mono :
    (j i k : Bytes) → bytes_less j i ≡ true → bytes_less j k ≡ false → bytes_less i k ≡ false
not_below_mono j i k h n = elim (Bool-cases (bytes_less i k)) [
  | inl b ↦ cc (bytes_less_trans j i k h b)
  | inr b ↦ b
]

-- Once a key is not below `k`, no later one is.
none_below : (j k : Bytes) (m : Bucket) → bytes_less j k ≡ false → Above j m → below k m ≡ []
unfolding keep
none_below j k [] n a = refl
none_below j k ((i, v) ∷ m) n a = rw (not_below_mono j i k a.0 n) (none_below j k m n a.1)

all_from : (j k : Bytes) (m : Bucket) → bytes_less j k ≡ false → Above j m → from k m ≡ m
unfolding keep
all_from j k [] n a = refl
all_from j k ((i, v) ∷ m) n a =
    rw (not_below_mono j i k a.0 n) (ap (λ l. (i, v) ∷ l) (all_from j k m n a.1))

-- Seek stands on the first of the entries whose keys are not below.
pub seek_lem : (k : Bytes) (m : Bucket) → IsAscending m → seek k m ≡ from k m
unfolding seek keep
seek_lem k [] a = refl
seek_lem k ((j, v) ∷ m) a = elim (Bool-cases (bytes_less j k)) [
  | inl b ↦ rw b (seek_lem k m a.1)
  | inr n ↦ rw n (ap (λ l. (j, v) ∷ l) (sym (all_from j k m n a.0)))
]

before_seek_acc :
    (k : Bytes) (acc m : Bucket) → IsAscending m → before_seek k acc m ≡ reverse (below k m) ++ acc
unfolding before_seek keep
before_seek_acc k acc [] a = refl
before_seek_acc k acc ((j, v) ∷ m) a = elim (Bool-cases (bytes_less j k)) [
  | inl b ↦ rw b (
      before_seek_acc k ((j, v) ∷ acc) m a.1
      ∙ sym (
          ap (λ l. l ++ acc) (reverse-cons (j, v) (below k m))
          ∙ append_assoc (reverse (below k m)) ((j, v) ∷ []) acc))
  | inr n ↦ rw n (sym (ap (λ l. reverse l ++ acc) (none_below j k m n a.0)))
]

pub before_seek_lem :
    (k : Bytes) (m : Bucket) → IsAscending m → before_seek k [] m ≡ reverse (below k m)
before_seek_lem k m a = before_seek_acc k [] m a ∙ append-nil (reverse (below k m))

from_head : (k j v : Bytes) (r m : Bucket) → from k m ≡ (j, v) ∷ r → bytes_less j k ≡ false
unfolding keep
from_head k j v r [] h = cc
from_head k j v r ((i, w) ∷ m) h = ground (arith, from_head k j v r m)

abbrev pub is_nil {ℓ} : {A : Type ℓ} → List A → Bool
is_nil [] = true
is_nil (x ∷ l) = false

none_from : (k : Bytes) (m : Bucket) → All (λ x. bytes_less x.0 k ≡ true) m → from k m ≡ []
unfolding keep
none_from k [] a = refl
none_from k (x ∷ m) a = rw a.0 (none_from k m a.1)

module _ (e : Backend) where
  -- The entries that a query ranges over, in the order of the result. Forwards: those from the
  -- `since` key on, or all. Backwards: those below the `before` key, or all; but none at all if no
  -- key reaches the `before` key.
  unfoldable pub candidates : HistoryOptions → Bucket → Bucket
  candidates o b =
      if o.reversed
      then (if is_zero o.before
          then reverse b
          else if is_nil (from (e.format o.before) b)
          then []
          else reverse (below (e.format o.before) b))
      else if is_zero o.since
      then b
      else from (e.format o.since) b

  -- Going back, the walk starts before the entry that Seek finds.
  back_start :
      (o : HistoryOptions) (b l : Bucket)
      → IsAscending b
      → l ≡ from (e.format o.before) b
      → (elim l [
        | [] ↦ []
        | (k, v) ∷ _ ↦
            if not (bytes_less k (e.format o.before))
            then before_seek (e.format o.before) [] b
            else (k, v) ∷ before_seek (e.format o.before) [] b
      ])
        ≡ (if is_nil l then [] else reverse (below (e.format o.before) b))
  back_start o b [] a h = refl
  back_start o b ((k, v) ∷ r) a h =
      rw (from_head (e.format o.before) k v r b (sym h)) (before_seek_lem (e.format o.before) b a)

  start_entries_lem :
      (o : HistoryOptions) (b : Bucket) → IsAscending b → start_entries e o b ≡ candidates o b
  unfolding start_entries candidates
  start_entries_lem o b a = elim (Bool-cases o.reversed) [
    | inl back ↦ elim (Bool-cases (is_zero o.before)) [
      | inl z ↦ rw (back, z) refl
      | inr n ↦
          rw (back, n, seek_lem (e.format o.before) b a)
            (back_start o b (from (e.format o.before) b) a refl)
    ]
    | inr forth ↦ elim (Bool-cases (is_zero o.since)) [
      | inl z ↦ rw (forth, z) refl
      | inr n ↦ rw (forth, n) (seek_lem (e.format o.since) b a)
    ]
  ]

  -- For keys in ascending order, GetHistory returns the candidates that pass every test, in their
  -- order, and at most `Limit` of them where the limit is positive.
  pub get_history_lem :
      (s : BoltStorage) (o : HistoryOptions)
      → IsAscending s.db
      → get_history e s o ≡ take_limit o.limit (accepted e o (candidates o s.db))
  unfolding get_history
  get_history_lem s o a =
      ap (λ m. history_loop e o m 0) (start_entries_lem o s.db a)
      ∙ history_loop_lem e o (candidates o s.db)

  candidates_forth :
      (o : HistoryOptions) (b : Bucket)
      → o.reversed ≡ false
      → candidates o b ≡ (if is_zero o.since then b else from (e.format o.since) b)
  unfolding candidates
  candidates_forth o b h = ground arith

  candidates_back :
      (o : HistoryOptions) (b : Bucket)
      → o.reversed ≡ true
      → is_zero o.before ≡ false
      → from (e.format o.before) b ≡ []
      → candidates o b ≡ []
  unfolding candidates
  candidates_back o b h n f = rw (h, n, f) refl

  -- The time that a key stands for, compared with a bound, as the bytes of the keys compare.
  abbrev pub Agrees : Timestamp → Bytes × Bytes → Type 0
  Agrees bound x =
      (t : Timestamp)
      → e.parse x.0 ≡ some t
      → bytes_less x.0 (e.format bound) ≡ true
      → ltb t.instant bound.instant ≡ true

  accept_early :
      (o : HistoryOptions) (x : Bytes × Bytes)
      → Agrees o.since x
      → is_zero o.since ≡ false
      → bytes_less x.0 (e.format o.since) ≡ true
      → accept_entry e o x ≡ none
  unfolding accept_entry
  accept_early o (k, v) agrees n b = elim (Option-cases (e.parse k)) [
    | inl p ↦ rw (p, accept_entry) refl
    | inr (t, p) ↦ rw (p, accept_entry) (ground (arith, agrees t p b))
  ]

  accepted-from :
      (o : HistoryOptions) (b : Bucket)
      → is_zero o.since ≡ false
      → All (Agrees o.since) b
      → accepted e o (from (e.format o.since) b) ≡ accepted e o b
  unfolding accepted keep
  accepted-from o [] n a = refl
  accepted-from o (x ∷ b) n a = elim (Bool-cases (bytes_less x.0 (e.format o.since))) [
    | inl early ↦ rw (early, accept_early o x a.0 n early, accepted) (accepted-from o b n a.1)
    | inr late ↦ rw late (ground (arith, accepted-from o b n a.1))
  ]

  -- Forwards, where the keys compare with the `Since` key as their times do, the result is what the
  -- tests alone select from the whole bucket: the Seek loses nothing.
  pub get_history_forwards :
      (s : BoltStorage) (o : HistoryOptions)
      → IsAscending s.db
      → o.reversed ≡ false
      → All (Agrees o.since) s.db
      → get_history e s o ≡ take_limit o.limit (accepted e o s.db)
  get_history_forwards s o a forth agrees =
      get_history_lem s o a
      ∙ ap (λ m. take_limit o.limit (accepted e o m)) (candidates_forth o s.db forth)
      ∙ ap (take_limit o.limit) (whole (is_zero o.since) refl)
    where
      whole :
          (z : Bool)
          → is_zero o.since ≡ z
          → accepted e o (if is_zero o.since then s.db else from (e.format o.since) s.db)
            ≡ accepted e o s.db
      whole true z = rw z refl
      whole false z = rw z (accepted-from o s.db z agrees)

  -- Backwards from a `Before` time whose key is above every key, nothing is returned, whatever the
  -- bucket holds.
  pub get_history_before_end :
      (s : BoltStorage) (o : HistoryOptions)
      → IsAscending s.db
      → o.reversed ≡ true
      → is_zero o.before ≡ false
      → All (λ x. bytes_less x.0 (e.format o.before) ≡ true) s.db
      → get_history e s o ≡ []
  unfolding accepted
  get_history_before_end s o a back n above =
      get_history_lem s o a
      ∙ ap (λ m. take_limit o.limit (accepted e o m))
          (candidates_back o s.db back n (none_from (e.format o.before) s.db above))
      ∙ take_limit-nil o.limit
