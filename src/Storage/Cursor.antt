-- ===== src/Storage/Cursor.antt =====
-- A bbolt bucket as its cursor walks it: pairs of key and value in ascending order of the keys.
use clipman_daemon.Prelude.{
  ℕ, zero, suc, ◌+◌, ◌≤◌, ◌≡◌, refl, drop, true, Option, none, some, List, [], ◌∷◌, map, arith,
  Bytes, bytes_equal, bytes_less, length, if◌then◌else◌, All, bytes_less_total, bytes_less_trans,
  bytes_equal_iff, bytes_equal_refl,
}

abbrev pub Bucket : Type 0
Bucket = List (Bytes × Bytes)

-- What Put leaves: the value under the key, the other entries as they were, in order.
unfoldable pub upsert : Bytes → Bytes → Bucket → Bucket
upsert k v [] = (k, v) ∷ []
upsert k v ((j, w) ∷ m) =
    if bytes_equal j k
    then (k, v) ∷ m
    else if bytes_less j k
    then (j, w) ∷ upsert k v m
    else (k, v) ∷ (j, w) ∷ m

-- What Delete leaves.
unfoldable pub remove : Bytes → Bucket → Bucket
remove k [] = []
remove k ((j, w) ∷ m) = if bytes_equal j k then m else (j, w) ∷ remove k m

-- c.Seek(min) and the entries after it: those from the first key that is not below `min`.
unfoldable pub seek : Bytes → Bucket → Bucket
seek min [] = []
seek min ((k, v) ∷ m) = if bytes_less k min then seek min m else (k, v) ∷ m

-- The entries before c.Seek(min), in descending order: what c.Prev walks from there.
unfoldable pub before_seek : Bytes → Bucket → Bucket → Bucket
before_seek min acc [] = acc
before_seek min acc ((k, v) ∷ m) =
    if bytes_less k min then before_seek min ((k, v) ∷ acc) m else acc

unfoldable pub value_of : Bytes → Bucket → Option Bytes
value_of k [] = none
value_of k ((j, w) ∷ m) = if bytes_equal j k then some w else value_of k m

abbrev pub keys : Bucket → List Bytes
keys = map (λ e. e.0)

-- len(k) + len(v), summed over the bucket.
unfoldable pub byte_size : Bucket → ℕ
byte_size [] = 0
byte_size ((k, v) ∷ m) = length k + length v + byte_size m

abbrev pub Above : Bytes → Bucket → Type 0
Above k = All (λ e. bytes_less k e.0 ≡ true)

-- The keys strictly ascend.
abbrev pub IsAscending : Bucket → Type 0
IsAscending [] = Unit
IsAscending ((k, v) ∷ m) = Above k m × IsAscending m

pub Above-trans : (j k : Bytes) (m : Bucket) → bytes_less j k ≡ true → Above k m → Above j m
Above-trans j k [] h a = tt
Above-trans j k (e ∷ m) h a = (bytes_less_trans j k e.0 h a.0, Above-trans j k m h a.1)

Above-upsert :
    (j k v : Bytes) (m : Bucket) → bytes_less j k ≡ true → Above j m → Above j (upsert k v m)
unfolding upsert
Above-upsert j k v [] h a = (h, tt)
Above-upsert j k v ((i, w) ∷ m) h a = ground (arith, Above-upsert j k v m h a.1)

pub upsert-IsAscending : (k v : Bytes) (m : Bucket) → IsAscending m → IsAscending (upsert k v m)
unfolding upsert
upsert-IsAscending k v [] a = (tt, tt)
upsert-IsAscending k v ((j, w) ∷ m) a = ground (
  arith,
  bytes_equal_iff j k,
  bytes_less_total j k,
  upsert-IsAscending k v m a.1,
  Above-upsert j k v m,
  Above-trans k j m,
)

Above-remove : (j k : Bytes) (m : Bucket) → Above j m → Above j (remove k m)
unfolding remove
Above-remove j k [] a = tt
Above-remove j k ((i, w) ∷ m) a = ground (arith, Above-remove j k m a.1)

pub remove-IsAscending : (k : Bytes) (m : Bucket) → IsAscending m → IsAscending (remove k m)
unfolding remove
remove-IsAscending k [] a = tt
remove-IsAscending k ((j, w) ∷ m) a =
    ground (arith, remove-IsAscending k m a.1, Above-remove j k m a.0)

pub value_of-upsert :
    (k j v : Bytes) (m : Bucket)
    → value_of j (upsert k v m) ≡ (if bytes_equal k j then some v else value_of j m)
unfolding value_of upsert
value_of-upsert k j v [] = refl
value_of-upsert k j v ((i, w) ∷ m) =
    ground (
      arith,
      bytes_equal_iff k j,
      bytes_equal_iff i k,
      bytes_equal_iff i j,
      value_of-upsert k j v m,
    )

pub length-upsert-le : (k v : Bytes) (m : Bucket) → length (upsert k v m) ≤ length m + 1
unfolding upsert
length-upsert-le k v [] = omega arith
length-upsert-le k v ((j, w) ∷ m) = ground (arith, length-upsert-le k v m)

pub drop-IsAscending : (n : ℕ) (m : Bucket) → IsAscending m → IsAscending (drop n m)
drop-IsAscending zero m a = a
drop-IsAscending (suc n) [] a = tt
drop-IsAscending (suc n) (e ∷ m) a = drop-IsAscending n m a.1

pub All-upsert :
    (P : Bytes × Bytes → Type 0) (k v : Bytes) (m : Bucket)
    → P (k, v)
    → All P m
    → All P (upsert k v m)
unfolding upsert
All-upsert P k v [] h a = (h, tt)
All-upsert P k v ((j, w) ∷ m) h a = ground (arith, All-upsert P k v m h a.1)

pub All-remove :
    (P : Bytes × Bytes → Type 0) (k : Bytes) (m : Bucket) → All P m → All P (remove k m)
unfolding remove
All-remove P k [] a = tt
All-remove P k ((j, w) ∷ m) a = ground (arith, All-remove P k m a.1)

-- Deleting a key that was put into a bucket without it gives the bucket back.
pub remove-upsert : (k v : Bytes) (m : Bucket) → value_of k m ≡ none → remove k (upsert k v m) ≡ m
unfolding remove upsert value_of
remove-upsert k v [] h = rw (bytes_equal_refl k)
remove-upsert k v ((j, w) ∷ m) h = ground (arith, bytes_equal_refl k, remove-upsert k v m)
