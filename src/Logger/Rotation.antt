-- ===== src/Logger/Rotation.antt =====
-- `cleanOldLogs` of pkg/utils/logger.go: the rotated files that are removed and those that stay.
use mathlib.Core.List.{Perm}
use mathlib.Core.List.Perm
use Prim.Native.Nat.{min}
use clipman_daemon.Prelude.Int.{ℤ, pos, pos_part, ltb_ℤ}
use clipman_daemon.Prelude.{
  Bool, not, ◌||◌, bytes_equal, ℕ, zero, suc, ◌-◌, ◌≤◌, ◌≡◌, refl, inl, inr, Option, none, some,
  List, [], ◌∷◌, ◌++◌, Bytes, length, take, drop, ltb, leb, if◌then◌else◌, arith, All, Bool-cases,
  take-append-drop, length-drop,
}

-- A file that os.Stat finds.
pub record FileInfo : Type 0 where
  pub path : Bytes
  pub mod_time : ℕ

-- One pass of the inner loop: the file at `i`, exchanged for each older one that follows.
unfoldable pub exchange : FileInfo → List FileInfo → FileInfo × List FileInfo
exchange f [] = (f, [])
exchange f (g ∷ files) =
    let taken = exchange g files in
    let left = exchange f files in
    if ltb g.mod_time f.mod_time then (taken.0, f ∷ taken.1) else (left.0, g ∷ left.1)

-- The outer loop over `n` files.
unfoldable pub sort_files : ℕ → List FileInfo → List FileInfo
unfolding exchange
sort_files zero files = files
sort_files (suc n) [] = []
sort_files (suc n) (f ∷ files) =
    let r = exchange f files in let rest = sort_files n r.1 in r.0 ∷ rest

-- The matches of the pattern that os.Stat finds.
unfoldable pub found : List (Option FileInfo) → List FileInfo
found [] = []
found (none ∷ matches) = found matches
found (some f ∷ matches) = f ∷ found matches

-- From the count of the matches on.
unfoldable pub remove_oldest : ℕ → List (Option FileInfo) → List FileInfo × List FileInfo
unfolding found sort_files
remove_oldest max_files matches =
    let files = found matches in
    let sorted = sort_files (length files) files in
    if leb (length matches) max_files
    then ([], files)
    else (take (length files - max_files) sorted, drop (length files - max_files) sorted)

-- Without a path of the log, or without a limit that is positive, nothing is removed.
abbrev pub keeps_all : Bytes → ℤ → Bool
keeps_all log_path max_files = bytes_equal log_path [] || not (ltb_ℤ (pos 0) max_files)

-- The files that are removed, oldest first, and those that stay of the ones that were found; an error of
-- filepath.Glob finds none.
unfoldable pub clean_old_logs : Bytes → ℤ → List (Option FileInfo) → List FileInfo × List FileInfo
unfolding found remove_oldest
clean_old_logs log_path max_files matches =
    if keeps_all log_path max_files
    then ([], found matches)
    else remove_oldest (pos_part max_files) matches

abbrev Older : FileInfo → FileInfo → Type 0
Older f g = f.mod_time ≤ g.mod_time

abbrev Sorted : List FileInfo → Type 0
Sorted [] = Unit
Sorted (f ∷ files) = All (Older f) files × Sorted files

exchange-perm :
    (f : FileInfo) (files : List FileInfo)
    → Perm ((exchange f files).0 ∷ (exchange f files).1) (f ∷ files)
unfolding exchange
exchange-perm f [] = Perm.rfl
exchange-perm f (g ∷ files) = elim (Bool-cases (ltb g.mod_time f.mod_time)) [
  | inl older ↦
      rw (exchange, older)
        (Perm.trans (Perm.swap f (exchange g files).0 (exchange g files).1)
          (Perm.cons f (exchange-perm g files)))
  | inr newer ↦
      rw (exchange, newer)
        (Perm.trans (Perm.swap g (exchange f files).0 (exchange f files).1)
          (Perm.trans (Perm.cons g (exchange-perm f files)) (Perm.swap f g files)))
]

All-trans :
    (f g : FileInfo) (files : List FileInfo) → Older f g → All (Older g) files → All (Older f) files
All-trans f g [] h k = tt
All-trans f g (x ∷ files) h k = (omega (arith, h, k.0), All-trans f g files h k.1)

exchange-Older :
    (f : FileInfo) (files : List FileInfo)
    → Older (exchange f files).0 f × All (Older (exchange f files).0) (exchange f files).1
unfolding exchange
exchange-Older f [] = (omega arith, tt)
exchange-Older f (g ∷ files) = elim (Bool-cases (ltb g.mod_time f.mod_time)) [
  | inl older ↦
      let ih = exchange-Older g files in
      let below : Older (exchange g files).0 f = ground (arith, ih.0, older) in
      rw (exchange, older) (below, (below, ih.1))
  | inr newer ↦
      let ih = exchange-Older f files in
      rw (exchange, newer) (ih.0, (ground (arith, ih.0, newer), ih.1))
]

length-exchange :
    (f : FileInfo) (files : List FileInfo) → length (exchange f files).1 ≡ length files
unfolding exchange
length-exchange f [] = refl
length-exchange f (g ∷ files) = ground (arith, length-exchange f files, length-exchange g files)

sort_files-perm : (n : ℕ) (files : List FileInfo) → Perm (sort_files n files) files
unfolding sort_files
sort_files-perm zero files = Perm.rfl
sort_files-perm (suc n) [] = Perm.rfl
sort_files-perm (suc n) (f ∷ files) =
    Perm.trans (Perm.cons (exchange f files).0 (sort_files-perm n (exchange f files).1))
      (exchange-perm f files)

length-sort_files : (n : ℕ) (files : List FileInfo) → length (sort_files n files) ≡ length files
unfolding sort_files
length-sort_files zero files = refl
length-sort_files (suc n) [] = refl
length-sort_files (suc n) (f ∷ files) =
    omega (arith, length-sort_files n (exchange f files).1, length-exchange f files)

exchange-All :
    (x f : FileInfo) (files : List FileInfo)
    → Older x f
    → All (Older x) files
    → Older x (exchange f files).0 × All (Older x) (exchange f files).1
unfolding exchange
exchange-All x f [] h k = (h, tt)
exchange-All x f (g ∷ files) h k = elim (Bool-cases (ltb g.mod_time f.mod_time)) [
  | inl older ↦ let ih = exchange-All x g files k.0 k.1 in rw (exchange, older) (ih.0, (h, ih.1))
  | inr newer ↦ let ih = exchange-All x f files h k.1 in rw (exchange, newer) (ih.0, (k.0, ih.1))
]

sort_files-All :
    (x : FileInfo) (n : ℕ) (files : List FileInfo)
    → All (Older x) files
    → All (Older x) (sort_files n files)
unfolding sort_files
sort_files-All x zero files h = h
sort_files-All x (suc n) [] h = tt
sort_files-All x (suc n) (f ∷ files) h =
    let r = exchange-All x f files h.0 h.1 in (r.0, sort_files-All x n (exchange f files).1 r.1)

sort_files-Sorted : (n : ℕ) (files : List FileInfo) → length files ≤ n → Sorted (sort_files n files)
unfolding sort_files
sort_files-Sorted zero [] h = tt
sort_files-Sorted zero (f ∷ files) h = absurd (omega (arith, h))
sort_files-Sorted (suc n) [] h = tt
sort_files-Sorted (suc n) (f ∷ files) h = (
  sort_files-All (exchange f files).0 n (exchange f files).1 (exchange-Older f files).1,
  sort_files-Sorted n (exchange f files).1 (omega (arith, h, length-exchange f files)),
)

All-drop-Older :
    (f : FileInfo) (n : ℕ) (files : List FileInfo)
    → All (Older f) files
    → All (Older f) (drop n files)
All-drop-Older f zero files h = h
All-drop-Older f (suc n) [] h = tt
All-drop-Older f (suc n) (g ∷ files) h = All-drop-Older f n files h.1

take-drop-Older :
    (n : ℕ) (files : List FileInfo)
    → Sorted files
    → All (λ f. All (Older f) (drop n files)) (take n files)
take-drop-Older zero files h = tt
take-drop-Older (suc n) [] h = tt
take-drop-Older (suc n) (f ∷ files) h = (All-drop-Older f n files h.0, take-drop-Older n files h.1)

length-found : (matches : List (Option FileInfo)) → length (found matches) ≤ length matches
unfolding found
length-found [] = omega arith
length-found (none ∷ matches) = omega (arith, length-found matches)
length-found (some f ∷ matches) = omega (arith, length-found matches)

-- The same, from the count of the matches on.
remove_oldest-perm :
    (max_files : ℕ) (matches : List (Option FileInfo))
    → Perm
        ((remove_oldest max_files matches).0 ++ (remove_oldest max_files matches).1)
        (found matches)
      × (length (remove_oldest max_files matches).1 ≡ min max_files (length (found matches)))
      × All
          (λ f. All (Older f) (remove_oldest max_files matches).1)
          (remove_oldest max_files matches).0
unfolding remove_oldest
remove_oldest-perm max_files matches = elim (Bool-cases (leb (length matches) max_files)) [
  | inl few ↦ rw few (Perm.rfl, ground (arith, few, length-found matches), tt)
  | inr many ↦
      let files = found matches in
      let sorted = sort_files (length files) files in
      let n = length files - max_files in
      rw many (
        rw (take-append-drop n sorted) (sort_files-perm (length files) files),
        omega (arith, length-drop n sorted, length-sort_files (length files) files),
        take-drop-Older n sorted (sort_files-Sorted (length files) files (omega arith)),
      )
]

-- The files that are removed and those that stay are together the ones that were found; all stay if the
-- log has no path or the limit is not positive, and else as many as may, or all; and none that is removed
-- is newer than one that stays.
pub clean_old_logs-perm :
    (log_path : Bytes) (max_files : ℤ) (matches : List (Option FileInfo))
    → Perm
        ((clean_old_logs log_path max_files matches).0
          ++ (clean_old_logs log_path max_files matches).1)
        (found matches)
      × (length (clean_old_logs log_path max_files matches).1 ≡ (
          if keeps_all log_path max_files
          then length (found matches)
          else min (pos_part max_files) (length (found matches))))
      × All
          (λ f. All (Older f) (clean_old_logs log_path max_files matches).1)
          (clean_old_logs log_path max_files matches).0
unfolding clean_old_logs
clean_old_logs-perm log_path max_files matches = elim (Bool-cases (keeps_all log_path max_files)) [
  | inl all ↦ rw (clean_old_logs, all) (Perm.rfl, refl, tt)
  | inr some_go ↦ rw (clean_old_logs, some_go) (remove_oldest-perm (pos_part max_files) matches)
]
