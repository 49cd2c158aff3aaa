-- ===== src/Text/Trim.antt =====
-- Trimming white space once is enough.
use mathlib.Core.List.{reverse-append, reverse-reverse}
use clipman_daemon.Prelude.{
  ℕ, zero, suc, ◌≤◌, length, length-reverse, ◌≡◌, refl, sym, ap, ◌∙◌, [], ◌∷◌, ◌++◌, reverse, Bytes,
  arith,
}
use clipman_daemon.Text.{space_size, space_size_rev, strip, trim_space}

-- No character that `size` finds stands at the front.
abbrev Stripped : (Bytes → ℕ) → Bytes → Type 0
Stripped size s = size s ≡ 0

module _ (size : Bytes → ℕ) (empty : size [] ≡ 0) where
  strip-Stripped : (skip : ℕ) (s : Bytes) → Stripped size (strip size skip s)
  unfolding strip
  strip-Stripped skip [] = empty
  strip-Stripped (suc skip) (x ∷ r) = strip-Stripped skip r
  strip-Stripped zero (x ∷ r) = found (size (x ∷ r)) refl (λ n. strip-Stripped n r)
    where
      found :
          (n : ℕ)
          → size (x ∷ r) ≡ n
          → ((k : ℕ) → Stripped size (strip size k r))
          → Stripped size (elim n [ zero ↦ x ∷ r | suc k ↦ strip size k r ])
      found zero h ih = h
      found (suc k) h ih = ih k

  strip_of_Stripped : (s : Bytes) → Stripped size s → strip size zero s ≡ s
  unfolding strip
  strip_of_Stripped [] h = refl
  strip_of_Stripped (x ∷ r) h = rw (h, strip) refl

  strip_suffix : (skip : ℕ) (s : Bytes) → (p : Bytes) × (p ++ strip size skip s ≡ s)
  unfolding strip
  strip_suffix skip [] = ([], refl)
  strip_suffix (suc skip) (x ∷ r) = let (p, h) = strip_suffix skip r in (x ∷ p, ap (λ l. x ∷ l) h)
  strip_suffix zero (x ∷ r) = found (size (x ∷ r)) (λ n. strip_suffix n r)
    where
      found :
          (n : ℕ)
          → ((k : ℕ) → (p : Bytes) × (p ++ strip size k r ≡ r))
          → (p : Bytes) × (p ++ elim n [ zero ↦ x ∷ r | suc k ↦ strip size k r ] ≡ x ∷ r)
      found zero ih = ([], refl)
      found (suc k) ih = let (p, h) = ih k in (x ∷ p, ap (λ l. x ∷ l) h)

-- A front that no longer begins with white space does not begin with it when its end is cut off.
space_size_prefix : (y z : Bytes) → space_size (y ++ z) ≡ 0 → space_size y ≡ 0
unfolding space_size
space_size_prefix [] z h = refl
space_size_prefix (a ∷ []) [] h = h
space_size_prefix (a ∷ []) (b ∷ []) h = ground arith
space_size_prefix (a ∷ []) (b ∷ c ∷ z) h = ground arith
space_size_prefix (a ∷ b ∷ []) [] h = h
space_size_prefix (a ∷ b ∷ []) (c ∷ z) h = ground arith
space_size_prefix (a ∷ b ∷ c ∷ r) z h = h

space_size-nil : space_size [] ≡ 0
unfolding space_size
space_size-nil = refl

space_size_rev-nil : space_size_rev [] ≡ 0
unfolding space_size_rev
space_size_rev-nil = refl

-- Trimming a text a second time changes nothing.
pub trim_space_idem : (s : Bytes) → trim_space (trim_space s) ≡ trim_space s
unfolding trim_space
trim_space_idem s =
    ap (λ x. reverse (strip space_size_rev zero (reverse x)))
      (strip_of_Stripped space_size space_size-nil (reverse t) (
        space_size_prefix (reverse t) (reverse p)
          (ap space_size (sym front) ∙ strip-Stripped space_size space_size-nil zero s)))
    ∙ ap (λ x. reverse (strip space_size_rev zero x)) (reverse-reverse t)
    ∙ ap reverse (
        strip_of_Stripped space_size_rev space_size_rev-nil t
          (strip-Stripped space_size_rev space_size_rev-nil zero (reverse l)))
  where
    l : Bytes
    l = strip space_size zero s

    t : Bytes
    t = strip space_size_rev zero (reverse l)

    p : Bytes
    p = (strip_suffix space_size_rev space_size_rev-nil zero (reverse l)).0

    front : l ≡ reverse t ++ reverse p
    front =
        sym (reverse-reverse l)
        ∙ ap reverse (sym ((strip_suffix space_size_rev space_size_rev-nil zero (reverse l)).1))
        ∙ reverse-append p t

length-strip : (size : Bytes → ℕ) (skip : ℕ) (s : Bytes) → length (strip size skip s) ≤ length s
unfolding strip
length-strip size skip [] = omega arith
length-strip size (suc skip) (x ∷ r) = omega (arith, length-strip size skip r)
length-strip size zero (x ∷ r) = found (size (x ∷ r)) (λ n. length-strip size n r)
  where
    found :
        (n : ℕ)
        → ((k : ℕ) → length (strip size k r) ≤ length r)
        → length (elim n [ zero ↦ x ∷ r | suc k ↦ strip size k r ]) ≤ suc (length r)
    found zero ih = omega arith
    found (suc k) ih = omega (arith, ih k)

-- Trimming never makes a text longer.
pub length-trim_space-le : (s : Bytes) → length (trim_space s) ≤ length s
unfolding trim_space
length-trim_space-le s = omega (
  arith,
  length-reverse (strip space_size_rev zero (reverse (strip space_size zero s))),
  length-strip space_size_rev zero (reverse (strip space_size zero s)),
  length-reverse (strip space_size zero s),
  length-strip space_size zero s,
)
