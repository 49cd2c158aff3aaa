-- ===== src/Platform/Formats.antt =====
-- The comparisons of format lists, the shortening of strings and the image signatures of
-- internal/platform/clipboard_linux.go.
use clipman_daemon.Prelude.{
  ℕ, ◌≡◌, refl, ◌↔◌, ==_iff, Bool, true, false, not, ◌==◌, List, [], ◌∷◌, ◌++◌, Bytes, codes,
  bytes_equal, bytes_equal_refl, length, take, leb, if◌then◌else◌, arith, All, Bool-cases, inl, inr,
}

unfoldable pub contains : List Bytes → Bytes → Bool
contains [] item = false
contains (s ∷ slice) item = if bytes_equal s item then true else contains slice item

unfoldable pub contains_any : List Bytes → List Bytes → Bool
unfolding contains
contains_any slice [] = false
contains_any slice (item ∷ items) = if contains slice item then true else contains_any slice items

-- The second loop of `formatsEqual`: every element is a key of the map, which holds the elements of
-- `a`.
unfoldable pub all_in : List Bytes → List Bytes → Bool
all_in a [] = true
all_in a (v ∷ b) = if contains a v then all_in a b else false

unfoldable pub formats_equal : List Bytes → List Bytes → Bool
unfolding all_in
formats_equal a b = if not (length a == length b) then false else all_in a b

-- `truncateString`
unfoldable pub truncate_string : Bytes → ℕ → Bytes
truncate_string s max_len = if leb (length s) max_len then s else take max_len s ++ codes "..."

all_in-All : (a b : List Bytes) → (all_in a b ≡ true) ↔ All (λ v. contains a v ≡ true) b
unfolding all_in
all_in-All a [] = (λ h. tt, λ h. refl)
all_in-All a (v ∷ b) = elim (Bool-cases (contains a v)) [
  | inl there ↦ (
    λ h. (there, (all_in-All a b).0 (rw (all_in, there) at h)),
    λ h. rw (there) ((all_in-All a b).1 h.1),
  )
  | inr missing ↦ (λ h. cc (rw (all_in, missing) at h), λ h. cc (rw missing at h.0))
]

-- The comparison says that the lengths agree and that every format of the second list is in the
-- first, and no more.
pub formats_equal_iff :
    (a b : List Bytes)
    → (formats_equal a b ≡ true) ↔ ((length a ≡ length b) × All (λ v. contains a v ≡ true) b)
unfolding formats_equal
formats_equal_iff a b = elim (Bool-cases (length a == length b)) [
  | inl same ↦ (
    λ h.
        ((==_iff (length a) (length b)).0 same, (all_in-All a b).0 (rw (formats_equal, same) at h)),
    λ h. rw same ((all_in-All a b).1 h.1),
  )
  | inr differ ↦ (λ h. cc (rw (formats_equal, differ) at h), λ h. ground (arith, h.0, differ))
]

-- The comparison depends on the order of its arguments: two different formats count as equal to the
-- first of them twice, but not the other way round.
pub formats_equal_repeats :
    (x y : Bytes)
    → bytes_equal x y ≡ false
    → (formats_equal (x ∷ y ∷ []) (x ∷ x ∷ []) ≡ true)
      × (formats_equal (x ∷ x ∷ []) (x ∷ y ∷ []) ≡ false)
unfolding formats_equal all_in contains
formats_equal_repeats x y h = rw (bytes_equal_refl x, h) (refl, refl)
