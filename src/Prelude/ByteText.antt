-- ===== src/Prelude/ByteText.antt =====
-- Go's `string` and `[]byte` as lists of byte values, with the comparisons of package `bytes`.
use Prim.Native.Char.{code}
use Prim.Native.String.{String}
use Prim.Native.Nat.{ℕ}
use mathlib.Core.Path.{◌≡◌, refl}
use mathlib.Core.Logic.{◌↔◌}
use mathlib.Core.Bool.{Bool, true, false, ◌&&◌, ◌||◌}
use mathlib.Core.List.{List, [], ◌∷◌}
use native.Mathlib.Omega.{arith}
use clipman_daemon.Prelude.Tests.{ltb, ◌==◌}

abbrev pub Bytes : Type 0
Bytes = List ℕ

-- A literal of the source, as its bytes (all literals of the source are ASCII).
abbrev pub codes : String → Bytes
codes String.[] = []
codes (String.◌∷◌ c s) = code c ∷ codes s

-- bytes.Equal, and == on strings
unfoldable pub bytes_equal : Bytes → Bytes → Bool
bytes_equal [] [] = true
bytes_equal [] (b ∷ bs) = false
bytes_equal (a ∷ as') [] = false
bytes_equal (a ∷ as') (b ∷ bs) = a == b && bytes_equal as' bs

pub bytes_equal_refl : (a : Bytes) → bytes_equal a a ≡ true
unfolding bytes_equal
bytes_equal_refl [] = refl
bytes_equal_refl (a ∷ as') = ground (arith, bytes_equal_refl as')

pub bytes_equal_sound : (a b : Bytes) → bytes_equal a b ≡ true → a ≡ b
unfolding bytes_equal
bytes_equal_sound [] [] h = refl
bytes_equal_sound [] (b ∷ bs) h = cc
bytes_equal_sound (a ∷ as') [] h = cc
bytes_equal_sound (a ∷ as') (b ∷ bs) h = ground (arith, bytes_equal_sound as' bs)

pub bytes_equal_iff : (a b : Bytes) → (bytes_equal a b ≡ true) ↔ (a ≡ b)
bytes_equal_iff a b = (bytes_equal_sound a b, λ e. rw e (bytes_equal_refl b))

-- bytes.Compare(a, b) < 0: the lexicographic order.
unfoldable pub bytes_less : Bytes → Bytes → Bool
bytes_less a [] = false
bytes_less [] (b ∷ bs) = true
bytes_less (a ∷ as') (b ∷ bs) = ltb a b || (a == b && bytes_less as' bs)

-- bytes.HasPrefix(s, p)
unfoldable pub has_prefix : Bytes → Bytes → Bool
has_prefix s [] = true
has_prefix [] (p ∷ ps) = false
has_prefix (c ∷ cs) (p ∷ ps) = c == p && has_prefix cs ps

-- strings.Contains(s, p)
unfoldable pub contains : Bytes → Bytes → Bool
unfolding has_prefix
contains [] p = has_prefix [] p
contains (c ∷ cs) p = has_prefix (c ∷ cs) p || contains cs p

pub bytes_less_irrefl : (a : Bytes) → bytes_less a a ≡ false
unfolding bytes_less
bytes_less_irrefl [] = refl
bytes_less_irrefl (a ∷ as') = ground (arith, bytes_less_irrefl as')

pub bytes_less_trans :
    (a b c : Bytes) → bytes_less a b ≡ true → bytes_less b c ≡ true → bytes_less a c ≡ true
unfolding bytes_less
bytes_less_trans a [] c h k = cc
bytes_less_trans a (b ∷ bs) [] h k = cc
bytes_less_trans [] (b ∷ bs) (c ∷ cs) h k = refl
bytes_less_trans (a ∷ as') (b ∷ bs) (c ∷ cs) h k = ground (arith, bytes_less_trans as' bs cs)

-- Of two texts that are not equal, one is the smaller.
pub bytes_less_total :
    (a b : Bytes) → bytes_less a b ≡ false → bytes_equal a b ≡ false → bytes_less b a ≡ true
unfolding bytes_less bytes_equal
bytes_less_total [] [] h k = cc
bytes_less_total [] (b ∷ bs) h k = cc
bytes_less_total (a ∷ as') [] h k = refl
bytes_less_total (a ∷ as') (b ∷ bs) h k = ground (arith, bytes_less_total as' bs)

pub bytes_less-ne : (a b : Bytes) → bytes_less a b ≡ true → bytes_equal a b ≡ false
unfolding bytes_less bytes_equal
bytes_less-ne [] [] h = cc
bytes_less-ne [] (b ∷ bs) h = refl
bytes_less-ne (a ∷ as') [] h = refl
bytes_less-ne (a ∷ as') (b ∷ bs) h = ground (arith, bytes_less-ne as' bs)

pub bytes_equal_sym : (a b : Bytes) → bytes_equal a b ≡ bytes_equal b a
unfolding bytes_equal
bytes_equal_sym [] [] = refl
bytes_equal_sym [] (b ∷ bs) = refl
bytes_equal_sym (a ∷ as') [] = refl
bytes_equal_sym (a ∷ as') (b ∷ bs) = ground (arith, bytes_equal_sym as' bs)
