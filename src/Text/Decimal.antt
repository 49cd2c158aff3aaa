-- ===== src/Text/Decimal.antt =====
-- Numbers as Go's fmt prints them with %d.
use native.Mathlib.Nat.{pow-suc}
use clipman_daemon.Prelude.{
  ℕ, zero, suc, ◌+◌, ◌-◌, ◌*◌, ◌/◌, ◌%◌, ◌^◌, ◌<◌, ◌≡◌, refl, ap, ◌∙◌, inl, inr, true, false, [],
  ◌∷◌, ◌++◌, Bytes, ltb, arith, Bool-cases,
}

-- A number below 10 ^ fuel.
unfoldable pub digits : ℕ → ℕ → Bytes
digits zero n = []
digits (suc fuel) n = elim (ltb n 10) [
  | true ↦ (b'0' + n) ∷ []
  | false ↦ digits fuel (n / 10) ++ ((b'0' + n % 10) ∷ [])
]

-- An int has at most 19 digits.
unfoldable pub decimal : ℕ → Bytes
unfolding digits
decimal n = digits 20 n

-- The value of a text of digits, after the value `v`.
abbrev pub value : ℕ → Bytes → ℕ
value v [] = v
value v (d ∷ ds) = value (v * 10 + (d - b'0')) ds

value-append : (v d : ℕ) (ds : Bytes) → value v (ds ++ (d ∷ [])) ≡ value v ds * 10 + (d - b'0')
value-append v d [] = refl
value-append v d (x ∷ ds) = value-append (v * 10 + (x - b'0')) d ds

value-digits : (fuel n : ℕ) → n < 10 ^ fuel → 0 < fuel → value 0 (digits fuel n) ≡ n
unfolding digits
value-digits zero n h k = absurd (omega (arith, k))
value-digits (suc zero) n h k = elim (Bool-cases (ltb n 10)) [
  | inl small ↦ rw (digits, small) (omega arith)
  | inr large ↦ absurd (ground (arith, h, large))
]
value-digits (suc (suc fuel)) n h k = elim (Bool-cases (ltb n 10)) [
  | inl small ↦ rw (digits, small) (omega arith)
  | inr large ↦
      let grows : 10 ^ suc (suc fuel) ≡ 10 ^ suc fuel * 10 = pow-suc 10 (suc fuel) in
      let below : n / 10 < 10 ^ suc fuel = omega (arith, grows, h) in
      rw (digits, large)
        (value-append 0 (b'0' + n % 10) (digits (suc fuel) (n / 10))
          ∙ ap (λ m. m * 10 + (b'0' + n % 10 - b'0'))
              (value-digits (suc fuel) (n / 10) below (omega arith))
          ∙ omega arith)
]

-- A number that fits in an int is read back from its digits.
pub value-decimal : (n : ℕ) → n < 2 ^ 63 → value 0 (decimal n) ≡ n
unfolding decimal
value-decimal n h = value-digits 20 n (omega (arith, h)) (omega arith)
