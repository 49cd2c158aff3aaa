-- ===== src/Sync/Pairing/Code.antt =====
-- The verification code of internal/sync/pairing.go. HMAC-SHA256 is the standard library's.
use clipman_daemon.Prelude.{
  ℕ, ◌+◌, ◌-◌, ◌*◌, ◌/◌, ◌%◌, ◌^◌, ◌≤◌, ◌<◌, ◌≡◌, refl, ap, ◌∙◌, [], ◌∷◌, ◌++◌, Bytes, length, All,
  arith, take,
}

-- hmac.New(sha256.New, key), the message written, and the sum.
abbrev pub Hmac : Type 0
Hmac = Bytes → Bytes → Bytes

abbrev pub auth_code_length : ℕ
auth_code_length = 4

-- code = (code << 8) | uint32(digest[i]), on 32 bits; the low byte is free after the shift.
unfoldable pub shift_in : ℕ → Bytes → ℕ
shift_in code [] = code
shift_in code (b ∷ bs) = shift_in (code * 256 % 2 ^ 32 + b) bs

-- "%06d" of a number below 1000000
unfoldable pub six_digits : ℕ → Bytes
six_digits n =
    (b'0' + n / 100000 % 10)
    ∷ (b'0' + n / 10000 % 10)
    ∷ (b'0' + n / 1000 % 10)
    ∷ (b'0' + n / 100 % 10)
    ∷ (b'0' + n / 10 % 10)
    ∷ (b'0' + n % 10)
    ∷ []

unfoldable pub generate_verification_code : Hmac → Bytes → Bytes → Bytes
unfolding shift_in six_digits
generate_verification_code hmac initiator_random responder_random =
    let combined = initiator_random ++ responder_random in
    six_digits (shift_in 0 (take auth_code_length (hmac combined combined)) % 1000000)

-- The number that decimal digits spell.
unfoldable pub read_digits : ℕ → Bytes → ℕ
read_digits n [] = n
read_digits n (b ∷ bs) = read_digits (n * 10 + (b - b'0')) bs

unfoldable pub IsDigit : ℕ → Type 0
IsDigit b = (b'0' ≤ b) × (b ≤ b'9')

decimal-IsDigit : (n : ℕ) → IsDigit (b'0' + n % 10)
unfolding IsDigit
decimal-IsDigit n = (omega arith, omega arith)

six_digits-IsDigit : (n : ℕ) → All IsDigit (six_digits n)
unfolding six_digits
six_digits-IsDigit n = (
  decimal-IsDigit (n / 100000),
  (
    decimal-IsDigit (n / 10000),
    (
      decimal-IsDigit (n / 1000),
      (decimal-IsDigit (n / 100), (decimal-IsDigit (n / 10), (decimal-IsDigit n, tt))),
    ),
  ),
)

read-six_digits : (n : ℕ) → n < 1000000 → read_digits 0 (six_digits n) ≡ n
unfolding read_digits six_digits
read-six_digits n h = omega arith

-- A verification code is six decimal digits.
pub generate_verification_code-IsDigit :
    (hmac : Hmac) (i r : Bytes)
    → (length (generate_verification_code hmac i r) ≡ 6)
      × All IsDigit (generate_verification_code hmac i r)
unfolding generate_verification_code six_digits
generate_verification_code-IsDigit hmac i r = (
  refl,
  six_digits-IsDigit (shift_in 0 (take auth_code_length (hmac (i ++ r) (i ++ r))) % 1000000),
)

code_lt : (n : ℕ) → n % 1000000 < 1000000
code_lt n = omega arith

shift_in_four :
    (a b c d : ℕ)
    → a < 256
    → b < 256
    → c < 256
    → d < 256
    → shift_in 0 (a ∷ b ∷ c ∷ d ∷ []) ≡ ((a * 256 + b) * 256 + c) * 256 + d
unfolding shift_in
shift_in_four a b c d ha hb hc hd = omega arith

-- Read as a number, the code is the first four bytes of the digest, big end first, modulo 1000000.
pub read-generate_verification_code :
    (hmac : Hmac) (i r : Bytes) (a b c d : ℕ) (rest : Bytes)
    → hmac (i ++ r) (i ++ r) ≡ a ∷ b ∷ c ∷ d ∷ rest
    → a < 256
    → b < 256
    → c < 256
    → d < 256
    → read_digits 0 (generate_verification_code hmac i r)
      ≡ (((a * 256 + b) * 256 + c) * 256 + d) % 1000000
unfolding generate_verification_code shift_in
read-generate_verification_code hmac i r a b c d rest h ha hb hc hd =
    rw h (read-six_digits _ (code_lt _) ∙ ap (λ n. n % 1000000) (shift_in_four a b c d ha hb hc hd))
