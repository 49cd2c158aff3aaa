-- ===== src/Platform/Polling/Hash.antt =====
-- `hashContent` of internal/platform/clipboard_linux.go.
use clipman_daemon.Prelude.{
  ℕ, zero, suc, ◌+◌, ◌*◌, ◌-◌, ◌/◌, ◌%◌, ◌^◌, ◌<◌, ◌≡◌, ap, [], ◌∷◌, ◌++◌, Bytes, ltb,
  if◌then◌else◌, length, arith,
}

-- The loop, on 32 bits: `i` is the index of the next byte. The byte after index 4096 is still added.
unfoldable pub hash_loop : ℕ → ℕ → Bytes → ℕ
hash_loop i hash [] = hash
hash_loop i hash (b ∷ bs) =
    let hash' = (hash * 32 % 2 ^ 32 + hash + b) % 2 ^ 32 in
    let rest = hash_loop (i + 1) hash' bs in if ltb 4096 i then hash' else rest

abbrev hex_digit : ℕ → ℕ
hex_digit d = if ltb d 10 then b'0' + d else b'a' + d - 10

-- "%x" of a number below 16 ^ fuel, after the digits `acc`.
unfoldable pub hex : ℕ → ℕ → Bytes → Bytes
hex zero n acc = acc
hex (suc fuel) n acc =
    let rest = hex fuel (n / 16) (hex_digit (n % 16) ∷ acc) in
    if ltb n 16 then hex_digit n ∷ acc else rest

-- A 32-bit number has at most 8 digits.
unfoldable pub hash_content : Bytes → Bytes
unfolding hash_loop hex
hash_content [] = []
hash_content (b ∷ bs) = hex 8 (hash_loop 0 0 (b ∷ bs)) []

hash_loop_prefix :
    (i hash : ℕ) (p d d' : Bytes)
    → i + length p ≡ 4098
    → i < 4098
    → hash_loop i hash (p ++ d) ≡ hash_loop i hash (p ++ d')
unfolding hash_loop
hash_loop_prefix i hash [] d d' h l = ground (arith, h)
hash_loop_prefix i hash (b ∷ p) d d' h l = ground (
  arith,
  hash_loop_prefix (i + 1) ((hash * 32 % 2 ^ 32 + hash + b) % 2 ^ 32) p d d' (omega (arith, h)),
)

-- Data that differ only after the first 4098 bytes have the same hash.
pub hash_content_prefix :
    (p : Bytes) (d d' : Bytes) → length p ≡ 4098 → hash_content (p ++ d) ≡ hash_content (p ++ d')
unfolding hash_content
hash_content_prefix [] d d' h = ground arith
hash_content_prefix (b ∷ p) d d' h =
    ap (λ n. hex 8 n []) (hash_loop_prefix 0 0 (b ∷ p) d d' (omega (arith, h)) (omega arith))
