-- ===== src/Sync/Streams.antt =====
-- internal/sync/protocols.go: reading and writing on a stream that is not nil.
use clipman_daemon.Prelude.{
  ℕ, ◌-◌, ◌≤◌, ◌≡◌, refl, ap, inl, inr, Bool, false, Option, none, some, List, [], ◌∷◌, ◌++◌, ◌∙◌,
  zero, suc, sym, length-take, take-append_length, take_of_length-le, Bytes, length, take, ltb,
  ◌==◌, ==_iff, if◌then◌else◌, arith, Bool-cases, length-append,
}
use mathlib.Core.List.{append_assoc}
use native.Mathlib.Decide.{dec_le}

-- What one Read gives: bytes, no more than asked for, and no error; or bytes and an error.
pub data ReadStep : Type 0 where
  got : Bytes → ReadStep
  got_eof : Bytes → ReadStep
  got_error : Bytes → ReadStep

-- The end of `readBytes`: the buffer is full, an error, or the stream gives nothing more to model.
pub data ReadEnd : Type 0 where
  filled : Bytes → ReadEnd
  read_failed : ReadEnd
  waiting : ReadEnd

-- The loop of `readBytes` on a buffer of `size` bytes, of which `buffer` is filled; each Read gets at
-- most the bytes that are left.
unfoldable pub read_bytes : ℕ → Bytes → List ReadStep → ReadEnd
read_bytes size buffer [] = if ltb (length buffer) size then waiting else filled buffer
read_bytes size buffer (got d ∷ steps) =
    let rest = read_bytes size (buffer ++ take (size - length buffer) d) steps in
    if ltb (length buffer) size then rest else filled buffer
read_bytes size buffer (got_eof d ∷ steps) =
    let buffer' = buffer ++ take (size - length buffer) d in
    if ltb (length buffer) size
    then (if length buffer' == size then filled buffer' else read_failed)
    else filled buffer
read_bytes size buffer (got_error d ∷ steps) =
    if ltb (length buffer) size then read_failed else filled buffer

-- `writeBytes`: one Write, which must take all the bytes. `written` is its count, or none for an error.
unfoldable pub write_bytes : Bytes → Option ℕ → Bool
write_bytes d none = false
write_bytes d (some n) = n == length d

-- The bytes that the steps carry.
unfoldable pub carried : List ReadStep → Bytes
carried [] = []
carried (got d ∷ steps) = d ++ carried steps
carried (got_eof d ∷ steps) = d
carried (got_error d ∷ steps) = []

take-append_front : (n : ℕ) (xs ys : Bytes) → n ≤ length xs → take n (xs ++ ys) ≡ take n xs
take-append_front zero xs ys h = refl
take-append_front (suc n) [] ys h = ground (arith, h)
take-append_front (suc n) (x ∷ xs) ys h = ap (◌∷◌ x) (take-append_front n xs ys (omega (arith, h)))

take-append_split :
    (n : ℕ) (xs ys : Bytes) → length xs ≤ n → take n (xs ++ ys) ≡ xs ++ take (n - length xs) ys
take-append_split n [] ys h = ap (λ m. take m ys) (omega arith)
take-append_split zero (x ∷ xs) ys h = ground (arith, h)
take-append_split (suc n) (x ∷ xs) ys h =
    ap (◌∷◌ x)
      (take-append_split n xs ys (omega (arith, h)) ∙ ap (λ m. xs ++ take m ys) (omega arith))

-- What a Read puts into the buffer is the next part of the stream.
read_step :
    (size : ℕ) (buffer d c : Bytes)
    → length buffer ≤ size
    → take size ((buffer ++ take (size - length buffer) d) ++ c) ≡ take size (buffer ++ (d ++ c))
read_step size buffer d c fits = elim (dec_le (length d) (size - length buffer)) [
  | yes short ↦
      ap (λ x. take size ((buffer ++ x) ++ c)) (take_of_length-le (size - length buffer) d short)
      ∙ ap (take size) (append_assoc buffer d c)
  | no long ↦
      take-append_length (buffer ++ take (size - length buffer) d) c size (
        omega (
          arith,
          fits,
          long,
          length-append buffer (take (size - length buffer) d),
          length-take (size - length buffer) d,
        ))
      ∙ ap (λ x. buffer ++ x)
          (sym (take-append_front (size - length buffer) d c (omega (arith, long))))
      ∙ sym (take-append_split size buffer (d ++ c) fits)
]

read_length :
    (size : ℕ) (buffer d : Bytes)
    → length buffer ≤ size
    → length (buffer ++ take (size - length buffer) d) ≤ size
read_length size buffer d fits = omega (
  arith,
  fits,
  length-append buffer (take (size - length buffer) d),
  length-take (size - length buffer) d,
)

filled_inj : {x y : Bytes} → filled x ≡ filled y → x ≡ y
filled_inj h = ground (arith, h)

exactly :
    (size : ℕ) (buffer : Bytes)
    → length buffer ≤ size
    → ltb (length buffer) size ≡ false
    → size ≡ length buffer
exactly size buffer fits full = ground (arith, fits, full)

when_full :
    (size : ℕ) (buffer out c : Bytes)
    → length buffer ≤ size
    → ltb (length buffer) size ≡ false
    → filled buffer ≡ filled out
    → (out ≡ take size (buffer ++ c)) × (length out ≡ size)
when_full size buffer out c fits full h = rw (← filled_inj h) (
  sym (take-append_length buffer c size (exactly size buffer fits full)),
  sym (exactly size buffer fits full),
)

-- However the stream cuts its bytes, a read that succeeds fills the buffer with the first bytes of
-- the stream, exactly as many as were asked for.
pub read_bytes-take :
    (size : ℕ) (buffer : Bytes) (steps : List ReadStep) (out : Bytes)
    → length buffer ≤ size
    → read_bytes size buffer steps ≡ filled out
    → (out ≡ take size (buffer ++ carried steps)) × (length out ≡ size)
unfolding read_bytes carried
read_bytes-take size buffer [] out fits h = elim (Bool-cases (ltb (length buffer) size)) [
  | inl short ↦ cc (rw (read_bytes, short) at h)
  | inr full ↦ when_full size buffer out [] fits full (rw (read_bytes, full) at h)
]
read_bytes-take size buffer (got d ∷ steps) out fits h =
    elim (Bool-cases (ltb (length buffer) size)) [
      | inl short ↦
          let ih =
            read_bytes-take size (buffer ++ take (size - length buffer) d) steps out
              (read_length size buffer d fits) (rw (read_bytes, short) at h) in
          (ih.0 ∙ read_step size buffer d (carried steps) fits, ih.1)
      | inr full ↦
          when_full size buffer out (d ++ carried steps) fits full (rw (read_bytes, full) at h)
    ]
read_bytes-take size buffer (got_eof d ∷ steps) out fits h =
    elim (Bool-cases (ltb (length buffer) size)) [
      | inl short ↦ elim (Bool-cases (length (buffer ++ take (size - length buffer) d) == size)) [
        | inl same ↦
            rw (← filled_inj (rw (read_bytes, short, same) at h))
              (sym (take-append_split size buffer d fits), (==_iff _ _).0 same)
        | inr differ ↦ cc (rw (read_bytes, short, differ) at h)
      ]
      | inr full ↦ when_full size buffer out d fits full (rw (read_bytes, full) at h)
    ]
read_bytes-take size buffer (got_error d ∷ steps) out fits h =
    elim (Bool-cases (ltb (length buffer) size)) [
      | inl short ↦ cc (rw (read_bytes, short) at h)
      | inr full ↦ when_full size buffer out [] fits full (rw (read_bytes, full) at h)
    ]
