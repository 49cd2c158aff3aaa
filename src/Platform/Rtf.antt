-- ===== src/Platform/Rtf.antt =====
-- `extractPlainTextFromRTF` of internal/platform/clipboard_linux.go, on the lines that bufio.Scanner
-- gives; a line of more than 64 KB ends the scan, which is the argument `scan`.
use clipman_daemon.Prelude.{
  ℕ, ◌≡◌, refl, Bool, true, false, ◌&&◌, ◌||◌, List, [], ◌∷◌, ◌++◌, Bytes, leb, ◌==◌, if◌then◌else◌,
  arith, All, Bool-cases, inl, inr,
}

unfoldable pub is_control_byte : ℕ → Bool
is_control_byte c = (leb b'a' c && leb c b'z') || (leb b'0' c && leb c b'9') || c == b'-'

-- The loop over a line. After a backslash the inner loop skips the control word, its parameter and one
-- space; `in_word` tells that the scan is in it.
unfoldable pub line_text : Bool → Bytes → Bytes
unfolding is_control_byte
line_text in_word [] = []
line_text in_word (c ∷ line) =
    let skipping = line_text true line in
    let plain = line_text false line in
    if in_word && is_control_byte c
    then skipping
    else if in_word && c == b' '
    then plain
    else if c == b'{' || c == b'}'
    then plain
    else if c == b'\\'
    then skipping
    else c ∷ plain

unfoldable pub lines_text : List Bytes → Bytes
unfolding line_text
lines_text [] = []
lines_text (line ∷ lines) = line_text false line ++ (10 ∷ lines_text lines)

unfoldable pub extract_plain_text_from_rtf : (Bytes → List Bytes) → Bytes → Bytes
unfolding lines_text
extract_plain_text_from_rtf scan [] = []
extract_plain_text_from_rtf scan (c ∷ data') = lines_text (scan (c ∷ data'))

abbrev is_markup : ℕ → Bool
is_markup c = c == b'{' || c == b'}' || c == b'\\'

All-append : (P : ℕ → Type 0) (a b : Bytes) → All P a → All P b → All P (a ++ b)
All-append P [] b h k = k
All-append P (x ∷ a) b h k = (h.0, All-append P a b h.1 k)

All-if : (P : ℕ → Type 0) (b : Bool) (x y : Bytes) → All P x → All P y → All P (if b then x else y)
All-if P true x y h k = h
All-if P false x y h k = k

line_text-All :
    (in_word : Bool) (line : Bytes) → All (λ c. is_markup c ≡ false) (line_text in_word line)
unfolding line_text
line_text-All in_word [] = tt
line_text-All in_word (c ∷ line) =
    All-if _ (in_word && is_control_byte c) _ _ (line_text-All true line) (
      All-if _ (in_word && c == b' ') _ _ (line_text-All false line)
        (elim (Bool-cases (c == b'{' || c == b'}')) [
          | inl brace ↦ rw (brace) (line_text-All false line)
          | inr no_brace ↦ elim (Bool-cases (c == b'\\')) [
            | inl slash ↦ rw (no_brace, slash) (line_text-All true line)
            | inr no_slash ↦
                rw (no_brace, no_slash)
                  (ground (arith, no_brace, no_slash), line_text-All false line)
          ]
        ]))

lines_text-All : (lines : List Bytes) → All (λ c. is_markup c ≡ false) (lines_text lines)
unfolding lines_text
lines_text-All [] = tt
lines_text-All (line ∷ lines) =
    All-append (λ c. is_markup c ≡ false) (line_text false line) (10 ∷ lines_text lines)
      (line_text-All false line) (refl, lines_text-All lines)

-- The text that is extracted holds no brace and no backslash.
pub extract_plain_text_from_rtf-All :
    (scan : Bytes → List Bytes) (data' : Bytes)
    → All (λ c. is_markup c ≡ false) (extract_plain_text_from_rtf scan data')
unfolding extract_plain_text_from_rtf
extract_plain_text_from_rtf-All scan [] = tt
extract_plain_text_from_rtf-All scan (c ∷ data') = lines_text-All (scan (c ∷ data'))
