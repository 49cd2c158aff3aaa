-- ===== src/Text.antt =====
-- The functions of Go's packages bytes, strings and path/filepath that the program calls.
pub mod Trim
pub mod Decimal
use clipman_daemon.Prelude.{
  ℕ, zero, suc, Bool, ◌&&◌, ◌||◌, List, [], ◌∷◌, reverse, Bytes, leb, ◌==◌, if◌then◌else◌,
}

-- The bytes that are white space by themselves.
unfoldable pub is_space : ℕ → Bool
is_space c = (leb 9 c && leb c 13) || c == 32

-- The white space of Unicode beyond ASCII, in UTF-8: two bytes, and three.
unfoldable pub is_space2 : ℕ → ℕ → Bool
is_space2 a b = a == 0xc2 && (b == 0x85 || b == 0xa0)

unfoldable pub is_space3 : ℕ → ℕ → ℕ → Bool
is_space3 a b c =
    (a == 0xe1 && b == 0x9a && c == 0x80)
    || (a == 0xe2
        && b == 0x80
        && ((leb 0x80 c && leb c 0x8a) || c == 0xa8 || c == 0xa9 || c == 0xaf))
    || (a == 0xe2 && b == 0x81 && c == 0x9f)
    || (a == 0xe3 && b == 0x80 && c == 0x80)

-- The length of the white space character that a text begins with, or 0.
unfoldable pub space_size : Bytes → ℕ
space_size [] = 0
space_size (a ∷ []) = if is_space a then 1 else 0
space_size (a ∷ b ∷ []) = if is_space a then 1 else if is_space2 a b then 2 else 0
space_size (a ∷ b ∷ c ∷ r) =
    if is_space a then 1 else if is_space2 a b then 2 else if is_space3 a b c then 3 else 0

-- The same at the end of a text, of which this reads the reverse.
unfoldable pub space_size_rev : Bytes → ℕ
space_size_rev [] = 0
space_size_rev (a ∷ []) = if is_space a then 1 else 0
space_size_rev (b ∷ a ∷ []) = if is_space b then 1 else if is_space2 a b then 2 else 0
space_size_rev (c ∷ b ∷ a ∷ r) =
    if is_space c then 1 else if is_space2 b c then 2 else if is_space3 a b c then 3 else 0

-- Drops characters while `size` finds one; `skip` bytes of the last one found are still to go.
unfoldable pub strip : (Bytes → ℕ) → ℕ → Bytes → Bytes
strip size skip [] = []
strip size (suc skip) (x ∷ r) = strip size skip r
strip size zero (x ∷ r) = elim (size (x ∷ r)) [ zero ↦ x ∷ r | suc n ↦ strip size n r ]

-- bytes.TrimSpace and strings.TrimSpace
unfoldable pub trim_space : Bytes → Bytes
unfolding strip
trim_space s = reverse (strip space_size_rev zero (reverse (strip space_size zero s)))

-- filepath.Ext on Unix: what follows the last dot of the last path element, the dot included. The
-- argument is the reversed path.
unfoldable pub ext_rev : Bytes → Bytes → Bytes
ext_rev acc [] = []
ext_rev acc (c ∷ r) =
    let rest = ext_rev (c ∷ acc) r in if c == b'/' then [] else if c == b'.' then c ∷ acc else rest

unfoldable pub ext : Bytes → Bytes
unfolding ext_rev
ext path = ext_rev [] (reverse path)

-- strings.Split(s, "\n")
unfoldable pub split_lines : Bytes → List Bytes
split_lines [] = [] ∷ []
split_lines (c ∷ s) = elim (split_lines s) [
  | [] ↦ []
  | line ∷ lines ↦ if c == 10 then [] ∷ line ∷ lines else (c ∷ line) ∷ lines
]

-- strings.TrimRight(s, " \t\r\n")
unfoldable pub is_blank : ℕ → Bool
is_blank c = c == 32 || c == 9 || c == 13 || c == 10

unfoldable pub trim_right : Bytes → Bytes
unfolding is_blank
trim_right [] = []
trim_right (c ∷ s) = elim (trim_right s) [
  | [] ↦ if is_blank c then [] else c ∷ []
  | d ∷ r ↦ c ∷ d ∷ r
]

-- strings.Replace(s, "\t", "  ", -1)
unfoldable pub expand_tabs : Bytes → Bytes
expand_tabs [] = []
expand_tabs (c ∷ s) = let rest = expand_tabs s in if c == 9 then 32 ∷ 32 ∷ rest else c ∷ rest
