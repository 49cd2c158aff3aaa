-- ===== src/Storage/Display/Preview.antt =====
-- internal/storage/boltdb.go: the age of an item and the preview of a text, as they are shown.
use Prim.Native.Nat.{min}
use clipman_daemon.Prelude.{
  ℕ, ◌+◌, ◌-◌, ◌*◌, ◌/◌, ◌≤◌, ◌<◌, ◌≡◌, List, [], ◌∷◌, ◌++◌, map, Bytes, codes, length, take, ltb,
  replicate, if◌then◌else◌, arith, All, Bool-cases, inl, inr, length-take, length-append,
  length-replicate, length-map, take-append_length, take_of_length-le, ◌∙◌,
}
use clipman_daemon.Text.{split_lines, trim_right, expand_tabs}
use clipman_daemon.Text.Decimal.{decimal}

pub data AgeUnit : Type 0 where
  seconds minutes hours days months years : AgeUnit

abbrev pub unit_name : AgeUnit → Bytes
unit_name seconds = codes " seconds"
unit_name minutes = codes " minutes"
unit_name hours = codes " hours"
unit_name days = codes " days"
unit_name months = codes " months"
unit_name years = codes " years"

-- The seconds that the code counts for one of a unit.
abbrev pub unit_seconds : AgeUnit → ℕ
unit_seconds seconds = 1
unit_seconds minutes = 60
unit_seconds hours = 3600
unit_seconds days = 86400
unit_seconds months = 2592000
unit_seconds years = 31104000

-- The number and the unit, of an age that is not negative.
unfoldable pub time_ago : ℕ → ℕ × AgeUnit
time_ago s =
    let m = s / 60 in
    let h = m / 60 in
    let d = h / 24 in
    let mo = d / 30 in
    if ltb s 60
    then (s, seconds)
    else if ltb m 60
    then (m, minutes)
    else if ltb h 24
    then (h, hours)
    else if ltb d 30
    then (d, days)
    else if ltb mo 12
    then (mo, months)
    else (mo / 12, years)

unfoldable pub format_time_ago : ℕ → Bytes
unfolding time_ago decimal
format_time_ago s = let (n, u) = time_ago s in decimal n ++ unit_name u

-- The age that is shown is the real one, rounded down to a whole number of its unit (of months of 30 days
-- and years of 12 such months), and that number is not 0 unless the unit is the second.
pub time_ago_lem :
    (s : ℕ)
    → ((time_ago s).0 * unit_seconds (time_ago s).1 ≤ s)
      × (s < (time_ago s).0 * unit_seconds (time_ago s).1 + unit_seconds (time_ago s).1)
      × (unit_seconds (time_ago s).1 ≤ s + 1)
unfolding time_ago
time_ago_lem s = ground arith

abbrev pub max_lines : ℕ
max_lines = 15

-- A line of a preview.
unfoldable pub preview_line : ℕ → ℕ → Bytes → Bytes
preview_line max_length indent l =
    let line = trim_right l in
    replicate indent 32
    ++ (if ltb max_length (length line) then take max_length line ++ codes "..." else line)

-- `formatTextPreview` and `formatTextPreviewWithIndent`, which are alike; each line ends with a line
-- feed.
unfoldable pub format_text_preview : Bytes → ℕ → ℕ → List Bytes
unfolding preview_line decimal
format_text_preview text max_length indent =
    let lines = split_lines (expand_tabs text) in
    let shown = map (preview_line max_length indent) (take max_lines lines) in
    if ltb max_lines (length lines)
    then shown
      ++ ((replicate indent 32
            ++ codes "... ("
            ++ decimal (length lines - max_lines)
            ++ codes " more lines not shown)")
          ∷ [])
    else shown

preview_line_bound :
    (max_length indent : ℕ) (l : Bytes)
    → length (preview_line max_length indent l) ≤ indent + max_length + 3
unfolding preview_line
preview_line_bound max_length indent l =
    elim (Bool-cases (ltb max_length (length (trim_right l)))) [
      | inl long ↦ rw (long) (
          omega (
            arith,
            length-append (replicate indent 32) (take max_length (trim_right l) ++ codes "..."),
            length-append (take max_length (trim_right l)) (codes "..."),
            length-take max_length (trim_right l),
            length-replicate {A = ℕ} indent 32,
          ))
      | inr short ↦ rw (short) (
          ground (
            arith,
            short,
            length-append (replicate indent 32) (trim_right l),
            length-replicate {A = ℕ} indent 32,
          ))
    ]

preview_lines_bound :
    (max_length indent : ℕ) (lines : List Bytes)
    → All (λ l. length l ≤ indent + max_length + 3) (map (preview_line max_length indent) lines)
preview_lines_bound max_length indent [] = tt
preview_lines_bound max_length indent (l ∷ lines) =
    (preview_line_bound max_length indent l, preview_lines_bound max_length indent lines)

-- However long a text, its preview has at most 16 lines, the first 15 of which are no longer than the
-- bound, the indentation and three dots.
pub format_text_preview_bound :
    (text : Bytes) (max_length indent : ℕ)
    → (length (format_text_preview text max_length indent) ≤ 16)
      × All
          (λ l. length l ≤ indent + max_length + 3)
          (take max_lines (format_text_preview text max_length indent))
unfolding format_text_preview
format_text_preview_bound text max_length indent =
    elim (Bool-cases (ltb max_lines (length lines))) [
      | inl more ↦ rw (more) (
        omega (arith, length-append shown (_ ∷ []), size),
        rw (take-append_length shown (_ ∷ []) max_lines (ground (arith, more, size)))
            (preview_lines_bound max_length indent (take max_lines lines)),
      )
      | inr few ↦ rw (few) (
        omega (arith, size),
        rw (take_of_length-le max_lines shown (omega (arith, size)))
            (preview_lines_bound max_length indent (take max_lines lines)),
      )
    ]
  where
    lines : List Bytes
    lines = split_lines (expand_tabs text)

    shown : List Bytes
    shown = map (preview_line max_length indent) (take max_lines lines)

    size : length shown ≡ min max_lines (length lines)
    size =
        length-map (preview_line max_length indent) (take max_lines lines)
        ∙ length-take max_lines lines
