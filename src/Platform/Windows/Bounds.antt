-- ===== src/Platform/Windows/Bounds.antt =====
-- internal/platform/clipboard_windows.go: which bytes of a bitmap `convertDIBtoPNG` reads.
use clipman_daemon.Prelude.{
  ℕ, zero, suc, ◌+◌, ◌*◌, ◌/◌, ◌<◌, ◌≤◌, ◌≡◌, ◌==◌, refl, inl, inr, false, Option, List, Bytes,
  arith, Bool-cases, ◌⊎◌,
}
use clipman_daemon.Platform.Windows.Image.{
  Dib, Rgba, stride, pixel, row_from, image_rows, convert_dib_to_png,
}

-- The bitmap with another memory.
abbrev pub with_memory : Dib → (ℕ → ℕ) → Dib
with_memory d m = record d { memory = m }

in_row_of_24 : (row x k w : ℕ) → x < w → k < 3 → row + x * 3 + k < row + (w * 24 + 31) / 32 * 4
in_row_of_24 row x k w inside channel = omega arith

in_row_of_32 : (row x k w : ℕ) → x < w → k < 4 → row + x * 4 + k < row + (w * 32 + 31) / 32 * 4
in_row_of_32 row x k w inside channel = omega arith

module _ (d : Dib) (m : ℕ → ℕ) (depth : (d.bit_count ≡ 24) ⊎ (d.bit_count ≡ 32)) where
  pixel_bound :
      (row x : ℕ)
      → x < d.width
      → ((i : ℕ) → i < row + stride d → d.memory i ≡ m i)
      → pixel d row x ≡ pixel (with_memory d m) row x
  unfolding pixel stride
  pixel_bound row x inside same = elim depth [
    | inl e ↦
        let near = λ (k : ℕ) (channel : k < 3).
          same (row + x * 3 + k) (rw e (in_row_of_24 row x k d.width inside channel)) in
        let first = same (row + x * 3) (rw e (omega arith)) in
        rw (e, first, near 1 (omega arith), near 2 (omega arith)) refl
    | inr e ↦
        let near = λ (k : ℕ) (channel : k < 4).
          same (row + x * 4 + k) (rw e (in_row_of_32 row x k d.width inside channel)) in
        let first = same (row + x * 4) (rw e (omega arith)) in
        rw (e, first, near 1 (omega arith), near 2 (omega arith), near 3 (omega arith)) refl
  ]

  row_bound :
      (row n x : ℕ)
      → x + n ≤ d.width
      → ((i : ℕ) → i < row + stride d → d.memory i ≡ m i)
      → row_from d row x n ≡ row_from (with_memory d m) row x n
  unfolding row_from
  row_bound row zero x inside same = refl
  row_bound row (suc n) x inside same =
      rw (pixel_bound row x (omega arith) same, row_bound row n (x + 1) (omega arith) same) refl

  rows_bound :
      (h n : ℕ)
      → ((i : ℕ) → i < h + n * stride d → d.memory i ≡ m i)
      → image_rows h d n ≡ image_rows h (with_memory d m) n
  unfolding image_rows
  rows_bound h zero same = refl
  rows_bound h (suc n) same =
      let above = λ (i : ℕ) (before : i < h + n * stride d). same i (omega arith) in
      let here = λ (i : ℕ) (before : i < h + n * stride d + stride d). same i (omega arith) in
      rw (row_bound (h + n * stride d) d.width 0 (omega arith) here, rows_bound h n above) refl

-- A bitmap is converted without looking at a byte beyond its header and its rows: the image is the same
-- for any other memory with those bytes.
pub convert_dib_to_png_bound :
    (h : ℕ) (encode_png : List (List Rgba) → Option Bytes) (d : Dib) (m : ℕ → ℕ)
    → ((i : ℕ) → i < h + d.height * stride d → d.memory i ≡ m i)
    → convert_dib_to_png h encode_png d ≡ convert_dib_to_png h encode_png (with_memory d m)
unfolding convert_dib_to_png
convert_dib_to_png_bound h encode_png d m same = elim (Bool-cases (d.bit_count == 24)) [
  | inl is24 ↦ rw (is24, rows_bound d m (inl (ground (arith, is24))) h d.height same) refl
  | inr not24 ↦ elim (Bool-cases (d.bit_count == 32)) [
    | inl is32 ↦ rw (is32, rows_bound d m (inr (ground (arith, is32))) h d.height same) refl
    | inr not32 ↦ rw (not24, not32) refl
  ]
]

-- A bitmap from the top down is converted without looking at any of its bytes.
image_rows_top_down :
    (h n : ℕ) (d : Dib) (m : ℕ → ℕ)
    → d.is_bottom_up ≡ false
    → image_rows h d n ≡ image_rows h (with_memory d m) n
unfolding image_rows
image_rows_top_down h zero d m top_down = refl
image_rows_top_down h (suc n) d m top_down =
    rw (top_down, image_rows_top_down h n d m top_down) refl
