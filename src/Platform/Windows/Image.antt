-- ===== src/Platform/Windows/Image.antt =====
-- internal/platform/clipboard_windows.go: `convertDIBtoPNG`. The image package ignores the pixels that
-- are set outside an image's bounds; png.Encode is an argument.
use clipman_daemon.Prelude.{
  ℕ, zero, suc, ◌+◌, ◌*◌, ◌/◌, ◌==◌, Bool, not, ◌&&◌, Option, none, List, [], ◌∷◌, Bytes,
  if◌then◌else◌,
}

pub record Rgba : Type 0 where
  pub red : ℕ
  pub green : ℕ
  pub blue : ℕ
  pub alpha : ℕ

-- The header, and the bytes of the memory from the header on; the height is its size and whether it is
-- positive.
pub record Dib : Type 0 where
  pub width : ℕ
  pub height : ℕ
  pub is_bottom_up : Bool
  pub bit_count : ℕ
  pub memory : ℕ → ℕ

unfoldable pub stride : Dib → ℕ
stride d = (d.width * d.bit_count + 31) / 32 * 4

-- The pixel at x of the row that begins at `row`.
unfoldable pub pixel : Dib → ℕ → ℕ → Rgba
pixel d row x =
    if d.bit_count == 24
    then record {
      red = d.memory (row + x * 3 + 2);
      green = d.memory (row + x * 3 + 1);
      blue = d.memory (row + x * 3);
      alpha = 255;
    }
    else record {
      red = d.memory (row + x * 4 + 2);
      green = d.memory (row + x * 4 + 1);
      blue = d.memory (row + x * 4);
      alpha = d.memory (row + x * 4 + 3);
    }

-- The pixels from x on, `n` of them.
unfoldable pub row_from : Dib → ℕ → ℕ → ℕ → List Rgba
unfolding pixel
row_from d row x zero = []
row_from d row x (suc n) = pixel d row x ∷ row_from d row (x + 1) n

unfoldable pub blank_row : ℕ → List Rgba
blank_row zero = []
blank_row (suc n) = record { red = 0; green = 0; blue = 0; alpha = 0 } ∷ blank_row n

-- The rows of the image, the last `n` of them. A bitmap from the top down has a negative height, so the
-- image's bounds lie above the rows that are set, and it stays blank.
unfoldable pub image_rows : ℕ → Dib → ℕ → List (List Rgba)
unfolding stride row_from blank_row
image_rows header_size d zero = []
image_rows header_size d (suc n) =
    (if d.is_bottom_up
      then row_from d (header_size + n * stride d) 0 d.width
      else blank_row d.width)
    ∷ image_rows header_size d n

unfoldable pub convert_dib_to_png : ℕ → (List (List Rgba) → Option Bytes) → Dib → Option Bytes
unfolding image_rows
convert_dib_to_png header_size encode_png d =
    if not (d.bit_count == 24) && not (d.bit_count == 32)
    then none
    else encode_png (image_rows header_size d d.height)
