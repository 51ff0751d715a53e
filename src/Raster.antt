-- ===== src/Raster.antt =====
-- The loops over rows of pixels that src/surface.c and src/gop.c share: a buffer of words is a
-- list, and row `y` starts at `y * stride`.
pub mod Index
pub mod Paint
pub mod Copy
use argusos_uefi_v.Base.{ℕ, zero, suc, ◌+◌, ◌*◌, Bool, ◌&&◌, List, ltb, leb, get_or, set}

-- `for (xx = 0; xx < width; ++xx) row[xx] = color;`, from cell `i` on, with the rounds left.
unfoldable pub fill_row : ℕ → ℕ → ℕ → List ℕ → List ℕ
fill_row color zero i pixels = pixels
fill_row color (suc rounds) i pixels = fill_row color rounds (i + 1) (set pixels i color)

-- The loop over the rows from `y` on, each `width` cells from column `x`.
unfoldable pub fill_rows : ℕ → ℕ → ℕ → ℕ → ℕ → ℕ → List ℕ → List ℕ
fill_rows stride x width color zero y pixels = pixels
fill_rows stride x width color (suc rounds) y pixels =
    fill_rows stride x width color rounds (y + 1) (fill_row color width (y * stride + x) pixels)

-- `for (xx = 0; xx < width; ++xx) destination[xx] = source[xx];`.
unfoldable pub copy_row : ℕ → ℕ → ℕ → List ℕ → List ℕ
copy_row zero destination source pixels = pixels
copy_row (suc rounds) destination source pixels =
    copy_row rounds (destination + 1) (source + 1) (set pixels destination (get_or pixels source 0))

-- The loop over the rows from `y` on, each taken from `up` rows below.
unfoldable pub copy_rows : ℕ → ℕ → ℕ → ℕ → ℕ → ℕ → List ℕ → List ℕ
copy_rows stride x width up zero y pixels = pixels
copy_rows stride x width up (suc rounds) y pixels =
    copy_rows stride x width up rounds (y + 1)
      (copy_row width (y * stride + x) ((y + up) * stride + x) pixels)

abbrev pub pixel : ℕ → List ℕ → ℕ → ℕ → ℕ
pixel stride pixels x y = get_or pixels (y * stride + x) 0

abbrev pub in_range : ℕ → ℕ → ℕ → Bool
in_range start count i = leb start i && ltb i (start + count)

-- The pixel `(px, py)` is in the rectangle.
abbrev pub in_rect : ℕ → ℕ → ℕ → ℕ → ℕ → ℕ → Bool
in_rect x y width height px py = in_range x width px && in_range y height py
