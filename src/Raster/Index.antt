-- ===== src/Raster/Index.antt =====
-- Where the cells of a row lie in the buffer.
use argusos_uefi_v.Base.{ℕ, ◌+◌, ◌*◌, ◌≤◌, ◌<◌, ◌≡◌, arith}
use native.Mathlib.Nat.{mul-le-mul_right}

pub row_before : (s y z : ℕ) → y < z → y * s + s ≤ z * s
row_before s y z h = omega (arith, mul-le-mul_right {m = y + 1} {n = z} s (omega arith))

-- A cell within the width of the buffer lies in the piece of a row only if it is of that row.
pub same_row :
    (s x w y px py : ℕ)
    → px < s
    → x + w ≤ s
    → y * s + x ≤ py * s + px
    → py * s + px < y * s + x + w
    → py ≡ y
same_row s x w y px py hp hx low high = ground (arith, row_before s y py, row_before s py y)

-- A cell of a row above the end of the buffer is in the buffer.
pub cell-lt :
    (s rows x w y length : ℕ) → x + w ≤ s → y < rows → rows * s ≤ length → y * s + x + w ≤ length
cell-lt s rows x w y length hx hy hl = omega (arith, row_before s y rows hy)
