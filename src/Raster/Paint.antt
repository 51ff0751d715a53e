-- ===== src/Raster/Paint.antt =====
-- The pixels after `fill_rows`.
use argusos_uefi_v.Base.{
  ℕ, zero, suc, ◌+◌, ◌*◌, ◌≤◌, ◌<◌, ◌≡◌, ◌∙◌, refl, List, if◌then◌else◌, length, get_or, set,
  length-set, get_or-set_self, get_or-set_ne, ℕ-eq-cases, inl, inr, arith,
}
use argusos_uefi_v.Raster.{fill_row, fill_rows, pixel, in_range, in_rect}
use argusos_uefi_v.Raster.Index.{same_row, cell-lt}

pub length-fill_row :
    (color n i : ℕ) (pixels : List ℕ) → length (fill_row color n i pixels) ≡ length pixels
unfolding fill_row
length-fill_row color zero i pixels = refl
length-fill_row color (suc n) i pixels =
    length-fill_row color n (i + 1) (set pixels i color) ∙ length-set pixels i color

get_or-fill_row :
    (color n i : ℕ) (pixels : List ℕ) (j : ℕ)
    → i + n ≤ length pixels
    → get_or (fill_row color n i pixels) j 0 ≡ (if in_range i n j then color else get_or pixels j 0)
unfolding fill_row
get_or-fill_row color zero i pixels j h = ground arith
get_or-fill_row color (suc n) i pixels j h =
    let size = length-set pixels i color in
    let rest = get_or-fill_row color n (i + 1) (set pixels i color) j (omega arith) in
    ground (arith, rest, get_or-set_self pixels i color 0, get_or-set_ne pixels i j color 0)

pub length-fill_rows :
    (s x w color n y : ℕ) (pixels : List ℕ)
    → length (fill_rows s x w color n y pixels) ≡ length pixels
unfolding fill_rows
length-fill_rows s x w color zero y pixels = refl
length-fill_rows s x w color (suc n) y pixels =
    length-fill_rows s x w color n (y + 1) (fill_row color w (y * s + x) pixels)
    ∙ length-fill_row color w (y * s + x) pixels

row_pixel :
    (s x w color y : ℕ) (pixels : List ℕ) (px py : ℕ)
    → x + w ≤ s
    → y * s + x + w ≤ length pixels
    → px < s
    → pixel s (fill_row color w (y * s + x) pixels) px py
      ≡ (if in_rect x y w 1 px py then color else pixel s pixels px py)
row_pixel s x w color y pixels px py hx hl hp = elim (ℕ-eq-cases py y) [
  | inl e ↦ ground (arith, get_or-fill_row color w (y * s + x) pixels (py * s + px))
  | inr ne ↦
      ground
        (arith, get_or-fill_row color w (y * s + x) pixels (py * s + px), same_row s x w y px py)
]

pub pixel-fill_rows :
    (s x w color n y : ℕ) (pixels : List ℕ) (px py : ℕ)
    → x + w ≤ s
    → (y + n) * s ≤ length pixels
    → px < s
    → pixel s (fill_rows s x w color n y pixels) px py
      ≡ (if in_rect x y w n px py then color else pixel s pixels px py)
unfolding fill_rows
pixel-fill_rows s x w color zero y pixels px py hx hl hp = ground arith
pixel-fill_rows s x w color (suc n) y pixels px py hx hl hp =
    let row = fill_row color w (y * s + x) pixels in
    let size = length-fill_row color w (y * s + x) pixels in
    let shift : y + 1 + n ≡ y + suc n = omega arith in
    let first =
      row_pixel s x w color y pixels px py hx
        (cell-lt s (y + suc n) x w y (length pixels) hx (omega arith) hl) hp in
    let rest = pixel-fill_rows s x w color n (y + 1) row px py hx (rw (shift, size) hl) hp in
    ground (arith, first, rest)
