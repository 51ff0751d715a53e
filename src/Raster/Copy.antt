-- ===== src/Raster/Copy.antt =====
-- The pixels after `copy_rows`.
use argusos_uefi_v.Base.{
  ℕ, zero, suc, ◌+◌, ◌*◌, ◌≤◌, ◌<◌, ◌≡◌, ◌∙◌, refl, List, if◌then◌else◌, length, get_or, set,
  length-set, get_or-set_self, get_or-set_ne, ℕ-eq-cases, inl, inr, arith, ◌-◌,
}
use argusos_uefi_v.Raster.{copy_row, copy_rows, pixel, in_range, in_rect}
use argusos_uefi_v.Raster.Index.{row_before, same_row, cell-lt}

pub length-copy_row : (n d s : ℕ) (pixels : List ℕ) → length (copy_row n d s pixels) ≡ length pixels
unfolding copy_row
length-copy_row zero d s pixels = refl
length-copy_row (suc n) d s pixels =
    length-copy_row n (d + 1) (s + 1) (set pixels d (get_or pixels s 0))
    ∙ length-set pixels d (get_or pixels s 0)

-- The two pieces do not meet, so the order of the cells makes no difference.
get_or-copy_row :
    (n d s : ℕ) (pixels : List ℕ) (j : ℕ)
    → d + n ≤ s
    → d + n ≤ length pixels
    → get_or (copy_row n d s pixels) j 0
      ≡ (if in_range d n j then get_or pixels (s + (j - d)) 0 else get_or pixels j 0)
unfolding copy_row
get_or-copy_row zero d s pixels j apart h = ground arith
get_or-copy_row (suc n) d s pixels j apart h =
    let v = get_or pixels s 0 in
    let size = length-set pixels d v in
    let rest = get_or-copy_row n (d + 1) (s + 1) (set pixels d v) j (omega arith) (omega arith) in
    let same : d + 1 ≤ j → s + 1 + (j - (d + 1)) ≡ s + (j - d) = λ l. omega arith in
    ground (
      arith,
      rest,
      same,
      get_or-set_self pixels d v 0,
      get_or-set_ne pixels d j v 0,
      get_or-set_ne pixels d (s + (j - d)) v 0,
    )

pub length-copy_rows :
    (s x w up n y : ℕ) (pixels : List ℕ) → length (copy_rows s x w up n y pixels) ≡ length pixels
unfolding copy_rows
length-copy_rows s x w up zero y pixels = refl
length-copy_rows s x w up (suc n) y pixels =
    length-copy_rows s x w up n (y + 1) (copy_row w (y * s + x) ((y + up) * s + x) pixels)
    ∙ length-copy_row w (y * s + x) ((y + up) * s + x) pixels

row_pixel :
    (s x w up y : ℕ) (pixels : List ℕ) (px py : ℕ)
    → x + w ≤ s
    → 0 < up
    → y * s + x + w ≤ length pixels
    → px < s
    → pixel s (copy_row w (y * s + x) ((y + up) * s + x) pixels) px py
      ≡ (if in_rect x y w 1 px py then pixel s pixels px (py + up) else pixel s pixels px py)
row_pixel s x w up y pixels px py hx hu hl hp =
    let apart = row_before s y (y + up) (omega arith) in
    let moved =
      get_or-copy_row w (y * s + x) ((y + up) * s + x) pixels (py * s + px) (omega arith) hl in
    elim (ℕ-eq-cases py y) [
      | inl e ↦
          let source : x ≤ px
              → (y + up) * s + x + (py * s + px - (y * s + x)) ≡ (py + up) * s + px =
            λ l. rw e (omega arith) in
          ground (arith, moved, source)
      | inr ne ↦ ground (arith, moved, same_row s x w y px py)
    ]

-- Copying upwards row by row reads every row before it is written.
pub pixel-copy_rows :
    (s x w up n y : ℕ) (pixels : List ℕ) (px py : ℕ)
    → x + w ≤ s
    → 0 < up
    → (y + n) * s ≤ length pixels
    → px < s
    → pixel s (copy_rows s x w up n y pixels) px py
      ≡ (if in_rect x y w n px py then pixel s pixels px (py + up) else pixel s pixels px py)
unfolding copy_rows
pixel-copy_rows s x w up zero y pixels px py hx hu hl hp = ground arith
pixel-copy_rows s x w up (suc n) y pixels px py hx hu hl hp =
    let row = copy_row w (y * s + x) ((y + up) * s + x) pixels in
    let size = length-copy_row w (y * s + x) ((y + up) * s + x) pixels in
    let shift : y + 1 + n ≡ y + suc n = omega arith in
    let inside = cell-lt s (y + suc n) x w y (length pixels) hx (omega arith) hl in
    let here = row_pixel s x w up y pixels px py hx hu inside hp in
    let below = row_pixel s x w up y pixels px (py + up) hx hu inside hp in
    let rest = pixel-copy_rows s x w up n (y + 1) row px py hx hu (rw (shift, size) hl) hp in
    ground (arith, here, below, rest)
