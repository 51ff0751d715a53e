-- ===== src/Surface/Draw.antt =====
-- src/surface.c: the pixels and the damage that the drawing calls leave.
use argusos_uefi_v.Base.{
  ℕ, ◌+◌, ◌*◌, ◌≤◌, ◌<◌, ◌≡◌, ◌⊎◌, ◌∙◌, inl, inr, refl, sym, ap, true, false, none, some, List, [],
  ◌∷◌, ◌==◌, if◌then◌else◌, length, arith, Option-cases, Bool-cases,
}
use native.Mathlib.Nat.{mul-le-mul_right}
use argusos_uefi_v.Raster.{in_rect, pixel, fill_rows}
use argusos_uefi_v.Raster.Paint.{pixel-fill_rows, length-fill_rows}
use argusos_uefi_v.Surface.{
  Rect, Surface, surface_valid, visible_part, surface_mark_dirty, surface_getpixel,
  surface_fill_rect, is_null,
}
use argusos_uefi_v.Surface.Damage.{
  IsSurface, Within, covers, damaged, visible_part_lem, visible_part-covers, mark_dirty-IsSurface,
  mark_dirty_covers, mark_dirty_frame,
}

is_null-length : (xs : List ℕ) → is_null xs ≡ (length xs == 0)
is_null-length [] = refl
is_null-length (x ∷ xs) = ground arith

pub with_pixels :
    (s : Surface) (pixels : List ℕ)
    → IsSurface s
    → length pixels ≡ length s.pixels
    → IsSurface (record s { pixels = pixels })
unfolding surface_valid
with_pixels s pixels ok same = record {
  valid = ground (arith, ok.valid, is_null-length pixels, is_null-length s.pixels);
  wide = ok.wide;
  high = ok.high;
  storage = rw same ok.storage;
  damaged = ok.damaged;
}

pub getpixel_lem :
    (s : Surface) (px py : ℕ)
    → IsSurface s
    → px < s.width
    → py < s.height
    → surface_getpixel s px py ≡ pixel s.stride s.pixels px py
unfolding surface_getpixel
getpixel_lem s px py ok hx hy = ground (arith, ok.valid)

-- Marking leaves every pixel as it is.
pub getpixel-mark_dirty :
    (s : Surface) (x y width height px py : ℕ)
    → surface_getpixel (surface_mark_dirty s x y width height) px py ≡ surface_getpixel s px py
unfolding surface_getpixel surface_valid
getpixel-mark_dirty s x y width height px py =
    let (d, b, e) = mark_dirty_frame s x y width height in rw e refl

pub valid-stride : (s : Surface) → surface_valid s ≡ true → s.width ≤ s.stride
unfolding surface_valid
valid-stride s v = ground arith

-- The rows of the surface are in the storage.
pub rows_fit :
    (s : Surface) (rows : ℕ) → IsSurface s → rows ≤ s.height → rows * s.stride ≤ length s.pixels
rows_fit s rows ok h =
    omega (arith, ok.storage, mul-le-mul_right {m = rows} {n = s.height} s.stride h)

-- What is left of a rectangle has the pixels of the rectangle that are on the surface.
pub part_pixels :
    (s : Surface) (x y width height px py : ℕ) (r : Rect)
    → px < s.width
    → py < s.height
    → visible_part s x y width height ≡ some r
    → in_rect x y r.width r.height px py ≡ in_rect x y width height px py
part_pixels s x y width height px py r hx hy inside =
    let (_, _, _, w, h) = visible_part_lem s x y width height r inside in ground arith

pub hidden_pixels :
    (s : Surface) (x y width height px py : ℕ)
    → surface_valid s ≡ true
    → px < s.width
    → py < s.height
    → visible_part s x y width height ≡ none
    → in_rect x y width height px py ≡ false
hidden_pixels s x y width height px py v hx hy outside =
    elim (Bool-cases (in_rect x y width height px py)) [
      | inl marked ↦
          let (r, inside, _) = visible_part-covers s x y width height px py v hx hy marked in
          absurd (ground arith)
      | inr h ↦ h
    ]

fill_rect_cases :
    (s : Surface) (x y width height color : ℕ)
    → ((visible_part s x y width height ≡ none) × (surface_fill_rect s x y width height color ≡ s))
      ⊎ ((r : Rect) × (visible_part s x y width height ≡ some r)
          × (surface_fill_rect s x y width height color
              ≡ surface_mark_dirty
                  (record s { pixels = fill_rows s.stride x r.width color r.height y s.pixels })
                  x
                  y
                  r.width
                  r.height))
unfolding surface_fill_rect
fill_rect_cases s x y width height color = elim (Option-cases (visible_part s x y width height)) [
  | inl outside ↦ inl (outside, rw (outside, surface_fill_rect) refl)
  | inr (r, inside) ↦ inr (r, inside, rw (inside, surface_fill_rect) refl)
]

pub fill_rect-IsSurface :
    (s : Surface) (x y width height color : ℕ)
    → IsSurface s
    → IsSurface (surface_fill_rect s x y width height color)
fill_rect-IsSurface s x y width height color ok = elim (fill_rect_cases s x y width height color) [
  | inl (outside, e) ↦ rw e ok
  | inr (r, inside, e) ↦ rw e (
      mark_dirty-IsSurface _ x y r.width r.height (
        with_pixels s (fill_rows s.stride x r.width color r.height y s.pixels) ok
          (length-fill_rows s.stride x r.width color r.height y s.pixels)))
]

-- The pixels of a surface after rows of a rectangle within it were filled.
pub filled_pixel :
    (s : Surface) (r : Rect) (color px py : ℕ)
    → IsSurface s
    → Within s.width s.height r
    → px < s.width
    → py < s.height
    → surface_getpixel
        (record s { pixels = fill_rows s.stride r.x r.width color r.height r.y s.pixels })
        px
        py
      ≡ (if covers r px py then color else surface_getpixel s px py)
filled_pixel s r color px py ok within hx hy =
    let pixels = fill_rows s.stride r.x r.width color r.height r.y s.pixels in
    let wide = valid-stride s ok.valid in
    let same = length-fill_rows s.stride r.x r.width color r.height r.y s.pixels in
    getpixel_lem (record s { pixels = pixels }) px py (with_pixels s pixels ok same) hx hy
    ∙ pixel-fill_rows s.stride r.x r.width color r.height r.y s.pixels px py
        (omega (arith, within.right)) (rows_fit s (r.y + r.height) ok within.bottom) (omega arith)
    ∙ ap (λ (v : ℕ). if covers r px py then color else v) (sym (getpixel_lem s px py ok hx hy))

-- After `surface_fill_rect` a pixel of the surface has the colour if it lies in the rectangle, and
-- its old value otherwise.
pub fill_rect_lem :
    (s : Surface) (x y width height color px py : ℕ)
    → IsSurface s
    → px < s.width
    → py < s.height
    → surface_getpixel (surface_fill_rect s x y width height color) px py
      ≡ (if in_rect x y width height px py then color else surface_getpixel s px py)
fill_rect_lem s x y width height color px py ok hx hy =
    elim (fill_rect_cases s x y width height color) [
      | inl (outside, e) ↦
          rw (e, hidden_pixels s x y width height px py ok.valid hx hy outside) refl
      | inr (r, inside, e) ↦
          let (ex, ey, within, _, _) = visible_part_lem s x y width height r inside in
          let part = part_pixels s x y width height px py r hx hy inside in
          let painted = filled_pixel s r color px py ok within hx hy in
          rw e (
            getpixel-mark_dirty _ x y r.width r.height px py
            ∙ ground (arith, painted, part, ex, ey))
    ]

-- Every pixel of the surface that lies in the rectangle, or was damaged before, is damaged after
-- `surface_fill_rect`.
pub fill_rect_damages :
    (s : Surface) (x y width height color px py : ℕ)
    → IsSurface s
    → px < s.width
    → py < s.height
    → (damaged s px py ≡ true) ⊎ (in_rect x y width height px py ≡ true)
    → damaged (surface_fill_rect s x y width height color) px py ≡ true
fill_rect_damages s x y width height color px py ok hx hy h =
    elim (fill_rect_cases s x y width height color) [
      | inl (outside, e) ↦ rw e (elim h [
        | inl before ↦ before
        | inr marked ↦
            let hidden = hidden_pixels s x y width height px py ok.valid hx hy outside in
            absurd (ground arith)
      ])
      | inr (r, inside, e) ↦
          let part = part_pixels s x y width height px py r hx hy inside in
          let pixels = fill_rows s.stride x r.width color r.height y s.pixels in
          let same = length-fill_rows s.stride x r.width color r.height y s.pixels in
          rw e (
            mark_dirty_covers (record s { pixels = pixels }) x y r.width r.height px py
              (with_pixels s pixels ok same) hx hy
              (elim h [ inl before ↦ inl before | inr marked ↦ inr (part ∙ marked) ]))
    ]
