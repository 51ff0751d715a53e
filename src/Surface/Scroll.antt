-- ===== src/Surface/Scroll.antt =====
-- src/surface.c `surface_scroll_rect_up`: the pixels after a scroll.
use Prim.Native.Nat.{min}
use argusos_uefi_v.Base.{
  ℕ, ◌+◌, ◌-◌, ◌≤◌, ◌<◌, ◌≡◌, ◌≢◌, ◌⊎◌, ◌∙◌, inl, inr, refl, ap, Bool, false, none, some, ltb, leb,
  ◌==◌, if◌then◌else◌, arith, Option-cases, Bool-cases,
}
use argusos_uefi_v.Base.Words.{u32}
use argusos_uefi_v.Raster.{in_rect, copy_rows}
use argusos_uefi_v.Raster.Copy.{pixel-copy_rows, length-copy_rows}
use argusos_uefi_v.Surface.{
  Rect, Surface, visible_part, surface_mark_dirty, surface_getpixel, surface_fill_rect,
  surface_scroll_rect_up,
}
use argusos_uefi_v.Surface.Damage.{IsSurface, Within, visible_part_lem, mark_dirty-IsSurface}
use argusos_uefi_v.Surface.Draw.{
  with_pixels, getpixel_lem, getpixel-mark_dirty, valid-stride, rows_fit, part_pixels,
  hidden_pixels, fill_rect_lem, fill_rect-IsSurface,
}

abbrev copied : Surface → Rect → ℕ → Surface
copied s r up = record s { pixels = copy_rows s.stride r.x r.width up (r.height - up) r.y s.pixels }

copied-IsSurface : (s : Surface) (r : Rect) (up : ℕ) → IsSurface s → IsSurface (copied s r up)
copied-IsSurface s r up ok =
    with_pixels s (copy_rows s.stride r.x r.width up (r.height - up) r.y s.pixels) ok
      (length-copy_rows s.stride r.x r.width up (r.height - up) r.y s.pixels)

copied_pixel :
    (s : Surface) (r : Rect) (up px py : ℕ)
    → IsSurface s
    → Within s.width s.height r
    → 0 < up
    → px < s.width
    → py < s.height
    → surface_getpixel (copied s r up) px py ≡ (
        if in_rect r.x r.y r.width (r.height - up) px py
        then surface_getpixel s px (py + up)
        else surface_getpixel s px py)
copied_pixel s r up px py ok within pos hx hy =
    let moved =
      pixel-copy_rows s.stride r.x r.width up (r.height - up) r.y s.pixels px py
        (omega (arith, within.right, valid-stride s ok.valid)) pos
        (rows_fit s (r.y + (r.height - up)) ok (omega (arith, within.bottom)))
        (omega (arith, valid-stride s ok.valid)) in
    let new = getpixel_lem (copied s r up) px py (copied-IsSurface s r up ok) hx hy in
    let old = getpixel_lem s px py ok hx hy in
    elim (Bool-cases (in_rect r.x r.y r.width (r.height - up) px py)) [
      | inl inside ↦
          let below = getpixel_lem s px (py + up) ok hx (ground (arith, within.bottom)) in
          ground (arith, new, moved, below)
      | inr outside ↦ ground (arith, new, moved, old)
    ]

scroll_cases :
    (s : Surface) (x y width height up color : ℕ)
    → up ≢ 0
    → ((visible_part s x y width height ≡ none)
        × (surface_scroll_rect_up s x y width height up color ≡ s))
      ⊎ ((r : Rect) × (visible_part s x y width height ≡ some r)
          × (((r.height ≤ up)
                × (surface_scroll_rect_up s x y width height up color
                    ≡ surface_fill_rect s x y r.width r.height color))
              ⊎ ((up < r.height)
                  × (surface_scroll_rect_up s x y width height up color
                      ≡ surface_mark_dirty
                          (surface_fill_rect
                            (copied s r up)
                            x
                            (u32 (y + (r.height - up)))
                            r.width
                            up
                            color)
                          x
                          y
                          r.width
                          r.height))))
unfolding surface_scroll_rect_up
scroll_cases s x y width height up color nz =
    let moves : (up == 0) ≡ false = ground arith in
    elim (Option-cases (visible_part s x y width height)) [
      | inl outside ↦ inl (outside, rw (moves, outside, surface_scroll_rect_up) refl)
      | inr (r, inside) ↦
          let (ex, ey, _, _, _) = visible_part_lem s x y width height r inside in
          inr (
            r,
            inside,
            elim (Bool-cases (leb r.height up)) [
              | inl all ↦ inl (ground arith, rw (moves, inside, all, surface_scroll_rect_up) refl)
              | inr some_rows ↦
                  inr (
                    ground arith,
                    rw (moves, inside, some_rows, surface_scroll_rect_up, ex, ey) refl,
                  )
            ],
          )
    ]

-- The rows that were copied and the rows that were filled make up the rectangle.
layers :
    (x y w h up px py c moved old : ℕ)
    → up < h
    → (if in_rect x (y + (h - up)) w up px py
        then c
        else (if in_rect x y w (h - up) px py then moved else old))
      ≡ (if in_rect x y w h px py then (if ltb (py + up) (y + h) then moved else c) else old)
layers x y w h up px py c moved old below = ground arith

stacked :
    (s : Surface) (r : Rect) (x y low up color px py : ℕ)
    → IsSurface s
    → Within s.width s.height r
    → 0 < up
    → px < s.width
    → py < s.height
    → r.x ≡ x
    → r.y ≡ y
    → low ≡ y + (r.height - up)
    → (if in_rect x low r.width up px py then color else surface_getpixel (copied s r up) px py) ≡ (
        if in_rect x (y + (r.height - up)) r.width up px py
        then color
        else (if in_rect x y r.width (r.height - up) px py
            then surface_getpixel s px (py + up)
            else surface_getpixel s px py))
stacked s r x y low up color px py ok within pos hx hy ex ey at_low = rw at_low (
    ap (λ (v : ℕ). if in_rect x (y + (r.height - up)) r.width up px py then color else v)
      (copied_pixel s r up px py ok within pos hx hy ∙ λ i.
        if in_rect (ex i) (ey i) r.width (r.height - up) px py
        then surface_getpixel s px (py + up)
        else surface_getpixel s px py))

-- Scrolling a rectangle up by `up` rows: a pixel of it takes the value `up` rows further down, if
-- that row is still in the rectangle and on the surface, and the fill colour otherwise; the other
-- pixels stay.
pub scroll_rect_up_lem :
    (s : Surface) (x y width height up color px py : ℕ)
    → IsSurface s
    → up ≢ 0
    → px < s.width
    → py < s.height
    → surface_getpixel (surface_scroll_rect_up s x y width height up color) px py ≡ (
        if in_rect x y width height px py
        then (if ltb (py + up) (min (y + height) s.height)
            then surface_getpixel s px (py + up)
            else color)
        else surface_getpixel s px py)
scroll_rect_up_lem s x y width height up color px py ok nz hx hy =
    elim (scroll_cases s x y width height up color nz) [
      | inl (outside, e) ↦
          rw (e, hidden_pixels s x y width height px py ok.valid hx hy outside) refl
      | inr (r, inside, inl (all, e)) ↦
          let (ex, ey, within, ew, eh) = visible_part_lem s x y width height r inside in
          let part = part_pixels s x y width height px py r hx hy inside in
          rw e (ground (arith, fill_rect_lem s x y r.width r.height color px py ok hx hy, part))
      | inr (r, inside, inr (rest, e)) ↦
          let (ex, ey, within, ew, eh) = visible_part_lem s x y width height r inside in
          let part = part_pixels s x y width height px py r hx hy inside in
          let c = copied s r up in
          let low = u32 (y + (r.height - up)) in
          let at_low : low ≡ y + (r.height - up) = omega (arith, within.bottom, ok.high) in
          let end : min (y + height) s.height ≡ y + r.height = omega (arith, within.bottom) in
          rw (e, end)
            (getpixel-mark_dirty (surface_fill_rect c x low r.width up color) x y r.width r.height
                px py
              ∙ fill_rect_lem c x low r.width up color px py (copied-IsSurface s r up ok) hx hy
              ∙ stacked s r x y low up color px py ok within (omega arith) hx hy ex ey at_low
              ∙ layers x y r.width r.height up px py color (surface_getpixel s px (py + up))
                  (surface_getpixel s px py) rest
              ∙ ap
                  (λ (b : Bool).
                    if b
                    then (if ltb (py + up) (y + r.height)
                        then surface_getpixel s px (py + up)
                        else color)
                    else surface_getpixel s px py)
                  part)
    ]

pub scroll_rect_up-IsSurface :
    (s : Surface) (x y width height up color : ℕ)
    → IsSurface s
    → up ≢ 0
    → IsSurface (surface_scroll_rect_up s x y width height up color)
scroll_rect_up-IsSurface s x y width height up color ok nz =
    elim (scroll_cases s x y width height up color nz) [
      | inl (outside, e) ↦ rw e ok
      | inr (r, inside, inl (all, e)) ↦ rw e (fill_rect-IsSurface s x y r.width r.height color ok)
      | inr (r, inside, inr (rest, e)) ↦ rw e (
          mark_dirty-IsSurface _ x y r.width r.height (
            fill_rect-IsSurface (copied s r up) x (u32 (y + (r.height - up))) r.width up color
              (copied-IsSurface s r up ok)))
    ]
