-- ===== src/Compositor/Pointer.antt =====
-- src/compositor.c `compositor_window_at`: the window under the pointer and the pixel that is shown.
use argusos_uefi_v.Base.{
  ℕ, zero, suc, ◌+◌, ◌-◌, ◌≤◌, ◌<◌, ◌≡◌, ◌∙◌, inl, inr, refl, ap, true, some, List, get_or, arith,
  Bool-cases, Option-cases,
}
use argusos_uefi_v.Surface.{Surface, surface_valid, surface_getpixel}
use argusos_uefi_v.Compositor.{Compositor, surface_at, window_of, window_surface}
use argusos_uefi_v.Compositor.Frame.{
  shows, paint_windows, paint_panel, composed_pixel, window_at, compositor_window_at,
}
use argusos_uefi_v.Compositor.Raise.{paint_split, paint_below}

-- The windows of the stack have surfaces that can be drawn on.
abbrev pub IsDrawable : List Surface → Compositor → Type 0
IsDrawable surfaces c =
    (k : ℕ)
    → k < c.window_count
    → surface_valid (window_surface surfaces c (get_or c.z_order k 0)) ≡ true

paint_top :
    (surfaces : List Surface) (c : Compositor) (x y n pixel : ℕ)
    → shows surfaces (window_of c (get_or c.z_order (0 + n) 0)) x y ≡ true
    → paint_windows surfaces c x y (n + 1) 0 pixel ≡ (
        let w = window_of c (get_or c.z_order (0 + n) 0) in
        surface_getpixel (surface_at surfaces w.surface) (x - w.x) (y - w.y))
unfolding paint_windows
paint_top surfaces c x y n pixel shown = paint_split surfaces c x y n 1 0 pixel ∙ rw shown refl

window_at_painted :
    (surfaces : List Surface) (c : Compositor) (x y n pixel id : ℕ)
    → n ≤ c.window_count
    → IsDrawable surfaces c
    → window_at surfaces c n x y ≡ some id
    → paint_windows surfaces c x y n 0 pixel
      ≡ surface_getpixel
          (window_surface surfaces c id)
          (x - (window_of c id).x)
          (y - (window_of c id).y)
unfolding window_at
window_at_painted surfaces c x y zero pixel id h ok e = absurd (ground arith)
window_at_painted surfaces c x y (suc n) pixel id h ok e =
    let top : 0 + n ≡ n = omega arith in
    let more : suc n ≡ n + 1 = omega arith in
    let valid = ok n (omega arith) in
    let z = get_or c.z_order n 0 in
    ap (λ (m : ℕ). paint_windows surfaces c x y m 0 pixel) more
    ∙ elim (Bool-cases (shows surfaces (window_of c z) x y)) [
      | inl shown ↦
          let is_id : z ≡ id = ground arith in
          paint_top surfaces c x y n pixel (rw top shown) ∙ rw (top, is_id) refl
      | inr hidden ↦
          paint_below surfaces c x y n 0 pixel (rw top hidden)
          ∙ window_at_painted surfaces c x y n pixel id (omega arith) ok (ground arith)
    ]

-- Where the pointer is over a window and not over the panel, the pixel that is composed there is
-- the pixel of that window at the place that is returned: a click goes to what is seen.
pub window_at_lem :
    (surfaces : List Surface) (c : Compositor) (x y id local_x local_y : ℕ)
    → IsDrawable surfaces c
    → ((pixel : ℕ) → paint_panel surfaces c x y pixel ≡ pixel)
    → compositor_window_at surfaces c x y ≡ some (id, (local_x, local_y))
    → composed_pixel surfaces c x y
      ≡ surface_getpixel (window_surface surfaces c id) local_x local_y
unfolding compositor_window_at composed_pixel
window_at_lem surfaces c x y id local_x local_y ok free e =
    elim (Option-cases (window_at surfaces c c.window_count x y)) [
      | inl missing ↦ absurd (ground arith)
      | inr (top, found) ↦
          free (paint_windows surfaces c x y c.window_count 0 c.background)
          ∙ window_at_painted surfaces c x y c.window_count c.background top (omega arith) ok found
          ∙ ground arith
    ]
