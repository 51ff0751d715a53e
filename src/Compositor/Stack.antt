-- ===== src/Compositor/Stack.antt =====
-- src/compositor.c `composed_pixel`: when two states of the compositor show the same at a pixel.
use argusos_uefi_v.Base.{
  ℕ, zero, suc, ◌+◌, ◌<◌, ◌≡◌, ◌∙◌, inl, inr, refl, sym, ap, false, List, length, get_or, set,
  arith, ℕ-eq-cases, get_or-set_self, get_or-set_ne,
}
use argusos_uefi_v.Raster.{in_rect}
use argusos_uefi_v.Surface.{Surface}
use argusos_uefi_v.Compositor.{
  zero_window, Window, Compositor, surface_at, window_of, compositor_damage,
}
use argusos_uefi_v.Compositor.Damage.{damage_frame}
use argusos_uefi_v.Compositor.Frame.{
  shows, paint_window, paint_windows, paint_panel, composed_pixel,
}

-- A window shows nowhere but in its rectangle.
pub shows-in_rect :
    (surfaces : List Surface) (w : Window) (x y : ℕ)
    → in_rect w.x w.y
        (surface_at surfaces w.surface).width
        (surface_at surfaces w.surface).height
        x
        y
      ≡ false
    → shows surfaces w x y ≡ false
unfolding shows
shows-in_rect surfaces w x y h = ground arith

abbrev pub layer : List Surface → Compositor → ℕ → ℕ → ℕ → ℕ → ℕ
layer surfaces c k x y pixel = paint_window surfaces c (get_or c.z_order k 0) x y pixel

i_zero : (i : ℕ) → i + 0 ≡ i
i_zero i = omega arith

zero_k : (k : ℕ) → 0 + k ≡ k
zero_k k = omega arith

later : (i k : ℕ) → i + 1 + k ≡ i + suc k
later i k = omega arith

module _ (surfaces surfaces' : List Surface) (c c' : Compositor) (x y : ℕ) where
  -- The same layers, `shift` places apart, paint the same.
  pub paint_windows_agree :
      (rounds i i' pixel : ℕ)
      → ((k pixel : ℕ)
          → k < rounds
          → layer surfaces c (i + k) x y pixel ≡ layer surfaces' c' (i' + k) x y pixel)
      → paint_windows surfaces c x y rounds i pixel ≡ paint_windows surfaces' c' x y rounds i' pixel
  unfolding paint_windows
  paint_windows_agree zero i i' pixel h = refl
  paint_windows_agree (suc rounds) i i' pixel h =
      ap (paint_windows surfaces c x y rounds (i + 1)) (
        ap (λ k. layer surfaces c k x y pixel) (sym (i_zero i))
        ∙ h 0 pixel (omega arith)
        ∙ ap (λ k. layer surfaces' c' k x y pixel) (i_zero i'))
      ∙ paint_windows_agree rounds (i + 1) (i' + 1) (layer surfaces' c' i' x y pixel) (λ k p l.
        ap (λ j. layer surfaces c j x y p) (later i k)
        ∙ h (suc k) p (omega arith)
        ∙ ap (λ j. layer surfaces' c' j x y p) (sym (later i' k)))

  pub composed_agree :
      c.window_count ≡ c'.window_count
      → c.background ≡ c'.background
      → ((pixel : ℕ) → paint_panel surfaces c x y pixel ≡ paint_panel surfaces' c' x y pixel)
      → ((k pixel : ℕ)
          → k < c.window_count
          → layer surfaces c k x y pixel ≡ layer surfaces' c' k x y pixel)
      → composed_pixel surfaces c x y ≡ composed_pixel surfaces' c' x y
  unfolding composed_pixel
  composed_agree count background panel h =
      ap (paint_panel surfaces c x y) (
        paint_windows_agree c.window_count 0 0 c.background (λ k p l.
          ap (λ j. layer surfaces c j x y p) (zero_k k)
          ∙ h k p l
          ∙ ap (λ j. layer surfaces' c' j x y p) (sym (zero_k k))))
      ∙ panel (paint_windows surfaces' c' x y c.window_count 0 c.background)
      ∙ λ i.
          paint_panel surfaces' c' x y (paint_windows surfaces' c' x y (count i) 0 (background i))

-- Where a window's cell is written and neither the old nor the new window shows, nothing changes.
pub layer-set :
    (surfaces : List Surface) (c : Compositor) (id k x y pixel : ℕ) (w : Window)
    → id < length c.windows
    → shows surfaces (window_of c id) x y ≡ false
    → shows surfaces w x y ≡ false
    → layer surfaces c k x y pixel
      ≡ layer surfaces (record c { windows = set c.windows id w }) k x y pixel
layer-set surfaces c id k x y pixel w room old new = elim (ℕ-eq-cases id (get_or c.z_order k 0)) [
  | inl e ↦ rw (sym e, get_or-set_self c.windows id w zero_window room, old, new) refl
  | inr ne ↦ rw (get_or-set_ne c.windows id (get_or c.z_order k 0) w zero_window ne) refl
]

-- Damage is not seen in what is composed.
pub composed-damage :
    (surfaces : List Surface) (c : Compositor) (a b width height x y : ℕ)
    → composed_pixel surfaces (compositor_damage c a b width height) x y
      ≡ composed_pixel surfaces c x y
unfolding paint_panel
composed-damage surfaces c a b width height x y =
    let (d, n, e) = damage_frame c a b width height in
    rw e (
      composed_agree surfaces surfaces (record c { damage = d; damage_count = n }) c x y refl refl
        (λ p. refl) (λ k p l. refl))
