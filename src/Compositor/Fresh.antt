-- ===== src/Compositor/Fresh.antt =====
-- src/compositor.c: moving, showing and hiding windows, and the pixels that they change.
use argusos_uefi_v.Base.{
  ℕ, ◌≤◌, ◌<◌, ◌≡◌, ◌⊎◌, ◌∙◌, inl, inr, refl, sym, Bool, true, false, not, ◌&&◌, ◌||◌, List, leb,
  ◌==◌, length, set, arith, Bool-cases,
}
use argusos_uefi_v.Raster.{in_rect}
use argusos_uefi_v.Surface.{Surface, surface_valid}
use argusos_uefi_v.Compositor.{
  Window, Compositor, max_windows, surface_at, window_of, damage_window,
}
use argusos_uefi_v.Compositor.Damage.{
  IsDamage, IsDamaged, damage_covers, compositor_damage-IsDamage, damage_frame,
}
use argusos_uefi_v.Compositor.Gop.{Gop, gop_getpixel}
use argusos_uefi_v.Compositor.Frame.{paint_panel, composed_pixel}
use argusos_uefi_v.Compositor.Stack.{shows-in_rect, composed_agree, layer-set, composed-damage}
use argusos_uefi_v.Compositor.Windows.{
  place, same, compositor_move_window, compositor_set_window_visible,
}

-- The screen shows at the pixel what is composed there, or the next frame will draw it.
unfoldable pub Fresh : List Surface → Compositor → Gop → ℕ → ℕ → Type 0
Fresh surfaces c g px py =
    IsDamaged c px py ⊎ (gop_getpixel g px py ≡ composed_pixel surfaces c px py)

pub record IsScene (c : Compositor) : Type 0 where
  pub damage : IsDamage c
  pub slots : length c.windows ≡ max_windows
  pub order : length c.z_order ≡ max_windows
  pub few : c.window_count ≤ max_windows

abbrev pub window_rect : List Surface → Window → ℕ → ℕ → Bool
window_rect surfaces w =
    in_rect w.x w.y (surface_at surfaces w.surface).width (surface_at surfaces w.surface).height

module _ (surfaces : List Surface) (c : Compositor) (id : ℕ) (w : Window) (px py : ℕ) where
  -- The window's cell written after its old rectangle was damaged.
  abbrev rewritten : Compositor
  rewritten =
      let before = damage_window surfaces c (window_of c id) in
      record before { windows = set before.windows id w }

  -- Where neither the old nor the new window lies, this is not seen.
  composed-rewritten :
      id < length c.windows
      → window_rect surfaces (window_of c id) px py ≡ false
      → window_rect surfaces w px py ≡ false
      → composed_pixel surfaces c px py ≡ composed_pixel surfaces rewritten px py
  unfolding paint_panel damage_window
  composed-rewritten room old new =
      let v = window_of c id in
      let s = surface_at surfaces v.surface in
      let (d, n, e) = damage_frame c v.x v.y s.width s.height in
      rw e (
        composed_agree surfaces surfaces c
          (record c { damage = d; damage_count = n; windows = set c.windows id w }) px py refl refl
          (λ p. refl)
          (λ k p l.
            layer-set surfaces c id k px py p w room (shows-in_rect surfaces v px py old)
              (shows-in_rect surfaces w px py new)))

  rewritten-IsDamage : IsDamage c → IsDamage rewritten
  unfolding damage_window
  rewritten-IsDamage ok =
      let v = window_of c id in
      let s = surface_at surfaces v.surface in
      let d = compositor_damage-IsDamage c v.x v.y s.width s.height ok in
      record { wide = d.wide; high = d.high; slots = d.slots; few = d.few; within = d.within }

  rewritten_size : (rewritten.width ≡ c.width) × (rewritten.height ≡ c.height)
  unfolding damage_window
  rewritten_size =
      let v = window_of c id in
      let s = surface_at surfaces v.surface in
      let (d, n, e) = damage_frame c v.x v.y s.width s.height in rw e (refl, refl)

  -- What was fresh is fresh after the change, but for the pixels of the new rectangle.
  rewritten-Fresh :
      (g : Gop)
      → IsScene c
      → id < c.window_count
      → px < c.width
      → py < c.height
      → Fresh surfaces c g px py
      → Fresh surfaces rewritten g px py
        ⊎ ((window_rect surfaces (window_of c id) px py ≡ false)
            × (window_rect surfaces w px py ≡ true))
  unfolding damage_window Fresh
  rewritten-Fresh g ok l hx hy f =
      let v = window_of c id in
      let s = surface_at surfaces v.surface in
      let redrawn : IsDamaged c px py ⊎ (window_rect surfaces v px py ≡ true)
          → IsDamaged rewritten px py =
        λ h.
          let d = damage_covers c v.x v.y s.width s.height px py ok.damage hx hy h in
          record { at = d.at; counted = d.counted; covered = d.covered } in
      elim (Bool-cases (window_rect surfaces v px py)) [
        | inl old ↦ inl (inl (redrawn (inr old)))
        | inr out ↦ elim (Bool-cases (window_rect surfaces w px py)) [
          | inl new ↦ inr (out, new)
          | inr away ↦ elim f [
            | inl d ↦ inl (inl (redrawn (inl d)))
            | inr shown ↦
                inl (inr (shown ∙ composed-rewritten (omega (arith, ok.slots, ok.few)) out away))
          ]
        ]
      ]

-- Damaging the rectangle of a window makes its pixels fresh.
pub drawn-Fresh :
    (surfaces : List Surface) (c : Compositor) (g : Gop) (w : Window) (px py : ℕ)
    → IsDamage c
    → px < c.width
    → py < c.height
    → Fresh surfaces c g px py ⊎ (window_rect surfaces w px py ≡ true)
    → Fresh surfaces (damage_window surfaces c w) g px py
unfolding Fresh damage_window
drawn-Fresh surfaces c g w px py ok hx hy h =
    let s = surface_at surfaces w.surface in
    elim h [
      | inl (inl d) ↦ inl (damage_covers c w.x w.y s.width s.height px py ok hx hy (inl d))
      | inl (inr shown) ↦
          inr (shown ∙ sym (composed-damage surfaces c w.x w.y s.width s.height px py))
      | inr new ↦ inl (damage_covers c w.x w.y s.width s.height px py ok hx hy (inr new))
    ]

drop_left : {A B C : Type 0} → A ⊎ (B × C) → A ⊎ C
drop_left (inl a) = inl a
drop_left (inr (b, c)) = inr c

-- Moving a window, or a call of it that is refused, leaves no stale pixel: one that shows what is
-- composed, or is damaged, does so afterwards.
pub move_window-Fresh :
    (surfaces : List Surface) (c : Compositor) (g : Gop) (id x y px py : ℕ)
    → IsScene c
    → px < c.width
    → py < c.height
    → Fresh surfaces c g px py
    → Fresh surfaces (compositor_move_window surfaces c id x y).0 g px py
unfolding compositor_move_window
move_window-Fresh surfaces c g id x y px py ok hx hy f =
    let v = window_of c id in
    let s = surface_at surfaces v.surface in
    let x' = place c.width s.width x in
    let y' = place c.work_height s.height y in
    let w : Window = record v { x = x'; y = y' } in
    elim (Bool-cases (leb c.window_count id || not v.visible || not (surface_valid s))) [
      | inl refused ↦ rw (refused, compositor_move_window) f
      | inr moves ↦ elim (Bool-cases (x' == v.x && y' == v.y)) [
        | inl stays ↦ rw (moves, stays, compositor_move_window) f
        | inr goes ↦
            rw (moves, goes, compositor_move_window)
              (drawn-Fresh surfaces (rewritten surfaces c id w px py) g w px py
                (rewritten-IsDamage surfaces c id w px py ok.damage)
                (rw ((rewritten_size surfaces c id w px py).0) hx)
                (rw ((rewritten_size surfaces c id w px py).1) hy)
                (drop_left (rewritten-Fresh surfaces c id w px py g ok (ground arith) hx hy f)))
      ]
    ]

-- Showing or hiding a window, or a call of it that is refused, leaves no stale pixel.
pub set_window_visible-Fresh :
    (surfaces : List Surface) (c : Compositor) (g : Gop) (id : ℕ) (next : Bool) (px py : ℕ)
    → IsScene c
    → px < c.width
    → py < c.height
    → Fresh surfaces c g px py
    → Fresh surfaces (compositor_set_window_visible surfaces c id next).0 g px py
unfolding compositor_set_window_visible
set_window_visible-Fresh surfaces c g id next px py ok hx hy f =
    let w : Window = record (window_of c id) { visible = next } in
    elim (Bool-cases (leb c.window_count id)) [
      | inl refused ↦ rw (refused, compositor_set_window_visible) f
      | inr known ↦ elim (Bool-cases (same (window_of c id).visible next)) [
        | inl stays ↦ rw (known, stays, compositor_set_window_visible) f
        | inr changes ↦
            rw (known, changes, compositor_set_window_visible)
              (elim (rewritten-Fresh surfaces c id w px py g ok (ground arith) hx hy f) [
                | inl fresh ↦ fresh
                | inr (out, new) ↦ absurd (ground arith)
              ])
      ]
    ]
