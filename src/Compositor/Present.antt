-- ===== src/Compositor/Present.antt =====
-- src/compositor.c `compositor_present`: what the pixels of the screen show after a frame.
use argusos_uefi_v.Base.{
  ℕ, zero, suc, ◌+◌, ◌≤◌, ◌<◌, ◌≡◌, ◌⊎◌, ◌∙◌, inl, inr, refl, sym, true, ◌^◌, ◌&&◌, List, ◌==◌,
  if◌then◌else◌, arith, Bool-cases, ℕ-eq-cases,
}
use argusos_uefi_v.Base.Words.{u64}
use argusos_uefi_v.Raster.{in_range}
use argusos_uefi_v.Surface.{Rect, Surface}
use argusos_uefi_v.Surface.Damage.{Within, covers}
use argusos_uefi_v.Compositor.{Compositor, damage_at}
use argusos_uefi_v.Compositor.Gop.{
  Gop, gop_getpixel, gop_putpixel, IsGop, putpixel-IsGop, getpixel-putpixel,
}
use argusos_uefi_v.Compositor.Collect.{collect-IsDamage}
use argusos_uefi_v.Compositor.Damage.{IsDamage}
use argusos_uefi_v.Compositor.Stack.{composed_agree}
use argusos_uefi_v.Compositor.Fresh.{Fresh}
use argusos_uefi_v.Compositor.Frame.{
  rounds_of, paint_panel, draw_frame, damaged_pixels, composed_pixel, present_row, present_rows,
  present_damage, collect_surface_damage, compositor_present,
}

module _ (surfaces : List Surface) (c : Compositor) (px py : ℕ) where
  -- The screen is well formed and has the pixel.
  pub record HasPixel (g : Gop) : Type 0 where
    pub screen : IsGop g
    pub on_x : px < g.width
    pub on_y : py < g.height

  -- It shows what is composed there.
  abbrev Current : Gop → Type 0
  Current g = gop_getpixel g px py ≡ composed_pixel surfaces c px py

  -- Drawing from `g` to `g'` loses neither.
  record Draws (g g' : Gop) : Type 0 where
    has : HasPixel g'
    keeps : Current g → Current g'

  abbrev drawn : ℕ → ℕ → Gop → Gop
  drawn x y g = gop_putpixel g x y (composed_pixel surfaces c x y)

  putpixel_size :
      (g : Gop) (x y v : ℕ)
      → ((gop_putpixel g x y v).width ≡ g.width) × ((gop_putpixel g x y v).height ≡ g.height)
  unfolding gop_putpixel
  putpixel_size g x y v = (ground arith, ground arith)

  drawn-HasPixel : (x y : ℕ) (g : Gop) → HasPixel g → HasPixel (drawn x y g)
  drawn-HasPixel x y g h =
      let (w, t) = putpixel_size g x y (composed_pixel surfaces c x y) in
      record {
        screen = putpixel-IsGop g x y (composed_pixel surfaces c x y) h.screen;
        on_x = omega (arith, w, h.on_x);
        on_y = omega (arith, t, h.on_y);
      }

  drawn_pixel :
      (x y : ℕ) (g : Gop) → HasPixel g → Current g ⊎ ((px ≡ x) × (py ≡ y)) → Current (drawn x y g)
  drawn_pixel x y g h s =
      let put =
        getpixel-putpixel g x y (composed_pixel surfaces c x y) px py h.screen h.on_x h.on_y in
      put ∙ go s
    where
      go :
          Current g ⊎ ((px ≡ x) × (py ≡ y))
          → (if px == x && py == y then composed_pixel surfaces c x y else gop_getpixel g px py)
            ≡ composed_pixel surfaces c px py
      go (inr (e, f)) = rw (sym e, sym f) (ground arith)
      go (inl shown) = elim (ℕ-eq-cases px x) [
        | inl e ↦ elim (ℕ-eq-cases py y) [
          | inl f ↦ rw (sym e, sym f) (ground arith)
          | inr away ↦ ground (arith, shown)
        ]
        | inr away ↦ ground (arith, shown)
      ]

  row-Draws : (n x y : ℕ) (g : Gop) → HasPixel g → Draws g (present_row surfaces c n x y g)
  unfolding present_row
  row-Draws zero x y g h = record { has = h; keeps = λ s. s }
  row-Draws (suc n) x y g h =
      let rest = row-Draws n (x + 1) y (drawn x y g) (drawn-HasPixel x y g h) in
      record { has = rest.has; keeps = λ s. rest.keeps (drawn_pixel x y g h (inl s)) }

  row-Current :
      (n x y : ℕ) (g : Gop)
      → HasPixel g
      → in_range x n px ≡ true
      → py ≡ y
      → Current (present_row surfaces c n x y g)
  unfolding present_row
  row-Current zero x y g h inside e = absurd (ground arith)
  row-Current (suc n) x y g h inside e = elim (ℕ-eq-cases px x) [
    | inl here ↦
        (row-Draws n (x + 1) y (drawn x y g) (drawn-HasPixel x y g h)).keeps
          (drawn_pixel x y g h (inr (here, e)))
    | inr further ↦ row-Current n (x + 1) y (drawn x y g) (drawn-HasPixel x y g h) (ground arith) e
  ]

  rows-Draws :
      (r : Rect) (n y : ℕ) (g : Gop) → HasPixel g → Draws g (present_rows surfaces c r n y g)
  unfolding present_rows
  rows-Draws r zero y g h = record { has = h; keeps = λ s. s }
  rows-Draws r (suc n) y g h =
      let row = row-Draws (rounds_of r.x r.width) r.x y g h in
      let rest =
        rows-Draws r n (y + 1) (present_row surfaces c (rounds_of r.x r.width) r.x y g) row.has in
      record { has = rest.has; keeps = λ s. rest.keeps (row.keeps s) }

  rows-Current :
      (r : Rect) (n y : ℕ) (g : Gop)
      → HasPixel g
      → in_range r.x (rounds_of r.x r.width) px ≡ true
      → in_range y n py ≡ true
      → Current (present_rows surfaces c r n y g)
  unfolding present_rows
  rows-Current r zero y g h in_x in_y = absurd (ground arith)
  rows-Current r (suc n) y g h in_x in_y =
      let row = row-Draws (rounds_of r.x r.width) r.x y g h in
      elim (ℕ-eq-cases py y) [
        | inl here ↦
            (rows-Draws r n (y + 1) (present_row surfaces c (rounds_of r.x r.width) r.x y g)
                row.has).keeps
              (row-Current (rounds_of r.x r.width) r.x y g h in_x here)
        | inr further ↦
            rows-Current r n (y + 1) (present_row surfaces c (rounds_of r.x r.width) r.x y g)
              row.has in_x (ground arith)
      ]

  -- Inside the screen the loops do not wrap around.
  within_columns :
      (r : Rect) (x y : ℕ)
      → c.width < 2 ^ 32
      → Within c.width c.height r
      → covers r x y ≡ true
      → in_range r.x (rounds_of r.x r.width) x ≡ true
  within_columns r x y wide inside covered = let right = inside.right in ground arith

  within_rows :
      (r : Rect) (x y : ℕ)
      → c.height < 2 ^ 32
      → Within c.width c.height r
      → covers r x y ≡ true
      → in_range r.y (rounds_of r.y r.height) y ≡ true
  within_rows r x y high inside covered = let bottom = inside.bottom in ground arith

  present_damage-Draws :
      (n i : ℕ) (g : Gop) → HasPixel g → Draws g (present_damage surfaces c n i g)
  unfolding present_damage
  present_damage-Draws zero i g h = record { has = h; keeps = λ s. s }
  present_damage-Draws (suc n) i g h =
      let r = damage_at c i in
      let one = rows-Draws r (rounds_of r.y r.height) r.y g h in
      let rest =
        present_damage-Draws n (i + 1) (present_rows surfaces c r (rounds_of r.y r.height) r.y g)
          one.has in
      record { has = rest.has; keeps = λ s. rest.keeps (one.keeps s) }

  present_damage-Current :
      (n i k : ℕ) (g : Gop)
      → HasPixel g
      → IsDamage c
      → k < c.damage_count
      → i ≤ k
      → k < i + n
      → covers (damage_at c k) px py ≡ true
      → Current (present_damage surfaces c n i g)
  unfolding present_damage
  present_damage-Current zero i k g h ok counted from below covered = absurd (omega arith)
  present_damage-Current (suc n) i k g h ok counted from below covered =
      let r = damage_at c i in
      let one = rows-Draws r (rounds_of r.y r.height) r.y g h in
      let next = present_rows surfaces c r (rounds_of r.y r.height) r.y g in
      elim (ℕ-eq-cases k i) [
        | inl here ↦ (present_damage-Draws n (i + 1) next one.has).keeps (
            let there : covers r px py ≡ true = rw (sym here) covered in
            let inside : Within c.width c.height r = ok.within i (omega arith) in
            rows-Current r (rounds_of r.y r.height) r.y g h
              (within_columns r px py ok.wide inside there)
              (within_rows r px py ok.high inside there))
        | inr further ↦
            present_damage-Current n (i + 1) k next one.has ok counted (omega arith) (omega arith)
              covered
      ]

-- What the frame leaves of the compositor composes the same.
composed-presented :
    (surfaces : List Surface) (c : Compositor) (n l p f px py : ℕ)
    → composed_pixel surfaces c px py
      ≡ composed_pixel surfaces
          (record c { damage_count = n; last_damage_count = l; damage_pixels = p; frame_count = f })
          px
          py
unfolding paint_panel
composed-presented surfaces c n l p f px py =
    composed_agree surfaces surfaces c
      (record c { damage_count = n; last_damage_count = l; damage_pixels = p; frame_count = f }) px
      py refl refl (λ q. refl) (λ k q b. refl)

draw_frame_current :
    (surfaces : List Surface) (c : Compositor) (g : Gop) (px py : ℕ)
    → HasPixel surfaces c px py g
    → IsDamage c
    → Fresh surfaces c g px py
    → let frame = draw_frame surfaces c g in
      gop_getpixel frame.gop px py ≡ composed_pixel frame.surfaces frame.compositor px py
unfolding draw_frame Fresh
draw_frame_current surfaces c g px py h ok f = elim (Bool-cases (c.damage_count == 0)) [
  | inl nothing ↦
      rw (nothing, draw_frame)
        (elim f [
          | inl d ↦ absurd (ground (arith, d.counted))
          | inr shown ↦
              shown
              ∙ composed-presented surfaces c c.damage_count 0 c.damage_pixels c.frame_count px py
        ])
  | inr some_damage ↦
      rw (some_damage, draw_frame)
        (elim f [
          | inl d ↦
              present_damage-Current surfaces c px py c.damage_count 0 d.at g h ok d.counted
                (omega arith) (omega (arith, d.counted)) d.covered
          | inr shown ↦ (present_damage-Draws surfaces c px py c.damage_count 0 g h).keeps shown
        ]
          ∙ composed-presented surfaces c 0 c.damage_count
              (u64 (c.damage_pixels + damaged_pixels c c.damage_count 0)) (u64 (c.frame_count + 1))
              px py)
]

usable_frame :
    (surfaces : List Surface) (c : Compositor) (g : Gop)
    → g.usable ≡ true
    → compositor_present surfaces c g
      ≡ draw_frame (collect_surface_damage surfaces c).0 (collect_surface_damage surfaces c).1 g
unfolding compositor_present
usable_frame surfaces c g ready = ground arith

-- With a usable screen and a list of damage whose rectangles lie in the compositor's area, after
-- `compositor_present` a pixel shows what is composed there, if it was up to date before or is in
-- the damage once that of the surfaces has been collected.
pub present_lem :
    (surfaces : List Surface) (c : Compositor) (g : Gop) (px py : ℕ)
    → IsGop g
    → IsDamage c
    → px < g.width
    → py < g.height
    → Fresh (collect_surface_damage surfaces c).0 (collect_surface_damage surfaces c).1 g px py
    → let frame = compositor_present surfaces c g in
      gop_getpixel frame.gop px py ≡ composed_pixel frame.surfaces frame.compositor px py
present_lem surfaces c g px py ok damage hx hy f = rw (usable_frame surfaces c g ok.ready) (
    draw_frame_current (collect_surface_damage surfaces c).0 (collect_surface_damage surfaces c).1 g
      px py (record { screen = ok; on_x = hx; on_y = hy }) (collect-IsDamage surfaces c damage) f)
