-- ===== src/Compositor/Frame.antt =====
-- src/compositor.c: what is shown at a pixel, which window is under the pointer, and the drawing of
-- a frame.
use argusos_uefi_v.Base.{
  ℕ, zero, suc, ◌+◌, ◌-◌, ◌*◌, Bool, true, false, not, ◌&&◌, ◌||◌, Option, none, some, List, ltb,
  leb, ◌==◌, if◌then◌else◌, get_or, set,
}
use argusos_uefi_v.Base.Words.{u32, u64}
use argusos_uefi_v.Surface.{Rect, Surface, surface_valid, surface_getpixel, surface_take_damage}
use argusos_uefi_v.Compositor.{
  Window, Compositor, surface_at, window_of, window_surface, damage_at, compositor_damage,
}
use argusos_uefi_v.Compositor.Gop.{Gop, gop_putpixel}

-- The window shows at the pixel, unless another one is above it.
unfoldable pub shows : List Surface → Window → ℕ → ℕ → Bool
shows surfaces w x y =
    let s = surface_at surfaces w.surface in
    w.visible
    && leb w.x x
    && leb w.y y
    && ltb x (u32 (w.x + s.width))
    && ltb y (u32 (w.y + s.height))

-- The loop of `compositor_window_at`, from the top: `rounds` windows are left below.
unfoldable pub window_at : List Surface → Compositor → ℕ → ℕ → ℕ → Option ℕ
window_at surfaces c zero x y = none
window_at surfaces c (suc rounds) x y =
    let id = get_or c.z_order rounds 0 in
    elim (shows surfaces (window_of c id) x y && surface_valid (window_surface surfaces c id)) [
      | true ↦ some id
      | false ↦ window_at surfaces c rounds x y
    ]

-- The window and the place in it, or `none` where 0 is returned.
unfoldable pub compositor_window_at : List Surface → Compositor → ℕ → ℕ → Option (ℕ × (ℕ × ℕ))
compositor_window_at surfaces c x y =
    if leb c.width x || leb c.work_height y
    then none
    else elim (window_at surfaces c c.window_count x y) [
      | none ↦ none
      | some id ↦ some (id, (x - (window_of c id).x, y - (window_of c id).y))
    ]

-- One round of the loop of `composed_pixel`.
abbrev pub paint_window : List Surface → Compositor → ℕ → ℕ → ℕ → ℕ → ℕ
paint_window surfaces c id x y pixel =
    let w = window_of c id in
    if shows surfaces w x y
    then surface_getpixel (surface_at surfaces w.surface) (x - w.x) (y - w.y)
    else pixel

-- The loop from window `i` of the stack on, with the rounds that are left.
unfoldable pub paint_windows : List Surface → Compositor → ℕ → ℕ → ℕ → ℕ → ℕ → ℕ
paint_windows surfaces c x y zero i pixel = pixel
paint_windows surfaces c x y (suc rounds) i pixel =
    paint_windows surfaces c x y rounds (i + 1)
      (paint_window surfaces c (get_or c.z_order i 0) x y pixel)

unfoldable pub paint_panel : List Surface → Compositor → ℕ → ℕ → ℕ → ℕ
paint_panel surfaces c x y pixel = elim c.panel [
  | none ↦ pixel
  | some p ↦
      let s = surface_at surfaces p in
      if leb c.panel_y y && ltb y (u32 (c.panel_y + s.height))
      then surface_getpixel s x (y - c.panel_y)
      else pixel
]

unfoldable pub composed_pixel : List Surface → Compositor → ℕ → ℕ → ℕ
composed_pixel surfaces c x y =
    paint_panel surfaces c x y (paint_windows surfaces c x y c.window_count 0 c.background)

-- What a call of `surface_take_damage` on surface `p` leaves, and the damage taken.
unfoldable pub take_from : List Surface → ℕ → List Surface × Option Rect
take_from surfaces p =
    let (s, damage) = surface_take_damage (surface_at surfaces p) in (set surfaces p s, damage)

-- The compositor with the damage of a surface that stands at `(x, y)`, if it shows.
unfoldable pub add_taken : Compositor → Bool → ℕ → ℕ → Option Rect → Compositor
add_taken c visible x y none = c
add_taken c false x y (some d) = c
add_taken c true x y (some d) = compositor_damage c (u32 (x + d.x)) (u32 (y + d.y)) d.width d.height

-- The loop over the windows of `collect_surface_damage`, from window `id` on.
unfoldable pub collect_windows : ℕ → ℕ → List Surface → Compositor → List Surface × Compositor
collect_windows zero id surfaces c = (surfaces, c)
collect_windows (suc rounds) id surfaces c =
    let w = window_of c id in
    let (surfaces', damage) = take_from surfaces w.surface in
    collect_windows rounds (id + 1) surfaces' (add_taken c w.visible w.x w.y damage)

unfoldable pub collect_panel : Option ℕ → List Surface → Compositor → List Surface × Compositor
collect_panel none surfaces c = (surfaces, c)
collect_panel (some p) surfaces c =
    let (surfaces', damage) = take_from surfaces p in
    (surfaces', add_taken c true 0 c.panel_y damage)

unfoldable pub collect_surface_damage : List Surface → Compositor → List Surface × Compositor
collect_surface_damage surfaces c =
    let (surfaces', c') = collect_windows c.window_count 0 surfaces c in
    collect_panel c'.panel surfaces' c'

-- The rounds of a loop from `start` while below `start + size`, a sum of `uint32_t`: none where it
-- wraps around.
abbrev pub rounds_of : ℕ → ℕ → ℕ
rounds_of start size = u32 (start + size) - start

-- The loop over the columns from `x` on, over the rows from `y` on, and over the damage.
unfoldable pub present_row : List Surface → Compositor → ℕ → ℕ → ℕ → Gop → Gop
present_row surfaces c zero x y g = g
present_row surfaces c (suc rounds) x y g =
    present_row surfaces c rounds (x + 1) y (gop_putpixel g x y (composed_pixel surfaces c x y))

unfoldable pub present_rows : List Surface → Compositor → Rect → ℕ → ℕ → Gop → Gop
present_rows surfaces c r zero y g = g
present_rows surfaces c r (suc rounds) y g =
    present_rows surfaces c r rounds (y + 1)
      (present_row surfaces c (rounds_of r.x r.width) r.x y g)

unfoldable pub present_damage : List Surface → Compositor → ℕ → ℕ → Gop → Gop
present_damage surfaces c zero i g = g
present_damage surfaces c (suc rounds) i g =
    let r = damage_at c i in
    present_damage surfaces c rounds (i + 1)
      (present_rows surfaces c r (rounds_of r.y r.height) r.y g)

-- The sum of the areas of the damage.
unfoldable pub damaged_pixels : Compositor → ℕ → ℕ → ℕ
damaged_pixels c zero i = 0
damaged_pixels c (suc rounds) i =
    let r = damage_at c i in u64 (r.width * r.height + damaged_pixels c rounds (i + 1))

pub record Frame : Type 0 where
  pub surfaces : List Surface
  pub compositor : Compositor
  pub gop : Gop
  pub presented : Bool

-- The part of `compositor_present` that follows the collection of the damage.
unfoldable pub draw_frame : List Surface → Compositor → Gop → Frame
draw_frame surfaces c g =
    if c.damage_count == 0
    then record {
      surfaces = surfaces;
      compositor = record c { last_damage_count = 0 };
      gop = g;
      presented = true;
    }
    else record {
      surfaces = surfaces;
      compositor = record c {
        damage_count = 0;
        last_damage_count = c.damage_count;
        damage_pixels = u64 (c.damage_pixels + damaged_pixels c c.damage_count 0);
        frame_count = u64 (c.frame_count + 1);
      };
      gop = present_damage surfaces c c.damage_count 0 g;
      presented = true;
    }

unfoldable pub compositor_present : List Surface → Compositor → Gop → Frame
compositor_present surfaces c g =
    let collected = collect_surface_damage surfaces c in
    if not g.usable
    then record { surfaces = surfaces; compositor = c; gop = g; presented = false }
    else draw_frame collected.0 collected.1 g
