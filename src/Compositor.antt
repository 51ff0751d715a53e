-- ===== src/Compositor.antt =====
-- src/compositor.c: windows, each a surface at a place, stacked in `z_order` over a background, with
-- a panel over them all, and the rectangles of the screen that have to be drawn again.
-- A compositor is passed and returned. A pointer to a surface is an index into the list `surfaces`
-- of all surfaces, so that two windows can share one; null pointers that the functions refuse have
-- no counterpart. The screen is that of src/gop.c, in Gop.
pub mod Windows
pub mod Frame
pub mod Gop
pub mod Damage
pub mod Collect
pub mod Stack
pub mod Fresh
pub mod Raise
pub mod Present
pub mod Pointer
mod Tests
use argusos_uefi_v.Base.{
  ℕ, zero, suc, ◌+◌, ◌-◌, ◌*◌, ◌^◌, Bool, true, false, not, ◌&&◌, ◌||◌, Option, none, some, List,
  [], ◌∷◌, ltb, leb, ◌==◌, if◌then◌else◌, get_or, set, take, replicate, find_slot,
}
use argusos_uefi_v.Base.Words.{u8, u32, u64}
use argusos_uefi_v.Surface.{
  Rect, Surface, zero_rect, zero_surface, minimum, join, surface_valid, surface_getpixel,
  surface_take_damage,
}

abbrev pub max_windows : ℕ
max_windows = 8

abbrev pub max_damage : ℕ
max_damage = 16

-- `argus_compositor_window_t`.
pub record Window : Type 0 where
  pub surface : ℕ
  pub x : ℕ
  pub y : ℕ
  pub visible : Bool

-- `argus_compositor_t`.
pub record Compositor : Type 0 where
  pub width : ℕ
  pub height : ℕ
  pub work_height : ℕ
  pub background : ℕ
  pub windows : List Window
  pub z_order : List ℕ
  pub window_count : ℕ
  pub panel : Option ℕ
  pub panel_y : ℕ
  pub damage : List Rect
  pub damage_count : ℕ
  pub frame_count : ℕ
  pub damage_pixels : ℕ
  pub last_damage_count : ℕ

abbrev pub zero_window : Window
zero_window = record { surface = 0; x = 0; y = 0; visible = false }

abbrev pub surface_at : List Surface → ℕ → Surface
surface_at surfaces p = get_or surfaces p zero_surface

abbrev pub window_of : Compositor → ℕ → Window
window_of c id = get_or c.windows id zero_window

abbrev pub damage_at : Compositor → ℕ → Rect
damage_at c i = get_or c.damage i zero_rect

abbrev pub window_surface : List Surface → Compositor → ℕ → Surface
window_surface surfaces c id = surface_at surfaces (window_of c id).surface

-- The sums are taken in 64 bits, so they do not wrap.
unfoldable pub rectangles_touch : Rect → Rect → Bool
rectangles_touch left right =
    leb left.x (right.x + right.width)
    && leb right.x (left.x + left.width)
    && leb left.y (right.y + right.height)
    && leb right.y (left.y + left.height)

unfoldable pub compositor_init : Compositor → ℕ → ℕ → ℕ → ℕ → Compositor × Bool
compositor_init c width height work_height background =
    if width == 0 || height == 0 || work_height == 0 || ltb height work_height
    then (c, false)
    else (
      record {
        width = width;
        height = height;
        work_height = work_height;
        background = background;
        windows = replicate max_windows zero_window;
        z_order = replicate max_windows 0;
        window_count = 0;
        panel = none;
        panel_y = 0;
        damage = replicate max_damage zero_rect;
        damage_count = 0;
        frame_count = 0;
        damage_pixels = 0;
        last_damage_count = 0;
      },
      true,
    )

-- The rectangle clipped to the screen, if anything is left of it.
unfoldable pub clip : Compositor → ℕ → ℕ → ℕ → ℕ → Option Rect
clip c x y width height =
    if leb c.width x || leb c.height y
    then none
    else (let w = minimum width (c.width - x) in
        let h = minimum height (c.height - y) in
        if w == 0 || h == 0 then none else some (record { x = x; y = y; width = w; height = h }))

abbrev pub whole_screen : Compositor → Rect
whole_screen c = record { x = 0; y = 0; width = c.width; height = c.height }

unfoldable pub compositor_damage_all : Compositor → Compositor
compositor_damage_all c = record c { damage_count = 1; damage = set c.damage 0 (whole_screen c) }

-- The first rectangle that touches the new one takes it in; else it is appended, or the whole
-- screen is damaged where there is no room.
unfoldable pub add_damage : Compositor → Rect → Compositor
add_damage c incoming =
    elim (find_slot (λ d. rectangles_touch d incoming) (take c.damage_count c.damage)) [
      | some i ↦ record c { damage = set c.damage i (join (damage_at c i) incoming) }
      | none ↦
          if c.damage_count == max_damage
          then record c { damage_count = 1; damage = set c.damage 0 (whole_screen c) }
          else record c {
            damage = set c.damage c.damage_count incoming;
            damage_count = c.damage_count + 1;
          }
    ]

unfoldable pub compositor_damage : Compositor → ℕ → ℕ → ℕ → ℕ → Compositor
compositor_damage c x y width height = elim (clip c x y width height) [
  | none ↦ c
  | some incoming ↦ add_damage c incoming
]

-- `compositor_damage` of the whole window.
unfoldable pub damage_window : List Surface → Compositor → Window → Compositor
damage_window surfaces c w =
    let s = surface_at surfaces w.surface in compositor_damage c w.x w.y s.width s.height
