-- ===== src/Surface.antt =====
-- src/surface.c: the drawing surfaces, buffers of pixels with the rectangle that was changed since
-- the last time it was taken. A surface is passed and returned; `pixels` is the storage, the empty
-- list for a null pointer. What `kmalloc` answers is passed to `surface_init`, and `surface_destroy`,
-- which hands the storage back to `kfree`, has no counterpart. src/font5x7.c is in Font.
pub mod Font
pub mod Damage
pub mod Draw
pub mod Scroll
pub mod Text
mod SelfTest
mod Tests
use Prim.Native.Nat.{bit_and, min, max}
use argusos_uefi_v.Base.{
  ℕ, zero, suc, ◌+◌, ◌-◌, ◌*◌, ◌/◌, Bool, true, false, not, ◌&&◌, ◌||◌, Option, none, some, List,
  [], ◌∷◌, ltb, leb, ◌==◌, if◌then◌else◌, get_or, set,
}
use argusos_uefi_v.Base.Words.{u32, sub32, uint64_max}
use argusos_uefi_v.Raster.{fill_rows, copy_rows}

-- `argus_rect_t`.
pub record Rect : Type 0 where
  pub x : ℕ
  pub y : ℕ
  pub width : ℕ
  pub height : ℕ

-- `argus_surface_t`.
pub record Surface : Type 0 where
  pub pixels : List ℕ
  pub width : ℕ
  pub height : ℕ
  pub stride : ℕ
  pub dirty : Bool
  pub damage : Rect

abbrev pub zero_rect : Rect
zero_rect = record { x = 0; y = 0; width = 0; height = 0 }

abbrev pub zero_surface : Surface
zero_surface = record {
  pixels = [];
  width = 0;
  height = 0;
  stride = 0;
  dirty = false;
  damage = zero_rect;
}

abbrev pub is_null : List ℕ → Bool
is_null [] = true
is_null (p ∷ pixels) = false

abbrev pub minimum : ℕ → ℕ → ℕ
minimum left right = if ltb left right then left else right

abbrev pub maximum : ℕ → ℕ → ℕ
maximum left right = if ltb right left then left else right

unfoldable pub surface_valid : Surface → Bool
surface_valid s =
    not (is_null s.pixels) && not (s.width == 0) && not (s.height == 0) && leb s.width s.stride

-- `storage` is what `kmalloc` returns for `width * height * 4` bytes.
unfoldable pub surface_init : Surface → ℕ → ℕ → List ℕ → Surface × Bool
surface_init s width height storage =
    if width == 0 || height == 0 || ltb (uint64_max / 4) (width * height)
    then (s, false)
    else (if is_null storage then (s, false) else (
      record {
        pixels = storage;
        width = width;
        height = height;
        stride = width;
        dirty = false;
        damage = zero_rect;
      },
      true,
    ))

-- The smallest rectangle around two, as `surface_mark_dirty` and `compositor_damage` compute it.
unfoldable pub join : Rect → Rect → Rect
join a b =
    let left = minimum a.x b.x in
    let top = minimum a.y b.y in
    let right = maximum (u32 (a.x + a.width)) (u32 (b.x + b.width)) in
    let bottom = maximum (u32 (a.y + a.height)) (u32 (b.y + b.height)) in
    record { x = left; y = top; width = sub32 right left; height = sub32 bottom top }

-- The guards of the drawing calls: the surface can be drawn on, and the clipped rectangle is not
-- empty.
unfoldable pub visible_part : Surface → ℕ → ℕ → ℕ → ℕ → Option Rect
visible_part s x y width height =
    if not (surface_valid s) || leb s.width x || leb s.height y
    then none
    else (let w = minimum width (s.width - x) in
        let h = minimum height (s.height - y) in
        if w == 0 || h == 0 then none else some (record { x = x; y = y; width = w; height = h }))

unfoldable pub surface_mark_dirty : Surface → ℕ → ℕ → ℕ → ℕ → Surface
surface_mark_dirty s x y width height = elim (visible_part s x y width height) [
  | none ↦ s
  | some r ↦
      if not s.dirty
      then record s { damage = r; dirty = true }
      else record s { damage = join s.damage r }
]

unfoldable pub surface_take_damage : Surface → Surface × Option Rect
surface_take_damage s =
    if not (surface_valid s) || not s.dirty
    then (s, none)
    else (record s { dirty = false; damage = zero_rect }, some s.damage)

unfoldable pub surface_clear : Surface → ℕ → Surface
surface_clear s color =
    if not (surface_valid s)
    then s
    else surface_mark_dirty
        (record s { pixels = fill_rows s.stride 0 s.width color s.height 0 s.pixels }) 0 0 s.width
        s.height

unfoldable pub surface_fill_rect : Surface → ℕ → ℕ → ℕ → ℕ → ℕ → Surface
surface_fill_rect s x y width height color = elim (visible_part s x y width height) [
  | none ↦ s
  | some r ↦
      surface_mark_dirty
        (record s { pixels = fill_rows s.stride x r.width color r.height y s.pixels }) x y r.width
        r.height
]

unfoldable pub surface_putpixel : Surface → ℕ → ℕ → ℕ → Surface
surface_putpixel s x y color =
    if not (surface_valid s) || leb s.width x || leb s.height y
    then s
    else surface_mark_dirty (record s { pixels = set s.pixels (y * s.stride + x) color }) x y 1 1

unfoldable pub surface_getpixel : Surface → ℕ → ℕ → ℕ
surface_getpixel s x y =
    if not (surface_valid s) || leb s.width x || leb s.height y
    then 0
    else get_or s.pixels (y * s.stride + x) 0

unfoldable pub surface_scroll_rect_up : Surface → ℕ → ℕ → ℕ → ℕ → ℕ → ℕ → Surface
surface_scroll_rect_up s x y width height up fill_color =
    if up == 0 then s else elim (visible_part s x y width height) [
      | none ↦ s
      | some r ↦
          if leb r.height up
          then surface_fill_rect s x y r.width r.height fill_color
          else (let rows = r.height - up in
              let copied = record s { pixels = copy_rows s.stride x r.width up rows y s.pixels } in
              surface_mark_dirty (surface_fill_rect copied x (u32 (y + rows)) r.width up fill_color)
                x y r.width r.height)
    ]
