-- ===== src/Surface/Tests.antt =====
-- A run of the surface's self test, and the theorems at a surface of eight by eight pixels.
use Prim.Native.Nat.{min}
use argusos_uefi_v.Base.{◌+◌, ◌≡◌, refl, true, replicate, ltb, if◌then◌else◌, arith}
use argusos_uefi_v.Raster.{in_rect, fill_row, fill_rows, copy_row, copy_rows}
use argusos_uefi_v.Surface.{
  Surface, zero_surface, surface_init, surface_valid, visible_part, join, surface_mark_dirty,
  surface_clear, surface_fill_rect, surface_getpixel, surface_scroll_rect_up, surface_take_damage,
}
use argusos_uefi_v.Surface.Damage.{IsSurface}
use argusos_uefi_v.Surface.Draw.{fill_rect_lem}
use argusos_uefi_v.Surface.Scroll.{scroll_rect_up_lem}
use argusos_uefi_v.Surface.Font.{font5x7_row}
use argusos_uefi_v.Surface.SelfTest.{surface_self_test}

self_test_passes : surface_self_test (replicate 64 0) ≡ true
unfolding surface_self_test surface_init surface_valid visible_part join surface_mark_dirty
    surface_clear surface_fill_rect surface_getpixel surface_scroll_rect_up surface_take_damage
    fill_row fill_rows copy_row copy_rows
self_test_passes = refl

-- The top row of an `a`, drawn as `A`.
glyph_row : font5x7_row 0x61 0 ≡ 0x0E
unfolding font5x7_row
glyph_row = refl

abbrev blank : Surface
blank = (surface_init zero_surface 8 8 (replicate 64 7)).0

blank-IsSurface : IsSurface blank
unfolding surface_init surface_valid
blank-IsSurface = record {
  valid = refl;
  wide = omega arith;
  high = omega arith;
  storage = omega arith;
  damaged = record { right = omega arith; bottom = omega arith };
}

blank_width : blank.width ≡ 8
unfolding surface_init
blank_width = refl

blank_height : blank.height ≡ 8
unfolding surface_init
blank_height = refl

fill_rect_lem_example :
    surface_getpixel (surface_fill_rect blank 2 2 3 20 5) 4 7
    ≡ (if in_rect 2 2 3 20 4 7 then 5 else surface_getpixel blank 4 7)
fill_rect_lem_example =
    fill_rect_lem blank 2 2 3 20 5 4 7 blank-IsSurface (omega (arith, blank_width))
      (omega (arith, blank_height))

scroll_rect_up_lem_example : surface_getpixel (surface_scroll_rect_up blank 0 0 8 8 2 9) 3 6 ≡ (
    if in_rect 0 0 8 8 3 6
    then (if ltb (6 + 2) (min (0 + 8) blank.height) then surface_getpixel blank 3 (6 + 2) else 9)
    else surface_getpixel blank 3 6)
scroll_rect_up_lem_example =
    scroll_rect_up_lem blank 0 0 8 8 2 9 3 6 blank-IsSurface (omega arith)
      (omega (arith, blank_width)) (omega (arith, blank_height))
