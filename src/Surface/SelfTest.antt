-- ===== src/Surface/SelfTest.antt =====
-- src/surface.c `surface_self_test`, with the storage that `kmalloc` returns for its surface.
use argusos_uefi_v.Base.{
  ℕ, Bool, true, false, not, ◌&&◌, Option, none, some, List, ◌==◌, if◌then◌else◌,
}
use argusos_uefi_v.Surface.{
  Rect, zero_surface, surface_init, surface_clear, surface_fill_rect, surface_getpixel,
  surface_scroll_rect_up, surface_take_damage,
}

abbrev pub whole : Option Rect → Bool
whole none = false
whole (some r) = r.x == 0 && r.y == 0 && r.width == 8 && r.height == 8

abbrev pub untouched : Option Rect → Bool
untouched none = true
untouched (some r) = false

unfoldable pub surface_self_test : List ℕ → Bool
surface_self_test storage =
    let (s, made) = surface_init zero_surface 8 8 storage in
    let t = surface_fill_rect (surface_clear s 0x11) 2 2 3 3 0x22 in
    let u = surface_scroll_rect_up t 2 2 3 3 1 0x33 in
    let (v, damage) = surface_take_damage u in
    if not made
    then false
    else (surface_getpixel t 0 0 == 0x11
        && surface_getpixel t 2 2 == 0x22
        && surface_getpixel t 4 4 == 0x22
        && surface_getpixel t 5 5 == 0x11
        && surface_getpixel u 2 4 == 0x33
        && whole damage
        && untouched (surface_take_damage v).1)
