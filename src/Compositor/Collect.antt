-- ===== src/Compositor/Collect.antt =====
-- src/compositor.c `collect_surface_damage`: the list of damaged rectangles that it leaves.
use argusos_uefi_v.Base.{ℕ, zero, suc, ◌+◌, Bool, true, false, Option, none, some, List}
use argusos_uefi_v.Base.Words.{u32}
use argusos_uefi_v.Surface.{Rect, Surface}
use argusos_uefi_v.Compositor.{Compositor, window_of}
use argusos_uefi_v.Compositor.Damage.{IsDamage, compositor_damage-IsDamage}
use argusos_uefi_v.Compositor.Frame.{
  take_from, add_taken, collect_windows, collect_panel, collect_surface_damage,
}

add_taken-IsDamage :
    (c : Compositor) (visible : Bool) (x y : ℕ) (taken : Option Rect)
    → IsDamage c
    → IsDamage (add_taken c visible x y taken)
unfolding add_taken
add_taken-IsDamage c visible x y none ok = ok
add_taken-IsDamage c false x y (some d) ok = ok
add_taken-IsDamage c true x y (some d) ok =
    compositor_damage-IsDamage c (u32 (x + d.x)) (u32 (y + d.y)) d.width d.height ok

collect_windows-IsDamage :
    (n id : ℕ) (surfaces : List Surface) (c : Compositor)
    → IsDamage c
    → IsDamage (collect_windows n id surfaces c).1
unfolding collect_windows
collect_windows-IsDamage zero id surfaces c ok = ok
collect_windows-IsDamage (suc n) id surfaces c ok =
    let w = window_of c id in
    let (surfaces', damage) = take_from surfaces w.surface in
    collect_windows-IsDamage n (id + 1) surfaces' (add_taken c w.visible w.x w.y damage)
      (add_taken-IsDamage c w.visible w.x w.y damage ok)

collect_panel-IsDamage :
    (panel : Option ℕ) (surfaces : List Surface) (c : Compositor)
    → IsDamage c
    → IsDamage (collect_panel panel surfaces c).1
unfolding collect_panel
collect_panel-IsDamage none surfaces c ok = ok
collect_panel-IsDamage (some p) surfaces c ok =
    add_taken-IsDamage c true 0 c.panel_y (take_from surfaces p).1 ok

-- Collecting the damage of the surfaces keeps the list of rectangles well formed.
pub collect-IsDamage :
    (surfaces : List Surface) (c : Compositor)
    → IsDamage c
    → IsDamage (collect_surface_damage surfaces c).1
unfolding collect_surface_damage
collect-IsDamage surfaces c ok =
    let (surfaces', c') = collect_windows c.window_count 0 surfaces c in
    collect_panel-IsDamage c'.panel surfaces' c'
      (collect_windows-IsDamage c.window_count 0 surfaces c ok)
