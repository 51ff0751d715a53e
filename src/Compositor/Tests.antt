-- ===== src/Compositor/Tests.antt =====
-- Two windows of two by two pixels on a screen of four by four, and the theorems at them.
use argusos_uefi_v.Base.{
  ℕ, zero, suc, ◌≡◌, inl, inr, refl, true, false, none, some, List, [], ◌∷◌, replicate, arith,
  find_slot,
}
use argusos_uefi_v.Surface.{
  Surface, zero_rect, surface_valid, surface_getpixel, surface_take_damage, join,
}
use argusos_uefi_v.Compositor.{
  Compositor, zero_window, compositor_damage, add_damage, clip, rectangles_touch, damage_window,
  window_surface,
}
use argusos_uefi_v.Compositor.Windows.{
  compositor_add_window, refuses_window, compositor_move_window, compositor_raise_window, raised,
  shift_order, compositor_validate, validate_windows, validate_panel,
}
use argusos_uefi_v.Compositor.Damage.{IsDamage, IsDamaged, damage_covers}
use argusos_uefi_v.Compositor.Gop.{Gop, IsGop, gop_getpixel, gop_putpixel}
use argusos_uefi_v.Compositor.Frame.{
  shows, paint_windows, paint_panel, composed_pixel, window_at, compositor_window_at, take_from,
  add_taken, collect_windows, collect_panel, collect_surface_damage, present_row, present_rows,
  present_damage, damaged_pixels, draw_frame, compositor_present, rounds_of,
}
use argusos_uefi_v.Compositor.Fresh.{Fresh, IsScene, move_window-Fresh}
use argusos_uefi_v.Compositor.Raise.{raise_window-Fresh}
use argusos_uefi_v.Compositor.Present.{present_lem}
use argusos_uefi_v.Compositor.Pointer.{IsDrawable, window_at_lem}

abbrev flat : ℕ → Surface
flat color = record {
  pixels = replicate 4 color;
  width = 2;
  height = 2;
  stride = 2;
  dirty = false;
  damage = zero_rect;
}

abbrev pair : List Surface
pair = flat 5 ∷ flat 6 ∷ []

abbrev empty : Compositor
empty = record {
  width = 4;
  height = 4;
  work_height = 4;
  background = 1;
  windows = replicate 8 zero_window;
  z_order = replicate 8 0;
  window_count = 0;
  panel = none;
  panel_y = 0;
  damage = replicate 16 zero_rect;
  damage_count = 0;
  frame_count = 0;
  damage_pixels = 0;
  last_damage_count = 0;
}

-- The window of surface 0 at the left, that of surface 1 over its right half.
abbrev scene : Compositor
scene = record empty {
  windows =
      record { surface = 0; x = 0; y = 0; visible = true }
      ∷ record { surface = 1; x = 1; y = 0; visible = true }
      ∷ replicate 6 zero_window;
  z_order = 0 ∷ 1 ∷ replicate 6 0;
  window_count = 2;
}

-- The calls that make the scene.
scene_made :
    (compositor_add_window pair (compositor_add_window pair empty 0 0 0).0 1 1 0).0.z_order
    ≡ scene.z_order
unfolding compositor_add_window refuses_window surface_valid damage_window compositor_damage clip
    add_damage rectangles_touch join find_slot
scene_made = refl

scene_valid : compositor_validate pair scene ≡ true
unfolding compositor_validate validate_windows validate_panel surface_valid
scene_valid = refl

-- A screen that shows the scene.
abbrev screen : Gop
screen = record {
  usable = true;
  width = 4;
  height = 4;
  pitch_pixels = 4;
  fb = 5 ∷ 6 ∷ 6 ∷ 1 ∷ 5 ∷ 6 ∷ 6 ∷ 1 ∷ replicate 8 1;
}

screen-IsGop : IsGop screen
screen-IsGop = record { ready = refl; pitch = omega arith; storage = omega arith }

scene-IsDamage : IsDamage scene
scene-IsDamage = record {
  wide = omega arith;
  high = omega arith;
  slots = refl;
  few = omega arith;
  within = λ i l. absurd (omega arith);
}

scene-IsScene : IsScene scene
scene-IsScene = record { damage = scene-IsDamage; slots = refl; order = refl; few = omega arith }

corner-Fresh : Fresh pair scene screen 1 1
unfolding Fresh gop_getpixel composed_pixel paint_windows paint_panel shows surface_getpixel
    surface_valid
corner-Fresh = inr refl

damage_covers_example : IsDamaged (compositor_damage scene 1 1 9 9) 3 2
damage_covers_example =
    damage_covers scene 1 1 9 9 3 2 scene-IsDamage (omega arith) (omega arith) (inr refl)

move_window-Fresh_example : Fresh pair (compositor_move_window pair scene 1 2 2).0 screen 1 1
move_window-Fresh_example =
    move_window-Fresh pair scene screen 1 2 2 1 1 scene-IsScene (omega arith) (omega arith)
      corner-Fresh

raise_window-Fresh_example : Fresh pair (compositor_raise_window pair scene 0).0 screen 1 1
raise_window-Fresh_example =
    raise_window-Fresh pair scene screen 0 1 1 scene-IsScene (omega arith) (omega arith)
      corner-Fresh

-- After the raise the next frame shows window 0 at the pixel.
abbrev raised_scene : Compositor
raised_scene = record scene {
  z_order = 1 ∷ 0 ∷ replicate 6 0;
  damage_count = 1;
  damage = record { x = 0; y = 0; width = 2; height = 2 } ∷ replicate 15 zero_rect;
}

raise_redraws : (compositor_raise_window pair scene 0).0.z_order ≡ raised_scene.z_order
unfolding compositor_raise_window raised shift_order damage_window compositor_damage clip add_damage
    find_slot
raise_redraws = refl

raised-Fresh :
    Fresh
      (collect_surface_damage pair raised_scene).0
      (collect_surface_damage pair raised_scene).1
      screen
      1
      1
unfolding Fresh collect_surface_damage collect_windows collect_panel take_from add_taken
    surface_take_damage surface_valid
raised-Fresh = inl (record { at = 0; counted = omega arith; covered = refl })

raised_scene-IsDamage : IsDamage raised_scene
raised_scene-IsDamage = record {
  wide = omega arith;
  high = omega arith;
  slots = refl;
  few = omega arith;
  within = λ i l.
      let first : i ≡ 0 = omega arith in
      rw first (record { right = omega arith; bottom = omega arith });
}

-- A sum that wraps around leaves no round.
wrapped_row : rounds_of 1 0xffff_ffff ≡ 0
wrapped_row = refl

present_lem_example :
    let frame = compositor_present pair raised_scene screen in
    gop_getpixel frame.gop 1 1 ≡ composed_pixel frame.surfaces frame.compositor 1 1
present_lem_example =
    present_lem pair raised_scene screen 1 1 screen-IsGop raised_scene-IsDamage (omega arith)
      (omega arith) raised-Fresh

frame_pixel : gop_getpixel (compositor_present pair raised_scene screen).gop 1 1 ≡ 5
unfolding compositor_present draw_frame present_damage present_rows present_row gop_putpixel
    gop_getpixel damaged_pixels composed_pixel paint_windows paint_panel shows surface_getpixel
    collect_surface_damage collect_windows collect_panel take_from add_taken surface_take_damage
    surface_valid
frame_pixel = refl

pair-IsDrawable : IsDrawable pair scene
unfolding surface_valid
pair-IsDrawable zero l = refl
pair-IsDrawable (suc zero) l = refl
pair-IsDrawable (suc (suc k)) l = absurd (omega arith)

no_panel : (pixel : ℕ) → paint_panel pair scene 1 1 pixel ≡ pixel
unfolding paint_panel
no_panel pixel = refl

under_pointer : compositor_window_at pair scene 1 1 ≡ some (1, (0, 1))
unfolding compositor_window_at window_at shows surface_valid
under_pointer = refl

window_at_lem_example :
    composed_pixel pair scene 1 1 ≡ surface_getpixel (window_surface pair scene 1) 0 1
window_at_lem_example = window_at_lem pair scene 1 1 1 0 1 pair-IsDrawable no_panel under_pointer
