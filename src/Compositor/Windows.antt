-- ===== src/Compositor/Windows.antt =====
-- src/compositor.c: the calls that add, move, raise, show and hide windows and set the panel.
use Prim.Native.Nat.{bit_and, bit_or}
use argusos_uefi_v.Base.{
  ℕ, zero, suc, ◌+◌, ◌-◌, ◌^◌, Bool, true, false, not, ◌&&◌, ◌||◌, Option, none, some, List, ltb,
  leb, ◌==◌, if◌then◌else◌, get_or, set, take, find_slot,
}
use argusos_uefi_v.Base.Words.{u8, sub32}
use argusos_uefi_v.Surface.{Surface, surface_valid}
use argusos_uefi_v.Compositor.{
  Window, Compositor, max_windows, surface_at, window_of, compositor_damage, damage_window,
}

-- The place of a window, moved so that it lies within the limit.
abbrev pub place : ℕ → ℕ → ℕ → ℕ
place limit size at = if ltb (sub32 limit size) at then sub32 limit size else at

unfoldable pub refuses_window : List Surface → Compositor → ℕ → Bool
refuses_window surfaces c p =
    let s = surface_at surfaces p in
    not (surface_valid s)
    || leb max_windows c.window_count
    || ltb c.width s.width
    || ltb c.work_height s.height

-- The new compositor and the identifier of the window, or `none` where 0 is returned.
unfoldable pub compositor_add_window : List Surface → Compositor → ℕ → ℕ → ℕ → Compositor × Option ℕ
compositor_add_window surfaces c p x y =
    if refuses_window surfaces c p
    then (c, none)
    else (let s = surface_at surfaces p in
        let id = c.window_count in
        let w : Window = record {
          surface = p;
          x = place c.width s.width x;
          y = place c.work_height s.height y;
          visible = true;
        } in
        (
          damage_window surfaces
              (record c {
                window_count = id + 1;
                windows = set c.windows id w;
                z_order = set c.z_order id (u8 id);
              })
              w,
          some id,
        ))

unfoldable pub compositor_set_panel : List Surface → Compositor → ℕ → ℕ → Compositor × Bool
compositor_set_panel surfaces c p y =
    let s = surface_at surfaces p in
    if not (surface_valid s)
      || not (s.width == c.width)
      || leb c.height y
      || ltb (c.height - y) s.height
    then (c, false)
    else (compositor_damage (record c { panel = some p; panel_y = y }) 0 y s.width s.height, true)

unfoldable pub compositor_move_window : List Surface → Compositor → ℕ → ℕ → ℕ → Compositor × Bool
compositor_move_window surfaces c id x y =
    let w = window_of c id in
    let s = surface_at surfaces w.surface in
    let x' = place c.width s.width x in
    let y' = place c.work_height s.height y in
    let moved = record w { x = x'; y = y' } in
    let before = damage_window surfaces c w in
    let c' = record before { windows = set before.windows id moved } in
    if leb c.window_count id || not w.visible || not (surface_valid s)
    then (c, false)
    else (if x' == w.x && y' == w.y then (c, true) else (damage_window surfaces c' moved, true))

-- `for (i = position; i + 1 < window_count; ++i) z_order[i] = z_order[i + 1];`.
unfoldable pub shift_order : ℕ → ℕ → List ℕ → List ℕ
shift_order zero i z = z
shift_order (suc rounds) i z = shift_order rounds (i + 1) (set z i (get_or z (i + 1) 0))

unfoldable pub raised : Compositor → ℕ → ℕ → Compositor
raised c id position =
    let last = c.window_count - 1 in
    record c { z_order = set (shift_order (last - position) position c.z_order) last (u8 id) }

unfoldable pub compositor_raise_window : List Surface → Compositor → ℕ → Compositor × Bool
compositor_raise_window surfaces c id =
    if leb c.window_count id
    then (c, false)
    else elim (find_slot (λ z. z == id) (take c.window_count c.z_order)) [
      | none ↦ (c, false)
      | some position ↦
          if position + 1 == c.window_count
          then (c, true)
          else (damage_window surfaces (raised c id position) (window_of c id), true)
    ]

abbrev pub same : Bool → Bool → Bool
same true b = b
same false b = not b

unfoldable pub compositor_set_window_visible :
    List Surface → Compositor → ℕ → Bool → Compositor × Bool
compositor_set_window_visible surfaces c id next =
    let w = window_of c id in
    let before = damage_window surfaces c w in
    if leb c.window_count id
    then (c, false)
    else (if same w.visible next then (c, true) else (
      record before { windows = set before.windows id (record w { visible = next }) },
      true,
    ))

unfoldable pub compositor_window_visible : Compositor → ℕ → Bool
compositor_window_visible c id = ltb id c.window_count && (window_of c id).visible

-- The loop of `compositor_visible_window_count`, with the rounds that are left.
unfoldable pub count_visible : Compositor → ℕ → ℕ → ℕ
count_visible c zero id = 0
count_visible c (suc rounds) id =
    (if (window_of c id).visible then 1 else 0) + count_visible c rounds (id + 1)

unfoldable pub compositor_visible_window_count : Compositor → ℕ
unfolding count_visible
compositor_visible_window_count c = count_visible c c.window_count 0

-- The loop of `compositor_validate` over the stack, with the set of identifiers seen so far.
unfoldable pub validate_windows : List Surface → Compositor → ℕ → ℕ → ℕ → Bool
validate_windows surfaces c zero i seen = true
validate_windows surfaces c (suc rounds) i seen =
    let id = get_or c.z_order i 0 in
    let w = window_of c id in
    let s = surface_at surfaces w.surface in
    let rest = validate_windows surfaces c rounds (i + 1) (bit_or seen (2 ^ id)) in
    if leb c.window_count id || not (bit_and seen (2 ^ id) == 0)
    then false
    else (if not (surface_valid s)
          || ltb (sub32 c.width s.width) w.x
          || ltb (sub32 c.work_height s.height) w.y
        then false
        else rest)

unfoldable pub validate_panel : List Surface → Compositor → Bool
validate_panel surfaces c = elim c.panel [
  | none ↦ true
  | some p ↦
      let s = surface_at surfaces p in
      surface_valid s && s.width == c.width && leb c.panel_y (sub32 c.height s.height)
]

unfoldable pub compositor_validate : List Surface → Compositor → Bool
compositor_validate surfaces c =
    if c.width == 0
      || c.height == 0
      || c.work_height == 0
      || ltb c.height c.work_height
      || ltb max_windows c.window_count
      || ltb 16 c.damage_count
    then false
    else (validate_windows surfaces c c.window_count 0 0 && validate_panel surfaces c)
