-- ===== src/Compositor/Raise.antt =====
-- src/compositor.c `compositor_raise_window`: the order of the windows, and the pixels that change.
use argusos_uefi_v.Base.{
  ℕ, zero, suc, ◌+◌, ◌-◌, ◌≤◌, ◌<◌, ◌≡◌, ◌⊎◌, ◌∙◌, inl, inr, refl, sym, ap, true, false, ◌&&◌, some,
  List, ltb, leb, ◌==◌, if◌then◌else◌, length, get_or, set, take, find_slot, arith, Bool-cases,
  Option-cases, length-set, length-take, get_or-take, get_or-set_self, get_or-set_ne,
  find_slot-some,
}
use argusos_uefi_v.Base.Words.{u8}
use argusos_uefi_v.Surface.{Surface}
use argusos_uefi_v.Compositor.{Compositor, window_of}
use argusos_uefi_v.Compositor.Damage.{IsDamage}
use argusos_uefi_v.Compositor.Gop.{Gop}
use argusos_uefi_v.Compositor.Frame.{
  paint_panel, paint_window, paint_windows, composed_pixel, shows,
}
use argusos_uefi_v.Compositor.Stack.{layer, shows-in_rect, paint_windows_agree}
use argusos_uefi_v.Compositor.Fresh.{Fresh, IsScene, window_rect, drawn-Fresh}
use argusos_uefi_v.Compositor.Windows.{shift_order, raised, compositor_raise_window}

length-shift_order : (n i : ℕ) (z : List ℕ) → length (shift_order n i z) ≡ length z
unfolding shift_order
length-shift_order zero i z = refl
length-shift_order (suc n) i z =
    length-shift_order n (i + 1) (set z i (get_or z (i + 1) 0))
    ∙ length-set z i (get_or z (i + 1) 0)

get_or-shift_order :
    (n i : ℕ) (z : List ℕ) (k : ℕ)
    → i + n < length z
    → get_or (shift_order n i z) k 0
      ≡ (if leb i k && ltb k (i + n) then get_or z (k + 1) 0 else get_or z k 0)
unfolding shift_order
get_or-shift_order zero i z k h = ground arith
get_or-shift_order (suc n) i z k h =
    let v = get_or z (i + 1) 0 in
    let size = length-set z i v in
    let rest = get_or-shift_order n (i + 1) (set z i v) k (omega arith) in
    ground
      (arith, rest, get_or-set_self z i v 0, get_or-set_ne z i k v 0, get_or-set_ne z i (k + 1) v 0)

-- The stack after a window was raised from `position`.
pub raised_order :
    (c : Compositor) (id position k : ℕ)
    → c.window_count ≤ length c.z_order
    → position + 1 < c.window_count
    → id < 256
    → k < c.window_count
    → get_or (raised c id position).z_order k 0 ≡ (
        if ltb k position
        then get_or c.z_order k 0
        else (if k + 1 == c.window_count then id else get_or c.z_order (k + 1) 0))
unfolding raised
raised_order c id position k room below small l =
    let last = c.window_count - 1 in
    let shifted = shift_order (last - position) position c.z_order in
    let size = length-shift_order (last - position) position c.z_order in
    ground (
      arith,
      get_or-shift_order (last - position) position c.z_order k,
      get_or-set_self shifted last (u8 id) 0,
      get_or-set_ne shifted last k (u8 id) 0,
    )

pub paint_split :
    (surfaces : List Surface) (c : Compositor) (x y a b i pixel : ℕ)
    → paint_windows surfaces c x y (a + b) i pixel
      ≡ paint_windows surfaces c x y b (i + a) (paint_windows surfaces c x y a i pixel)
unfolding paint_windows
paint_split surfaces c x y zero b i pixel =
    let none : 0 + b ≡ b = omega arith in
    let here : i ≡ i + 0 = omega arith in λ k. paint_windows surfaces c x y (none k) (here k) pixel
paint_split surfaces c x y (suc a) b i pixel =
    let more : suc a + b ≡ suc (a + b) = omega arith in
    let on : i + 1 + a ≡ i + suc a = omega arith in
    let first = layer surfaces c i x y pixel in
    ap (λ (n : ℕ). paint_windows surfaces c x y n i pixel) more
    ∙ paint_split surfaces c x y a b (i + 1) first
    ∙ ap
        (λ (j : ℕ). paint_windows surfaces c x y b j (paint_windows surfaces c x y a (i + 1) first))
        on

-- The stack around a window that does not show at the pixel.
paint_around :
    (surfaces : List Surface) (c : Compositor) (x y p r i pixel : ℕ)
    → shows surfaces (window_of c (get_or c.z_order (i + p) 0)) x y ≡ false
    → paint_windows surfaces c x y (p + suc r) i pixel
      ≡ paint_windows surfaces c x y r (i + p + 1) (paint_windows surfaces c x y p i pixel)
unfolding paint_windows
paint_around surfaces c x y p r i pixel hidden =
    paint_split surfaces c x y p (suc r) i pixel ∙ rw hidden refl

-- The stack whose last window does not show at the pixel.
pub paint_below :
    (surfaces : List Surface) (c : Compositor) (x y n i pixel : ℕ)
    → shows surfaces (window_of c (get_or c.z_order (i + n) 0)) x y ≡ false
    → paint_windows surfaces c x y (n + 1) i pixel ≡ paint_windows surfaces c x y n i pixel
unfolding paint_windows
paint_below surfaces c x y n i pixel hidden =
    paint_split surfaces c x y n 1 i pixel ∙ rw hidden refl

zero_add : (p : ℕ) → 0 + p ≡ p
zero_add p = omega arith

-- Where the raised window does not show, the others are painted in the same order as before.
module _ (surfaces : List Surface) (c : Compositor) (id p x y : ℕ)
    (room : c.window_count ≤ length c.z_order) (below : p + 1 < c.window_count) (small : id < 256)
    (found : get_or c.z_order p 0 ≡ id) (hidden : shows surfaces (window_of c id) x y ≡ false) where
  order_at :
      (k : ℕ)
      → k < c.window_count
      → get_or (raised c id p).z_order k 0 ≡ (
          if ltb k p
          then get_or c.z_order k 0
          else (if k + 1 == c.window_count then id else get_or c.z_order (k + 1) 0))
  order_at k l = raised_order c id p k room below small l

  layers_below :
      (pixel : ℕ)
      → paint_windows surfaces c x y p 0 pixel
        ≡ paint_windows surfaces (raised c id p) x y p 0 pixel
  unfolding raised
  layers_below pixel =
      paint_windows_agree surfaces surfaces c (raised c id p) x y p 0 0 pixel (λ k q l.
        ap (λ (z : ℕ). paint_window surfaces c z x y q)
          (ground (arith, order_at (0 + k) (omega arith))))

  layers_above :
      (r pixel : ℕ)
      → p + r + 1 ≡ c.window_count
      → paint_windows surfaces c x y r (0 + p + 1) pixel
        ≡ paint_windows surfaces (raised c id p) x y r (0 + p) pixel
  unfolding raised
  layers_above r pixel count =
      paint_windows_agree surfaces surfaces c (raised c id p) x y r (0 + p + 1) (0 + p) pixel
        (λ k q l.
          let on : 0 + p + 1 + k ≡ 0 + p + k + 1 = omega arith in
          ap (λ (z : ℕ). paint_window surfaces c z x y q)
            (ap (λ (j : ℕ). get_or c.z_order j 0) on
              ∙ ground (arith, order_at (0 + p + k) (omega arith))))

  raised_hidden : shows surfaces (window_of (raised c id p) id) x y ≡ false
  unfolding raised
  raised_hidden = hidden

  windows_raised :
      (pixel : ℕ)
      → paint_windows surfaces c x y c.window_count 0 pixel
        ≡ paint_windows surfaces (raised c id p) x y c.window_count 0 pixel
  windows_raised pixel =
      let r = c.window_count - p - 1 in
      let middle : c.window_count ≡ p + suc r = omega arith in
      let end : c.window_count ≡ p + r + 1 = omega arith in
      let here : get_or c.z_order (0 + p) 0 ≡ id =
        ap (λ (j : ℕ). get_or c.z_order j 0) (zero_add p) ∙ found in
      let top : get_or (raised c id p).z_order (0 + (p + r)) 0 ≡ id =
        ground (arith, order_at (0 + (p + r)) (omega arith)) in
      ap (λ (n : ℕ). paint_windows surfaces c x y n 0 pixel) middle
      ∙ paint_around surfaces c x y p r 0 pixel (rw here hidden)
      ∙ ap (paint_windows surfaces c x y r (0 + p + 1)) (layers_below pixel)
      ∙ layers_above r (paint_windows surfaces (raised c id p) x y p 0 pixel) (sym end)
      ∙ sym (paint_split surfaces (raised c id p) x y p r 0 pixel)
      ∙ sym (paint_below surfaces (raised c id p) x y (p + r) 0 pixel (rw top (raised_hidden)))
      ∙ ap (λ (n : ℕ). paint_windows surfaces (raised c id p) x y n 0 pixel) (sym end)

  composed-raised : composed_pixel surfaces c x y ≡ composed_pixel surfaces (raised c id p) x y
  unfolding composed_pixel paint_panel raised
  composed-raised = ap (paint_panel surfaces c x y) (windows_raised c.background)

lower_position :
    (c : Compositor) (id p : ℕ)
    → find_slot (λ z. z == id) (take c.window_count c.z_order) ≡ some p
    → (p < c.window_count) × (get_or c.z_order p 0 ≡ id)
lower_position c id p found =
    let (l, is_id) = find_slot-some (λ z. z == id) 0 (take c.window_count c.z_order) p found in
    let counted : p < c.window_count = omega (arith, length-take c.window_count c.z_order) in
    (counted, sym (get_or-take c.window_count c.z_order p 0 counted) ∙ ground (arith, is_id))

raised-Fresh :
    (surfaces : List Surface) (c : Compositor) (g : Gop) (id p px py : ℕ)
    → IsScene c
    → id < c.window_count
    → p + 1 < c.window_count
    → get_or c.z_order p 0 ≡ id
    → Fresh surfaces c g px py
    → Fresh surfaces (raised c id p) g px py ⊎ (window_rect surfaces (window_of c id) px py ≡ true)
unfolding raised Fresh
raised-Fresh surfaces c g id p px py ok known lower found f =
    let w = window_of c id in
    elim (Bool-cases (window_rect surfaces w px py)) [
      | inl inside ↦ inr inside
      | inr outside ↦ inl (elim f [
        | inl d ↦ inl (record { at = d.at; counted = d.counted; covered = d.covered })
        | inr shown ↦ inr (
            shown
            ∙ composed-raised surfaces c id p px py (omega (arith, ok.order, ok.few)) lower
                (omega (arith, ok.few)) found (shows-in_rect surfaces w px py outside))
      ])
    ]

raised-IsDamage : (c : Compositor) (id p : ℕ) → IsDamage c → IsDamage (raised c id p)
unfolding raised
raised-IsDamage c id p ok = record {
  wide = ok.wide;
  high = ok.high;
  slots = ok.slots;
  few = ok.few;
  within = ok.within;
}

raised_size :
    (c : Compositor) (id p : ℕ)
    → ((raised c id p).width ≡ c.width) × ((raised c id p).height ≡ c.height)
unfolding raised
raised_size c id p = (refl, refl)

-- Raising a window, or a call of it that is refused, leaves no stale pixel.
pub raise_window-Fresh :
    (surfaces : List Surface) (c : Compositor) (g : Gop) (id px py : ℕ)
    → IsScene c
    → px < c.width
    → py < c.height
    → Fresh surfaces c g px py
    → Fresh surfaces (compositor_raise_window surfaces c id).0 g px py
unfolding compositor_raise_window
raise_window-Fresh surfaces c g id px py ok hx hy f = elim (Bool-cases (leb c.window_count id)) [
  | inl refused ↦ rw (refused, compositor_raise_window) f
  | inr known ↦ elim (Option-cases (find_slot (λ z. z == id) (take c.window_count c.z_order))) [
    | inl missing ↦ rw (known, missing, compositor_raise_window) f
    | inr (p, found) ↦ elim (Bool-cases (p + 1 == c.window_count)) [
      | inl top ↦ rw (known, found, top, compositor_raise_window) f
      | inr lower ↦
          rw (known, found, lower, compositor_raise_window)
            (let (counted, is_id) = lower_position c id p found in
              drawn-Fresh surfaces (raised c id p) g (window_of c id) px py
                (raised-IsDamage c id p ok.damage) (rw ((raised_size c id p).0) hx)
                (rw ((raised_size c id p).1) hy)
                (raised-Fresh surfaces c g id p px py ok (ground arith) (ground arith) is_id f))
    ]
  ]
]
