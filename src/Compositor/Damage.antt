-- ===== src/Compositor/Damage.antt =====
-- src/compositor.c `compositor_damage`: what the list of damaged rectangles covers.
use argusos_uefi_v.Base.{
  ℕ, ◌+◌, ◌-◌, ◌^◌, ◌≤◌, ◌<◌, ◌≡◌, ◌≢◌, ◌⊎◌, ◌∙◌, inl, inr, refl, sym, true, some, List, ◌==◌,
  length, set, take, find_slot, arith, Option-cases, Bool-cases, ℕ-eq-cases, length-set,
  length-take, get_or-set_self, get_or-set_ne, find_slot-some,
}
use argusos_uefi_v.Raster.{in_rect}
use argusos_uefi_v.Surface.{Rect, minimum, zero_rect, join}
use argusos_uefi_v.Surface.Damage.{Within, covers, join-Within, join-covers}
use argusos_uefi_v.Compositor.{
  Compositor, max_damage, damage_at, rectangles_touch, clip, whole_screen, add_damage,
  compositor_damage,
}

pub record IsDamage (c : Compositor) : Type 0 where
  pub wide : c.width < 2 ^ 32
  pub high : c.height < 2 ^ 32
  pub slots : length c.damage ≡ max_damage
  pub few : c.damage_count ≤ max_damage
  pub within : (i : ℕ) → i < c.damage_count → Within c.width c.height (damage_at c i)

-- A pixel that the next frame draws.
pub record IsDamaged (c : Compositor) (px py : ℕ) : Type 0 where
  pub at : ℕ
  pub counted : at < c.damage_count
  pub covered : covers (damage_at c at) px py ≡ true

clip_lem :
    (c : Compositor) (x y width height : ℕ) (r : Rect)
    → clip c x y width height ≡ some r
    → Within c.width c.height r
unfolding clip
clip_lem c x y width height r h = record { right = ground arith; bottom = ground arith }

clip-covers :
    (c : Compositor) (x y width height px py : ℕ)
    → px < c.width
    → py < c.height
    → in_rect x y width height px py ≡ true
    → (r : Rect) × (clip c x y width height ≡ some r) × (covers r px py ≡ true)
unfolding clip
clip-covers c x y width height px py hx hy h = (
  record {
    x = x;
    y = y;
    width = minimum width (c.width - x);
    height = minimum height (c.height - y);
  },
  ground arith,
  ground arith,
)

-- The three things that `add_damage` can do.
pub data Adds (c : Compositor) (r : Rect) : Type 0 where
  joins :
      (i : ℕ)
      → i < c.damage_count
      → add_damage c r ≡ record c { damage = set c.damage i (join (damage_at c i) r) }
      → Adds c r
  overflows :
      add_damage c r ≡ record c { damage_count = 1; damage = set c.damage 0 (whole_screen c) }
      → Adds c r
  appends :
      c.damage_count < max_damage
      → add_damage c r
        ≡ record c { damage = set c.damage c.damage_count r; damage_count = c.damage_count + 1 }
      → Adds c r

add_damage_cases : (c : Compositor) (r : Rect) → IsDamage c → Adds c r
unfolding add_damage
add_damage_cases c r ok =
    elim (Option-cases (find_slot (λ d. rectangles_touch d r) (take c.damage_count c.damage))) [
      | inl apart ↦ elim (Bool-cases (c.damage_count == max_damage)) [
        | inl full ↦ overflows (rw (apart, full, add_damage) refl)
        | inr room ↦ appends (ground (arith, ok.few)) (rw (apart, room, add_damage) refl)
      ]
      | inr (i, touching) ↦
          joins i
            (omega (
              arith,
              (find_slot-some (λ d. rectangles_touch d r) zero_rect (take c.damage_count c.damage) i
                  touching).0,
              length-take c.damage_count c.damage,
            ))
            (rw (touching, add_damage) refl)
    ]

-- Writing one rectangle keeps the others where they are.
set_within :
    (c : Compositor) (i : ℕ) (r : Rect) (count : ℕ)
    → IsDamage c
    → i < max_damage
    → count ≤ max_damage
    → Within c.width c.height r
    → ((j : ℕ) → j < count → j ≢ i → j < c.damage_count)
    → IsDamage (record c { damage = set c.damage i r; damage_count = count })
set_within c i r count ok hi few within old = record {
  wide = ok.wide;
  high = ok.high;
  slots = length-set c.damage i r ∙ ok.slots;
  few = few;
  within = λ j l. elim (ℕ-eq-cases i j) [
    | inl e ↦ rw (sym e, get_or-set_self c.damage i r zero_rect (omega (arith, ok.slots))) within
    | inr ne ↦
        rw (get_or-set_ne c.damage i j r zero_rect ne) (ok.within j (old j l (λ e. ne (sym e))))
  ];
}

add_damage-IsDamage :
    (c : Compositor) (r : Rect) → IsDamage c → Within c.width c.height r → IsDamage (add_damage c r)
add_damage-IsDamage c r ok within = go (add_damage_cases c r ok)
  where
    go : Adds c r → IsDamage (add_damage c r)
    go (joins i l e) = rw e (
        set_within c i (join (damage_at c i) r) c.damage_count ok (omega (arith, ok.few)) ok.few
          (join-Within c.width c.height (damage_at c i) r ok.wide ok.high (ok.within i l) within)
          (λ j k _. k))
    go (overflows e) = rw e (
        set_within c 0 (whole_screen c) 1 ok (omega arith) (omega arith)
          (record { right = omega arith; bottom = omega arith }) (λ j k ne. absurd (omega arith)))
    go (appends room e) = rw e (
        set_within c c.damage_count r (c.damage_count + 1) ok room (omega arith) within
          (λ j k ne. omega arith))

written_covers :
    (c : Compositor) (i : ℕ) (r : Rect) (count px py : ℕ)
    → IsDamage c
    → i < max_damage
    → i < count
    → covers r px py ≡ true
    → IsDamaged (record c { damage = set c.damage i r; damage_count = count }) px py
written_covers c i r count px py ok hi counted covered = record {
  at = i;
  counted = counted;
  covered = rw (get_or-set_self c.damage i r zero_rect (omega (arith, ok.slots))) covered;
}

kept_covers :
    (c : Compositor) (i : ℕ) (r : Rect) (count px py : ℕ) (d : IsDamaged c px py)
    → d.at ≢ i
    → c.damage_count ≤ count
    → IsDamaged (record c { damage = set c.damage i r; damage_count = count }) px py
kept_covers c i r count px py d ne more = record {
  at = d.at;
  counted = omega (arith, d.counted);
  covered = rw (get_or-set_ne c.damage i d.at r zero_rect (λ e. ne (sym e))) d.covered;
}

add_damage-covers :
    (c : Compositor) (r : Rect) (px py : ℕ)
    → IsDamage c
    → Within c.width c.height r
    → px < c.width
    → py < c.height
    → IsDamaged c px py ⊎ (covers r px py ≡ true)
    → IsDamaged (add_damage c r) px py
add_damage-covers c r px py ok within hx hy h = go (add_damage_cases c r ok) h
  where
    wider : (i : ℕ) → i < c.damage_count → Within c.width c.height (damage_at c i)
    wider i l = ok.within i l

    go : Adds c r → IsDamaged c px py ⊎ (covers r px py ≡ true) → IsDamaged (add_damage c r) px py
    go (joins i l e) (inl d) = rw e (elim (ℕ-eq-cases d.at i) [
      | inl here ↦
          written_covers c i (join (damage_at c i) r) c.damage_count px py ok
            (omega (arith, ok.few)) l
            (join-covers c.width c.height (damage_at c i) r px py ok.wide ok.high (wider i l) within
              (inl (rw (sym here) d.covered)))
      | inr other ↦
          kept_covers c i (join (damage_at c i) r) c.damage_count px py d other (omega arith)
    ])
    go (joins i l e) (inr new) = rw e (
        written_covers c i (join (damage_at c i) r) c.damage_count px py ok (omega (arith, ok.few))
          l
          (join-covers c.width c.height (damage_at c i) r px py ok.wide ok.high (wider i l) within
            (inr new)))
    go (overflows e) _ =
        rw e (
          written_covers c 0 (whole_screen c) 1 px py ok (omega arith) (omega arith) (ground arith))
    go (appends room e) (inl d) = rw e (
        kept_covers c c.damage_count r (c.damage_count + 1) px py d (omega (arith, d.counted))
          (omega arith))
    go (appends room e) (inr new) =
        rw e
          (written_covers c c.damage_count r (c.damage_count + 1) px py ok room (omega arith) new)

pub compositor_damage-IsDamage :
    (c : Compositor) (x y width height : ℕ)
    → IsDamage c
    → IsDamage (compositor_damage c x y width height)
unfolding compositor_damage
compositor_damage-IsDamage c x y width height ok = elim (Option-cases (clip c x y width height)) [
  | inl off ↦ rw (off, compositor_damage) ok
  | inr (r, on) ↦
      rw (on, compositor_damage) (add_damage-IsDamage c r ok (clip_lem c x y width height r on))
]

-- Every pixel of the screen that was damaged, or lies in the rectangle, is damaged after
-- `compositor_damage`, also where the list of rectangles is full.
pub damage_covers :
    (c : Compositor) (x y width height px py : ℕ)
    → IsDamage c
    → px < c.width
    → py < c.height
    → IsDamaged c px py ⊎ (in_rect x y width height px py ≡ true)
    → IsDamaged (compositor_damage c x y width height) px py
unfolding compositor_damage
damage_covers c x y width height px py ok hx hy (inr marked) =
    let (r, on, covered) = clip-covers c x y width height px py hx hy marked in
    rw (on, compositor_damage)
      (add_damage-covers c r px py ok (clip_lem c x y width height r on) hx hy (inr covered))
damage_covers c x y width height px py ok hx hy (inl d) =
    elim (Option-cases (clip c x y width height)) [
      | inl off ↦ rw (off, compositor_damage) d
      | inr (r, on) ↦
          rw (on, compositor_damage)
            (add_damage-covers c r px py ok (clip_lem c x y width height r on) hx hy (inl d))
    ]

-- Damaging changes the list of rectangles and nothing else.
pub damage_frame :
    (c : Compositor) (x y width height : ℕ)
    → (d : List Rect) × (n : ℕ) × (compositor_damage c x y width height
        ≡ record c { damage = d; damage_count = n })
unfolding compositor_damage add_damage
damage_frame c x y width height = elim (Option-cases (clip c x y width height)) [
  | inl off ↦ (c.damage, c.damage_count, rw (off, compositor_damage) refl)
  | inr (r, on) ↦
      elim (Option-cases (find_slot (λ d. rectangles_touch d r) (take c.damage_count c.damage))) [
        | inl apart ↦ elim (Bool-cases (c.damage_count == max_damage)) [
          | inl full ↦ (
            set c.damage 0 (whole_screen c),
            1,
            rw (on, compositor_damage, apart, full, add_damage) refl,
          )
          | inr room ↦ (
            set c.damage c.damage_count r,
            c.damage_count + 1,
            rw (on, compositor_damage, apart, room, add_damage) refl,
          )
        ]
        | inr (i, touching) ↦ (
          set c.damage i (join (damage_at c i) r),
          c.damage_count,
          rw (on, compositor_damage, touching, add_damage) refl,
        )
      ]
]
