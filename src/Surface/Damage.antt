-- ===== src/Surface/Damage.antt =====
-- src/surface.c `surface_mark_dirty`: what the damage of a surface covers.
use Prim.Native.Nat.{min}
use argusos_uefi_v.Base.{
  ℕ, ◌+◌, ◌-◌, ◌*◌, ◌^◌, ◌≤◌, ◌<◌, ◌≡◌, ◌⊎◌, ◌∙◌, inl, inr, refl, sym, Bool, true, false, ◌&&◌,
  none, some, length, arith, Option-cases, Bool-cases,
}
use argusos_uefi_v.Base.Words.{u32, sub32}
use argusos_uefi_v.Raster.{in_rect, in_range}
use argusos_uefi_v.Surface.{
  minimum, maximum, Rect, Surface, surface_valid, visible_part, join, surface_mark_dirty,
}

abbrev pub covers : Rect → ℕ → ℕ → Bool
covers r = in_rect r.x r.y r.width r.height

-- A rectangle within a width and a height, of which both are 32-bit words.
pub record Within (width height : ℕ) (r : Rect) : Type 0 where
  pub right : r.x + r.width ≤ width
  pub bottom : r.y + r.height ≤ height

pub join-Within :
    (width height : ℕ) (a b : Rect)
    → width < 2 ^ 32
    → height < 2 ^ 32
    → Within width height a
    → Within width height b
    → Within width height (join a b)
unfolding join
join-Within width height a b hw hh wa wb = record { right = ground arith; bottom = ground arith }

-- Along one axis, the joined range has what either range has.
joined_range :
    (limit a n b m i : ℕ)
    → limit < 2 ^ 32
    → a + n ≤ limit
    → b + m ≤ limit
    → (in_range a n i ≡ true) ⊎ (in_range b m i ≡ true)
    → in_range (minimum a b) (sub32 (maximum (u32 (a + n)) (u32 (b + m))) (minimum a b)) i ≡ true
joined_range limit a n b m i hl ha hb (inl h) = ground arith
joined_range limit a n b m i hl ha hb (inr h) = ground arith

axis_cases : (p q : Bool) → (p && q) ≡ true → (p ≡ true) × (q ≡ true)
axis_cases true true h = (refl, refl)
axis_cases true false h = absurd (cc)
axis_cases false q h = absurd (cc)

pub join-covers :
    (width height : ℕ) (a b : Rect) (px py : ℕ)
    → width < 2 ^ 32
    → height < 2 ^ 32
    → Within width height a
    → Within width height b
    → (covers a px py ≡ true) ⊎ (covers b px py ≡ true)
    → covers (join a b) px py ≡ true
unfolding join
join-covers width height a b px py hw hh wa wb (inl h) =
    let (in_x, in_y) = axis_cases (in_range a.x a.width px) (in_range a.y a.height py) h in
    rw
      (
        joined_range width a.x a.width b.x b.width px hw wa.right wb.right (inl in_x),
        joined_range height a.y a.height b.y b.height py hh wa.bottom wb.bottom (inl in_y),
      )
      refl
join-covers width height a b px py hw hh wa wb (inr h) =
    let (in_x, in_y) = axis_cases (in_range b.x b.width px) (in_range b.y b.height py) h in
    rw
      (
        joined_range width a.x a.width b.x b.width px hw wa.right wb.right (inr in_x),
        joined_range height a.y a.height b.y b.height py hh wa.bottom wb.bottom (inr in_y),
      )
      refl

-- The invariant of a surface that can be drawn on: its pixels are there, and its damage lies on it.
pub record IsSurface (s : Surface) : Type 0 where
  pub valid : surface_valid s ≡ true
  pub wide : s.width < 2 ^ 32
  pub high : s.height < 2 ^ 32
  pub storage : s.height * s.stride ≤ length s.pixels
  pub damaged : Within s.width s.height s.damage

-- The rectangle that is left of the one asked for.
pub visible_part_lem :
    (s : Surface) (x y width height : ℕ) (r : Rect)
    → visible_part s x y width height ≡ some r
    → (r.x ≡ x)
      × (r.y ≡ y)
      × Within s.width s.height r
      × (r.width ≡ min width (s.width - x))
      × (r.height ≡ min height (s.height - y))
unfolding visible_part
visible_part_lem s x y width height r h = ground arith

pub visible_part-covers :
    (s : Surface) (x y width height px py : ℕ)
    → surface_valid s ≡ true
    → px < s.width
    → py < s.height
    → in_rect x y width height px py ≡ true
    → (r : Rect) × (visible_part s x y width height ≡ some r) × (covers r px py ≡ true)
unfolding visible_part
visible_part-covers s x y width height px py v hx hy h = (
  record {
    x = x;
    y = y;
    width = minimum width (s.width - x);
    height = minimum height (s.height - y);
  },
  ground arith,
  ground arith,
)

with_damage :
    (s : Surface) (r : Rect) (b : Bool)
    → IsSurface s
    → Within s.width s.height r
    → IsSurface (record s { damage = r; dirty = b })
unfolding surface_valid
with_damage s r b ok within = record {
  valid = ok.valid;
  wide = ok.wide;
  high = ok.high;
  storage = ok.storage;
  damaged = within;
}

-- What `surface_mark_dirty` does, by what is left of the rectangle and whether the surface is dirty.
mark_dirty_cases :
    (s : Surface) (x y width height : ℕ)
    → ((visible_part s x y width height ≡ none) × (surface_mark_dirty s x y width height ≡ s))
      ⊎ ((r : Rect) × (visible_part s x y width height ≡ some r)
          × (((s.dirty ≡ true)
                × (surface_mark_dirty s x y width height
                    ≡ record s { damage = join s.damage r; dirty = true }))
              ⊎ ((s.dirty ≡ false)
                  × (surface_mark_dirty s x y width height
                      ≡ record s { damage = r; dirty = true }))))
unfolding surface_mark_dirty
mark_dirty_cases s x y width height = elim (Option-cases (visible_part s x y width height)) [
  | inl outside ↦ inl (outside, rw (outside, surface_mark_dirty) refl)
  | inr (r, inside) ↦ inr (
    r,
    inside,
    elim (Bool-cases s.dirty) [
      | inl dirty ↦ inl (dirty, ground arith)
      | inr clean ↦ inr (clean, ground arith)
    ],
  )
]

pub mark_dirty-IsSurface :
    (s : Surface) (x y width height : ℕ)
    → IsSurface s
    → IsSurface (surface_mark_dirty s x y width height)
mark_dirty-IsSurface s x y width height ok = elim (mark_dirty_cases s x y width height) [
  | inl (outside, e) ↦ rw e ok
  | inr (r, inside, inl (dirty, e)) ↦
      let (_, _, within, _, _) = visible_part_lem s x y width height r inside in
      rw e (
        with_damage s (join s.damage r) true ok
          (join-Within s.width s.height s.damage r ok.wide ok.high ok.damaged within))
  | inr (r, inside, inr (clean, e)) ↦
      let (_, _, within, _, _) = visible_part_lem s x y width height r inside in
      rw e (with_damage s r true ok within)
]

abbrev pub damaged : Surface → ℕ → ℕ → Bool
damaged s px py = s.dirty && covers s.damage px py

same_part : (a b : Rect) → some a ≡ some b → a ≡ b
same_part a b e = ground arith

marked-covers :
    (s : Surface) (x y width height px py : ℕ) (r : Rect)
    → surface_valid s ≡ true
    → px < s.width
    → py < s.height
    → visible_part s x y width height ≡ some r
    → in_rect x y width height px py ≡ true
    → covers r px py ≡ true
marked-covers s x y width height px py r v hx hy inside marked =
    let (q, found, c) = visible_part-covers s x y width height px py v hx hy marked in
    rw (same_part r q (sym inside ∙ found)) c

-- Every pixel of the surface that was damaged or is marked is damaged afterwards.
pub mark_dirty_covers :
    (s : Surface) (x y width height px py : ℕ)
    → IsSurface s
    → px < s.width
    → py < s.height
    → (damaged s px py ≡ true) ⊎ (in_rect x y width height px py ≡ true)
    → damaged (surface_mark_dirty s x y width height) px py ≡ true
mark_dirty_covers s x y width height px py ok hx hy h = elim (mark_dirty_cases s x y width height) [
  | inl (outside, e) ↦ rw e (elim h [
    | inl before ↦ before
    | inr marked ↦
        let (r, inside, _) = visible_part-covers s x y width height px py ok.valid hx hy marked in
        absurd (ground arith)
  ])
  | inr (r, inside, inl (dirty, e)) ↦
      let (_, _, within, _, _) = visible_part_lem s x y width height r inside in
      rw e (
        join-covers s.width s.height s.damage r px py ok.wide ok.high ok.damaged within (elim h [
          | inl before ↦ inl (axis_cases s.dirty (covers s.damage px py) before).1
          | inr marked ↦ inr (marked-covers s x y width height px py r ok.valid hx hy inside marked)
        ]))
  | inr (r, inside, inr (clean, e)) ↦ rw e (elim h [
    | inl before ↦ absurd (ground arith)
    | inr marked ↦ marked-covers s x y width height px py r ok.valid hx hy inside marked
  ])
]

-- Marking changes nothing but the damage.
pub mark_dirty_frame :
    (s : Surface) (x y width height : ℕ)
    → (d : Rect) × (b : Bool) × (surface_mark_dirty s x y width height
        ≡ record s { damage = d; dirty = b })
mark_dirty_frame s x y width height = elim (mark_dirty_cases s x y width height) [
  | inl (outside, e) ↦ (s.damage, s.dirty, e)
  | inr (r, inside, inl (dirty, e)) ↦ (join s.damage r, true, e)
  | inr (r, inside, inr (clean, e)) ↦ (r, true, e)
]
