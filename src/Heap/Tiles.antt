-- ===== src/Heap/Tiles.antt =====
-- The heap of src/heap.c as a reader sees it: a row of tiles without gaps, each a size and whether
-- it is free, and the first fit on it.
use argusos_uefi_v.Base.{
  ℕ, ◌+◌, ◌*◌, ◌%◌, ◌≤◌, ◌<◌, ◌==◌, Bool-cases, inl, inr, length, ◌∙◌, if-both, ap, ◌++◌, ◌-◌, ◌≡◌,
  refl, Bool, true, false, not, ◌&&◌, List, [], ◌∷◌, leb, if◌then◌else◌, arith,
}

pub record Tile : Type 0 where
  pub size : ℕ
  pub free : Bool

-- The bytes of the tiles, with 32 for the header of each.
abbrev pub extent : List Tile → ℕ
extent [] = 0
extent (t ∷ ts) = 32 + t.size + extent ts

abbrev pub fits : Tile → ℕ → Bool
fits t size = t.free && leb size t.size

-- A tile is cut where what is left holds a header and 16 bytes.
abbrev pub carve : ℕ → Tile → List Tile → List Tile
carve size t ts =
    if leb (size + 48) t.size
    then record { size = size; free = false }
      ∷ record { size = t.size - size - 32; free = true }
      ∷ ts
    else record { size = t.size; free = false } ∷ ts

-- The tiles after an allocation in the first tile that fits.
abbrev pub place : ℕ → List Tile → List Tile
place size [] = []
place size (t ∷ ts) = if fits t size then carve size t ts else t ∷ place size ts

-- The address of the bytes of that tile, 0 where no tile fits.
abbrev pub place_at : ℕ → ℕ → List Tile → ℕ
place_at size start [] = 0
place_at size start (t ∷ ts) =
    if fits t size then start + 32 else place_at size (start + 32 + t.size) ts

-- A size is a multiple of 16 and not 0.
abbrev pub is_sized : ℕ → Bool
is_sized size = not (size == 0) && size % 16 == 0

abbrev pub are_sized : List Tile → Bool
are_sized [] = true
are_sized (t ∷ ts) = is_sized t.size && are_sized ts

are_sized-carve :
    (size : ℕ) (t : Tile) (ts : List Tile)
    → is_sized size ≡ true
    → is_sized t.size ≡ true
    → are_sized ts ≡ true
    → size ≤ t.size
    → are_sized (carve size t ts) ≡ true
are_sized-carve size t ts whole head tail enough = elim (Bool-cases (leb (size + 48) t.size)) [
  | inl e ↦ rw e (
      let left : is_sized (t.size - size - 32) ≡ true = ground arith in rw (whole, left, tail) refl)
  | inr e ↦ rw (e, head, tail) refl
]

pub extent-place : (size : ℕ) (ts : List Tile) → extent (place size ts) ≡ extent ts
extent-place size [] = refl
extent-place size (t ∷ ts) = let e = extent-place size ts in ground arith

pub are_sized-place :
    (size : ℕ) (ts : List Tile)
    → is_sized size ≡ true
    → are_sized ts ≡ true
    → are_sized (place size ts) ≡ true
are_sized-place size [] whole ok = refl
are_sized-place size (t ∷ ts) whole ok =
    let head : is_sized t.size ≡ true = ground arith in
    let tail : are_sized ts ≡ true = ground arith in
    let others = are_sized-place size ts whole tail in
    elim (Bool-cases (fits t size)) [
      | inl e ↦ rw e (are_sized-carve size t ts whole head tail (ground arith))
      | inr e ↦ rw e (ground arith)
    ]

-- The tiles are no more than the headers that fit in their bytes.
pub length-extent : (ts : List Tile) → 32 * length ts ≤ extent ts
length-extent [] = omega arith
length-extent (t ∷ ts) = let others = length-extent ts in omega arith

-- The first tile and the second as one, where the second is free.
abbrev pub merge_first : List Tile → List Tile
merge_first [] = []
merge_first (t ∷ []) = t ∷ []
merge_first (t ∷ u ∷ us) =
    if u.free then record { size = t.size + 32 + u.size; free = t.free } ∷ us else t ∷ u ∷ us

abbrev pub freed_tile : Tile → Tile
freed_tile t = record { size = t.size; free = true }

-- The tiles after the tile `t`, between `before` and `ts`, is freed.
abbrev pub freed : List Tile → Tile → List Tile → List Tile
freed [] t ts = merge_first (freed_tile t ∷ ts)
freed (c ∷ []) t ts =
    if c.free
    then merge_first (c ∷ merge_first (freed_tile t ∷ ts))
    else c ∷ merge_first (freed_tile t ∷ ts)
freed (c ∷ d ∷ before) t ts = c ∷ freed (d ∷ before) t ts

pub extent-merge_first : (ts : List Tile) → extent (merge_first ts) ≡ extent ts
extent-merge_first [] = refl
extent-merge_first (t ∷ []) = refl
extent-merge_first (t ∷ u ∷ us) = ground arith

pub are_sized-merge_first :
    (ts : List Tile) → are_sized ts ≡ true → are_sized (merge_first ts) ≡ true
are_sized-merge_first [] ok = ok
are_sized-merge_first (t ∷ []) ok = ok
are_sized-merge_first (t ∷ u ∷ us) ok = ground arith

-- Freeing a tile keeps the bytes that the tiles cover, and sizes that are multiples of 16.
pub extent-freed :
    (before : List Tile) (t : Tile) (ts : List Tile)
    → extent (freed before t ts) ≡ extent (before ++ t ∷ ts)
extent-freed [] t ts = extent-merge_first (freed_tile t ∷ ts)
extent-freed (c ∷ []) t ts =
    let one = extent-merge_first (freed_tile t ∷ ts) in
    let two = extent-merge_first (c ∷ merge_first (freed_tile t ∷ ts)) in
    if-both (λ (row : List Tile). extent row ≡ extent (c ∷ t ∷ ts)) c.free
      (λ e. two ∙ ap (λ n. 32 + c.size + n) one) (λ e. ap (λ n. 32 + c.size + n) one)
extent-freed (c ∷ d ∷ before) t ts = ap (λ n. 32 + c.size + n) (extent-freed (d ∷ before) t ts)

pub are_sized-freed :
    (before : List Tile) (t : Tile) (ts : List Tile)
    → are_sized (before ++ t ∷ ts) ≡ true
    → are_sized (freed before t ts) ≡ true
are_sized-freed [] t ts ok = are_sized-merge_first (freed_tile t ∷ ts) ok
are_sized-freed (c ∷ []) t ts ok =
    let inner : are_sized (t ∷ ts) ≡ true = ground arith in
    let one = are_sized-merge_first (freed_tile t ∷ ts) inner in
    let head : is_sized c.size ≡ true = ground arith in
    let both : are_sized (c ∷ merge_first (freed_tile t ∷ ts)) ≡ true = rw head one in
    if-both (λ (row : List Tile). are_sized row ≡ true) c.free
      (λ e. are_sized-merge_first (c ∷ merge_first (freed_tile t ∷ ts)) both) (λ e. both)
are_sized-freed (c ∷ d ∷ before) t ts ok =
    let head : is_sized c.size ≡ true = ground arith in
    let inner : are_sized (d ∷ before ++ t ∷ ts) ≡ true = ground arith in
    let others = are_sized-freed (d ∷ before) t ts inner in rw head others

pub extent-append : (before ts : List Tile) → extent (before ++ ts) ≡ extent before + extent ts
extent-append [] ts = omega arith
extent-append (c ∷ before) ts = let others = extent-append before ts in omega arith

-- A part of a row of tiles takes a multiple of 16 bytes, and a tile after it has a size.
pub are_sized-append :
    (before : List Tile) (t : Tile) (ts : List Tile)
    → are_sized (before ++ t ∷ ts) ≡ true
    → (extent before % 16 ≡ 0) × (0 < t.size)
are_sized-append [] t ts ok = (omega arith, ground arith)
are_sized-append (c ∷ before) t ts ok =
    let (whole, some_bytes) = are_sized-append before t ts (ground arith) in
    let head : c.size % 16 ≡ 0 = ground arith in (ground arith, some_bytes)

abbrev pub sum_tiles : Bool → List Tile → ℕ
sum_tiles free [] = 0
sum_tiles free (t ∷ ts) =
    (if (if free then t.free else not t.free) then t.size else 0) + sum_tiles free ts

pub sum_tiles-le : (free : Bool) (ts : List Tile) → sum_tiles free ts ≤ extent ts
sum_tiles-le free [] = omega arith
sum_tiles-le free (t ∷ ts) = let others = sum_tiles-le free ts in ground arith

-- The bytes that are free and those that are taken, with a header for each tile, are all bytes.
pub sum_tiles-extent :
    (ts : List Tile) → sum_tiles true ts + sum_tiles false ts + 32 * length ts ≡ extent ts
sum_tiles-extent [] = omega arith
sum_tiles-extent (t ∷ ts) = let others = sum_tiles-extent ts in ground arith
