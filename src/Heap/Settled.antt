-- ===== src/Heap/Settled.antt =====
-- Rows of tiles of src/heap.c in which no two neighbours are free.
use argusos_uefi_v.Base.{
  ℕ, ◌+◌, ◌≡◌, refl, Bool, true, false, not, ◌&&◌, List, [], ◌∷◌, ◌++◌, leb, arith, if-both,
}
use argusos_uefi_v.Heap.Tiles.{Tile, fits, carve, place, merge_first, freed_tile, freed}

-- The same for a row after a tile that is free or not.
abbrev pub settled_after : Bool → List Tile → Bool
settled_after free [] = true
settled_after free (t ∷ ts) = not (free && t.free) && settled_after t.free ts

abbrev pub is_settled : List Tile → Bool
is_settled ts = settled_after false ts

settled_after_taken :
    (free : Bool) (ts : List Tile) → settled_after free ts ≡ true → is_settled ts ≡ true
settled_after_taken free [] ok = refl
settled_after_taken free (t ∷ ts) ok = ground arith

settled_after-carve :
    (free : Bool) (size : ℕ) (t : Tile) (ts : List Tile)
    → t.free ≡ true
    → settled_after free (t ∷ ts) ≡ true
    → settled_after free (carve size t ts) ≡ true
settled_after-carve free size t ts unused ok =
    let after : settled_after true ts ≡ true = ground arith in
    let taken = settled_after_taken true ts after in
    if-both (λ (row : List Tile). settled_after free row ≡ true) (leb (size + 48) t.size)
      (λ e. ground arith) (λ e. ground arith)

pub settled_after-place :
    (free : Bool) (size : ℕ) (ts : List Tile)
    → settled_after free ts ≡ true
    → settled_after free (place size ts) ≡ true
settled_after-place free size [] ok = refl
settled_after-place free size (t ∷ ts) ok =
    let others = settled_after-place t.free size ts (ground arith) in
    if-both (λ (row : List Tile). settled_after free row ≡ true) (fits t size)
      (λ e. settled_after-carve free size t ts (ground arith) ok) (λ e. ground arith)

merge_first-settled :
    (t : Tile) (ts : List Tile)
    → is_settled ts ≡ true
    → is_settled (merge_first (freed_tile t ∷ ts)) ≡ true
merge_first-settled t [] ok = refl
merge_first-settled t (u ∷ us) ok =
    if-both (λ (row : List Tile). is_settled row ≡ true) u.free (λ e. ground arith)
      (λ e. ground arith)

-- Both neighbours.
merge_both-settled :
    (free : Bool) (c t : Tile) (ts : List Tile)
    → c.free ≡ true
    → free ≡ false
    → is_settled ts ≡ true
    → settled_after free (merge_first (c ∷ merge_first (freed_tile t ∷ ts))) ≡ true
merge_both-settled free c t [] unused first ok = ground arith
merge_both-settled free c t (u ∷ us) unused first ok =
    if-both (λ (row : List Tile). settled_after free (merge_first (c ∷ row)) ≡ true) u.free
      (λ e. ground arith) (λ e. ground arith)

pub settled_after-freed :
    (before : List Tile) (free : Bool) (c t : Tile) (ts : List Tile)
    → t.free ≡ false
    → settled_after free (c ∷ before ++ t ∷ ts) ≡ true
    → settled_after free (freed (c ∷ before) t ts) ≡ true
settled_after-freed [] free c t ts taken ok =
    let others : is_settled ts ≡ true = ground arith in
    let row = merge_first-settled t ts others in
    if-both (λ (r : List Tile). settled_after free r ≡ true) c.free
      (λ e. merge_both-settled free c t ts e (ground arith) others) (λ e. ground arith)
settled_after-freed (d ∷ before) free c t ts taken ok =
    let others = settled_after-freed before c.free d t ts taken (ground arith) in ground arith

pub freed-settled :
    (before : List Tile) (t : Tile) (ts : List Tile)
    → t.free ≡ false
    → is_settled (before ++ t ∷ ts) ≡ true
    → is_settled (freed before t ts) ≡ true
freed-settled [] t ts taken ok = merge_first-settled t ts (ground arith)
freed-settled (c ∷ before) t ts taken ok = settled_after-freed before false c t ts taken ok
