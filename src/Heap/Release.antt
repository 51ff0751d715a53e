-- ===== src/Heap/Release.antt =====
-- src/heap.c, the end of `kfree`: the block that is released and its two neighbours.
use argusos_uefi_v.Base.{
  ℕ, ◌+◌, ◌^◌, ◌<◌, ◌≤◌, ◌≡◌, ◌∙◌, refl, ap, Bool, true, false, List, [], ◌∷◌, ◌==◌, if◌then◌else◌,
  arith, inl, inr, Bool-cases, if-both,
}
use argusos_uefi_v.Heap.{HeapBlock, put, merge_with_next, release_block}
use argusos_uefi_v.Heap.Tiles.{Tile, extent, merge_first, freed_tile, freed, extent-merge_first}
use argusos_uefi_v.Heap.Chain.{pointer, header, Chain, linked, put_self, put_ne, Chain-agree}
use argusos_uefi_v.Heap.Merge.{merge-Chain}

-- The block `start`, once it is free and one with a free block after it.
abbrev freed_memory : (ℕ → HeapBlock) → ℕ → ℕ → HeapBlock
freed_memory memory block =
    merge_with_next (put memory block (record (memory block) { free = true })) block

freed_memory-Chain :
    (memory : ℕ → HeapBlock) (previous start : ℕ) (t : Tile) (ts : List Tile)
    → 64 ≤ start
    → start + extent (t ∷ ts) < 2 ^ 64
    → Chain memory previous start (t ∷ ts)
    → Chain (freed_memory memory start) previous start (merge_first (freed_tile t ∷ ts))
      × ((x : ℕ) → x < start → freed_memory memory start x ≡ memory x)
freed_memory-Chain memory previous start t ts low room (linked h others) =
    let b : HeapBlock = record (memory start) { free = true } in
    let (chain, below) =
      merge-Chain (put memory start b) previous start (freed_tile t) ts low room (
        linked (put_self memory start b ∙ ap (λ (c : HeapBlock). record c { free = true }) h) (
          Chain-agree memory (put memory start b) start (start + 32 + t.size) ts
            (λ x above. put_ne memory start b x (ground arith)) others)) in
    (chain, λ x under. below x under ∙ put_ne memory start b x (ground arith))

-- The header of a row is that of its first tile.
first_previous :
    (memory : ℕ → HeapBlock) (previous start : ℕ) (t : Tile) (ts : List Tile)
    → Chain memory previous start (merge_first (t ∷ ts))
    → (memory start).previous ≡ previous
first_previous memory previous start t [] (linked h others) = ap (λ (b : HeapBlock). b.previous) h
first_previous memory previous start t (u ∷ us) chain = go u.free chain
  where
    go :
        (free : Bool)
        → Chain memory previous start (
            if free then record { size = t.size + 32 + u.size; free = t.free } ∷ us else t ∷ u ∷ us)
        → (memory start).previous ≡ previous
    go true (linked h others) = ap (λ (b : HeapBlock). b.previous) h
    go false (linked h others) = ap (λ (b : HeapBlock). b.previous) h

pub pointer-merge_first :
    (start : ℕ) (t : Tile) (ts : List Tile) → pointer start (merge_first (t ∷ ts)) ≡ start
pointer-merge_first start t [] = refl
pointer-merge_first start t (u ∷ us) =
    if-both (λ (row : List Tile). pointer start row ≡ start) u.free (λ e. refl) (λ e. refl)

pub release_first :
    (memory : ℕ → HeapBlock) (start : ℕ) (t : Tile) (ts : List Tile)
    → 64 ≤ start
    → start + extent (t ∷ ts) < 2 ^ 64
    → Chain memory 0 start (t ∷ ts)
    → Chain (release_block memory start) 0 start (freed [] t ts)
unfolding release_block
release_first memory start t ts low room chain =
    let (done, below) = freed_memory-Chain memory 0 start t ts low room chain in
    let alone = first_previous (freed_memory memory start) 0 start (freed_tile t) ts done in
    rw alone done

header-row :
    (previous start : ℕ) (c t : Tile) (ts : List Tile)
    → header previous start c (t ∷ ts) ≡ header previous start c (merge_first (freed_tile t ∷ ts))
header-row previous start c t ts =
    rw (pointer-merge_first (start + 32 + c.size) (freed_tile t) ts) refl

-- The block at `start + 32 + c.size`, after the block `c`.
pub release_second :
    (memory : ℕ → HeapBlock) (previous start : ℕ) (c t : Tile) (ts : List Tile)
    → 64 ≤ start
    → start + extent (c ∷ t ∷ ts) < 2 ^ 64
    → Chain memory previous start (c ∷ t ∷ ts)
    → Chain (release_block memory (start + 32 + c.size)) previous start (freed (c ∷ []) t ts)
      × ((x : ℕ) → x < start → release_block memory (start + 32 + c.size) x ≡ memory x)
unfolding release_block
release_second memory previous start c t ts low room (linked h others) =
    let block = start + 32 + c.size in
    let (done, below) =
      freed_memory-Chain memory start block t ts (omega arith) (omega arith) others in
    let before = first_previous (freed_memory memory block) start block (freed_tile t) ts done in
    let kept = below start (omega arith) in
    let free : (freed_memory memory block start).free ≡ c.free =
      ap (λ (b : HeapBlock). b.free) (kept ∙ h) in
    let row = merge_first (freed_tile t ∷ ts) in
    let length = extent-merge_first (freed_tile t ∷ ts) in
    let real : (start == 0) ≡ false = ground arith in
    let joined : Chain (freed_memory memory block) previous start (c ∷ row) =
      linked (kept ∙ h ∙ header-row previous start c t ts) done in
    elim (Bool-cases c.free) [
      | inl e ↦
          let (whole, under) =
            merge-Chain (freed_memory memory block) previous start c row low (omega arith) joined in
          simp (before, real, free, e)
            (whole, λ x below_start. under x below_start ∙ below x (omega arith))
      | inr e ↦ simp (before, real, free, e) (joined, λ x below_start. below x (omega arith))
    ]
