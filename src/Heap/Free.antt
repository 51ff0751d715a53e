-- ===== src/Heap/Free.antt =====
-- src/heap.c `kfree`, called with the address of the bytes of a tile. For any other
-- address the answer depends on what the memory holds in place of a header, and nothing is said here.
use argusos_uefi_v.Base.{
  ℕ, ◌+◌, ◌-◌, ◌%◌, ◌^◌, ◌<◌, ◌≤◌, ◌≡◌, ◌≢◌, ◌∙◌, refl, sym, true, false, not, List, [], ◌∷◌, ◌++◌,
  if◌then◌else◌, arith, inl, inr, Bool-cases, if-both,
}
use argusos_uefi_v.Base.Bits.Fields.{bit_and_mask}
use argusos_uefi_v.Heap.{
  Heap, HeapBlock, block_magic, release_block, block_in_heap, refuses_pointer, kfree,
}
use argusos_uefi_v.Heap.Tiles.{
  Tile, extent, freed, extent-append, are_sized-append, extent-freed, are_sized-freed, freed_tile,
  merge_first,
}
use argusos_uefi_v.Heap.Chain.{pointer, Chain, linked}
use argusos_uefi_v.Heap.Alloc.{IsHeap}
use argusos_uefi_v.Heap.Release.{release_first, release_second, pointer-merge_first}

pointer-freed :
    (start : ℕ) (before : List Tile) (t : Tile) (ts : List Tile)
    → pointer start (freed before t ts) ≡ start
pointer-freed start [] t ts = pointer-merge_first start (freed_tile t) ts
pointer-freed start (c ∷ []) t ts =
    if-both (λ (row : List Tile). pointer start row ≡ start) c.free
      (λ e. pointer-merge_first start c (merge_first (freed_tile t ∷ ts))) (λ e. refl)
pointer-freed start (c ∷ d ∷ before) t ts = refl

-- The block after the tiles `before`, of which there is one at least.
release_after :
    (before : List Tile) (memory : ℕ → HeapBlock) (previous start : ℕ) (c t : Tile) (ts : List Tile)
    → 64 ≤ start
    → start + extent (c ∷ before ++ t ∷ ts) < 2 ^ 64
    → Chain memory previous start (c ∷ before ++ t ∷ ts)
    → let after = release_block memory (start + extent (c ∷ before)) in
      Chain after previous start (freed (c ∷ before) t ts)
      × ((x : ℕ) → x < start → after x ≡ memory x)
release_after [] memory previous start c t ts low room chain =
    let here : start + (32 + c.size + 0) ≡ start + 32 + c.size = omega arith in
    rw here (release_second memory previous start c t ts low room chain)
release_after (d ∷ before) memory previous start c t ts low room (linked h others) =
    let next = start + 32 + c.size in
    let (chain, below) =
      release_after before memory start next d t ts (omega arith) (omega arith) others in
    let here : start + extent (c ∷ d ∷ before) ≡ next + extent (d ∷ before) = omega arith in
    rw here (
      linked (below start (omega arith) ∙ h ∙ rw (pointer-freed next (d ∷ before) t ts) refl) chain,
      λ x under. below x (omega arith),
    )

-- The header of the tile after the tiles `before`.
tile_header :
    (before : List Tile) (memory : ℕ → HeapBlock) (previous start : ℕ) (t : Tile) (ts : List Tile)
    → Chain memory previous start (before ++ t ∷ ts)
    → ((memory (start + extent before)).free ≡ t.free)
      × ((memory (start + extent before)).magic ≡ block_magic)
tile_header [] memory previous start t ts (linked h others) =
    let here : start + 0 ≡ start = omega arith in rw (here, h) (refl, refl)
tile_header (c ∷ before) memory previous start t ts (linked h others) =
    let here : start + (32 + c.size + extent before) ≡ start + 32 + c.size + extent before =
      omega arith in
    rw here (tile_header before memory start (start + 32 + c.size) t ts others)

-- What kfree tests, at the tile `t` after the tiles `before`.
module _ (h : Heap) (before : List Tile) (t : Tile) (ts : List Tile)
    (ok : IsHeap h (before ++ t ∷ ts)) where
  abbrev block : ℕ
  block = h.heap_base + extent before

  -- The block lies in the arena, at a multiple of 16.
  placed :
      (64 ≤ h.heap_base)
      × (block + 32 < h.heap_base + h.heap_size)
      × (h.heap_base + h.heap_size < 2 ^ 64)
      × (block % 16 ≡ 0)
      × (h.first_block ≢ 0)
  placed =
      let low = ok.low in
      let top = ok.top in
      let total = sym (extent-append before (t ∷ ts)) ∙ ok.covers in
      let (whole, some_bytes) = are_sized-append before t ts ok.sizes in
      let aligned = ok.base_aligned in
      let first = ok.first in (low, omega arith, top, ground arith, ground arith)

  accepted : refuses_pointer h (block + 32) ≡ false
  unfolding refuses_pointer
  accepted =
      let (low, inside, top, aligned, real) = placed in
      let mask = bit_and_mask 4 (block + 32) in ground arith

  in_heap : block_in_heap h block ≡ true
  unfolding block_in_heap
  in_heap = let (low, inside, top, aligned, real) = placed in ground arith

  released_heap : Chain (release_block h.memory block) 0 h.heap_base (freed before t ts)
  released_heap = after before ok
    where
      after :
          (row : List Tile)
          → IsHeap h (row ++ t ∷ ts)
          → Chain (release_block h.memory (h.heap_base + extent row)) 0 h.heap_base (freed row t ts)
      after [] fine =
          let top = fine.top in
          let covers = fine.covers in
          let here : h.heap_base + 0 ≡ h.heap_base = omega arith in
          rw here (release_first h.memory h.heap_base t ts fine.low (omega arith) fine.chain)
      after (c ∷ row) fine =
          let top = fine.top in
          let covers = fine.covers in
          (release_after row h.memory 0 h.heap_base c t ts fine.low (omega arith) fine.chain).0

  -- In a heap that holds a row of tiles, kfree with the address of a tile's bytes: a tile that is
  -- taken is freed and becomes one with the free tiles on both of its sides, and the answer is 1;
  -- for a tile that is free the answer is 0 and the tiles stay the same. The blocks cover the arena
  -- again, linked in both directions.
  pub kfree_lem :
      ((kfree h (block + 32)).1 ≡ not t.free)
      × IsHeap (kfree h (block + 32)).0 (if t.free then before ++ t ∷ ts else freed before t ts)
  unfolding kfree
  kfree_lem =
      let (free, magic) = tile_header before h.memory 0 h.heap_base t ts ok.chain in
      let back : block + 32 - 32 ≡ block = omega arith in
      elim (Bool-cases t.free) [
        | inl unused ↦ simp (accepted, back, in_heap, magic, free, unused) (refl, ok)
        | inr taken ↦
            simp (accepted, back, in_heap, magic, free, taken)
              (
                refl,
                record {
                  low = ok.low;
                  top = ok.top;
                  base_aligned = ok.base_aligned;
                  some_bytes = ok.some_bytes;
                  first = ok.first;
                  covers = extent-freed before t ts ∙ ok.covers;
                  sizes = are_sized-freed before t ts ok.sizes;
                  chain = released_heap;
                },
              )
      ]
