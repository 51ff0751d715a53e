-- ===== src/Heap/Alloc.antt =====
-- src/heap.c `kmalloc` on the row of tiles that the heap holds.
use argusos_uefi_v.Base.{
  ℕ, zero, suc, ◌+◌, ◌-◌, ◌*◌, ◌/◌, ◌%◌, ◌^◌, ◌<◌, ◌≤◌, ◌≡◌, ◌∙◌, refl, sym, ap, true, false, not,
  ◌||◌, List, [], ◌∷◌, ◌==◌, leb, ltb, if◌then◌else◌, arith, inl, inr, Bool-cases, pick, length,
}
use argusos_uefi_v.Base.Bits.Fields.{bit_and_clear_low}
use argusos_uefi_v.Base.Words.{u64}
use argusos_uefi_v.Heap.{
  Heap, HeapBlock, block_magic, align_size, take_block, find_block, passes_over, heap_rounds,
  kmalloc,
}
use argusos_uefi_v.Heap.Tiles.{
  Tile, extent, fits, place, place_at, extent-place, are_sized, is_sized, are_sized-place,
  length-extent,
}
use argusos_uefi_v.Heap.Chain.{pointer, header, Chain, linked, ended}
use argusos_uefi_v.Heap.Cut.{take_block-carve}

-- The least multiple of 16 that is not below, or 0 where 64 bits do not hold it.
abbrev pub aligned : ℕ → ℕ
aligned size = if leb (size + 15) (2 ^ 64 - 1) then (size + 15) / 16 * 16 else 0

align_size-aligned : (size : ℕ) → size < 2 ^ 64 → align_size size ≡ aligned size
unfolding align_size
align_size-aligned size word =
    let clear = bit_and_clear_low 4 60 (u64 (size + 15)) (ground arith) in ground arith

pointer-place : (size start : ℕ) (ts : List Tile) → pointer start (place size ts) ≡ pointer start ts
pointer-place size start [] = refl
pointer-place size start (t ∷ ts) = ground arith

header-place :
    (size previous start : ℕ) (t : Tile) (ts : List Tile)
    → header previous start t (place size ts) ≡ header previous start t ts
header-place size previous start t ts = rw (pointer-place size (start + 32 + t.size) ts) refl

passes-fits :
    (t : Tile) (size : ℕ)
    → (not t.free || not (block_magic == block_magic) || ltb t.size size) ≡ not (fits t size)
passes-fits t size = ground arith

-- What the search leaves and answers, from the block at `start` on.
abbrev Found : (ℕ → HeapBlock) → ℕ → ℕ → ℕ → List Tile → (ℕ → HeapBlock) × ℕ → Type 0
Found memory size previous start ts result =
    Chain result.0 previous start (place size ts)
    × (result.1 ≡ place_at size start ts)
    × ((x : ℕ) → x < start → result.0 x ≡ memory x)

module _ (rounds : ℕ) (memory : ℕ → HeapBlock) (size start : ℕ) (real : (start == 0) ≡ false) where
  find_block-over :
      passes_over (memory start) size ≡ true
      → find_block (suc rounds) memory size start
        ≡ find_block rounds memory size (memory start).next
  unfolding find_block
  find_block-over over = pick _ _ real ∙ pick _ _ over

  find_block-fit :
      passes_over (memory start) size ≡ false
      → find_block (suc rounds) memory size start ≡ (take_block memory start size, u64 (start + 32))
  unfolding find_block
  find_block-fit fit = pick _ _ real ∙ pick _ _ fit

find_block-Found :
    (rounds : ℕ) (memory : ℕ → HeapBlock) (size previous start : ℕ) (ts : List Tile)
    → length ts < rounds
    → 64 ≤ start
    → start + extent ts < 2 ^ 64
    → Chain memory previous start ts
    → Found memory size previous start ts (find_block rounds memory size (pointer start ts))
unfolding find_block
find_block-Found zero memory size previous start ts few low room chain = absurd (omega arith)
find_block-Found (suc rounds) memory size previous start [] few low room chain =
    (ended, refl, λ x below. refl)
find_block-Found (suc rounds) memory size previous start (t ∷ ts) few low room (linked h others) =
    let real : (start == 0) ≡ false = ground arith in
    let hn : (memory start).next ≡ pointer (start + 32 + t.size) ts =
      ap (λ (b : HeapBlock). b.next) h in
    let test : passes_over (memory start) size ≡ not (fits t size) = rw h (passes-fits t size) in
    let address : u64 (start + 32) ≡ start + 32 = ground arith in
    elim (Bool-cases (fits t size)) [
      | inl e ↦
          let (chain, below) =
            take_block-carve memory previous start size t ts low room (ground arith) h others in
          rw (find_block-fit rounds memory size start real (test ∙ ap not e), e)
            (chain, address, below)
      | inr e ↦
          let next = start + 32 + t.size in
          let (chain, answer, below) =
            find_block-Found rounds memory size start next ts (omega arith) (omega arith)
              (omega arith) others in
          rw (find_block-over rounds memory size start real (test ∙ ap not e), e, hn)
            (
              linked (below start (omega arith) ∙ h ∙ sym (header-place size previous start t ts))
                  chain,
              answer,
              λ x under. below x (omega arith),
            )
    ]

-- The heap holds the tiles `ts`, which cover the arena.
pub record IsHeap (h : Heap) (ts : List Tile) : Type 0 where
  pub low : 64 ≤ h.heap_base
  pub top : h.heap_base + h.heap_size < 2 ^ 64
  pub base_aligned : h.heap_base % 16 ≡ 0
  pub some_bytes : 0 < h.heap_size
  pub first : h.first_block ≡ h.heap_base
  pub covers : extent ts ≡ h.heap_size
  pub sizes : are_sized ts ≡ true
  pub chain : Chain h.memory 0 h.heap_base ts

pub first_tile :
    (base size : ℕ) (ts : List Tile) → extent ts ≡ size → 0 < size → pointer base ts ≡ base
first_tile base size [] covers some_bytes = absurd (omega arith)
first_tile base size (t ∷ ts) covers some_bytes = refl

kmalloc-IsHeap :
    (h : Heap) (ts : List Tile) (size : ℕ)
    → IsHeap h ts
    → is_sized size ≡ true
    → let result = find_block (heap_rounds h) h.memory size h.first_block in
      IsHeap (record h { memory = result.0 }) (place size ts)
      × (result.1 ≡ place_at size h.heap_base ts)
kmalloc-IsHeap h ts size ok whole =
    let some_tile = first_tile h.heap_base h.heap_size ts ok.covers ok.some_bytes in
    let bound = length-extent ts in
    let c = ok.covers in
    let l = ok.low in
    let t = ok.top in
    let (chain, answer, below) =
      find_block-Found (heap_rounds h) h.memory size 0 h.heap_base ts (ground arith) ok.low
        (omega arith) ok.chain in
    rw (ok.first ∙ sym some_tile) (
      record {
        low = ok.low;
        top = ok.top;
        base_aligned = ok.base_aligned;
        some_bytes = ok.some_bytes;
        first = some_tile;
        covers = extent-place size ts ∙ ok.covers;
        sizes = are_sized-place size ts whole ok.sizes;
        chain = chain;
      },
      answer,
    )

-- What a heap that holds `ts` holds after an allocation, and the address that is answered.
abbrev pub after_kmalloc : ℕ → List Tile → List Tile
after_kmalloc requested ts = if aligned requested == 0 then ts else place (aligned requested) ts

abbrev pub address_of : ℕ → ℕ → List Tile → ℕ
address_of requested base ts =
    if aligned requested == 0 then 0 else place_at (aligned requested) base ts

-- In a heap that holds a row of tiles, kmalloc is first fit on that row: the size asked for is
-- rounded up to a multiple of 16; where it is 0 or 64 bits do not hold it, or no free tile is large
-- enough, the answer is 0 and the heap holds the same tiles; otherwise the first free tile that is
-- large enough is taken, cut where 48 bytes or more are left, and the answer is the address of its
-- bytes. The blocks cover the arena again, linked in both directions.
pub kmalloc_lem :
    (h : Heap) (ts : List Tile) (requested : ℕ)
    → IsHeap h ts
    → requested < 2 ^ 64
    → IsHeap (kmalloc h requested).0 (after_kmalloc requested ts)
      × ((kmalloc h requested).1 ≡ address_of requested h.heap_base ts)
unfolding kmalloc
kmalloc_lem h ts requested ok word =
    let size = aligned requested in
    let l = ok.low in
    let f = ok.first in
    let real : (h.first_block == 0) ≡ false = ground arith in
    rw (align_size-aligned requested word, real)
      (elim (Bool-cases (size == 0)) [
        | inl e ↦ rw e (ok, refl)
        | inr e ↦ rw e (kmalloc-IsHeap h ts size ok (ground arith))
      ])
