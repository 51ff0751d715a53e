-- ===== src/Heap/Validate.antt =====
-- src/heap.c `heap_validate`: what it answers on a heap that holds a row of tiles.
use Prim.Native.Nat.{bit_and}
use argusos_uefi_v.Base.{
  ℕ, zero, suc, ◌+◌, ◌-◌, ◌/◌, ◌^◌, ◌<◌, ◌≤◌, ◌≡◌, ◌∙◌, refl, sym, ap, Bool, true, false, not, ◌&&◌,
  ◌||◌, List, [], ◌∷◌, ◌++◌, ◌==◌, ltb, if◌then◌else◌, arith, pick, if-both, length,
}
use argusos_uefi_v.Base.Bits.Fields.{bit_and_mask}
use argusos_uefi_v.Base.Words.{u64}
use argusos_uefi_v.Heap.{
  Heap, HeapBlock, block_magic, block_in_heap, refuses_block, validate_blocks, heap_validate,
  kmalloc, kfree,
}
use argusos_uefi_v.Heap.Tiles.{Tile, extent, is_sized, are_sized, length-extent, freed}
use argusos_uefi_v.Heap.Settled.{settled_after, is_settled, settled_after-place, freed-settled}
use argusos_uefi_v.Heap.Chain.{pointer, header, Chain, linked}
use argusos_uefi_v.Heap.Alloc.{IsHeap, aligned, first_tile, after_kmalloc, kmalloc_lem}
use argusos_uefi_v.Heap.Free.{kfree_lem}

pointer_next :
    (place : ℕ) (ts : List Tile)
    → (not (pointer place ts == 0) && not (pointer place ts == place)) ≡ false
pointer_next place [] = refl
pointer_next place (t ∷ ts) = ground arith

both_free : (a b c d : Bool) → (a && b) ≡ c → (a && b && d) ≡ (c && d)
both_free a b c d e = ground arith

last_test : (b : Bool) → (b || false) ≡ b
last_test true = refl
last_test false = refl

block_placed :
    (h : Heap) (start : ℕ) (t : Tile) (ts : List Tile)
    → 64 ≤ h.heap_base
    → h.heap_base + h.heap_size < 2 ^ 64
    → h.heap_base ≤ start
    → start + extent (t ∷ ts) ≡ h.heap_base + h.heap_size
    → block_in_heap h start ≡ true
unfolding block_in_heap
block_placed h start t ts low top above covers = ground arith

-- The test of a header that stands where it should: whether it and the block before are free.
refuses_block-free :
    (h : Heap) (previous start : ℕ) (before : Bool) (t : Tile) (ts : List Tile)
    → 64 ≤ h.heap_base
    → h.heap_base + h.heap_size < 2 ^ 64
    → h.heap_base ≤ start
    → start + extent (t ∷ ts) ≡ h.heap_base + h.heap_size
    → is_sized t.size ≡ true
    → (not (previous == 0) && (h.memory previous).free) ≡ before
    → h.memory start ≡ header previous start t ts
    → refuses_block h previous start start ≡ (before && t.free)
unfolding refuses_block
refuses_block-free h previous start before t ts low top above covers sized known e =
    let placed = block_placed h start t ts low top above covers in
    let here : (start == start) ≡ true = ground arith in
    let same : (previous == previous) ≡ true = ground arith in
    let size : (h.memory start).size ≡ t.size = ap (λ (b : HeapBlock). b.size) e in
    let back : (h.memory start).previous ≡ previous = ap (λ (b : HeapBlock). b.previous) e in
    let next : (h.memory start).next ≡ pointer (start + 32 + t.size) ts =
      ap (λ (b : HeapBlock). b.next) e in
    let magic : (h.memory start).magic ≡ block_magic = ap (λ (b : HeapBlock). b.magic) e in
    let free : (h.memory start).free ≡ t.free = ap (λ (b : HeapBlock). b.free) e in
    let some_bytes : (t.size == 0) ≡ false = ground arith in
    let mask = bit_and_mask 4 t.size in
    let whole : (bit_and t.size 15 == 0) ≡ true = ground arith in
    let fits : ltb (u64 (u64 (h.heap_base + h.heap_size) + 2 ^ 64 - start - 32)) t.size ≡ false =
      ground arith in
    let end : u64 (start + 32 + t.size) ≡ start + 32 + t.size = ground arith in
    let joined = both_free (not (previous == 0)) (h.memory previous).free before t.free known in
    simp
      (
        placed,
        here,
        same,
        size,
        back,
        next,
        magic,
        free,
        some_bytes,
        whole,
        fits,
        end,
        joined,
        pointer_next (start + 32 + t.size) ts,
      )
      (last_test (before && t.free))

stop : (b s : Bool) → elim b [ true ↦ false | false ↦ s ] ≡ (not b && s)
stop true s = refl
stop false s = refl

validate_blocks-step :
    (blocks : ℕ) (h : Heap) (previous cursor block : ℕ) (refused rest : Bool)
    → (block == 0) ≡ false
    → refuses_block h previous cursor block ≡ refused
    → validate_blocks blocks h block
        (u64 (block + 32 + (h.memory block).size))
        (h.memory block).next
      ≡ rest
    → validate_blocks (suc blocks) h previous cursor block ≡ (not refused && rest)
unfolding validate_blocks
validate_blocks-step blocks h previous cursor block refused rest real e others =
    pick _ _ real
    ∙ pick _ _ e
    ∙ ap (λ (d : Bool). elim refused [ true ↦ false | false ↦ d ]) others
    ∙ stop refused rest

validate_blocks-settled :
    (blocks : ℕ) (h : Heap) (previous start : ℕ) (before : Bool) (ts : List Tile)
    → length ts ≤ blocks
    → 64 ≤ h.heap_base
    → h.heap_base + h.heap_size < 2 ^ 64
    → h.heap_base ≤ start
    → start + extent ts ≡ h.heap_base + h.heap_size
    → are_sized ts ≡ true
    → (not (previous == 0) && (h.memory previous).free) ≡ before
    → Chain h.memory previous start ts
    → validate_blocks blocks h previous start (pointer start ts) ≡ settled_after before ts
unfolding validate_blocks
validate_blocks-settled zero h previous start before [] few low top above covers sized known chain =
    ground arith
validate_blocks-settled zero h previous start before (t ∷ ts) few low top above covers sized known
      chain =
    absurd (omega arith)
validate_blocks-settled (suc blocks) h previous start before [] few low top above covers sized known
      chain =
    ground arith
validate_blocks-settled (suc blocks) h previous start before (t ∷ ts) few low top above covers sized
      known (linked e others) =
    let next = start + 32 + t.size in
    let real : (start == 0) ≡ false = ground arith in
    let size : (h.memory start).size ≡ t.size = ap (λ (b : HeapBlock). b.size) e in
    let hn : (h.memory start).next ≡ pointer next ts = ap (λ (b : HeapBlock). b.next) e in
    let end : u64 next ≡ next = ground arith in
    let state : (not (start == 0) && (h.memory start).free) ≡ t.free = rw (real, e) refl in
    let rest =
      validate_blocks-settled blocks h start next t.free ts (omega arith) low top (omega arith)
        (omega arith) (ground arith) state others in
    let one =
      refuses_block-free h previous start before t ts low top above covers (ground arith) known e in
    validate_blocks-step blocks h previous start start (before && t.free) (settled_after t.free ts)
      real one (rw (size, hn, end) rest)

-- On a heap that holds a row of tiles, heap_validate answers 1 exactly where no two neighbours of
-- the row are both free.
pub heap_validate-settled :
    (h : Heap) (ts : List Tile) → IsHeap h ts → heap_validate h ≡ is_settled ts
unfolding heap_validate
heap_validate-settled h ts ok =
    let low = ok.low in
    let first = ok.first in
    let covers = ok.covers in
    let bound = length-extent ts in
    let some_tile = first_tile h.heap_base h.heap_size ts covers ok.some_bytes in
    let real : (h.first_block == 0) ≡ false = ground arith in
    let same : (h.first_block == h.heap_base) ≡ true = ground arith in
    let loop : validate_blocks (h.heap_size / 32) h 0 h.heap_base h.first_block ≡ is_settled ts =
      ap (validate_blocks (h.heap_size / 32) h 0 h.heap_base) (first ∙ sym some_tile)
      ∙ validate_blocks-settled (h.heap_size / 32) h 0 h.heap_base false ts (ground arith) low
          ok.top (omega arith) (omega arith) ok.sizes refl ok.chain in
    rw (real, same, loop) refl

-- On a heap that holds a row of tiles and that heap_validate accepts, heap_validate accepts the heap
-- after any kmalloc of a size below 2^64, and after kfree with the address of a tile's bytes.
pub validate_stays :
    (h : Heap) (before : List Tile) (t : Tile) (ts : List Tile) (requested : ℕ)
    → IsHeap h (before ++ t ∷ ts)
    → requested < 2 ^ 64
    → heap_validate h ≡ true
    → (heap_validate (kmalloc h requested).0 ≡ true)
      × (heap_validate (kfree h (h.heap_base + extent before + 32)).0 ≡ true)
validate_stays h before t ts requested ok word accepted =
    let row = before ++ t ∷ ts in
    let settled : is_settled row ≡ true = sym (heap_validate-settled h row ok) ∙ accepted in
    let (taken, address) = kmalloc_lem h row requested ok word in
    let (answer, given) = kfree_lem h before t ts ok in
    (
      heap_validate-settled (kmalloc h requested).0 (after_kmalloc requested row) taken
          ∙ if-both (λ (r : List Tile). is_settled r ≡ true) (aligned requested == 0) (λ e. settled)
              (λ e. settled_after-place false (aligned requested) row settled),
      heap_validate-settled (kfree h (h.heap_base + extent before + 32)).0
            (if t.free then before ++ t ∷ ts else freed before t ts) given
          ∙ if-both (λ (r : List Tile). is_settled r ≡ true) t.free (λ e. settled)
              (λ e. freed-settled before t ts e settled),
    )
