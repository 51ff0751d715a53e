-- ===== src/Heap/Account.antt =====
-- src/heap.c `heap_init` and the sums of the blocks' sizes.
use argusos_uefi_v.Base.{
  ℕ, zero, suc, ◌+◌, ◌-◌, ◌*◌, ◌/◌, ltb, ◌%◌, ◌^◌, ◌<◌, ◌≤◌, ◌≡◌, ◌∙◌, refl, sym, ap, Bool, true,
  false, ◌||◌, List, [], ◌∷◌, ◌==◌, arith, length,
}
use argusos_uefi_v.Heap.{
  Heap, HeapBlock, block_magic, sum_sizes, heap_rounds, heap_init, heap_free_bytes, heap_used_bytes,
  heap_total_bytes,
}
use argusos_uefi_v.Heap.Tiles.{
  Tile, extent, is_sized, sum_tiles, sum_tiles-le, sum_tiles-extent, length-extent,
}
use argusos_uefi_v.Heap.Chain.{pointer, Chain, linked, ended, put_self}
use argusos_uefi_v.Heap.Alloc.{IsHeap, first_tile}

sum_sizes-sum_tiles :
    (rounds : ℕ) (memory : ℕ → HeapBlock) (free : Bool) (previous start : ℕ) (ts : List Tile)
    → length ts < rounds
    → 64 ≤ start
    → start + extent ts < 2 ^ 64
    → Chain memory previous start ts
    → sum_sizes rounds memory free (pointer start ts) ≡ sum_tiles free ts
unfolding sum_sizes
sum_sizes-sum_tiles zero memory free previous start ts few low room chain = absurd (omega arith)
sum_sizes-sum_tiles (suc rounds) memory free previous start [] few low room chain = refl
sum_sizes-sum_tiles (suc rounds) memory free previous start (t ∷ ts) few low room
      (linked h others) =
    let next = start + 32 + t.size in
    let rest =
      sum_sizes-sum_tiles rounds memory free start next ts (omega arith) (omega arith) (omega arith)
        others in
    let small = sum_tiles-le free ts in
    let real : (start == 0) ≡ false = ground arith in
    let size : (memory start).size ≡ t.size = ap (λ (b : HeapBlock). b.size) h in
    let hn : (memory start).next ≡ pointer next ts = ap (λ (b : HeapBlock). b.next) h in
    let magic : (memory start).magic ≡ block_magic = ap (λ (b : HeapBlock). b.magic) h in
    let state : (memory start).free ≡ t.free = ap (λ (b : HeapBlock). b.free) h in
    simp (real, hn, rest, size, magic, state) (ground arith)

one_tile : (ts : List Tile) (size : ℕ) → extent ts ≡ size → 0 < size → 32 ≤ size
one_tile [] size covers some_bytes = absurd (omega arith)
one_tile (t ∷ ts) size covers some_bytes = omega arith

-- The sums that the heap reports, in a heap that holds a row of tiles: the sizes of the free tiles,
-- the sizes of those that are taken, and together with a header of 32 bytes for each tile they make
-- up the bytes of the arena.
pub bytes_lem :
    (h : Heap) (ts : List Tile)
    → IsHeap h ts
    → (heap_free_bytes h ≡ sum_tiles true ts)
      × (heap_used_bytes h ≡ sum_tiles false ts)
      × (heap_free_bytes h + heap_used_bytes h + 32 * length ts ≡ heap_total_bytes h + 32)
unfolding heap_free_bytes heap_used_bytes heap_total_bytes
bytes_lem h ts ok =
    let covers = ok.covers in
    let top = ok.top in
    let some_tile = first_tile h.heap_base h.heap_size ts covers ok.some_bytes in
    let bound = length-extent ts in
    let sum : (free : Bool)
        → sum_sizes (heap_rounds h) h.memory free h.first_block ≡ sum_tiles free ts =
      λ free. rw (ok.first ∙ sym some_tile) (
        sum_sizes-sum_tiles (heap_rounds h) h.memory free 0 h.heap_base ts (ground arith) ok.low
          (omega arith) ok.chain) in
    let total = sum_tiles-extent ts in
    let one = one_tile ts h.heap_size covers ok.some_bytes in
    rw (sum true, sum false) (refl, refl, ground arith)

-- heap_init on a page-aligned address of pages below 2^64 leaves one free tile.
pub heap_init_lem :
    (h : Heap) (pages address : ℕ)
    → 0 < pages
    → 4096 ≤ address
    → address % 4096 ≡ 0
    → address + pages * 4096 < 2 ^ 64
    → ((heap_init pages address h).1 ≡ true)
      × IsHeap (heap_init pages address h).0 (record { size = pages * 4096 - 32; free = true } ∷ [])
unfolding heap_init
heap_init_lem h pages address some_pages low aligned top =
    let tests : (pages == 0 || ltb ((2 ^ 64 - 1) / 4096) pages || address == 0) ≡ false =
      ground arith in
    let first : HeapBlock = record {
      size = pages * 4096 - 32;
      previous = 0;
      next = 0;
      magic = block_magic;
      free = true;
    } in
    let sized : is_sized (pages * 4096 - 32) ≡ true = ground arith in
    rw tests (
      refl,
      record {
        low = omega arith;
        top = top;
        base_aligned = omega arith;
        some_bytes = omega arith;
        first = refl;
        covers = omega arith;
        sizes = rw sized refl;
        chain = linked (put_self h.memory address first) ended;
      },
    )
