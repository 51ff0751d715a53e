-- ===== src/Heap.antt =====
-- src/heap.c: the kernel's heap, a list of blocks that starts at `heap_base`. Each block is a header
-- of 32 bytes and the bytes that follow it.
-- A header is what the memory holds at its address; the static variables and the memory are the
-- record `Heap`. Addresses are `uint64_t` and a null pointer is 0. A loop over the blocks has
-- `heap_rounds` rounds, as many as headers fit in the arena.
pub mod Tiles
pub mod Chain
pub mod Cut
pub mod Alloc
pub mod Merge
pub mod Release
pub mod Free
pub mod Account
pub mod Settled
pub mod Validate
mod Tests
use Prim.Native.Nat.{bit_and}
use argusos_uefi_v.Base.{
  ℕ, zero, suc, ◌+◌, ◌-◌, ◌*◌, ◌/◌, ◌^◌, Bool, true, false, not, ◌&&◌, ◌||◌, Option, none, some,
  ltb, leb, ◌==◌, if◌then◌else◌,
}
use argusos_uefi_v.Base.Words.{u64}

abbrev pub block_magic : ℕ
block_magic = 0xA86B10C5

-- `sizeof(heap_block_t)`.
abbrev pub header_size : ℕ
header_size = 32

-- `heap_block_t`.
pub record HeapBlock : Type 0 where
  pub size : ℕ
  pub previous : ℕ
  pub next : ℕ
  pub magic : ℕ
  pub free : Bool

pub record Heap : Type 0 where
  pub heap_base : ℕ
  pub heap_size : ℕ
  pub first_block : ℕ
  pub memory : ℕ → HeapBlock

unfoldable pub put : (ℕ → HeapBlock) → ℕ → HeapBlock → ℕ → HeapBlock
put memory address b a = if a == address then b else memory a

-- 0 where the size would go beyond 64 bits.
unfoldable pub align_size : ℕ → ℕ
align_size size = if ltb (2 ^ 64 - 1 - 15) size then 0 else bit_and (u64 (size + 15)) (2 ^ 64 - 16)

-- The address of the pages that `pmm_alloc_pages` answers is passed, 0 for none.
unfoldable pub heap_init : ℕ → ℕ → Heap → Heap × Bool
heap_init pages address h =
    let first : HeapBlock = record {
      size = pages * 4096 - header_size;
      previous = 0;
      next = 0;
      magic = block_magic;
      free = true;
    } in
    if pages == 0 || ltb ((2 ^ 64 - 1) / 4096) pages || address == 0 then (h, false) else (
      record {
        heap_base = address;
        heap_size = pages * 4096;
        first_block = address;
        memory = put h.memory address first;
      },
      true,
    )

-- `block->next->previous = previous`, where there is a next block.
unfoldable pub set_previous : (ℕ → HeapBlock) → ℕ → ℕ → ℕ → HeapBlock
set_previous memory block previous =
    if block == 0 then memory else put memory block (record (memory block) { previous = previous })

-- The rest of a block of which `size` bytes are taken becomes a block of its own.
unfoldable pub split_block : (ℕ → HeapBlock) → ℕ → ℕ → ℕ → HeapBlock
split_block memory block size =
    let b = memory block in
    let split = u64 (block + header_size + size) in
    let new : HeapBlock = record {
      size = b.size - size - header_size;
      previous = block;
      next = b.next;
      magic = block_magic;
      free = true;
    } in
    let linked = set_previous (put memory split new) b.next split in
    put linked block (record (linked block) { next = split; size = size })

-- What `kmalloc` does with the block that it has found.
unfoldable pub take_block : (ℕ → HeapBlock) → ℕ → ℕ → ℕ → HeapBlock
take_block memory block size =
    let cut =
      if leb (u64 (size + header_size + 16)) (memory block).size
      then split_block memory block size
      else memory in
    put cut block (record (cut block) { free = false })

abbrev pub passes_over : HeapBlock → ℕ → Bool
passes_over b size = not b.free || not (b.magic == block_magic) || ltb b.size size

-- The loop of `kmalloc` from `block` on: the memory, and the address after the header of the block
-- that is taken or 0.
unfoldable pub find_block : ℕ → (ℕ → HeapBlock) → ℕ → ℕ → (ℕ → HeapBlock) × ℕ
find_block zero memory size block = (memory, 0)
find_block (suc rounds) memory size block = elim (block == 0) [
  | true ↦ (memory, 0)
  | false ↦ elim (passes_over (memory block) size) [
    | true ↦ find_block rounds memory size (memory block).next
    | false ↦ (take_block memory block size, u64 (block + header_size))
  ]
]

abbrev pub heap_rounds : Heap → ℕ
heap_rounds h = h.heap_size / header_size + 1

unfoldable pub kmalloc : Heap → ℕ → Heap × ℕ
kmalloc h requested_size =
    let size = align_size requested_size in
    let (memory, pointer) = find_block (heap_rounds h) h.memory size h.first_block in
    if size == 0 || h.first_block == 0 then (h, 0) else (record h { memory = memory }, pointer)

-- The sum of the sizes of the blocks from `block` on that are free, or of those that are not.
unfoldable pub sum_sizes : ℕ → (ℕ → HeapBlock) → Bool → ℕ → ℕ
sum_sizes zero memory free block = 0
sum_sizes (suc rounds) memory free block =
    let b = memory block in
    let others = sum_sizes rounds memory free b.next in
    let same = if free then b.free else not b.free in
    if block == 0
    then 0
    else (if b.magic == block_magic && same then u64 (b.size + others) else others)

unfoldable pub heap_free_bytes : Heap → ℕ
heap_free_bytes h = sum_sizes (heap_rounds h) h.memory true h.first_block

unfoldable pub heap_used_bytes : Heap → ℕ
heap_used_bytes h = sum_sizes (heap_rounds h) h.memory false h.first_block

unfoldable pub heap_total_bytes : Heap → ℕ
heap_total_bytes h = if ltb header_size h.heap_size then h.heap_size - header_size else 0

unfoldable pub block_in_heap : Heap → ℕ → Bool
block_in_heap h block =
    not (h.heap_base == 0)
    && leb h.heap_base block
    && leb block (u64 (h.heap_base + h.heap_size - header_size))

-- `merge_with_next` where there is a free block after `block`, at `next`.
unfoldable pub absorb : (ℕ → HeapBlock) → ℕ → ℕ → ℕ → HeapBlock
absorb memory block next =
    let b = memory block in
    let n = memory next in
    let grown =
      put memory block (record b { size = u64 (b.size + header_size + n.size); next = n.next }) in
    let relinked = set_previous grown n.next block in
    put relinked next (record (relinked next) { magic = 0 })

unfoldable pub merge_with_next : (ℕ → HeapBlock) → ℕ → ℕ → HeapBlock
merge_with_next memory block =
    let next = (memory block).next in
    if next == 0 || not (memory next).free || not ((memory next).magic == block_magic)
    then memory
    else absorb memory block next

-- The end of `kfree`: the block is free, and one block with its free neighbours.
unfoldable pub release_block : (ℕ → HeapBlock) → ℕ → ℕ → HeapBlock
release_block memory block =
    let merged = merge_with_next (put memory block (record (memory block) { free = true })) block in
    let previous = (merged block).previous in
    if not (previous == 0) && (merged previous).free
    then merge_with_next merged previous
    else merged

unfoldable pub refuses_pointer : Heap → ℕ → Bool
refuses_pointer h pointer =
    pointer == 0
    || h.first_block == 0
    || ltb pointer (u64 (h.heap_base + header_size))
    || leb (u64 (h.heap_base + h.heap_size)) pointer
    || not (bit_and pointer 15 == 0)

unfoldable pub kfree : Heap → ℕ → Heap × Bool
kfree h pointer =
    let block = pointer - header_size in
    let b = h.memory block in
    if refuses_pointer h pointer
    then (h, false)
    else (if not (block_in_heap h block) || not (b.magic == block_magic) || b.free
        then (h, false)
        else (record h { memory = release_block h.memory block }, true))

-- What `heap_validate` refuses in the header at `block`, where `cursor` is the end of the block
-- before.
unfoldable pub refuses_block : Heap → ℕ → ℕ → ℕ → Bool
refuses_block h previous cursor block =
    let b = h.memory block in
    let end = u64 (h.heap_base + h.heap_size) in
    let after = u64 (block + header_size + b.size) in
    not (block_in_heap h block)
    || not (block == cursor)
    || not (b.magic == block_magic)
    || not (b.previous == previous)
    || b.size == 0
    || not (bit_and b.size 15 == 0)
    || ltb (u64 (end + 2 ^ 64 - block - header_size)) b.size
    || (not (previous == 0) && (h.memory previous).free && b.free)
    || (not (b.next == 0) && not (b.next == after))

-- The loop of `heap_validate`, with the blocks that `maximum_blocks` leaves.
unfoldable pub validate_blocks : ℕ → Heap → ℕ → ℕ → ℕ → Bool
validate_blocks zero h previous cursor block =
    block == 0 && cursor == u64 (h.heap_base + h.heap_size)
validate_blocks (suc blocks) h previous cursor block =
    let b = h.memory block in
    elim (block == 0) [
      | true ↦ cursor == u64 (h.heap_base + h.heap_size)
      | false ↦ elim (refuses_block h previous cursor block) [
        | true ↦ false
        | false ↦ validate_blocks blocks h block (u64 (block + header_size + b.size)) b.next
      ]
    ]

unfoldable pub heap_validate : Heap → Bool
heap_validate h =
    not (h.first_block == 0)
    && h.first_block == h.heap_base
    && validate_blocks (h.heap_size / header_size) h 0 h.heap_base h.first_block
