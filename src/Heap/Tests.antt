-- ===== src/Heap/Tests.antt =====
-- Runs of the heap on an arena of one page, and its theorems there.
use argusos_uefi_v.Base.{◌+◌, ◌≡◌, refl, true, false, List, [], ◌∷◌, arith}
use argusos_uefi_v.Heap.{
  Heap, put, align_size, find_block, take_block, split_block, set_previous, heap_init, kmalloc,
  heap_validate, kfree, heap_free_bytes, heap_used_bytes, heap_total_bytes,
}
use argusos_uefi_v.Heap.Tiles.{Tile}
use argusos_uefi_v.Heap.Alloc.{IsHeap, after_kmalloc, address_of, kmalloc_lem}
use argusos_uefi_v.Heap.Free.{kfree_lem}
use argusos_uefi_v.Heap.Settled.{is_settled}
use argusos_uefi_v.Heap.Validate.{heap_validate-settled, validate_stays}
use argusos_uefi_v.Heap.Account.{heap_init_lem, bytes_lem}

abbrev no_heap : Heap
no_heap = record {
  heap_base = 0;
  heap_size = 0;
  first_block = 0;
  memory = λ address. record { size = 0; previous = 0; next = 0; magic = 0; free = false };
}

abbrev page_heap : Heap
page_heap = (heap_init 1 4096 no_heap).0

abbrev free_page : List Tile
free_page = record { size = 4064; free = true } ∷ []

heap_init_example :
    ((heap_init 1 4096 no_heap).1 ≡ true) × IsHeap (heap_init 1 4096 no_heap).0 free_page
heap_init_example =
    heap_init_lem no_heap 1 4096 (omega arith) (omega arith) (omega arith) (omega arith)

page_heap-IsHeap : IsHeap page_heap free_page
page_heap-IsHeap =
    (heap_init_lem no_heap 1 4096 (omega arith) (omega arith) (omega arith) (omega arith)).1

kmalloc_example :
    IsHeap (kmalloc page_heap 33).0 (after_kmalloc 33 free_page)
    × ((kmalloc page_heap 33).1 ≡ address_of 33 page_heap.heap_base free_page)
kmalloc_example = kmalloc_lem page_heap free_page 33 page_heap-IsHeap (omega arith)

-- The 33 bytes are rounded up to 48 and stand after the first header.
first_address : (kmalloc page_heap 33).1 ≡ 4128
unfolding kmalloc heap_init align_size find_block take_block split_block set_previous put
first_address = refl

abbrev one_taken : Heap
one_taken = (kmalloc page_heap 33).0

abbrev taken_tile : Tile
taken_tile = record { size = 48; free = false }

abbrev other_tiles : List Tile
other_tiles = record { size = 3984; free = true } ∷ []

one_taken-IsHeap : IsHeap one_taken (taken_tile ∷ other_tiles)
one_taken-IsHeap = (kmalloc_lem page_heap free_page 33 page_heap-IsHeap (omega arith)).0

kfree_example :
    ((kfree one_taken (one_taken.heap_base + 0 + 32)).1 ≡ true)
    × IsHeap (kfree one_taken (one_taken.heap_base + 0 + 32)).0 free_page
kfree_example = kfree_lem one_taken [] taken_tile other_tiles one_taken-IsHeap

bytes_example :
    (heap_free_bytes one_taken ≡ 3984)
    × (heap_used_bytes one_taken ≡ 48)
    × (heap_free_bytes one_taken + heap_used_bytes one_taken + 64 ≡ heap_total_bytes one_taken + 32)
bytes_example = bytes_lem one_taken (taken_tile ∷ other_tiles) one_taken-IsHeap

heap_validate_example : heap_validate one_taken ≡ is_settled (taken_tile ∷ other_tiles)
heap_validate_example = heap_validate-settled one_taken (taken_tile ∷ other_tiles) one_taken-IsHeap

-- Two free neighbours are refused.
unsettled : is_settled (record { size = 16; free = true } ∷ other_tiles) ≡ false
unsettled = refl

validate_stays_example :
    (heap_validate (kmalloc one_taken 33).0 ≡ true)
    × (heap_validate (kfree one_taken (one_taken.heap_base + 0 + 32)).0 ≡ true)
validate_stays_example =
    validate_stays one_taken [] taken_tile other_tiles 33 one_taken-IsHeap (omega arith)
      (heap_validate-settled one_taken (taken_tile ∷ other_tiles) one_taken-IsHeap)
