-- ===== src/Pmm.antt =====
-- src/pmm.c: the physical page allocator over two bitmaps. Its static variables are a record that is
-- passed and returned; the bitmaps, which the C code keeps in `pmm_bitmap_storage`, are lists of
-- bytes, and the UEFI memory map, walked by `descriptor_size` in C, is the list of its descriptors.
pub mod Bitmap
pub mod Count
pub mod Invariant
pub mod Pages
pub mod Runs
pub mod Search
pub mod Alloc
pub mod Release
pub mod RoundTrip
pub mod Reserve
pub mod Init
mod Tests
use Prim.Native.Nat.{bit_and}
use argusos_uefi_v.Base.{
  ℕ, zero, suc, ◌+◌, ◌-◌, ◌*◌, ◌/◌, ◌%◌, ◌^◌, Bool, true, false, not, ◌&&◌, ◌||◌, Option, none,
  some, List, [], ◌∷◌, ltb, leb, ◌==◌, if◌then◌else◌, replicate,
}
use argusos_uefi_v.Base.Words.{u64, sub64, uint64_max}
use Bitmap.{Bits, bit_get, bit_set, bit_clear}

abbrev pub page_size : ℕ
page_size = 4096

pub record Pmm : Type 0 where
  pub usable_bitmap : Bits
  pub used_bitmap : Bits
  pub page_count : ℕ
  pub managed_count : ℕ
  pub free_count : ℕ

abbrev pub is_usable : Pmm → ℕ → Bool
is_usable s page = bit_get s.usable_bitmap page

abbrev pub is_used : Pmm → ℕ → Bool
is_used s page = bit_get s.used_bitmap page

-- The test `bit_get(usable_bitmap, page) && !bit_get(used_bitmap, page)`.
abbrev pub is_free : Pmm → ℕ → Bool
is_free s page = is_usable s page && not (is_used s page)

unfoldable pub make_usable : Pmm → ℕ → Pmm
make_usable s page = if leb s.page_count page || is_usable s page then s else record s {
  usable_bitmap = bit_set s.usable_bitmap page;
  used_bitmap = bit_clear s.used_bitmap page;
  managed_count = u64 (s.managed_count + 1);
  free_count = u64 (s.free_count + 1);
}

unfoldable pub reserve_page : Pmm → ℕ → Pmm
reserve_page s page = if leb s.page_count page || not (is_usable s page) then s else record s {
  usable_bitmap = bit_clear s.usable_bitmap page;
  used_bitmap = bit_set s.used_bitmap page;
  managed_count = sub64 s.managed_count 1;
  free_count = if is_used s page then s.free_count else sub64 s.free_count 1;
}

-- `physical_range_t`.
pub record Range : Type 0 where
  pub base : ℕ
  pub size : ℕ

-- `for (page = start; page < end; ++page)`, with the rounds that are left.
unfoldable pub reserve_pages : ℕ → ℕ → Pmm → Pmm
reserve_pages zero page s = s
reserve_pages (suc left) page s = reserve_pages left (page + 1) (reserve_page s page)

abbrev pub last_byte : Range → ℕ
last_byte r = if ltb (uint64_max - r.base) (r.size - 1) then uint64_max else r.base + r.size - 1

-- The page behind the last one of the range, or of memory.
abbrev pub range_end : Pmm → Range → ℕ
range_end s r =
    let end = last_byte r / page_size + 1 in if ltb s.page_count end then s.page_count else end

unfoldable pub reserve_range : Pmm → Range → Pmm
unfolding reserve_pages reserve_page
reserve_range s r =
    if r.size == 0 || leb (u64 (s.page_count * page_size)) r.base
    then s
    else reserve_pages (range_end s r - r.base / page_size) (r.base / page_size) s

-- The fields of `EFI_MEMORY_DESCRIPTOR` that the code reads.
pub record Descriptor : Type 0 where
  pub type : ℕ
  pub physical_start : ℕ
  pub number_of_pages : ℕ

abbrev pub conventional_memory : ℕ
conventional_memory = 7

unfoldable pub make_pages : ℕ → ℕ → Pmm → Pmm
make_pages zero page s = s
make_pages (suc left) page s = make_pages left (page + 1) (make_usable s page)

-- The body of the loop over the memory map.
unfoldable pub add_descriptor : Pmm → Descriptor → Pmm
unfolding make_pages make_usable
add_descriptor s d =
    let first = d.physical_start / page_size in
    let count =
      if ltb (s.page_count - first) d.number_of_pages
      then s.page_count - first
      else d.number_of_pages in
    if d.type == conventional_memory && ltb first s.page_count then make_pages count first s else s

unfoldable pub add_descriptors : Pmm → List Descriptor → Pmm
unfolding add_descriptor
add_descriptors s [] = s
add_descriptors s (d ∷ ds) = add_descriptors (add_descriptor s d) ds

-- The fields of `boot_info_t` that the code reads.
pub record BootInfo : Type 0 where
  pub magic : ℕ
  pub boot_services_exited : ℕ
  pub memory_map_buffer : ℕ
  pub descriptor_size : ℕ
  pub descriptors : List Descriptor
  pub pmm_page_count : ℕ
  pub pmm_bitmap_bytes : ℕ
  pub pmm_bitmap_storage : Range
  pub kernel_image : Range
  pub boot_info_storage : Range
  pub kernel_stack : Range
  pub memory_map_storage : Range
  pub framebuffer : Range
  pub acpi_rsdp : ℕ

abbrev pub boot_info_magic : ℕ
boot_info_magic = 0x4152_4755_5342_4F4F

unfoldable pub refuses_boot_info : BootInfo → Bool
refuses_boot_info b =
    not (b.magic == boot_info_magic)
    || b.boot_services_exited == 0
    || b.memory_map_buffer == 0
    || b.descriptor_size == 0
    || b.pmm_page_count == 0
    || b.pmm_bitmap_storage.base == 0
    || b.pmm_bitmap_bytes == 0

-- The state before the memory map is read: no page usable, and every page used.
abbrev pub cleared : BootInfo → Pmm
cleared b = record {
  usable_bitmap = replicate b.pmm_bitmap_bytes 0;
  used_bitmap = replicate b.pmm_bitmap_bytes 0xFF;
  page_count = b.pmm_page_count;
  managed_count = 0;
  free_count = 0;
}

abbrev pub low_memory : Range
low_memory = record { base = 0; size = 0x10_0000 }

-- The ranges that are reserved on every boot, in the order of the calls.
abbrev pub handoff_ranges : BootInfo → List Range
handoff_ranges b =
    low_memory ∷ b.kernel_image ∷ b.boot_info_storage ∷ b.kernel_stack ∷ b.pmm_bitmap_storage
    ∷ b.memory_map_storage ∷ b.framebuffer ∷ []

abbrev pub rsdp_page : BootInfo → Range
rsdp_page b = record { base = b.acpi_rsdp; size = page_size }

unfoldable pub reserve_ranges : Pmm → List Range → Pmm
unfolding reserve_range
reserve_ranges s [] = s
reserve_ranges s (r ∷ rs) = reserve_ranges (reserve_range s r) rs

-- The state after `pmm_init` has passed its guard.
unfoldable pub managed : BootInfo → Pmm
unfolding add_descriptors reserve_ranges
managed b =
    let s = reserve_ranges (add_descriptors (cleared b) b.descriptors) (handoff_ranges b) in
    if b.acpi_rsdp == 0 then s else reserve_range s (rsdp_page b)

unfoldable pub pmm_init : Pmm → BootInfo → Pmm × Bool
unfolding refuses_boot_info managed
pmm_init s b =
    if refuses_boot_info b then (s, false) else (managed b, not ((managed b).managed_count == 0))

-- The search of `pmm_alloc_pages`, with the rounds that are left, the page, and the run of free
-- pages that ends before it.
unfoldable pub find_run : Pmm → ℕ → ℕ → ℕ → ℕ → ℕ → Option ℕ
find_run s count zero page start length = none
find_run s count (suc left) page start length =
    let start' = if length == 0 then page else start in
    let longer = find_run s count left (page + 1) start' (length + 1) in
    let broken = find_run s count left (page + 1) start 0 in
    if is_free s page then (if length + 1 == count then some start' else longer) else broken

unfoldable pub mark_used : ℕ → ℕ → Bits → Bits
mark_used zero page bitmap = bitmap
mark_used (suc left) page bitmap = mark_used left (page + 1) (bit_set bitmap page)

-- The new state and the address, 0 where nothing is allocated. `free_count -= count` runs only at
-- `count <= free_count`.
unfoldable pub pmm_alloc_pages : Pmm → ℕ → Pmm × ℕ
unfolding mark_used
pmm_alloc_pages s count =
    if count == 0 || ltb s.free_count count
    then (s, 0)
    else elim (find_run s count s.page_count 0 0 0) [
      | none ↦ (s, 0)
      | some start ↦ (
        record s {
          used_bitmap = mark_used count start s.used_bitmap;
          free_count = s.free_count - count;
        },
        u64 (start * page_size),
      )
    ]

unfoldable pub pmm_alloc_page : Pmm → Pmm × ℕ
unfolding pmm_alloc_pages
pmm_alloc_page s = pmm_alloc_pages s 1

-- The first loop of `pmm_release_pages`: every page is usable and used.
unfoldable pub all_allocated : Pmm → ℕ → ℕ → Bool
all_allocated s zero page = true
all_allocated s (suc left) page =
    is_usable s page && is_used s page && all_allocated s left (page + 1)

unfoldable pub mark_free : ℕ → ℕ → Bits → Bits
mark_free zero page bitmap = bitmap
mark_free (suc left) page bitmap = mark_free left (page + 1) (bit_clear bitmap page)

unfoldable pub refuses_release : Pmm → ℕ → ℕ → Bool
refuses_release s address count =
    let first = address / page_size in
    not (bit_and address (page_size - 1) == 0)
    || (count == 0 || leb s.page_count first || ltb (s.page_count - first) count)

unfoldable pub pmm_release_pages : Pmm → ℕ → ℕ → Pmm × Bool
unfolding refuses_release all_allocated mark_free
pmm_release_pages s address count =
    let first = address / page_size in
    if refuses_release s address count
    then (s, false)
    else if not (all_allocated s count first)
    then (s, false)
    else (
      record s {
        used_bitmap = mark_free count first s.used_bitmap;
        free_count = u64 (s.free_count + count);
      },
      true,
    )

unfoldable pub pmm_free_page : Pmm → ℕ → Pmm × Bool
unfolding pmm_release_pages
pmm_free_page s address = pmm_release_pages s address 1

-- The loop of `pmm_validate`: the usable pages and the free ones that it counts.
unfoldable pub count_pages : Pmm → ℕ → ℕ → ℕ × ℕ → ℕ × ℕ
count_pages s zero page counted = counted
count_pages s (suc left) page (managed_pages, free_pages) = count_pages s left (page + 1) (
    if is_usable s page
    then (managed_pages + 1, if is_used s page then free_pages else free_pages + 1)
    else (managed_pages, free_pages))

unfoldable pub pmm_validate : Pmm → Bool
unfolding count_pages
pmm_validate s =
    let counted = count_pages s s.page_count 0 (0, 0) in
    counted.0 == s.managed_count && counted.1 == s.free_count && leb s.free_count s.managed_count
