-- ===== src/Pmm/Tests.antt =====
-- Runs of the page allocator on a machine of 272 pages, and the theorems at it.
use mathlib.Core.Logic.{◌↔◌}
use argusos_uefi_v.Base.{
  ℕ, ◌*◌, ◌≡◌, ◌≢◌, ◌⊎◌, ◌<◌, ◌≤◌, inl, inr, refl, true, false, not, ◌&&◌, [], ◌∷◌, ◌==◌, arith,
  ℕ-eq-cases,
}
use argusos_uefi_v.Pmm.{
  Pmm, Range, BootInfo, conventional_memory, boot_info_magic, refuses_boot_info, page_size,
  is_usable, is_used, is_free, pmm_init, pmm_alloc_pages, pmm_release_pages, pmm_validate, find_run,
}
use argusos_uefi_v.Pmm.Bitmap.{bit_get, bit_set, bit_clear}
use argusos_uefi_v.Pmm.Invariant.{IsValid, usable_pages, free_pages, validate_iff}
use argusos_uefi_v.Pmm.Init.{Sized, described, reserved, init_lem}
use argusos_uefi_v.Pmm.Search.{FreeRun}
use argusos_uefi_v.Pmm.Alloc.{Allocated, alloc-Allocated, alloc_first_fit}
use argusos_uefi_v.Pmm.Release.{Releasable, Freed, release_lem}
use argusos_uefi_v.Pmm.RoundTrip.{release-alloc}

abbrev no_range : Range
no_range = record { base = 0; size = 0 }

-- All 272 pages are conventional memory; the kernel lies in page 257, and bytes of it in page 258.
abbrev machine : BootInfo
machine = record {
  magic = boot_info_magic;
  boot_services_exited = 1;
  memory_map_buffer = 1;
  descriptor_size = 48;
  descriptors =
      record { type = conventional_memory; physical_start = 0; number_of_pages = 272 } ∷ [];
  pmm_page_count = 272;
  pmm_bitmap_bytes = 34;
  pmm_bitmap_storage = record { base = 0x1000; size = 68 };
  kernel_image = record { base = 0x10_1000; size = 0x1001 };
  boot_info_storage = no_range;
  kernel_stack = no_range;
  memory_map_storage = no_range;
  framebuffer = no_range;
  acpi_rsdp = 0;
}

abbrev unset : Pmm
unset = record {
  usable_bitmap = [];
  used_bitmap = [];
  page_count = 0;
  managed_count = 0;
  free_count = 0;
}

abbrev booted : Pmm
booted = (pmm_init unset machine).0

booted_counts : (booted.free_count ≡ 14) × (pmm_validate booted ≡ true)
unfolding pmm_init pmm_validate bit_get bit_set bit_clear
booted_counts = (refl, refl)

-- The first two free pages in a row are 259 and 260: 256 stands alone before the kernel.
first_pair : (pmm_alloc_pages booted 2).1 ≡ 259 * page_size
unfolding pmm_init pmm_alloc_pages find_run bit_get bit_set bit_clear
first_pair = refl

machine-Sized : Sized machine
machine-Sized = record { room = omega arith; addressable = omega arith }

machine_accepted : refuses_boot_info machine ≡ false
unfolding refuses_boot_info
machine_accepted = refl

booted-IsValid : IsValid booted
booted-IsValid = (init_lem unset machine machine_accepted machine-Sized).0

pair-ne-zero : (pmm_alloc_pages booted 2).1 ≢ 0
pair-ne-zero = omega (arith, first_pair)

init_lem_example :
    IsValid booted
    × ((q : ℕ)
        → q < 272
        → is_usable booted q ≡ (described machine.descriptors q && not (reserved machine q)))
    × ((pmm_init unset machine).1 ≡ not (usable_pages booted == 0))
init_lem_example = init_lem unset machine machine_accepted machine-Sized

validate_iff_example :
    (pmm_validate booted ≡ true)
    ↔ ((booted.managed_count ≡ usable_pages booted) × (booted.free_count ≡ free_pages booted))
validate_iff_example = validate_iff booted

alloc-Allocated_example :
    (start : ℕ) × Allocated booted (pmm_alloc_pages booted 2).0 (pmm_alloc_pages booted 2).1 2 start
alloc-Allocated_example = alloc-Allocated booted 2 booted-IsValid pair-ne-zero

booted_pages : booted.page_count ≡ 272
unfolding pmm_init bit_get bit_set bit_clear
booted_pages = refl

free_259 : is_free booted 259 ≡ true
unfolding pmm_init bit_get bit_set bit_clear
free_259 = refl

free_260 : is_free booted 260 ≡ true
unfolding pmm_init bit_get bit_set bit_clear
free_260 = refl

run_259 : FreeRun booted 259 2
run_259 j l u = elim (ℕ-eq-cases j 259) [
  | inl e ↦ rw e free_259
  | inr ne ↦ let e : j ≡ 260 = omega arith in rw e free_260
]

page_0_reserved : is_usable booted 0 ≡ false
unfolding pmm_init bit_get bit_set bit_clear
page_0_reserved = refl

alloc_first_fit_example :
    ((pmm_alloc_pages booted 2).1 ≢ 0)
    × (start : ℕ) × (start ≤ 259)
    × Allocated booted (pmm_alloc_pages booted 2).0 (pmm_alloc_pages booted 2).1 2 start
alloc_first_fit_example =
    alloc_first_fit booted 2 259 booted-IsValid page_0_reserved (omega arith)
      (omega (arith, booted_pages)) run_259

release_lem_example :
    let (s', done) = pmm_release_pages booted 0x10_0000 1 in
    ((done ≡ true) × Releasable booted 0x10_0000 1 × Freed booted s' 256 1)
    ⊎ ((done ≡ false) × (¬ Releasable booted 0x10_0000 1) × (s' ≡ booted))
release_lem_example = release_lem booted 0x10_0000 1 booted-IsValid

release-alloc_example :
    let (s', address) = pmm_alloc_pages booted 2 in
    let (s'', done) = pmm_release_pages s' address 2 in
    (done ≡ true)
    × ((q : ℕ) → is_usable s'' q ≡ is_usable booted q)
    × ((q : ℕ) → is_used s'' q ≡ is_used booted q)
    × (s''.free_count ≡ booted.free_count)
release-alloc_example = release-alloc booted 2 booted-IsValid pair-ne-zero
