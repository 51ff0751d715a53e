-- ===== src/Pmm/Init.antt =====
-- src/pmm.c `pmm_init`: from the memory map and the ranges of the boot information to the first
-- state of the allocator.
use argusos_uefi_v.Base.{
  ℕ, ◌-◌, ◌*◌, ◌/◌, ◌^◌, ◌≤◌, ◌<◌, ◌≡◌, refl, sym, ◌∙◌, ap, inl, inr, Bool, false, not, ◌&&◌, ◌||◌,
  List, [], ◌∷◌, if◌then◌else◌, ltb, ◌==◌, Bool-cases, arith,
}
use argusos_uefi_v.Pmm.{
  Pmm, Range, Descriptor, BootInfo, is_usable, page_size, reserve_range, reserve_ranges,
  add_descriptor, add_descriptors, conventional_memory, handoff_ranges, rsdp_page, cleared, managed,
  pmm_init, refuses_boot_info,
}
use argusos_uefi_v.Pmm.Bitmap.{replicate-Covers, bit_get-replicate_zero}
use argusos_uefi_v.Pmm.Count.{count_below_none}
use argusos_uefi_v.Pmm.Invariant.{IsValid, usable_pages}
use argusos_uefi_v.Pmm.Runs.{in_run}
use argusos_uefi_v.Pmm.Reserve.{Builds, touches, make_pages-Builds, reserve_range-Builds}

-- The descriptor says that the page is conventional memory.
abbrev pub describes : Descriptor → ℕ → Bool
describes d q =
    d.type == conventional_memory && in_run (d.physical_start / page_size) d.number_of_pages q

abbrev pub described : List Descriptor → ℕ → Bool
described [] q = false
described (d ∷ ds) q = describes d q || described ds q

-- Some range of the list touches the page.
abbrev pub touched : List Range → ℕ → Bool
touched [] q = false
touched (r ∷ rs) q = touches q r || touched rs q

-- The page holds low memory, the kernel, the handoff data, the framebuffer or the ACPI root pointer.
abbrev pub reserved : BootInfo → ℕ → Bool
reserved b q = touched (handoff_ranges b) q || (not (b.acpi_rsdp == 0) && touches q (rsdp_page b))

add_descriptor-Builds :
    (s : Pmm) (d : Descriptor)
    → IsValid s
    → Builds s (add_descriptor s d) (λ q. is_usable s q || describes d q)
unfolding add_descriptor
add_descriptor-Builds s d v =
    elim (Bool-cases
      (d.type == conventional_memory && ltb (d.physical_start / page_size) s.page_count)) [
        | inr skip ↦ rw skip (record { valid = v; same_pages = refl; now = λ q h. ground arith })
        | inl go ↦
            let b =
              make_pages-Builds
                (if ltb (s.page_count - d.physical_start / page_size) d.number_of_pages
                  then s.page_count - d.physical_start / page_size
                  else d.number_of_pages)
                (d.physical_start / page_size) s v in
            rw go (record {
              valid = b.valid;
              same_pages = b.same_pages;
              now = λ q h. b.now q h ∙ ground arith;
            })
      ]

add_descriptors-Builds :
    (ds : List Descriptor) (s : Pmm)
    → IsValid s
    → Builds s (add_descriptors s ds) (λ q. is_usable s q || described ds q)
unfolding add_descriptors
add_descriptors-Builds [] s v = record { valid = v; same_pages = refl; now = λ q h. ground arith }
add_descriptors-Builds (d ∷ ds) s v =
    let first = add_descriptor-Builds s d v in
    let rest = add_descriptors-Builds ds (add_descriptor s d) first.valid in
    record {
      valid = rest.valid;
      same_pages = rest.same_pages ∙ first.same_pages;
      now = λ q h. rest.now q (omega (arith, first.same_pages)) ∙ ground (arith, first.now q h);
    }

reserve_ranges-Builds :
    (rs : List Range) (s : Pmm)
    → IsValid s
    → Builds s (reserve_ranges s rs) (λ q. is_usable s q && not (touched rs q))
unfolding reserve_ranges
reserve_ranges-Builds [] s v = record { valid = v; same_pages = refl; now = λ q h. ground arith }
reserve_ranges-Builds (r ∷ rs) s v =
    let first = reserve_range-Builds s r v in
    let rest = reserve_ranges-Builds rs (reserve_range s r) first.valid in
    record {
      valid = rest.valid;
      same_pages = rest.same_pages ∙ first.same_pages;
      now = λ q h. rest.now q (omega (arith, first.same_pages)) ∙ ground (arith, first.now q h);
    }

-- The boot information gives the bitmaps room for every page, and fewer pages than 2^52.
pub record Sized (b : BootInfo) : Type 0 where
  pub room : b.pmm_page_count ≤ 8 * b.pmm_bitmap_bytes
  pub addressable : b.pmm_page_count < 2 ^ 52

cleared-IsValid : (b : BootInfo) → Sized b → IsValid (cleared b)
cleared-IsValid b z = record {
  usable_covers = replicate-Covers b.pmm_bitmap_bytes b.pmm_page_count 0 z.room (omega arith);
  used_covers = replicate-Covers b.pmm_bitmap_bytes b.pmm_page_count 0xFF z.room (omega arith);
  addressable = z.addressable;
  managed_exact =
      sym (count_below_none b.pmm_page_count _ (bit_get-replicate_zero b.pmm_bitmap_bytes));
  free_exact = sym (
      count_below_none b.pmm_page_count _
        (λ j. rw (bit_get-replicate_zero b.pmm_bitmap_bytes j) refl));
}

without_none : (d t : Bool) → (d && not t) ≡ (d && not (t || false))
without_none d t = ground arith

without_more : (u d t x : Bool) → u ≡ (d && not t) → (u && not x) ≡ (d && not (t || x))
without_more u d t x e = ground arith

managed-Builds :
    (b : BootInfo)
    → Sized b
    → Builds (cleared b) (managed b) (λ q. described b.descriptors q && not (reserved b q))
unfolding managed
managed-Builds b z =
    let added = add_descriptors-Builds b.descriptors (cleared b) (cleared-IsValid b z) in
    let s1 : Pmm = add_descriptors (cleared b) b.descriptors in
    let kept = reserve_ranges-Builds (handoff_ranges b) s1 added.valid in
    let s2 : Pmm = reserve_ranges s1 (handoff_ranges b) in
    let last = reserve_range-Builds s2 (rsdp_page b) kept.valid in
    let none_yet = bit_get-replicate_zero b.pmm_bitmap_bytes in
    let after : (q : ℕ)
        → q < b.pmm_page_count
        → is_usable s2 q ≡ (described b.descriptors q && not (touched (handoff_ranges b) q)) =
      λ q h. kept.now q (omega (arith, added.same_pages)) ∙ rw (added.now q h, none_yet q) refl in
    elim (Bool-cases (b.acpi_rsdp == 0)) [
      | inl absent ↦ rw absent (record {
        valid = kept.valid;
        same_pages = kept.same_pages ∙ added.same_pages;
        now = λ q h.
            after q h ∙ without_none (described b.descriptors q) (touched (handoff_ranges b) q);
      })
      | inr present ↦ rw present (record {
        valid = last.valid;
        same_pages = last.same_pages ∙ kept.same_pages ∙ added.same_pages;
        now = λ q h.
            last.now q (omega (arith, kept.same_pages, added.same_pages))
            ∙ without_more (is_usable s2 q) (described b.descriptors q)
                (touched (handoff_ranges b) q) (touches q (rsdp_page b)) (after q h);
      })
    ]

-- Where the boot information is accepted and gives the bitmaps room, the allocator starts with exact
-- counters, and a page is usable exactly if a descriptor of conventional memory covers it and it
-- touches none of the reserved ranges. The call answers 1 exactly if there is a usable page.
pub init_lem :
    (s : Pmm) (b : BootInfo)
    → refuses_boot_info b ≡ false
    → Sized b
    → let (s', done) = pmm_init s b in
      IsValid s'
      × ((q : ℕ)
          → q < b.pmm_page_count
          → is_usable s' q ≡ (described b.descriptors q && not (reserved b q)))
      × (done ≡ not (usable_pages s' == 0))
unfolding pmm_init
init_lem s b accepted z =
    let m = managed-Builds b z in
    rw accepted (m.valid, m.now, ap (λ n. not (n == 0)) m.valid.managed_exact)

-- So no page of low memory, address 0 included, is ever usable after the start.
pub init_low_memory :
    (s : Pmm) (b : BootInfo) (q : ℕ)
    → refuses_boot_info b ≡ false
    → Sized b
    → q < 256
    → q < b.pmm_page_count
    → is_usable (pmm_init s b).0 q ≡ false
init_low_memory s b q accepted z low h = (init_lem s b accepted z).1 q h ∙ ground arith
