-- ===== src/Pmm/Invariant.antt =====
-- The invariant of the allocator: the counters of src/pmm.c are the numbers of usable and of free
-- pages. `pmm_validate` checks it.
use mathlib.Core.Logic.{◌↔◌}
use argusos_uefi_v.Base.{
  ℕ, zero, suc, ◌+◌, ◌^◌, ◌≤◌, ◌<◌, ◌≡◌, refl, sym, ◌∙◌, ap, Bool, true, false, not, ◌&&◌,
  if◌then◌else◌, arith,
}
use argusos_uefi_v.Pmm.{Pmm, is_usable, is_used, is_free, count_pages, pmm_validate}
use argusos_uefi_v.Pmm.Bitmap.{Covers}
use argusos_uefi_v.Pmm.Count.{one, count_below, count_below-suc, count_below_mono}

abbrev pub usable_pages : Pmm → ℕ
usable_pages s = count_below s.page_count (is_usable s)

abbrev pub free_pages : Pmm → ℕ
free_pages s = count_below s.page_count (is_free s)

pub record IsValid (s : Pmm) : Type 0 where
  pub usable_covers : Covers s.usable_bitmap s.page_count
  pub used_covers : Covers s.used_bitmap s.page_count
  pub addressable : s.page_count < 2 ^ 52
  pub managed_exact : s.managed_count ≡ usable_pages s
  pub free_exact : s.free_count ≡ free_pages s

pub free-le-usable : (s : Pmm) → free_pages s ≤ usable_pages s
free-le-usable s = count_below_mono s.page_count (is_free s) (is_usable s) (λ j h. ground arith)

counted_step :
    (u v : Bool) (m f : ℕ)
    → ◌≡◌ {A = ℕ × ℕ}
        (if u then (m + 1, if v then f else f + 1) else (m, f))
        (m + one u, f + one (u && not v))
counted_step true true m f = ground arith
counted_step true false m f = ground arith
counted_step false v m f = ground arith

-- The loop of `pmm_validate` counts on from the pages before.
count_pages_lem :
    (s : Pmm) (left page end : ℕ)
    → page + left ≡ end
    → count_pages s left page (count_below page (is_usable s), count_below page (is_free s))
      ≡ (count_below end (is_usable s), count_below end (is_free s))
unfolding count_pages
count_pages_lem s zero page end e = let same : page ≡ end = omega arith in rw same refl
count_pages_lem s (suc left) page end e =
    ap (count_pages s left (page + 1)) (
      counted_step (is_usable s page) (is_used s page) (count_below page (is_usable s))
        (count_below page (is_free s))
      ∙ λ i. (sym (count_below-suc page (is_usable s)) i, sym (count_below-suc page (is_free s)) i))
    ∙ count_pages_lem s left (page + 1) end (omega arith)

counted : (s : Pmm) → count_pages s s.page_count 0 (0, 0) ≡ (usable_pages s, free_pages s)
unfolding count_below
counted s = count_pages_lem s s.page_count 0 s.page_count (omega arith)

-- `pmm_validate` answers 1 exactly where the counters are the numbers of usable and of free pages.
pub validate_iff :
    (s : Pmm)
    → (pmm_validate s ≡ true) ↔ ((s.managed_count ≡ usable_pages s) × (s.free_count ≡ free_pages s))
unfolding pmm_validate
validate_iff s = (
  λ h. (ground (arith, counted s), ground (arith, counted s)),
  λ h. ground (arith, counted s, free-le-usable s),
)
