-- ===== src/Pmm/Reserve.antt =====
-- The steps that `pmm_init` of src/pmm.c is made of: loops that make pages usable, and
-- `reserve_range`.
use argusos_uefi_v.Base.{
  ℕ, zero, suc, ◌+◌, ◌-◌, ◌*◌, ◌/◌, ◌^◌, ◌≤◌, ◌<◌, ◌≡◌, ◌≢◌, refl, ◌∙◌, ap, inl, inr, Bool, true,
  not, ◌&&◌, ◌||◌, leb, ◌==◌, Bool-cases, arith,
}
use argusos_uefi_v.Base.Words.{u64}
use argusos_uefi_v.Pmm.{
  Pmm, Range, is_usable, page_size, reserve_page, reserve_pages, range_end, reserve_range,
  make_usable, make_pages,
}
use argusos_uefi_v.Pmm.Invariant.{IsValid}
use argusos_uefi_v.Pmm.Runs.{in_run}
use argusos_uefi_v.Pmm.Pages.{
  usable-make_usable, usable-reserve_page, page_count-make_usable, page_count-reserve_page,
  make_usable-IsValid, reserve_page-IsValid,
}

-- A step of the construction: it keeps the invariant and the number of pages, and makes the pages
-- usable that `usable` says.
pub record Builds (s s' : Pmm) (usable : ℕ → Bool) : Type 0 where
  pub valid : IsValid s'
  pub same_pages : s'.page_count ≡ s.page_count
  pub now : (q : ℕ) → q < s.page_count → is_usable s' q ≡ usable q

reserve_pages-Builds :
    (left page : ℕ) (s : Pmm)
    → IsValid s
    → Builds s (reserve_pages left page s) (λ q. is_usable s q && not (in_run page left q))
unfolding reserve_pages
reserve_pages-Builds zero page s v = record {
  valid = v;
  same_pages = refl;
  now = λ q h. ground arith;
}
reserve_pages-Builds (suc left) page s v =
    let v' = reserve_page-IsValid s page v in
    let same = page_count-reserve_page s page in
    let rest = reserve_pages-Builds left (page + 1) (reserve_page s page) v' in
    record {
      valid = rest.valid;
      same_pages = rest.same_pages ∙ same;
      now = λ q h.
          rest.now q (omega (arith, same)) ∙ ground (arith, usable-reserve_page s page q v h);
    }

pub make_pages-Builds :
    (left page : ℕ) (s : Pmm)
    → IsValid s
    → Builds s (make_pages left page s) (λ q. is_usable s q || in_run page left q)
unfolding make_pages
make_pages-Builds zero page s v = record { valid = v; same_pages = refl; now = λ q h. ground arith }
make_pages-Builds (suc left) page s v =
    let v' = make_usable-IsValid s page v in
    let same = page_count-make_usable s page in
    let rest = make_pages-Builds left (page + 1) (make_usable s page) v' in
    record {
      valid = rest.valid;
      same_pages = rest.same_pages ∙ same;
      now =
          λ q h. rest.now q (omega (arith, same)) ∙ ground (arith, usable-make_usable s page q v h);
    }

-- A page has a byte in the range.
abbrev pub Touches : ℕ → Range → Type 0
Touches q r = (b : ℕ) × (r.base ≤ b) × (b < r.base + r.size) × (b / page_size ≡ q)

-- The same as a test, from the first and the last byte of the range.
abbrev pub touches : ℕ → Range → Bool
touches q r =
    not (r.size == 0) && leb (r.base / page_size) q && leb q ((r.base + r.size - 1) / page_size)

pub touches_of_Touches : (q : ℕ) (r : Range) → Touches q r → touches q r ≡ true
touches_of_Touches q r (b, lo, hi, e) = ground arith

-- The pages that `reserve_range` visits are those that the range touches.
run_of_range :
    (s : Pmm) (r : Range) (q : ℕ)
    → s.page_count < 2 ^ 52
    → q < s.page_count
    → r.size ≢ 0
    → r.base < s.page_count * page_size
    → in_run (r.base / page_size) (range_end s r - r.base / page_size) q ≡ touches q r
run_of_range s r q small h some_bytes low = ground arith

-- `reserve_range` takes away exactly the pages that the range touches, also where the range would
-- go beyond the address space.
pub reserve_range-Builds :
    (s : Pmm) (r : Range)
    → IsValid s
    → Builds s (reserve_range s r) (λ q. is_usable s q && not (touches q r))
unfolding reserve_range
reserve_range-Builds s r v =
    elim (Bool-cases (r.size == 0 || leb (u64 (s.page_count * page_size)) r.base)) [
      | inl skip ↦
          rw skip
            (record { valid = v; same_pages = refl; now = λ q h. ground (arith, v.addressable) })
      | inr go ↦
          let b =
            reserve_pages-Builds (range_end s r - r.base / page_size) (r.base / page_size) s v in
          rw go (record {
            valid = b.valid;
            same_pages = b.same_pages;
            now = λ q h.
                b.now q h
                ∙ ap (λ t. is_usable s q && not t)
                    (run_of_range s r q v.addressable h (ground arith)
                      (ground (arith, v.addressable)));
          })
    ]
