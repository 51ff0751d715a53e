-- ===== src/Pmm/Alloc.antt =====
-- src/pmm.c `pmm_alloc_pages`: the run of pages that is handed out.
use argusos_uefi_v.Base.{
  ℕ, ◌+◌, ◌-◌, ◌*◌, ◌≤◌, ◌≡◌, ◌≢◌, ◌⊎◌, refl, ap, inl, inr, false, ◌||◌, some, ltb, ◌==◌,
  Bool-cases, Option-cases, arith,
}
use argusos_uefi_v.Base.Words.{u64}
use argusos_uefi_v.Pmm.{
  Pmm, is_usable, is_used, is_free, page_size, find_run, mark_used, pmm_alloc_pages,
}
use argusos_uefi_v.Pmm.Invariant.{IsValid}
use argusos_uefi_v.Pmm.Count.{count_below_run}
use argusos_uefi_v.Pmm.Runs.{in_run, mark_used-Covers, bit_get-mark_used, count-mark_used}
use argusos_uefi_v.Pmm.Search.{FreeRun, broken-Scanning, find_run-FreeRun, find_run_complete}

-- What `pmm_alloc_pages` does: nothing, or it takes the run that the search found.
record Allocates (s : Pmm) (count start : ℕ) : Type 0 where
  some_pages : count ≢ 0
  enough : count ≤ s.free_count
  found : find_run s count s.page_count 0 0 0 ≡ some start
  result : pmm_alloc_pages s count ≡ (
    record s {
      used_bitmap = mark_used count start s.used_bitmap;
      free_count = s.free_count - count;
    },
    u64 (start * page_size),
  )

alloc_cases :
    (s : Pmm) (count : ℕ)
    → (pmm_alloc_pages s count ≡ (s, 0)) ⊎ ((start : ℕ) × Allocates s count start)
unfolding pmm_alloc_pages
alloc_cases s count = elim (Bool-cases (count == 0 || ltb s.free_count count)) [
  | inl refused ↦ inl (rw refused)
  | inr passed ↦ elim (Option-cases (find_run s count s.page_count 0 0 0)) [
    | inl missing ↦ inl (rw (passed, missing))
    | inr (start, found) ↦ inr (
      start,
      record {
        some_pages = ground arith;
        enough = ground arith;
        found = found;
        result = rw (passed, found);
      },
    )
  ]
]

alloc_found :
    (s : Pmm) (count start : ℕ)
    → count ≢ 0
    → count ≤ s.free_count
    → find_run s count s.page_count 0 0 0 ≡ some start
    → Allocates s count start
unfolding pmm_alloc_pages
alloc_found s count start some_pages enough found =
    let passed : (count == 0 || ltb s.free_count count) ≡ false = ground arith in
    record { some_pages = some_pages; enough = enough; found = found; result = rw (passed, found) }

-- The run that a successful allocation takes was free, and lay within memory.
Allocates-FreeRun :
    (s : Pmm) (count start : ℕ)
    → Allocates s count start
    → (start + count ≤ s.page_count) × FreeRun s start count
Allocates-FreeRun s count start a =
    let f = find_run-FreeRun s count s.page_count 0 0 0 start (broken-Scanning s 0 0) a.found in
    (omega (arith, f.0), f.1)

-- An allocation keeps the counters exact, on every branch.
pub alloc-IsValid : (s : Pmm) (count : ℕ) → IsValid s → IsValid (pmm_alloc_pages s count).0
alloc-IsValid s count v = elim (alloc_cases s count) [
  | inl e ↦ rw e v
  | inr (start, a) ↦
      let f = Allocates-FreeRun s count start a in
      rw a.result (record {
        usable_covers = v.usable_covers;
        used_covers = mark_used-Covers s.page_count count start s.used_bitmap v.used_covers;
        addressable = v.addressable;
        managed_exact = v.managed_exact;
        free_exact = omega (
          arith,
          v.free_exact,
          count-mark_used s.page_count s.usable_bitmap count start s.used_bitmap v.used_covers f.0
              f.1,
        );
      })
]

-- What the caller of a successful allocation has: the address of a run of pages that were free and
-- now are used, while every other page is as it was.
pub record Allocated (s s' : Pmm) (address count start : ℕ) : Type 0 where
  pub is_address : address ≡ start * page_size
  pub inside : start + count ≤ s.page_count
  pub same_pages : s'.page_count ≡ s.page_count
  pub were_free : FreeRun s start count
  pub usable_same : (q : ℕ) → is_usable s' q ≡ is_usable s q
  pub used_now : (q : ℕ) → is_used s' q ≡ (is_used s q || in_run start count q)

Allocates-Allocated :
    (s : Pmm) (count start : ℕ)
    → IsValid s
    → Allocates s count start
    → Allocated s (pmm_alloc_pages s count).0 (pmm_alloc_pages s count).1 count start
Allocates-Allocated s count start v a =
    let f = Allocates-FreeRun s count start a in
    rw a.result (record {
      is_address = omega (arith, f.0, v.addressable);
      inside = f.0;
      same_pages = refl;
      were_free = f.1;
      usable_same = λ q. refl;
      used_now = λ q. bit_get-mark_used s.page_count count start s.used_bitmap q v.used_covers f.0;
    })

-- An allocation that returns an address hands over a run of pages at that address that were free;
-- they are used from then on, and no other page changes.
pub alloc-Allocated :
    (s : Pmm) (count : ℕ)
    → IsValid s
    → (pmm_alloc_pages s count).1 ≢ 0
    → (start : ℕ) × Allocated s (pmm_alloc_pages s count).0 (pmm_alloc_pages s count).1 count start
alloc-Allocated s count v h = elim (alloc_cases s count) [
  | inl e ↦ absurd (h (ap (λ p. p.1) e))
  | inr (start, a) ↦ (start, Allocates-Allocated s count start v a)
]

-- A run that does not start at page 0 has an address that is not 0.
address-ne-zero :
    (s s' : Pmm) (address count start : ℕ)
    → start ≢ 0
    → Allocated s s' address count start
    → address ≢ 0
address-ne-zero s s' address count start further a zero =
    let e = a.is_address in further (omega arith)

-- Where page 0 is not usable, an allocation of at least one page succeeds wherever a free run of
-- that length exists: the answer is not 0, and it is the address of a run that starts no later than
-- that one.
pub alloc_first_fit :
    (s : Pmm) (count a : ℕ)
    → IsValid s
    → is_usable s 0 ≡ false
    → count ≢ 0
    → a + count ≤ s.page_count
    → FreeRun s a count
    → ((pmm_alloc_pages s count).1 ≢ 0)
      × (start : ℕ) × (start ≤ a)
      × Allocated s (pmm_alloc_pages s count).0 (pmm_alloc_pages s count).1 count start
alloc_first_fit s count a v reserved some_pages fits free =
    let (r, e, le) =
      find_run_complete s count s.page_count 0 0 0 a (broken-Scanning s 0 0) (omega arith)
        (omega arith) (omega arith) free in
    let enough = count_below_run s.page_count a count (is_free s) fits free in
    let taken =
      Allocates-Allocated s count r v
        (alloc_found s count r some_pages (omega (arith, enough, v.free_exact)) e) in
    let further : r ≢ 0 =
      λ zero. let first = taken.were_free 0 (omega arith) (omega arith) in ground arith in
    (
      address-ne-zero s (pmm_alloc_pages s count).0 (pmm_alloc_pages s count).1 count r further
          taken,
      r,
      le,
      taken,
    )
