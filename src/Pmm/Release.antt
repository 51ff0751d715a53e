-- ===== src/Pmm/Release.antt =====
-- src/pmm.c `pmm_release_pages`.
use argusos_uefi_v.Base.{
  ℕ, zero, suc, ◌+◌, ◌/◌, ◌%◌, ◌^◌, ◌≤◌, ◌<◌, ◌≡◌, ◌≢◌, ◌⊎◌, refl, inl, inr, true, false, not, ◌&&◌,
  List, Bool-cases, ℕ-eq-cases, arith,
}
use argusos_uefi_v.Base.Bits.Fields.{bit_and_mask}
use argusos_uefi_v.Base.Words.{u64}
use argusos_uefi_v.Pmm.{
  Pmm, is_usable, is_used, is_free, page_size, all_allocated, refuses_release, mark_free,
  pmm_release_pages,
}
use argusos_uefi_v.Pmm.Invariant.{IsValid}
use argusos_uefi_v.Pmm.Count.{count_below-le}
use argusos_uefi_v.Pmm.Runs.{in_run, mark_free-Covers, bit_get-mark_free, count-mark_free}

-- The pages from `a` on, `c` of them, are all allocated: usable, and used.
abbrev pub AllocatedRun : Pmm → ℕ → ℕ → Type 0
AllocatedRun s a c = (j : ℕ) → a ≤ j → j < a + c → (is_usable s j && is_used s j) ≡ true

all_allocated-AllocatedRun :
    (s : Pmm) (left page : ℕ) → all_allocated s left page ≡ true → AllocatedRun s page left
unfolding all_allocated
all_allocated-AllocatedRun s zero page h j l u = absurd (omega arith)
all_allocated-AllocatedRun s (suc left) page h j l u = elim (ℕ-eq-cases j page) [
  | inl same ↦ rw same (ground arith)
  | inr later ↦
      all_allocated-AllocatedRun s left (page + 1) (ground arith) j (omega arith) (omega arith)
]

AllocatedRun-all_allocated :
    (s : Pmm) (left page : ℕ) → AllocatedRun s page left → all_allocated s left page ≡ true
unfolding all_allocated
AllocatedRun-all_allocated s zero page run = refl
AllocatedRun-all_allocated s (suc left) page run =
    let here = run page (omega arith) (omega arith) in
    let rest =
      AllocatedRun-all_allocated s left (page + 1) (λ j l u. run j (omega arith) (omega arith)) in
    ground (arith, here, rest)

-- What can be released: the pages at an aligned address, within memory, all of them allocated.
pub record Releasable (s : Pmm) (address count : ℕ) : Type 0 where
  pub aligned : address % page_size ≡ 0
  pub some_pages : count ≢ 0
  pub inside : address / page_size + count ≤ s.page_count
  pub allocated : AllocatedRun s (address / page_size) count

-- The state after a release.
abbrev released : Pmm → ℕ → ℕ → Pmm
released s address count = record s {
  used_bitmap = mark_free count (address / page_size) s.used_bitmap;
  free_count = u64 (s.free_count + count);
}

release_cases :
    (s : Pmm) (address count : ℕ)
    → (pmm_release_pages s address count ≡ (s, false))
      ⊎ (Releasable s address count
          × (pmm_release_pages s address count ≡ (released s address count, true)))
unfolding pmm_release_pages
release_cases s address count = elim (Bool-cases (refuses_release s address count)) [
  | inl refused ↦ inl (rw refused)
  | inr passed ↦ elim (Bool-cases (all_allocated s count (address / page_size))) [
    | inl all ↦ inr (
      record {
        aligned = ground (arith, bit_and_mask 12 address);
        some_pages = ground arith;
        inside = ground arith;
        allocated = all_allocated-AllocatedRun s count (address / page_size) all;
      },
      rw (passed, all),
    )
    | inr some_other ↦ inl (rw (passed, some_other))
  ]
]

release_found :
    (s : Pmm) (address count : ℕ)
    → s.page_count < 2 ^ 52
    → Releasable s address count
    → pmm_release_pages s address count ≡ (released s address count, true)
unfolding pmm_release_pages
release_found s address count small r =
    let passed : refuses_release s address count ≡ false =
      ground (arith, bit_and_mask 12 address, r.aligned, r.some_pages, r.inside) in
    let all = AllocatedRun-all_allocated s count (address / page_size) r.allocated in
    rw (passed, all)

released-IsValid :
    (s : Pmm) (address count : ℕ)
    → IsValid s
    → Releasable s address count
    → IsValid (released s address count)
released-IsValid s address count v r =
    let first : ℕ = address / page_size in
    let used : List ℕ = mark_free count first s.used_bitmap in
    let freed =
      count-mark_free s.page_count s.usable_bitmap count first s.used_bitmap v.used_covers r.inside
        r.allocated in
    let most = count_below-le s.page_count (is_free (released s address count)) in
    record {
      usable_covers = v.usable_covers;
      used_covers = mark_free-Covers s.page_count count first s.used_bitmap v.used_covers;
      addressable = v.addressable;
      managed_exact = v.managed_exact;
      free_exact = omega (arith, v.free_exact, freed, most, v.addressable);
    }

-- Releasing keeps the counters exact, on every branch.
pub release-IsValid :
    (s : Pmm) (address count : ℕ) → IsValid s → IsValid (pmm_release_pages s address count).0
release-IsValid s address count v = elim (release_cases s address count) [
  | inl e ↦ rw e v
  | inr (r, e) ↦ rw e (released-IsValid s address count v r)
]

-- What a release changes: the pages of the run are no longer used, and nothing else.
pub record Freed (s s' : Pmm) (first count : ℕ) : Type 0 where
  pub usable_same : (q : ℕ) → is_usable s' q ≡ is_usable s q
  pub used_now : (q : ℕ) → is_used s' q ≡ (is_used s q && not (in_run first count q))
  pub same_pages : s'.page_count ≡ s.page_count

-- A release answers 1 exactly for an aligned address, at least one page, and a run within memory
-- whose pages are all allocated. Then the pages of the run are free again and no other page
-- changes; otherwise nothing changes at all, so a page is never freed twice.
pub release_lem :
    (s : Pmm) (address count : ℕ)
    → IsValid s
    → let (s', done) = pmm_release_pages s address count in
      ((done ≡ true) × Releasable s address count × Freed s s' (address / page_size) count)
      ⊎ ((done ≡ false) × (¬ Releasable s address count) × (s' ≡ s))
release_lem s address count v = elim (release_cases s address count) [
  | inl e ↦ rw e (inr (refl, (λ r. cc (release_found s address count v.addressable r)), refl))
  | inr (r, e) ↦ rw e (
      inl (
        refl,
        r,
        record {
          usable_same = λ q. refl;
          used_now = λ q.
              bit_get-mark_free s.page_count count (address / page_size) s.used_bitmap q
                v.used_covers r.inside;
          same_pages = refl;
        },
      ))
]
