-- ===== src/Pmm/RoundTrip.antt =====
-- Allocating and then releasing, src/pmm.c `pmm_alloc_pages` and `pmm_release_pages`.
use argusos_uefi_v.Base.{ℕ, ◌/◌, ◌≡◌, ◌≢◌, refl, sym, ◌∙◌, inl, inr, true, arith}
use argusos_uefi_v.Pmm.{
  Pmm, is_usable, is_used, is_free, page_size, pmm_alloc_pages, pmm_release_pages,
}
use argusos_uefi_v.Pmm.Invariant.{IsValid}
use argusos_uefi_v.Pmm.Count.{count_below-cong}
use argusos_uefi_v.Pmm.Alloc.{Allocated, alloc-Allocated, alloc-IsValid}
use argusos_uefi_v.Pmm.Release.{Releasable, release_lem, release-IsValid}

-- What a successful allocation returned can be released, once.
Allocated-Releasable :
    (s s' : Pmm) (address count start : ℕ)
    → count ≢ 0
    → Allocated s s' address count start
    → Releasable s' address count
Allocated-Releasable s s' address count start some_pages a =
    let first : address / page_size ≡ start = omega (arith, a.is_address) in
    record {
      aligned = omega (arith, a.is_address);
      some_pages = some_pages;
      inside = omega (arith, first, a.inside, a.same_pages);
      allocated = rw first (λ j l u. ground (arith, a.usable_same j, a.used_now j, a.were_free j));
    }

alloc_none : (s : Pmm) → (pmm_alloc_pages s 0).1 ≡ 0
unfolding pmm_alloc_pages
alloc_none s = refl

-- Releasing what an allocation returned gives back the state before it: the release succeeds, every
-- page is usable and used as before, and as many pages are free.
pub release-alloc :
    (s : Pmm) (count : ℕ)
    → IsValid s
    → (pmm_alloc_pages s count).1 ≢ 0
    → let (s', address) = pmm_alloc_pages s count in
      let (s'', done) = pmm_release_pages s' address count in
      (done ≡ true)
      × ((q : ℕ) → is_usable s'' q ≡ is_usable s q)
      × ((q : ℕ) → is_used s'' q ≡ is_used s q)
      × (s''.free_count ≡ s.free_count)
release-alloc s count v h =
    let (start, a) = alloc-Allocated s count v h in
    let s1 : Pmm = (pmm_alloc_pages s count).0 in
    let address : ℕ = (pmm_alloc_pages s count).1 in
    let some_pages : count ≢ 0 = λ z. h (rw z (alloc_none s)) in
    let v1 = alloc-IsValid s count v in
    let v2 = release-IsValid s1 address count v1 in
    let r = Allocated-Releasable s s1 address count start some_pages a in
    let first : address / page_size ≡ start = omega (arith, a.is_address) in
    elim (release_lem s1 address count v1) [
      | inr (_, no_way, _) ↦ absurd (no_way r)
      | inl (done, _, f) ↦
          let usable : (q : ℕ)
              → is_usable (pmm_release_pages s1 address count).0 q ≡ is_usable s q =
            λ q. f.usable_same q ∙ a.usable_same q in
          let used : (q : ℕ) → is_used (pmm_release_pages s1 address count).0 q ≡ is_used s q =
            λ q. ground (arith, f.used_now q, a.used_now q, first, a.were_free q) in
          (
            done,
            usable,
            used,
            v2.free_exact
                ∙ rw (f.same_pages ∙ a.same_pages) (
                    count_below-cong s.page_count (is_free s) _ (λ j l. rw (usable j, used j) refl))
                ∙ sym v.free_exact,
          )
    ]
