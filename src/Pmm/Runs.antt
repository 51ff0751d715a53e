-- ===== src/Pmm/Runs.antt =====
-- The loops of src/pmm.c that mark a run of pages as used or as free.
use argusos_uefi_v.Base.{
  ℕ, zero, suc, ◌+◌, ◌≤◌, ◌<◌, ◌≡◌, refl, Bool, true, not, ◌&&◌, ◌||◌, ltb, leb, arith,
}
use argusos_uefi_v.Pmm.{mark_used, mark_free}
use argusos_uefi_v.Pmm.Bitmap.{
  Bits, Covers, bit_get, bit_set, bit_clear, bit_get-bit_set, bit_get-bit_clear, bit_set-Covers,
  bit_clear-Covers,
}
use argusos_uefi_v.Pmm.Pages.{bit_set_here, bit_clear_here, bit_set_there, bit_clear_there}
use argusos_uefi_v.Pmm.Count.{count_below, count_below-change}

-- The pages of the run of `left` pages from `page` on.
abbrev pub in_run : ℕ → ℕ → ℕ → Bool
in_run page left q = leb page q && ltb q (page + left)

-- The test for a free page, over the two bitmaps.
abbrev pub free_in : Bits → Bits → ℕ → Bool
free_in usable used page = bit_get usable page && not (bit_get used page)

module _ (pages : ℕ) where
  pub mark_used-Covers :
      (left page : ℕ) (bitmap : Bits)
      → Covers bitmap pages
      → Covers (mark_used left page bitmap) pages
  unfolding mark_used
  mark_used-Covers zero page bitmap c = c
  mark_used-Covers (suc left) page bitmap c =
      mark_used-Covers left (page + 1) (bit_set bitmap page) (bit_set-Covers bitmap pages page c)

  pub mark_free-Covers :
      (left page : ℕ) (bitmap : Bits)
      → Covers bitmap pages
      → Covers (mark_free left page bitmap) pages
  unfolding mark_free
  mark_free-Covers zero page bitmap c = c
  mark_free-Covers (suc left) page bitmap c =
      mark_free-Covers left (page + 1) (bit_clear bitmap page)
        (bit_clear-Covers bitmap pages page c)

  -- Exactly the bits of the run are set.
  pub bit_get-mark_used :
      (left page : ℕ) (bitmap : Bits) (q : ℕ)
      → Covers bitmap pages
      → page + left ≤ pages
      → bit_get (mark_used left page bitmap) q ≡ (bit_get bitmap q || in_run page left q)
  unfolding mark_used
  bit_get-mark_used zero page bitmap q c h = ground arith
  bit_get-mark_used (suc left) page bitmap q c h = ground (
    arith,
    bit_get-mark_used left (page + 1) (bit_set bitmap page) q (bit_set-Covers bitmap pages page c)
        (omega arith),
    bit_get-bit_set bitmap pages page q c (omega arith),
  )

  -- Exactly the bits of the run are cleared.
  pub bit_get-mark_free :
      (left page : ℕ) (bitmap : Bits) (q : ℕ)
      → Covers bitmap pages
      → page + left ≤ pages
      → bit_get (mark_free left page bitmap) q ≡ (bit_get bitmap q && not (in_run page left q))
  unfolding mark_free
  bit_get-mark_free zero page bitmap q c h = ground arith
  bit_get-mark_free (suc left) page bitmap q c h = ground (
    arith,
    bit_get-mark_free left (page + 1) (bit_clear bitmap page) q
        (bit_clear-Covers bitmap pages page c) (omega arith),
    bit_get-bit_clear bitmap pages page q c (omega arith),
  )

  -- Marking a run of free pages takes them off the count of free pages.
  pub count-mark_used :
      (usable : Bits) (left page : ℕ) (used : Bits)
      → Covers used pages
      → page + left ≤ pages
      → ((j : ℕ) → page ≤ j → j < page + left → free_in usable used j ≡ true)
      → count_below pages (free_in usable (mark_used left page used)) + left
        ≡ count_below pages (free_in usable used)
  unfolding mark_used
  count-mark_used usable zero page used c h free = omega arith
  count-mark_used usable (suc left) page used c h free =
      let next : Bits = bit_set used page in
      let there = bit_set_there used pages page c (omega arith) in
      let still : (j : ℕ) → page + 1 ≤ j → j < page + 1 + left → free_in usable next j ≡ true =
        λ j l u. rw (there j (omega arith)) (free j (omega arith) (omega arith)) in
      let rest =
        count-mark_used usable left (page + 1) next (bit_set-Covers used pages page c) (omega arith)
          still in
      let change =
        count_below-change pages page (free_in usable used) (free_in usable next) (omega arith)
          (λ j ne. rw (there j ne) refl) in
      ground
        (arith, rest, change, bit_set_here used pages page c, free page (omega arith) (omega arith))

  -- Marking a run of usable pages as free adds them to the count.
  pub count-mark_free :
      (usable : Bits) (left page : ℕ) (used : Bits)
      → Covers used pages
      → page + left ≤ pages
      → ((j : ℕ) → page ≤ j → j < page + left → (bit_get usable j && bit_get used j) ≡ true)
      → count_below pages (free_in usable (mark_free left page used))
        ≡ count_below pages (free_in usable used) + left
  unfolding mark_free
  count-mark_free usable zero page used c h taken = omega arith
  count-mark_free usable (suc left) page used c h taken =
      let next : Bits = bit_clear used page in
      let there = bit_clear_there used pages page c (omega arith) in
      let still : (j : ℕ)
          → page + 1 ≤ j
          → j < page + 1 + left
          → (bit_get usable j && bit_get next j) ≡ true =
        λ j l u. rw (there j (omega arith)) (taken j (omega arith) (omega arith)) in
      let rest =
        count-mark_free usable left (page + 1) next (bit_clear-Covers used pages page c)
          (omega arith) still in
      let change =
        count_below-change pages page (free_in usable used) (free_in usable next) (omega arith)
          (λ j ne. rw (there j ne) refl) in
      ground (
        arith,
        rest,
        change,
        bit_clear_here used pages page c,
        taken page (omega arith) (omega arith),
      )
