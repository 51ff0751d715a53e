-- ===== src/Pmm/Pages.antt =====
-- Making one page usable or reserved, src/pmm.c `make_usable` and `reserve_page`, and allocating or
-- freeing one page of a run.
use argusos_uefi_v.Base.{
  ℕ, ◌+◌, ◌≤◌, ◌<◌, ◌≡◌, ◌≢◌, refl, inl, inr, Bool, true, false, not, ◌&&◌, ◌||◌, Bool-cases,
  if◌then◌else◌, leb, ◌==◌, arith,
}
use argusos_uefi_v.Base.Words.{u64, sub64}
use argusos_uefi_v.Pmm.{Pmm, is_usable, is_used, is_free, make_usable, reserve_page}
use argusos_uefi_v.Pmm.Bitmap.{
  Bits, Covers, bit_get, bit_set, bit_clear, bit_get-bit_set, bit_get-bit_clear, bit_set-Covers,
  bit_clear-Covers,
}
use argusos_uefi_v.Pmm.Count.{one, count_below, count_below-change, count_below-le, count_below_run}
use argusos_uefi_v.Pmm.Invariant.{IsValid}

-- The pages after `make_usable`.
pub usable-make_usable :
    (s : Pmm) (page q : ℕ)
    → IsValid s
    → q < s.page_count
    → is_usable (make_usable s page) q ≡ (is_usable s q || page == q)
unfolding make_usable
usable-make_usable s page q v h = elim (Bool-cases (leb s.page_count page)) [
  | inl beyond ↦ ground arith
  | inr inside ↦ ground (arith, bit_get-bit_set s.usable_bitmap s.page_count page q v.usable_covers)
]

-- The pages after `reserve_page`.
pub usable-reserve_page :
    (s : Pmm) (page q : ℕ)
    → IsValid s
    → q < s.page_count
    → is_usable (reserve_page s page) q ≡ (is_usable s q && not (page == q))
unfolding reserve_page
usable-reserve_page s page q v h = elim (Bool-cases (leb s.page_count page)) [
  | inl beyond ↦ ground arith
  | inr inside ↦
      ground (arith, bit_get-bit_clear s.usable_bitmap s.page_count page q v.usable_covers)
]

pub page_count-make_usable : (s : Pmm) (page : ℕ) → (make_usable s page).page_count ≡ s.page_count
unfolding make_usable
page_count-make_usable s page = ground arith

pub page_count-reserve_page : (s : Pmm) (page : ℕ) → (reserve_page s page).page_count ≡ s.page_count
unfolding reserve_page
page_count-reserve_page s page = ground arith

-- Reading a bit that was just written, and any other bit.
module _ (bitmap : Bits) (pages page : ℕ) (c : Covers bitmap pages) (h : page < pages) where
  pub bit_set_here : bit_get (bit_set bitmap page) page ≡ true
  bit_set_here = ground (arith, bit_get-bit_set bitmap pages page page c h)

  pub bit_clear_here : bit_get (bit_clear bitmap page) page ≡ false
  bit_clear_here = ground (arith, bit_get-bit_clear bitmap pages page page c h)

  pub bit_set_there : (j : ℕ) → j ≢ page → bit_get (bit_set bitmap page) j ≡ bit_get bitmap j
  bit_set_there j ne = ground (arith, bit_get-bit_set bitmap pages page j c h)

  pub bit_clear_there : (j : ℕ) → j ≢ page → bit_get (bit_clear bitmap page) j ≡ bit_get bitmap j
  bit_clear_there j ne = ground (arith, bit_get-bit_clear bitmap pages page j c h)

-- A state whose bitmaps differ from those of `s` at one page only, its counters moved to match.
record Moves (s s' : Pmm) (page : ℕ) : Type 0 where
  inside : page < s.page_count
  same_pages : s'.page_count ≡ s.page_count
  usable_covers : Covers s'.usable_bitmap s.page_count
  used_covers : Covers s'.used_bitmap s.page_count
  usable_there : (j : ℕ) → j ≢ page → is_usable s' j ≡ is_usable s j
  used_there : (j : ℕ) → j ≢ page → is_used s' j ≡ is_used s j
  managed_moves :
      s'.managed_count + one (is_usable s page) ≡ s.managed_count + one (is_usable s' page)
  free_moves : s'.free_count + one (is_free s page) ≡ s.free_count + one (is_free s' page)

Moves-IsValid : (s s' : Pmm) (page : ℕ) → IsValid s → Moves s s' page → IsValid s'
Moves-IsValid s s' page v m = record {
  usable_covers = rw m.same_pages m.usable_covers;
  used_covers = rw m.same_pages m.used_covers;
  addressable = omega (arith, m.same_pages, v.addressable);
  managed_exact = rw m.same_pages (omega (arith, m.managed_moves, v.managed_exact, usable_change));
  free_exact = rw m.same_pages (omega (arith, m.free_moves, v.free_exact, free_change));
}
  where
    usable_change :
        count_below s.page_count (is_usable s') + one (is_usable s page)
        ≡ count_below s.page_count (is_usable s) + one (is_usable s' page)
    usable_change =
        count_below-change s.page_count page (is_usable s) (is_usable s') m.inside m.usable_there

    free_there : (j : ℕ) → j ≢ page → is_free s' j ≡ is_free s j
    free_there j ne = rw (m.usable_there j ne, m.used_there j ne) refl

    free_change :
        count_below s.page_count (is_free s') + one (is_free s page)
        ≡ count_below s.page_count (is_free s) + one (is_free s' page)
    free_change = count_below-change s.page_count page (is_free s) (is_free s') m.inside free_there

-- Making a page usable keeps the counters exact.
pub make_usable-IsValid : (s : Pmm) (page : ℕ) → IsValid s → IsValid (make_usable s page)
unfolding make_usable
make_usable-IsValid s page v = elim (Bool-cases (leb s.page_count page || is_usable s page)) [
  | inl same ↦ rw same v
  | inr new ↦ rw new (Moves-IsValid s _ page v (moves (ground arith) (ground arith)))
]
  where
    s' : Pmm
    s' = record s {
      usable_bitmap = bit_set s.usable_bitmap page;
      used_bitmap = bit_clear s.used_bitmap page;
      managed_count = u64 (s.managed_count + 1);
      free_count = u64 (s.free_count + 1);
    }

    moves : page < s.page_count → is_usable s page ≡ false → Moves s s' page
    moves inside unusable = record {
      inside = inside;
      same_pages = refl;
      usable_covers = bit_set-Covers s.usable_bitmap s.page_count page v.usable_covers;
      used_covers = bit_clear-Covers s.used_bitmap s.page_count page v.used_covers;
      usable_there = bit_set_there s.usable_bitmap s.page_count page v.usable_covers inside;
      used_there = bit_clear_there s.used_bitmap s.page_count page v.used_covers inside;
      managed_moves = ground (
        arith,
        unusable,
        bit_set_here s.usable_bitmap s.page_count page v.usable_covers inside,
        count_below-le s.page_count (is_usable s),
        v.managed_exact,
        v.addressable,
      );
      free_moves = ground (
        arith,
        unusable,
        bit_set_here s.usable_bitmap s.page_count page v.usable_covers inside,
        bit_clear_here s.used_bitmap s.page_count page v.used_covers inside,
        count_below-le s.page_count (is_free s),
        v.free_exact,
        v.addressable,
      );
    }

-- So does reserving a page.
pub reserve_page-IsValid : (s : Pmm) (page : ℕ) → IsValid s → IsValid (reserve_page s page)
unfolding reserve_page
reserve_page-IsValid s page v =
    elim (Bool-cases (leb s.page_count page || not (is_usable s page))) [
      | inl same ↦ rw same v
      | inr old ↦ rw old (Moves-IsValid s _ page v (moves (ground arith) (ground arith)))
    ]
  where
    s' : Pmm
    s' = record s {
      usable_bitmap = bit_clear s.usable_bitmap page;
      used_bitmap = bit_set s.used_bitmap page;
      managed_count = sub64 s.managed_count 1;
      free_count = if is_used s page then s.free_count else sub64 s.free_count 1;
    }

    counted_in :
        (p : ℕ → Bool) → page < s.page_count → p page ≡ true → 1 ≤ count_below s.page_count p
    counted_in p inside h =
        count_below_run s.page_count page 1 p (omega arith)
          (λ j l u. let same : j ≡ page = omega arith in rw same h)

    moves : page < s.page_count → is_usable s page ≡ true → Moves s s' page
    moves inside usable = record {
      inside = inside;
      same_pages = refl;
      usable_covers = bit_clear-Covers s.usable_bitmap s.page_count page v.usable_covers;
      used_covers = bit_set-Covers s.used_bitmap s.page_count page v.used_covers;
      usable_there = bit_clear_there s.usable_bitmap s.page_count page v.usable_covers inside;
      used_there = bit_set_there s.used_bitmap s.page_count page v.used_covers inside;
      managed_moves = ground (
        arith,
        usable,
        bit_clear_here s.usable_bitmap s.page_count page v.usable_covers inside,
        counted_in (is_usable s) inside,
        count_below-le s.page_count (is_usable s),
        v.managed_exact,
        v.addressable,
      );
      free_moves = ground (
        arith,
        usable,
        bit_clear_here s.usable_bitmap s.page_count page v.usable_covers inside,
        counted_in (is_free s) inside,
        count_below-le s.page_count (is_free s),
        v.free_exact,
        v.addressable,
      );
    }
