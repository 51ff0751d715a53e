-- ===== src/Pmm/Count.antt =====
-- How many of the first pages pass a test: what the counters of src/pmm.c stand for.
use argusos_uefi_v.Base.{
  ℕ, zero, suc, ◌+◌, ◌≤◌, ◌<◌, ◌≡◌, ◌≢◌, refl, sym, ap, inl, inr, Bool, true, false, if◌then◌else◌,
  arith, ℕ-eq-cases,
}

abbrev pub one : Bool → ℕ
one b = if b then 1 else 0

unfoldable pub count_below : ℕ → (ℕ → Bool) → ℕ
count_below zero test = 0
count_below (suc n) test = count_below n test + one (test n)

pub count_below-suc :
    (n : ℕ) (test : ℕ → Bool) → count_below (n + 1) test ≡ count_below n test + one (test n)
unfolding count_below
count_below-suc n test = let e : n + 1 ≡ suc n = omega arith in ap (λ k. count_below k test) e

pub count_below-cong :
    (n : ℕ) (p q : ℕ → Bool) → ((j : ℕ) → j < n → q j ≡ p j) → count_below n q ≡ count_below n p
unfolding count_below
count_below-cong zero p q h = refl
count_below-cong (suc n) p q h =
    let rest = count_below-cong n p q (λ j l. h j (omega arith)) in
    rw (h n (omega arith)) (omega (arith, rest))

-- Changing the test at one page moves the count by that page.
pub count_below-change :
    (n k : ℕ) (p q : ℕ → Bool)
    → k < n
    → ((j : ℕ) → j ≢ k → q j ≡ p j)
    → count_below n q + one (p k) ≡ count_below n p + one (q k)
unfolding count_below
count_below-change zero k p q l h = absurd (omega arith)
count_below-change (suc n) k p q l h = elim (ℕ-eq-cases k n) [
  | inl last ↦
      let below = count_below-cong n p q (λ j lt. h j (omega arith)) in
      rw last (omega (arith, below))
  | inr earlier ↦
      let rest = count_below-change n k p q (omega arith) h in
      rw (h n (λ e. earlier (sym e))) (omega (arith, rest))
]

pub count_below-le : (n : ℕ) (p : ℕ → Bool) → count_below n p ≤ n
unfolding count_below
count_below-le zero p = omega arith
count_below-le (suc n) p = ground (arith, count_below-le n p)

pub count_below_mono :
    (n : ℕ) (p q : ℕ → Bool)
    → ((j : ℕ) → p j ≡ true → q j ≡ true)
    → count_below n p ≤ count_below n q
unfolding count_below
count_below_mono zero p q h = omega arith
count_below_mono (suc n) p q h = ground (arith, count_below_mono n p q h, h n)

-- A run of pages that all pass is within the count.
pub count_below_run :
    (n a c : ℕ) (p : ℕ → Bool)
    → a + c ≤ n
    → ((j : ℕ) → a ≤ j → j < a + c → p j ≡ true)
    → c ≤ count_below n p
unfolding count_below
count_below_run zero a c p h run = omega arith
count_below_run (suc n) a zero p h run = omega arith
count_below_run (suc n) a (suc c) p h run = elim (ℕ-eq-cases (a + suc c) (suc n)) [
  | inl ends ↦
      let rest = count_below_run n a c p (omega arith) (λ j l m. run j l (omega arith)) in
      rw (run n (omega arith) (omega arith)) (omega (arith, rest))
  | inr before ↦ let rest = count_below_run n a (suc c) p (omega arith) run in omega (arith, rest)
]

pub count_below_none : (n : ℕ) (p : ℕ → Bool) → ((j : ℕ) → p j ≡ false) → count_below n p ≡ 0
unfolding count_below
count_below_none zero p h = refl
count_below_none (suc n) p h = rw (h n) (omega (arith, count_below_none n p h))
