-- ===== src/Pmm/Search.antt =====
-- The search of src/pmm.c `pmm_alloc_pages` for a run of free pages that is long enough.
use argusos_uefi_v.Base.{
  ℕ, zero, suc, ◌+◌, ◌≤◌, ◌<◌, ◌≡◌, ◌⊎◌, refl, inl, inr, true, some, if◌then◌else◌, ◌==◌,
  Bool-cases, ℕ-eq-cases, arith,
}
use argusos_uefi_v.Pmm.{Pmm, is_free, find_run}

-- The pages from `a` on, `c` of them, are all free.
abbrev pub FreeRun : Pmm → ℕ → ℕ → Type 0
FreeRun s a c = (j : ℕ) → a ≤ j → j < a + c → is_free s j ≡ true

-- What the search knows at a page: a run of `length` free pages ends before it.
pub record Scanning (s : Pmm) (page start length : ℕ) : Type 0 where
  pub ends : (length ≡ 0) ⊎ (start + length ≡ page)
  pub run : FreeRun s start length

-- A page more.
longer-Scanning :
    (s : Pmm) (page start length : ℕ)
    → Scanning s page start length
    → is_free s page ≡ true
    → Scanning s (page + 1) (if length == 0 then page else start) (length + 1)
longer-Scanning s page start zero c free = record {
  ends = inr refl;
  run = λ j l u. let same : j ≡ page = omega arith in rw same free;
}
longer-Scanning s page start (suc length) c free = record {
  ends = inr (ground (arith, c.ends));
  run = λ j l u. elim (ℕ-eq-cases j page) [
    | inl same ↦ rw same free
    | inr ne ↦ c.run j (ground (arith, c.ends)) (ground (arith, c.ends))
  ];
}

pub broken-Scanning : (s : Pmm) (page start : ℕ) → Scanning s page start 0
broken-Scanning s page start = record { ends = inl refl; run = λ j l u. absurd (omega arith) }

module _ (s : Pmm) (count : ℕ) where
  -- The run that the search finds is free, and within the pages searched.
  pub find_run-FreeRun :
      (left page start length r : ℕ)
      → Scanning s page start length
      → find_run s count left page start length ≡ some r
      → (r + count ≤ page + left) × FreeRun s r count
  unfolding find_run
  find_run-FreeRun zero page start length r c e = absurd (cc)
  find_run-FreeRun (suc left) page start length r c e = elim (Bool-cases (is_free s page)) [
    | inl free ↦
        let next = longer-Scanning s page start length c free in
        elim (ℕ-eq-cases (length + 1) count) [
          | inl enough ↦
              let here : (if length == 0 then page else start) ≡ r = ground (arith, free) in
              rw (← here, ← enough) (omega (arith, next.ends), next.run)
          | inr more ↦
              let rest =
                find_run-FreeRun left (page + 1) (if length == 0 then page else start) (length + 1)
                  r next (ground (arith, free)) in
              (omega (arith, rest.0), rest.1)
        ]
    | inr taken ↦
        let rest =
          find_run-FreeRun left (page + 1) start 0 r (broken-Scanning s (page + 1) start)
            (ground (arith, taken)) in
        (omega (arith, rest.0), rest.1)
  ]

  -- Where there is a free run, the search finds one that starts no later.
  pub find_run_complete :
      (left page start length a : ℕ)
      → Scanning s page start length
      → length < count
      → page ≤ a + length
      → a + count ≤ page + left
      → FreeRun s a count
      → (r : ℕ) × (find_run s count left page start length ≡ some r) × (r ≤ a)
  unfolding find_run
  find_run_complete zero page start length a c short here fits free = absurd (omega arith)
  find_run_complete (suc left) page start length a c short here fits free =
      elim (Bool-cases (is_free s page)) [
        | inl yes_free ↦
            let next = longer-Scanning s page start length c yes_free in
            elim (ℕ-eq-cases (length + 1) count) [
              | inl enough ↦ (
                (if length == 0 then page else start),
                ground (arith, yes_free),
                ground (arith, c.ends),
              )
              | inr more ↦
                  let (r, e, le) =
                    find_run_complete left (page + 1) (if length == 0 then page else start)
                      (length + 1) a next (omega arith) (omega arith) (omega arith) free in
                  (r, ground (arith, yes_free, e), le)
            ]
        | inr taken ↦
            let beyond : page < a = ground (arith, free page) in
            let (r, e, le) =
              find_run_complete left (page + 1) start 0 a (broken-Scanning s (page + 1) start)
                (omega arith) (omega arith) (omega arith) free in
            (r, ground (arith, taken, e), le)
      ]
