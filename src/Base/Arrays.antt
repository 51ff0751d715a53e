-- ===== src/Base/Arrays.antt =====
-- C arrays as lists with native indices, and the loop that looks for the first slot of an array
-- that passes a test.
use Prim.Native.Nat.{ℕ, zero, suc, ◌+◌, ◌<◌, min}
use mathlib.Core.Path.{◌≡◌, refl, ap}
use mathlib.Core.Logic.{◌≢◌}
use mathlib.Core.Bool.{Bool, true, false}
use mathlib.Core.List.{List, [], ◌∷◌, ◌++◌}
use mathlib.Core.Option.{Option, none, some}
use mathlib.Core.Option
use native.Mathlib.Omega.{arith}

module _ {ℓ} {A : Type ℓ} where
  abbrev pub length : List A → ℕ
  length [] = 0
  length (x ∷ xs) = suc (length xs)

  abbrev pub get_or : List A → ℕ → A → A
  get_or [] i d = d
  get_or (x ∷ xs) zero d = x
  get_or (x ∷ xs) (suc i) d = get_or xs i d

  -- A write out of bounds changes nothing.
  abbrev pub set : List A → ℕ → A → List A
  set [] i v = []
  set (x ∷ xs) zero v = v ∷ xs
  set (x ∷ xs) (suc i) v = x ∷ set xs i v

  abbrev pub take : ℕ → List A → List A
  take zero xs = []
  take (suc n) [] = []
  take (suc n) (x ∷ xs) = x ∷ take n xs

  abbrev pub drop : ℕ → List A → List A
  drop zero xs = xs
  drop (suc n) [] = []
  drop (suc n) (x ∷ xs) = drop n xs

  abbrev pub replicate : ℕ → A → List A
  replicate zero a = []
  replicate (suc n) a = a ∷ replicate n a

  -- `for (slot = 0; slot < length; ++slot) if (test(array[slot])) break;`
  unfoldable pub find_slot : (A → Bool) → List A → Option ℕ
  find_slot test [] = none
  find_slot test (x ∷ xs) =
      let rest = Option.map suc (find_slot test xs) in
      elim (test x) [ true ↦ some 0 | false ↦ rest ]

module _ {ℓ} {A : Type ℓ} where
  pub length-append : (xs ys : List A) → length (xs ++ ys) ≡ length xs + length ys
  length-append [] ys = omega arith
  length-append (x ∷ xs) ys = omega (arith, length-append xs ys)

  pub length-set : (xs : List A) (i : ℕ) (v : A) → length (set xs i v) ≡ length xs
  length-set [] i v = refl
  length-set (x ∷ xs) zero v = refl
  length-set (x ∷ xs) (suc i) v = ap suc (length-set xs i v)

  pub length-replicate : (n : ℕ) (a : A) → length (replicate n a) ≡ n
  length-replicate zero a = refl
  length-replicate (suc n) a = ap suc (length-replicate n a)

  pub get_or-set_self :
      (xs : List A) (i : ℕ) (v d : A) → i < length xs → get_or (set xs i v) i d ≡ v
  get_or-set_self [] i v d h = absurd (omega arith)
  get_or-set_self (x ∷ xs) zero v d h = refl
  get_or-set_self (x ∷ xs) (suc i) v d h = get_or-set_self xs i v d (omega arith)

  pub get_or-set_ne :
      (xs : List A) (i j : ℕ) (v d : A) → i ≢ j → get_or (set xs i v) j d ≡ get_or xs j d
  get_or-set_ne [] i j v d h = refl
  get_or-set_ne (x ∷ xs) zero zero v d h = absurd (h refl)
  get_or-set_ne (x ∷ xs) zero (suc j) v d h = refl
  get_or-set_ne (x ∷ xs) (suc i) zero v d h = refl
  get_or-set_ne (x ∷ xs) (suc i) (suc j) v d h = get_or-set_ne xs i j v d (λ e. h (ap suc e))

  pub get_or-replicate : (n i : ℕ) (a : A) → get_or (replicate n a) i a ≡ a
  get_or-replicate zero i a = refl
  get_or-replicate (suc n) zero a = refl
  get_or-replicate (suc n) (suc i) a = get_or-replicate n i a

  pub set-get_or : (xs : List A) (i : ℕ) (d : A) → set xs i (get_or xs i d) ≡ xs
  set-get_or [] i d = refl
  set-get_or (x ∷ xs) zero d = refl
  set-get_or (x ∷ xs) (suc i) d = ap (λ ys. x ∷ ys) (set-get_or xs i d)

  pub length-take : (n : ℕ) (xs : List A) → length (take n xs) ≡ min n (length xs)
  length-take zero xs = omega arith
  length-take (suc n) [] = omega arith
  length-take (suc n) (x ∷ xs) = omega (arith, length-take n xs)

  pub get_or-take :
      (n : ℕ) (xs : List A) (i : ℕ) (d : A) → i < n → get_or (take n xs) i d ≡ get_or xs i d
  get_or-take zero xs i d h = absurd (omega arith)
  get_or-take (suc n) [] i d h = refl
  get_or-take (suc n) (x ∷ xs) zero d h = refl
  get_or-take (suc n) (x ∷ xs) (suc i) d h = get_or-take n xs i d (omega arith)

-- What the search finds: the slot is in range, passes the test, and is the first to do so.
module _ {ℓ} {A : Type ℓ} (test : A → Bool) (d : A) where
  pub find_slot-some :
      (xs : List A) (i : ℕ)
      → find_slot test xs ≡ some i
      → (i < length xs) × (test (get_or xs i d) ≡ true)
  unfolding find_slot
  find_slot-some [] i h = absurd (cc)
  find_slot-some (x ∷ xs) zero h = ground arith
  find_slot-some (x ∷ xs) (suc i) h = ground (arith, find_slot-some xs i)

  pub find_slot_first :
      (xs : List A) (i j : ℕ) → find_slot test xs ≡ some i → j < i → test (get_or xs j d) ≡ false
  unfolding find_slot
  find_slot_first [] i j h l = absurd (cc)
  find_slot_first (x ∷ xs) zero j h l = absurd (omega arith)
  find_slot_first (x ∷ xs) (suc i) zero h l = ground arith
  find_slot_first (x ∷ xs) (suc i) (suc j) h l = ground (arith, find_slot_first xs i j)

  pub find_slot-none :
      (xs : List A) (j : ℕ)
      → find_slot test xs ≡ none
      → j < length xs
      → test (get_or xs j d) ≡ false
  unfolding find_slot
  find_slot-none [] j h l = absurd (omega arith)
  find_slot-none (x ∷ xs) zero h l = ground arith
  find_slot-none (x ∷ xs) (suc j) h l = ground (arith, find_slot-none xs j)

  -- A slot that passes is reason enough for the search to succeed.
  pub find_slot_exists :
      (xs : List A) (j : ℕ) → j < length xs → test (get_or xs j d) ≡ true → find_slot test xs ≢ none
  find_slot_exists xs j l t h = cc (find_slot-none xs j h l)

-- A property of every cell outlives a write that has it.
module _ {ℓ κ} {A : Type ℓ} (P : A → Type κ) (d : A) where
  pub set_pointwise :
      (xs : List A) (i : ℕ) (v : A)
      → P v
      → ((j : ℕ) → P (get_or xs j d))
      → (j : ℕ) → P (get_or (set xs i v) j d)
  set_pointwise [] i v pv h j = h j
  set_pointwise (x ∷ xs) zero v pv h zero = pv
  set_pointwise (x ∷ xs) zero v pv h (suc j) = h (suc j)
  set_pointwise (x ∷ xs) (suc i) v pv h zero = h 0
  set_pointwise (x ∷ xs) (suc i) v pv h (suc j) = set_pointwise xs i v pv (λ k. h (suc k)) j
