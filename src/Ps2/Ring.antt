-- ===== src/Ps2/Ring.antt =====
-- src/ps2.c `queue_key` and `dequeue_key`, `queue_mouse_event` and `dequeue_mouse_event`: rings of a
-- power of two of cells, of which one stays empty. The two pairs are the same code at two
-- capacities. One side writes `head` and the other `tail`; each call is one step.
use Prim.Native.Nat.{bit_and}
use argusos_uefi_v.Base.{
  ℕ, zero, suc, ◌+◌, ◌-◌, ◌<◌, ◌≡◌, ◌≢◌, ◌⊎◌, ◌∙◌, inl, inr, refl, ap, sym, false, Option, none,
  some, List, [], ◌∷◌, ◌++◌, leb, ◌==◌, if◌then◌else◌, length, get_or, set, length-set,
  get_or-set_self, get_or-set_ne, arith, Bool-cases,
}
use argusos_uefi_v.Base.Words.{u8, u64}
use argusos_uefi_v.Base.Bits.Fields.{bit_and_mask}

pub record Queue (A : Type 0) : Type 0 where
  pub cells : List A
  pub head : ℕ
  pub tail : ℕ
  pub dropped : ℕ

-- `(uint8_t)((i + 1u) & (capacity - 1u))`.
abbrev pub next : ℕ → ℕ → ℕ
next capacity i = u8 (bit_and (i + 1) (capacity - 1))

module _ {A : Type 0} where
  unfoldable pub queue_value : ℕ → Queue A → A → Queue A
  queue_value capacity q value =
      if next capacity q.head == q.tail
      then record q { dropped = u64 (q.dropped + 1) }
      else record q { cells = set q.cells q.head value; head = next capacity q.head }

  -- The queue and the value, `none` where there is none; `d` fills in for a cell out of range.
  unfoldable pub dequeue_value : ℕ → Queue A → A → Queue A × Option A
  dequeue_value capacity q d =
      if q.tail == q.head
      then (q, none)
      else (record q { tail = next capacity q.tail }, some (get_or q.cells q.tail d))

  -- The `n` cells from `t` on, going round at the end of the array.
  abbrev pub window : ℕ → List A → A → ℕ → ℕ → List A
  window capacity cells d t zero = []
  window capacity cells d t (suc n) =
      get_or cells t d ∷ window capacity cells d (if t + 1 == capacity then 0 else t + 1) n

  abbrev pub count : ℕ → Queue A → ℕ
  count capacity q = if leb q.tail q.head then q.head - q.tail else q.head + capacity - q.tail

  -- What waits in the queue, oldest first.
  abbrev pub contents : ℕ → Queue A → A → List A
  contents capacity q d = window capacity q.cells d q.tail (count capacity q)

  abbrev pub first : List A → Option A
  first [] = none
  first (x ∷ xs) = some x

  abbrev pub rest : List A → List A
  rest [] = []
  rest (x ∷ xs) = xs

  pub record IsQueue (capacity : ℕ) (q : Queue A) : Type 0 where
    pub slots : length q.cells ≡ capacity
    pub head_in : q.head < capacity
    pub tail_in : q.tail < capacity

  pub length-window :
      (capacity : ℕ) (cells : List A) (d : A) (t n : ℕ) → length (window capacity cells d t n) ≡ n
  length-window capacity cells d t zero = refl
  length-window capacity cells d t (suc n) =
      ap suc (length-window capacity cells d (if t + 1 == capacity then 0 else t + 1) n)

  -- Writing just past the window extends it by the value written.
  window-set :
      (capacity : ℕ) (cells : List A) (d v : A) (n t i : ℕ)
      → length cells ≡ capacity
      → t < capacity
      → n < capacity
      → i ≡ (if leb capacity (t + n) then t + n - capacity else t + n)
      → window capacity (set cells i v) d t (suc n) ≡ window capacity cells d t n ++ v ∷ []
  window-set capacity cells d v zero t i size ht hn e =
      let here : i ≡ t = ground arith in
      rw here (ap (λ x. x ∷ []) (get_or-set_self cells t v d (omega arith)))
  window-set capacity cells d v (suc n) t i size ht hn e =
      let miss : i ≢ t = ground arith in
      let t' = if t + 1 == capacity then 0 else t + 1 in
      λ k.
        get_or-set_ne cells i t v d miss k
        ∷ window-set capacity cells d v n t' i size (ground arith) (omega arith) (ground arith) k

module _ {A : Type 0} (capacity : ℕ) (some_cells : 1 < capacity)
    (wraps : (i : ℕ)
      → i < capacity
      → next capacity i ≡ (if i + 1 == capacity then 0 else i + 1)) where
  -- The count of a queue in which a value waits.
  count-dequeue_value :
      (q : Queue A)
      → IsQueue capacity q
      → (q.tail == q.head) ≡ false
      → count capacity q ≡ suc (count capacity (record q { tail = next capacity q.tail }))
  count-dequeue_value q ok e =
      let h = ok.head_in in let t = ok.tail_in in let w = wraps q.tail t in ground arith

  count-queue_value :
      (q : Queue A) (v : A)
      → IsQueue capacity q
      → (next capacity q.head == q.tail) ≡ false
      → count capacity (record q { cells = set q.cells q.head v; head = next capacity q.head })
        ≡ suc (count capacity q)
  count-queue_value q v ok e =
      let h = ok.head_in in let t = ok.tail_in in let w = wraps q.head h in ground arith

  -- A queue is full when one cell is empty.
  count-full :
      (q : Queue A)
      → IsQueue capacity q
      → (next capacity q.head == q.tail) ≡ (count capacity q + 1 == capacity)
  count-full q ok =
      let h = ok.head_in in let t = ok.tail_in in let w = wraps q.head h in ground arith

  -- The head stands just past the window.
  head-window :
      (q : Queue A)
      → IsQueue capacity q
      → q.head ≡ (
          if leb capacity (q.tail + count capacity q)
          then q.tail + count capacity q - capacity
          else q.tail + count capacity q)
  head-window q ok = let h = ok.head_in in let t = ok.tail_in in ground arith

  count-lt : (q : Queue A) → IsQueue capacity q → count capacity q < capacity
  count-lt q ok = let h = ok.head_in in let t = ok.tail_in in ground arith

  -- A side that moves on stays inside the array.
  IsQueue-next :
      (q : Queue A) (i : ℕ) → IsQueue capacity q → i < capacity → next capacity i < capacity
  IsQueue-next q i ok h = let w = wraps i h in ground arith

  contents-queue_value :
      (q : Queue A) (v d : A)
      → IsQueue capacity q
      → (next capacity q.head == q.tail) ≡ false
      → contents capacity (record q { cells = set q.cells q.head v; head = next capacity q.head }) d
        ≡ contents capacity q d ++ v ∷ []
  contents-queue_value q v d ok e =
      ap (window capacity (set q.cells q.head v) d q.tail) (count-queue_value q v ok e)
      ∙ window-set capacity q.cells d v (count capacity q) q.tail q.head ok.slots ok.tail_in
          (count-lt q ok) (head-window q ok)

  contents-dequeue_value :
      (q : Queue A) (d : A)
      → IsQueue capacity q
      → (q.tail == q.head) ≡ false
      → contents capacity q d
        ≡ get_or q.cells q.tail d ∷ contents capacity (record q { tail = next capacity q.tail }) d
  contents-dequeue_value q d ok e =
      ap (window capacity q.cells d q.tail) (count-dequeue_value q ok e)
      ∙ ap
          (λ t.
            get_or q.cells q.tail d
            ∷ window capacity q.cells d t
                (count capacity (record q { tail = next capacity q.tail })))
          (sym (wraps q.tail ok.tail_in))

  -- A queue that is refused nothing gains its value at the end; a full one keeps what it holds.
  pub queue_value_refines :
      (q : Queue A) (v d : A)
      → IsQueue capacity q
      → IsQueue capacity (queue_value capacity q v)
        × (contents capacity (queue_value capacity q v) d ≡ (
            if length (contents capacity q d) + 1 == capacity
            then contents capacity q d
            else contents capacity q d ++ v ∷ []))
  unfolding queue_value
  queue_value_refines q v d ok =
      rw (length-window capacity q.cells d q.tail (count capacity q), sym (count-full q ok))
        (elim (Bool-cases (next capacity q.head == q.tail)) [
          | inl e ↦
              rw e (record { slots = ok.slots; head_in = ok.head_in; tail_in = ok.tail_in }, refl)
          | inr e ↦ rw e (
            record {
              slots = length-set q.cells q.head v ∙ ok.slots;
              head_in = IsQueue-next q q.head ok ok.head_in;
              tail_in = ok.tail_in;
            },
            contents-queue_value q v d ok e,
          )
        ])

  -- The oldest value leaves the queue and is the answer.
  pub dequeue_value_refines :
      (q : Queue A) (d : A)
      → IsQueue capacity q
      → IsQueue capacity (dequeue_value capacity q d).0
        × ((dequeue_value capacity q d).1 ≡ first (contents capacity q d))
        × (contents capacity (dequeue_value capacity q d).0 d ≡ rest (contents capacity q d))
  unfolding dequeue_value
  dequeue_value_refines q d ok = elim (Bool-cases (q.tail == q.head)) [
    | inl e ↦
        let none_left : count capacity q ≡ 0 = ground arith in
        let empty : contents capacity q d ≡ [] = ap (window capacity q.cells d q.tail) none_left in
        rw e (ok, sym (ap first empty), empty ∙ sym (ap rest empty))
    | inr e ↦
        let front = contents-dequeue_value q d ok e in
        rw e (
          record {
            slots = ok.slots;
            head_in = ok.head_in;
            tail_in = IsQueue-next q q.tail ok ok.tail_in;
          },
          sym (ap first front),
          sym (ap rest front),
        )
  ]

-- The masks of the two capacities go round at the end of the array.
pub next-wraps_keys : (i : ℕ) → i < 64 → next 64 i ≡ (if i + 1 == 64 then 0 else i + 1)
next-wraps_keys i h = let m = bit_and_mask 6 (i + 1) in ground arith

pub next-wraps_mouse : (i : ℕ) → i < 32 → next 32 i ≡ (if i + 1 == 32 then 0 else i + 1)
next-wraps_mouse i h = let m = bit_and_mask 5 (i + 1) in ground arith

-- The two queues of the driver are first in, first out: in a well-formed queue of 64 or of 32 cells,
-- a value is added after what waits unless one cell alone is free, when the contents stay as they
-- are; and the oldest value that waits is taken out and answered, or nothing where none waits.
pub ring_lem :
    {A : Type 0} (capacity : ℕ) (q : Queue A) (v d : A)
    → (capacity ≡ 64) ⊎ (capacity ≡ 32)
    → IsQueue capacity q
    → (IsQueue capacity (queue_value capacity q v)
        × (contents capacity (queue_value capacity q v) d ≡ (
            if length (contents capacity q d) + 1 == capacity
            then contents capacity q d
            else contents capacity q d ++ v ∷ [])))
      × IsQueue capacity (dequeue_value capacity q d).0
      × ((dequeue_value capacity q d).1 ≡ first (contents capacity q d))
      × (contents capacity (dequeue_value capacity q d).0 d ≡ rest (contents capacity q d))
ring_lem capacity q v d kind ok =
    let wraps : (i : ℕ)
        → i < capacity
        → next capacity i ≡ (if i + 1 == capacity then 0 else i + 1) =
      elim kind [ inl keys ↦ rw keys next-wraps_keys | inr mouse ↦ rw mouse next-wraps_mouse ] in
    let big : 1 < capacity = ground arith in
    let (kept, oldest, others) = dequeue_value_refines capacity big wraps q d ok in
    (queue_value_refines capacity big wraps q v d ok, kept, oldest, others)
