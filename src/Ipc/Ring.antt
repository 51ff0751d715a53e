-- ===== src/Ipc/Ring.antt =====
-- The ring of an endpoint of src/ipc.c as the queue of the messages in it, oldest first.
use mathlib.Core.List.{map, map-append}
use argusos_uefi_v.Base.{
  ℕ, zero, suc, ◌+◌, ◌-◌, ◌%◌, ◌^◌, ◌≤◌, ◌<◌, ◌≡◌, ◌≢◌, refl, ◌∙◌, ap, List, [], ◌∷◌, ◌++◌, arith,
  length, get_or, set, take, drop, length-set, get_or-set_self, get_or-set_ne, set_pointwise,
}
use argusos_uefi_v.Ipc.{
  Message, Endpoint, message_at, zero_message, queue_capacity, message_max, copy_bytes, sent,
  enqueue, dequeue,
}

-- The `n` messages from index `t` on, going round at the end of the array.
abbrev pub ring : List Message → ℕ → ℕ → List Message
ring ms t zero = []
ring ms t (suc n) = get_or ms t zero_message ∷ ring ms ((t + 1) % 8) n

length-ring : (ms : List Message) (t n : ℕ) → length (ring ms t n) ≡ n
length-ring ms t zero = refl
length-ring ms t (suc n) = ap suc (length-ring ms ((t + 1) % 8) n)

-- Writing just past the window extends it by the message written.
ring-set :
    (ms : List Message) (m : Message) (n t i : ℕ)
    → length ms ≡ 8
    → t < 8
    → n < 8
    → i ≡ (t + n) % 8
    → ring (set ms i m) t (suc n) ≡ ring ms t n ++ m ∷ []
ring-set ms m zero t i size ht hn e =
    let here : i ≡ t = omega arith in
    rw here (ap (λ x. x ∷ []) (get_or-set_self ms t m zero_message (omega arith)))
ring-set ms m (suc n) t i size ht hn e =
    let miss : i ≢ t = omega arith in
    λ k.
      get_or-set_ne ms i t m zero_message miss k
      ∷ ring-set ms m n ((t + 1) % 8) i size (omega arith) (omega arith) (omega arith) k

-- What a receiver sees of a message: its sender and its bytes.
abbrev pub Letter : Type 0
Letter = ℕ × List ℕ

abbrev pub letter : Message → Letter
letter m = (m.sender_pid, take m.length m.bytes)

-- The queue of an endpoint.
abbrev pub contents : Endpoint → List Letter
contents e = map letter (ring e.messages e.tail e.count)

-- Every message slot has its 64 bytes and a length within them.
pub record IsMessage (m : Message) : Type 0 where
  pub size : length m.bytes ≡ message_max
  pub short : m.length ≤ message_max

-- The invariant of an endpoint.
pub record IsEndpoint (e : Endpoint) : Type 0 where
  pub slots : length e.messages ≡ queue_capacity
  pub tail_in : e.tail < queue_capacity
  pub head_at : e.head ≡ (e.tail + e.count) % queue_capacity
  pub bounded : e.count ≤ queue_capacity
  pub generation_width : e.generation < 2 ^ 32
  pub stored : (i : ℕ) → IsMessage (message_at e i)

length-map : {A B : Type 0} (f : A → B) (xs : List A) → length (map f xs) ≡ length xs
length-map f [] = refl
length-map f (x ∷ xs) = ap suc (length-map f xs)

pub length-contents : (e : Endpoint) → length (contents e) ≡ e.count
length-contents e =
    length-map letter (ring e.messages e.tail e.count) ∙ length-ring e.messages e.tail e.count

pub length-copy_bytes : (n : ℕ) (xs ys : List ℕ) → length (copy_bytes n xs ys) ≡ length xs
unfolding copy_bytes
length-copy_bytes zero xs ys = refl
length-copy_bytes (suc n) [] ys = refl
length-copy_bytes (suc n) (x ∷ xs) ys = ap suc (length-copy_bytes n xs (drop 1 ys))

-- The first `n` bytes of the target are those of the source.
pub take-copy_bytes :
    (n : ℕ) (xs ys : List ℕ)
    → n ≤ length xs
    → n ≤ length ys
    → take n (copy_bytes n xs ys) ≡ take n ys
unfolding copy_bytes
take-copy_bytes zero xs ys h k = refl
take-copy_bytes (suc n) [] ys h k = absurd (omega arith)
take-copy_bytes (suc n) (x ∷ xs) [] h k = absurd (omega arith)
take-copy_bytes (suc n) (x ∷ xs) (y ∷ ys) h k =
    ap (λ zs. y ∷ zs) (take-copy_bytes n xs ys (omega arith) (omega arith))

-- And the rest of the target stays.
pub drop-copy_bytes : (n : ℕ) (xs ys : List ℕ) → drop n (copy_bytes n xs ys) ≡ drop n xs
unfolding copy_bytes
drop-copy_bytes zero xs ys = refl
drop-copy_bytes (suc n) [] ys = refl
drop-copy_bytes (suc n) (x ∷ xs) ys = drop-copy_bytes n xs (drop 1 ys)

sent-IsMessage :
    (m : Message) (sender : ℕ) (bytes : List ℕ) (n : ℕ)
    → IsMessage m
    → n ≤ message_max
    → IsMessage (sent m sender bytes n)
unfolding sent
sent-IsMessage m sender bytes n v h = record {
  size = length-copy_bytes n m.bytes bytes ∙ v.size;
  short = h;
}

-- A message that is sent goes to the end of the queue.
pub contents-enqueue :
    (e : Endpoint) (sender : ℕ) (bytes : List ℕ) (n : ℕ)
    → IsEndpoint e
    → e.count < queue_capacity
    → n ≤ message_max
    → n ≤ length bytes
    → contents (enqueue e sender bytes n) ≡ contents e ++ (sender, take n bytes) ∷ []
unfolding enqueue
contents-enqueue e sender bytes n v room short given = rw count (
    ap (map letter) grown
    ∙ map-append letter (ring e.messages e.tail e.count) (m ∷ [])
    ∙ ap (λ l. contents e ++ l ∷ []) written)
  where
    m : Message
    m = sent (message_at e e.head) sender bytes n

    count : (e.count + 1) % 2 ^ 8 ≡ suc e.count
    count = omega arith

    grown :
        ring (set e.messages e.head m) e.tail (suc e.count)
        ≡ ring e.messages e.tail e.count ++ m ∷ []
    grown = ring-set e.messages m e.count e.tail e.head v.slots v.tail_in room v.head_at

    written : letter m ≡ (sender, take n bytes)
    written =
        ap (λ (l : List ℕ). (sender, l))
          (take-copy_bytes n (message_at e e.head).bytes bytes
            (omega (arith, (v.stored e.head).size)) given)

-- Receiving takes the oldest message off the queue.
pub contents-dequeue :
    (e : Endpoint)
    → IsEndpoint e
    → e.count ≢ 0
    → contents e ≡ letter (message_at e e.tail) ∷ contents (dequeue e)
contents-dequeue e v some_left = from_count e.count refl some_left
  where
    from_count :
        (n : ℕ)
        → n ≡ e.count
        → n ≢ 0
        → map letter (ring e.messages e.tail n)
          ≡ letter (message_at e e.tail)
            ∷ map letter (ring e.messages ((e.tail + 1) % 8 % 256) (n - 1))
    from_count zero q h = absurd (h refl)
    from_count (suc n) q h =
        let wrap : (e.tail + 1) % 8 % 256 ≡ (e.tail + 1) % 8 = omega arith in
        let less : suc n - 1 ≡ n = omega arith in rw (wrap, less) refl

pub dequeue-IsEndpoint : (e : Endpoint) → IsEndpoint e → e.count ≢ 0 → IsEndpoint (dequeue e)
dequeue-IsEndpoint e v some_left = record {
  slots = v.slots;
  tail_in = omega arith;
  head_at = omega (arith, v.head_at, v.tail_in);
  bounded = omega (arith, v.bounded);
  generation_width = v.generation_width;
  stored = v.stored;
}

pub enqueue-IsEndpoint :
    (e : Endpoint) (sender : ℕ) (bytes : List ℕ) (n : ℕ)
    → IsEndpoint e
    → e.count < queue_capacity
    → n ≤ message_max
    → IsEndpoint (enqueue e sender bytes n)
unfolding enqueue
enqueue-IsEndpoint e sender bytes n v room short = record {
  slots = length-set e.messages e.head _ ∙ v.slots;
  tail_in = v.tail_in;
  head_at = omega (arith, v.head_at, v.tail_in);
  bounded = omega arith;
  generation_width = v.generation_width;
  stored =
      set_pointwise IsMessage zero_message e.messages e.head _
        (sent-IsMessage (message_at e e.head) sender bytes n (v.stored e.head) short) v.stored;
}
