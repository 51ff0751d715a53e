-- ===== src/Ipc/Receive.antt =====
-- src/ipc.c `ipc_receive` and `ipc_pending` on the mailboxes.
use argusos_uefi_v.Base.{
  ℕ, ◌≤◌, ◌<◌, ◌≡◌, ◌≢◌, ◌⊎◌, inl, inr, refl, sym, ◌∙◌, ap, none, some, List, [], ◌∷◌, true, false,
  Bool-cases, Option-cases, arith, length, take, drop, length-take, ◌==◌, if◌then◌else◌, set,
}
use argusos_uefi_v.Ipc.{
  Message, Endpoint, Endpoints, endpoint_at, message_at, resolve_endpoint, make_endpoint, dequeue,
  delivered, Received, refuses_receive, ipc_receive, ipc_pending,
}
use argusos_uefi_v.Ipc.Handle.{resolve-Names}
use argusos_uefi_v.Ipc.Ring.{
  Letter, letter, contents, length-contents, IsEndpoint, contents-dequeue, dequeue-IsEndpoint,
  take-copy_bytes, drop-copy_bytes,
}
use argusos_uefi_v.Ipc.Mailbox.{
  Mailbox, mailbox, IsValid, set-IsValid, Answers, mailbox_of_resolve, resolve_of_mailbox,
  mailbox-set_ne, mailbox-set_self, mailbox_unique,
}

-- What `ipc_receive` does: nothing, or the oldest message is handed over.
record Receives (es : Endpoints) (handle pid : ℕ) (buffer : List ℕ) (capacity slot : ℕ)
    : Type 0 where
  resolved : resolve_endpoint es handle ≡ some slot
  owned : (endpoint_at es slot).receiver_pid ≡ pid
  waiting : (endpoint_at es slot).count ≢ 0
  fits : (message_at (endpoint_at es slot) (endpoint_at es slot).tail).length ≤ capacity
  result : ipc_receive es handle pid buffer capacity ≡ (
    set es slot (dequeue (endpoint_at es slot)),
    some (delivered (message_at (endpoint_at es slot) (endpoint_at es slot).tail) buffer),
  )

receive_accepted :
    (es : Endpoints) (handle pid : ℕ) (buffer : List ℕ) (capacity slot : ℕ)
    → resolve_endpoint es handle ≡ some slot
    → refuses_receive (endpoint_at es slot) pid capacity ≡ false
    → ipc_receive es handle pid buffer capacity ≡ (
      set es slot (dequeue (endpoint_at es slot)),
      some (delivered (message_at (endpoint_at es slot) (endpoint_at es slot).tail) buffer),
    )
unfolding ipc_receive
receive_accepted es handle pid buffer capacity slot r passed = rw (r, passed, ipc_receive)

receive_declined :
    (es : Endpoints) (handle pid : ℕ) (buffer : List ℕ) (capacity slot : ℕ)
    → resolve_endpoint es handle ≡ some slot
    → refuses_receive (endpoint_at es slot) pid capacity ≡ true
    → ipc_receive es handle pid buffer capacity ≡ (es, none)
unfolding ipc_receive
receive_declined es handle pid buffer capacity slot r refused = rw (r, refused, ipc_receive)

receive_unresolved :
    (es : Endpoints) (handle pid : ℕ) (buffer : List ℕ) (capacity : ℕ)
    → resolve_endpoint es handle ≡ none
    → ipc_receive es handle pid buffer capacity ≡ (es, none)
unfolding ipc_receive
receive_unresolved es handle pid buffer capacity r = rw (r, ipc_receive)

receive_cases :
    (es : Endpoints) (handle pid : ℕ) (buffer : List ℕ) (capacity : ℕ)
    → (ipc_receive es handle pid buffer capacity ≡ (es, none))
      ⊎ ((slot : ℕ) × Receives es handle pid buffer capacity slot)
unfolding refuses_receive
receive_cases es handle pid buffer capacity = elim (Option-cases (resolve_endpoint es handle)) [
  | inl e ↦ inl (receive_unresolved es handle pid buffer capacity e)
  | inr (slot, e) ↦ elim (Bool-cases (refuses_receive (endpoint_at es slot) pid capacity)) [
    | inl refused ↦ inl (receive_declined es handle pid buffer capacity slot e refused)
    | inr passed ↦ inr (
      slot,
      record {
        resolved = e;
        owned = ground arith;
        waiting = ground arith;
        fits = ground arith;
        result = receive_accepted es handle pid buffer capacity slot e passed;
      },
    )
  ]
]

-- Receiving keeps the endpoints well formed, on every branch.
pub receive-IsValid :
    (es : Endpoints) (handle pid : ℕ) (buffer : List ℕ) (capacity : ℕ)
    → IsValid es
    → IsValid (ipc_receive es handle pid buffer capacity).0
receive-IsValid es handle pid buffer capacity v =
    elim (receive_cases es handle pid buffer capacity) [
      | inl e ↦ rw e v
      | inr (slot, r) ↦
          rw r.result (set-IsValid es slot _ (dequeue-IsEndpoint _ (v.slots slot) r.waiting) v)
    ]

dequeue-Answers :
    (e : Endpoint) (slot handle : ℕ) → Answers e slot handle → Answers (dequeue e) slot handle
unfolding make_endpoint
dequeue-Answers e slot handle a = a

Answers-dequeue :
    (e : Endpoint) (slot handle : ℕ) → Answers (dequeue e) slot handle → Answers e slot handle
unfolding make_endpoint
Answers-dequeue e slot handle a = a

-- Receiving through one handle shows under no other.
pub receive_frame :
    (es : Endpoints) (handle pid : ℕ) (buffer : List ℕ) (capacity other : ℕ)
    → IsValid es
    → other ≢ handle
    → mailbox (ipc_receive es handle pid buffer capacity).0 other ≡ mailbox es other
receive_frame es handle pid buffer capacity other v ne =
    elim (receive_cases es handle pid buffer capacity) [
      | inl e ↦ rw e refl
      | inr (slot, r) ↦
          let names = resolve-Names es handle slot r.resolved in
          rw r.result (
            mailbox-set_ne es slot _ other v names.in_range (λ a. ne (sym a.1 ∙ names.is_handle))
              (λ a.
                ne (sym (Answers-dequeue (endpoint_at es slot) slot other a).1 ∙ names.is_handle)))
    ]

-- The first letter of a queue is the message at the tail, with all its bytes.
record Oldest (e : Endpoint) (l : Letter) (q : List Letter) : Type 0 where
  waiting : e.count ≢ 0
  first : letter (message_at e e.tail) ≡ l
  rest : contents (dequeue e) ≡ q
  whole : length (l.1) ≡ (message_at e e.tail).length

contents-Oldest :
    (e : Endpoint) (l : Letter) (q : List Letter) → IsEndpoint e → contents e ≡ l ∷ q → Oldest e l q
contents-Oldest e l q v h =
    let waiting : e.count ≢ 0 = omega (arith, length-contents e, ap length h) in
    let eq : letter (message_at e e.tail) ∷ contents (dequeue e) ≡ l ∷ q =
      sym (contents-dequeue e v waiting) ∙ h in
    let first : letter (message_at e e.tail) ≡ l = cc eq in
    let m : Message = message_at e e.tail in
    record {
      waiting = waiting;
      first = first;
      rest = cc eq;
      whole =
          ap (λ x. length (x.1)) (sym first)
          ∙ omega (arith, length-take m.length m.bytes, v.stored e.tail);
    }

-- The owner of a mailbox, with room for its oldest message, receives that message: sender, length
-- and bytes, in the first bytes of a buffer whose others stay. The message leaves the queue.
pub receive_delivers :
    (es : Endpoints) (handle pid : ℕ) (buffer : List ℕ) (capacity : ℕ) (m : Mailbox) (l : Letter)
    (q : List Letter)
    → IsValid es
    → mailbox es handle ≡ some m
    → m.owner ≡ pid
    → m.queue ≡ l ∷ q
    → length (l.1) ≤ capacity
    → capacity ≤ length buffer
    → let (es', got) = ipc_receive es handle pid buffer capacity in
      (r : Received) × (got ≡ some r)
      × (r.sender_pid ≡ l.0)
      × (r.length ≡ length (l.1))
      × (take r.length r.buffer ≡ l.1)
      × (drop r.length r.buffer ≡ drop r.length buffer)
      × (mailbox es' handle ≡ some (record m { queue = q }))
unfolding refuses_receive
receive_delivers es handle pid buffer capacity m l q v e owned queue fits room =
    let (slot, r, b) = resolve_of_mailbox es handle m e in
    let old : Endpoint = endpoint_at es slot in
    let msg : Message = message_at old old.tail in
    let names = resolve-Names es handle slot r in
    let o = contents-Oldest old l q (v.slots slot) (ap (λ x. x.queue) b ∙ queue) in
    let mine : old.receiver_pid ≡ pid = ap (λ x. x.owner) b ∙ owned in
    let wide : msg.length ≤ capacity = omega (arith, o.whole) in
    let passed : refuses_receive old pid capacity ≡ false = ground (arith, mine, o.waiting, wide) in
    let whole = v.slots slot in
    let size : length msg.bytes ≡ 64 = (whole.stored old.tail).size in
    let short : msg.length ≤ 64 = (whole.stored old.tail).short in
    rw (receive_accepted es handle pid buffer capacity slot r passed) (
      delivered msg buffer,
      refl,
      ap (λ x. x.0) o.first,
      sym o.whole,
      take-copy_bytes msg.length buffer msg.bytes (omega arith) (omega arith)
          ∙ ap (λ x. x.1) o.first,
      drop-copy_bytes msg.length buffer msg.bytes,
      mailbox-set_self es slot _ handle v (dequeue-IsEndpoint old whole o.waiting) names.in_range
            (dequeue-Answers old slot handle (names.used, names.is_handle))
          ∙ λ i. some (record { owner = ap (λ x. x.owner) b i; queue = o.rest i }),
    )

-- In all other cases nothing is received and nothing changes: no mailbox, a process that is not the
-- owner, an empty queue, or a buffer too small for the oldest message.
pub receive_refuses :
    (es : Endpoints) (handle pid : ℕ) (buffer : List ℕ) (capacity : ℕ)
    → IsValid es
    → (mailbox es handle ≡ none)
      ⊎ ((m : Mailbox) × (mailbox es handle ≡ some m)
          × ((m.owner ≢ pid)
              ⊎ (m.queue ≡ [])
              ⊎ ((l : Letter) × (q : List Letter) × (m.queue ≡ l ∷ q) × (capacity < length (l.1)))))
    → ipc_receive es handle pid buffer capacity ≡ (es, none)
receive_refuses es handle pid buffer capacity v why =
    elim (receive_cases es handle pid buffer capacity) [
      | inl e ↦ e
      | inr (slot, r) ↦
          let here = mailbox_of_resolve es handle slot r.resolved in
          let old : Endpoint = endpoint_at es slot in
          absurd (elim why [
            | inl missing ↦ cc
            | inr (m, e, inl stranger) ↦
                stranger (ap (λ x. x.owner) (mailbox_unique es handle m _ e here) ∙ r.owned)
            | inr (m, e, inr (inl drained)) ↦
                let same = ap (λ x. length x.queue) (mailbox_unique es handle m _ e here) in
                r.waiting (omega (arith, length-contents old, same, ap length drained))
            | inr (m, e, inr (inr (l, q, queue, small))) ↦
                let same = ap (λ x. x.queue) (mailbox_unique es handle _ m here e) in
                let o = contents-Oldest old l q (v.slots slot) (same ∙ queue) in
                omega (arith, o.whole, r.fits)
          ])
    ]

-- `ipc_pending` tells the owner of a mailbox the length of its queue, and anybody else 0.
pub pending_lem :
    (es : Endpoints) (handle pid : ℕ) (m : Mailbox)
    → mailbox es handle ≡ some m
    → ipc_pending es handle pid ≡ (if m.owner == pid then length m.queue else 0)
unfolding ipc_pending
pending_lem es handle pid m e =
    let (slot, r, b) = resolve_of_mailbox es handle m e in
    let old : Endpoint = endpoint_at es slot in
    let owner : old.receiver_pid ≡ m.owner = ap (λ x. x.owner) b in
    let count : old.count ≡ length m.queue =
      sym (length-contents old) ∙ ap (λ x. length x.queue) b in
    rw (r, ipc_pending) (ground (arith, owner, count))
