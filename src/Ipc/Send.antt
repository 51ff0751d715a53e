-- ===== src/Ipc/Send.antt =====
-- src/ipc.c `ipc_send` on the mailboxes.
use argusos_uefi_v.Base.{
  ℕ, ◌≤◌, ◌<◌, ◌≡◌, ◌≢◌, ◌⊎◌, inl, inr, refl, sym, ◌∙◌, ap, none, some, List, [], ◌∷◌, ◌++◌, true,
  false, Bool-cases, Option-cases, arith, length, take, set,
}
use argusos_uefi_v.Ipc.{
  Endpoint, Endpoints, endpoint_at, queue_capacity, message_max, resolve_endpoint, make_endpoint,
  enqueue, refuses_send, ipc_send,
}
use argusos_uefi_v.Ipc.Handle.{resolve-Names}
use argusos_uefi_v.Ipc.Ring.{
  contents, length-contents, IsEndpoint, contents-enqueue, enqueue-IsEndpoint,
}
use argusos_uefi_v.Ipc.Mailbox.{
  Mailbox, mailbox, IsValid, set-IsValid, Answers, mailbox_of_resolve, resolve_of_mailbox,
  mailbox-set_ne, mailbox-set_self, mailbox_unique,
}

-- What `ipc_send` does: nothing, or a message is queued at the endpoint that the handle names.
record Sends (es : Endpoints) (handle sender : ℕ) (bytes : List ℕ) (n slot : ℕ) : Type 0 where
  resolved : resolve_endpoint es handle ≡ some slot
  from_someone : sender ≢ 0
  not_empty : n ≢ 0
  short : n ≤ message_max
  room : (endpoint_at es slot).count ≢ queue_capacity
  result :
      ipc_send es handle sender bytes n
      ≡ (set es slot (enqueue (endpoint_at es slot) sender bytes n), true)

send_cases :
    (es : Endpoints) (handle sender : ℕ) (bytes : List ℕ) (n : ℕ)
    → (ipc_send es handle sender bytes n ≡ (es, false))
      ⊎ ((slot : ℕ) × Sends es handle sender bytes n slot)
unfolding ipc_send refuses_send
send_cases es handle sender bytes n = elim (Option-cases (resolve_endpoint es handle)) [
  | inl e ↦ inl (ground arith)
  | inr (slot, e) ↦ elim (Bool-cases (refuses_send (endpoint_at es slot) sender n)) [
    | inl refused ↦ inl (ground arith)
    | inr passed ↦ inr (slot, ground arith)
  ]
]

room_left : (e : Endpoint) → IsEndpoint e → e.count ≢ queue_capacity → e.count < queue_capacity
room_left e v h = omega (arith, v.bounded)

-- Sending keeps the endpoints well formed, on every branch.
pub send-IsValid :
    (es : Endpoints) (handle sender : ℕ) (bytes : List ℕ) (n : ℕ)
    → IsValid es
    → IsValid (ipc_send es handle sender bytes n).0
send-IsValid es handle sender bytes n v = elim (send_cases es handle sender bytes n) [
  | inl e ↦ rw e v
  | inr (slot, s) ↦ rw s.result (
      set-IsValid es slot _
        (enqueue-IsEndpoint (endpoint_at es slot) sender bytes n (v.slots slot)
          (room_left _ (v.slots slot) s.room) s.short)
        v)
]

-- `enqueue` leaves the identity of the endpoint alone.
enqueue-Answers :
    (e : Endpoint) (sender : ℕ) (bytes : List ℕ) (n slot handle : ℕ)
    → Answers e slot handle
    → Answers (enqueue e sender bytes n) slot handle
unfolding enqueue make_endpoint
enqueue-Answers e sender bytes n slot handle a = a

Answers-enqueue :
    (e : Endpoint) (sender : ℕ) (bytes : List ℕ) (n slot handle : ℕ)
    → Answers (enqueue e sender bytes n) slot handle
    → Answers e slot handle
unfolding enqueue make_endpoint
Answers-enqueue e sender bytes n slot handle a = a

-- Sending through one handle shows under no other.
pub send_frame :
    (es : Endpoints) (handle sender : ℕ) (bytes : List ℕ) (n other : ℕ)
    → IsValid es
    → other ≢ handle
    → mailbox (ipc_send es handle sender bytes n).0 other ≡ mailbox es other
send_frame es handle sender bytes n other v ne = elim (send_cases es handle sender bytes n) [
  | inl e ↦ rw e refl
  | inr (slot, s) ↦
      let names = resolve-Names es handle slot s.resolved in
      rw s.result (
        mailbox-set_ne es slot _ other v names.in_range (λ a. ne (sym a.1 ∙ names.is_handle))
          (λ a. ne (
            sym (Answers-enqueue (endpoint_at es slot) sender bytes n slot other a).1
            ∙ names.is_handle)))
]

send_accepted :
    (es : Endpoints) (handle sender : ℕ) (bytes : List ℕ) (n slot : ℕ)
    → resolve_endpoint es handle ≡ some slot
    → sender ≢ 0
    → n ≢ 0
    → n ≤ message_max
    → (endpoint_at es slot).count ≢ queue_capacity
    → ipc_send es handle sender bytes n
      ≡ (set es slot (enqueue (endpoint_at es slot) sender bytes n), true)
unfolding ipc_send refuses_send
send_accepted es handle sender bytes n slot r real some_bytes short room = ground arith

owner-enqueue :
    (e : Endpoint) (sender : ℕ) (bytes : List ℕ) (n : ℕ)
    → (enqueue e sender bytes n).receiver_pid ≡ e.receiver_pid
unfolding enqueue
owner-enqueue e sender bytes n = refl

-- A message from a real sender, of 1 to 64 bytes, to a mailbox that holds fewer than eight is
-- accepted, and joins the end of that mailbox's queue.
pub send_delivers :
    (es : Endpoints) (handle sender : ℕ) (bytes : List ℕ) (n : ℕ) (m : Mailbox)
    → IsValid es
    → mailbox es handle ≡ some m
    → sender ≢ 0
    → n ≢ 0
    → n ≤ message_max
    → n ≤ length bytes
    → length m.queue < queue_capacity
    → let (es', accepted) = ipc_send es handle sender bytes n in
      (accepted ≡ true)
      × (mailbox es' handle ≡ some (record m { queue = m.queue ++ (sender, take n bytes) ∷ [] }))
send_delivers es handle sender bytes n m v e real some_bytes short given room =
    let (slot, r, b) = resolve_of_mailbox es handle m e in
    let old : Endpoint = endpoint_at es slot in
    let names = resolve-Names es handle slot r in
    let same_queue : contents old ≡ m.queue = ap (λ x. x.queue) b in
    let count : length m.queue ≡ old.count = ap length (sym same_queue) ∙ length-contents old in
    let queued =
      contents-enqueue old sender bytes n (v.slots slot) (omega (arith, count)) short given in
    rw (send_accepted es handle sender bytes n slot r real some_bytes short (omega (arith, count)))
      (
        refl,
        mailbox-set_self es slot _ handle v
              (enqueue-IsEndpoint old sender bytes n (v.slots slot) (omega (arith, count)) short)
              names.in_range
              (enqueue-Answers old sender bytes n slot handle (names.used, names.is_handle))
            ∙ λ i. some (record {
              owner = (owner-enqueue old sender bytes n ∙ ap (λ x. x.owner) b) i;
              queue = (queued ∙ ap (λ q. q ++ (sender, take n bytes) ∷ []) same_queue) i;
            }),
      )

-- In all other cases nothing is sent and nothing changes: no mailbox, no sender, a length of 0 or
-- above 64, or a full queue.
pub send_refuses :
    (es : Endpoints) (handle sender : ℕ) (bytes : List ℕ) (n : ℕ)
    → IsValid es
    → (mailbox es handle ≡ none)
      ⊎ (sender ≡ 0)
      ⊎ (n ≡ 0)
      ⊎ (message_max < n)
      ⊎ ((m : Mailbox) × (mailbox es handle ≡ some m) × (length m.queue ≡ queue_capacity))
    → ipc_send es handle sender bytes n ≡ (es, false)
send_refuses es handle sender bytes n v why = elim (send_cases es handle sender bytes n) [
  | inl e ↦ e
  | inr (slot, s) ↦
      let here = mailbox_of_resolve es handle slot s.resolved in
      absurd (elim why [
        | inl missing ↦ cc
        | inr (inl nobody) ↦ s.from_someone nobody
        | inr (inr (inl nothing)) ↦ s.not_empty nothing
        | inr (inr (inr (inl long))) ↦ omega (arith, s.short)
        | inr (inr (inr (inr (m, e, full)))) ↦
            let same = mailbox_unique es handle _ m here e in
            s.room
              (sym (length-contents (endpoint_at es slot)) ∙ ap (λ x. length x.queue) same ∙ full)
      ])
]
