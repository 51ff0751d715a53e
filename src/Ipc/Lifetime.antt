-- ===== src/Ipc/Lifetime.antt =====
-- `ipc_init`, `ipc_endpoint_create` and `ipc_endpoint_destroy` of src/ipc.c on the mailboxes.
use argusos_uefi_v.Base.{
  ℕ, zero, suc, ◌+◌, ◌*◌, ◌^◌, ◌<◌, ◌≡◌, ◌≢◌, ◌⊎◌, inl, inr, refl, sym, ◌∙◌, ap, none, some, [],
  true, false, Bool-cases, Option-cases, arith, length, get_or, set, replicate, get_or-replicate,
  find_slot, find_slot-some, find_slot_exists, ◌==◌,
}
use argusos_uefi_v.Base.Bits.Fields.{bit_xor-lt}
use argusos_uefi_v.Base.Words.{u32}
use argusos_uefi_v.Ipc.{
  Endpoint, Endpoints, endpoint_at, endpoint_max, queue_capacity, zero_message, zero_endpoint,
  resolve_endpoint, make_endpoint, is_unused, created, destroyed, init_endpoints, ipc_init,
  ipc_endpoint_create, ipc_endpoint_destroy,
}
use argusos_uefi_v.Ipc.Handle.{resolve-Names, make_endpoint_sum, make_endpoint_wf}
use argusos_uefi_v.Ipc.Ring.{IsMessage, IsEndpoint}
use argusos_uefi_v.Ipc.Mailbox.{
  mailbox, IsValid, set-IsValid, mailbox_of_resolve, mailbox_of_no_resolve, mailbox_unused,
  mailbox-set_ne, mailbox-set_self, mailbox-set_gone, mailbox_silent,
}

zero_message-IsMessage : IsMessage zero_message
zero_message-IsMessage = record { size = refl; short = omega arith }

zero_stored : (i : ℕ) → IsMessage (get_or (replicate queue_capacity zero_message) i zero_message)
zero_stored i = rw (get_or-replicate queue_capacity i zero_message) zero_message-IsMessage

-- An endpoint with an empty ring is well formed, whatever its identity.
fresh-IsEndpoint :
    (generation receiver_pid used : ℕ)
    → generation < 2 ^ 32
    → IsEndpoint
        (record zero_endpoint { generation = generation; receiver_pid = receiver_pid; used = used })
fresh-IsEndpoint generation receiver_pid used h = record {
  slots = refl;
  tail_in = omega arith;
  head_at = refl;
  bounded = omega arith;
  generation_width = h;
  stored = zero_stored;
}

created-IsEndpoint : (e : Endpoint) (pid : ℕ) → IsEndpoint e → IsEndpoint (created e pid)
created-IsEndpoint e pid v = fresh-IsEndpoint _ pid 1 (ground (arith, v.generation_width))

destroyed-IsEndpoint : (e : Endpoint) → IsEndpoint (destroyed e)
destroyed-IsEndpoint e = fresh-IsEndpoint _ 0 0 (ground arith)

init-IsEndpoint : (left slot i : ℕ) → IsEndpoint (get_or (init_endpoints left slot) i zero_endpoint)
unfolding init_endpoints
init-IsEndpoint zero slot i = fresh-IsEndpoint 0 0 0 (omega arith)
init-IsEndpoint (suc left) slot zero =
    fresh-IsEndpoint _ 0 0
      (bit_xor-lt 32 0x4950_0001 (u32 ((slot + 1) * 0x9E37_79B9)) (omega arith) (omega arith))
init-IsEndpoint (suc left) slot (suc i) = init-IsEndpoint left (slot + 1) i

init_unused : (left slot i : ℕ) → (get_or (init_endpoints left slot) i zero_endpoint).used ≡ 0
unfolding init_endpoints
init_unused zero slot i = refl
init_unused (suc left) slot zero = refl
init_unused (suc left) slot (suc i) = init_unused left (slot + 1) i

length-init : (left slot : ℕ) → length (init_endpoints left slot) ≡ left
unfolding init_endpoints
length-init zero slot = refl
length-init (suc left) slot = ap suc (length-init left (slot + 1))

-- After `ipc_init` the endpoints are well formed and no handle names a mailbox.
pub init_lem : IsValid ipc_init × ((handle : ℕ) → mailbox ipc_init handle ≡ none)
unfolding ipc_init
init_lem = (
  record { size = length-init endpoint_max 0; slots = init-IsEndpoint endpoint_max 0 },
  λ handle.
      mailbox_silent (init_endpoints endpoint_max 0) handle
        (λ slot a. a.0 (init_unused endpoint_max 0 slot)),
)

-- What a successful creation did.
record Creates (es : Endpoints) (pid slot : ℕ) : Type 0 where
  in_range : slot < endpoint_max
  was_unused : (endpoint_at es slot).used ≡ 0
  result : ipc_endpoint_create es pid ≡ (
    set es slot (created (endpoint_at es slot) pid),
    make_endpoint slot (created (endpoint_at es slot) pid),
  )

create_cases :
    (es : Endpoints) (pid : ℕ)
    → IsValid es
    → (ipc_endpoint_create es pid ≡ (es, 0)) ⊎ ((slot : ℕ) × Creates es pid slot)
unfolding ipc_endpoint_create is_unused
create_cases es pid v = elim (Bool-cases (pid == 0)) [
  | inl nobody ↦ inl (rw nobody)
  | inr real ↦ elim (Option-cases (find_slot is_unused es)) [
    | inl full ↦ inl (rw (real, full))
    | inr (slot, found) ↦
        let f = find_slot-some is_unused zero_endpoint es slot found in
        inr (
          slot,
          record {
            in_range = omega (arith, f.0, v.size);
            was_unused = ground (arith, f.1);
            result = rw (real, found);
          },
        )
  ]
]

-- Creating keeps the endpoints well formed, on every branch.
pub create-IsValid :
    (es : Endpoints) (pid : ℕ) → IsValid es → IsValid (ipc_endpoint_create es pid).0
create-IsValid es pid v = elim (create_cases es pid v) [
  | inl e ↦ rw e v
  | inr (slot, c) ↦
      rw c.result
        (set-IsValid es slot _ (created-IsEndpoint (endpoint_at es slot) pid (v.slots slot)) v)
]

-- A handle that a creation returns named no mailbox before; now it names an empty one of the
-- receiver, and every other handle names what it named.
pub create_lem :
    (es : Endpoints) (pid : ℕ)
    → IsValid es
    → (ipc_endpoint_create es pid).1 ≢ 0
    → let (es', handle) = ipc_endpoint_create es pid in
      (mailbox es handle ≡ none)
      × (mailbox es' handle ≡ some (record { owner = pid; queue = [] }))
      × ((other : ℕ) → other ≢ handle → mailbox es' other ≡ mailbox es other)
create_lem es pid v h = elim (create_cases es pid v) [
  | inl e ↦ absurd (h (ap (λ p. p.1) e))
  | inr (slot, c) ↦
      let e : Endpoint = created (endpoint_at es slot) pid in
      let ve = created-IsEndpoint (endpoint_at es slot) pid (v.slots slot) in
      rw c.result (
        mailbox_unused es slot _ (make_endpoint_wf slot e c.in_range ve.generation_width).1
            c.was_unused,
        mailbox-set_self es slot e _ v ve c.in_range (omega arith, refl),
        λ other ne.
            mailbox-set_ne es slot e other v c.in_range (λ a. a.0 c.was_unused) (λ a. ne (sym a.1)),
      )
]

create_found :
    (es : Endpoints) (pid slot : ℕ)
    → pid ≢ 0
    → find_slot is_unused es ≡ some slot
    → (ipc_endpoint_create es pid).1 ≡ make_endpoint slot (created (endpoint_at es slot) pid)
unfolding ipc_endpoint_create
create_found es pid slot real found = ground (arith, found)

-- A creation succeeds for a real receiver as long as a slot is unused.
pub create_succeeds :
    (es : Endpoints) (pid slot : ℕ)
    → IsValid es
    → pid ≢ 0
    → slot < endpoint_max
    → (endpoint_at es slot).used ≡ 0
    → (ipc_endpoint_create es pid).1 ≢ 0
unfolding is_unused
create_succeeds es pid slot v real h free = elim (Option-cases (find_slot is_unused es)) [
  | inl full ↦ absurd (
      find_slot_exists is_unused zero_endpoint es slot (omega (arith, v.size))
        (ground (arith, free)) full)
  | inr (found, eq) ↦
      let f = find_slot-some is_unused zero_endpoint es found eq in
      let e : Endpoint = created (endpoint_at es found) pid in
      let ve = created-IsEndpoint (endpoint_at es found) pid (v.slots found) in
      rw (create_found es pid found real eq)
        (omega (arith, make_endpoint_sum found e (omega (arith, f.0, v.size)) ve.generation_width))
]

-- Destroying answers 1 exactly for a handle that names a mailbox. Then the handle names none, and
-- every other handle names what it named; otherwise nothing changes.
pub destroy_lem :
    (es : Endpoints) (handle : ℕ)
    → IsValid es
    → let (es', done) = ipc_endpoint_destroy es handle in
      IsValid es'
      × (mailbox es' handle ≡ none)
      × (((done ≡ true) × (mailbox es handle ≢ none))
          ⊎ ((done ≡ false) × (mailbox es handle ≡ none) × (es' ≡ es)))
      × ((other : ℕ) → other ≢ handle → mailbox es' other ≡ mailbox es other)
unfolding ipc_endpoint_destroy
destroy_lem es handle v = elim (Option-cases (resolve_endpoint es handle)) [
  | inl e ↦
      rw (e, ipc_endpoint_destroy)
        (
          v,
          mailbox_of_no_resolve es handle e,
          inr (refl, mailbox_of_no_resolve es handle e, refl),
          λ other ne. refl,
        )
  | inr (slot, e) ↦
      let n = resolve-Names es handle slot e in
      let d : Endpoint = destroyed (endpoint_at es slot) in
      rw (e, ipc_endpoint_destroy)
        (
          set-IsValid es slot d (destroyed-IsEndpoint (endpoint_at es slot)) v,
          mailbox-set_gone es slot d handle v n.in_range n.shown (omega arith),
          inl (refl, λ gone. cc (mailbox_of_resolve es handle slot e)),
          λ other ne.
              mailbox-set_ne es slot d other v n.in_range (λ a. ne (sym a.1 ∙ n.is_handle))
                (λ a. a.0 refl),
        )
]
