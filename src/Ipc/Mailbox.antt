-- ===== src/Ipc/Mailbox.antt =====
-- What a client sees of src/ipc.c: under each handle a mailbox, with its owner and its queue, or
-- none. The specification of the calls is stated on this view.
use argusos_uefi_v.Base.{
  ℕ, ◌+◌, ◌-◌, ◌<◌, ◌≡◌, ◌≢◌, inl, inr, sym, ◌∙◌, ap, Option, none, some, List, arith, length, set,
  length-set, get_or-set_self, get_or-set_ne, set_pointwise, Option-cases, ℕ-eq-cases,
}
use argusos_uefi_v.Ipc.{
  Endpoint, Endpoints, endpoint_at, endpoint_max, zero_endpoint, make_endpoint, resolve_endpoint,
  slot_field,
}
use argusos_uefi_v.Ipc.Handle.{resolve-Names, Names-resolve}
use argusos_uefi_v.Ipc.Ring.{Letter, contents, IsEndpoint}

pub record Mailbox : Type 0 where
  pub owner : ℕ
  pub queue : List Letter

abbrev pub box : Endpoint → Mailbox
box e = record { owner = e.receiver_pid; queue = contents e }

pub mailbox : Endpoints → ℕ → Option Mailbox
mailbox es handle = elim (resolve_endpoint es handle) [
  | none ↦ none
  | some slot ↦ some (box (endpoint_at es slot))
]

pub record IsValid (es : Endpoints) : Type 0 where
  pub size : length es ≡ endpoint_max
  pub slots : (slot : ℕ) → IsEndpoint (endpoint_at es slot)

pub set-IsValid :
    (es : Endpoints) (slot : ℕ) (e : Endpoint) → IsEndpoint e → IsValid es → IsValid (set es slot e)
set-IsValid es slot e he v = record {
  size = length-set es slot e ∙ v.size;
  slots = set_pointwise IsEndpoint zero_endpoint es slot e he v.slots;
}

pub endpoint_at-set_self :
    (es : Endpoints) (slot : ℕ) (e : Endpoint)
    → IsValid es
    → slot < endpoint_max
    → endpoint_at (set es slot e) slot ≡ e
endpoint_at-set_self es slot e v h = get_or-set_self es slot e zero_endpoint (omega (arith, v.size))

-- The endpoint in a slot answers to a handle.
abbrev pub Answers : Endpoint → ℕ → ℕ → Type 0
Answers e slot handle = (e.used ≢ 0) × (make_endpoint slot e ≡ handle)

pub mailbox_of_resolve :
    (es : Endpoints) (handle slot : ℕ)
    → resolve_endpoint es handle ≡ some slot
    → mailbox es handle ≡ some (box (endpoint_at es slot))
unfolding mailbox
mailbox_of_resolve es handle slot e = rw (e, mailbox)

pub mailbox_of_no_resolve :
    (es : Endpoints) (handle : ℕ) → resolve_endpoint es handle ≡ none → mailbox es handle ≡ none
unfolding mailbox
mailbox_of_no_resolve es handle e = rw (e, mailbox)

-- A mailbox comes from an endpoint that answers to the handle.
pub resolve_of_mailbox :
    (es : Endpoints) (handle : ℕ) (m : Mailbox)
    → mailbox es handle ≡ some m
    → (slot : ℕ) × (resolve_endpoint es handle ≡ some slot) × (box (endpoint_at es slot) ≡ m)
unfolding mailbox
resolve_of_mailbox es handle m e = ground arith

resolve_of_silence :
    (es : Endpoints) (handle : ℕ)
    → ¬ Answers (endpoint_at es (slot_field handle - 1)) (slot_field handle - 1) handle
    → resolve_endpoint es handle ≡ none
resolve_of_silence es handle quiet = elim (Option-cases (resolve_endpoint es handle)) [
  | inl e ↦ e
  | inr (slot, e) ↦
      let n = resolve-Names es handle slot e in
      let same : slot_field handle - 1 ≡ slot = omega (arith, n.shown) in
      absurd (quiet (rw same (n.used, n.is_handle)))
]

mailbox_of_same_endpoint :
    (es es' : Endpoints) (handle : ℕ)
    → endpoint_at es' (slot_field handle - 1) ≡ endpoint_at es (slot_field handle - 1)
    → mailbox es' handle ≡ mailbox es handle
unfolding mailbox resolve_endpoint
mailbox_of_same_endpoint es es' handle e = ground arith

-- Changing an endpoint does not show under a handle that it does not answer to.
pub mailbox-set_ne :
    (es : Endpoints) (slot : ℕ) (e : Endpoint) (other : ℕ)
    → IsValid es
    → slot < endpoint_max
    → ¬ Answers (endpoint_at es slot) slot other
    → ¬ Answers e slot other
    → mailbox (set es slot e) other ≡ mailbox es other
mailbox-set_ne es slot e other v h old new = elim (ℕ-eq-cases slot (slot_field other - 1)) [
  | inl same ↦
      let quiet : ¬ Answers (endpoint_at es (slot_field other - 1)) (slot_field other - 1) other =
        rw (← same) old in
      let stored = endpoint_at-set_self es slot e v h in
      let quiet' : ¬ Answers (endpoint_at (set es slot e) (slot_field other - 1))
          (slot_field other - 1) other =
        rw (← same) (rw stored new) in
      mailbox_of_no_resolve _ other (resolve_of_silence (set es slot e) other quiet')
      ∙ sym (mailbox_of_no_resolve _ other (resolve_of_silence es other quiet))
  | inr differ ↦
      mailbox_of_same_endpoint es (set es slot e) other
        (get_or-set_ne es slot _ e zero_endpoint differ)
]

-- A handle resolves to a slot whose endpoint is replaced by one that answers to the same handle.
pub mailbox-set_self :
    (es : Endpoints) (slot : ℕ) (e : Endpoint) (handle : ℕ)
    → IsValid es
    → IsEndpoint e
    → slot < endpoint_max
    → Answers e slot handle
    → mailbox (set es slot e) handle ≡ some (box e)
mailbox-set_self es slot e handle v ve h a =
    let stored = endpoint_at-set_self es slot e v h in
    mailbox_of_resolve (set es slot e) handle slot (
      Names-resolve (set es slot e) handle slot (rw stored ve.generation_width) h (rw stored a.0)
        (rw stored a.1))
    ∙ ap (λ x. some (box x)) stored

pub mailbox_unique :
    (es : Endpoints) (handle : ℕ) (m m' : Mailbox)
    → mailbox es handle ≡ some m
    → mailbox es handle ≡ some m'
    → m ≡ m'
mailbox_unique es handle m m' e e' = cc

-- Where no endpoint answers to a handle, it names no mailbox.
pub mailbox_silent :
    (es : Endpoints) (handle : ℕ)
    → ((slot : ℕ) → ¬ Answers (endpoint_at es slot) slot handle)
    → mailbox es handle ≡ none
mailbox_silent es handle quiet =
    mailbox_of_no_resolve es handle (resolve_of_silence es handle (quiet (slot_field handle - 1)))

-- So it is where the endpoint of the handle's slot is replaced by an unused one.
pub mailbox-set_gone :
    (es : Endpoints) (slot : ℕ) (e : Endpoint) (handle : ℕ)
    → IsValid es
    → slot < endpoint_max
    → slot_field handle ≡ slot + 1
    → e.used ≡ 0
    → mailbox (set es slot e) handle ≡ none
mailbox-set_gone es slot e handle v h shown unused =
    let same : slot_field handle - 1 ≡ slot = omega (arith, shown) in
    let stored = endpoint_at-set_self es slot e v h in
    mailbox_of_no_resolve (set es slot e) handle
      (resolve_of_silence (set es slot e) handle (λ a. (rw (same, stored) at a).0 unused))

-- Nor does a handle whose slot is unused.
pub mailbox_unused :
    (es : Endpoints) (slot handle : ℕ)
    → slot_field handle ≡ slot + 1
    → (endpoint_at es slot).used ≡ 0
    → mailbox es handle ≡ none
mailbox_unused es slot handle shown unused =
    let same : slot_field handle - 1 ≡ slot = omega (arith, shown) in
    mailbox_of_no_resolve es handle (resolve_of_silence es handle (λ a. (rw same at a).0 unused))
