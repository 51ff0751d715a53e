-- ===== src/Ipc.antt =====
-- src/ipc.c: eight endpoints, each a ring of eight messages of up to 64 bytes, named by handles.
-- The static array `endpoints` is passed and returned by value; null pointers, which the calls
-- refuse, have no counterpart. Where a call returns 0 the caller's variables are left alone.
pub mod Handle
pub mod Ring
pub mod Mailbox
pub mod Lifetime
pub mod Send
pub mod Receive
mod SelfTest
mod Tests
use Prim.Native.Nat.{bit_and, bit_or, bit_xor}
use argusos_uefi_v.Base.{
  ℕ, zero, suc, ◌+◌, ◌-◌, ◌*◌, ◌%◌, ◌^◌, Bool, true, false, not, ◌&&◌, ◌||◌, Option, none, some,
  List, [], ◌∷◌, ltb, ◌==◌, if◌then◌else◌, get_or, set, drop, replicate, find_slot,
}
use argusos_uefi_v.Base.Words.{u8, u32, shr, shl64}

abbrev pub endpoint_max : ℕ
endpoint_max = 8

abbrev pub queue_capacity : ℕ
queue_capacity = 8

abbrev pub message_max : ℕ
message_max = 64

abbrev pub endpoint_tag : ℕ
endpoint_tag = 0x4950

-- `ipc_message_t`; the bytes are its field `data`.
pub record Message : Type 0 where
  pub sender_pid : ℕ
  pub length : ℕ
  pub bytes : List ℕ

-- `ipc_endpoint_t`.
pub record Endpoint : Type 0 where
  pub receiver_pid : ℕ
  pub generation : ℕ
  pub head : ℕ
  pub tail : ℕ
  pub count : ℕ
  pub used : ℕ
  pub messages : List Message

abbrev pub zero_message : Message
zero_message = record { sender_pid = 0; length = 0; bytes = replicate message_max 0 }

-- `(ipc_endpoint_t){0}`.
abbrev pub zero_endpoint : Endpoint
zero_endpoint = record {
  receiver_pid = 0;
  generation = 0;
  head = 0;
  tail = 0;
  count = 0;
  used = 0;
  messages = replicate queue_capacity zero_message;
}

abbrev pub Endpoints : Type 0
Endpoints = List Endpoint

abbrev pub endpoint_at : Endpoints → ℕ → Endpoint
endpoint_at es slot = get_or es slot zero_endpoint

unfoldable pub make_endpoint : ℕ → Endpoint → ℕ
make_endpoint slot e = bit_or (bit_or (shl64 endpoint_tag 48) (shl64 e.generation 8)) (slot + 1)

abbrev pub slot_field : ℕ → ℕ
slot_field handle = u32 (bit_and handle 0xFF)

-- The checks that `resolve_endpoint` makes on the handle alone.
unfoldable pub malformed : ℕ → Bool
malformed handle =
    handle == 0
    || not (shr handle 48 == endpoint_tag)
    || (slot_field handle == 0 || ltb endpoint_max (slot_field handle))

-- The slot of the endpoint, or `none` for a null pointer.
unfoldable pub resolve_endpoint : Endpoints → ℕ → Option ℕ
unfolding malformed
resolve_endpoint es handle =
    if malformed handle
    then none
    else let slot = slot_field handle - 1 in
      let e = endpoint_at es slot in
      if e.used == 0 || not (make_endpoint slot e == handle) then none else some slot

-- The loop of `ipc_init`, with the rounds that are left and the slot.
unfoldable pub init_endpoints : ℕ → ℕ → Endpoints
init_endpoints zero slot = []
init_endpoints (suc left) slot =
    record zero_endpoint { generation = bit_xor 0x4950_0001 (u32 ((slot + 1) * 0x9E37_79B9)) }
    ∷ init_endpoints left (slot + 1)

unfoldable pub ipc_init : Endpoints
unfolding init_endpoints
ipc_init = init_endpoints endpoint_max 0

unfoldable pub is_unused : Endpoint → Bool
is_unused e = e.used == 0

-- The endpoint that `ipc_endpoint_create` stores in an unused slot.
abbrev pub created : Endpoint → ℕ → Endpoint
created e receiver_pid = record zero_endpoint {
  generation = if e.generation == 0 then 1 else e.generation;
  receiver_pid = receiver_pid;
  used = 1;
}

-- The new endpoints and the handle, 0 where there is none.
unfoldable pub ipc_endpoint_create : Endpoints → ℕ → Endpoints × ℕ
unfolding is_unused
ipc_endpoint_create es receiver_pid =
    if receiver_pid == 0 then (es, 0) else elim (find_slot is_unused es) [
      | none ↦ (es, 0)
      | some slot ↦ (
        set es slot (created (endpoint_at es slot) receiver_pid),
        make_endpoint slot (created (endpoint_at es slot) receiver_pid),
      )
    ]

-- What `ipc_endpoint_destroy` leaves in the slot: the next generation, where 0 is skipped.
abbrev pub destroyed : Endpoint → Endpoint
destroyed e = record zero_endpoint {
  generation = if u32 (e.generation + 1) == 0 then 1 else u32 (e.generation + 1);
}

unfoldable pub ipc_endpoint_destroy : Endpoints → ℕ → Endpoints × Bool
ipc_endpoint_destroy es handle = elim (resolve_endpoint es handle) [
  | none ↦ (es, false)
  | some slot ↦ (set es slot (destroyed (endpoint_at es slot)), true)
]

-- `for (index = 0; index < n; ++index) target[index] = source[index];`
unfoldable pub copy_bytes : ℕ → List ℕ → List ℕ → List ℕ
copy_bytes zero target source = target
copy_bytes (suc n) [] source = []
copy_bytes (suc n) (x ∷ target) source = get_or source 0 0 ∷ copy_bytes n target (drop 1 source)

abbrev pub message_at : Endpoint → ℕ → Message
message_at e index = get_or e.messages index zero_message

-- The message that `ipc_send` writes over the one at the head.
unfoldable pub sent : Message → ℕ → List ℕ → ℕ → Message
unfolding copy_bytes
sent m sender_pid bytes length = record m {
  sender_pid = sender_pid;
  length = length;
  bytes = copy_bytes length m.bytes bytes;
}

-- The endpoint after `ipc_send` has passed its guard.
unfoldable pub enqueue : Endpoint → ℕ → List ℕ → ℕ → Endpoint
unfolding sent
enqueue e sender_pid bytes length = record e {
  messages = set e.messages e.head (sent (message_at e e.head) sender_pid bytes length);
  head = u8 ((e.head + 1) % queue_capacity);
  count = u8 (e.count + 1);
}

-- The guard of `ipc_send` on a resolved endpoint.
unfoldable pub refuses_send : Endpoint → ℕ → ℕ → Bool
refuses_send e sender_pid length =
    sender_pid == 0 || length == 0 || ltb message_max length || e.count == queue_capacity

unfoldable pub ipc_send : Endpoints → ℕ → ℕ → List ℕ → ℕ → Endpoints × Bool
unfolding enqueue refuses_send
ipc_send es handle sender_pid bytes length = elim (resolve_endpoint es handle) [
  | none ↦ (es, false)
  | some slot ↦
      if refuses_send (endpoint_at es slot) sender_pid length
      then (es, false)
      else (set es slot (enqueue (endpoint_at es slot) sender_pid bytes length), true)
]

-- What `ipc_receive` writes through its pointers: the buffer, the length and the sender.
pub record Received : Type 0 where
  pub buffer : List ℕ
  pub length : ℕ
  pub sender_pid : ℕ

abbrev pub dequeue : Endpoint → Endpoint
dequeue e = record e { tail = u8 ((e.tail + 1) % queue_capacity); count = e.count - 1 }

abbrev pub delivered : Message → List ℕ → Received
delivered m buffer = record {
  buffer = copy_bytes m.length buffer m.bytes;
  length = m.length;
  sender_pid = m.sender_pid;
}

-- `--count` runs only where the count is not 0.
unfoldable pub refuses_receive : Endpoint → ℕ → ℕ → Bool
refuses_receive e receiver_pid capacity =
    not (e.receiver_pid == receiver_pid)
    || e.count == 0
    || ltb capacity (message_at e e.tail).length

unfoldable pub ipc_receive : Endpoints → ℕ → ℕ → List ℕ → ℕ → Endpoints × Option Received
unfolding refuses_receive
ipc_receive es handle receiver_pid buffer capacity = elim (resolve_endpoint es handle) [
  | none ↦ (es, none)
  | some slot ↦
      let e = endpoint_at es slot in
      if refuses_receive e receiver_pid capacity
      then (es, none)
      else (set es slot (dequeue e), some (delivered (message_at e e.tail) buffer))
]

unfoldable pub ipc_pending : Endpoints → ℕ → ℕ → ℕ
ipc_pending es handle receiver_pid = elim (resolve_endpoint es handle) [
  | none ↦ 0
  | some slot ↦
      if (endpoint_at es slot).receiver_pid == receiver_pid then (endpoint_at es slot).count else 0
]
