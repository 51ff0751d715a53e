-- ===== src/Capability.antt =====
-- src/capability.c and src/capability.h: a process's table of sixteen capabilities.
-- A table is passed and returned by value; a null `table` pointer, which every function refuses,
-- has no counterpart. The enumeration `argus_capability_type_t` is read as its numbers.
pub mod Kind
pub mod Right
pub mod Handle
pub mod Invariant
pub mod Resolve
pub mod Grant
pub mod Revoke
pub mod Authority
mod SelfTest
pub mod Find
mod Tests
use Prim.Native.Nat.{bit_and, bit_or, bit_xor}
use argusos_uefi_v.Base.{
  ℕ, zero, suc, ◌+◌, ◌-◌, ◌*◌, ◌^◌, Bool, true, false, not, ◌&&◌, ◌||◌, Option, none, some, List,
  [], ◌∷◌, ltb, ◌==◌, if◌then◌else◌, get_or, set, find_slot,
}
use argusos_uefi_v.Base.Words.{u16, u32, shr, shl64}

-- `ARGUS_CAPABILITY_MAX` and `CAPABILITY_HANDLE_TAG`.
abbrev pub capability_max : ℕ
capability_max = 16

abbrev pub handle_tag : ℕ
handle_tag = 0xA6C5

-- `argus_capability_entry_t`.
pub record Entry : Type 0 where
  pub object : ℕ
  pub generation : ℕ
  pub type : ℕ
  pub rights : ℕ

-- `argus_capability_table_t`.
pub record Table : Type 0 where
  pub principal : ℕ
  pub entries : List Entry

-- `(argus_capability_entry_t){0}`.
abbrev pub empty_entry : Entry
empty_entry = record { object = 0; generation = 0; type = 0; rights = 0 }

abbrev pub entry_at : Table → ℕ → Entry
entry_at t slot = get_or t.entries slot empty_entry

unfoldable pub allowed_rights : ℕ → ℕ
allowed_rights type =
    if type == Kind.clock
    then Right.read
    else if type == Kind.input
    then bit_or Right.read Right.wait
    else if type == Kind.surface
    then Right.present
    else if type == Kind.ipc
    then bit_or Right.send Right.receive
    else if type == Kind.anonymous_stream || type == Kind.raw_network
    then Right.connect
    else 0

unfoldable pub initial_generation : ℕ → ℕ → ℕ
initial_generation principal slot = if mixed == 0 then slot + 1 else mixed
  where
    mixed : ℕ
    mixed =
        bit_xor (bit_xor (bit_xor (u32 principal) (u32 (shr principal 32))) 0xA6C5_0001)
          (u32 ((slot + 1) * 0x9E37_79B9))

unfoldable pub make_handle : ℕ → Entry → ℕ
make_handle slot e =
    bit_or (bit_or (bit_or (shl64 handle_tag 48) (shl64 e.generation 16)) (shl64 e.type 8))
      (slot + 1)

-- The loop of `capability_table_init`, with the rounds that are left and the slot.
unfoldable pub init_entries : ℕ → ℕ → ℕ → List Entry
init_entries principal zero slot = []
init_entries principal (suc left) slot =
    record empty_entry { generation = initial_generation principal slot }
    ∷ init_entries principal left (slot + 1)

unfoldable pub capability_table_init : ℕ → Table
unfolding init_entries initial_generation
capability_table_init principal = record {
  principal = principal;
  entries = init_entries principal capability_max 0;
}

-- The entry that `capability_grant` fills: the old one keeps its generation.
abbrev pub granted : Entry → ℕ → ℕ → ℕ → Entry
granted e type rights object = record e { object = object; type = u16 type; rights = rights }

-- `rights & ~valid`, on sixteen bits.
abbrev pub excess_rights : ℕ → ℕ → ℕ
excess_rights rights valid = bit_and rights (0xFFFF - valid)

-- The guard of `capability_grant`.
unfoldable pub refuses_grant : Table → ℕ → ℕ → Bool
unfolding allowed_rights
refuses_grant t type rights =
    let valid = allowed_rights type in
    t.principal == 0 || valid == 0 || rights == 0 || not (excess_rights rights valid == 0)

unfoldable pub is_empty : Entry → Bool
is_empty e = e.type == Kind.empty

-- The new table and the handle; the handle is 0 where nothing was granted.
unfoldable pub capability_grant : Table → ℕ → ℕ → ℕ → Table × ℕ
unfolding refuses_grant is_empty
capability_grant t type rights object =
    if refuses_grant t type rights then (t, 0) else elim (find_slot is_empty t.entries) [
      | none ↦ (t, 0)
      | some slot ↦ (
        record t { entries = set t.entries slot (granted (entry_at t slot) type rights object) },
        make_handle slot (granted (entry_at t slot) type rights object),
      )
    ]

-- The fields that a handle carries.
abbrev pub encoded_slot : ℕ → ℕ
encoded_slot handle = u32 (bit_and handle 0xFF)

abbrev pub encoded_generation : ℕ → ℕ
encoded_generation handle = u32 (bit_and (shr handle 16) 0xFFFF_FFFF)

abbrev pub encoded_type : ℕ → ℕ
encoded_type handle = u16 (bit_and (shr handle 8) 0xFF)

-- The checks that `capability_resolve` makes on the entry of the handle's slot.
unfoldable pub entry_matches : Entry → ℕ → ℕ → ℕ → Bool
entry_matches e handle type required =
    e.type == type
    && encoded_type handle == type
    && e.generation == encoded_generation handle
    && bit_and e.rights required == required

-- The object that is written through `object`, or `none` where the function returns 0.
unfoldable pub capability_resolve : Table → ℕ → ℕ → ℕ → Option ℕ
capability_resolve t handle type required =
    if handle == 0 || t.principal == 0 || not (shr handle 48 == handle_tag)
    then none
    else if encoded_slot handle == 0 || ltb capability_max (encoded_slot handle)
    then none
    else let e = entry_at t (encoded_slot handle - 1) in
      if entry_matches e handle type required then some e.object else none

unfoldable pub offers : ℕ → ℕ → Entry → Bool
offers type required e = e.type == type && bit_and e.rights required == required

unfoldable pub capability_find : Table → ℕ → ℕ → ℕ
unfolding offers
capability_find t type required =
    if t.principal == 0 then 0 else elim (find_slot (offers type required) t.entries) [
      | none ↦ 0
      | some slot ↦ make_handle slot (entry_at t slot)
    ]

-- `generation + 1`, where 0 is skipped.
unfoldable pub next_generation : ℕ → ℕ
next_generation generation = if u32 (generation + 1) == 0 then 1 else u32 (generation + 1)

-- The new table, and whether the function returns 1.
unfoldable pub capability_revoke : Table → ℕ → Table × Bool
unfolding next_generation
capability_revoke t handle =
    if handle == 0 || not (shr handle 48 == handle_tag)
    then (t, false)
    else if encoded_slot handle == 0 || ltb capability_max (encoded_slot handle)
    then (t, false)
    else let slot = encoded_slot handle - 1 in
      let e = entry_at t slot in
      if not (make_handle slot e == handle) || e.type == Kind.empty then (t, false) else (
        record t {
          entries =
              set t.entries slot (record empty_entry { generation = next_generation e.generation });
        },
        true,
      )

unfoldable pub count_entries : List Entry → ℕ → ℕ
count_entries [] type = 0
count_entries (e ∷ es) type = (if e.type == type then 1 else 0) + count_entries es type

unfoldable pub capability_count_type : Table → ℕ → ℕ
unfolding count_entries
capability_count_type t type = count_entries t.entries type
