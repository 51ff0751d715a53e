-- ===== src/Capability/Invariant.antt =====
-- The well-formedness of a capability table: every slot keeps to the widths of its fields, and its
-- rights lie within those that its type allows.
use Prim.Native.Nat.{bit_and}
use argusos_uefi_v.Base.{
  ℕ, ◌^◌, ◌≤◌, ◌<◌, ◌≡◌, ◌≢◌, length, set, arith, length-set, get_or-set_self, get_or-set_ne,
  set_pointwise,
}
use argusos_uefi_v.Capability.{Entry, Table, empty_entry, entry_at, allowed_rights, capability_max}
use argusos_uefi_v.Capability.Handle.{Fits}

pub record IsEntry (e : Entry) : Type 0 where
  pub generation_width : e.generation < 2 ^ 32
  pub known_type : e.type ≤ 6
  pub rights_width : e.rights < 2 ^ 16
  pub within_allowed : bit_and (allowed_rights e.type) e.rights ≡ e.rights

pub record IsValid (t : Table) : Type 0 where
  pub size : length t.entries ≡ capability_max
  pub slots : (slot : ℕ) → IsEntry (entry_at t slot)

pub IsEntry-Fits : (slot : ℕ) (e : Entry) → slot < capability_max → IsEntry e → Fits slot e
IsEntry-Fits slot e h v = omega arith

pub empty_entry-IsEntry : IsEntry empty_entry
unfolding allowed_rights
empty_entry-IsEntry = omega arith

-- Storing a well-formed entry keeps every slot well formed.
pub set-IsValid :
    (t : Table) (i : ℕ) (e : Entry)
    → IsEntry e
    → IsValid t
    → IsValid (record t { entries = set t.entries i e })
set-IsValid t i e he v = record {
  size = omega (arith, length-set t.entries i e);
  slots = set_pointwise IsEntry empty_entry t.entries i e he v.slots;
}

-- The slot that was written, and the others.
pub entry_at-set_self :
    (t : Table) (slot : ℕ) (e : Entry)
    → IsValid t
    → slot < capability_max
    → entry_at (record t { entries = set t.entries slot e }) slot ≡ e
entry_at-set_self t slot e v h =
    get_or-set_self t.entries slot e empty_entry (omega (arith, v.size))

pub entry_at-set_ne :
    (t : Table) (slot other : ℕ) (e : Entry)
    → slot ≢ other
    → entry_at (record t { entries = set t.entries slot e }) other ≡ entry_at t other
entry_at-set_ne t slot other e h = get_or-set_ne t.entries slot other e empty_entry h
