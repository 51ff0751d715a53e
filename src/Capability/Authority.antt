-- ===== src/Capability/Authority.antt =====
-- The life of a table from `capability_table_init` on, through grants and revocations of
-- src/capability.c.
use Prim.Native.Nat.{bit_and, bit_xor}
use argusos_uefi_v.Base.{
  ℕ, zero, suc, ◌+◌, ◌*◌, ◌^◌, ◌≤◌, ◌<◌, ◌≡◌, refl, ap, some, length, get_or, arith,
}
use argusos_uefi_v.Base.Bits.Fields.{bit_xor-lt, bit_and-zero}
use argusos_uefi_v.Base.Bits.Subset.{subset_trans}
use argusos_uefi_v.Base.Words.{u32, shr}
use argusos_uefi_v.Capability.{
  Table, empty_entry, capability_max, allowed_rights, initial_generation, init_entries,
  capability_table_init, capability_grant, capability_resolve, capability_revoke,
}
use argusos_uefi_v.Capability.Invariant.{IsEntry, IsValid, empty_entry-IsEntry}
use argusos_uefi_v.Capability.Resolve.{resolve-Opens}
use argusos_uefi_v.Capability.Grant.{grant-IsValid}
use argusos_uefi_v.Capability.Revoke.{revoke-IsValid}

initial_generation-lt : (p slot : ℕ) → slot < capability_max → initial_generation p slot < 2 ^ 32
unfolding initial_generation
initial_generation-lt p slot h = ground (arith, mixed_width)
  where
    mixed_width :
        bit_xor
          (bit_xor (bit_xor (u32 p) (u32 (shr p 32))) 0xA6C5_0001)
          (u32 ((slot + 1) * 0x9E37_79B9))
        < 2 ^ 32
    mixed_width =
        bit_xor-lt 32 _ _
          (bit_xor-lt 32 _ _ (bit_xor-lt 32 _ _ (omega arith) (omega arith)) (omega arith))
          (omega arith)

length-init_entries : (p left slot : ℕ) → length (init_entries p left slot) ≡ left
unfolding init_entries
length-init_entries p zero slot = refl
length-init_entries p (suc left) slot = ap suc (length-init_entries p left (slot + 1))

init_entries-IsEntry :
    (p left slot : ℕ)
    → slot + left ≤ capability_max
    → (i : ℕ) → IsEntry (get_or (init_entries p left slot) i empty_entry)
unfolding init_entries
init_entries-IsEntry p zero slot h i = empty_entry-IsEntry
init_entries-IsEntry p (suc left) slot h zero = record {
  generation_width = initial_generation-lt p slot (omega arith);
  known_type = omega arith;
  rights_width = omega arith;
  within_allowed = bit_and-zero (allowed_rights 0);
}
init_entries-IsEntry p (suc left) slot h (suc i) =
    init_entries-IsEntry p left (slot + 1) (omega arith) i

-- A new table is well formed.
pub init-IsValid : (p : ℕ) → IsValid (capability_table_init p)
unfolding capability_table_init
init-IsValid p = record {
  size = length-init_entries p capability_max 0;
  slots = init_entries-IsEntry p capability_max 0 (omega arith);
}

-- The tables that calls of the component can make, the rights being those of a `uint16_t`.
pub data Reach (p : ℕ) : Table → Type 0 where
  fresh : Reach p (capability_table_init p)
  after_grant :
      {t : Table} (type rights object : ℕ)
      → rights < 2 ^ 16
      → Reach p t
      → Reach p (capability_grant t type rights object).0
  after_revoke : {t : Table} (handle : ℕ) → Reach p t → Reach p (capability_revoke t handle).0

pub Reach-IsValid : {p : ℕ} {t : Table} → Reach p t → IsValid t
Reach-IsValid {p} fresh = init-IsValid p
Reach-IsValid (after_grant {t} type rights object w r) =
    grant-IsValid t type rights object (Reach-IsValid r) w
Reach-IsValid (after_revoke {t} handle r) = revoke-IsValid t handle (Reach-IsValid r)

-- Whatever was granted and revoked, access by a handle is access with rights that
-- `allowed_rights` gives for the type asked.
pub resolve_within_allowed :
    (p : ℕ) (t : Table) (handle type required object : ℕ)
    → Reach p t
    → capability_resolve t handle type required ≡ some object
    → bit_and (allowed_rights type) required ≡ required
resolve_within_allowed p t handle type required object r e =
    let v = Reach-IsValid r in
    let o = resolve-Opens t handle type required object v e in
    rw (← o.same_type) (subset_trans _ _ required ((v.slots _).within_allowed) o.has_rights)
