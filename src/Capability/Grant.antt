-- ===== src/Capability/Grant.antt =====
-- src/capability.c `capability_grant` and `capability_find`.
use Prim.Native.Nat.{bit_and}
use argusos_uefi_v.Base.{
  ℕ, ◌%◌, ◌^◌, ◌≤◌, ◌<◌, ◌≡◌, ◌≢◌, ◌⊎◌, inl, inr, refl, sym, ◌∙◌, ap, some, true, false, arith,
  Option-cases, Bool-cases, set, find_slot, find_slot-some, find_slot_exists,
}
use argusos_uefi_v.Base.Bits.Subset.{subset_of_complement, complement_of_subset}
use argusos_uefi_v.Base.Bits.Fields.{zero-bit_and}
use argusos_uefi_v.Capability.{
  Entry, Table, entry_at, empty_entry, make_handle, capability_max, allowed_rights, refuses_grant,
  is_empty, granted, capability_grant, capability_resolve,
}
use argusos_uefi_v.Capability.Handle.{make_handle-ne-zero}
use argusos_uefi_v.Capability.Invariant.{
  IsEntry, IsValid, set-IsValid, entry_at-set_self, entry_at-set_ne,
}
use argusos_uefi_v.Capability.Resolve.{Opens, Opens-resolve, resolve-Opens, Opens-transfer}

allowed_rights_width : (type : ℕ) → allowed_rights type < 2 ^ 16
unfolding allowed_rights
allowed_rights_width type = ground arith

known_of_allowed : (type : ℕ) → allowed_rights type ≢ 0 → (type ≤ 6) × (type ≢ 0)
unfolding allowed_rights
known_of_allowed type h = ground arith

-- What the guard of `capability_grant` leaves.
pub record Accepted (t : Table) (type rights : ℕ) : Type 0 where
  pub owned : t.principal ≢ 0
  pub known : type ≤ 6
  pub not_empty : type ≢ 0
  pub within : bit_and (allowed_rights type) rights ≡ rights

refuses_grant-Accepted :
    (t : Table) (type rights : ℕ)
    → rights < 2 ^ 16
    → refuses_grant t type rights ≡ false
    → Accepted t type rights
unfolding refuses_grant
refuses_grant-Accepted t type rights w h = record {
  owned = ground arith;
  known = ground (arith, known_of_allowed type);
  not_empty = ground (arith, known_of_allowed type);
  within =
      subset_of_complement 16 (allowed_rights type) rights (allowed_rights_width type) w
        (ground arith);
}

-- What a successful grant did: it filled `slot`, which was empty.
pub record Grants (t : Table) (type rights object slot : ℕ) : Type 0 where
  pub accepted : Accepted t type rights
  pub in_range : slot < capability_max
  pub was_empty : (entry_at t slot).type ≡ 0
  pub result : capability_grant t type rights object ≡ (
    record t { entries = set t.entries slot (granted (entry_at t slot) type rights object) },
    make_handle slot (granted (entry_at t slot) type rights object),
  )

pub grant_cases :
    (t : Table) (type rights object : ℕ)
    → IsValid t
    → rights < 2 ^ 16
    → (capability_grant t type rights object ≡ (t, 0))
      ⊎ ((slot : ℕ) × Grants t type rights object slot)
unfolding capability_grant is_empty
grant_cases t type rights object v w = elim (Bool-cases (refuses_grant t type rights)) [
  | inl refused ↦ inl (rw refused)
  | inr passed ↦ elim (Option-cases (find_slot is_empty t.entries)) [
    | inl full ↦ inl (rw (passed, full))
    | inr (slot, found) ↦ inr (
      slot,
      record {
        accepted = refuses_grant-Accepted t type rights w passed;
        in_range =
            omega (arith, (find_slot-some is_empty empty_entry t.entries slot found).0, v.size);
        was_empty = ground (arith, (find_slot-some is_empty empty_entry t.entries slot found).1);
        result = rw (passed, found);
      },
    )
  ]
]

granted-IsEntry :
    (t : Table) (type rights object slot : ℕ)
    → IsValid t
    → rights < 2 ^ 16
    → Grants t type rights object slot
    → IsEntry (granted (entry_at t slot) type rights object)
granted-IsEntry t type rights object slot v w g = record {
  generation_width = (v.slots slot).generation_width;
  known_type = omega (arith, g.accepted.known);
  rights_width = w;
  within_allowed =
      let e : type % 2 ^ 16 ≡ type = omega (arith, g.accepted.known) in rw e g.accepted.within;
}

-- The table stays well formed, whatever is asked for.
pub grant-IsValid :
    (t : Table) (type rights object : ℕ)
    → IsValid t
    → rights < 2 ^ 16
    → IsValid (capability_grant t type rights object).0
grant-IsValid t type rights object v w = elim (grant_cases t type rights object v w) [
  | inl e ↦ rw e v
  | inr (slot, g) ↦
      rw g.result (set-IsValid t slot _ (granted-IsEntry t type rights object slot v w g) v)
]

-- The handle that a grant made opens its slot for any of the rights granted.
Grants-Opens :
    (t : Table) (type rights required object slot : ℕ)
    → IsValid t
    → Grants t type rights object slot
    → bit_and rights required ≡ required
    → let e = granted (entry_at t slot) type rights object in
      Opens
        (record t { entries = set t.entries slot e })
        (make_handle slot e)
        type
        required
        object
        slot
Grants-Opens t type rights required object slot v g sub = record {
  in_range = g.in_range;
  is_handle = ap (make_handle slot) (sym stored);
  owned = g.accepted.owned;
  same_type = ap (λ x. x.type) stored ∙ omega (arith, g.accepted.known);
  has_rights = ap (λ x. bit_and x.rights required) stored ∙ sub;
  same_object = ap (λ x. x.object) stored;
}
  where
    e : Entry
    e = granted (entry_at t slot) type rights object

    stored : entry_at (record t { entries = set t.entries slot e }) slot ≡ e
    stored = entry_at-set_self t slot e v g.in_range

-- The handle of a successful grant gives access, in the new table, to the object that was granted,
-- for the type and for any rights among those granted.
pub grant-resolve :
    (t : Table) (type rights required object : ℕ)
    → IsValid t
    → rights < 2 ^ 16
    → (capability_grant t type rights object).1 ≢ 0
    → bit_and rights required ≡ required
    → let (t', handle) = capability_grant t type rights object in
      capability_resolve t' handle type required ≡ some object
grant-resolve t type rights required object v w h sub =
    elim (grant_cases t type rights object v w) [
      | inl e ↦ absurd (h (ap (λ p. p.1) e))
      | inr (slot, g) ↦ rw g.result (
          Opens-resolve _ _ type required object slot
            (set-IsValid t slot _ (granted-IsEntry t type rights object slot v w g) v)
            (Grants-Opens t type rights required object slot v g sub))
    ]

-- Whatever a grant does, a handle of a capability keeps the access that it gave before.
pub grant_keeps :
    (t : Table) (type rights object handle other required target : ℕ)
    → IsValid t
    → rights < 2 ^ 16
    → other ≢ 0
    → capability_resolve t handle other required ≡ some target
    → capability_resolve (capability_grant t type rights object).0 handle other required
      ≡ some target
grant_keeps t type rights object handle other required target v w ne e =
    elim (grant_cases t type rights object v w) [
      | inl same ↦ rw same e
      | inr (slot, g) ↦ rw g.result (
          let o = resolve-Opens t handle other required target v e in
          Opens-resolve _ handle other required target _
            (set-IsValid t slot _ (granted-IsEntry t type rights object slot v w g) v)
            (Opens-transfer t _ handle other required target _ o refl (
              entry_at-set_ne t slot _ _ (λ clash.
                ne (sym o.same_type ∙ ap (λ s. (entry_at t s).type) (sym clash) ∙ g.was_empty)))))
    ]

grant_refused :
    (t : Table) (type rights object : ℕ)
    → refuses_grant t type rights ≡ true
    → capability_grant t type rights object ≡ (t, 0)
unfolding capability_grant
grant_refused t type rights object h = rw h

grant_found :
    (t : Table) (type rights object slot : ℕ)
    → refuses_grant t type rights ≡ false
    → find_slot is_empty t.entries ≡ some slot
    → capability_grant t type rights object ≡ (
      record t { entries = set t.entries slot (granted (entry_at t slot) type rights object) },
      make_handle slot (granted (entry_at t slot) type rights object),
    )
unfolding capability_grant
grant_found t type rights object slot passed found = rw (passed, found)

accepted_of_subset :
    (t : Table) (type rights : ℕ)
    → rights < 2 ^ 16
    → t.principal ≢ 0
    → rights ≢ 0
    → bit_and (allowed_rights type) rights ≡ rights
    → refuses_grant t type rights ≡ false
unfolding refuses_grant
accepted_of_subset t type rights w p r sub = ground (
  arith,
  complement_of_subset 16 (allowed_rights type) rights (allowed_rights_width type) w sub,
  zero-bit_and rights,
)

-- A grant succeeds where the table has an owner and an empty slot, and some rights are asked for,
-- all of which the type allows.
pub grant_succeeds :
    (t : Table) (type rights object slot : ℕ)
    → IsValid t
    → rights < 2 ^ 16
    → t.principal ≢ 0
    → rights ≢ 0
    → bit_and (allowed_rights type) rights ≡ rights
    → slot < capability_max
    → (entry_at t slot).type ≡ 0
    → (capability_grant t type rights object).1 ≢ 0
unfolding is_empty
grant_succeeds t type rights object slot v w p r sub h e =
    elim (Option-cases (find_slot is_empty t.entries)) [
      | inl full ↦ absurd (
          find_slot_exists is_empty empty_entry t.entries slot (omega (arith, v.size))
            (ground arith) full)
      | inr (found, eq) ↦
          let passed = accepted_of_subset t type rights w p r sub in
          let a = refuses_grant-Accepted t type rights w passed in
          let range = (find_slot-some is_empty empty_entry t.entries found eq).0 in
          rw (grant_found t type rights object found passed eq) (
            make_handle-ne-zero found (granted (entry_at t found) type rights object) (record {
              slot_fits = omega (arith, range, v.size);
              type_fits = omega (arith, a.known);
              generation_fits = (v.slots found).generation_width;
            }))
    ]
