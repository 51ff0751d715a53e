-- ===== src/Capability/Find.antt =====
-- src/capability.c `capability_find` and `capability_count_type`.
use argusos_uefi_v.Base.{
  ℕ, zero, suc, ◌+◌, ◌-◌, ◌%◌, ◌^◌, ◌<◌, ◌≡◌, ◌≢◌, ◌⊎◌, inl, inr, refl, ap, some, none, arith,
  Option-cases, List, [], ◌∷◌, length, set, get_or, find_slot, find_slot-some, find_slot_exists,
  ◌==◌, if◌then◌else◌,
}
use argusos_uefi_v.Capability.{
  Entry, Table, empty_entry, entry_at, make_handle, encoded_slot, offers, capability_find,
  capability_resolve, capability_grant, capability_count_type, count_entries, granted,
}
use argusos_uefi_v.Capability.Handle.{make_handle-ne-zero}
use argusos_uefi_v.Capability.Invariant.{IsValid, IsEntry-Fits}
use argusos_uefi_v.Capability.Resolve.{Opens-resolve, resolve-Opens}
use argusos_uefi_v.Capability.Grant.{grant_cases}

find_cases :
    (t : Table) (type required : ℕ)
    → t.principal ≢ 0
    → ((find_slot (offers type required) t.entries ≡ none) × (capability_find t type required ≡ 0))
      ⊎ ((slot : ℕ) × (find_slot (offers type required) t.entries ≡ some slot)
          × (capability_find t type required ≡ make_handle slot (entry_at t slot)))
unfolding capability_find
find_cases t type required h = elim (Option-cases (find_slot (offers type required) t.entries)) [
  | inl e ↦ inl (e, ground arith)
  | inr (slot, e) ↦ inr (slot, e, ground arith)
]

find_unowned :
    (t : Table) (type required : ℕ) → t.principal ≡ 0 → capability_find t type required ≡ 0
unfolding capability_find
find_unowned t type required h = ground arith

-- A handle that `capability_find` returns resolves, for the type and the rights that were asked.
pub find-resolve :
    (t : Table) (type required : ℕ)
    → IsValid t
    → capability_find t type required ≢ 0
    → (object : ℕ) × (capability_resolve t (capability_find t type required) type required
        ≡ some object)
unfolding offers
find-resolve t type required v h =
    let owned : t.principal ≢ 0 = λ z. h (find_unowned t type required z) in
    elim (find_cases t type required owned) [
      | inl (_, e) ↦ absurd (h e)
      | inr (slot, e, r) ↦
          let f = find_slot-some (offers type required) empty_entry t.entries slot e in
          (
            (entry_at t slot).object,
            rw r (
                Opens-resolve t _ type required _ slot v (record {
                  in_range = omega (arith, f.0, v.size);
                  is_handle = refl;
                  owned = owned;
                  same_type = ground (arith, f.1);
                  has_rights = ground (arith, f.1);
                  same_object = refl;
                })),
          )
    ]

-- Where any handle resolves for the type and the rights, `capability_find` finds one.
pub find_complete :
    (t : Table) (handle type required object : ℕ)
    → IsValid t
    → capability_resolve t handle type required ≡ some object
    → capability_find t type required ≢ 0
unfolding offers
find_complete t handle type required object v e =
    let o = resolve-Opens t handle type required object v e in
    elim (find_cases t type required o.owned) [
      | inl (missing, _) ↦ absurd (
          find_slot_exists (offers type required) empty_entry t.entries (encoded_slot handle - 1)
            (omega (arith, o.in_range, v.size)) (ground (arith, o.same_type, o.has_rights)) missing)
      | inr (slot, found, r) ↦ rw r (
          make_handle-ne-zero slot (entry_at t slot) (
            IsEntry-Fits slot _
              (omega (
                arith,
                (find_slot-some (offers type required) empty_entry t.entries slot found).0,
                v.size,
              ))
              (v.slots slot)))
    ]

-- One if the entry has the type.
abbrev counts : Entry → ℕ → ℕ
counts e type = if e.type == type then 1 else 0

count_entries-set :
    (es : List Entry) (slot : ℕ) (e : Entry) (type : ℕ)
    → slot < length es
    → count_entries (set es slot e) type + counts (get_or es slot empty_entry) type
      ≡ count_entries es type + counts e type
unfolding count_entries
count_entries-set [] slot e type h = absurd (omega arith)
count_entries-set (x ∷ xs) zero e type h = omega arith
count_entries-set (x ∷ xs) (suc slot) e type h =
    omega (arith, count_entries-set xs slot e type (omega arith))

-- A successful grant adds one capability of its type, and none of any other type.
pub count-grant :
    (t : Table) (type rights object other : ℕ)
    → IsValid t
    → rights < 2 ^ 16
    → other ≢ 0
    → (capability_grant t type rights object).1 ≢ 0
    → capability_count_type (capability_grant t type rights object).0 other
      ≡ capability_count_type t other + (if type == other then 1 else 0)
unfolding capability_count_type
count-grant t type rights object other v w ne h = elim (grant_cases t type rights object v w) [
  | inl e ↦ absurd (h (ap (λ p. p.1) e))
  | inr (slot, g) ↦
      let e : Entry = granted (entry_at t slot) type rights object in
      let step = count_entries-set t.entries slot e other (omega (arith, g.in_range, v.size)) in
      let old : counts (entry_at t slot) other ≡ 0 = ground (arith, g.was_empty) in
      let small : type % 2 ^ 16 ≡ type = omega (arith, g.accepted.known) in
      let new : counts e other ≡ (if type == other then 1 else 0) = rw small refl in
      rw g.result (omega (arith, step, old, new))
]
