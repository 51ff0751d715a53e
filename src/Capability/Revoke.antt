-- ===== src/Capability/Revoke.antt =====
-- src/capability.c `capability_revoke`: the handle that is revoked, and the other handles.
use argusos_uefi_v.Base.{
  ℕ, ◌-◌, ◌^◌, ◌<◌, ◌≡◌, ◌≢◌, ◌⊎◌, inl, inr, refl, sym, ◌∙◌, ap, some, none, true, false, arith,
  set, Option-cases,
}
use argusos_uefi_v.Capability.{
  Entry, Table, empty_entry, entry_at, make_handle, capability_max, encoded_slot, allowed_rights,
  next_generation, capability_resolve, capability_revoke,
}
use argusos_uefi_v.Capability.Handle.{make_handle-Decodes, make_handle-ne-zero, make_handle_sum}
use argusos_uefi_v.Capability.Invariant.{
  IsEntry, IsValid, IsEntry-Fits, set-IsValid, entry_at-set_self, entry_at-set_ne,
}
use argusos_uefi_v.Capability.Resolve.{Opens-resolve, resolve-Opens, Opens-transfer}

-- What is left in a slot after a revocation.
abbrev pub revoked : Entry → Entry
revoked e = record empty_entry { generation = next_generation e.generation }

-- What a successful revocation did: it emptied the slot whose handle it was given.
pub record Revokes (t : Table) (handle slot : ℕ) : Type 0 where
  pub in_range : slot < capability_max
  pub is_handle : make_handle slot (entry_at t slot) ≡ handle
  pub was_full : (entry_at t slot).type ≢ 0
  pub result :
      capability_revoke t handle
      ≡ (record t { entries = set t.entries slot (revoked (entry_at t slot)) }, true)

pub revoke_cases :
    (t : Table) (handle : ℕ)
    → (capability_revoke t handle ≡ (t, false)) ⊎ Revokes t handle (encoded_slot handle - 1)
unfolding capability_revoke
revoke_cases t handle = ground arith

next_generation_lem :
    (g : ℕ)
    → (next_generation g < 2 ^ 32) × (next_generation g ≢ 0) × (g < 2 ^ 32 → next_generation g ≢ g)
unfolding next_generation
next_generation_lem g = (ground arith, ground arith, λ h. ground arith)

revoked-IsEntry : (e : Entry) → IsEntry (revoked e)
unfolding allowed_rights
revoked-IsEntry e = record {
  generation_width = (next_generation_lem e.generation).0;
  known_type = omega arith;
  rights_width = omega arith;
  within_allowed = refl;
}

revoked-IsValid :
    (t : Table) (slot : ℕ)
    → IsValid t
    → IsValid (record t { entries = set t.entries slot (revoked (entry_at t slot)) })
revoked-IsValid t slot v =
    set-IsValid t slot (revoked (entry_at t slot)) (revoked-IsEntry (entry_at t slot)) v

-- The table stays well formed, whatever handle is given.
pub revoke-IsValid : (t : Table) (handle : ℕ) → IsValid t → IsValid (capability_revoke t handle).0
revoke-IsValid t handle v = elim (revoke_cases t handle) [
  | inl same ↦ rw same v
  | inr r ↦ rw r.result (revoked-IsValid t _ v)
]

-- The new generation tells the handle that was revoked from the one that the slot has now.
fresh_handle :
    (slot : ℕ) (e : Entry)
    → slot < capability_max
    → IsEntry e
    → make_handle slot (revoked e) ≢ make_handle slot e
fresh_handle slot e h v = omega (
  arith,
  make_handle_sum slot e (IsEntry-Fits slot e h v),
  make_handle_sum slot (revoked e) (IsEntry-Fits slot (revoked e) h (revoked-IsEntry e)),
  (next_generation_lem e.generation).2 v.generation_width,
)

-- After a revocation the handle gives no access of any type or rights.
pub revoke-resolve :
    (t : Table) (handle type required : ℕ)
    → IsValid t
    → (capability_revoke t handle).1 ≡ true
    → capability_resolve (capability_revoke t handle).0 handle type required ≡ none
revoke-resolve t handle type required v done = elim (revoke_cases t handle) [
  | inl same ↦ cc
  | inr r ↦ rw r.result (
      let slot = encoded_slot handle - 1 in
      let t' : Table = record t { entries = set t.entries slot (revoked (entry_at t slot)) } in
      elim (Option-cases (capability_resolve t' handle type required)) [
        | inl gone ↦ gone
        | inr (object, e) ↦
            let o = resolve-Opens t' handle type required object (revoked-IsValid t slot v) e in
            absurd (
              fresh_handle slot (entry_at t slot) r.in_range (v.slots slot) (
                ap (make_handle slot) (sym (entry_at-set_self t slot _ v r.in_range))
                ∙ sym o.is_handle
                ∙ sym r.is_handle))
      ])
]

-- Every other handle of a capability keeps the access that it gave.
pub revoke_keeps :
    (t : Table) (handle other type required object : ℕ)
    → IsValid t
    → other ≢ handle
    → capability_resolve t other type required ≡ some object
    → capability_resolve (capability_revoke t handle).0 other type required ≡ some object
revoke_keeps t handle other type required object v ne e = elim (revoke_cases t handle) [
  | inl same ↦ rw same e
  | inr r ↦ rw r.result (
      let o = resolve-Opens t other type required object v e in
      Opens-resolve _ other type required object _ (revoked-IsValid t _ v) (
        Opens-transfer t _ other type required object _ o refl (
          entry_at-set_ne t _ _ _ (λ same_slot.
            ne (
              o.is_handle
              ∙ ap (λ s. make_handle s (entry_at t s)) (sym same_slot)
              ∙ r.is_handle)))))
]

-- A handle that gives access to a capability can be revoked.
pub revoke_succeeds :
    (t : Table) (handle type required object : ℕ)
    → IsValid t
    → type ≢ 0
    → capability_resolve t handle type required ≡ some object
    → (capability_revoke t handle).1 ≡ true
unfolding capability_revoke
revoke_succeeds t handle type required object v live e =
    let o = resolve-Opens t handle type required object v e in
    let f = IsEntry-Fits _ (entry_at t (encoded_slot handle - 1)) o.in_range (v.slots _) in
    let d = make_handle-Decodes _ _ f in
    ground
      (arith, make_handle-ne-zero _ _ f, o.is_handle, d.tag, d.slot_back, o.in_range, o.same_type)
