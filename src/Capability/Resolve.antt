-- ===== src/Capability/Resolve.antt =====
-- src/capability.c `capability_resolve`: which handles give access, and to what.
use Prim.Native.Nat.{bit_and}
use argusos_uefi_v.Base.{ℕ, ◌+◌, ◌-◌, ◌<◌, ◌≡◌, ◌≢◌, sym, ap, ◌∙◌, some, arith}
use argusos_uefi_v.Base.Words.{shr}
use argusos_uefi_v.Capability.{
  Entry, Table, entry_at, make_handle, capability_max, handle_tag, encoded_slot, encoded_type,
  encoded_generation, entry_matches, capability_resolve,
}
use argusos_uefi_v.Capability.Handle.{Decodes, make_handle-Decodes, Decodes-make_handle}
use argusos_uefi_v.Capability.Invariant.{IsValid, IsEntry-Fits}

-- What a handle must be to give `required` rights of `type` on `object`.
pub record Opens (t : Table) (handle type required object slot : ℕ) : Type 0 where
  pub in_range : slot < capability_max
  pub is_handle : handle ≡ make_handle slot (entry_at t slot)
  pub owned : t.principal ≢ 0
  pub same_type : (entry_at t slot).type ≡ type
  pub has_rights : bit_and (entry_at t slot).rights required ≡ required
  pub same_object : (entry_at t slot).object ≡ object

-- The checks of `capability_resolve`, all passed at a slot.
record Passed (t : Table) (handle type required object slot : ℕ) : Type 0 where
  tagged : shr handle 48 ≡ handle_tag
  owned : t.principal ≢ 0
  slot_back : encoded_slot handle ≡ slot + 1
  in_range : slot < capability_max
  same_type : (entry_at t slot).type ≡ type
  type_back : encoded_type handle ≡ type
  generation_back : (entry_at t slot).generation ≡ encoded_generation handle
  has_rights : bit_and (entry_at t slot).rights required ≡ required
  same_object : (entry_at t slot).object ≡ object

resolve-Passed :
    (t : Table) (handle type required object : ℕ)
    → capability_resolve t handle type required ≡ some object
    → Passed t handle type required object (encoded_slot handle - 1)
unfolding capability_resolve entry_matches
resolve-Passed t handle type required object e = ground arith

Passed-resolve :
    (t : Table) (handle type required object slot : ℕ)
    → Passed t handle type required object slot
    → capability_resolve t handle type required ≡ some object
unfolding capability_resolve entry_matches
Passed-resolve t handle type required object slot p = ground arith

-- In a well-formed table a handle resolves only if it is the handle that the table gives to a slot
-- whose entry has the type, the rights and the object: no other word opens anything.
pub resolve-Opens :
    (t : Table) (handle type required object : ℕ)
    → IsValid t
    → capability_resolve t handle type required ≡ some object
    → Opens t handle type required object (encoded_slot handle - 1)
resolve-Opens t handle type required object v e = record {
  in_range = p.in_range;
  is_handle =
      Decodes-make_handle handle slot (entry_at t slot)
        (IsEntry-Fits slot (entry_at t slot) p.in_range (v.slots slot))
        (record {
          tag = p.tagged;
          slot_back = p.slot_back;
          type_back = omega (arith, p.type_back, p.same_type);
          generation_back = sym p.generation_back;
        });
  owned = p.owned;
  same_type = p.same_type;
  has_rights = p.has_rights;
  same_object = p.same_object;
}
  where
    slot : ℕ
    slot = encoded_slot handle - 1

    p : Passed t handle type required object slot
    p = resolve-Passed t handle type required object e

-- The handle of a slot's entry resolves to the entry's object, for its type and for any rights
-- among its own.
pub Opens-resolve :
    (t : Table) (handle type required object slot : ℕ)
    → IsValid t
    → Opens t handle type required object slot
    → capability_resolve t handle type required ≡ some object
Opens-resolve t handle type required object slot v o =
    rw o.is_handle (Passed-resolve t (make_handle slot e) type required object slot passed)
  where
    e : Entry
    e = entry_at t slot

    d : Decodes (make_handle slot e) slot e
    d = make_handle-Decodes slot e (IsEntry-Fits slot e o.in_range (v.slots slot))

    passed : Passed t (make_handle slot e) type required object slot
    passed = record {
      tagged = d.tag;
      owned = o.owned;
      slot_back = d.slot_back;
      in_range = o.in_range;
      same_type = o.same_type;
      type_back = d.type_back ∙ o.same_type;
      generation_back = sym d.generation_back;
      has_rights = o.has_rights;
      same_object = o.same_object;
    }

-- A handle opens its slot in another table that has the same entry there.
pub Opens-transfer :
    (t t' : Table) (handle type required object slot : ℕ)
    → Opens t handle type required object slot
    → t'.principal ≡ t.principal
    → entry_at t' slot ≡ entry_at t slot
    → Opens t' handle type required object slot
Opens-transfer t t' handle type required object slot o p e = record {
  in_range = o.in_range;
  is_handle = o.is_handle ∙ ap (make_handle slot) (sym e);
  owned = rw p o.owned;
  same_type = ap (λ x. x.type) e ∙ o.same_type;
  has_rights = ap (λ x. bit_and x.rights required) e ∙ o.has_rights;
  same_object = ap (λ x. x.object) e ∙ o.same_object;
}
