-- ===== src/Capability/SelfTest.antt =====
-- src/capability.c `capability_self_test`, which the kernel runs when it starts.
use Prim.Native.Nat.{bit_xor}
use argusos_uefi_v.Base.{
  ℕ, ◌==◌, Bool, true, false, not, ◌&&◌, ◌||◌, Option, none, some, if◌then◌else◌,
}
use argusos_uefi_v.Base.Words.{shl64}
use argusos_uefi_v.Capability.{
  Table, capability_table_init, capability_grant, capability_resolve, capability_revoke,
  capability_count_type,
}
use argusos_uefi_v.Capability.Kind
use argusos_uefi_v.Capability.Right

abbrev resolves : Option ℕ → Bool
resolves none = false
resolves (some object) = true

abbrev resolves_to : Option ℕ → ℕ → Bool
resolves_to none expected = false
resolves_to (some object) expected = object == expected

-- The last part: the slot is granted again under another handle, and a right that the type does
-- not have is refused.
unfoldable pub regrant_test : Table → ℕ → Bool
regrant_test first clock =
    let (first', replacement) = capability_grant first Kind.clock Right.read 7 in
    not (replacement == 0)
    && not (replacement == clock)
    && (capability_grant first' Kind.raw_network Right.read 0).1 == 0

unfoldable pub revoke_test : Table → ℕ → Bool
unfolding regrant_test
revoke_test first clock =
    let (first', done) = capability_revoke first clock in
    if not done || resolves (capability_resolve first' clock Kind.clock Right.read)
    then false
    else regrant_test first' clock

unfoldable pub capability_self_test : Bool
unfolding revoke_test
capability_self_test =
    let second = capability_table_init 12 in
    let (first, clock) =
      capability_grant (capability_table_init 11) Kind.clock Right.read 0x1122_3344 in
    if clock == 0
      || not (resolves_to (capability_resolve first clock Kind.clock Right.read) 0x1122_3344)
      || resolves (capability_resolve first clock Kind.clock Right.write)
      || resolves (capability_resolve first (bit_xor clock (shl64 1 20)) Kind.clock Right.read)
      || resolves (capability_resolve second clock Kind.clock Right.read)
      || not (capability_count_type first Kind.clock == 1)
    then false
    else revoke_test first clock
