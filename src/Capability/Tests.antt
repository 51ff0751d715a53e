-- ===== src/Capability/Tests.antt =====
-- Runs of the capability table, and the theorems at concrete tables.
use Prim.Native.Nat.{bit_and}
use argusos_uefi_v.Base.{ℕ, ◌-◌, ◌≡◌, ◌≢◌, refl, some, none, true, arith, find_slot}
use argusos_uefi_v.Capability.{
  Table, make_handle, capability_table_init, capability_grant, capability_resolve,
  capability_revoke, capability_find, capability_count_type, allowed_rights, entry_matches, offers,
  encoded_slot,
}
use argusos_uefi_v.Capability.Kind
use argusos_uefi_v.Capability.Right
use argusos_uefi_v.Capability.SelfTest.{capability_self_test}
use argusos_uefi_v.Capability.Invariant.{IsValid}
use argusos_uefi_v.Capability.Resolve.{Opens, resolve-Opens}
use argusos_uefi_v.Capability.Grant.{grant-IsValid, grant-resolve, grant_keeps}
use argusos_uefi_v.Capability.Revoke.{revoke-IsValid, revoke-resolve, revoke_keeps}
use argusos_uefi_v.Capability.Authority.{fresh, after_grant, init-IsValid, resolve_within_allowed}

self_test_passes : capability_self_test ≡ true
unfolding capability_self_test capability_table_init capability_grant capability_resolve
    capability_revoke capability_count_type find_slot make_handle entry_matches
self_test_passes = refl

abbrev start : Table
start = capability_table_init 11

-- A process with a clock, and then with a surface too.
abbrev one : Table
one = (capability_grant start Kind.clock Right.read 5).0

abbrev two : Table
two = (capability_grant one Kind.surface Right.present 6).0

abbrev clock_handle : ℕ
clock_handle = (capability_grant start Kind.clock Right.read 5).1

abbrev surface_handle : ℕ
surface_handle = (capability_grant one Kind.surface Right.present 6).1

one-IsValid : IsValid one
one-IsValid = grant-IsValid start Kind.clock Right.read 5 (init-IsValid 11) (omega arith)

two-IsValid : IsValid two
two-IsValid = grant-IsValid one Kind.surface Right.present 6 one-IsValid (omega arith)

clock_resolves : capability_resolve one clock_handle Kind.clock Right.read ≡ some 5
unfolding capability_table_init capability_grant capability_resolve find_slot make_handle
    entry_matches
clock_resolves = refl

clock_resolves_in_two : capability_resolve two clock_handle Kind.clock Right.read ≡ some 5
unfolding capability_table_init capability_grant capability_resolve find_slot make_handle
    entry_matches
clock_resolves_in_two = refl

resolve-Opens_example :
    Opens one clock_handle Kind.clock Right.read 5 (encoded_slot clock_handle - 1)
resolve-Opens_example =
    resolve-Opens one clock_handle Kind.clock Right.read 5 one-IsValid clock_resolves

clock_handle-ne-zero : clock_handle ≢ 0
unfolding capability_table_init capability_grant find_slot make_handle
clock_handle-ne-zero = omega arith

handles_differ : clock_handle ≢ surface_handle
unfolding capability_table_init capability_grant find_slot make_handle
handles_differ = omega arith

clock_revoked : (capability_revoke one clock_handle).1 ≡ true
unfolding capability_table_init capability_grant capability_revoke find_slot make_handle
clock_revoked = refl

grant-IsValid_example : IsValid (capability_grant one Kind.surface Right.present 6).0
grant-IsValid_example = grant-IsValid one Kind.surface Right.present 6 one-IsValid (omega arith)

grant-resolve_example : capability_resolve one clock_handle Kind.clock Right.read ≡ some 5
grant-resolve_example =
    grant-resolve start Kind.clock Right.read Right.read 5 (init-IsValid 11) (omega arith)
      clock_handle-ne-zero refl

grant_keeps_example : capability_resolve two clock_handle Kind.clock Right.read ≡ some 5
grant_keeps_example =
    grant_keeps one Kind.surface Right.present 6 clock_handle Kind.clock Right.read 5 one-IsValid
      (omega arith) (omega arith) clock_resolves

revoke-IsValid_example : IsValid (capability_revoke one clock_handle).0
revoke-IsValid_example = revoke-IsValid one clock_handle one-IsValid

revoke-resolve_example :
    capability_resolve (capability_revoke one clock_handle).0 clock_handle Kind.clock 0 ≡ none
revoke-resolve_example = revoke-resolve one clock_handle Kind.clock 0 one-IsValid clock_revoked

revoke_keeps_example :
    capability_resolve (capability_revoke two surface_handle).0 clock_handle Kind.clock Right.read
    ≡ some 5
revoke_keeps_example =
    revoke_keeps two surface_handle clock_handle Kind.clock Right.read 5 two-IsValid handles_differ
      clock_resolves_in_two

resolve_within_allowed_example : bit_and (allowed_rights Kind.clock) Right.read ≡ Right.read
resolve_within_allowed_example =
    resolve_within_allowed 11 one clock_handle Kind.clock Right.read 5
      (after_grant Kind.clock Right.read 5 (omega arith) fresh) clock_resolves

found-ne-zero : capability_find two Kind.surface Right.present ≢ 0
unfolding capability_table_init capability_grant capability_find offers find_slot make_handle
found-ne-zero = omega arith
