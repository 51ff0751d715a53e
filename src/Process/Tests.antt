-- ===== src/Process/Tests.antt =====
-- A run of the network grants' self test, and the theorems at two lives.
use argusos_uefi_v.Base.{ℕ, ◌≡◌, refl, true, some, find_slot, arith}
use argusos_uefi_v.Capability.{
  Table, capability_grant, capability_resolve, capability_revoke, capability_table_init,
  make_handle, entry_matches,
}
use argusos_uefi_v.Capability.Kind
use argusos_uefi_v.Capability.Right
use argusos_uefi_v.Anonymity.{tor_transport, browser_network, anonymity_capability_allowed}
use argusos_uefi_v.Process.{grant_process_capability, process_capability_policy_self_test}
use argusos_uefi_v.Process.Network.{Holds, created, after_grant, raw_network_needs_transport}

self_test_passes : process_capability_policy_self_test ≡ true
unfolding process_capability_policy_self_test anonymity_capability_allowed capability_grant
    capability_revoke capability_table_init make_handle find_slot
self_test_passes = refl

abbrev transport_table : Table
transport_table =
    (grant_process_capability tor_transport (capability_table_init 7) Kind.raw_network Right.connect
      9).0

abbrev transport_handle : ℕ
transport_handle =
    (grant_process_capability tor_transport (capability_table_init 7) Kind.raw_network Right.connect
      9).1

transport_holds : Holds tor_transport 7 transport_table
transport_holds = after_grant Kind.raw_network Right.connect 9 (omega arith) created

handle_opens :
    capability_resolve transport_table transport_handle Kind.raw_network Right.connect ≡ some 9
unfolding grant_process_capability anonymity_capability_allowed capability_grant capability_resolve
    capability_table_init make_handle find_slot entry_matches
handle_opens = refl

raw_network_needs_transport_example : tor_transport ≡ tor_transport
raw_network_needs_transport_example =
    raw_network_needs_transport tor_transport 7 transport_table transport_handle Right.connect 9
      transport_holds handle_opens

abbrev browser_table : Table
browser_table =
    (grant_process_capability browser_network (capability_table_init 8) Kind.anonymous_stream
      Right.connect 5).0

abbrev browser_handle : ℕ
browser_handle =
    (grant_process_capability browser_network (capability_table_init 8) Kind.anonymous_stream
      Right.connect 5).1

browser_holds : Holds browser_network 8 browser_table
browser_holds = after_grant Kind.anonymous_stream Right.connect 5 (omega arith) created

stream_opens :
    capability_resolve browser_table browser_handle Kind.anonymous_stream Right.connect ≡ some 5
unfolding grant_process_capability anonymity_capability_allowed capability_grant capability_resolve
    capability_table_init make_handle find_slot entry_matches
stream_opens = refl
