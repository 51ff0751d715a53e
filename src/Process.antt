-- ===== src/Process.antt =====
-- src/process.c: how a process gets the capabilities of the network. Of the process record only the
-- role `security_role` and the table `capabilities` are read here.
pub mod Network
mod Tests
use argusos_uefi_v.Base.{ℕ, Bool, true, false, not, ◌&&◌, ◌||◌, ◌==◌, if◌then◌else◌}
use argusos_uefi_v.Capability.{Table, capability_grant, capability_revoke, capability_table_init}
use argusos_uefi_v.Capability.Kind
use argusos_uefi_v.Capability.Right
use argusos_uefi_v.Anonymity.{utility, tor_transport, browser_network, anonymity_capability_allowed}

-- `grant_process_capability` with the role and the table of the process.
unfoldable pub grant_process_capability : ℕ → Table → ℕ → ℕ → ℕ → Table × ℕ
grant_process_capability role t type rights object =
    if (type == Kind.anonymous_stream || type == Kind.raw_network)
      && not (anonymity_capability_allowed role type rights)
    then (t, 0)
    else capability_grant t type rights object

-- The part of `process_capability_policy_self_test` that follows the refusals.
unfoldable pub network_grants_test : Table → Bool
unfolding grant_process_capability
network_grants_test t =
    let (with_raw, raw) =
      grant_process_capability tor_transport t Kind.raw_network Right.connect 3 in
    let (without, closed) = capability_revoke with_raw raw in
    let (with_stream, anonymous) =
      grant_process_capability browser_network without Kind.anonymous_stream Right.connect 4 in
    if raw == 0 || not closed
    then false
    else (not (anonymous == 0) && (capability_revoke with_stream anonymous).1)

unfoldable pub process_capability_policy_self_test : Bool
unfolding network_grants_test
process_capability_policy_self_test =
    let t = capability_table_init 0x5345_4355 in
    let (t1, by_utility) = grant_process_capability utility t Kind.raw_network Right.connect 1 in
    let (t2, stream) = grant_process_capability utility t1 Kind.anonymous_stream Right.connect 2 in
    if not (by_utility == 0) || not (stream == 0) then false else network_grants_test t2
