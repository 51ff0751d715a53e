-- ===== src/Anonymity/SelfTest.antt =====
-- src/anonymity.c `anonymity_policy_self_test`, which the kernel runs when it starts.
use argusos_uefi_v.Base.{ℕ, ◌==◌, Bool, true, false, not, ◌||◌, if◌then◌else◌}
use argusos_uefi_v.Anonymity.{
  utility, browser_ui, renderer, browser_network, tor_transport, offline, bootstrapping, ready,
  failed, anonymity_policy_init, anonymity_capability_allowed, anonymity_transport_update,
  anonymity_connection_allowed, anonymity_clearnet_allowed, anonymity_local_dns_allowed,
}
use argusos_uefi_v.Capability.Kind
use argusos_uefi_v.Capability.Right

-- The calls from the state after the handshake on.
unfoldable pub connected_test : ℕ → Bool
connected_test state =
    let (lost, failing) = anonymity_transport_update state tor_transport failed true in
    if not (anonymity_connection_allowed state browser_network Kind.anonymous_stream Right.connect)
      || anonymity_connection_allowed state browser_ui Kind.anonymous_stream Right.connect
      || not failing
      || anonymity_connection_allowed lost browser_network Kind.anonymous_stream Right.connect
    then false
    else anonymity_policy_init == offline

-- The calls that change the state, from the state that the refused ones leave.
unfoldable pub handshake_test : ℕ → Bool
unfolding connected_test
handshake_test state =
    let (s1, by_ui) = anonymity_transport_update state browser_ui bootstrapping true in
    let (s2, early) = anonymity_transport_update s1 tor_transport ready true in
    let (s3, started) = anonymity_transport_update s2 tor_transport bootstrapping true in
    let (s4, finished) = anonymity_transport_update s3 tor_transport ready true in
    if by_ui || early || not started || not finished then false else connected_test s4

unfoldable pub anonymity_policy_self_test : Bool
unfolding handshake_test
anonymity_policy_self_test =
    if anonymity_clearnet_allowed
      || anonymity_local_dns_allowed
      || anonymity_capability_allowed utility Kind.raw_network Right.connect
      || anonymity_capability_allowed renderer Kind.anonymous_stream Right.connect
      || not (anonymity_capability_allowed tor_transport Kind.raw_network Right.connect)
      || not (anonymity_capability_allowed browser_network Kind.anonymous_stream Right.connect)
      || anonymity_connection_allowed anonymity_policy_init browser_network Kind.anonymous_stream
          Right.connect
    then false
    else handshake_test anonymity_policy_init
