-- ===== src/Anonymity/Tests.antt =====
-- A run of the transport's self test, and the theorems at one life of the transport.
use mathlib.Core.Logic.{◌↔◌}
use argusos_uefi_v.Base.{◌≡◌, refl, true, List, [], ◌∷◌, if◌then◌else◌}
use argusos_uefi_v.Anonymity.{
  Request, run, offline, bootstrapping, ready, tor_transport, browser_network, browser_ui,
  valid_update, anonymity_transport_update, anonymity_connection_allowed,
  anonymity_capability_allowed,
}
use argusos_uefi_v.Anonymity.Transport.{Moves, Connected, update_iff}
use argusos_uefi_v.Anonymity.Policy.{connection-Connected}
use argusos_uefi_v.Anonymity.SelfTest.{anonymity_policy_self_test}
use argusos_uefi_v.Capability.Kind
use argusos_uefi_v.Capability.Right

self_test_passes : anonymity_policy_self_test ≡ true
unfolding anonymity_policy_self_test anonymity_capability_allowed anonymity_transport_update
    anonymity_connection_allowed valid_update
self_test_passes = refl

-- The browser may not announce anything; the transport starts, and reports that it is ready.
abbrev handshake : List Request
handshake =
    record { caller = browser_ui; next = ready; authenticated = true }
    ∷ record { caller = tor_transport; next = bootstrapping; authenticated = true }
    ∷ record { caller = tor_transport; next = ready; authenticated = true }
    ∷ []

connection_opens :
    anonymity_connection_allowed
      (run offline handshake)
      browser_network
      Kind.anonymous_stream
      Right.connect
    ≡ true
unfolding anonymity_capability_allowed anonymity_transport_update anonymity_connection_allowed
    valid_update
connection_opens = refl

connection-Connected_example :
    (browser_network ≡ browser_network)
    × (Kind.anonymous_stream ≡ Kind.anonymous_stream)
    × (Right.connect ≡ Right.connect)
    × Connected offline handshake
connection-Connected_example =
    connection-Connected handshake browser_network Kind.anonymous_stream Right.connect
      connection_opens

update_iff_example :
    (((anonymity_transport_update bootstrapping tor_transport ready true).1 ≡ true)
      ↔ ((tor_transport ≡ tor_transport) × (true ≡ true) × Moves bootstrapping ready))
    × ((anonymity_transport_update bootstrapping tor_transport ready true).0 ≡ (
        if (anonymity_transport_update bootstrapping tor_transport ready true).1
        then ready
        else bootstrapping))
update_iff_example = update_iff bootstrapping tor_transport ready true
