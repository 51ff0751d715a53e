-- ===== src/Anonymity/Policy.antt =====
-- src/anonymity.c `anonymity_connection_allowed`: which connections the policy allows.
use argusos_uefi_v.Base.{ℕ, ◌≡◌, true, List, arith}
use argusos_uefi_v.Capability.Kind
use argusos_uefi_v.Capability.Right
use argusos_uefi_v.Anonymity.{
  Request, run, offline, browser_network, anonymity_capability_allowed,
  anonymity_connection_allowed,
}
use argusos_uefi_v.Anonymity.Transport.{Connected, run-Connected}

-- From `OFFLINE`, after any sequence of update requests, a connection is allowed only to the
-- browser network process, on an anonymous stream and with the right to connect, and only if an
-- authenticated Tor transport announced `READY` while the state was `BOOTSTRAPPING`.
pub connection-Connected :
    (requests : List Request) (role type rights : ℕ)
    → anonymity_connection_allowed (run offline requests) role type rights ≡ true
    → (role ≡ browser_network)
      × (type ≡ Kind.anonymous_stream)
      × (rights ≡ Right.connect)
      × Connected offline requests
unfolding anonymity_connection_allowed anonymity_capability_allowed
connection-Connected requests role type rights h = (
  ground arith,
  ground arith,
  ground arith,
  run-Connected offline requests (omega arith) (ground arith),
)
