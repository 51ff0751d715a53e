-- ===== src/Anonymity.antt =====
-- src/anonymity.c: the policy of the anonymous transport, a state machine of four states in the
-- static variable `transport_state`, which is passed and returned by value. The enumerations are
-- numbers, as in C, since a caller can pass any; the state itself is one of the four.
pub mod Transport
pub mod Policy
mod SelfTest
mod Tests
use argusos_uefi_v.Base.{
  ℕ, Bool, true, false, not, ◌&&◌, ◌||◌, ltb, ◌==◌, List, [], ◌∷◌, if◌then◌else◌,
}
use argusos_uefi_v.Capability.Kind
use argusos_uefi_v.Capability.Right

-- `argus_security_role_t`.
abbrev pub utility : ℕ
utility = 1

abbrev pub browser_ui : ℕ
browser_ui = 2

abbrev pub renderer : ℕ
renderer = 3

abbrev pub browser_network : ℕ
browser_network = 4

abbrev pub tor_transport : ℕ
tor_transport = 5

-- `argus_anonymity_transport_state_t`.
abbrev pub offline : ℕ
offline = 0

abbrev pub bootstrapping : ℕ
bootstrapping = 1

abbrev pub ready : ℕ
ready = 2

abbrev pub failed : ℕ
failed = 3

-- The state that `anonymity_policy_init` sets.
abbrev pub anonymity_policy_init : ℕ
anonymity_policy_init = offline

unfoldable pub anonymity_capability_allowed : ℕ → ℕ → ℕ → Bool
anonymity_capability_allowed role kind rights =
    if not (rights == Right.connect)
    then false
    else (if kind == Kind.raw_network
        then role == tor_transport
        else (if kind == Kind.anonymous_stream then role == browser_network else false))

-- The table of the state changes that `valid` spells out.
unfoldable pub valid_update : ℕ → ℕ → Bool
valid_update state next =
    (state == offline && next == bootstrapping)
    || (state == bootstrapping && (next == ready || next == failed || next == offline))
    || (state == ready && (next == failed || next == offline))
    || (state == failed && (next == bootstrapping || next == offline))

unfoldable pub anonymity_transport_update : ℕ → ℕ → ℕ → Bool → ℕ × Bool
anonymity_transport_update state caller next authenticated =
    if not (caller == tor_transport) || not authenticated || ltb failed next
    then (state, false)
    else (if not (valid_update state next) then (state, false) else (next, true))

unfoldable pub anonymity_connection_allowed : ℕ → ℕ → ℕ → ℕ → Bool
anonymity_connection_allowed state role kind rights =
    state == ready && kind == Kind.anonymous_stream && anonymity_capability_allowed role kind rights

abbrev pub anonymity_clearnet_allowed : Bool
anonymity_clearnet_allowed = false

abbrev pub anonymity_local_dns_allowed : Bool
anonymity_local_dns_allowed = false

-- A call of `anonymity_transport_update`.
pub record Request : Type 0 where
  pub caller : ℕ
  pub next : ℕ
  pub authenticated : Bool

abbrev pub update : ℕ → Request → ℕ
update state r = (anonymity_transport_update state r.caller r.next r.authenticated).0

-- The state after a sequence of calls.
abbrev pub run : ℕ → List Request → ℕ
run state [] = state
run state (r ∷ rs) = run (update state r) rs
