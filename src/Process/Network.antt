-- ===== src/Process/Network.antt =====
-- src/process.c `grant_process_capability`: over the life of a process, which role can hold a
-- capability of the network.
use argusos_uefi_v.Base.{
  ℕ, zero, suc, ◌+◌, ◌-◌, ◌^◌, ◌≡◌, ◌<◌, inl, inr, refl, false, not, ◌&&◌, ◌||◌, ◌==◌, Bool-cases,
  some, set_pointwise, get_or, arith,
}
use argusos_uefi_v.Capability.{
  Entry, Table, entry_at, empty_entry, granted, capability_resolve, capability_revoke,
  capability_table_init, init_entries, encoded_slot,
}
use argusos_uefi_v.Capability.Invariant.{IsValid}
use argusos_uefi_v.Capability.Resolve.{resolve-Opens}
use argusos_uefi_v.Capability.Grant.{grant_cases, grant-IsValid}
use argusos_uefi_v.Capability.Revoke.{revoked, revoke_cases, revoke-IsValid}
use argusos_uefi_v.Capability.Authority.{init-IsValid}
use argusos_uefi_v.Capability.Kind
use argusos_uefi_v.Anonymity.{tor_transport, browser_network, anonymity_capability_allowed}
use argusos_uefi_v.Process.{grant_process_capability}

-- The tables that a process with this role can come to hold.
pub data Holds (role principal : ℕ) : Table → Type 0 where
  created : Holds role principal (capability_table_init principal)
  after_grant :
      {t : Table} (type rights object : ℕ)
      → rights < 2 ^ 16
      → Holds role principal t
      → Holds role principal (grant_process_capability role t type rights object).0
  after_revoke :
      {t : Table} (handle : ℕ)
      → Holds role principal t
      → Holds role principal (capability_revoke t handle).0

-- A network capability in a cell is one that the policy gives to the role.
record IsPoliced (role : ℕ) (e : Entry) : Type 0 where
  raw : e.type ≡ Kind.raw_network → role ≡ tor_transport
  anonymous : e.type ≡ Kind.anonymous_stream → role ≡ browser_network

empty_entry-IsPoliced : (role : ℕ) (e : Entry) → e.type ≡ 0 → IsPoliced role e
empty_entry-IsPoliced role e h = record {
  raw = λ r. absurd (omega arith);
  anonymous = λ a. absurd (omega arith);
}

init_entries-IsPoliced :
    (role p left slot i : ℕ) → IsPoliced role (get_or (init_entries p left slot) i empty_entry)
unfolding init_entries
init_entries-IsPoliced role p zero slot i = empty_entry-IsPoliced role empty_entry refl
init_entries-IsPoliced role p (suc left) slot zero = empty_entry-IsPoliced role _ refl
init_entries-IsPoliced role p (suc left) slot (suc i) =
    init_entries-IsPoliced role p left (slot + 1) i

allowed-IsPoliced :
    (role : ℕ) (e : Entry) (type rights object : ℕ)
    → type < 2 ^ 16
    → ((type == Kind.anonymous_stream || type == Kind.raw_network)
        && not (anonymity_capability_allowed role type rights))
      ≡ false
    → IsPoliced role (granted e type rights object)
unfolding anonymity_capability_allowed
allowed-IsPoliced role e type rights object fits h = record {
  raw = λ r. ground arith;
  anonymous = λ a. ground arith;
}

grant-IsPoliced :
    (role : ℕ) (t : Table) (type rights object : ℕ)
    → IsValid t
    → rights < 2 ^ 16
    → ((slot : ℕ) → IsPoliced role (entry_at t slot))
    → (slot : ℕ)
    → IsPoliced role (entry_at (grant_process_capability role t type rights object).0 slot)
unfolding grant_process_capability
grant-IsPoliced role t type rights object v w kept slot =
    elim (Bool-cases (
      (type == Kind.anonymous_stream || type == Kind.raw_network)
      && not (anonymity_capability_allowed role type rights))) [
        | inl refused ↦ rw refused (kept slot)
        | inr passed ↦ rw passed (elim (grant_cases t type rights object v w) [
          | inl full ↦ rw full (kept slot)
          | inr (free, g) ↦ rw g.result (
              set_pointwise (IsPoliced role) empty_entry t.entries free
                (granted (entry_at t free) type rights object)
                (allowed-IsPoliced role (entry_at t free) type rights object
                  (omega (arith, g.accepted.known)) passed)
                kept slot)
        ])
      ]

grant_process-IsValid :
    (role : ℕ) (t : Table) (type rights object : ℕ)
    → IsValid t
    → rights < 2 ^ 16
    → IsValid (grant_process_capability role t type rights object).0
unfolding grant_process_capability
grant_process-IsValid role t type rights object v w =
    elim (Bool-cases (
      (type == Kind.anonymous_stream || type == Kind.raw_network)
      && not (anonymity_capability_allowed role type rights))) [
        | inl refused ↦ rw refused v
        | inr passed ↦ rw passed (grant-IsValid t type rights object v w)
      ]

revoke-IsPoliced :
    (role : ℕ) (t : Table) (handle : ℕ)
    → ((slot : ℕ) → IsPoliced role (entry_at t slot))
    → (slot : ℕ) → IsPoliced role (entry_at (capability_revoke t handle).0 slot)
revoke-IsPoliced role t handle kept slot = elim (revoke_cases t handle) [
  | inl e ↦ rw e (kept slot)
  | inr r ↦ rw r.result (
      set_pointwise (IsPoliced role) empty_entry t.entries (encoded_slot handle - 1)
        (revoked (entry_at t (encoded_slot handle - 1))) (empty_entry-IsPoliced role _ refl) kept
        slot)
]

Holds-IsValid : {role principal : ℕ} {t : Table} → Holds role principal t → IsValid t
Holds-IsValid {role} {principal} created = init-IsValid principal
Holds-IsValid {role} (after_grant {t} type rights object w h) =
    grant_process-IsValid role t type rights object (Holds-IsValid h) w
Holds-IsValid (after_revoke {t} handle h) = revoke-IsValid t handle (Holds-IsValid h)

Holds-IsPoliced :
    {role principal : ℕ} {t : Table}
    → Holds role principal t
    → (slot : ℕ) → IsPoliced role (entry_at t slot)
unfolding capability_table_init
Holds-IsPoliced {role} {principal} created slot = init_entries-IsPoliced role principal 16 0 slot
Holds-IsPoliced {role} (after_grant {t} type rights object w h) slot =
    grant-IsPoliced role t type rights object (Holds-IsValid h) w (Holds-IsPoliced h) slot
Holds-IsPoliced {role} (after_revoke {t} handle h) slot =
    revoke-IsPoliced role t handle (Holds-IsPoliced h) slot

-- Whatever a process was granted by `grant_process_capability` and revoked since its table was
-- made, a handle opens the raw network only if its role is that of the Tor transport.
pub raw_network_needs_transport :
    (role principal : ℕ) (t : Table) (handle required object : ℕ)
    → Holds role principal t
    → capability_resolve t handle Kind.raw_network required ≡ some object
    → role ≡ tor_transport
raw_network_needs_transport role principal t handle required object h e =
    (Holds-IsPoliced h (encoded_slot handle - 1)).raw
      (resolve-Opens t handle Kind.raw_network required object (Holds-IsValid h) e).same_type

-- Over the same life of a process, a handle opens an anonymous stream only if its role is that of
-- the browser network process.
pub stream_needs_browser_network :
    (role principal : ℕ) (t : Table) (handle required object : ℕ)
    → Holds role principal t
    → capability_resolve t handle Kind.anonymous_stream required ≡ some object
    → role ≡ browser_network
stream_needs_browser_network role principal t handle required object h e =
    (Holds-IsPoliced h (encoded_slot handle - 1)).anonymous
      (resolve-Opens t handle Kind.anonymous_stream required object (Holds-IsValid h) e).same_type
