-- ===== src/Anonymity/Transport.antt =====
-- src/anonymity.c `anonymity_transport_update`: the state machine of the transport.
use mathlib.Core.Logic.{◌↔◌}
use argusos_uefi_v.Base.{
  ℕ, ◌≡◌, ◌≢◌, ◌≤◌, ◌⊎◌, inl, inr, refl, ap, Bool, true, List, [], ◌∷◌, ◌++◌, if◌then◌else◌,
  Bool-cases, ℕ-eq-cases, arith,
}
use argusos_uefi_v.Anonymity.{
  Request, update, run, offline, bootstrapping, ready, failed, tor_transport, valid_update,
  anonymity_transport_update,
}

-- The changes of state that the policy means to allow.
pub data Moves : ℕ → ℕ → Type 0 where
  starts : Moves offline bootstrapping
  connects : Moves bootstrapping ready
  gives_up : Moves bootstrapping failed
  loses : Moves ready failed
  retries : Moves failed bootstrapping
  cancels : Moves bootstrapping offline
  disconnects : Moves ready offline
  resets : Moves failed offline

Moves-valid_update : (state next : ℕ) → Moves state next → valid_update state next ≡ true
unfolding valid_update
Moves-valid_update _ _ starts = refl
Moves-valid_update _ _ connects = refl
Moves-valid_update _ _ gives_up = refl
Moves-valid_update _ _ loses = refl
Moves-valid_update _ _ retries = refl
Moves-valid_update _ _ cancels = refl
Moves-valid_update _ _ disconnects = refl
Moves-valid_update _ _ resets = refl

move : (a b state next : ℕ) → Moves a b → state ≡ a → next ≡ b → Moves state next
move a b state next m e f = rw (e, f) m

valid_update_cases :
    (state next : ℕ)
    → valid_update state next ≡ true
    → ((state ≡ offline) × (next ≡ bootstrapping))
      ⊎ ((state ≡ bootstrapping) × ((next ≡ ready) ⊎ ((next ≡ failed) ⊎ (next ≡ offline))))
      ⊎ ((state ≡ ready) × ((next ≡ failed) ⊎ (next ≡ offline)))
      ⊎ ((state ≡ failed) × ((next ≡ bootstrapping) ⊎ (next ≡ offline)))
unfolding valid_update
valid_update_cases state next h = ground arith

valid_update-Moves : (state next : ℕ) → valid_update state next ≡ true → Moves state next
valid_update-Moves state next h = elim (valid_update_cases state next h) [
  | inl (e, f) ↦ move offline bootstrapping state next starts e f
  | inr (inl (e, inl f)) ↦ move bootstrapping ready state next connects e f
  | inr (inl (e, inr (inl f))) ↦ move bootstrapping failed state next gives_up e f
  | inr (inl (e, inr (inr f))) ↦ move bootstrapping offline state next cancels e f
  | inr (inr (inl (e, inl f))) ↦ move ready failed state next loses e f
  | inr (inr (inl (e, inr f))) ↦ move ready offline state next disconnects e f
  | inr (inr (inr (e, inl f))) ↦ move failed bootstrapping state next retries e f
  | inr (inr (inr (e, inr f))) ↦ move failed offline state next resets e f
]

-- Each state that `Moves` reaches is one of the four.
Moves-le : (state next : ℕ) → Moves state next → next ≤ failed
Moves-le _ _ starts = omega arith
Moves-le _ _ connects = omega arith
Moves-le _ _ gives_up = omega arith
Moves-le _ _ loses = omega arith
Moves-le _ _ retries = omega arith
Moves-le _ _ cancels = omega arith
Moves-le _ _ disconnects = omega arith
Moves-le _ _ resets = omega arith

-- An update succeeds exactly for an authenticated Tor transport that asks for one of the moves,
-- and it then enters the state asked for; a refused one leaves the state.
pub update_iff :
    (state caller next : ℕ) (authenticated : Bool)
    → (((anonymity_transport_update state caller next authenticated).1 ≡ true)
        ↔ ((caller ≡ tor_transport) × (authenticated ≡ true) × Moves state next))
      × ((anonymity_transport_update state caller next authenticated).0 ≡ (
          if (anonymity_transport_update state caller next authenticated).1 then next else state))
unfolding anonymity_transport_update
update_iff state caller next authenticated = elim (Bool-cases (valid_update state next)) [
  | inl valid ↦
      let moves : Moves state next = valid_update-Moves state next valid in
      let small = Moves-le state next moves in
      ((λ e. (ground arith, ground arith, moves), λ (c, a, m). ground arith), ground arith)
  | inr invalid ↦ (
    (
      λ e. absurd (ground arith),
      λ (c, a, m). absurd (ground (arith, Moves-valid_update state next m)),
    ),
    ground arith,
  )
]

-- How a run from another state came to `ready`: the requests before, the one that got there from
-- `bootstrapping`, and those after it.
pub record Connected (state : ℕ) (requests : List Request) : Type 0 where
  pub earlier : List Request
  pub report : Request
  pub later : List Request
  pub split : requests ≡ earlier ++ (report ∷ later)
  pub handshake : run state earlier ≡ bootstrapping
  pub by_transport : report.caller ≡ tor_transport
  pub authentic : report.authenticated ≡ true
  pub announces : report.next ≡ ready

update-ready :
    (state : ℕ) (r : Request)
    → state ≢ ready
    → update state r ≡ ready
    → (state ≡ bootstrapping)
      × (r.caller ≡ tor_transport)
      × (r.authenticated ≡ true)
      × (r.next ≡ ready)
unfolding anonymity_transport_update valid_update
update-ready state r other e = ground arith

pub run-Connected :
    (state : ℕ) (requests : List Request)
    → state ≢ ready
    → run state requests ≡ ready
    → Connected state requests
run-Connected state [] other e = absurd (other e)
run-Connected state (r ∷ rs) other e = elim (ℕ-eq-cases (update state r) ready) [
  | inl now ↦
      let (from, by_transport, authentic, announces) = update-ready state r other now in
      record {
        earlier = [];
        report = r;
        later = rs;
        split = refl;
        handshake = from;
        by_transport = by_transport;
        authentic = authentic;
        announces = announces;
      }
  | inr not_yet ↦
      let c = run-Connected (update state r) rs not_yet e in
      record {
        earlier = r ∷ c.earlier;
        report = c.report;
        later = c.later;
        split = ap (λ xs. r ∷ xs) c.split;
        handshake = c.handshake;
        by_transport = c.by_transport;
        authentic = c.authentic;
        announces = c.announces;
      }
]
