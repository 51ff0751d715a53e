-- ===== src/Base/Bits/Power.antt =====
-- The numbers that pass the test `(x & (x - 1)) == 0`.
use Prim.Native.Nat.{ℕ, zero, suc, ◌+◌, ◌-◌, ◌*◌, ◌/◌, ◌^◌, ◌≤◌, bit_and}
use mathlib.Core.Path.{◌≡◌, refl, ap}
use mathlib.Core.Logic.{◌≢◌, ◌⊎◌, inl, inr}
use native.Mathlib.Nat.{pow-suc}
use native.Mathlib.Omega.{arith}
use argusos_uefi_v.Base.Bits.Digits.{bit_and_digit}

bit_and_self_below : (n a : ℕ) → a ≤ n → bit_and a a ≡ a
bit_and_self_below n zero h = refl
bit_and_self_below zero (suc a) h = absurd (omega arith)
bit_and_self_below (suc n) (suc a) h =
    omega (arith, bit_and_digit (suc a) (suc a), bit_and_self_below n (suc a / 2) (omega arith))

parity : (a : ℕ) → (a ≡ 2 * (a / 2)) ⊎ (a ≡ 2 * (a / 2) + 1)
parity a = ground arith

even_half : (a : ℕ) → a ≢ 0 → a ≡ 2 * (a / 2) → (a - 1) / 2 ≡ a / 2 - 1
even_half a nz e = omega arith

odd_half : (a : ℕ) → a ≡ 2 * (a / 2) + 1 → (a - 1) / 2 ≡ a / 2
odd_half a e = omega arith

power_below : (n a : ℕ) → a ≤ n → a ≢ 0 → bit_and a (a - 1) ≡ 0 → (k : ℕ) × (a ≡ 2 ^ k)
power_below zero a h nz e = absurd (omega arith)
power_below (suc n) a h nz e = elim (parity a) [
  | inl even ↦
      let halves : bit_and (a / 2) (a / 2 - 1) ≡ 0 =
        omega (
          arith,
          bit_and_digit a (a - 1),
          ap (λ (t : ℕ). bit_and (a / 2) t) (even_half a nz even),
        ) in
      let (k, p) = power_below n (a / 2) (omega arith) (omega arith) halves in
      (suc k, omega (arith, pow-suc 2 k, p))
  | inr odd ↦
      let same : bit_and (a / 2) (a / 2) ≡ 0 =
        omega
          (arith, bit_and_digit a (a - 1), ap (λ (t : ℕ). bit_and (a / 2) t) (odd_half a odd)) in
      (0, omega (arith, bit_and_self_below (a / 2) (a / 2) (omega arith)))
]

pub power_of_two : (a : ℕ) → a ≢ 0 → bit_and a (a - 1) ≡ 0 → (k : ℕ) × (a ≡ 2 ^ k)
power_of_two a nz e = power_below a a (omega arith) nz e
