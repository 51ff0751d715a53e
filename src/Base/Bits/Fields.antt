-- ===== src/Base/Bits/Fields.antt =====
-- `|` of disjoint fields is their sum, and `&` with a mask of low ones is a remainder.
use Prim.Native.Nat.{
  ℕ, zero, suc, ◌+◌, ◌-◌, ◌*◌, ◌/◌, ◌%◌, ◌^◌, ◌≤◌, ◌<◌, bit_and, bit_or, bit_xor, bit_and-bitwise,
  min,
}
use mathlib.Core.Path.{◌≡◌, refl, ap, sym, ◌∙◌}
use native.Mathlib.Nat.{pow-suc, one-le-pow, mod-eq_of_lt}
use native.Mathlib.Omega.{arith}
use argusos_uefi_v.Base.Bits.Digits.{bit_or_digit, bit_and_digit, bit_xor_digit, differ-lt}

-- The bound `n` is what the induction runs on.
bit_or-zero_below : (n a : ℕ) → a ≤ n → bit_or a 0 ≡ a
bit_or-zero_below n zero h = refl
bit_or-zero_below zero (suc a) h = absurd (omega arith)
bit_or-zero_below (suc n) (suc a) h =
    omega (arith, bit_or_digit (suc a) 0, bit_or-zero_below n (suc a / 2) (omega arith))

bit_and-zero_below : (n a : ℕ) → a ≤ n → bit_and a 0 ≡ 0
bit_and-zero_below n zero h = refl
bit_and-zero_below zero (suc a) h = absurd (omega arith)
bit_and-zero_below (suc n) (suc a) h =
    omega (arith, bit_and_digit (suc a) 0, bit_and-zero_below n (suc a / 2) (omega arith))

pub bit_or-zero : (a : ℕ) → bit_or a 0 ≡ a
bit_or-zero a = bit_or-zero_below a a (omega arith)

pub zero-bit_and : (b : ℕ) → bit_and 0 b ≡ 0
zero-bit_and b = bit_and-bitwise 0 b

pub bit_and-zero : (a : ℕ) → bit_and a 0 ≡ 0
bit_and-zero a = bit_and-zero_below a a (omega arith)

double_shift : (q k : ℕ) → q * 2 ^ suc k ≡ 2 * (q * 2 ^ k)
double_shift q k = omega (arith, ap (λ (t : ℕ). q * t) (pow-suc 2 k))

bit_or_shifted : (k q r : ℕ) → r < 2 ^ k → bit_or (q * 2 ^ k) r ≡ q * 2 ^ k + r
bit_or_shifted zero q r fits = ground (arith, bit_or-zero q)
bit_or_shifted (suc k) q r fits = ground (
  arith,
  bit_or_digit (q * 2 ^ suc k) r,
  double_shift q k,
  bit_or_shifted k q (r / 2) (omega arith),
)

-- `x | r` where `x` has nothing in the `k` low bits and `r` fits them.
pub bit_or-eq-add : (k q x r : ℕ) → x ≡ q * 2 ^ k → r < 2 ^ k → bit_or x r ≡ x + r
bit_or-eq-add k q x r e fits = rw e (bit_or_shifted k q r fits)

bit_and_low : (k q r : ℕ) → r < 2 ^ k → bit_and (q * 2 ^ k + r) (2 ^ k - 1) ≡ r
bit_and_low zero q r fits = rw bit_and-zero (omega arith)
bit_and_low (suc k) q r fits = ground (
  arith,
  bit_and_digit (q * 2 ^ suc k + r) (2 ^ suc k - 1),
  double_shift q k,
  pow-suc 2 k,
  bit_and_low k q (r / 2) (omega arith),
)

-- `a & ((1 << k) - 1)`.
pub bit_and_mask : (k a : ℕ) → bit_and a (2 ^ k - 1) ≡ a % 2 ^ k
bit_and_mask k a = ground (arith, one-le-pow k 2, bit_and_low k (a / 2 ^ k) (a % 2 ^ k))

-- `^` does not go beyond the width of its arguments.
pub bit_xor-lt : (k a b : ℕ) → a < 2 ^ k → b < 2 ^ k → bit_xor a b < 2 ^ k
bit_xor-lt zero a b ha hb =
    let za : a ≡ 0 = omega arith in let zb : b ≡ 0 = omega arith in rw (za, zb) (omega arith)
bit_xor-lt (suc k) a b ha hb = omega (
  arith,
  pow-suc 2 k,
  bit_xor_digit a b,
  differ-lt (a % 2) (b % 2) (omega arith) (omega arith),
  bit_xor-lt k (a / 2) (b / 2) (omega (arith, pow-suc 2 k)) (omega (arith, pow-suc 2 k)),
)

bit_and_double : (a c : ℕ) → bit_and a (2 * c) ≡ 2 * bit_and (a / 2) c
bit_and_double a c =
    let halved : 2 * c / 2 ≡ c = omega arith in
    bit_and_digit a (2 * c)
    ∙ ap (λ (t : ℕ). bit_and (a / 2) t * 2 + min (a % 2) (2 * c % 2)) halved
    ∙ omega arith

bit_and_shifted :
    (k q r c : ℕ) → r < 2 ^ k → bit_and (q * 2 ^ k + r) (c * 2 ^ k) ≡ bit_and q c * 2 ^ k
bit_and_shifted zero q r c fits =
    let whole : q * 2 ^ 0 + r ≡ q = omega arith in
    let same : c * 2 ^ 0 ≡ c = omega arith in
    ap (λ (t : ℕ). bit_and t (c * 2 ^ 0)) whole ∙ ap (λ (t : ℕ). bit_and q t) same ∙ omega arith
bit_and_shifted (suc k) q r c fits =
    let half : (q * 2 ^ suc k + r) / 2 ≡ q * 2 ^ k + r / 2 = omega (arith, double_shift q k) in
    rw (double_shift c k) (
      bit_and_double (q * 2 ^ suc k + r) (c * 2 ^ k)
      ∙ ap (λ (t : ℕ). 2 * bit_and t (c * 2 ^ k)) half
      ∙ omega (
        arith,
        bit_and_shifted k q (r / 2) c (omega (arith, pow-suc 2 k)),
        double_shift (bit_and q c) k,
      ))

-- `&` with a mask of `w` ones from bit `k` on is that field, in its place.
pub bit_and_field : (k w a : ℕ) → bit_and a ((2 ^ w - 1) * 2 ^ k) ≡ a / 2 ^ k % 2 ^ w * 2 ^ k
bit_and_field k w a =
    let split : a / 2 ^ k * 2 ^ k + a % 2 ^ k ≡ a = ground (arith, one-le-pow k 2) in
    ap (λ (t : ℕ). bit_and t ((2 ^ w - 1) * 2 ^ k)) (sym split)
    ∙ bit_and_shifted k (a / 2 ^ k) (a % 2 ^ k) (2 ^ w - 1) (ground (arith, one-le-pow k 2))
    ∙ ap (λ (t : ℕ). t * 2 ^ k) (bit_and_mask w (a / 2 ^ k))

-- `a & ~((1 << k) - 1)` on a word of `k + w` bits.
pub bit_and_clear_low :
    (k w a : ℕ) → a / 2 ^ k < 2 ^ w → bit_and a ((2 ^ w - 1) * 2 ^ k) ≡ a / 2 ^ k * 2 ^ k
bit_and_clear_low k w a fits = bit_and_field k w a ∙ ap (λ (t : ℕ). t * 2 ^ k) (mod-eq_of_lt fits)
