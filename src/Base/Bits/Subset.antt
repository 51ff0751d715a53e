-- ===== src/Base/Bits/Subset.antt =====
-- Sets of flags as words: `a & b == b` says that `b` is a subset of `a`.
use Prim.Native.Nat.{ℕ, zero, suc, ◌-◌, ◌*◌, ◌/◌, ◌^◌, ◌≤◌, ◌<◌, bit_and}
use mathlib.Core.Path.{◌≡◌}
use native.Mathlib.Nat.{pow-suc}
use native.Mathlib.Omega.{arith}
use argusos_uefi_v.Base.Bits.Digits.{bit_and_digit}
use argusos_uefi_v.Base.Bits.Fields.{bit_and-zero, zero-bit_and}

-- If `c` lies within `b` and `b` within `a`, then `c` lies within `a`.
subset_trans_below : (n a b c : ℕ) → c ≤ n → bit_and a b ≡ b → bit_and b c ≡ c → bit_and a c ≡ c
subset_trans_below n a b zero h p q = bit_and-zero a
subset_trans_below zero a b (suc c) h p q = absurd (omega arith)
subset_trans_below (suc n) a b (suc c) h p q = omega (
  arith,
  bit_and_digit a b,
  bit_and_digit b (suc c),
  bit_and_digit a (suc c),
  subset_trans_below n (a / 2) (b / 2) (suc c / 2) (omega arith) (omega (arith, bit_and_digit a b))
      (omega (arith, bit_and_digit b (suc c))),
)

pub subset_trans : (a b c : ℕ) → bit_and a b ≡ b → bit_and b c ≡ c → bit_and a c ≡ c
subset_trans a b c p q = subset_trans_below c a b c (omega arith) p q

complement_half : (m v : ℕ) → v < 2 * m → (2 * m - 1 - v) / 2 ≡ m - 1 - v / 2
complement_half m v h = omega arith

-- The flags above the lowest one, of a pair with nothing in common.
disjoint_half :
    (m v r : ℕ) → v < 2 * m → bit_and r (2 * m - 1 - v) ≡ 0 → bit_and (r / 2) (m - 1 - v / 2) ≡ 0
disjoint_half m v r h e =
    rw (← complement_half m v h) (omega (arith, bit_and_digit r (2 * m - 1 - v)))

-- `r & ~v == 0` in `k` bits says that `r` is a subset of `v`.
pub subset_of_complement :
    (k v r : ℕ) → v < 2 ^ k → r < 2 ^ k → bit_and r (2 ^ k - 1 - v) ≡ 0 → bit_and v r ≡ r
subset_of_complement zero v r hv hr e = ground (arith, bit_and-zero v)
subset_of_complement (suc k) v r hv hr e = omega (
  arith,
  pow-suc 2 k,
  bit_and_digit v r,
  bit_and_digit r (2 * 2 ^ k - 1 - v),
  doubled,
  subset_of_complement k (v / 2) (r / 2) (omega (arith, pow-suc 2 k)) (omega (arith, pow-suc 2 k))
      (disjoint_half (2 ^ k) v r (omega (arith, pow-suc 2 k)) doubled),
)
  where
    doubled : bit_and r (2 * 2 ^ k - 1 - v) ≡ 0
    doubled = let m : 2 ^ suc k ≡ 2 * 2 ^ k = omega (arith, pow-suc 2 k) in rw m at e

subset_half : (v r : ℕ) → bit_and v r ≡ r → bit_and (v / 2) (r / 2) ≡ r / 2
subset_half v r e = omega (arith, bit_and_digit v r)

-- A subset of `v` has nothing in common with `~v`.
pub complement_of_subset :
    (k v r : ℕ) → v < 2 ^ k → r < 2 ^ k → bit_and v r ≡ r → bit_and r (2 ^ k - 1 - v) ≡ 0
complement_of_subset zero v r hv hr e =
    let z : r ≡ 0 = omega arith in rw z (zero-bit_and (2 ^ 0 - 1 - v))
complement_of_subset (suc k) v r hv hr e =
    let m : 2 ^ suc k ≡ 2 * 2 ^ k = omega (arith, pow-suc 2 k) in
    let ih : bit_and (r / 2) (2 ^ k - 1 - v / 2) ≡ 0 =
      complement_of_subset k (v / 2) (r / 2) (omega (arith, m)) (omega (arith, m))
        (subset_half v r e) in
    let halves : bit_and (r / 2) ((2 * 2 ^ k - 1 - v) / 2) ≡ 0 =
      rw (complement_half (2 ^ k) v (omega (arith, m))) ih in
    rw m (omega (arith, bit_and_digit v r, bit_and_digit r (2 * 2 ^ k - 1 - v), halves))
