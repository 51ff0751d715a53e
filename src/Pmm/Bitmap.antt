-- ===== src/Pmm/Bitmap.antt =====
-- The bitmaps of src/pmm.c: `bit_get`, `bit_set` and `bit_clear`, and their laws. An access beyond
-- the storage reads 0 and writes nothing; `Covers` rules it out.
use Prim.Native.Nat.{bit_and, bit_or}
use argusos_uefi_v.Base.{
  ℕ, zero, suc, ◌-◌, ◌*◌, ◌/◌, ◌%◌, ◌^◌, ◌≤◌, ◌<◌, ◌≡◌, refl, inl, inr, Bool, true, false, ◌&&◌,
  List, ◌==◌, ==_iff, if◌then◌else◌, arith, length, get_or, set, length-set, get_or-set_self,
  get_or-set_ne, set_pointwise, ℕ-eq-cases, replicate, get_or-replicate, length-replicate,
}
use argusos_uefi_v.Base.Bits.Fields.{bit_and_mask}
use argusos_uefi_v.Base.Words.{u8, shr}

abbrev pub Bits : Type 0
Bits = List ℕ

-- `(bitmap[page >> 3] >> (page & 7)) & 1`, as the truth value that C makes of it.
unfoldable pub bit_get : Bits → ℕ → Bool
bit_get bitmap page = bit_and (shr (get_or bitmap (shr page 3) 0) (bit_and page 7)) 1 == 1

unfoldable pub bit_set : Bits → ℕ → Bits
bit_set bitmap page =
    set bitmap (shr page 3) (bit_or (get_or bitmap (shr page 3) 0) (u8 (2 ^ bit_and page 7)))

-- `~(1u << (page & 7))`, cut to a byte.
unfoldable pub bit_clear : Bits → ℕ → Bits
bit_clear bitmap page =
    set bitmap (shr page 3) (bit_and (get_or bitmap (shr page 3) 0) (0xFF - 2 ^ bit_and page 7))

-- The storage holds bytes, and covers the first `pages` pages.
pub record Covers (bitmap : Bits) (pages : ℕ) : Type 0 where
  pub room : pages ≤ 8 * length bitmap
  pub bytes : (i : ℕ) → get_or bitmap i 0 < 256

-- Over a small range, check every value by evaluation.
all_below : ℕ → (ℕ → Bool) → Bool
all_below zero test = true
all_below (suc n) test = test n && all_below n test

all_below-test : (n : ℕ) (test : ℕ → Bool) (x : ℕ) → all_below n test ≡ true → x < n → test x ≡ true
unfolding all_below
all_below-test zero test x h lt = absurd (omega arith)
all_below-test (suc n) test x h lt = ground (arith, all_below-test n test x)

bit_of : ℕ → ℕ → ℕ
bit_of b j = bit_and (shr b j) 1

set_test : ℕ → ℕ → ℕ → Bool
set_test b i j = bit_of (bit_or b (u8 (2 ^ i))) j == (if i == j then 1 else bit_of b j)

clear_test : ℕ → ℕ → ℕ → Bool
clear_test b i j = bit_of (bit_and b (0xFF - 2 ^ i)) j == (if i == j then 0 else bit_of b j)

width_test : ℕ → ℕ → Bool
width_test b i = bit_or b (u8 (2 ^ i)) / 256 == 0 && bit_and b (0xFF - 2 ^ i) / 256 == 0

set_table : all_below 8 (λ i. all_below 8 (λ j. all_below 256 (λ b. set_test b i j))) ≡ true
unfolding all_below set_test bit_of
set_table = refl

clear_table : all_below 8 (λ i. all_below 8 (λ j. all_below 256 (λ b. clear_test b i j))) ≡ true
unfolding all_below clear_test bit_of
clear_table = refl

width_table : all_below 8 (λ i. all_below 256 (λ b. width_test b i)) ≡ true
unfolding all_below width_test
width_table = refl

module _ (b i j : ℕ) (hb : b < 256) (hi : i < 8) (hj : j < 8) where
  set_bit_of : bit_of (bit_or b (u8 (2 ^ i))) j ≡ (if i == j then 1 else bit_of b j)
  unfolding set_test
  set_bit_of = (==_iff _ _).0 (
      all_below-test 256 (λ b. set_test b i j) b
        (all_below-test 8 (λ j. all_below 256 (λ b. set_test b i j)) j
          (all_below-test 8 _ i set_table hi) hj)
        hb)

  clear_bit_of : bit_of (bit_and b (0xFF - 2 ^ i)) j ≡ (if i == j then 0 else bit_of b j)
  unfolding clear_test
  clear_bit_of = (==_iff _ _).0 (
      all_below-test 256 (λ b. clear_test b i j) b
        (all_below-test 8 (λ j. all_below 256 (λ b. clear_test b i j)) j
          (all_below-test 8 _ i clear_table hi) hj)
        hb)

bytes_stay :
    (b i : ℕ) → b < 256 → i < 8 → (bit_or b (u8 (2 ^ i)) < 256) × (bit_and b (0xFF - 2 ^ i) < 256)
unfolding width_test
bytes_stay b i hb hi =
    let w = all_below-test 256 (λ b. width_test b i) b (all_below-test 8 _ i width_table hi) hb in
    (ground (arith, w), ground (arith, w))

low_three : (p : ℕ) → bit_and p 7 ≡ p % 8
low_three p = bit_and_mask 3 p

module _ (bitmap : Bits) (pages p q : ℕ) (c : Covers bitmap pages) (h : p < pages) where
  byte : ℕ
  byte = get_or bitmap (p / 8) 0

  -- Reading any bit after setting one.
  pub bit_get-bit_set : bit_get (bit_set bitmap p) q ≡ (if p == q then true else bit_get bitmap q)
  unfolding bit_get bit_set bit_of byte
  bit_get-bit_set = elim (ℕ-eq-cases (p / 8) (q / 8)) [
    | inl same ↦
        let stored =
          get_or-set_self bitmap (p / 8) (bit_or byte (u8 (2 ^ bit_and p 7))) 0
            (omega (arith, c.room)) in
        let table = set_bit_of byte (p % 8) (q % 8) (c.bytes (p / 8)) (omega arith) (omega arith) in
        ground (arith, stored, table, low_three p, low_three q)
    | inr differ ↦
        let kept =
          get_or-set_ne bitmap (p / 8) (q / 8) (bit_or byte (u8 (2 ^ bit_and p 7))) 0 differ in
        ground (arith, kept)
  ]

  -- Reading any bit after clearing one.
  pub bit_get-bit_clear :
      bit_get (bit_clear bitmap p) q ≡ (if p == q then false else bit_get bitmap q)
  unfolding bit_get bit_clear bit_of byte
  bit_get-bit_clear = elim (ℕ-eq-cases (p / 8) (q / 8)) [
    | inl same ↦
        let stored =
          get_or-set_self bitmap (p / 8) (bit_and byte (0xFF - 2 ^ bit_and p 7)) 0
            (omega (arith, c.room)) in
        let table =
          clear_bit_of byte (p % 8) (q % 8) (c.bytes (p / 8)) (omega arith) (omega arith) in
        ground (arith, stored, table, low_three p, low_three q)
    | inr differ ↦
        let kept =
          get_or-set_ne bitmap (p / 8) (q / 8) (bit_and byte (0xFF - 2 ^ bit_and p 7)) 0 differ in
        ground (arith, kept)
  ]

module _ (bitmap : Bits) (pages p : ℕ) (c : Covers bitmap pages) where
  pub bit_set-Covers : Covers (bit_set bitmap p) pages
  unfolding bit_set
  bit_set-Covers = record {
    room = omega (
      arith,
      c.room,
      length-set bitmap (p / 8) (bit_or (get_or bitmap (p / 8) 0) (u8 (2 ^ bit_and p 7))),
    );
    bytes =
        set_pointwise (λ b. b < 256) 0 bitmap (p / 8) _
          (bytes_stay (get_or bitmap (p / 8) 0) (bit_and p 7) (c.bytes (p / 8))
            (omega (arith, low_three p))).0
          c.bytes;
  }

  pub bit_clear-Covers : Covers (bit_clear bitmap p) pages
  unfolding bit_clear
  bit_clear-Covers = record {
    room = omega (
      arith,
      c.room,
      length-set bitmap (p / 8) (bit_and (get_or bitmap (p / 8) 0) (0xFF - 2 ^ bit_and p 7)),
    );
    bytes =
        set_pointwise (λ b. b < 256) 0 bitmap (p / 8) _
          (bytes_stay (get_or bitmap (p / 8) 0) (bit_and p 7) (c.bytes (p / 8))
            (omega (arith, low_three p))).1
          c.bytes;
  }

-- A cleared bitmap has no bit set.
pub bit_get-replicate_zero : (n q : ℕ) → bit_get (replicate n 0) q ≡ false
unfolding bit_get
bit_get-replicate_zero n q =
    let zeros = get_or-replicate {A = ℕ} n (q / 8) 0 in
    let shifted : 0 / 2 ^ bit_and q 7 ≡ 0 = omega arith in rw (zeros, shifted) refl

pub replicate-Covers : (n pages b : ℕ) → pages ≤ 8 * n → b < 256 → Covers (replicate n b) pages
replicate-Covers n pages b h hb = record {
  room = omega (arith, h, length-replicate n b);
  bytes = λ i. byte_of n i;
}
  where
    byte_of : (n i : ℕ) → get_or (replicate n b) i 0 < 256
    byte_of zero i = omega arith
    byte_of (suc n) zero = hb
    byte_of (suc n) (suc i) = byte_of n i
