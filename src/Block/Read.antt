-- ===== src/Block/Read.antt =====
-- src/block.c `block_read`: which requests reach the device.
use argusos_uefi_v.Base.{
  ℕ, ◌+◌, ◌-◌, ◌*◌, ◌/◌, ◌^◌, ◌≤◌, ◌<◌, ◌≡◌, ◌≢◌, ◌⊎◌, inl, inr, refl, sym, ◌∙◌, true, none, some,
  List, Option-cases, arith,
}
use native.Mathlib.Nat.{mul-le-mul, le-div_iff_mul-le}
use argusos_uefi_v.Base.Words.{uint64_max}
use argusos_uefi_v.Block.SectorSize.{sector_size_power}
use argusos_uefi_v.Block.{Device, block_device_valid, refuses_read, block_read, block_ok}

-- A request that the device may be asked for: it lies on the device, and the buffer holds it.
pub record IsRequest (d : Device) (first_sector sector_count output_capacity : ℕ) : Type 0 where
  pub valid : block_device_valid d ≡ true
  pub some_sectors : sector_count ≢ 0
  pub on_device : first_sector + sector_count ≤ d.sector_count
  pub in_buffer : sector_count * d.sector_size ≤ output_capacity

-- The product of two 32-bit numbers fits 64 bits, so the test on it never fires.
product-le : (a b : ℕ) → a < 2 ^ 32 → b < 2 ^ 32 → a * b ≤ uint64_max
product-le a b ha hb =
    let below : a * b ≤ (2 ^ 32 - 1) * (2 ^ 32 - 1) =
      mul-le-mul {n₂ = 2 ^ 32 - 1} {m₂ = 2 ^ 32 - 1} (omega arith) (omega arith) in
    omega (arith, below)

quotient_fits : (a b : ℕ) → a < 2 ^ 32 → b < 2 ^ 32 → 0 < b → a ≤ uint64_max / b
quotient_fits a b ha hb pos = (le-div_iff_mul-le pos).1 (product-le a b ha hb)

refuses_read-IsRequest :
    (d : Device) (first_sector sector_count output_capacity : ℕ)
    → d.sector_size < 2 ^ 32
    → sector_count < 2 ^ 32
    → refuses_read d first_sector sector_count output_capacity ≡ none
    → IsRequest d first_sector sector_count output_capacity
unfolding refuses_read
refuses_read-IsRequest d first n capacity hs hn h =
    let fits = product-le n d.sector_size hn hs in
    record {
      valid = ground arith;
      some_sectors = ground arith;
      on_device = ground arith;
      in_buffer = ground arith;
    }

IsRequest-refuses_read :
    (d : Device) (first_sector sector_count output_capacity : ℕ)
    → d.sector_size < 2 ^ 32
    → sector_count < 2 ^ 32
    → IsRequest d first_sector sector_count output_capacity
    → refuses_read d first_sector sector_count output_capacity ≡ none
unfolding refuses_read
IsRequest-refuses_read d first n capacity hs hn r =
    let fits = product-le n d.sector_size hn hs in
    let large = (sector_size_power d r.valid).0 in
    let quotient = quotient_fits n d.sector_size hn hs (omega arith) in
    ground (arith, r.valid, r.some_sectors, r.on_device, r.in_buffer)

refuses_read-ne-ok :
    (d : Device) (first_sector sector_count output_capacity : ℕ) (status : ℕ)
    → refuses_read d first_sector sector_count output_capacity ≡ some status
    → status ≢ block_ok
unfolding refuses_read
refuses_read-ne-ok d first n capacity status h = ground arith

clash : (status : ℕ) → ¬ (some status ≡ none)
clash status e = absurd (ground arith)

-- With a sector size and a sector count of 32 bits, the device is asked exactly for the requests
-- that lie on a valid device and fit the buffer, and its answer is returned. Every other request
-- fails and leaves the buffer as it was.
pub block_read_lem :
    (d : Device) (first_sector sector_count : ℕ) (output : List ℕ) (output_capacity : ℕ)
    → d.sector_size < 2 ^ 32
    → sector_count < 2 ^ 32
    → (IsRequest d first_sector sector_count output_capacity
        × (block_read d first_sector sector_count output output_capacity
            ≡ d.read first_sector sector_count output output_capacity))
      ⊎ (¬ IsRequest d first_sector sector_count output_capacity
          × ((status : ℕ) × (status ≢ block_ok)
              × (block_read d first_sector sector_count output output_capacity ≡ (status, output))))
unfolding block_read
block_read_lem d first n output capacity hs hn =
    elim (Option-cases (refuses_read d first n capacity)) [
      | inl passed ↦
          inl (refuses_read-IsRequest d first n capacity hs hn passed, rw (passed, block_read) refl)
      | inr (status, refused) ↦ inr (
        λ r. clash status (sym refused ∙ IsRequest-refuses_read d first n capacity hs hn r),
        (
          status,
          refuses_read-ne-ok d first n capacity status refused,
          rw (refused, block_read) refl,
        ),
      )
    ]
