-- ===== src/Block/SectorSize.antt =====
-- src/block.c `block_device_valid`: the sector sizes that pass the test of `x & (x - 1)`.
use argusos_uefi_v.Base.{ℕ, ◌^◌, ◌≤◌, ◌≡◌, true, arith}
use argusos_uefi_v.Base.Bits.Power.{power_of_two}
use argusos_uefi_v.Block.{Device, block_device_valid}

-- The sector size of a valid device is a power of two, and at least 512.
pub sector_size_power :
    (d : Device)
    → block_device_valid d ≡ true
    → (512 ≤ d.sector_size) × ((k : ℕ) × (d.sector_size ≡ 2 ^ k))
unfolding block_device_valid
sector_size_power d h = (ground arith, power_of_two d.sector_size (ground arith) (ground arith))
