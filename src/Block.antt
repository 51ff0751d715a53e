-- ===== src/Block.antt =====
-- src/block.c: the checks in front of a block device, and the device in memory that the kernel
-- starts with. A device is its record with the function that reads; a caller's buffer is a list of
-- at least `output_capacity` bytes, passed and returned; null pointers have no counterpart. The
-- status is an `int32_t`, here a 32-bit word.
pub mod Fixture
pub mod Read
pub mod SectorSize
mod SelfTest
mod Tests
use Prim.Native.Nat.{bit_and}
use argusos_uefi_v.Base.{
  ℕ, zero, suc, ◌+◌, ◌-◌, ◌*◌, ◌/◌, Bool, true, false, not, ◌&&◌, ◌||◌, Option, none, some, List,
  [], ◌∷◌, ltb, leb, ◌==◌, if◌then◌else◌,
}
use argusos_uefi_v.Base.Words.{u64, uint64_max}

abbrev pub name_capacity : ℕ
name_capacity = 24

abbrev pub device_bytes : ℕ
device_bytes = 64

abbrev pub block_ok : ℕ
block_ok = 0

abbrev pub block_invalid : ℕ
block_invalid = 0xFFFF_FFFF

abbrev pub block_range : ℕ
block_range = 0xFFFF_FFFE

abbrev pub buffer_too_small : ℕ
buffer_too_small = 0xFFFF_FFFD

-- `argus_block_device_v1_t`; the context is bound in `read`, which takes the first sector, the
-- sector count, the buffer and its capacity.
pub record Device : Type 0 where
  pub abi_version : ℕ
  pub struct_size : ℕ
  pub name : List ℕ
  pub sector_size : ℕ
  pub reserved : ℕ
  pub sector_count : ℕ
  pub read : ℕ → ℕ → List ℕ → ℕ → ℕ × List ℕ

-- The loop of `valid_name` from character `i` on, with the rounds that are left.
unfoldable pub valid_name : ℕ → ℕ → List ℕ → Bool
valid_name zero i name = false
valid_name (suc rounds) i [] = false
valid_name (suc rounds) i (character ∷ name) =
    let rest = valid_name rounds (i + 1) name in
    if character == 0
    then not (i == 0)
    else (if ltb character 32 || ltb 126 character then false else rest)

unfoldable pub block_device_valid : Device → Bool
block_device_valid d =
    d.abi_version == 1
    && d.struct_size == device_bytes
    && valid_name name_capacity 0 d.name
    && leb 512 d.sector_size
    && bit_and d.sector_size (d.sector_size - 1) == 0
    && not (d.sector_count == 0)
    && d.reserved == 0

-- The guards of `block_read`, in order: the status that is returned, if any fires.
unfoldable pub refuses_read : Device → ℕ → ℕ → ℕ → Option ℕ
refuses_read d first_sector sector_count output_capacity =
    if not (block_device_valid d) || sector_count == 0
    then some block_invalid
    else (if leb d.sector_count first_sector || ltb (d.sector_count - first_sector) sector_count
        then some block_range
        else (if ltb (uint64_max / d.sector_size) sector_count
            then some block_invalid
            else (if ltb output_capacity (u64 (sector_count * d.sector_size))
                then some buffer_too_small
                else none)))

unfoldable pub block_read : Device → ℕ → ℕ → List ℕ → ℕ → ℕ × List ℕ
block_read d first_sector sector_count output output_capacity =
    elim (refuses_read d first_sector sector_count output_capacity) [
      | some status ↦ (status, output)
      | none ↦ d.read first_sector sector_count output output_capacity
    ]

-- The static variable `default_device`, `none` for a null pointer.
unfoldable pub block_use_device : Option Device → Device → Option Device × Bool
block_use_device default d = if not (block_device_valid d) then (default, false) else (some d, true)

unfoldable pub block_default_device : Option Device → Option Device
block_default_device none = none
block_default_device (some d) = if block_device_valid d then some d else none
