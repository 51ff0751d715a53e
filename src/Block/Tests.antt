-- ===== src/Block/Tests.antt =====
-- Runs of the block device checks, and the theorems at a device of 2048 bytes to a sector.
use argusos_uefi_v.Base.{ℕ, ◌≡◌, ◌≢◌, ◌⊎◌, refl, true, [], arith}
use argusos_uefi_v.Block.{block_device_valid, valid_name, block_read, block_ok, refuses_read}
use argusos_uefi_v.Block.Fixture.{
  fixture_device, fixture_read, fixture_sector, fill_sectors, write_u16, write_u32, copy_literal,
  boot_parameters, synthesize_boot_sector, synthesize_fsinfo, synthesize_fat, synthesize_root,
  block_init,
}
use argusos_uefi_v.Block.Read.{IsRequest, block_read_lem}
use argusos_uefi_v.Block.SelfTest.{block_self_test, starts_with}

self_test_passes : block_self_test (block_init.0) ≡ true
unfolding block_device_valid valid_name block_read refuses_read fixture_read fixture_sector
    fill_sectors write_u16 write_u32 copy_literal boot_parameters synthesize_boot_sector
    synthesize_fsinfo synthesize_fat synthesize_root starts_with
self_test_passes = refl

fixture_valid : block_device_valid fixture_device ≡ true
unfolding block_device_valid valid_name
fixture_valid = refl

block_read_lem_example :
    (IsRequest fixture_device 545 1 512
      × (block_read fixture_device 545 1 [] 512 ≡ fixture_device.read 545 1 [] 512))
    ⊎ (¬ IsRequest fixture_device 545 1 512
        × ((status : ℕ) × (status ≢ block_ok)
            × (block_read fixture_device 545 1 [] 512 ≡ (status, []))))
block_read_lem_example = block_read_lem fixture_device 545 1 [] 512 (omega arith) (omega arith)
