-- ===== src/Block/SelfTest.antt =====
-- src/block.c `block_self_test`, which the kernel runs when it starts; a sector is read into a
-- buffer of 512 bytes.
use argusos_uefi_v.Base.{
  ℕ, Bool, true, false, ◌&&◌, Option, none, some, List, [], ◌∷◌, ◌==◌, get_or, replicate,
}
use argusos_uefi_v.Block.{
  Device, block_device_valid, block_read, block_ok, block_range, buffer_too_small,
}
use argusos_uefi_v.Block.Fixture.{fixture_device, fixture_file, total_sectors, file_lba}

abbrev pub empty_sector : List ℕ
empty_sector = replicate 512 0

-- The bytes of `fixture_file` at the head of the sector.
unfoldable pub starts_with : List ℕ → List ℕ → Bool
starts_with [] sector = true
starts_with (c ∷ text) [] = false
starts_with (c ∷ text) (b ∷ sector) = b == c && starts_with text sector

abbrev pub signed : List ℕ → Bool
signed sector = get_or sector 510 0 == 0x55 && get_or sector 511 0 == 0xAA

abbrev pub test_fixture : Bool
test_fixture =
    let (s1, boot) = block_read fixture_device 0 1 empty_sector 512 in
    let (s2, beyond) = block_read fixture_device total_sectors 1 boot 512 in
    let (s3, short) = block_read fixture_device file_lba 1 beyond 511 in
    let (s4, file) = block_read fixture_device file_lba 1 short 512 in
    s1 == block_ok
    && signed boot
    && s2 == block_range
    && s3 == buffer_too_small
    && s4 == block_ok
    && starts_with fixture_file file

abbrev pub test_device : Device → Bool
test_device d =
    let (s1, boot) = block_read d 0 1 empty_sector 512 in
    let (s2, beyond) = block_read d d.sector_count 1 boot 512 in
    let (s3, short) = block_read d 0 1 beyond 511 in
    block_device_valid d
    && s1 == block_ok
    && signed boot
    && s2 == block_range
    && s3 == buffer_too_small

abbrev pub block_self_test : Option Device → Bool
block_self_test none = false
block_self_test (some d) = test_fixture && test_device d
