-- ===== src/Block/Fixture.antt =====
-- src/block.c: the FAT32 volume that `fixture_read` makes up, sector by sector.
use argusos_uefi_v.Base.{
  ℕ, zero, suc, ◌+◌, ◌-◌, ◌*◌, Bool, true, false, ◌||◌, Option, none, some, List, [], ◌∷◌, ◌++◌,
  ltb, leb, ◌==◌, if◌then◌else◌, set, drop, replicate,
}
use argusos_uefi_v.Base.Words.{u8, shr}
use argusos_uefi_v.Block.{
  Device, block_device_valid, block_ok, block_invalid, block_range, buffer_too_small, device_bytes,
}

abbrev pub sector_bytes : ℕ
sector_bytes = 512

abbrev pub reserved_sectors : ℕ
reserved_sectors = 32

abbrev pub fat_sectors : ℕ
fat_sectors = 512

abbrev pub total_sectors : ℕ
total_sectors = 32 + 512 + 65525

abbrev pub fat_lba : ℕ
fat_lba = 32

abbrev pub root_lba : ℕ
root_lba = 544

abbrev pub file_lba : ℕ
file_lba = 545

-- "ArgusOS FAT32 via Rust\n".
abbrev pub fixture_file : List ℕ
fixture_file =
    0x41 ∷ 0x72 ∷ 0x67 ∷ 0x75 ∷ 0x73 ∷ 0x4F ∷ 0x53 ∷ 0x20 ∷ 0x46 ∷ 0x41 ∷ 0x54 ∷ 0x33 ∷ 0x32 ∷ 0x20
    ∷ 0x76 ∷ 0x69 ∷ 0x61 ∷ 0x20 ∷ 0x52 ∷ 0x75 ∷ 0x73 ∷ 0x74 ∷ 0x0A ∷ []

unfoldable pub write_u16 : ℕ → ℕ → List ℕ → List ℕ
write_u16 offset value bytes = set (set bytes offset (u8 value)) (offset + 1) (u8 (shr value 8))

unfoldable pub write_u32 : ℕ → ℕ → List ℕ → List ℕ
write_u32 offset value bytes =
    set
      (set (set (set bytes offset (u8 value)) (offset + 1) (u8 (shr value 8))) (offset + 2)
        (u8 (shr value 16)))
      (offset + 3) (u8 (shr value 24))

-- The text's characters one after the other from `offset` on.
unfoldable pub copy_literal : ℕ → List ℕ → List ℕ → List ℕ
copy_literal offset [] bytes = bytes
copy_literal offset (c ∷ text) bytes = copy_literal (offset + 1) text (set bytes offset c)

-- "ARGUSOS ", "ARGUS FAT  ", "FAT32   " and "HELLO   TXT".
abbrev pub oem_name : List ℕ
oem_name = 0x41 ∷ 0x52 ∷ 0x47 ∷ 0x55 ∷ 0x53 ∷ 0x4F ∷ 0x53 ∷ 0x20 ∷ []

abbrev pub volume_label : List ℕ
volume_label = 0x41 ∷ 0x52 ∷ 0x47 ∷ 0x55 ∷ 0x53 ∷ 0x20 ∷ 0x46 ∷ 0x41 ∷ 0x54 ∷ 0x20 ∷ 0x20 ∷ []

abbrev pub volume_type : List ℕ
volume_type = 0x46 ∷ 0x41 ∷ 0x54 ∷ 0x33 ∷ 0x32 ∷ 0x20 ∷ 0x20 ∷ 0x20 ∷ []

abbrev pub file_name : List ℕ
file_name = 0x48 ∷ 0x45 ∷ 0x4C ∷ 0x4C ∷ 0x4F ∷ 0x20 ∷ 0x20 ∷ 0x20 ∷ 0x54 ∷ 0x58 ∷ 0x54 ∷ []

-- The fields up to the number of hidden sectors.
unfoldable pub boot_parameters : List ℕ → List ℕ
boot_parameters s0 =
    let s1 = set (set (set s0 0 0xEB) 1 0x58) 2 0x90 in
    let s2 = write_u16 11 sector_bytes (copy_literal 3 oem_name s1) in
    let s3 = write_u16 14 reserved_sectors (set s2 13 1) in
    let s4 = write_u16 19 0 (write_u16 17 0 (set s3 16 1)) in
    let s5 = write_u16 24 63 (write_u16 22 0 (set s4 21 0xF8)) in
    write_u32 28 0 (write_u16 26 255 s5)

unfoldable pub synthesize_boot_sector : List ℕ → List ℕ
synthesize_boot_sector s0 =
    let s1 = write_u32 36 fat_sectors (write_u32 32 total_sectors (boot_parameters s0)) in
    let s2 = write_u32 44 2 (write_u16 42 0 (write_u16 40 0 s1)) in
    let s3 = write_u16 50 6 (write_u16 48 1 s2) in
    let s4 = write_u32 67 0xA610_F320 (set (set s3 64 0x80) 66 0x29) in
    let s5 = copy_literal 82 volume_type (copy_literal 71 volume_label s4) in
    set (set s5 510 0x55) 511 0xAA

unfoldable pub synthesize_fsinfo : List ℕ → List ℕ
synthesize_fsinfo s0 =
    let s1 = write_u32 484 0x6141_7272 (write_u32 0 0x4161_5252 s0) in
    write_u32 508 0xAA55_0000 (write_u32 492 0xFFFF_FFFF (write_u32 488 0xFFFF_FFFF s1))

unfoldable pub synthesize_fat : List ℕ → List ℕ
synthesize_fat s0 =
    let s1 = write_u32 4 0x0FFF_FFFF (write_u32 0 0x0FFF_FFF8 s0) in
    write_u32 12 0x0FFF_FFFF (write_u32 8 0x0FFF_FFFF s1)

unfoldable pub synthesize_root : List ℕ → List ℕ
synthesize_root s0 =
    let s1 = write_u16 20 0 (set (copy_literal 0 file_name s0) 11 0x20) in
    write_u32 28 23 (write_u16 26 3 s1)

-- One sector of the volume.
unfoldable pub fixture_sector : ℕ → List ℕ
fixture_sector sector =
    let empty = replicate sector_bytes 0 in
    if sector == 0 || sector == 6
    then synthesize_boot_sector empty
    else (if sector == 1
        then synthesize_fsinfo empty
        else (if sector == fat_lba
            then synthesize_fat empty
            else (if sector == root_lba
                then synthesize_root empty
                else (if sector == file_lba then copy_literal 0 fixture_file empty else empty))))

-- The loop of `fixture_read`, with the rounds that are left and the rest of the buffer.
unfoldable pub fill_sectors : ℕ → ℕ → List ℕ → List ℕ
fill_sectors zero sector output = output
fill_sectors (suc rounds) sector output =
    fixture_sector sector ++ fill_sectors rounds (sector + 1) (drop sector_bytes output)

unfoldable pub fixture_read : ℕ → ℕ → List ℕ → ℕ → ℕ × List ℕ
fixture_read first_sector sector_count output output_capacity =
    if sector_count == 0
    then (block_invalid, output)
    else (if leb total_sectors first_sector || ltb (total_sectors - first_sector) sector_count
        then (block_range, output)
        else (if ltb output_capacity (sector_count * sector_bytes)
            then (buffer_too_small, output)
            else (block_ok, fill_sectors sector_count first_sector output)))

-- `fixture_device`, whose name is "memory.fat32".
abbrev pub fixture_device : Device
fixture_device = record {
  abi_version = 1;
  struct_size = device_bytes;
  name =
      0x6D
      ∷ 0x65
      ∷ 0x6D
      ∷ 0x6F
      ∷ 0x72
      ∷ 0x79
      ∷ 0x2E
      ∷ 0x66
      ∷ 0x61
      ∷ 0x74
      ∷ 0x33
      ∷ 0x32
      ∷ replicate 12 0;
  sector_size = sector_bytes;
  reserved = 0;
  sector_count = total_sectors;
  read = fixture_read;
}

abbrev pub block_init : Option Device × Bool
block_init =
    if block_device_valid fixture_device then (some fixture_device, true) else (none, false)
