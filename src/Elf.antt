-- ===== src/Elf.antt =====
-- src/elf_loader.c: the validator of the ELF64 images that become user processes.
-- An image is a list of bytes with the size that the caller passes; null pointers, which the
-- function refuses, have no counterpart. The bit fields of the format are little-endian. The
-- result is `*image` as the function leaves it, with the returned flag.
mod Sizes
mod Guards
pub mod Scanned
pub mod Accept
mod Tests
use Prim.Native.Nat.{bit_and}
use argusos_uefi_v.Base.{
  ℕ, zero, suc, ◌+◌, ◌-◌, ◌*◌, ◌/◌, Bool, true, false, not, ◌&&◌, ◌||◌, Option, none, some, List,
  ltb, leb, ◌==◌, if◌then◌else◌, get_or, set, replicate,
}
use argusos_uefi_v.Base.Words.{u32, u64, uint64_max, sub32}

abbrev pub max_segments : ℕ
max_segments = 8

abbrev pub max_image_pages : ℕ
max_image_pages = 16

abbrev pub page_size : ℕ
page_size = 4096

abbrev pub header_bytes : ℕ
header_bytes = 64

abbrev pub program_bytes : ℕ
program_bytes = 56

abbrev pub program_load : ℕ
program_load = 1

abbrev pub program_gnu_stack : ℕ
program_gnu_stack = 0x6474_E551

abbrev pub flag_execute : ℕ
flag_execute = 1

abbrev pub flag_write : ℕ
flag_write = 2

abbrev pub flag_read : ℕ
flag_read = 4

-- `elf64_header_t`; `magic` is the little-endian word of the first seven bytes of
-- `identification`, and the section fields are never read.
pub record Header : Type 0 where
  pub magic : ℕ
  pub image_type : ℕ
  pub machine : ℕ
  pub version : ℕ
  pub entry : ℕ
  pub program_header_offset : ℕ
  pub flags : ℕ
  pub header_size : ℕ
  pub program_header_size : ℕ
  pub program_header_count : ℕ

-- `elf64_program_header_t`.
pub record Program : Type 0 where
  pub program_type : ℕ
  pub flags : ℕ
  pub offset : ℕ
  pub virtual_address : ℕ
  pub physical_address : ℕ
  pub file_size : ℕ
  pub memory_size : ℕ
  pub alignment : ℕ

-- `argus_elf_segment_t`.
pub record Segment : Type 0 where
  pub file_offset : ℕ
  pub file_size : ℕ
  pub virtual_address : ℕ
  pub memory_size : ℕ
  pub flags : ℕ
  pub page_count : ℕ

-- `argus_elf_image_t`.
pub record Image : Type 0 where
  pub entry : ℕ
  pub segment_count : ℕ
  pub total_pages : ℕ
  pub segments : List Segment

-- The variables that the loop over the program headers changes.
pub record Scan : Type 0 where
  pub image : Image
  pub entry_is_executable : Bool
  pub stack_seen : Bool

abbrev pub zero_segment : Segment
zero_segment = record {
  file_offset = 0;
  file_size = 0;
  virtual_address = 0;
  memory_size = 0;
  flags = 0;
  page_count = 0;
}

-- `(argus_elf_image_t){0}`.
abbrev pub zero_image : Image
zero_image = record {
  entry = 0;
  segment_count = 0;
  total_pages = 0;
  segments = replicate max_segments zero_segment;
}

-- The little-endian number in `n` bytes from `at` on.
unfoldable pub read_le : List ℕ → ℕ → ℕ → ℕ
read_le bytes at zero = 0
read_le bytes at (suc n) = get_or bytes at 0 + 256 * read_le bytes (suc at) n

unfoldable pub read_header : List ℕ → Header
read_header bytes = record {
  magic = read_le bytes 0 7;
  image_type = read_le bytes 16 2;
  machine = read_le bytes 18 2;
  version = read_le bytes 20 4;
  entry = read_le bytes 24 8;
  program_header_offset = read_le bytes 32 8;
  flags = read_le bytes 48 4;
  header_size = read_le bytes 52 2;
  program_header_size = read_le bytes 54 2;
  program_header_count = read_le bytes 56 2;
}

unfoldable pub read_program : List ℕ → ℕ → Program
read_program bytes at = record {
  program_type = read_le bytes at 4;
  flags = read_le bytes (at + 4) 4;
  offset = read_le bytes (at + 8) 8;
  virtual_address = read_le bytes (at + 16) 8;
  physical_address = read_le bytes (at + 24) 8;
  file_size = read_le bytes (at + 32) 8;
  memory_size = read_le bytes (at + 40) 8;
  alignment = read_le bytes (at + 48) 8;
}

unfoldable pub add_overflows : ℕ → ℕ → Bool
add_overflows left right = ltb (uint64_max - right) left

unfoldable pub ranges_overlap : ℕ → ℕ → ℕ → ℕ → Bool
ranges_overlap first_start first_size second_start second_size =
    ltb first_start (u64 (second_start + second_size))
    && ltb second_start (u64 (first_start + first_size))

-- The identification bytes 7F 45 4C 46, class 2, little-endian 1 and version 1 in one word, and
-- the other conditions on the header in their order.
unfoldable pub refuses_header : Header → Bool
refuses_header h =
    not (h.magic == 0x01_0102_464C_457F)
    || not (h.image_type == 2)
    || not (h.machine == 62)
    || not (h.version == 1)
    || not (h.flags == 0)
    || not (h.header_size == header_bytes)
    || not (h.program_header_size == program_bytes)
    || h.program_header_count == 0
    || ltb (max_segments + 1) h.program_header_count

-- The program header table does not lie within the image.
unfoldable pub refuses_table : Header → ℕ → Bool
refuses_table h size =
    let table_size = h.program_header_count * program_bytes in
    add_overflows h.program_header_offset table_size
    || ltb size (u64 (h.program_header_offset + table_size))

unfoldable pub refuses_stack : Scan → Program → Bool
refuses_stack s p =
    s.stack_seen
    || not (p.flags == 6)
    || not (p.offset == 0)
    || not (p.virtual_address == 0)
    || not (p.physical_address == 0)
    || not (p.file_size == 0)
    || not (p.memory_size == 0)

-- The three groups of conditions on a loaded segment, in the order of the code: what it holds
-- and may do, how it is aligned, and where it lies. `0xFFFF_FFF8` is the complement of the flags.
unfoldable pub refuses_kind : Scan → Program → Bool
refuses_kind s p =
    s.image.segment_count == max_segments
    || p.memory_size == 0
    || ltb p.memory_size p.file_size
    || bit_and p.flags flag_read == 0
    || not (bit_and p.flags 0xFFFF_FFF8 == 0)
    || (not (bit_and p.flags flag_write == 0) && not (bit_and p.flags flag_execute == 0))

unfoldable pub refuses_alignment : Program → Bool
refuses_alignment p =
    not (bit_and p.offset (page_size - 1) == 0)
    || not (bit_and p.virtual_address (page_size - 1) == 0)
    || not (p.alignment == page_size)

unfoldable pub refuses_place : ℕ → ℕ → ℕ → Program → Bool
refuses_place size user_min user_max p =
    add_overflows p.offset p.file_size
    || ltb size (u64 (p.offset + p.file_size))
    || add_overflows p.virtual_address p.memory_size
    || ltb p.virtual_address user_min
    || ltb user_max (u64 (p.virtual_address + p.memory_size))

-- `(memory_size + 4095) & ~4095`, and the pages it comes to.
unfoldable pub rounded_size : ℕ → ℕ
rounded_size memory_size = bit_and (u64 (memory_size + (page_size - 1))) 0xFFFF_FFFF_FFFF_F000

unfoldable pub segment_pages : ℕ → ℕ
segment_pages memory_size = u32 (rounded_size memory_size / page_size)

-- `image->total_pages > ARGUS_ELF_MAX_IMAGE_PAGES - page_count`, on `uint32_t`.
unfoldable pub exceeds_page_limit : ℕ → ℕ → Bool
exceeds_page_limit total_pages page_count = ltb (sub32 max_image_pages page_count) total_pages

-- The loop over the segments from `prior` on, with the rounds that are left.
unfoldable pub overlaps_prior : Program → List Segment → ℕ → ℕ → Bool
overlaps_prior p segments zero prior = false
overlaps_prior p segments (suc rounds) prior =
    let other = get_or segments prior zero_segment in
    ranges_overlap p.virtual_address (rounded_size p.memory_size) other.virtual_address
      (u64 (other.page_count * page_size))
    || overlaps_prior p segments rounds (suc prior)

abbrev pub segment_of : Program → Segment
segment_of p = record {
  file_offset = p.offset;
  file_size = p.file_size;
  virtual_address = p.virtual_address;
  memory_size = p.memory_size;
  flags = p.flags;
  page_count = segment_pages p.memory_size;
}

-- What a segment that passed writes: the next cell of `segments`, the counts and the entry flag.
unfoldable pub add_segment : ℕ → Scan → Program → Scan
add_segment entry s p = record s {
  image = record s.image {
    segment_count = s.image.segment_count + 1;
    total_pages = u32 (s.image.total_pages + segment_pages p.memory_size);
    segments = set s.image.segments s.image.segment_count (segment_of p);
  };
  entry_is_executable =
      s.entry_is_executable
      || (not (bit_and p.flags flag_execute == 0)
          && leb p.virtual_address entry
          && ltb entry (u64 (p.virtual_address + p.file_size)));
}

unfoldable pub refuses_load : ℕ → ℕ → ℕ → Scan → Program → Bool
refuses_load size user_min user_max s p =
    refuses_kind s p
    || refuses_alignment p
    || refuses_place size user_min user_max p
    || add_overflows p.memory_size (page_size - 1)
    || segment_pages p.memory_size == 0
    || exceeds_page_limit s.image.total_pages (segment_pages p.memory_size)
    || overlaps_prior p s.image.segments s.image.segment_count 0

-- One round of the loop: `none` where the code returns 0, which leaves `*image` as it is.
unfoldable pub scan_program : ℕ → ℕ → ℕ → ℕ → Scan → Program → Option Scan
scan_program size user_min user_max entry s p =
    if p.program_type == program_gnu_stack
    then (if refuses_stack s p then none else some (record s { stack_seen = true }))
    else (if not (p.program_type == program_load)
        then none
        else (if refuses_load size user_min user_max s p
            then none
            else some (add_segment entry s p)))

-- The loop from program header `index` on, with the rounds that are left.
unfoldable pub scan_programs : List ℕ → ℕ → ℕ → ℕ → Header → ℕ → ℕ → Scan → Scan × Bool
scan_programs bytes size user_min user_max h zero index s = (s, true)
scan_programs bytes size user_min user_max h (suc rounds) index s =
    elim (scan_program size user_min user_max h.entry s
      (read_program bytes (h.program_header_offset + index * program_bytes))) [
        | none ↦ (s, false)
        | some t ↦ scan_programs bytes size user_min user_max h rounds (suc index) t
      ]

unfoldable pub refuses_image : List ℕ → ℕ → ℕ → ℕ → Bool
refuses_image bytes size user_min user_max =
    ltb size header_bytes
    || leb user_max user_min
    || refuses_header (read_header bytes)
    || refuses_table (read_header bytes) size

-- What follows the loop, from the scan and whether every round passed.
unfoldable pub finish : ℕ → Scan × Bool → Image × Bool
finish entry (s, false) = (s.image, false)
finish entry (s, true) =
    if s.image.segment_count == 0 || not s.entry_is_executable || not s.stack_seen
    then (s.image, false)
    else (record s.image { entry = entry }, true)

abbrev pub zero_scan : Scan
zero_scan = record { image = zero_image; entry_is_executable = false; stack_seen = false }

unfoldable pub elf_validate_user_image : List ℕ → ℕ → ℕ → ℕ → Image → Image × Bool
elf_validate_user_image bytes size user_min user_max image =
    if refuses_image bytes size user_min user_max
    then (image, false)
    else (let h = read_header bytes in
        finish h.entry
          (scan_programs bytes size user_min user_max h h.program_header_count 0 zero_scan))
