-- ===== src/Elf/Tests.antt =====
-- Runs of the ELF validator on an image of two segments, and the theorems at it.
use argusos_uefi_v.Base.{
  ℕ, zero, suc, ◌+◌, ◌≡◌, refl, Bool, true, ◌&&◌, List, [], ◌∷◌, ltb, leb, set, arith,
}
use argusos_uefi_v.Elf.{
  Image, refuses_image, refuses_header, read_header, read_le, refuses_table, add_overflows, finish,
  scan_programs, scan_program, read_program, refuses_stack, refuses_load, refuses_kind,
  refuses_alignment, refuses_place, segment_pages, rounded_size, overlaps_prior, ranges_overlap,
  add_segment, zero_image, elf_validate_user_image, exceeds_page_limit,
}
use argusos_uefi_v.Elf.Guards.{IsBytes}
use argusos_uefi_v.Elf.Accept.{IsUserImage, validate_accepts, page_limit}

-- A code segment of one page, a data segment of two pages and the stack header.
abbrev small : List ℕ
small =
    127 ∷ 69 ∷ 76 ∷ 70 ∷ 2 ∷ 1 ∷ 1 ∷ 0 ∷ 0 ∷ 0 ∷ 0 ∷ 0 ∷ 0 ∷ 0 ∷ 0 ∷ 0 ∷ 2 ∷ 0 ∷ 62 ∷ 0 ∷ 1 ∷ 0 ∷ 0
    ∷ 0 ∷ 8 ∷ 16 ∷ 0 ∷ 0 ∷ 128 ∷ 0 ∷ 0 ∷ 0 ∷ 64 ∷ 0 ∷ 0 ∷ 0 ∷ 0 ∷ 0 ∷ 0 ∷ 0 ∷ 0 ∷ 0 ∷ 0 ∷ 0 ∷ 0 ∷ 0
    ∷ 0 ∷ 0 ∷ 0 ∷ 0 ∷ 0 ∷ 0 ∷ 64 ∷ 0 ∷ 56 ∷ 0 ∷ 3 ∷ 0 ∷ 0 ∷ 0 ∷ 0 ∷ 0 ∷ 0 ∷ 0 ∷ 1 ∷ 0 ∷ 0 ∷ 0 ∷ 5
    ∷ 0 ∷ 0 ∷ 0 ∷ 0 ∷ 0 ∷ 0 ∷ 0 ∷ 0 ∷ 0 ∷ 0 ∷ 0 ∷ 0 ∷ 16 ∷ 0 ∷ 0 ∷ 128 ∷ 0 ∷ 0 ∷ 0 ∷ 0 ∷ 16 ∷ 0 ∷ 0
    ∷ 128 ∷ 0 ∷ 0 ∷ 0 ∷ 232 ∷ 0 ∷ 0 ∷ 0 ∷ 0 ∷ 0 ∷ 0 ∷ 0 ∷ 232 ∷ 0 ∷ 0 ∷ 0 ∷ 0 ∷ 0 ∷ 0 ∷ 0 ∷ 0 ∷ 16
    ∷ 0 ∷ 0 ∷ 0 ∷ 0 ∷ 0 ∷ 0 ∷ 1 ∷ 0 ∷ 0 ∷ 0 ∷ 6 ∷ 0 ∷ 0 ∷ 0 ∷ 0 ∷ 0 ∷ 0 ∷ 0 ∷ 0 ∷ 0 ∷ 0 ∷ 0 ∷ 0 ∷ 32
    ∷ 0 ∷ 0 ∷ 128 ∷ 0 ∷ 0 ∷ 0 ∷ 0 ∷ 32 ∷ 0 ∷ 0 ∷ 128 ∷ 0 ∷ 0 ∷ 0 ∷ 16 ∷ 0 ∷ 0 ∷ 0 ∷ 0 ∷ 0 ∷ 0 ∷ 0
    ∷ 0 ∷ 32 ∷ 0 ∷ 0 ∷ 0 ∷ 0 ∷ 0 ∷ 0 ∷ 0 ∷ 16 ∷ 0 ∷ 0 ∷ 0 ∷ 0 ∷ 0 ∷ 0 ∷ 81 ∷ 229 ∷ 116 ∷ 100 ∷ 6 ∷ 0
    ∷ 0 ∷ 0 ∷ 0 ∷ 0 ∷ 0 ∷ 0 ∷ 0 ∷ 0 ∷ 0 ∷ 0 ∷ 0 ∷ 0 ∷ 0 ∷ 0 ∷ 0 ∷ 0 ∷ 0 ∷ 0 ∷ 0 ∷ 0 ∷ 0 ∷ 0 ∷ 0 ∷ 0
    ∷ 0 ∷ 0 ∷ 0 ∷ 0 ∷ 0 ∷ 0 ∷ 0 ∷ 0 ∷ 0 ∷ 0 ∷ 0 ∷ 0 ∷ 0 ∷ 0 ∷ 0 ∷ 0 ∷ 0 ∷ 0 ∷ 0 ∷ 0 ∷ 0 ∷ 0 ∷ 0 ∷ 0
    ∷ 0 ∷ 0 ∷ []

abbrev user_min : ℕ
user_min = 0x80_0000_1000

abbrev user_max : ℕ
user_max = 0x80_001F_F000

abbrev accepted : Image
accepted = (elf_validate_user_image small 232 user_min user_max zero_image).0

all_bytes : List ℕ → Bool
all_bytes [] = true
all_bytes (x ∷ xs) = ltb x 256 && all_bytes xs

all_bytes-IsBytes : (xs : List ℕ) → all_bytes xs ≡ true → IsBytes xs
unfolding all_bytes IsBytes
all_bytes-IsBytes [] h i = omega arith
all_bytes-IsBytes (x ∷ xs) h zero = ground arith
all_bytes-IsBytes (x ∷ xs) h (suc i) = all_bytes-IsBytes xs (ground arith) i

small-IsBytes : IsBytes small
unfolding all_bytes
small-IsBytes = all_bytes-IsBytes small refl

small_accepted : elf_validate_user_image small 232 user_min user_max zero_image ≡ (accepted, true)
unfolding elf_validate_user_image refuses_image refuses_header read_header read_le refuses_table
    add_overflows finish scan_programs scan_program read_program refuses_stack refuses_load
    refuses_kind refuses_alignment refuses_place segment_pages rounded_size exceeds_page_limit
    overlaps_prior ranges_overlap add_segment
small_accepted = refl

small_pages : accepted.total_pages ≡ 3
unfolding elf_validate_user_image refuses_image refuses_header read_header read_le refuses_table
    add_overflows finish scan_programs scan_program read_program refuses_stack refuses_load
    refuses_kind refuses_alignment refuses_place segment_pages rounded_size exceeds_page_limit
    overlaps_prior ranges_overlap add_segment
small_pages = refl

validate_accepts_example : IsUserImage 232 user_min user_max accepted
validate_accepts_example =
    validate_accepts small 232 user_min user_max zero_image accepted small-IsBytes (omega arith)
      small_accepted

-- A data segment of 22 pages passes the limit of 16: its `memory_size`, which bytes 160 to 167
-- hold, is 0x16000.
abbrev large : List ℕ
large = set (set small 161 0x60) 162 1

large_accepted : (elf_validate_user_image large 232 user_min user_max zero_image).1 ≡ true
unfolding elf_validate_user_image refuses_image refuses_header read_header read_le refuses_table
    add_overflows finish scan_programs scan_program read_program refuses_stack refuses_load
    refuses_kind refuses_alignment refuses_place segment_pages rounded_size exceeds_page_limit
    overlaps_prior ranges_overlap add_segment
large_accepted = refl

large_pages : (elf_validate_user_image large 232 user_min user_max zero_image).0.total_pages ≡ 23
unfolding elf_validate_user_image refuses_image refuses_header read_header read_le refuses_table
    add_overflows finish scan_programs scan_program read_program refuses_stack refuses_load
    refuses_kind refuses_alignment refuses_place segment_pages rounded_size exceeds_page_limit
    overlaps_prior ranges_overlap add_segment
large_pages = refl

page_limit_example : exceeds_page_limit 1 17 ≡ (leb 17 16 && ltb 16 (1 + 17))
page_limit_example = page_limit 1 17 (omega arith) (omega arith)
