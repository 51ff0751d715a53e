-- ===== src/Elf/Guards.antt =====
-- src/elf_loader.c: what the conditions on one program header leave, once none of them fires.
use Prim.Native.Nat.{bit_and}
use argusos_uefi_v.Base.{
  ℕ, zero, suc, ◌+◌, ◌*◌, ◌/◌, ◌%◌, ◌^◌, ◌≤◌, ◌<◌, ◌≡◌, ◌≢◌, ◌⊎◌, sym, false, List, get_or, arith,
  ℕ-eq-cases, inl, inr,
}
use native.Mathlib.Nat.{pow-suc}
use argusos_uefi_v.Base.Words.{u64}
use argusos_uefi_v.Base.Bits.Fields.{bit_and_mask}
use argusos_uefi_v.Elf.{
  Program, Segment, Scan, page_size, zero_segment, max_segments, flag_execute, flag_write,
  flag_read, refuses_kind, refuses_alignment, refuses_place, refuses_load, add_overflows, read_le,
  read_program, rounded_size, ranges_overlap, overlaps_prior,
}

-- A segment that may be mapped: in the file, in the user window, in whole pages, and not both
-- writable and executable.
pub record IsMapped (size user_min user_max : ℕ) (g : Segment) : Type 0 where
  pub in_file : g.file_offset + g.file_size ≤ size
  pub file_fits : g.file_size ≤ g.memory_size
  pub above : user_min ≤ g.virtual_address
  pub below : g.virtual_address + g.memory_size ≤ user_max
  pub some_memory : g.memory_size ≢ 0
  pub file_aligned : g.file_offset % 4096 ≡ 0
  pub aligned : g.virtual_address % 4096 ≡ 0
  pub pages : g.page_count ≡ (g.memory_size + 4095) / 4096
  pub readable : bit_and g.flags flag_read ≢ 0
  pub no_write_execute : (bit_and g.flags flag_write ≡ 0) ⊎ (bit_and g.flags flag_execute ≡ 0)

-- The fields of a program header, each within its width.
pub record IsProgram (p : Program) : Type 0 where
  pub offset_fits : p.offset < 2 ^ 64
  pub address_fits : p.virtual_address < 2 ^ 64
  pub file_fits : p.file_size < 2 ^ 64
  pub memory_fits : p.memory_size < 2 ^ 64

passed_kind :
    (s : Scan) (p : Program)
    → refuses_kind s p ≡ false
    → (s.image.segment_count ≢ max_segments)
      × (p.memory_size ≢ 0)
      × (p.file_size ≤ p.memory_size)
      × (bit_and p.flags flag_read ≢ 0)
      × ((bit_and p.flags flag_write ≡ 0) ⊎ (bit_and p.flags flag_execute ≡ 0))
unfolding refuses_kind
passed_kind s p h = ground arith

passed_alignment :
    (p : Program)
    → refuses_alignment p ≡ false
    → (p.offset % 4096 ≡ 0) × (p.virtual_address % 4096 ≡ 0)
unfolding refuses_alignment
passed_alignment p h = ground (arith, bit_and_mask 12 p.offset, bit_and_mask 12 p.virtual_address)

passed_place :
    (size user_min user_max : ℕ) (p : Program)
    → IsProgram p
    → refuses_place size user_min user_max p ≡ false
    → (p.offset + p.file_size ≤ size)
      × (user_min ≤ p.virtual_address)
      × (p.virtual_address + p.memory_size ≤ user_max)
unfolding refuses_place add_overflows
passed_place size user_min user_max p w h =
    let f1 = w.offset_fits in
    let f2 = w.address_fits in let f3 = w.file_fits in let f4 = w.memory_fits in ground arith

-- No overlap was found from `prior` on.
pub overlaps_prior-false :
    (p : Program) (segments : List Segment) (rounds prior i : ℕ)
    → overlaps_prior p segments rounds prior ≡ false
    → prior ≤ i
    → i < prior + rounds
    → ranges_overlap p.virtual_address
        (rounded_size p.memory_size)
        (get_or segments i zero_segment).virtual_address
        (u64 ((get_or segments i zero_segment).page_count * page_size))
      ≡ false
unfolding overlaps_prior
overlaps_prior-false p segments zero prior i h from below = absurd (omega arith)
overlaps_prior-false p segments (suc rounds) prior i h from below = elim (ℕ-eq-cases prior i) [
  | inl here ↦ rw (sym here) (ground arith)
  | inr further ↦
      overlaps_prior-false p segments rounds (suc prior) i (ground arith) (omega arith)
        (omega arith)
]

-- What one segment has once none of the conditions on it fired.
pub record Passed (size user_min user_max : ℕ) (s : Scan) (p : Program) : Type 0 where
  pub room : s.image.segment_count ≢ max_segments
  pub some_memory : p.memory_size ≢ 0
  pub file_fits : p.file_size ≤ p.memory_size
  pub readable : bit_and p.flags flag_read ≢ 0
  pub no_write_execute : (bit_and p.flags flag_write ≡ 0) ⊎ (bit_and p.flags flag_execute ≡ 0)
  pub file_aligned : p.offset % 4096 ≡ 0
  pub aligned : p.virtual_address % 4096 ≡ 0
  pub in_file : p.offset + p.file_size ≤ size
  pub above : user_min ≤ p.virtual_address
  pub below : p.virtual_address + p.memory_size ≤ user_max
  pub no_overlap : overlaps_prior p s.image.segments s.image.segment_count 0 ≡ false

pub refuses_load-Passed :
    (size user_min user_max : ℕ) (s : Scan) (p : Program)
    → IsProgram p
    → refuses_load size user_min user_max s p ≡ false
    → Passed size user_min user_max s p
unfolding refuses_load
refuses_load-Passed size user_min user_max s p w h =
    let (room, some_memory, file_fits, readable, no_write_execute) =
      passed_kind s p (ground arith) in
    let (file_aligned, aligned) = passed_alignment p (ground arith) in
    let (in_file, above, below) = passed_place size user_min user_max p w (ground arith) in
    record {
      room = room;
      some_memory = some_memory;
      file_fits = file_fits;
      readable = readable;
      no_write_execute = no_write_execute;
      file_aligned = file_aligned;
      aligned = aligned;
      in_file = in_file;
      above = above;
      below = below;
      no_overlap = ground arith;
    }

unfoldable pub IsBytes : List ℕ → Type 0
IsBytes bytes = (i : ℕ) → get_or bytes i 0 < 256

read_le-lt : (bytes : List ℕ) → IsBytes bytes → (at n : ℕ) → read_le bytes at n < 256 ^ n
unfolding read_le IsBytes
read_le-lt bytes b at zero = omega arith
read_le-lt bytes b at (suc n) = omega (arith, pow-suc 256 n, b at, read_le-lt bytes b (suc at) n)

pub read_program-IsProgram :
    (bytes : List ℕ) (at : ℕ) → IsBytes bytes → IsProgram (read_program bytes at)
unfolding read_program
read_program-IsProgram bytes at b = record {
  offset_fits = read_le-lt bytes b (at + 8) 8;
  address_fits = read_le-lt bytes b (at + 16) 8;
  file_fits = read_le-lt bytes b (at + 32) 8;
  memory_fits = read_le-lt bytes b (at + 40) 8;
}
