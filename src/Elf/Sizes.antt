-- ===== src/Elf/Sizes.antt =====
-- src/elf_loader.c: the sizes in pages, and the overlap test without its wrap-around.
use Prim.Native.Nat.{bit_and}
use argusos_uefi_v.Base.{ℕ, ◌+◌, ◌*◌, ◌/◌, ◌^◌, ◌≤◌, ◌<◌, ◌≡◌, ◌⊎◌, ap, ◌∙◌, false, arith}
use argusos_uefi_v.Base.Bits.Fields.{bit_and_clear_low}
use argusos_uefi_v.Elf.{rounded_size, segment_pages, ranges_overlap}

-- Rounding up to whole pages.
pub rounded_lem :
    (memory_size : ℕ)
    → memory_size + 4095 < 2 ^ 64
    → rounded_size memory_size ≡ (memory_size + 4095) / 4096 * 4096
unfolding rounded_size
rounded_lem m fits =
    ap (λ (x : ℕ). bit_and x 0xFFFF_FFFF_FFFF_F000) (omega arith)
    ∙ bit_and_clear_low 12 52 (m + 4095) (omega arith)

pub segment_pages_lem :
    (memory_size : ℕ)
    → memory_size ≤ 2 ^ 43
    → segment_pages memory_size ≡ (memory_size + 4095) / 4096
unfolding segment_pages
segment_pages_lem m fits = rw (rounded_lem m (omega arith)) (omega arith)

-- Two ranges that end before the end of the address space and pass the test are disjoint.
pub ranges_overlap-false :
    (a n b m : ℕ)
    → a + n < 2 ^ 64
    → b + m < 2 ^ 64
    → ranges_overlap a n b m ≡ false
    → (a + n ≤ b) ⊎ (b + m ≤ a)
unfolding ranges_overlap
ranges_overlap-false a n b m first second h = ground arith
