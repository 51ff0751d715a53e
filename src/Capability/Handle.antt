-- ===== src/Capability/Handle.antt =====
-- The layout of a handle, src/capability.c `make_handle`: tag, generation, type and slot.
use Prim.Native.Nat.{bit_or}
use argusos_uefi_v.Base.{ℕ, ◌+◌, ◌*◌, ◌/◌, ◌%◌, ◌^◌, ◌<◌, ◌≡◌, ◌≢◌, ◌∙◌, ap, arith}
use argusos_uefi_v.Base.Bits.Fields.{bit_or-eq-add, bit_and_mask}
use argusos_uefi_v.Base.Words.{shr, shl64}
use argusos_uefi_v.Capability.{
  Entry, make_handle, handle_tag, encoded_slot, encoded_generation, encoded_type,
}

-- The fields of an entry that fit their places in a handle.
pub record Fits (slot : ℕ) (e : Entry) : Type 0 where
  pub slot_fits : slot < 255
  pub type_fits : e.type < 2 ^ 8
  pub generation_fits : e.generation < 2 ^ 32

-- A handle is the sum of its fields.
pub make_handle_sum :
    (slot : ℕ) (e : Entry)
    → Fits slot e
    → make_handle slot e ≡ handle_tag * 2 ^ 48 + e.generation * 2 ^ 16 + e.type * 2 ^ 8 + (slot + 1)
unfolding make_handle
make_handle_sum slot e f =
    ap (λ (x : ℕ). bit_or (bit_or x (shl64 e.type 8)) (slot + 1)) with_generation
    ∙ ap (λ (x : ℕ). bit_or x (slot + 1)) with_type
    ∙ with_slot
  where
    base : ℕ
    base = handle_tag * 2 ^ 48 + e.generation * 2 ^ 16

    with_generation : bit_or (shl64 handle_tag 48) (shl64 e.generation 16) ≡ base
    with_generation =
        bit_or-eq-add 48 handle_tag (shl64 handle_tag 48) (shl64 e.generation 16) (omega arith)
          (omega arith)
        ∙ omega arith

    with_type : bit_or base (shl64 e.type 8) ≡ base + e.type * 2 ^ 8
    with_type =
        bit_or-eq-add 16 (handle_tag * 2 ^ 32 + e.generation) base (shl64 e.type 8) (omega arith)
          (omega arith)
        ∙ omega arith

    with_slot : bit_or (base + e.type * 2 ^ 8) (slot + 1) ≡ base + e.type * 2 ^ 8 + (slot + 1)
    with_slot =
        bit_or-eq-add 8 (handle_tag * 2 ^ 40 + e.generation * 2 ^ 8 + e.type)
          (base + e.type * 2 ^ 8) (slot + 1) (omega arith) (omega arith)

-- The fields of any handle, as divisions.
pub encoded_slot_mod : (h : ℕ) → encoded_slot h ≡ h % 2 ^ 8
encoded_slot_mod h = omega (arith, bit_and_mask 8 h)

pub encoded_type_mod : (h : ℕ) → encoded_type h ≡ h / 2 ^ 8 % 2 ^ 8
encoded_type_mod h = omega (arith, bit_and_mask 8 (shr h 8))

pub encoded_generation_mod : (h : ℕ) → encoded_generation h ≡ h / 2 ^ 16 % 2 ^ 32
encoded_generation_mod h = omega (arith, bit_and_mask 32 (shr h 16))

-- What a handle that `make_handle` built decodes to.
pub record Decodes (h slot : ℕ) (e : Entry) : Type 0 where
  pub tag : shr h 48 ≡ handle_tag
  pub slot_back : encoded_slot h ≡ slot + 1
  pub type_back : encoded_type h ≡ e.type
  pub generation_back : encoded_generation h ≡ e.generation

pub make_handle-Decodes : (slot : ℕ) (e : Entry) → Fits slot e → Decodes (make_handle slot e) slot e
make_handle-Decodes slot e f = record {
  tag = omega (arith, make_handle_sum slot e f);
  slot_back = encoded_slot_mod _ ∙ omega (arith, make_handle_sum slot e f);
  type_back = encoded_type_mod _ ∙ omega (arith, make_handle_sum slot e f);
  generation_back = encoded_generation_mod _ ∙ omega (arith, make_handle_sum slot e f);
}

-- A word that decodes to an entry's fields is the handle of that entry.
pub Decodes-make_handle :
    (h slot : ℕ) (e : Entry) → Fits slot e → Decodes h slot e → h ≡ make_handle slot e
Decodes-make_handle h slot e f d = omega (
  arith,
  make_handle_sum slot e f,
  encoded_slot_mod h,
  encoded_type_mod h,
  encoded_generation_mod h,
)

pub make_handle-ne-zero : (slot : ℕ) (e : Entry) → Fits slot e → make_handle slot e ≢ 0
make_handle-ne-zero slot e f = omega (arith, make_handle_sum slot e f)
