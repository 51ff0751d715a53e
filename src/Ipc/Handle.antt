-- ===== src/Ipc/Handle.antt =====
-- Endpoint handles, src/ipc.c `make_endpoint` and `resolve_endpoint`: tag, generation and slot.
use Prim.Native.Nat.{bit_or}
use argusos_uefi_v.Base.{ℕ, ◌+◌, ◌*◌, ◌%◌, ◌^◌, ◌<◌, ◌≡◌, ◌≢◌, ◌∙◌, ap, some, false, arith}
use argusos_uefi_v.Base.Bits.Fields.{bit_or-eq-add, bit_and_mask}
use argusos_uefi_v.Base.Words.{shl64}
use argusos_uefi_v.Ipc.{
  Endpoint, Endpoints, endpoint_at, endpoint_max, endpoint_tag, make_endpoint, malformed,
  resolve_endpoint, slot_field,
}

pub make_endpoint_sum :
    (slot : ℕ) (e : Endpoint)
    → slot < 255
    → e.generation < 2 ^ 32
    → make_endpoint slot e ≡ endpoint_tag * 2 ^ 48 + e.generation * 2 ^ 8 + (slot + 1)
unfolding make_endpoint
make_endpoint_sum slot e hs hg = ap (λ (x : ℕ). bit_or x (slot + 1)) with_generation ∙ with_slot
  where
    with_generation :
        bit_or (shl64 endpoint_tag 48) (shl64 e.generation 8)
        ≡ endpoint_tag * 2 ^ 48 + e.generation * 2 ^ 8
    with_generation =
        bit_or-eq-add 48 endpoint_tag (shl64 endpoint_tag 48) (shl64 e.generation 8) (omega arith)
          (omega arith)
        ∙ omega arith

    with_slot :
        bit_or (endpoint_tag * 2 ^ 48 + e.generation * 2 ^ 8) (slot + 1)
        ≡ endpoint_tag * 2 ^ 48 + e.generation * 2 ^ 8 + (slot + 1)
    with_slot =
        bit_or-eq-add 8 (endpoint_tag * 2 ^ 40 + e.generation)
          (endpoint_tag * 2 ^ 48 + e.generation * 2 ^ 8) (slot + 1) (omega arith) (omega arith)

pub slot_field_mod : (h : ℕ) → slot_field h ≡ h % 2 ^ 8
slot_field_mod h = omega (arith, bit_and_mask 8 h)

-- A handle that `make_endpoint` built is well formed, and shows its slot.
pub make_endpoint_wf :
    (slot : ℕ) (e : Endpoint)
    → slot < endpoint_max
    → e.generation < 2 ^ 32
    → (malformed (make_endpoint slot e) ≡ false) × (slot_field (make_endpoint slot e) ≡ slot + 1)
unfolding malformed
make_endpoint_wf slot e hs hg = (ground (arith, sum, field), field)
  where
    sum : make_endpoint slot e ≡ endpoint_tag * 2 ^ 48 + e.generation * 2 ^ 8 + (slot + 1)
    sum = make_endpoint_sum slot e (omega arith) hg

    field : slot_field (make_endpoint slot e) ≡ slot + 1
    field = slot_field_mod _ ∙ omega (arith, sum)

-- What a handle that resolves says of its slot.
pub record Names (es : Endpoints) (handle slot : ℕ) : Type 0 where
  pub in_range : slot < endpoint_max
  pub shown : slot_field handle ≡ slot + 1
  pub used : (endpoint_at es slot).used ≢ 0
  pub is_handle : make_endpoint slot (endpoint_at es slot) ≡ handle

pub resolve-Names :
    (es : Endpoints) (handle slot : ℕ)
    → resolve_endpoint es handle ≡ some slot
    → Names es handle slot
unfolding resolve_endpoint malformed
resolve-Names es handle slot e = ground arith

pub Names-resolve :
    (es : Endpoints) (handle slot : ℕ)
    → (endpoint_at es slot).generation < 2 ^ 32
    → slot < endpoint_max
    → (endpoint_at es slot).used ≢ 0
    → make_endpoint slot (endpoint_at es slot) ≡ handle
    → resolve_endpoint es handle ≡ some slot
unfolding resolve_endpoint
Names-resolve es handle slot w h u e =
    let wf = make_endpoint_wf slot (endpoint_at es slot) h w in ground (arith, wf.0, wf.1)
