-- ===== src/Ps2/Packet.antt =====
-- src/ps2.c `decode_mouse_byte`: what a packet of three bytes becomes.
use Prim.Native.Nat.{bit_and}
use argusos_uefi_v.Base.{
  ℕ, ◌+◌, ◌*◌, ◌/◌, ◌%◌, ◌^◌, Bool, not, ◌&&◌, [], ◌∷◌, ◌++◌, ◌<◌, ◌≡◌, ◌∙◌, ap, refl, true, false,
  List, ◌==◌, if◌then◌else◌, length, get_or, set, length-set, get_or-set_self, get_or-set_ne, arith,
  inl, inr, Bool-cases,
}
use argusos_uefi_v.Base.Bits.Fields.{bit_and_field, bit_and_mask}
use argusos_uefi_v.Base.Words.{u16, u64}
use argusos_uefi_v.Ps2.Ring.{
  Queue, IsQueue, contents, queue_value, queue_value_refines, next-wraps_mouse,
}
use argusos_uefi_v.Ps2.Steady.{IsMouse}
use argusos_uefi_v.Ps2.Pointing.{
  Mouse, Event, mouse_capacity, zero_event, packet_event, finish_packet, decode_mouse_byte,
}

-- The bytes that a packet leaves in `mouse_packet`.
abbrev after : List ℕ → ℕ → ℕ → ℕ → List ℕ
after packet a b c = set (set (set packet 0 a) 1 b) 2 c

module _ (packet : List ℕ) (size : length packet ≡ 3) (a b c : ℕ) where
  after-0 : get_or (after packet a b c) 0 0 ≡ a
  after-0 =
      get_or-set_ne (set (set packet 0 a) 1 b) 2 0 c 0 (ground arith)
      ∙ get_or-set_ne (set packet 0 a) 1 0 b 0 (ground arith)
      ∙ get_or-set_self packet 0 a 0 (omega arith)

  after-1 : get_or (after packet a b c) 1 0 ≡ b
  after-1 =
      let l = length-set packet 0 a in
      get_or-set_ne (set (set packet 0 a) 1 b) 2 1 c 0 (ground arith)
      ∙ get_or-set_self (set packet 0 a) 1 b 0 (omega arith)

  after-2 : get_or (after packet a b c) 2 0 ≡ c
  after-2 =
      let l = length-set packet 0 a in
      let m = length-set (set packet 0 a) 1 b in
      get_or-set_self (set (set packet 0 a) 1 b) 2 c 0 (omega arith)

-- The event of a packet, or nothing where one of its deltas overflowed.
abbrev packet_effect : Queue Event → ℕ → ℕ → ℕ → Queue Event
packet_effect q a b c =
    if bit_and a 0xC0 == 0 then queue_value mouse_capacity q (packet_event a b c) else q

abbrev three : Mouse → ℕ → ℕ → ℕ → Mouse
three m a b c = decode_mouse_byte (decode_mouse_byte (decode_mouse_byte m a) b) c

three-finish :
    (m : Mouse) (a b c : ℕ)
    → m.packet_index ≡ 0
    → (bit_and a 8 == 0) ≡ false
    → three m a b c ≡ finish_packet (record m { packet = after m.packet a b c; packet_index = 3 })
unfolding decode_mouse_byte
three-finish m a b c start first = rw (start, first) refl

finish :
    (m : Mouse) (a b c : ℕ)
    → length m.packet ≡ 3
    → finish_packet (record m { packet = after m.packet a b c; packet_index = 3 }) ≡ record m {
      events = packet_effect m.events a b c;
      packet = after m.packet a b c;
      packet_index = 0;
      packets = u64 (m.packets + 1);
    }
unfolding finish_packet
finish m a b c size =
    rw (after-0 m.packet size a b c, after-1 m.packet size a b c, after-2 m.packet size a b c)
      (elim (Bool-cases (bit_and a 0xC0 == 0)) [ inl e ↦ rw e refl | inr e ↦ rw e refl ])

length-after : (packet : List ℕ) (a b c : ℕ) → length (after packet a b c) ≡ length packet
length-after packet a b c =
    length-set (set (set packet 0 a) 1 b) 2 c
    ∙ length-set (set packet 0 a) 1 b
    ∙ length-set packet 0 a

flip : {A : Type 0} (b : Bool) (x y : A) → (if b then x else y) ≡ (if not b then y else x)
flip true x y = refl
flip false x y = refl

-- The bytes of the mouse, one after the other.
abbrev pub decode_bytes : List ℕ → Mouse → Mouse
decode_bytes [] m = m
decode_bytes (value ∷ values) m = decode_bytes values (decode_mouse_byte m value)

-- Bytes without bit 3.
abbrev pub are_stray : List ℕ → Bool
are_stray [] = true
are_stray (value ∷ values) = value / 8 % 2 == 0 && are_stray values

-- The flags of a packet as digits of its first byte.
bit_3 : (a : ℕ) → (bit_and a 8 == 0) ≡ (a / 8 % 2 == 0)
bit_3 a = let f = bit_and_field 3 1 a in ground arith

overflow_bits : (a : ℕ) → (bit_and a 0xC0 == 0) ≡ (a / 64 % 4 == 0)
overflow_bits a = let f = bit_and_field 6 2 a in ground arith

skip_stray :
    (m : Mouse) (stray values : List ℕ)
    → m.packet_index ≡ 0
    → are_stray stray ≡ true
    → decode_bytes (stray ++ values) m ≡ decode_bytes values m
unfolding decode_mouse_byte
skip_stray m [] values start ok = refl
skip_stray m (x ∷ stray) values start ok =
    let low : (bit_and x 8 == 0) ≡ true = bit_3 x ∙ ground arith in
    let kept : decode_mouse_byte m x ≡ m = rw (start, low) refl in
    ap (decode_bytes (stray ++ values)) kept ∙ skip_stray m stray values start (ground arith)

-- An event, in words of 16 bits, as the movement of a packet: `dx` is the second byte, less 256
-- where the first has bit 4; `dy` is the negation of the third less 256 where the first has bit 5;
-- and the buttons are the low three bits of the first.
pub record IsMovement (a b c : ℕ) (e : Event) : Type 0 where
  pub dx_word : e.dx < 2 ^ 16
  pub dx_signed : u16 (e.dx + 256 * (a / 16 % 2)) ≡ b
  pub dy_word : e.dy < 2 ^ 16
  pub dy_signed : u16 (e.dy + c) ≡ 256 * (a / 32 % 2)
  pub pressed : e.buttons ≡ a % 8

packet_event-IsMovement : (a b c : ℕ) → b < 256 → c < 256 → IsMovement a b c (packet_event a b c)
packet_event-IsMovement a b c hb hc =
    let right = bit_and_field 4 1 a in
    let down = bit_and_field 5 1 a in
    record {
      dx_word = ground arith;
      dx_signed = ground arith;
      dy_word = ground arith;
      dy_signed = ground arith;
      pressed = bit_and_mask 3 a;
    }

abbrev pub waiting : Mouse → List Event
waiting m = contents mouse_capacity m.events zero_event

-- The queue after a packet, where `e` is its event.
effect_lem :
    (q : Queue Event) (a b c : ℕ)
    → IsQueue mouse_capacity q
    → IsQueue mouse_capacity (packet_effect q a b c)
      × (contents mouse_capacity (packet_effect q a b c) zero_event ≡ (
          if a / 64 % 4 == 0
            && not (length (contents mouse_capacity q zero_event) + 1 == mouse_capacity)
          then contents mouse_capacity q zero_event ++ packet_event a b c ∷ []
          else contents mouse_capacity q zero_event))
effect_lem q a b c ok =
    let (fine, added) =
      queue_value_refines mouse_capacity (omega arith) next-wraps_mouse q (packet_event a b c)
        zero_event ok in
    rw (overflow_bits a) (elim (Bool-cases (a / 64 % 4 == 0)) [
      | inl e ↦ rw e (
        fine,
        added
            ∙ flip (length (contents mouse_capacity q zero_event) + 1 == mouse_capacity)
                (contents mouse_capacity q zero_event)
                (contents mouse_capacity q zero_event ++ packet_event a b c ∷ []),
      )
      | inr e ↦ rw e (ok, refl)
    ])

-- A well-formed mouse between two packets. Whatever bytes without bit 3 come first are passed over;
-- then three bytes, of which the first has bit 3, make one packet: it is counted, the mouse is well
-- formed and between two packets again, and an event with the packet's two signed movements and its
-- buttons joins the queue at its end, unless bit 6 or bit 7 of the first byte is set or one cell of
-- the queue alone is free, when the queue keeps what it holds.
pub packet_lem :
    (m : Mouse) (stray : List ℕ) (a b c : ℕ)
    → IsMouse m
    → m.packet_index ≡ 0
    → are_stray stray ≡ true
    → a / 8 % 2 ≡ 1
    → b < 256
    → c < 256
    → let m' = decode_bytes (stray ++ a ∷ b ∷ c ∷ []) m in
      IsMouse m'
      × (m'.packet_index ≡ 0)
      × (m'.packets ≡ u64 (m.packets + 1))
      × (e : Event) × IsMovement a b c e
      × (waiting m' ≡ (
          if a / 64 % 4 == 0 && not (length (waiting m) + 1 == mouse_capacity)
          then waiting m ++ e ∷ []
          else waiting m))
packet_lem m stray a b c ok start skipped first hb hc =
    let flag : (bit_and a 8 == 0) ≡ false = bit_3 a ∙ ground arith in
    let all =
      skip_stray m stray (a ∷ b ∷ c ∷ []) start skipped
      ∙ three-finish m a b c start flag
      ∙ finish m a b c ok.bytes in
    let (fine, queued) = effect_lem m.events a b c ok.events in
    rw all (
      record {
        events = fine;
        bytes = length-after m.packet a b c ∙ ok.bytes;
        started = omega arith;
      },
      refl,
      refl,
      packet_event a b c,
      packet_event-IsMovement a b c hb hc,
      queued,
    )
