-- ===== src/Ps2/Pointing.antt =====
-- src/ps2.c: the mouse's packets of three bytes. An `int16_t` is its word of 16 bits.
use Prim.Native.Nat.{bit_and}
use argusos_uefi_v.Base.{
  ℕ, ◌+◌, ◌-◌, ◌^◌, Bool, not, ◌&&◌, List, ltb, ◌==◌, if◌then◌else◌, get_or, set,
}
use argusos_uefi_v.Base.Words.{u16, u64}
use argusos_uefi_v.Ps2.Ring.{Queue, queue_value}

abbrev pub mouse_capacity : ℕ
mouse_capacity = 32

-- `ps2_mouse_event_t`.
pub record Event : Type 0 where
  pub dx : ℕ
  pub dy : ℕ
  pub buttons : ℕ

abbrev pub zero_event : Event
zero_event = record { dx = 0; dy = 0; buttons = 0 }

-- The static variables of the mouse.
pub record Mouse : Type 0 where
  pub events : Queue Event
  pub packet : List ℕ
  pub packet_index : ℕ
  pub packets : ℕ

-- `value` and, where the sign bit is set, `value - 256`, as an `int16_t`.
abbrev pub signed_delta : ℕ → Bool → ℕ
signed_delta value negative = if negative then u16 (value + 2 ^ 16 - 256) else value

-- The event of a full packet.
abbrev pub packet_event : ℕ → ℕ → ℕ → Event
packet_event flags x y = record {
  dx = signed_delta x (not (bit_and flags 0x10 == 0));
  dy = u16 (2 ^ 16 - signed_delta y (not (bit_and flags 0x20 == 0)));
  buttons = bit_and flags 7;
}

-- What follows the third byte; the bits 0xC0 say that a delta overflowed.
unfoldable pub finish_packet : Mouse → Mouse
finish_packet m =
    let m' = record m { packet_index = 0; packets = u64 (m.packets + 1) } in
    let flags = get_or m.packet 0 0 in
    if not (bit_and flags 0xC0 == 0) then m' else record m' {
      events =
          queue_value mouse_capacity m.events
            (packet_event flags (get_or m.packet 1 0) (get_or m.packet 2 0));
    }

unfoldable pub decode_mouse_byte : Mouse → ℕ → Mouse
decode_mouse_byte m value =
    let m' = record m {
      packet = set m.packet m.packet_index value;
      packet_index = m.packet_index + 1;
    } in
    if m.packet_index == 0 && bit_and value 8 == 0
    then m
    else (if ltb m'.packet_index 3 then m' else finish_packet m')
