-- ===== src/Ps2.antt =====
-- src/ps2.c: the keyboard's scan codes and the mouse's packets, from the bytes of the controller to
-- the queues that the rest of the kernel reads. The static variables are the record `Ps2`; the
-- counters are `uint64_t`. The exchange with the controller's ports is Ps2/Controller.
pub mod Ring
pub mod Keyboard
pub mod Pointing
pub mod Controller
pub mod Setup
pub mod Decode
pub mod Packet
pub mod Steady
pub mod Calls
mod Tests
use Prim.Native.Nat.{bit_and}
use argusos_uefi_v.Base.{ℕ, Bool, not, Option, none, some, ◌==◌, if◌then◌else◌}
use argusos_uefi_v.Base.Words.{u8}
use argusos_uefi_v.Ps2.Ring.{Queue, queue_value, dequeue_value}
use argusos_uefi_v.Ps2.Keyboard.{Decoder, decode_scan_code}
use argusos_uefi_v.Ps2.Pointing.{Mouse, Event, decode_mouse_byte, mouse_capacity, zero_event}

pub record Ps2 : Type 0 where
  pub controller_available : Bool
  pub keyboard_available : Bool
  pub keyboard_irq_online : Bool
  pub mouse_available : Bool
  pub mouse_irq_online : Bool
  pub decoder : Decoder
  pub keys : Queue ℕ
  pub mouse : Mouse

abbrev pub key_capacity : ℕ
key_capacity = 64

unfoldable pub queue_character : Ps2 → Option ℕ → Ps2
queue_character s none = s
queue_character s (some character) = record s {
  keys = queue_value key_capacity s.keys (u8 character);
}

unfoldable pub route_data_byte : Ps2 → ℕ → ℕ → Ps2
route_data_byte s status value =
    let (decoder, character) = decode_scan_code s.decoder value in
    if not (bit_and status 0x20 == 0)
    then (if s.mouse_available then record s { mouse = decode_mouse_byte s.mouse value } else s)
    else (if not s.keyboard_available
        then s
        else queue_character (record s { decoder = decoder }) character)

-- `dequeue_key` on the static variables; `none` for -1.
unfoldable pub dequeue_key : Ps2 → Ps2 × Option ℕ
dequeue_key s =
    let (keys, character) = dequeue_value key_capacity s.keys 0 in
    (record s { keys = keys }, character)

unfoldable pub dequeue_mouse_event : Ps2 → Ps2 × Option Event
dequeue_mouse_event s =
    let (events, event) = dequeue_value mouse_capacity s.mouse.events zero_event in
    (record s { mouse = record s.mouse { events = events } }, event)
