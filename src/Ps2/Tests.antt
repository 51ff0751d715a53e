-- ===== src/Ps2/Tests.antt =====
-- Tests of the model of src/ps2.c, and its theorems at concrete inputs.
use argusos_uefi_v.Base.{
  ℕ, zero, suc, ◌+◌, ◌≡◌, refl, true, false, none, some, List, [], ◌∷◌, ◌++◌, ◌==◌, if◌then◌else◌,
  length, arith, inl,
}
use argusos_uefi_v.Ps2.{Ps2, dequeue_key, route_data_byte, queue_character}
use argusos_uefi_v.Ps2.Keyboard.{
  Decoder, decode_scan_code, decode_plain, decode_pressed, translate_letter, translate_symbol,
}
use argusos_uefi_v.Ps2.Pointing.{Mouse, Event, zero_event, decode_mouse_byte, finish_packet}
use argusos_uefi_v.Ps2.Ring.{
  Queue, IsQueue, queue_value, dequeue_value, contents, first, rest, ring_lem,
}
use argusos_uefi_v.Ps2.Controller.{drain_controller, drain}
use argusos_uefi_v.Ps2.Setup.{
  released, ps2_keyboard_init, ps2_mouse_init, ps2_getc_nonblocking, ps2_mouse_get_event,
}
use argusos_uefi_v.Ps2.Decode.{decode_scan_code-is_answer, is_answer}
use argusos_uefi_v.Ps2.Packet.{decode_bytes, waiting, IsMovement, packet_lem}
use argusos_uefi_v.Ps2.Steady.{IsMouse, IsPs2, Keeps}
use argusos_uefi_v.Ps2.Calls.{calls_lem}

abbrev repeated : {A : Type 0} → ℕ → A → List A
repeated zero x = []
repeated (suc n) x = x ∷ repeated n x

-- A key queue whose head has gone round the end of the array.
abbrev round_keys : Queue ℕ
round_keys = record {
  cells = 0x61 ∷ repeated 61 0 ++ 0x62 ∷ 0x63 ∷ [];
  head = 1;
  tail = 62;
  dropped = 0;
}

round_keys-IsQueue : IsQueue 64 round_keys
round_keys-IsQueue = record { slots = refl; head_in = omega arith; tail_in = omega arith }

round_contents : contents 64 round_keys 0 ≡ 0x62 ∷ 0x63 ∷ 0x61 ∷ []
round_contents = refl

ring_example :
    (IsQueue 64 (queue_value 64 round_keys 0x64)
      × (contents 64 (queue_value 64 round_keys 0x64) 0 ≡ (
          if length (contents 64 round_keys 0) + 1 == 64
          then contents 64 round_keys 0
          else contents 64 round_keys 0 ++ 0x64 ∷ [])))
    × IsQueue 64 (dequeue_value 64 round_keys 0).0
    × ((dequeue_value 64 round_keys 0).1 ≡ first (contents 64 round_keys 0))
    × (contents 64 (dequeue_value 64 round_keys 0).0 0 ≡ rest (contents 64 round_keys 0))
ring_example = ring_lem 64 round_keys 0x64 0 (inl refl) round_keys-IsQueue

-- With the caps lock and no shift key, the key A.
abbrev locked : Decoder
locked = record released { caps_lock = true }

answer_example : is_answer (decode_scan_code locked 0x1e).1 ≡ true
answer_example = decode_scan_code-is_answer locked 0x1e

capital_a : (decode_scan_code locked 0x1e).1 ≡ some 0x41
unfolding decode_scan_code decode_plain decode_pressed translate_letter translate_symbol
capital_a = refl

-- The key of the full stop.
no_full_stop : (decode_scan_code released 0x34).1 ≡ none
unfolding decode_scan_code decode_plain decode_pressed translate_letter translate_symbol
no_full_stop = refl

abbrev still_mouse : Mouse
still_mouse = record {
  events = record { cells = repeated 32 zero_event; head = 0; tail = 0; dropped = 0 };
  packet = 0 ∷ 0 ∷ 0 ∷ [];
  packet_index = 0;
  packets = 0;
}

still_mouse-IsMouse : IsMouse still_mouse
still_mouse-IsMouse = record {
  events = record { slots = refl; head_in = omega arith; tail_in = omega arith };
  bytes = refl;
  started = omega arith;
}

-- A stray byte, then a packet: one to the left, two up, the left button.
packet_example :
    let m' = decode_bytes (0x10 ∷ 0x19 ∷ 0xff ∷ 2 ∷ []) still_mouse in
    IsMouse m'
    × (m'.packet_index ≡ 0)
    × (m'.packets ≡ 1)
    × (e : Event) × IsMovement 0x19 0xff 2 e
    × (waiting m' ≡ e ∷ [])
packet_example =
    packet_lem still_mouse (0x10 ∷ []) 0x19 0xff 2 still_mouse-IsMouse refl refl refl (omega arith)
      (omega arith)

packet_moves :
    waiting (decode_bytes (0x10 ∷ 0x19 ∷ 0xff ∷ 2 ∷ []) still_mouse)
    ≡ record { dx = 0xffff; dy = 0xfffe; buttons = 1 } ∷ []
unfolding decode_mouse_byte finish_packet queue_value
packet_moves = refl

-- A controller with one byte to give, at the status and data given; the ports are counted.
abbrev one_byte_in8 : ℕ → List (ℕ × ℕ) → List (ℕ × ℕ) × ℕ
one_byte_in8 port [] = ([], 0)
one_byte_in8 port ((status, value) ∷ others) =
    if port == 0x64 then ((status, value) ∷ others, status) else (others, value)

abbrev one_byte_out8 : ℕ → ℕ → List (ℕ × ℕ) → List (ℕ × ℕ)
one_byte_out8 port value io = io

abbrev running : Ps2
running = record {
  controller_available = true;
  keyboard_available = true;
  keyboard_irq_online = false;
  mouse_available = true;
  mouse_irq_online = false;
  decoder = released;
  keys = record { cells = repeated 64 0; head = 0; tail = 0; dropped = 0 };
  mouse = still_mouse;
}

running-IsPs2 : IsPs2 running
running-IsPs2 = record {
  keys = record { slots = refl; head_in = omega arith; tail_in = omega arith };
  mouse = still_mouse-IsMouse;
}

abbrev key_a_waits : List (ℕ × ℕ) × Ps2
key_a_waits = ((1, 0x1e) ∷ [], running)

key_a_read : (ps2_getc_nonblocking one_byte_in8 one_byte_out8 key_a_waits).1 ≡ some 0x61
unfolding ps2_getc_nonblocking dequeue_key dequeue_value drain_controller drain route_data_byte
    queue_character decode_scan_code decode_plain decode_pressed translate_letter queue_value
key_a_read = refl

calls_example :
    IsPs2 (drain_controller one_byte_in8 one_byte_out8 key_a_waits).1
    × Keeps one_byte_in8 one_byte_out8
        (ps2_keyboard_init one_byte_in8 one_byte_out8 true true true key_a_waits)
    × Keeps one_byte_in8 one_byte_out8
        (ps2_mouse_init one_byte_in8 one_byte_out8 true true true key_a_waits)
    × Keeps one_byte_in8 one_byte_out8 (ps2_getc_nonblocking one_byte_in8 one_byte_out8 key_a_waits)
    × Keeps one_byte_in8 one_byte_out8
        (ps2_mouse_get_event one_byte_in8 one_byte_out8 true key_a_waits)
calls_example = calls_lem one_byte_in8 one_byte_out8 true true true true key_a_waits running-IsPs2
