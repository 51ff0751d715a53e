-- ===== src/Ps2/Steady.antt =====
-- src/ps2.c: the heads and tails of the queues and the index of the packet, from step to step.
use Prim.Native.Nat.{bit_and}
use argusos_uefi_v.Base.{
  ℕ, zero, suc, ◌+◌, get_or, set, ◌<◌, ◌≡◌, ◌∙◌, Bool, true, false, not, ◌&&◌, Option, none, some,
  length, length-set, ◌==◌, if-both, arith, ltb,
}
use argusos_uefi_v.Base.Words.{u8}
use argusos_uefi_v.Ps2.{
  Ps2, key_capacity, queue_character, route_data_byte, dequeue_key, dequeue_mouse_event,
}
use argusos_uefi_v.Ps2.Keyboard.{decode_scan_code}
use argusos_uefi_v.Ps2.Pointing.{
  Mouse, mouse_capacity, zero_event, packet_event, finish_packet, decode_mouse_byte,
}
use argusos_uefi_v.Ps2.Ring.{
  IsQueue, queue_value_refines, dequeue_value_refines, next-wraps_keys, next-wraps_mouse,
}
use argusos_uefi_v.Ps2.Controller.{
  and_then, on_ports, drain, mouse_response, read_mouse_response, mouse_answer, write_mouse_byte,
  send_attempts, send_mouse_command, enable_mouse_port, configure_mouse_port,
}

pub record IsMouse (m : Mouse) : Type 0 where
  pub events : IsQueue mouse_capacity m.events
  pub bytes : length m.packet ≡ 3
  pub started : m.packet_index < 3

pub record IsPs2 (s : Ps2) : Type 0 where
  pub keys : IsQueue key_capacity s.keys
  pub mouse : IsMouse s.mouse

finish_packet-IsMouse :
    (m : Mouse) → IsQueue mouse_capacity m.events → length m.packet ≡ 3 → IsMouse (finish_packet m)
unfolding finish_packet
finish_packet-IsMouse m q size =
    let put =
      (queue_value_refines mouse_capacity (ground arith) next-wraps_mouse m.events
        (packet_event (get_or m.packet 0 0) (get_or m.packet 1 0) (get_or m.packet 2 0)) zero_event
        q).0 in
    if-both IsMouse (not (bit_and (get_or m.packet 0 0) 0xC0 == 0))
      (λ e. record { events = q; bytes = size; started = omega arith })
      (λ e. record { events = put; bytes = size; started = omega arith })

decode_mouse_byte-IsMouse :
    (m : Mouse) (value : ℕ) → IsMouse m → IsMouse (decode_mouse_byte m value)
unfolding decode_mouse_byte
decode_mouse_byte-IsMouse m value ok =
    let size = length-set m.packet m.packet_index value ∙ ok.bytes in
    if-both IsMouse (m.packet_index == 0 && bit_and value 8 == 0) (λ e. ok)
      (λ e.
        if-both IsMouse (ltb (m.packet_index + 1) 3)
          (λ l. record { events = ok.events; bytes = size; started = ground arith })
          (λ l.
            finish_packet-IsMouse
              (record m {
                packet = set m.packet m.packet_index value;
                packet_index = m.packet_index + 1;
              })
              ok.events size))

queue_character-IsPs2 :
    (s : Ps2) (character : Option ℕ) → IsPs2 s → IsPs2 (queue_character s character)
unfolding queue_character
queue_character-IsPs2 s none ok = ok
queue_character-IsPs2 s (some c) ok = record {
  keys =
      (queue_value_refines key_capacity (ground arith) next-wraps_keys s.keys (u8 c) 0 ok.keys).0;
  mouse = ok.mouse;
}

route_data_byte-IsPs2 :
    (s : Ps2) (status value : ℕ) → IsPs2 s → IsPs2 (route_data_byte s status value)
unfolding route_data_byte
route_data_byte-IsPs2 s status value ok =
    let (decoder, character) = decode_scan_code s.decoder value in
    if-both IsPs2 (not (bit_and status 0x20 == 0))
      (λ e.
        if-both IsPs2 s.mouse_available
          (λ m. record { keys = ok.keys; mouse = decode_mouse_byte-IsMouse s.mouse value ok.mouse })
          (λ m. ok))
      (λ e.
        if-both IsPs2 (not s.keyboard_available) (λ k. ok)
          (λ k.
            queue_character-IsPs2 (record s { decoder = decoder }) character
              (record { keys = ok.keys; mouse = ok.mouse })))

pub dequeue_key-IsPs2 : (s : Ps2) → IsPs2 s → IsPs2 (dequeue_key s).0
unfolding dequeue_key
dequeue_key-IsPs2 s ok = record {
  keys = (dequeue_value_refines key_capacity (ground arith) next-wraps_keys s.keys 0 ok.keys).0;
  mouse = ok.mouse;
}

pub dequeue_mouse_event-IsPs2 : (s : Ps2) → IsPs2 s → IsPs2 (dequeue_mouse_event s).0
unfolding dequeue_mouse_event
dequeue_mouse_event-IsPs2 s ok = record {
  keys = ok.keys;
  mouse = record {
    events =
        (dequeue_value_refines mouse_capacity (ground arith) next-wraps_mouse s.mouse.events
          zero_event ok.mouse.events).0;
    bytes = ok.mouse.bytes;
    started = ok.mouse.started;
  };
}

elim-both :
    {A : Type 0} (P : A → Type 0) (c : Bool) {x y : A}
    → P x
    → P y
    → P (elim c [ true ↦ x | false ↦ y ])
elim-both P true p q = p
elim-both P false p q = q

module _ {Io : Type 0} (in8 : ℕ → Io → Io × ℕ) (out8 : ℕ → ℕ → Io → Io) where
  -- What a step leaves is again a state of the driver.
  abbrev pub Keeps : {B : Type 0} → (Io × Ps2) × B → Type 0
  Keeps result = IsPs2 result.0.1

  and_then-Keeps :
      (step : (Io × Ps2) × Bool) (next : Io × Ps2 → (Io × Ps2) × Bool)
      → Keeps step
      → ((state : Io × Ps2) → IsPs2 state.1 → Keeps (next state))
      → Keeps (and_then in8 out8 step next)
  unfolding and_then
  and_then-Keeps (state, false) next ok then_ok = ok
  and_then-Keeps (state, true) next ok then_ok = then_ok state ok

  pub drain-IsPs2 :
      (rounds : ℕ) (state : Io × Ps2) → IsPs2 state.1 → IsPs2 (drain in8 out8 rounds state).1
  unfolding drain
  drain-IsPs2 zero (io, s) ok = ok
  drain-IsPs2 (suc rounds) (io, s) ok =
      let (io', status) = in8 0x64 io in
      let (io'', value) = in8 0x60 io' in
      elim-both (λ (r : Io × Ps2). IsPs2 r.1) (bit_and status 1 == 0) ok
        (drain-IsPs2 rounds (io'', route_data_byte s status value)
          (route_data_byte-IsPs2 s status value ok))

  mouse_response-Keeps :
      (rounds : ℕ) (state : Io × Ps2) → IsPs2 state.1 → Keeps (mouse_response in8 out8 rounds state)
  unfolding mouse_response
  mouse_response-Keeps zero (io, s) ok = ok
  mouse_response-Keeps (suc rounds) (io, s) ok =
      let (io', status) = in8 0x64 io in
      let (io'', value) = in8 0x60 io' in
      elim-both Keeps (bit_and status 1 == 0) (mouse_response-Keeps rounds (io', s) ok) (
        elim-both Keeps (bit_and status 0x20 == 0)
          (mouse_response-Keeps rounds (io'', route_data_byte s status value)
            (route_data_byte-IsPs2 s status value ok))
          ok)

  on_ports-Keeps :
      (step : Io → Io × Bool) (state : Io × Ps2)
      → IsPs2 state.1
      → Keeps (on_ports in8 out8 step state)
  unfolding on_ports
  on_ports-Keeps step (io, s) ok = ok

  mouse_answer-Keeps :
      (again : Io × Ps2 → (Io × Ps2) × Bool) (answer : (Io × Ps2) × Option ℕ)
      → ((state : Io × Ps2) → IsPs2 state.1 → Keeps (again state))
      → Keeps answer
      → Keeps (mouse_answer in8 out8 again answer)
  unfolding mouse_answer
  mouse_answer-Keeps again (state, none) keeps ok = ok
  mouse_answer-Keeps again (state, some response) keeps ok =
      elim-both Keeps (response == 0xFA) ok (elim-both Keeps (response == 0xFE) (keeps state ok) ok)

  send_attempts-Keeps :
      (attempts command : ℕ) (state : Io × Ps2)
      → IsPs2 state.1
      → Keeps (send_attempts in8 out8 attempts command state)
  unfolding send_attempts read_mouse_response
  send_attempts-Keeps zero command state ok = ok
  send_attempts-Keeps (suc attempts) command state ok =
      and_then-Keeps (on_ports in8 out8 (write_mouse_byte in8 out8 command) state)
        (λ sent.
          mouse_answer in8 out8 (send_attempts in8 out8 attempts command)
            (read_mouse_response in8 out8 sent))
        (on_ports-Keeps (write_mouse_byte in8 out8 command) state ok)
        (λ sent fine.
          mouse_answer-Keeps (send_attempts in8 out8 attempts command)
            (read_mouse_response in8 out8 sent) (send_attempts-Keeps attempts command)
            (mouse_response-Keeps 200000 sent fine))

  pub configure_mouse_port-Keeps :
      (state : Io × Ps2) → IsPs2 state.1 → Keeps (configure_mouse_port in8 out8 state)
  unfolding configure_mouse_port send_mouse_command
  configure_mouse_port-Keeps state ok =
      let send = send_mouse_command in8 out8 in
      let enabled = on_ports in8 out8 (enable_mouse_port in8 out8) state in
      and_then-Keeps (and_then in8 out8 enabled (send 0xF6)) (send 0xF4)
        (and_then-Keeps enabled (send 0xF6) (on_ports-Keeps (enable_mouse_port in8 out8) state ok)
          (send_attempts-Keeps 3 0xF6))
        (send_attempts-Keeps 3 0xF4)
