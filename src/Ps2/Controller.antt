-- ===== src/Ps2/Controller.antt =====
-- src/ps2.c: the exchange with the controller, on the ports 0x60 (data) and 0x64 (status). The
-- hardware behind `cpu_in8` and `cpu_out8` is a parameter: a type of its states and the two
-- functions on it. A loop that waits has the source's number of rounds.
use Prim.Native.Nat.{bit_and, bit_or}
use argusos_uefi_v.Base.{ℕ, zero, suc, Bool, true, false, not, Option, none, some, ◌==◌}
use argusos_uefi_v.Ps2.{Ps2, route_data_byte}

module _ {Io : Type 0} (in8 : ℕ → Io → Io × ℕ) (out8 : ℕ → ℕ → Io → Io) where
  -- `&&` on steps that may fail: the second runs where the first succeeds.
  unfoldable pub and_then : {S : Type 0} → S × Bool → (S → S × Bool) → S × Bool
  and_then (s, false) next = (s, false)
  and_then (s, true) next = next s

  -- The loop of `wait_input_empty` and `wait_output_full`.
  unfoldable pub wait_status : ℕ → (ℕ → Bool) → Io → Io × Bool
  wait_status zero ready io = (io, false)
  wait_status (suc rounds) ready io =
      let (io', status) = in8 0x64 io in
      elim (ready status) [ true ↦ (io', true) | false ↦ wait_status rounds ready io' ]

  unfoldable pub wait_input_empty : Io → Io × Bool
  wait_input_empty io = wait_status 100000 (λ status. bit_and status 2 == 0) io

  unfoldable pub wait_output_full : Io → Io × Bool
  wait_output_full io = wait_status 100000 (λ status. not (bit_and status 1 == 0)) io

  unfoldable pub controller_command : ℕ → Io → Io × Bool
  controller_command command io =
      and_then (wait_input_empty io) (λ ready. (out8 0x64 command ready, true))

  -- What follows a wait for a byte: `none` where the wait ran out.
  unfoldable pub read_data : Io × Bool → Io × Option ℕ
  read_data (io, false) = (io, none)
  read_data (io, true) = let (io', value) = in8 0x60 io in (io', some value)

  unfoldable pub controller_read_byte : Io → Io × Option ℕ
  controller_read_byte io = read_data (wait_output_full io)

  unfoldable pub read_config_after : Io × Bool → Io × Option ℕ
  read_config_after (io, false) = (io, none)
  read_config_after (io, true) = controller_read_byte io

  unfoldable pub controller_read_config : Io → Io × Option ℕ
  controller_read_config io = read_config_after (controller_command 0x20 io)

  unfoldable pub controller_write_config : ℕ → Io → Io × Bool
  controller_write_config configuration io =
      and_then (and_then (controller_command 0x60 io) wait_input_empty)
        (λ ready. (out8 0x60 configuration ready, true))

  -- The configuration that was read, changed by `change` and written back.
  unfoldable pub update_config : (ℕ → ℕ) → Io × Option ℕ → Io × Bool
  update_config change (io, none) = (io, false)
  update_config change (io, some configuration) = controller_write_config (change configuration) io

  unfoldable pub configure_keyboard_port : Io → Io × Bool
  configure_keyboard_port io = and_then (controller_command 0xAE io) (λ ready.
      update_config (λ configuration. bit_and (bit_or configuration 0x41) 0xEF)
        (controller_read_config ready))

  -- The rounds of `drain_controller`.
  unfoldable pub drain : ℕ → Io × Ps2 → Io × Ps2
  drain zero (io, s) = (io, s)
  drain (suc rounds) (io, s) =
      let (io', status) = in8 0x64 io in
      let (io'', value) = in8 0x60 io' in
      elim (bit_and status 1 == 0) [
        | true ↦ (io', s)
        | false ↦ drain rounds (io'', route_data_byte s status value)
      ]

  unfoldable pub drain_controller : Io × Ps2 → Io × Ps2
  drain_controller state = drain 64 state

  -- The rounds of `read_mouse_response`; `none` where they run out.
  unfoldable pub mouse_response : ℕ → Io × Ps2 → (Io × Ps2) × Option ℕ
  mouse_response zero state = (state, none)
  mouse_response (suc rounds) (io, s) =
      let (io', status) = in8 0x64 io in
      let (io'', value) = in8 0x60 io' in
      elim (bit_and status 1 == 0) [
        | true ↦ mouse_response rounds (io', s)
        | false ↦ elim (bit_and status 0x20 == 0) [
          | true ↦ mouse_response rounds (io'', route_data_byte s status value)
          | false ↦ ((io'', s), some value)
        ]
      ]

  unfoldable pub read_mouse_response : Io × Ps2 → (Io × Ps2) × Option ℕ
  read_mouse_response state = mouse_response 200000 state

  -- A step on the ports alone, in the state that the keyboard's bytes also change.
  unfoldable pub on_ports : (Io → Io × Bool) → Io × Ps2 → (Io × Ps2) × Bool
  on_ports step (io, s) = let (io', ok) = step io in ((io', s), ok)

  unfoldable pub write_mouse_byte : ℕ → Io → Io × Bool
  write_mouse_byte command io =
      and_then (and_then (controller_command 0xD4 io) wait_input_empty)
        (λ ready. (out8 0x60 command ready, true))

  -- 0xFA acknowledges the command and 0xFE asks for it again.
  unfoldable pub mouse_answer :
      (Io × Ps2 → (Io × Ps2) × Bool) → (Io × Ps2) × Option ℕ → (Io × Ps2) × Bool
  mouse_answer again (state, none) = (state, false)
  mouse_answer again (state, some response) = elim (response == 0xFA) [
    | true ↦ (state, true)
    | false ↦ elim (response == 0xFE) [ true ↦ again state | false ↦ (state, false) ]
  ]

  -- The attempts of `send_mouse_command`.
  unfoldable pub send_attempts : ℕ → ℕ → Io × Ps2 → (Io × Ps2) × Bool
  send_attempts zero command state = (state, false)
  send_attempts (suc attempts) command state =
      and_then (on_ports (write_mouse_byte command) state)
        (λ sent. mouse_answer (send_attempts attempts command) (read_mouse_response sent))

  unfoldable pub send_mouse_command : ℕ → Io × Ps2 → (Io × Ps2) × Bool
  send_mouse_command command state = send_attempts 3 command state

  unfoldable pub test_passed : Io × Option ℕ → Io × Bool
  test_passed (io, none) = (io, false)
  test_passed (io, some response) = (io, response == 0)

  -- The part of `configure_mouse_port` before the commands to the mouse.
  unfoldable pub enable_mouse_port : Io → Io × Bool
  enable_mouse_port io =
      and_then
        (and_then (and_then (controller_command 0xA8 io) (controller_command 0xA9))
          (λ asked. test_passed (controller_read_byte asked)))
        (λ tested.
          update_config (λ configuration. bit_and (bit_or configuration 2) 0xDF)
            (controller_read_config tested))

  unfoldable pub configure_mouse_port : Io × Ps2 → (Io × Ps2) × Bool
  configure_mouse_port state =
      and_then (and_then (on_ports enable_mouse_port state) (send_mouse_command 0xF6))
        (send_mouse_command 0xF4)
