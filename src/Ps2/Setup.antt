-- ===== src/Ps2/Setup.antt =====
-- src/ps2.c: the two set-up calls and the two calls that read what waits. What the interrupt
-- controller answers (`interrupt_register`, `apic_route_gsi`) is passed as a Boolean, and `acpi`
-- is whether the pointer is set.
use Prim.Native.Nat.{bit_and}
use argusos_uefi_v.Base.{
  ℕ, zero, suc, Bool, true, false, not, ◌&&◌, ◌||◌, Option, none, ◌==◌, if◌then◌else◌,
}
use argusos_uefi_v.Ps2.{Ps2, dequeue_key, dequeue_mouse_event}
use argusos_uefi_v.Ps2.Keyboard.{Decoder}
use argusos_uefi_v.Ps2.Pointing.{Event}
use argusos_uefi_v.Ps2.Ring.{Queue}
use argusos_uefi_v.Ps2.Controller.{drain_controller, configure_keyboard_port, configure_mouse_port}

abbrev pub released : Decoder
released = record {
  left_shift = false;
  right_shift = false;
  caps_lock = false;
  extended_prefix = false;
}

abbrev pub emptied : {A : Type 0} → Queue A → Queue A
emptied q = record q { head = 0; tail = 0; dropped = 0 }

module _ {Io : Type 0} (in8 : ℕ → Io → Io × ℕ) (out8 : ℕ → ℕ → Io → Io) where
  -- The loop that throws away what the controller still holds.
  unfoldable pub discard : ℕ → Io → Io
  discard zero io = io
  discard (suc rounds) io =
      let (io', status) = in8 0x64 io in
      elim (bit_and status 1 == 0) [ true ↦ io' | false ↦ discard rounds (in8 0x60 io').0 ]

  unfoldable pub ps2_keyboard_init : Bool → Bool → Bool → Io × Ps2 → (Io × Ps2) × Bool
  ps2_keyboard_init acpi registered routed (io, s) =
      let off = record s {
        controller_available = false;
        keyboard_available = false;
        keyboard_irq_online = false;
      } in
      let on = record s {
        controller_available = true;
        keyboard_available = true;
        keyboard_irq_online = false;
        decoder = released;
        keys = emptied s.keys;
      } in
      let (io', status) = in8 0x64 io in
      let quiet = discard 32 io' in
      let (io'', configured) = configure_keyboard_port in8 out8 quiet in
      if status == 0xFF
      then ((io', off), false)
      else (if acpi && registered
          then ((io'', record on { keyboard_irq_online = configured && routed }), true)
          else ((quiet, on), true))

  -- What follows `configure_mouse_port`.
  unfoldable pub mouse_configured : Bool → Bool → Bool → (Io × Ps2) × Bool → (Io × Ps2) × Bool
  mouse_configured acpi registered routed (state, false) = (state, false)
  mouse_configured acpi registered routed ((io, s), true) = (
    (io, record s { mouse_available = true; mouse_irq_online = acpi && registered && routed }),
    true,
  )

  unfoldable pub ps2_mouse_init : Bool → Bool → Bool → Io × Ps2 → (Io × Ps2) × Bool
  ps2_mouse_init acpi registered routed (io, s) =
      let off = record s {
        mouse_available = false;
        mouse_irq_online = false;
        mouse = record s.mouse { events = emptied s.mouse.events; packet_index = 0; packets = 0 };
      } in
      if not s.controller_available
      then ((io, off), false)
      else mouse_configured acpi registered routed (configure_mouse_port in8 out8 (io, off))

  unfoldable pub ps2_getc_nonblocking : Io × Ps2 → (Io × Ps2) × Option ℕ
  ps2_getc_nonblocking (io, s) =
      let (io', drained) =
        if s.keyboard_irq_online then (io, s) else drain_controller in8 out8 (io, s) in
      let (s', character) = dequeue_key drained in
      if not s.keyboard_available then ((io, s), none) else ((io', s'), character)

  -- `event` is whether the pointer is set; the event is what the call stores there.
  unfoldable pub ps2_mouse_get_event : Bool → Io × Ps2 → (Io × Ps2) × Option Event
  ps2_mouse_get_event event (io, s) =
      let (io', drained) =
        if s.mouse_irq_online then (io, s) else drain_controller in8 out8 (io, s) in
      let (s', oldest) = dequeue_mouse_event drained in
      if not s.mouse_available || not event then ((io, s), none) else ((io', s'), oldest)
