-- ===== src/Ps2/Calls.antt =====
-- src/ps2.c: the calls of the rest of the kernel, and the interrupt that drains the controller.
use argusos_uefi_v.Base.{ℕ, Bool, true, false, not, ◌&&◌, ◌||◌, if◌then◌else◌, if-both, arith, ◌==◌}
use argusos_uefi_v.Ps2.{Ps2, key_capacity}
use argusos_uefi_v.Ps2.Pointing.{mouse_capacity}
use argusos_uefi_v.Ps2.Ring.{Queue, IsQueue}
use argusos_uefi_v.Ps2.Controller.{drain_controller, configure_mouse_port}
use argusos_uefi_v.Ps2.Setup.{
  emptied, ps2_keyboard_init, mouse_configured, ps2_mouse_init, ps2_getc_nonblocking,
  ps2_mouse_get_event,
}
use argusos_uefi_v.Ps2.Steady.{
  IsPs2, Keeps, drain-IsPs2, configure_mouse_port-Keeps, dequeue_key-IsPs2,
  dequeue_mouse_event-IsPs2,
}

emptied-IsQueue :
    {A : Type 0} (capacity : ℕ) (q : Queue A) → IsQueue capacity q → IsQueue capacity (emptied q)
emptied-IsQueue capacity q ok =
    let t = ok.tail_in in record { slots = ok.slots; head_in = omega arith; tail_in = omega arith }

module _ {Io : Type 0} (in8 : ℕ → Io → Io × ℕ) (out8 : ℕ → ℕ → Io → Io) where
  drain_controller-IsPs2 :
      (state : Io × Ps2) → IsPs2 state.1 → IsPs2 (drain_controller in8 out8 state).1
  unfolding drain_controller
  drain_controller-IsPs2 state ok = drain-IsPs2 in8 out8 64 state ok

  getc-Keeps :
      (state : Io × Ps2) → IsPs2 state.1 → Keeps in8 out8 (ps2_getc_nonblocking in8 out8 state)
  unfolding ps2_getc_nonblocking
  getc-Keeps (io, s) ok =
      let drained : IsPs2
          (if s.keyboard_irq_online then (io, s) else drain_controller in8 out8 (io, s)).1 =
        if-both (λ (r : Io × Ps2). IsPs2 r.1) s.keyboard_irq_online (λ e. ok)
          (λ e. drain_controller-IsPs2 (io, s) ok) in
      if-both (Keeps in8 out8) (not s.keyboard_available) (λ e. ok)
        (λ e.
          dequeue_key-IsPs2
            (if s.keyboard_irq_online then (io, s) else drain_controller in8 out8 (io, s)).1
            drained)

  get_event-Keeps :
      (event : Bool) (state : Io × Ps2)
      → IsPs2 state.1
      → Keeps in8 out8 (ps2_mouse_get_event in8 out8 event state)
  unfolding ps2_mouse_get_event
  get_event-Keeps event (io, s) ok =
      let drained : IsPs2
          (if s.mouse_irq_online then (io, s) else drain_controller in8 out8 (io, s)).1 =
        if-both (λ (r : Io × Ps2). IsPs2 r.1) s.mouse_irq_online (λ e. ok)
          (λ e. drain_controller-IsPs2 (io, s) ok) in
      if-both (Keeps in8 out8) (not s.mouse_available || not event) (λ e. ok)
        (λ e.
          dequeue_mouse_event-IsPs2
            (if s.mouse_irq_online then (io, s) else drain_controller in8 out8 (io, s)).1 drained)

  keyboard_init-Keeps :
      (acpi registered routed : Bool) (state : Io × Ps2)
      → IsPs2 state.1
      → Keeps in8 out8 (ps2_keyboard_init in8 out8 acpi registered routed state)
  unfolding ps2_keyboard_init
  keyboard_init-Keeps acpi registered routed (io, s) ok =
      let empty = emptied-IsQueue key_capacity s.keys ok.keys in
      if-both (Keeps in8 out8) ((in8 0x64 io).1 == 0xFF)
        (λ e. record { keys = ok.keys; mouse = ok.mouse })
        (λ e.
          if-both (Keeps in8 out8) (acpi && registered)
            (λ r. record { keys = empty; mouse = ok.mouse })
            (λ r. record { keys = empty; mouse = ok.mouse }))

  mouse_configured-Keeps :
      (acpi registered routed : Bool) (result : (Io × Ps2) × Bool)
      → Keeps in8 out8 result
      → Keeps in8 out8 (mouse_configured in8 out8 acpi registered routed result)
  unfolding mouse_configured
  mouse_configured-Keeps acpi registered routed (state, false) ok = ok
  mouse_configured-Keeps acpi registered routed ((io, s), true) ok = record {
    keys = ok.keys;
    mouse = ok.mouse;
  }

  mouse_init-Keeps :
      (acpi registered routed : Bool) (state : Io × Ps2)
      → IsPs2 state.1
      → Keeps in8 out8 (ps2_mouse_init in8 out8 acpi registered routed state)
  unfolding ps2_mouse_init
  mouse_init-Keeps acpi registered routed (io, s) ok =
      let off = record s {
        mouse_available = false;
        mouse_irq_online = false;
        mouse = record s.mouse { events = emptied s.mouse.events; packet_index = 0; packets = 0 };
      } in
      let fine : IsPs2 off = record {
        keys = ok.keys;
        mouse = record {
          events = emptied-IsQueue mouse_capacity s.mouse.events ok.mouse.events;
          bytes = ok.mouse.bytes;
          started = omega arith;
        };
      } in
      if-both (Keeps in8 out8) (not s.controller_available) (λ e. fine)
        (λ e.
          mouse_configured-Keeps acpi registered routed (configure_mouse_port in8 out8 (io, off))
            (configure_mouse_port-Keeps in8 out8 (io, off) fine))

  -- Whatever the hardware answers on its ports, the interrupt, the two set-up calls and the two
  -- calls that read what waits keep the driver's state well formed: the heads and the tails of the
  -- two queues stand inside their arrays, and the packet's index is below 3.
  pub calls_lem :
      (acpi registered routed event : Bool) (state : Io × Ps2)
      → IsPs2 state.1
      → IsPs2 (drain_controller in8 out8 state).1
        × Keeps in8 out8 (ps2_keyboard_init in8 out8 acpi registered routed state)
        × Keeps in8 out8 (ps2_mouse_init in8 out8 acpi registered routed state)
        × Keeps in8 out8 (ps2_getc_nonblocking in8 out8 state)
        × Keeps in8 out8 (ps2_mouse_get_event in8 out8 event state)
  calls_lem acpi registered routed event state ok = (
    drain_controller-IsPs2 state ok,
    keyboard_init-Keeps acpi registered routed state ok,
    mouse_init-Keeps acpi registered routed state ok,
    getc-Keeps state ok,
    get_event-Keeps event state ok,
  )
