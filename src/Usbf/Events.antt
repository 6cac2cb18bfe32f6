-- ===== src/Usbf/Events.antt =====
-- Sequences of what can happen to the USB function controller of src/hw/usbf.c: each event is one call of
-- an operation that changes its state.
use be.Base.{ℕ, ◌+◌, Bool, List, [], ◌∷◌}
use be.Usbf.{Usbf, Status, pending, done, stall, reset}
use be.Usbf.Registers.{read, write}
use be.Usbf.Host.{host_attach, host_bus_reset, host_control, host_out, host_in, host_intr_in}

pub data Event : Type 0 where
  guest_read : ℕ → Event
  guest_write : ℕ → ℕ → Event
  attach : Bool → Event
  bus_reset power_reset : Event
  control : (ℕ → ℕ) → Event
  out_packet : List ℕ → Event
  in_poll intr_poll : ℕ → Event

module _ (mapped : ℕ → ℕ → Bool) where
  unfoldable pub step : Usbf → Event → Usbf
  unfolding read write host_attach host_bus_reset host_control host_out host_in host_intr_in reset
  step u (guest_read off) = (read u off).1
  step u (guest_write off val) = write mapped u off val
  step u (attach on) = host_attach u on
  step u bus_reset = host_bus_reset u
  step u power_reset = reset u
  step u (control s) = (host_control u s).state
  step u (out_packet frame) = (host_out u frame).1
  step u (in_poll max) = (host_in u max).1
  step u (intr_poll max) = (host_intr_in u max).1

  unfoldable pub steps : Usbf → List Event → Usbf
  unfolding step
  steps u [] = u
  steps u (e ∷ es) = steps (step u e) es

abbrev pub is_pending : Status → ℕ
is_pending pending = 1
is_pending done = 0
is_pending stall = 0

-- 1 if the event hands a control request to the guest.
abbrev pub handed : Usbf → Event → ℕ
handed u (control s) = is_pending (host_control u s).status
handed u (guest_read off) = 0
handed u (guest_write off val) = 0
handed u (attach on) = 0
handed u bus_reset = 0
handed u power_reset = 0
handed u (out_packet frame) = 0
handed u (in_poll max) = 0
handed u (intr_poll max) = 0

-- The requests that a sequence of events hands to the guest.
unfoldable pub requests : (ℕ → ℕ → Bool) → Usbf → List Event → ℕ
unfolding step
requests mapped u [] = 0
requests mapped u (e ∷ es) = handed u e + requests mapped (step mapped u e) es
