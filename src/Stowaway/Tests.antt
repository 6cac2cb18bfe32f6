-- ===== src/Stowaway/Tests.antt =====
-- The theorems on the keyboard dock of src/stowaway.c at concrete states.
use be.Base.{◌≡◌, refl, true, false, some, List, [], ◌∷◌, replicate, arith}
use be.PccRing.Refine.{contents}
use be.Stowaway.{Stowaway, configure, note_modem_control, rx_pop, rx_cap, ack_0, ack_1}
use be.Stowaway.Rings.{rx_ring, pending_ring}
use be.Stowaway.Inv.{
  Consistent, zeroed-Consistent, Op, pop_byte, modem_wait, modem_control, mapped_key, steps,
  reachable-Consistent,
}
use be.Stowaway.Handshake.{probe_connects}
use be.Stowaway.Typing.{Ready}

abbrev blank : Stowaway
blank = record {
  enabled = true;
  connected = false;
  modem_wait_requested = false;
  modem_delta_pending = false;
  modem_events_delivered = 0;
  dtr_asserted = false;
  rts_asserted = false;
  probe_ack_pending = false;
  probe_ack_seen = 0;
  rx = replicate rx_cap 0;
  head = 0;
  tail = 0;
  count = 0;
  pending = replicate rx_cap 0;
  pending_head = 0;
  pending_tail = 0;
  pending_count = 0;
  fn_refs = 0;
  wakes = 0;
}

blank-Consistent : Consistent blank
blank-Consistent = zeroed-Consistent blank true

-- The guest has read the answer to its probe.
abbrev linked : Stowaway
linked = record blank { connected = true; dtr_asserted = true; rts_asserted = true }

linked-Consistent : Consistent linked
linked-Consistent = record {
  rx_valid = blank-Consistent.rx_valid;
  pending_valid = blank-Consistent.pending_valid;
  lines = ground arith;
}

linked-Ready : Ready linked
linked-Ready = record { on = refl; connected = refl; dtr = refl; rts = refl; idle = refl }

abbrev session : List Op
session =
    modem_wait
    ∷ modem_control true true
    ∷ pop_byte
    ∷ pop_byte
    ∷ mapped_key 0x14a false
    ∷ modem_control false false
    ∷ mapped_key 0x14a true
    ∷ []

reachable-Consistent_example : Consistent (steps session (configure blank true))
reachable-Consistent_example = reachable-Consistent blank true session

probe_connects_example :
    let raised = note_modem_control blank true true in
    let first = rx_pop raised in
    let second = rx_pop first.1 in
    (first.0 ≡ some ack_0)
    × (second.0 ≡ some ack_1)
    × (second.1.connected ≡ true)
    × (contents (rx_ring second.1) ≡ contents (pending_ring blank))
    × (second.1.pending_count ≡ 0)
probe_connects_example = probe_connects blank blank-Consistent refl refl refl refl
