-- ===== src/Bridge/Tests.antt =====
-- The theorems of the serial bridge at a bridge with a configured guest.
use be.Base.{
  ℕ, ◌≡◌, refl, true, false, List, [], ◌∷◌, ◌++◌, arith, inr, replicate, length-replicate,
}
use be.PccRing.{Ring, push}
use be.PccRing.Inv.{IsValid, push-IsValid}
use be.PccRing.Refine.{contents}
use be.Bridge.{Bridge, Poll}
use be.Bridge.Drain.{drain_tx, wrote, busy}
use be.Bridge.Inv.{Fine, incoming}
use be.Bridge.Arrive.{IsOpen}
use be.Bridge.Pipe.{Act, arrives, reads, run, run_lem}
use be.Bridge.Send.{drain_tx_lem}

blank : Ring
blank = record { buf = replicate 4096 0; cap = 4096; head = 0; tail = 0; count = 0 }

blank-IsValid : IsValid blank
unfolding blank
blank-IsValid = record {
  storage = omega (arith, length-replicate {A = ℕ} 4096 0);
  within = omega arith;
  tail_in = inr (omega arith);
  head_at = refl;
}

abbrev slot : Bridge
slot = record {
  wince_mode = true;
  is_pty = false;
  has_peer = true;
  connecting = false;
  cable_connected = true;
  guest_link_connected = true;
  guest_uart_ready = true;
  guest_uart_configured = true;
  drop_initial_rx_idle = true;
  guest_uart_lcr = 3;
  guest_uart_mcr = 0;
  guest_uart_ier = 0;
  guest_uart_divisor = 1;
  baud = 0;
  rx_ring = blank;
  tx_ring = push (push blank 7) 8;
  tx_ns_per_byte = 0;
  tx_next_due = 0;
  rx_ns_per_byte = 0;
  rx_next_due = 0;
  rx_pace_active = false;
  rx_pre_ring = blank;
  has_rx_ready = true;
  rx_ready_calls = 0;
}

slot-Fine : Fine slot
unfolding blank
slot-Fine = record {
  rx = blank-IsValid;
  pre = blank-IsValid;
  tx = push-IsValid 8 (push-IsValid 7 blank-IsValid);
  rx_cap = refl;
  pre_cap = refl;
  fifo = omega arith;
}

slot-IsOpen : IsOpen slot
slot-IsOpen = record { fine = slot-Fine; cable = refl; link = refl; configured = refl }

-- Two marks of an idle line and three bytes arrive; the guest reads twice.
abbrev acts : List Act
acts = arrives (0x55 ∷ 0x55 ∷ 1 ∷ 2 ∷ 3 ∷ []) ∷ reads (λ k. k) ∷ reads (λ k. k) ∷ []

run_lem_example :
    (run slot acts).received ++ incoming (run slot acts).state
    ≡ incoming slot ++ (run slot acts).accepted
run_lem_example = run_lem slot acts slot-IsOpen

abbrev poll : Poll
poll = record { ready = true; new_peer = false }

drain_tx_lem_example :
    (drain_tx poll (λ k. k) (wrote 1 ∷ wrote 1 ∷ busy ∷ []) slot).0
      ++ contents (drain_tx poll (λ k. k) (wrote 1 ∷ wrote 1 ∷ busy ∷ []) slot).1.tx_ring
    ≡ contents slot.tx_ring
unfolding push blank
drain_tx_lem_example =
    drain_tx_lem poll (λ k. k) (wrote 1 ∷ wrote 1 ∷ busy ∷ []) slot slot-Fine.tx refl refl refl refl
