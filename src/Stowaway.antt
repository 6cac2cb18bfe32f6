-- ===== src/Stowaway.antt =====
-- The Stowaway keyboard dock of src/stowaway.c on the guest's COM1: the probe handshake, the
-- receive queue and the queue of keys that wait for the handshake. `wakes` counts the calls of
-- `be300_stowaway_signal_uart_irq(1)`. The trace output, `stowaway_uart_tx_byte`, which does
-- nothing, and the name test of `stowaway_ns16550_claims` are not modelled.
pub mod Keys
pub mod Rings
pub mod Inv
pub mod Handshake
pub mod Typing
mod Tests
use be.Base.{
  ℕ, zero, suc, ◌+◌, ◌-◌, ◌%◌, Bool, true, false, not, ◌&&◌, ◌||◌, Option, none, some, List, ◌==◌,
  ltb, leb, if◌then◌else◌, get_or, set, replicate, u8, u32, bit_or,
}
use be.Base.Bits.{and_not, has}

pub record Stowaway : Type 0 where
  pub enabled : Bool
  pub connected : Bool
  pub modem_wait_requested : Bool
  pub modem_delta_pending : Bool
  pub modem_events_delivered : ℕ
  pub dtr_asserted : Bool
  pub rts_asserted : Bool
  pub probe_ack_pending : Bool
  pub probe_ack_seen : ℕ
  pub rx : List ℕ
  pub head : ℕ
  pub tail : ℕ
  pub count : ℕ
  pub pending : List ℕ
  pub pending_head : ℕ
  pub pending_tail : ℕ
  pub pending_count : ℕ
  pub fn_refs : ℕ
  pub wakes : ℕ

abbrev pub rx_cap : ℕ
rx_cap = 4096

abbrev pub ack_0 : ℕ
ack_0 = 0xfa

abbrev pub ack_1 : ℕ
ack_1 = 0xfd

abbrev pub fn_scancode : ℕ
fn_scancode = 8

abbrev pub wake : Stowaway → Stowaway
wake s = record s { wakes = s.wakes + 1 }

-- The first statement of `stowaway_queue_byte`: a full queue gives up its oldest byte.
abbrev drop_oldest : Stowaway → Stowaway
drop_oldest s =
    let full = s.count == rx_cap in
    record s {
      tail = if full then (s.tail + 1) % rx_cap else s.tail;
      count = if full then s.count - 1 else s.count;
    }

unfoldable pub queue_byte : Stowaway → ℕ → Stowaway
queue_byte s byte =
    let t = drop_oldest s in
    record t { rx = set t.rx t.head byte; head = (t.head + 1) % rx_cap; count = t.count + 1 }

abbrev drop_oldest_pending : Stowaway → Stowaway
drop_oldest_pending s =
    let full = s.pending_count == rx_cap in
    record s {
      pending_tail = if full then (s.pending_tail + 1) % rx_cap else s.pending_tail;
      pending_count = if full then s.pending_count - 1 else s.pending_count;
    }

unfoldable pub queue_pending_byte : Stowaway → ℕ → Stowaway
queue_pending_byte s byte =
    let t = drop_oldest_pending s in
    record t {
      pending = set t.pending t.pending_head byte;
      pending_head = (t.pending_head + 1) % rx_cap;
      pending_count = t.pending_count + 1;
    }

-- The body of the flush loop.
unfoldable pub move_pending : Stowaway → Stowaway
unfolding queue_byte
move_pending s =
    queue_byte
      (record s {
        pending_tail = (s.pending_tail + 1) % rx_cap;
        pending_count = s.pending_count - 1;
      })
      (get_or s.pending s.pending_tail 0)

-- The flush loop, on fuel.
unfoldable pub flush_loop : ℕ → Stowaway → Stowaway
unfolding move_pending
flush_loop zero s = s
flush_loop (suc n) s =
    let rest = flush_loop n (move_pending s) in if s.pending_count == 0 then s else rest

unfoldable pub flush_pending_keys : Stowaway → Stowaway
unfolding flush_loop
flush_pending_keys s =
    let t = flush_loop s.pending_count s in if s.pending_count == 0 then t else wake t

-- The memset of the dock's state; the wakes and the references to Fn stand apart from it.
abbrev pub zeroed : Stowaway → Bool → Stowaway
zeroed s enabled = record {
  enabled = enabled;
  connected = false;
  modem_wait_requested = false;
  modem_delta_pending = false;
  modem_events_delivered = 0;
  dtr_asserted = false;
  rts_asserted = false;
  probe_ack_pending = false;
  probe_ack_seen = 0;
  rx = replicate rx_cap 0;
  head = 0;
  tail = 0;
  count = 0;
  pending = replicate rx_cap 0;
  pending_head = 0;
  pending_tail = 0;
  pending_count = 0;
  fn_refs = s.fn_refs;
  wakes = s.wakes;
}

unfoldable pub configure : Stowaway → Bool → Stowaway
configure s enabled = record (zeroed s enabled) { fn_refs = 0 }

unfoldable pub uart_reset : Stowaway → Stowaway
uart_reset s = zeroed s s.enabled

abbrev rx_available : Stowaway → Bool
rx_available s = s.enabled && ltb 0 s.count

abbrev pub rx_count : Stowaway → ℕ
rx_count s = if s.enabled then s.count else 0

-- What taking a byte does to the handshake.
unfoldable pub note_taken : Stowaway → ℕ → Stowaway
unfolding flush_pending_keys
note_taken s byte =
    if not s.probe_ack_pending
    then s
    else if byte == ack_0 && s.probe_ack_seen == 0
    then record s { probe_ack_seen = 1 }
    else if byte == ack_1 && s.probe_ack_seen == 1
    then flush_pending_keys
        (record s { connected = true; probe_ack_pending = false; probe_ack_seen = 0 })
    else record s { probe_ack_pending = false; probe_ack_seen = 0 }

abbrev pub taken : Stowaway → Stowaway
taken s = record s { tail = (s.tail + 1) % rx_cap; count = s.count - 1 }

-- The -1 of an empty queue is `none`.
unfoldable pub rx_pop : Stowaway → Option ℕ × Stowaway
unfolding note_taken
rx_pop s =
    if not (rx_available s)
    then (none, s)
    else (some (get_or s.rx s.tail 0), note_taken (taken s) (get_or s.rx s.tail 0))

unfoldable pub rx_clear : Stowaway → Stowaway
rx_clear s =
    if not s.enabled
    then s
    else record s { head = 0; tail = 0; count = 0; probe_ack_pending = false; probe_ack_seen = 0 }

unfoldable pub queue_probe_ack : Stowaway → Stowaway
unfolding queue_byte
queue_probe_ack s =
    if s.probe_ack_pending
    then s
    else wake (record (queue_byte (queue_byte s ack_0) ack_1) {
      probe_ack_pending = true;
      probe_ack_seen = 0;
    })

unfoldable pub note_port_config : Stowaway → Stowaway
note_port_config s = if not s.enabled then s else record s {
  connected = false;
  modem_wait_requested = false;
  modem_delta_pending = false;
  modem_events_delivered = 0;
  dtr_asserted = false;
  rts_asserted = false;
  probe_ack_pending = false;
  probe_ack_seen = 0;
  head = 0;
  tail = 0;
  count = 0;
  pending_head = 0;
  pending_tail = 0;
  pending_count = 0;
}

unfoldable pub note_modem_wait : Stowaway → Stowaway
note_modem_wait s = if not s.enabled then s else record s { modem_wait_requested = true }

-- The lines take their new levels; a fallen DTR ends the connection.
abbrev pub lines_set : Stowaway → Bool → Bool → Stowaway
lines_set s dtr rts =
    let t = record s { dtr_asserted = dtr; rts_asserted = rts } in
    if dtr then t else record t { connected = false; probe_ack_pending = false; probe_ack_seen = 0 }

unfoldable pub note_modem_control : Stowaway → Bool → Bool → Stowaway
unfolding queue_probe_ack
note_modem_control s dtr rts =
    if not s.enabled
    then s
    else if dtr && rts && not s.rts_asserted
    then queue_probe_ack (lines_set s dtr rts)
    else lines_set s dtr rts

unfoldable pub take_modem_wait_request : Stowaway → Bool × Stowaway
take_modem_wait_request s =
    if not s.enabled || not s.modem_wait_requested || leb 2 s.modem_events_delivered
    then (false, s)
    else (true, record s { modem_events_delivered = s.modem_events_delivered + 1 })

unfoldable pub take_modem_delta : Stowaway → Bool × Stowaway
take_modem_delta s =
    if not s.enabled || not s.modem_delta_pending
    then (false, s)
    else (true, record s { modem_delta_pending = false })
