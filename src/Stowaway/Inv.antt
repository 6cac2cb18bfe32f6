-- ===== src/Stowaway/Inv.antt =====
-- What holds of the dock of src/stowaway.c between two calls: both queues are well formed, and a
-- connection or a probe stands only while the guest asserts DTR.
use be.Base.{
  ℕ, zero, ◌+◌, ◌-◌, ◌≤◌, ◌≡◌, refl, inr, Bool, true, false, not, ◌&&◌, ◌||◌, Option, List, [], ◌∷◌,
  ◌==◌, ltb, leb, if_elim, get_or, replicate, length, length-replicate, arith, u32,
}
use be.Base.Bits.{and_not, has}
use be.PccRing.Inv.{IsValid}
use be.Stowaway.{
  Stowaway, queue_byte, queue_pending_byte, flush_pending_keys, configure, uart_reset, note_taken,
  rx_pop, rx_clear, queue_probe_ack, note_port_config, note_modem_wait, note_modem_control,
  take_modem_wait_request, take_modem_delta, rx_cap, taken, wake, zeroed, lines_set, ack_0, ack_1,
  fn_scancode,
}
use be.Stowaway.Keys.{queue_key, release_fn, press_fn, queue_mapped_key, key_byte}
use be.Stowaway.Rings.{
  rx_ring, pending_ring, queue_byte-IsValid, queue_pending-IsValid, taken-IsValid, flush_lem,
  flush-SameLines, SameLines,
}

-- The lines and the handshake.
pub record LinesValid (s : Stowaway) : Type 0 where
  pub connected : s.connected ≡ true → s.dtr_asserted ≡ true
  pub probing : s.probe_ack_pending ≡ true → s.dtr_asserted ≡ true
  pub seen_none : s.probe_ack_pending ≡ false → s.probe_ack_seen ≡ 0
  pub seen_one : s.probe_ack_seen ≤ 1
  pub events : s.modem_events_delivered ≤ 2

pub record Consistent (s : Stowaway) : Type 0 where
  pub rx_valid : IsValid (rx_ring s)
  pub pending_valid : IsValid (pending_ring s)
  pub lines : LinesValid s

empty-IsValid :
    (buf : List ℕ)
    → rx_cap ≤ length buf
    → IsValid (record { buf = buf; cap = rx_cap; head = 0; tail = 0; count = 0 })
empty-IsValid buf h = record {
  storage = h;
  within = omega arith;
  tail_in = inr (omega arith);
  head_at = refl;
}

pub zeroed-Consistent : (s : Stowaway) (on : Bool) → Consistent (zeroed s on)
zeroed-Consistent s on = record {
  rx_valid = empty-IsValid (replicate rx_cap 0) (omega (arith, length-replicate rx_cap zero));
  pending_valid = empty-IsValid (replicate rx_cap 0) (omega (arith, length-replicate rx_cap zero));
  lines = ground arith;
}

byte-Consistent : (s : Stowaway) (x : ℕ) → Consistent s → Consistent (queue_byte s x)
unfolding queue_byte
byte-Consistent s x v = record {
  rx_valid = queue_byte-IsValid s x v.rx_valid;
  pending_valid = v.pending_valid;
  lines = ground arith;
}

pending-Consistent : (s : Stowaway) (x : ℕ) → Consistent s → Consistent (queue_pending_byte s x)
unfolding queue_pending_byte
pending-Consistent s x v = record {
  rx_valid = v.rx_valid;
  pending_valid = queue_pending-IsValid s x v.pending_valid;
  lines = ground arith;
}

flush-Consistent : (s : Stowaway) → Consistent s → Consistent (flush_pending_keys s)
flush-Consistent s v =
    let f = flush_lem s v.rx_valid v.pending_valid in
    record {
      rx_valid = f.rx_valid;
      pending_valid = f.pending_valid;
      lines = kept (flush-SameLines s) v.lines;
    }
  where
    kept : SameLines s (flush_pending_keys s) → LinesValid s → LinesValid (flush_pending_keys s)
    kept k l = ground arith

note_taken-Consistent : (s : Stowaway) (x : ℕ) → Consistent s → Consistent (note_taken s x)
unfolding note_taken
note_taken-Consistent s x v =
    if_elim Consistent (not s.probe_ack_pending) (λ _. v)
      (λ p.
        if_elim Consistent (x == ack_0 && s.probe_ack_seen == 0)
          (λ _. record {
            rx_valid = v.rx_valid;
            pending_valid = v.pending_valid;
            lines = ground arith;
          })
          (λ _.
            if_elim Consistent (x == ack_1 && s.probe_ack_seen == 1)
              (λ _. flush-Consistent _ (record {
                rx_valid = v.rx_valid;
                pending_valid = v.pending_valid;
                lines = ground arith;
              }))
              (λ _. record {
                rx_valid = v.rx_valid;
                pending_valid = v.pending_valid;
                lines = ground arith;
              })))

pop-Consistent : (s : Stowaway) → Consistent s → Consistent (rx_pop s).1
unfolding rx_pop
pop-Consistent s v =
    if_elim (λ (p : Option ℕ × Stowaway). Consistent p.1) (not (s.enabled && ltb 0 s.count))
      (λ _. v)
      (λ some_left. note_taken-Consistent (taken s) (get_or s.rx s.tail 0) (record {
        rx_valid = taken-IsValid s (ground arith) v.rx_valid;
        pending_valid = v.pending_valid;
        lines = ground arith;
      }))

clear-Consistent : (s : Stowaway) → Consistent s → Consistent (rx_clear s)
unfolding rx_clear
clear-Consistent s v =
    if_elim Consistent (not s.enabled) (λ _. v)
      (λ _. record {
        rx_valid = empty-IsValid s.rx v.rx_valid.storage;
        pending_valid = v.pending_valid;
        lines = ground arith;
      })

config-Consistent : (s : Stowaway) → Consistent s → Consistent (note_port_config s)
unfolding note_port_config
config-Consistent s v =
    if_elim Consistent (not s.enabled) (λ _. v)
      (λ _. record {
        rx_valid = empty-IsValid s.rx v.rx_valid.storage;
        pending_valid = empty-IsValid s.pending v.pending_valid.storage;
        lines = ground arith;
      })

probe-Consistent :
    (s : Stowaway) → s.dtr_asserted ≡ true → Consistent s → Consistent (queue_probe_ack s)
unfolding queue_probe_ack queue_byte
probe-Consistent s dtr v =
    if_elim Consistent s.probe_ack_pending (λ _. v)
      (λ _.
        let w = byte-Consistent (queue_byte s ack_0) ack_1 (byte-Consistent s ack_0 v) in
        record { rx_valid = w.rx_valid; pending_valid = w.pending_valid; lines = ground arith })

lines-Consistent : (s : Stowaway) (dtr rts : Bool) → Consistent s → Consistent (lines_set s dtr rts)
lines-Consistent s true rts v = record {
  rx_valid = v.rx_valid;
  pending_valid = v.pending_valid;
  lines = ground arith;
}
lines-Consistent s false rts v = record {
  rx_valid = v.rx_valid;
  pending_valid = v.pending_valid;
  lines = ground arith;
}

control-Consistent :
    (s : Stowaway) (dtr rts : Bool) → Consistent s → Consistent (note_modem_control s dtr rts)
unfolding note_modem_control
control-Consistent s dtr rts v =
    if_elim Consistent (not s.enabled) (λ _. v)
      (λ _.
        if_elim Consistent (dtr && rts && not s.rts_asserted)
          (λ up.
            probe-Consistent (lines_set s dtr rts) (ground arith) (lines-Consistent s dtr rts v))
          (λ _. lines-Consistent s dtr rts v))

key-Consistent :
    (s : Stowaway) (k : ℕ) (release : Bool) → Consistent s → Consistent (queue_key s k release).1
unfolding queue_key
key-Consistent s k release v =
    let P : Bool × Stowaway → Type 0 = λ p. Consistent p.1 in
    let b = key_byte k release in
    if_elim P (not s.enabled) (λ _. v)
      (λ _.
        if_elim P (ltb 0x7f k) (λ _. v)
          (λ _.
            if_elim P (not s.connected || not s.dtr_asserted)
              (λ _.
                if_elim P (not s.modem_wait_requested) (λ _. v)
                  (λ _. woken _ (delta _ (byte-Consistent s b v))))
              (λ _.
                if_elim P (not s.rts_asserted || s.probe_ack_pending)
                  (λ _. pending-Consistent s b v) (λ _. woken _ (byte-Consistent s b v)))))
  where
    woken : (t : Stowaway) → Consistent t → Consistent (wake t)
    woken t w = record {
      rx_valid = w.rx_valid;
      pending_valid = w.pending_valid;
      lines = ground arith;
    }

    delta : (t : Stowaway) → Consistent t → Consistent (record t { modem_delta_pending = true })
    delta t w = record {
      rx_valid = w.rx_valid;
      pending_valid = w.pending_valid;
      lines = ground arith;
    }

refs-Consistent : (s : Stowaway) (n : ℕ) → Consistent s → Consistent (record s { fn_refs = n })
refs-Consistent s n v = record {
  rx_valid = v.rx_valid;
  pending_valid = v.pending_valid;
  lines = ground arith;
}

press-Consistent : (s : Stowaway) (k : ℕ) → Consistent s → Consistent (press_fn s k).1
unfolding press_fn
press-Consistent s k v =
    let t = record s { fn_refs = u32 (s.fn_refs + 1) } in
    let w = refs-Consistent s (u32 (s.fn_refs + 1)) v in
    let P : Bool × Stowaway → Type 0 = λ p. Consistent p.1 in
    if_elim P (s.fn_refs == 0)
      (λ _.
        if_elim P (queue_key t fn_scancode false).0
          (λ _. key-Consistent _ k false (key-Consistent t fn_scancode false w))
          (λ _. refs-Consistent _ 0 (key-Consistent t fn_scancode false w)))
      (λ _. key-Consistent t k false w)

release-Consistent : (s : Stowaway) (k : ℕ) → Consistent s → Consistent (release_fn s k).1
unfolding release_fn
release-Consistent s k v =
    let t = (queue_key s k true).1 in
    let w = key-Consistent s k true v in
    let u = record t { fn_refs = t.fn_refs - 1 } in
    let P : Bool × Stowaway → Type 0 = λ p. Consistent p.1 in
    if_elim P (t.fn_refs == 0) (λ _. w)
      (λ _.
        if_elim P (u.fn_refs == 0) (λ _. key-Consistent u fn_scancode true (refs-Consistent t _ w))
          (λ _. refs-Consistent t _ w))

mapped-Consistent :
    (s : Stowaway) (value : ℕ) (release : Bool)
    → Consistent s
    → Consistent (queue_mapped_key s value release).1
unfolding queue_mapped_key
mapped-Consistent s value release v =
    let P : Bool × Stowaway → Type 0 = λ p. Consistent p.1 in
    let k = and_not 32 value 0x100 in
    if_elim P (not (has value 0x100)) (λ _. key-Consistent s k release v)
      (λ _. if_elim P release (λ _. release-Consistent s k v) (λ _. press-Consistent s k v))

-- What the guest's UART and the host's keyboard ask of the dock.
pub data Op : Type 0 where
  reset : Op
  pop_byte : Op
  clear : Op
  port_config : Op
  modem_wait : Op
  modem_control : Bool → Bool → Op
  take_wait : Op
  take_delta : Op
  key : ℕ → Bool → Op
  mapped_key : ℕ → Bool → Op

unfoldable pub step : Op → Stowaway → Stowaway
step reset s = uart_reset s
step pop_byte s = (rx_pop s).1
step clear s = rx_clear s
step port_config s = note_port_config s
step modem_wait s = note_modem_wait s
step (modem_control dtr rts) s = note_modem_control s dtr rts
step take_wait s = (take_modem_wait_request s).1
step take_delta s = (take_modem_delta s).1
step (key k release) s = (queue_key s k release).1
step (mapped_key value release) s = (queue_mapped_key s value release).1

step-Consistent : (op : Op) (s : Stowaway) → Consistent s → Consistent (step op s)
unfolding step uart_reset note_modem_wait take_modem_wait_request take_modem_delta
step-Consistent reset s v = zeroed-Consistent s s.enabled
step-Consistent pop_byte s v = pop-Consistent s v
step-Consistent clear s v = clear-Consistent s v
step-Consistent port_config s v = config-Consistent s v
step-Consistent modem_wait s v =
    if_elim Consistent (not s.enabled) (λ _. v)
      (λ _. record { rx_valid = v.rx_valid; pending_valid = v.pending_valid; lines = ground arith })
step-Consistent (modem_control dtr rts) s v = control-Consistent s dtr rts v
step-Consistent take_wait s v =
    if_elim (λ (p : Bool × Stowaway). Consistent p.1)
      (not s.enabled || not s.modem_wait_requested || leb 2 s.modem_events_delivered) (λ _. v)
      (λ few. record {
        rx_valid = v.rx_valid;
        pending_valid = v.pending_valid;
        lines = ground arith;
      })
step-Consistent take_delta s v =
    if_elim (λ (p : Bool × Stowaway). Consistent p.1) (not s.enabled || not s.modem_delta_pending)
      (λ _. v)
      (λ _. record { rx_valid = v.rx_valid; pending_valid = v.pending_valid; lines = ground arith })
step-Consistent (key k release) s v = key-Consistent s k release v
step-Consistent (mapped_key value release) s v = mapped-Consistent s value release v

unfoldable pub steps : List Op → Stowaway → Stowaway
steps [] s = s
steps (op ∷ ops) s = steps ops (step op s)

steps-Consistent : (ops : List Op) (s : Stowaway) → Consistent s → Consistent (steps ops s)
unfolding steps
steps-Consistent [] s v = v
steps-Consistent (op ∷ ops) s v = steps-Consistent ops (step op s) (step-Consistent op s v)

-- After `stowaway_configure` and any sequence of the guest's and the host's calls, both queues are
-- well formed, a connection or a probe stands only while DTR is asserted, and at most two modem
-- events have been delivered.
pub reachable-Consistent :
    (s : Stowaway) (on : Bool) (ops : List Op) → Consistent (steps ops (configure s on))
unfolding configure
reachable-Consistent s on ops =
    steps-Consistent ops (configure s on) (refs-Consistent _ 0 (zeroed-Consistent s on))
