-- ===== src/Bridge.antt =====
-- One configured slot of the serial bridge of src/pcconnect_bridge.c: the queues between the host's stream and the guest's
-- UART. The host's stream is src/host_chardev.c, whose answers are arguments: a `Poll` is what
-- `host_chardev_ready` and `host_chardev_take_new_peer` return, and a list of `Reading` or `Writing` is what the
-- calls of `host_chardev_read` or `host_chardev_write` return, in order, and at its end they would block.
-- `clock k` is the reading k of the monotonic clock within a call. Bytes are less than 256, so the casts to
-- uint8_t are the identity. Traces, the tee file and strings are not modelled.
pub mod Drain
pub mod Port
pub mod Inv
pub mod Release
pub mod Arrive
pub mod Pipe
pub mod Send
mod Tests
use be.Base.{
  ℕ, zero, suc, ◌+◌, ◌-◌, ◌*◌, ◌/◌, ◌%◌, Bool, true, false, not, ◌&&◌, ◌||◌, Option, none, some,
  List, [], ◌∷◌, ◌++◌, ◌==◌, ltb, leb, if◌then◌else◌, u64, length,
}
use be.PccRing.{Ring, push, pop, clear}

abbrev pub preopen_fifo : ℕ
preopen_fifo = 64

abbrev pub guest_rx_fifo : ℕ
guest_rx_fifo = 16

abbrev pub backlog_threshold : ℕ
backlog_threshold = 512

-- `has_peer` is `ch.fd >= 0`. `rx_ready_calls` counts the calls of `rx_ready_cb`.
pub record Bridge : Type 0 where
  pub wince_mode : Bool
  pub is_pty : Bool
  pub has_peer : Bool
  pub connecting : Bool
  pub cable_connected : Bool
  pub guest_link_connected : Bool
  pub guest_uart_ready : Bool
  pub guest_uart_configured : Bool
  pub drop_initial_rx_idle : Bool
  pub guest_uart_lcr : ℕ
  pub guest_uart_mcr : ℕ
  pub guest_uart_ier : ℕ
  pub guest_uart_divisor : ℕ
  pub baud : ℕ
  pub rx_ring : Ring
  pub tx_ring : Ring
  pub tx_ns_per_byte : ℕ
  pub tx_next_due : ℕ
  pub rx_ns_per_byte : ℕ
  pub rx_next_due : ℕ
  pub rx_pace_active : Bool
  pub rx_pre_ring : Ring
  pub has_rx_ready : Bool
  pub rx_ready_calls : ℕ

-- `pcc_ring_is_empty`, `pcc_ring_is_full` and `pcc_ring_space`.
abbrev pub empty : Ring → Bool
empty r = r.count == 0

abbrev pub full : Ring → Bool
full r = r.count == r.cap

abbrev pub space : Ring → ℕ
space r = r.cap - r.count

abbrev pub ring_after : Bool → Ring → Ring
ring_after dropped r = if dropped then (pop r).1 else r

unfoldable pub queue_host_rx_pre : Bridge → ℕ → Bool × Bridge
queue_host_rx_pre s byte =
    let r =
      ring_after (not s.guest_uart_configured && leb preopen_fifo s.rx_pre_ring.count)
        s.rx_pre_ring in
    if full r
    then (false, record s { rx_pre_ring = r })
    else (true, record s { rx_pre_ring = push r byte })

unfoldable pub clear_serial_queues : Bridge → Bridge
clear_serial_queues s = record s {
  rx_ring = clear s.rx_ring;
  rx_pre_ring = clear s.rx_pre_ring;
  tx_ring = clear s.tx_ring;
  rx_next_due = 0;
  tx_next_due = 0;
  rx_pace_active = false;
}

abbrev pub arm_initial_rx_idle_drop : Bridge → Bridge
arm_initial_rx_idle_drop s = record s {
  drop_initial_rx_idle = if s.wince_mode then true else s.drop_initial_rx_idle;
}

unfoldable pub on_peer_gone : Bridge → Bridge
unfolding clear_serial_queues
on_peer_gone s =
    if s.has_peer
    then clear_serial_queues (record s { has_peer = false; connecting = false })
    else s

pub record Poll : Type 0 where
  pub ready : Bool
  pub new_peer : Bool

unfoldable pub finish_connect : Bridge → Poll → Bool × Bridge
unfolding clear_serial_queues
finish_connect s p = (p.ready, if p.new_peer then clear_serial_queues s else s)

abbrev pub note_rx_released : Bool → Bool → Bridge → Bridge
note_rx_released was_empty released s = record s {
  rx_ready_calls =
      if s.wince_mode && released && was_empty && s.has_rx_ready
      then s.rx_ready_calls + 1
      else s.rx_ready_calls;
}

abbrev pub guest_rx_space : Bridge → ℕ
guest_rx_space s = if leb guest_rx_fifo s.rx_ring.count then 0 else guest_rx_fifo - s.rx_ring.count

unfoldable pub guest_rx_push : Bridge → ℕ → Bool × Bridge
guest_rx_push s byte =
    if guest_rx_space s == 0 then (false, s) else (true, record s { rx_ring = push s.rx_ring byte })

abbrev pub data_path_connected : Bridge → Bool
data_path_connected s = s.cable_connected && s.guest_link_connected

-- The byte that the loops take from the one queue goes to the other. A loop takes none from an empty queue.
unfoldable pub pass_on : Option ℕ → Bridge → Bool × Bridge
unfolding guest_rx_push
pass_on none s = (false, s)
pass_on (some b) s = guest_rx_push s b

abbrev pub move : Bridge → Bool × Bridge
move s = pass_on (pop s.rx_pre_ring).0 (record s { rx_pre_ring = (pop s.rx_pre_ring).1 })

-- Bytes wait, and the guest has room for one.
abbrev pub movable : Bridge → Bool
movable s = not (empty s.rx_pre_ring) && ltb 0 (guest_rx_space s)

unfoldable pub unpaced_loop : ℕ → Bool → Bridge → Bool × Bridge
unpaced_loop zero released s = (released, s)
unpaced_loop (suc n) released s =
    let rest = unpaced_loop n (released || (move s).0) (move s).1 in
    if movable s then rest else (released, s)

-- The k-th round, at the time `now`.
unfoldable pub paced_loop : ℕ → (ℕ → ℕ) → ℕ → ℕ → Bool → Bridge → Bool × Bridge
paced_loop zero clock k now released s = (released, s)
paced_loop (suc n) clock k now released s =
    let (ok, t) = move s in
    let later = record t { rx_next_due = u64 (t.rx_next_due + t.rx_ns_per_byte) } in
    let rest = paced_loop n clock (k + 1) (clock k) (released || ok) later in
    if movable s && leb s.rx_next_due now then rest else (released, s)

-- A loop takes at most the bytes that wait.
abbrev pub rounds : Bridge → ℕ
rounds s = s.rx_pre_ring.count

abbrev pub release_all : Bridge → Bridge
release_all s =
    let (released, t) = unpaced_loop (rounds s) false s in
    note_rx_released (empty s.rx_ring) released t

abbrev pub schedule : ℕ → Bridge → Bridge
schedule now s = record s {
  rx_next_due =
      if s.rx_next_due == 0 || ltb (u64 (s.rx_next_due + 100_000_000)) now
      then now
      else s.rx_next_due;
}

abbrev pub rest_pace : Bridge → Bridge
rest_pace s = record s { rx_pace_active = if empty s.rx_pre_ring then false else s.rx_pace_active }

abbrev pub release_slowly : (ℕ → ℕ) → Bridge → Bridge
release_slowly clock s =
    let (released, t) = paced_loop (rounds s) clock 1 (clock 0) false (schedule (clock 0) s) in
    rest_pace (note_rx_released (empty s.rx_ring) released t)

abbrev pub arm_pace : Bridge → Bridge
arm_pace s = record s {
  rx_pace_active =
      if not (s.rx_ns_per_byte == 0) && leb backlog_threshold s.rx_pre_ring.count
      then true
      else s.rx_pace_active;
}

unfoldable pub release_rx_paced : (ℕ → ℕ) → Bridge → Bridge
unfolding unpaced_loop paced_loop
release_rx_paced clock s =
    let t = arm_pace s in
    if not (data_path_connected s) || not s.guest_uart_ready
    then s
    else if empty t.rx_pre_ring
    then t
    else if not (t.rx_ns_per_byte == 0) && t.rx_pace_active
    then release_slowly clock t
    else release_all t
