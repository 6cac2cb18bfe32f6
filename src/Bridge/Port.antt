-- ===== src/Bridge/Port.antt =====
-- The guest's side of the bridge of src/pcconnect_bridge.c: the UART's data and the state of the cable.
use be.Base.{
  ℕ, ◌%◌, ◌^◌, Bool, true, false, not, ◌&&◌, ◌||◌, Option, none, List, ◌==◌, if◌then◌else◌,
}
use be.PccRing.{push, pop, clear}
use be.Bridge.Drain.{Reading, Writing, Sent, drain_rx, drain_tx}
use be.Bridge.{
  Bridge, release_rx_paced, data_path_connected, clear_serial_queues, arm_initial_rx_idle_drop,
  empty, full, Poll,
}

unfoldable pub guest_tx_open : Bridge → Bool
guest_tx_open s = data_path_connected s && s.has_peer && not s.connecting

unfoldable pub queue_guest_tx : Bridge → ℕ → Bridge
unfolding guest_tx_open
queue_guest_tx s byte =
    if not (guest_tx_open s)
    then s
    else if full s.tx_ring
    then s
    else record s { tx_ring = push s.tx_ring byte }

abbrev pub guest_reads : Bridge → Bool
guest_reads s = data_path_connected s && s.guest_uart_ready

unfoldable pub rx_available : (ℕ → ℕ) → Bridge → Bool × Bridge
unfolding release_rx_paced
rx_available clock s =
    let t = release_rx_paced clock s in (guest_reads t && not (empty t.rx_ring), t)

unfoldable pub rx_count : (ℕ → ℕ) → Bridge → ℕ × Bridge
unfolding release_rx_paced
rx_count clock s =
    let t = release_rx_paced clock s in (if guest_reads t then t.rx_ring.count else 0, t)

unfoldable pub rx_pop : (ℕ → ℕ) → Bridge → Option ℕ × Bridge
unfolding rx_available
rx_pop clock s =
    let (there, t) = rx_available clock s in
    if there then ((pop t.rx_ring).0, record t { rx_ring = (pop t.rx_ring).1 }) else (none, t)

unfoldable pub rx_clear : Bridge → Bridge
rx_clear s = record s { rx_ring = clear s.rx_ring }

abbrev pub uart_baud : Bridge → ℕ
uart_baud s = if s.baud == 0 then 115200 else s.baud

unfoldable pub set_cable_connected : (ℕ → ℕ) → Bool → Bridge → Bridge
unfolding clear_serial_queues release_rx_paced
set_cable_connected clock false s =
    if not s.cable_connected && not s.guest_link_connected
    then s
    else arm_initial_rx_idle_drop (
        clear_serial_queues (record s {
          cable_connected = false;
          guest_link_connected = false;
          guest_uart_ready = false;
          guest_uart_configured = false;
        }))
set_cable_connected clock true s =
    let t = record s { cable_connected = true; guest_link_connected = true } in
    if not s.cable_connected || not s.guest_link_connected
    then release_rx_paced clock (arm_initial_rx_idle_drop t)
    else t

unfoldable pub reset_guest_serial : Bridge → Bridge
unfolding clear_serial_queues
reset_guest_serial s = arm_initial_rx_idle_drop (
    clear_serial_queues (record s {
      guest_link_connected = false;
      guest_uart_ready = false;
      guest_uart_configured = false;
    }))

-- The new configuration of the guest's UART; the name of the UART is the bridge's.
unfoldable pub note_uart_config : (ℕ → ℕ) → ℕ → ℕ → ℕ → ℕ → Bool → Bridge → Bridge
unfolding release_rx_paced
note_uart_config clock lcr mcr ier divisor dlab s =
    if not dlab && lcr % 2 ^ 7 == 0x03
    then release_rx_paced clock (record s {
      guest_uart_lcr = lcr;
      guest_uart_mcr = mcr;
      guest_uart_ier = ier;
      guest_uart_divisor = divisor;
      guest_uart_ready = true;
      guest_uart_configured = true;
    })
    else record s { guest_uart_ready = false }

-- A read of the guest without the bridge's name, for either kind of bridge.
unfoldable serial_rx_pop : (ℕ → ℕ) → Bridge → Option ℕ × Bridge
unfolding release_rx_paced
serial_rx_pop clock s =
    let t = release_rx_paced clock s in
    if not (guest_reads t)
    then (none, t)
    else if empty t.rx_ring
    then (none, t)
    else ((pop t.rx_ring).0, record t { rx_ring = (pop t.rx_ring).1 })

-- What the host's stream answers in one tick.
record Answers : Type 0 where
  new_peer : Bool
  tx_poll : Poll
  tx_clock : ℕ → ℕ
  writings : List Writing
  rx_poll : Poll
  rx_before : ℕ → ℕ
  rx_after : ℕ → ℕ
  reopened : Bool
  readings : List Reading

unfoldable tick : Answers → Bridge → Sent
unfolding clear_serial_queues drain_rx drain_tx
tick a s =
    let t = if a.new_peer then clear_serial_queues s else s in
    let (sent, u) = drain_tx a.tx_poll a.tx_clock a.writings t in
    (sent, drain_rx a.rx_poll a.rx_before a.rx_after a.reopened a.readings u)
