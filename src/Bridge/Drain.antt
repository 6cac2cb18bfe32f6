-- ===== src/Bridge/Drain.antt =====
-- The transfers between the host's stream and the queues of src/pcconnect_bridge.c.
use be.Base.{
  ℕ, zero, suc, ◌+◌, ◌-◌, ◌*◌, ◌%◌, Bool, false, not, ◌&&◌, List, [], ◌∷◌, ◌++◌, ◌==◌, ltb, leb,
  if◌then◌else◌, u64, length, get_or,
}
use be.PccRing.{Ring, pop, clear}
use be.Bridge.{
  Bridge, Poll, queue_host_rx_pre, on_peer_gone, finish_connect, data_path_connected,
  release_rx_paced, empty, space,
}

pub data Reading : Type 0 where
  got : List ℕ → Reading
  end_of_file would_block interrupted failed : Reading

-- Without the marks of an idle line at its start.
abbrev pub skip_idle : List ℕ → List ℕ
skip_idle [] = []
skip_idle (b ∷ bs) = if b == 0x55 then skip_idle bs else b ∷ bs

unfoldable pub queue_all : Bridge → List ℕ → Bridge
unfolding queue_host_rx_pre
queue_all s [] = s
queue_all s (b ∷ bs) =
    let (ok, t) = queue_host_rx_pre s b in let rest = queue_all t bs in if ok then rest else t

-- Bytes from the host.
unfoldable pub arrive : Bridge → List ℕ → Bridge
unfolding queue_all
arrive s bytes =
    if not (data_path_connected s)
    then s
    else if s.drop_initial_rx_idle
    then (if length (skip_idle bytes) == 0
        then s
        else queue_all (record s { drop_initial_rx_idle = false }) (skip_idle bytes))
    else queue_all s bytes

-- The peer has closed the stream; `reopened` is what `host_chardev_reopen_pty` did for a PTY.
abbrev pub hung_up : Bool → Bridge → Bridge
hung_up reopened s =
    let t = on_peer_gone s in record t { has_peer = if s.is_pty then reopened else t.has_peer }

unfoldable pub read_loop : Bool → List Reading → Bridge → Bridge
unfolding arrive on_peer_gone
read_loop reopened [] s = s
read_loop reopened (got bytes ∷ more) s =
    let rest = read_loop reopened more (arrive s bytes) in
    if space s.rx_pre_ring == 0 then s else rest
read_loop reopened (end_of_file ∷ more) s =
    if space s.rx_pre_ring == 0 then s else hung_up reopened s
read_loop reopened (would_block ∷ more) s = s
read_loop reopened (interrupted ∷ more) s =
    let rest = read_loop reopened more s in if space s.rx_pre_ring == 0 then s else rest
read_loop reopened (failed ∷ more) s = if space s.rx_pre_ring == 0 then s else on_peer_gone s

-- The two releases read the clock anew.
unfoldable pub drain_rx : Poll → (ℕ → ℕ) → (ℕ → ℕ) → Bool → List Reading → Bridge → Bridge
unfolding finish_connect release_rx_paced read_loop
drain_rx poll before after reopened readings s =
    let (ready, t) = finish_connect s poll in
    if not s.has_peer
    then release_rx_paced before s
    else if not ready
    then release_rx_paced before t
    else release_rx_paced after (read_loop reopened readings (release_rx_paced before t))

pub data Writing : Type 0 where
  wrote : ℕ → Writing
  busy again broken : Writing

-- What was sent, and the bridge left.
abbrev pub Sent : Type 0
Sent = List ℕ × Bridge

abbrev pub also_sent : List ℕ → Sent → Sent
also_sent bytes (rest, s) = (bytes ++ rest, s)

abbrev pub lost_peer : Bridge → Bridge
lost_peer s = let t = on_peer_gone s in record t { tx_ring = clear t.tx_ring }

-- The `n` bytes of a buffer from `i` on.
abbrev pub chunk : List ℕ → ℕ → ℕ → List ℕ
chunk buf i zero = []
chunk buf i (suc n) = get_or buf i 0 ∷ chunk buf (i + 1) n

abbrev pub advance : Ring → ℕ → Ring
advance r n = record r { tail = (r.tail + n) % r.cap; count = r.count - n }

unfoldable pub bulk_loop : List Writing → Bridge → Sent
unfolding on_peer_gone
bulk_loop [] s = ([], s)
bulk_loop (wrote zero ∷ more) s = ([], s)
bulk_loop (wrote (suc n) ∷ more) s =
    let r = s.tx_ring in
    let rest =
      also_sent (chunk r.buf r.tail (suc n))
        (bulk_loop more (record s { tx_ring = advance r (suc n) })) in
    if empty r then ([], s) else rest
bulk_loop (busy ∷ more) s = ([], s)
bulk_loop (again ∷ more) s =
    let rest = bulk_loop more s in if empty s.tx_ring then ([], s) else rest
bulk_loop (broken ∷ more) s = if empty s.tx_ring then ([], s) else ([], lost_peer s)

-- One byte is sent at the time `now`.
abbrev pub paid : ℕ → Bridge → Bridge
paid now s =
    let due = u64 (s.tx_next_due + s.tx_ns_per_byte) in
    record s {
      tx_ring = (pop s.tx_ring).1;
      tx_next_due = if ltb (u64 (due + 10 * s.tx_ns_per_byte)) now then now else due;
    }

abbrev pub sendable : ℕ → Bridge → Bool
sendable now s = not (empty s.tx_ring) && leb s.tx_next_due now

unfoldable pub paced_tx_loop : (ℕ → ℕ) → ℕ → ℕ → List Writing → Bridge → Sent
unfolding on_peer_gone
paced_tx_loop clock k now [] s = ([], s)
paced_tx_loop clock k now (wrote n ∷ more) s =
    let byte = get_or s.tx_ring.buf s.tx_ring.tail 0 in
    let rest = also_sent (byte ∷ []) (paced_tx_loop clock (k + 1) (clock k) more (paid now s)) in
    if sendable now s && n == 1 then rest else ([], s)
paced_tx_loop clock k now (busy ∷ more) s = ([], s)
paced_tx_loop clock k now (again ∷ more) s =
    let rest = paced_tx_loop clock k now more s in if sendable now s then rest else ([], s)
paced_tx_loop clock k now (broken ∷ more) s = if sendable now s then ([], lost_peer s) else ([], s)

unfoldable pub drain_tx : Poll → (ℕ → ℕ) → List Writing → Bridge → Sent
unfolding finish_connect bulk_loop paced_tx_loop
drain_tx poll clock writings s =
    let (ready, t) = finish_connect s poll in
    if not s.has_peer
    then ([], record s { tx_ring = clear s.tx_ring })
    else if not ready
    then ([], t)
    else if ltb 0 t.tx_ns_per_byte
    then paced_tx_loop clock 1 (clock 0) writings
        (record t { tx_next_due = if t.tx_next_due == 0 then clock 0 else t.tx_next_due })
    else bulk_loop writings t
