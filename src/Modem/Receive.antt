-- ===== src/Modem/Receive.antt =====
-- The receive ring of src/hw/modem.c, and what the guest sees of it at the registers.
use mathlib.Core.List.{append_assoc, append-nil}
use be.Base.{
  ℕ, suc, ◌+◌, ◌-◌, ◌%◌, ◌≤◌, ◌<◌, ◌≡◌, refl, sym, ap, ◌∙◌, false, not, min, List, [], ◌∷◌, ◌++◌,
  ◌==◌, ltb, if◌then◌else◌, if_elim, arith, length, take,
}
use be.Base.Slots.{items, items_append}
use be.Modem.{Modem, push, receive, receive_loop, rx_size, irq_pending}
use be.Modem.Uart.{read, read_data, read_iir, dlab}

-- The `i`-th byte that waits.
abbrev pub nth : Modem → ℕ → ℕ
nth m i = m.rx ((m.rx_head + i) % rx_size)

-- The bytes that wait for the guest, the oldest first.
abbrev pub waiting : Modem → List ℕ
waiting m = items m.rx rx_size m.rx_head m.rx_count

waiting-push :
    (m : Modem) (b : ℕ) → m.rx_count < rx_size → waiting (push m b) ≡ waiting m ++ (b ∷ [])
unfolding push
waiting-push m b room = rw (not_full room) (items_append m.rx rx_size m.rx_head m.rx_count b room)
  where
    not_full : m.rx_count < rx_size → (m.rx_count == rx_size) ≡ false
    not_full h = ground arith

push_grows : (m : Modem) (b : ℕ) → m.rx_count < rx_size → (push m b).rx_count ≡ m.rx_count + 1
unfolding push
push_grows m b room = ground arith

-- What a block of bytes does to the ring.
abbrev Result : Modem → List ℕ → ℕ × Modem → Type 0
Result m bytes (n, t) =
    (n ≡ min (rx_size - m.rx_count) (length bytes)) × (waiting t ≡ waiting m ++ take n bytes)

receive_loop_lem :
    (bytes : List ℕ) (m : Modem) → m.rx_count ≤ rx_size → Result m bytes (receive_loop bytes m)
unfolding receive_loop
receive_loop_lem [] m h = (omega arith, sym (append-nil _))
receive_loop_lem (b ∷ bytes) m h =
    if_elim (Result m (b ∷ bytes)) (ltb m.rx_count rx_size)
      (λ room.
        let grown = push_grows m b (ground arith) in
        let (count, waits) = receive_loop_lem bytes (push m b) (ground (arith, grown)) in
        let n = (receive_loop bytes (push m b)).0 in
        (
          ground (arith, count, grown),
          waits
              ∙ ap (λ l. l ++ take n bytes) (waiting-push m b (ground arith))
              ∙ append_assoc (waiting m) (b ∷ []) (take n bytes)
              ∙ ap (λ (k : ℕ). waiting m ++ take k (b ∷ bytes)) {x = suc n} {y = n + 1}
                  (omega arith),
        ))
      (λ full. (ground arith, sym (append-nil _)))

-- A modem whose ring holds at most 4096 bytes takes from the peer, while on line, as many bytes as the ring
-- has room for, and otherwise none; those it takes wait, in order, behind those that waited.
pub receive_lem :
    (m : Modem) (bytes : List ℕ)
    → m.rx_count ≤ rx_size
    → let (n, t) = receive m bytes in
      (n ≡ (if m.online then min (rx_size - m.rx_count) (length bytes) else 0))
      × (waiting t ≡ waiting m ++ take n bytes)
unfolding receive
receive_lem m bytes h =
    if_elim P (not m.online) (λ off. (ground arith, sym (append-nil _)))
      (λ on. let (count, waits) = receive_loop_lem bytes m h in (count ∙ ground arith, waits))
  where
    P : ℕ × Modem → Type 0
    P (n, t) =
        (n ≡ (if m.online then min (rx_size - m.rx_count) (length bytes) else 0))
        × (waiting t ≡ waiting m ++ take n bytes)

-- With the divisor latch closed, a read of the data register takes the oldest byte that waits, and the others
-- move up.
pub read_takes :
    (m : Modem) (i : ℕ)
    → dlab m ≡ false
    → 0 < m.rx_count
    → let (b, t) = read m 0 in
      (b ≡ m.rx m.rx_head) × (t.rx_count + 1 ≡ m.rx_count) × (nth t i ≡ nth m (i + 1))
unfolding read read_data
read_takes m i closed some =
    if_elim P (dlab m) (λ latch. absurd (ground (arith, closed)))
      (λ _.
        if_elim P (m.rx_count == 0) (λ none. absurd (ground (arith, some)))
          (λ _. (refl, omega arith, ap m.rx (omega arith))))
  where
    P : ℕ × Modem → Type 0
    P r = (r.0 ≡ m.rx m.rx_head) × (r.1.rx_count + 1 ≡ m.rx_count) × (nth r.1 i ≡ nth m (i + 1))

-- Bit 0 of the interrupt identification, which is low while an interrupt waits, agrees with the interrupt
-- line.
pub identification_agrees : (m : Modem) → (read m 2).0 % 2 ≡ (if irq_pending m then 0 else 1)
unfolding read read_iir irq_pending
identification_agrees m = ground arith
