-- ===== src/El3/Inv.antt =====
-- The invariant of the EtherLink III card in src/hw/el3.c: its queues stay in their buffers.
use be.Base.{
  ℕ, zero, suc, ◌+◌, ◌*◌, ◌/◌, ◌%◌, ◌^◌, ◌≤◌, ◌<◌, ◌≡◌, refl, ap, Bool, not, ◌&&◌, ◌||◌, List, [],
  ◌∷◌, ◌++◌, ◌==◌, ltb, leb, if_elim, arith, length, length-append, length-drop, u8, u16,
}
use be.El3.{
  init, El3, reset, rx_pop, command, send_head, flush_loop, tx_flush, flagged, partial, needed,
  head_length, append_loop, fifo_write, receive, wanted, tx_size, rx_frames,
}
use be.El3.Port.{write}

-- The receive slots, the FIFO and the status stack hold at most what they have room for.
pub record InRoom (s : El3) : Type 0 where
  pub head : s.rx_head < rx_frames
  pub count : s.rx_count ≤ rx_frames
  pub fifo_room : length s.tx ≤ tx_size
  pub stack : length s.tx_status ≤ 4

-- The other fields do not matter.
same-InRoom :
    {s t : El3}
    → InRoom s
    → t.rx_head ≡ s.rx_head
    → t.rx_count ≡ s.rx_count
    → t.tx ≡ s.tx
    → t.tx_status ≡ s.tx_status
    → InRoom t
same-InRoom {s} {t} v head count tx stack = record {
  head = omega (arith, head, v.head);
  count = omega (arith, count, v.count);
  fifo_room = omega (arith, ap (length {A = ℕ}) tx, v.fifo_room);
  stack = omega (arith, ap (length {A = ℕ}) stack, v.stack);
}

empty-InRoom : {t : El3} → t.rx_head ≡ 0 → t.rx_count ≡ 0 → t.tx ≡ [] → t.tx_status ≡ [] → InRoom t
empty-InRoom {t} head count tx stack = record {
  head = omega (arith, head);
  count = omega (arith, count);
  fifo_room = omega (arith, ap (length {A = ℕ}) tx);
  stack = omega (arith, ap (length {A = ℕ}) stack);
}

send_head-InRoom : (s : El3) → InRoom s → InRoom (send_head s)
send_head-InRoom s v = record {
  head = v.head;
  count = v.count;
  fifo_room = omega (arith, length-drop (needed (head_length s.tx)) s.tx, v.fifo_room);
  stack =
      if_elim (λ (l : List ℕ). length l ≤ 4) (flagged s.tx && ltb (length s.tx_status) 4)
        (λ room. ground (arith, length-append s.tx_status (0x80 ∷ []))) (λ _. v.stack);
}

flush_loop-InRoom : (n : ℕ) (s : El3) → InRoom s → InRoom (flush_loop n s)
unfolding flush_loop
flush_loop-InRoom zero s v = v
flush_loop-InRoom (suc n) s v =
    if_elim InRoom (partial s.tx) (λ _. v)
      (λ _. flush_loop-InRoom n (send_head s) (send_head-InRoom s v))

append_loop-InRoom : (n i value : ℕ) (s : El3) → InRoom s → InRoom (append_loop n i value s).1
unfolding append_loop
append_loop-InRoom zero i value s v = v
append_loop-InRoom (suc n) i value s v =
    if_elim (λ (r : Bool × El3). InRoom r.1) (leb tx_size (length s.tx))
      (λ _. record { head = v.head; count = v.count; fifo_room = omega arith; stack = v.stack })
      (λ room.
        append_loop-InRoom n (i + 1) value
          (record s { tx = s.tx ++ (u8 (value / 2 ^ (8 * i)) ∷ []) })
          (record {
            head = v.head;
            count = v.count;
            fifo_room = ground (arith, length-append s.tx (u8 (value / 2 ^ (8 * i)) ∷ []));
            stack = v.stack;
          }))

fifo_write-InRoom : (s : El3) (size value : ℕ) → InRoom s → InRoom (fifo_write s size value)
unfolding fifo_write tx_flush
fifo_write-InRoom s size value v =
    let t = (append_loop size 0 value s).1 in
    let valid = append_loop-InRoom size 0 value s v in
    if_elim InRoom (append_loop size 0 value s).0 (λ _. flush_loop-InRoom (length t.tx) t valid)
      (λ _. valid)

command-InRoom : (s : El3) (value : ℕ) → InRoom s → InRoom (command s value)
unfolding command reset rx_pop
command-InRoom s value v =
    if_elim InRoom (op == 0) (λ _. empty-InRoom refl refl refl refl)
      (λ _.
        if_elim InRoom (op == 1) (λ _. same-InRoom v refl refl refl refl)
          (λ _.
            if_elim InRoom (op == 3) (λ _. same-InRoom v refl refl refl refl)
              (λ _.
                if_elim InRoom (op == 4) (λ _. same-InRoom v refl refl refl refl)
                  (λ _.
                    if_elim InRoom (op == 5)
                      (λ _. record {
                        head = omega arith;
                        count = omega arith;
                        fifo_room = v.fifo_room;
                        stack = v.stack;
                      })
                      (λ _.
                        if_elim InRoom (op == 8)
                          (λ _. record {
                            head = ground (arith, v.head);
                            count = omega (arith, v.count);
                            fifo_room = v.fifo_room;
                            stack = v.stack;
                          })
                          (λ _.
                            if_elim InRoom (op == 9) (λ _. same-InRoom v refl refl refl refl)
                              (λ _.
                                if_elim InRoom (op == 10) (λ _. same-InRoom v refl refl refl refl)
                                  (λ _.
                                    if_elim InRoom (op == 11)
                                      (λ _. record {
                                        head = v.head;
                                        count = v.count;
                                        fifo_room = omega arith;
                                        stack = omega arith;
                                      })
                                      (λ _.
                                        if_elim InRoom (op == 12)
                                          (λ _. same-InRoom v refl refl refl refl)
                                          (λ _.
                                            if_elim InRoom (op == 13)
                                              (λ _. same-InRoom v refl refl refl refl)
                                              (λ _.
                                                if_elim InRoom (op == 14)
                                                  (λ _. same-InRoom v refl refl refl refl)
                                                  (λ _.
                                                    if_elim InRoom (op == 15)
                                                      (λ _. same-InRoom v refl refl refl refl)
                                                      (λ _.
                                                        if_elim InRoom (op == 16)
                                                          (λ _. same-InRoom v refl refl refl refl)
                                                          (λ _. v))))))))))))))
  where
    op : ℕ
    op = value / 2 ^ 11

-- A write to the card keeps these bounds: the receive slots, the FIFO of 2056 bytes and the
-- status stack hold no more than they have room for.
pub write-InRoom :
    (s : El3) (address size value : ℕ) → InRoom s → InRoom (write s address size value)
unfolding write
write-InRoom s address size value v =
    if_elim InRoom (offset == 0x0e && leb 2 size) (λ _. command-InRoom s (u16 value) v)
      (λ _.
        if_elim InRoom (s.window == 1 && ltb offset 4) (λ _. fifo_write-InRoom s size value v)
          (λ _.
            if_elim InRoom (s.window == 1 && offset == 0x0b)
              (λ _. record {
                head = v.head;
                count = v.count;
                fifo_room = v.fifo_room;
                stack = omega (arith, length-drop 1 s.tx_status, v.stack);
              })
              (λ _.
                if_elim InRoom (s.window == 2 && ltb offset 6)
                  (λ _. same-InRoom v refl refl refl refl)
                  (λ _.
                    if_elim InRoom (s.window == 0) (λ _. same-InRoom v refl refl refl refl)
                      (λ _.
                        if_elim InRoom (s.window == 4 && offset == 0x0a)
                          (λ _. same-InRoom v refl refl refl refl) (λ _. v))))))
  where
    offset : ℕ
    offset = address % 16

-- A frame from the network keeps the same bounds.
pub receive-InRoom : (s : El3) (frame : List ℕ) → InRoom s → InRoom (receive s frame).1
unfolding receive
receive-InRoom s frame v =
    if_elim P (not s.rx_enabled || ltb (length frame) 14 || ltb 1536 (length frame)) (λ _. v)
      (λ _.
        if_elim P (not (wanted s frame)) (λ _. v)
          (λ _.
            if_elim P (s.rx_count == rx_frames) (λ _. same-InRoom v refl refl refl refl)
              (λ room. record {
                head = v.head;
                count = ground (arith, v.count);
                fifo_room = v.fifo_room;
                stack = v.stack;
              })))
  where
    P : Bool × El3 → Type 0
    P r = InRoom r.1

-- A fresh card keeps the bounds, whatever its address.
init-InRoom : (s : El3) (mac : ℕ → ℕ) → InRoom (init s mac)
unfolding init
init-InRoom s mac = empty-InRoom refl refl refl refl
