-- ===== src/Modem/Inv.antt =====
-- The invariant of the modem in src/hw/modem.c: the ring and the command line stay in their buffers.
use be.Base.{
  ℕ, zero, suc, ◌+◌, ◌%◌, ◌≤◌, ◌<◌, ◌≡◌, refl, ap, Bool, true, false, not, ◌&&◌, ◌||◌, List, [],
  ◌∷◌, ◌==◌, ltb, leb, if◌then◌else◌, if_elim, arith, length, length-append,
}
use be.Modem.{
  Modem, Code, ok, connect, no_carrier, failed, push, say, result, hang_up, dropped, framed, text,
  number, rx_size, reset,
}
use be.Modem.Line.{
  Step, go, stop, step, parse, execute, dial_out, dial_number, skip, value, first, tail, to_upper,
  is_alpha, noted, identity, register_text, attention, skip_spaces, command_byte, drop_last,
}
use be.Modem.Uart.{write, write_data, write_ier, write_mcr, dlab}

-- The ring's cursor and count are in bounds, and the line leaves room for its end.
pub record InBuffers (m : Modem) : Type 0 where
  pub head : m.rx_head < rx_size
  pub count : m.rx_count ≤ rx_size
  pub line : length m.cmd ≤ 95

push-InBuffers : (m : Modem) (b : ℕ) → InBuffers m → InBuffers (push m b)
unfolding push
push-InBuffers m b v = record { head = v.head; count = ground (arith, v.count); line = v.line }

say-InBuffers : (m : Modem) (s : List ℕ) → InBuffers m → InBuffers (say m s)
unfolding say
say-InBuffers m [] v = v
say-InBuffers m (c ∷ s) v = say-InBuffers (push m c) s (push-InBuffers m c v)

result-InBuffers : (m : Modem) (code : Code) → InBuffers m → InBuffers (result m code)
unfolding result
result-InBuffers m code v =
    say-InBuffers m
      (if m.verbose then framed (text code m.connect_rate) else ((48 + number code) ∷ 13 ∷ [])) v

-- The other fields do not matter.
same-InBuffers :
    {m t : Modem}
    → InBuffers m
    → t.rx_head ≡ m.rx_head
    → t.rx_count ≡ m.rx_count
    → t.cmd ≡ m.cmd
    → InBuffers t
same-InBuffers {m} {t} v head count cmd = record {
  head = omega (arith, head, v.head);
  count = omega (arith, count, v.count);
  line = omega (arith, ap length cmd, v.line);
}

hang_up-InBuffers : (m : Modem) (report : Bool) → InBuffers m → InBuffers (hang_up m report)
unfolding hang_up
hang_up-InBuffers m report v =
    if_elim InBuffers (not m.online) (λ _. v)
      (λ _.
        if_elim InBuffers report (λ _. result-InBuffers (dropped m) no_carrier left) (λ _. left))
  where
    left : InBuffers (dropped m)
    left = same-InBuffers v refl refl refl

dial_out-InBuffers :
    (dial : List ℕ → Bool) (n : List ℕ) (m : Modem) → InBuffers m → InBuffers (dial_out dial n m)
unfolding dial_out
dial_out-InBuffers dial n m v =
    if_elim InBuffers (length n == 0) (λ _. result-InBuffers m ok v)
      (λ _.
        if_elim InBuffers (not (dial n)) (λ _. result-InBuffers (noted m n) no_carrier called)
          (λ _. same-InBuffers (result-InBuffers (noted m n) connect called) refl refl refl))
  where
    called : InBuffers (noted m n)
    called = same-InBuffers v refl refl refl

-- The modem of a step is valid.
abbrev Good : Step → Type 0
Good (go q t) = InBuffers t
Good (stop t) = InBuffers t

step-InBuffers :
    (dial : List ℕ → Bool) (c : ℕ) (p : List ℕ) (m : Modem) → InBuffers m → Good (step dial c p m)
unfolding step
step-InBuffers dial c p m v =
    if_elim Good (c == 32) (λ _. v)
      (λ _.
        if_elim Good (c == 90) (λ _. same-InBuffers v refl refl refl)
          (λ _.
            if_elim Good (c == 69) (λ _. same-InBuffers v refl refl refl)
              (λ _.
                if_elim Good (c == 86) (λ _. same-InBuffers v refl refl refl)
                  (λ _.
                    if_elim Good (c == 73) (λ _. say-InBuffers m (identity (value p)) v)
                      (λ _.
                        if_elim Good (c == 72) (λ _. hang_up-InBuffers m false v)
                          (λ _.
                            if_elim Good (c == 68)
                              (λ _. dial_out-InBuffers dial (dial_number 63 p) m v)
                              (λ _.
                                if_elim Good (c == 38) (λ _. v)
                                  (λ _.
                                    if_elim Good (c == 83)
                                      (λ _.
                                        if_elim Good (first (skip p) == 61) (λ _. v)
                                          (λ _.
                                            if_elim Good (first (skip p) == 63)
                                              (λ _. say-InBuffers m register_text v) (λ _. v)))
                                      (λ _.
                                        if_elim Good (not (is_alpha c))
                                          (λ _. result-InBuffers m failed v) (λ _. v))))))))))

resume-InBuffers :
    (dial : List ℕ → Bool) (n : ℕ) (s : Step)
    → Good s
    → ((q : List ℕ) (t : Modem) → InBuffers t → InBuffers (parse dial n q t))
    → InBuffers (elim s as (λ _. Modem) [ go q t ↦ parse dial n q t | stop t ↦ t ])
resume-InBuffers dial n (go q t) v rest = rest q t v
resume-InBuffers dial n (stop t) v rest = v

parse-InBuffers :
    (dial : List ℕ → Bool) (n : ℕ) (p : List ℕ) (m : Modem)
    → InBuffers m
    → InBuffers (parse dial n p m)
unfolding parse
parse-InBuffers dial zero [] m v = result-InBuffers m ok v
parse-InBuffers dial (suc n) [] m v = result-InBuffers m ok v
parse-InBuffers dial zero (c ∷ p) m v = v
parse-InBuffers dial (suc n) (c ∷ p) m v =
    resume-InBuffers dial n (step dial (to_upper c) p m) (step-InBuffers dial (to_upper c) p m v)
      (λ q t e. parse-InBuffers dial n q t e)

execute-InBuffers :
    (dial : List ℕ → Bool) (line : List ℕ) (m : Modem)
    → InBuffers m
    → InBuffers (execute dial line m)
unfolding execute
execute-InBuffers dial line m v =
    if_elim InBuffers (not (attention trimmed))
      (λ _. if_elim InBuffers (first trimmed == 0) (λ _. v) (λ _. result-InBuffers m failed v))
      (λ _. parse-InBuffers dial (length (tail (tail trimmed))) (tail (tail trimmed)) m v)
  where
    trimmed : List ℕ
    trimmed = skip_spaces line

length-drop_last : (s : List ℕ) → length (drop_last s) ≤ length s
length-drop_last [] = omega arith
length-drop_last (c ∷ []) = omega arith
length-drop_last (c ∷ d ∷ p) = omega (arith, length-drop_last (d ∷ p))

command_byte-InBuffers :
    (dial : List ℕ → Bool) (m : Modem) (b : ℕ) → InBuffers m → InBuffers (command_byte dial m b)
unfolding command_byte
command_byte-InBuffers dial m b v =
    if_elim InBuffers (b == 13)
      (λ _.
        execute-InBuffers dial t.cmd (record t { cmd = [] })
          (record { head = valid_t.head; count = valid_t.count; line = omega arith }))
      (λ _.
        if_elim InBuffers (b == 8 || b == 127)
          (λ _. record {
            head = valid_t.head;
            count = valid_t.count;
            line = omega (arith, length-drop_last t.cmd, valid_t.line);
          })
          (λ _.
            if_elim InBuffers (leb 32 b && ltb b 127 && ltb (length t.cmd + 1) 96)
              (λ fits. record {
                head = valid_t.head;
                count = valid_t.count;
                line = ground (arith, length-append t.cmd (b ∷ []));
              })
              (λ _. valid_t)))
  where
    t : Modem
    t = if m.echo then push m b else m

    valid_t : InBuffers t
    valid_t = if_elim InBuffers m.echo (λ _. push-InBuffers m b v) (λ _. v)

-- Whatever is written to the modem, the ring's cursor and count and the command line stay within their
-- buffers of 4096 and 96 bytes, the line's last place left free.
pub write-InBuffers :
    (dial : List ℕ → Bool) (m : Modem) (reg value : ℕ)
    → InBuffers m
    → InBuffers (write dial m reg value)
unfolding write write_data write_ier write_mcr
write-InBuffers dial m reg value v =
    if_elim InBuffers (reg % 8 == 0)
      (λ _.
        if_elim InBuffers (dlab m) (λ _. same-InBuffers v refl refl refl)
          (λ _.
            if_elim InBuffers (m.online || m.gps) (λ _. same-InBuffers v refl refl refl)
              (λ _. same-InBuffers (command_byte-InBuffers dial m value v) refl refl refl)))
      (λ _.
        if_elim InBuffers (reg % 8 == 1)
          (λ _.
            if_elim InBuffers (dlab m) (λ _. same-InBuffers v refl refl refl)
              (λ _. same-InBuffers v refl refl refl))
          (λ _.
            if_elim InBuffers (reg % 8 == 2)
              (λ _. record {
                head = ground (arith, v.head);
                count = ground (arith, v.count);
                line = v.line;
              })
              (λ _.
                if_elim InBuffers (reg % 8 == 3) (λ _. same-InBuffers v refl refl refl)
                  (λ _.
                    if_elim InBuffers (reg % 8 == 4)
                      (λ _.
                        if_elim InBuffers (not m.gps && not (m.mcr % 2 == 0) && value % 2 == 0)
                          (λ _.
                            hang_up-InBuffers (record m { mcr = value }) true
                              (same-InBuffers v refl refl refl))
                          (λ _. same-InBuffers v refl refl refl))
                      (λ _.
                        if_elim InBuffers (reg % 8 == 7) (λ _. same-InBuffers v refl refl refl)
                          (λ _. v))))))

-- A reset modem is within them.
reset-InBuffers : (m : Modem) → InBuffers (reset m)
unfolding reset
reset-InBuffers m = record { head = omega arith; count = omega arith; line = omega arith }
