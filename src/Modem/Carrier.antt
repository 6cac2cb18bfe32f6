-- ===== src/Modem/Carrier.antt =====
-- When the modem of src/hw/modem.c goes on line, and when it leaves.
use be.Base.{
  ℕ, zero, suc, ◌+◌, ◌%◌, ◌≡◌, refl, ◌∙◌, Bool, true, false, not, ◌&&◌, ◌||◌, List, [], ◌∷◌, ◌++◌,
  ◌==◌, ltb, leb, if◌then◌else◌, if_elim, arith, length, bit_or,
}
use be.Modem.{
  Modem, Code, hung_up, ok, no_carrier, failed, push, say, result, hang_up, carrier_lost, dropped,
  framed, text, number,
}
use be.Modem.Line.{
  Step, go, stop, step, parse, execute, dial_out, dial_number, skip, value, first, tail, to_upper,
  is_alpha, noted, identity, register_text, attention, skip_spaces, command_byte,
}
use be.Modem.Uart.{write, write_data, write_ier, write_mcr, dlab}

-- What the modem says leaves the connection, and what the host is told.
record Silent (t m : Modem) : Type 0 where
  online : t.online ≡ m.online
  gps : t.gps ≡ m.gps
  calls : t.calls ≡ m.calls
  delta : t.msr_delta ≡ m.msr_delta

say-Silent : (m : Modem) (s : List ℕ) → Silent (say m s) m
unfolding say push
say-Silent m [] = record { online = refl; gps = refl; calls = refl; delta = refl }
say-Silent m (c ∷ s) =
    let e = say-Silent (push m c) s in
    record { online = e.online; gps = e.gps; calls = e.calls; delta = e.delta }

result-Silent : (m : Modem) (code : Code) → Silent (result m code) m
unfolding result
result-Silent m code =
    say-Silent m
      (if m.verbose then framed (text code m.connect_rate) else ((48 + number code) ∷ 13 ∷ []))

hang_up_off : (m : Modem) (report : Bool) → (hang_up m report).online ≡ false
unfolding hang_up
hang_up_off m report =
    if_elim (λ (t : Modem). t.online ≡ false) (not m.online) (λ off. ground arith)
      (λ _.
        if_elim (λ (t : Modem). t.online ≡ false) report
          (λ _. (result-Silent (dropped m) no_carrier).online) (λ _. refl))

-- Off line after a step.
abbrev Off : Step → Type 0
Off (go q t) = t.online ≡ false
Off (stop t) = t.online ≡ false

dial_out_off :
    (dial : List ℕ → Bool) (n : List ℕ) (m : Modem)
    → ((k : List ℕ) → dial k ≡ false)
    → m.online ≡ false
    → (dial_out dial n m).online ≡ false
unfolding dial_out
dial_out_off dial n m refuses off =
    if_elim P (length n == 0) (λ _. (result-Silent m ok).online ∙ off)
      (λ _.
        if_elim P (not (dial n)) (λ _. (result-Silent (noted m n) no_carrier).online ∙ off)
          (λ answered. absurd (ground (arith, refuses n))))
  where
    P : Modem → Type 0
    P t = t.online ≡ false

step-Off :
    (dial : List ℕ → Bool) (c : ℕ) (p : List ℕ) (m : Modem)
    → ((k : List ℕ) → dial k ≡ false)
    → m.online ≡ false
    → Off (step dial c p m)
unfolding step
step-Off dial c p m refuses off =
    if_elim Off (c == 32) (λ _. off)
      (λ _.
        if_elim Off (c == 90) (λ _. off)
          (λ _.
            if_elim Off (c == 69) (λ _. off)
              (λ _.
                if_elim Off (c == 86) (λ _. off)
                  (λ _.
                    if_elim Off (c == 73) (λ _. (say-Silent m (identity (value p))).online ∙ off)
                      (λ _.
                        if_elim Off (c == 72) (λ _. hang_up_off m false)
                          (λ _.
                            if_elim Off (c == 68)
                              (λ _. dial_out_off dial (dial_number 63 p) m refuses off)
                              (λ _.
                                if_elim Off (c == 38) (λ _. off)
                                  (λ _.
                                    if_elim Off (c == 83)
                                      (λ _.
                                        if_elim Off (first (skip p) == 61) (λ _. off)
                                          (λ _.
                                            if_elim Off (first (skip p) == 63)
                                              (λ _. (say-Silent m register_text).online ∙ off)
                                              (λ _. off)))
                                      (λ _.
                                        if_elim Off (not (is_alpha c))
                                          (λ _. (result-Silent m failed).online ∙ off)
                                          (λ _. off))))))))))

resume-Off :
    (dial : List ℕ → Bool) (n : ℕ) (s : Step)
    → Off s
    → ((q : List ℕ) (t : Modem) → t.online ≡ false → (parse dial n q t).online ≡ false)
    → (elim s as (λ _. Modem) [ go q t ↦ parse dial n q t | stop t ↦ t ]).online ≡ false
resume-Off dial n (go q t) off rest = rest q t off
resume-Off dial n (stop t) off rest = off

parse_off :
    (dial : List ℕ → Bool) (n : ℕ) (p : List ℕ) (m : Modem)
    → ((k : List ℕ) → dial k ≡ false)
    → m.online ≡ false
    → (parse dial n p m).online ≡ false
unfolding parse
parse_off dial zero [] m refuses off = (result-Silent m ok).online ∙ off
parse_off dial (suc n) [] m refuses off = (result-Silent m ok).online ∙ off
parse_off dial zero (c ∷ p) m refuses off = off
parse_off dial (suc n) (c ∷ p) m refuses off =
    resume-Off dial n (step dial (to_upper c) p m) (step-Off dial (to_upper c) p m refuses off)
      (λ q t e. parse_off dial n q t refuses e)

execute_off :
    (dial : List ℕ → Bool) (line : List ℕ) (m : Modem)
    → ((k : List ℕ) → dial k ≡ false)
    → m.online ≡ false
    → (execute dial line m).online ≡ false
unfolding execute
execute_off dial line m refuses off =
    if_elim P (not (attention trimmed))
      (λ _. if_elim P (first trimmed == 0) (λ _. off) (λ _. (result-Silent m failed).online ∙ off))
      (λ _. parse_off dial (length (tail (tail trimmed))) (tail (tail trimmed)) m refuses off)
  where
    trimmed : List ℕ
    trimmed = skip_spaces line

    P : Modem → Type 0
    P t = t.online ≡ false

command_off :
    (dial : List ℕ → Bool) (m : Modem) (b : ℕ)
    → ((k : List ℕ) → dial k ≡ false)
    → m.online ≡ false
    → (command_byte dial m b).online ≡ false
unfolding command_byte push
command_off dial m b refuses off =
    if_elim P (b == 13) (λ _. execute_off dial t.cmd (record t { cmd = [] }) refuses off_t)
      (λ _.
        if_elim P (b == 8 || b == 127) (λ _. off_t)
          (λ _.
            if_elim P (leb 32 b && ltb b 127 && ltb (length t.cmd + 1) 96) (λ _. off_t)
              (λ _. off_t)))
  where
    P : Modem → Type 0
    P u = u.online ≡ false

    t : Modem
    t = if m.echo then push m b else m

    off_t : t.online ≡ false
    off_t = if_elim (λ (u : Modem). u.online ≡ false) m.echo (λ _. off) (λ _. off)

-- A modem that is off line, with a host that answers no call, is brought on line by no write to a
-- register.
pub unanswered_lem :
    (dial : List ℕ → Bool) (m : Modem) (reg value : ℕ)
    → ((k : List ℕ) → dial k ≡ false)
    → m.online ≡ false
    → (write dial m reg value).online ≡ false
unfolding write write_data write_ier write_mcr
unanswered_lem dial m reg value refuses off =
    if_elim P (reg % 8 == 0)
      (λ _.
        if_elim P (dlab m) (λ _. off)
          (λ _.
            if_elim P (m.online || m.gps) (λ _. off) (λ _. command_off dial m value refuses off)))
      (λ _.
        if_elim P (reg % 8 == 1) (λ _. if_elim P (dlab m) (λ _. off) (λ _. off))
          (λ _.
            if_elim P (reg % 8 == 2) (λ _. off)
              (λ _.
                if_elim P (reg % 8 == 3) (λ _. off)
                  (λ _.
                    if_elim P (reg % 8 == 4)
                      (λ _.
                        if_elim P (not m.gps && not (m.mcr % 2 == 0) && value % 2 == 0)
                          (λ _. hang_up_off (record m { mcr = value }) true) (λ _. off))
                      (λ _. if_elim P (reg % 8 == 7) (λ _. off) (λ _. off))))))
  where
    P : Modem → Type 0
    P t = t.online ≡ false

-- When DTR falls on a modem that is on line, not a GPS receiver, it leaves the line: the host is told
-- once, the status shows the change of carrier, and a fall of the carrier after that does nothing.
pub dtr_falls :
    (dial : List ℕ → Bool) (m : Modem) (value : ℕ)
    → m.online ≡ true
    → m.gps ≡ false
    → m.mcr % 2 ≡ 1
    → value % 2 ≡ 0
    → let t = write dial m 4 value in
      (t.online ≡ false)
      × (t.calls ≡ m.calls ++ (hung_up ∷ []))
      × (t.msr_delta ≡ bit_or m.msr_delta 8)
      × (carrier_lost t ≡ t)
unfolding write write_mcr hang_up carrier_lost
dtr_falls dial m value on no_gps was now =
    if_elim P (not m.gps && not (m.mcr % 2 == 0) && value % 2 == 0)
      (λ _.
        if_elim P (not m.online) (λ off. absurd (ground (arith, on)))
          (λ _. (
            said.online,
            said.calls,
            said.delta,
            if_elim (λ (u : Modem). u ≡ t) (not t.online) (λ _. refl)
                (λ on_line. absurd (ground (arith, said.online))),
          )))
      (λ no. absurd (ground (arith, on, no_gps, was, now)))
  where
    P : Modem → Type 0
    P u =
        (u.online ≡ false)
        × (u.calls ≡ m.calls ++ (hung_up ∷ []))
        × (u.msr_delta ≡ bit_or m.msr_delta 8)
        × (carrier_lost u ≡ u)

    t : Modem
    t = result (dropped (record m { mcr = value })) no_carrier

    said : Silent t (dropped (record m { mcr = value }))
    said = result-Silent (dropped (record m { mcr = value })) no_carrier
