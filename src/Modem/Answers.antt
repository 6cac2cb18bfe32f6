-- ===== src/Modem/Answers.antt =====
-- Every line that is typed to the modem of src/hw/modem.c is answered.
use be.Base.{
  ℕ, zero, suc, ◌+◌, ◌-◌, ◌*◌, ◌≤◌, ◌≡◌, Bool, false, not, List, [], ◌∷◌, ◌==◌, if_elim, arith,
  length,
}
use be.Modem.{Modem, Code, ok, connect, no_carrier, failed, result, say}
use be.Modem.Line.{
  Step, go, stop, step, parse, execute, dial_out, dial_number, digits, skip, first, tail, to_upper,
  is_digit, is_alpha, noted, went_online, attention, skip_spaces, register_text,
}

-- The last thing that the modem says is a result: the state is that of a result, or that of going online
-- right after the result of a connection.
pub data Answered : Modem → Type 0 where
  plain : (t : Modem) (code : Code) → Answered (result t code)
  connected : (t : Modem) → Answered (went_online (result t connect))

length-digits : (v : ℕ) (p : List ℕ) → length (digits v p).1 ≤ length p
length-digits v [] = omega arith
length-digits v (c ∷ p) =
    if_elim (λ (r : ℕ × List ℕ). length r.1 ≤ suc (length p)) (is_digit c)
      (λ _. omega (arith, length-digits (v * 10 + (c - 48)) p)) (λ _. omega arith)

length-tail : (p : List ℕ) → length (tail p) ≤ length p
length-tail [] = omega arith
length-tail (c ∷ p) = omega arith

dial_out-Answered : (dial : List ℕ → Bool) (n : List ℕ) (m : Modem) → Answered (dial_out dial n m)
unfolding dial_out
dial_out-Answered dial n m =
    if_elim Answered (length n == 0) (λ _. plain m ok)
      (λ _.
        if_elim Answered (not (dial n)) (λ _. plain (noted m n) no_carrier)
          (λ _. connected (noted m n)))

-- A step answers, or leaves no more text than it was given.
data Progress (bound : ℕ) : Step → Type 0 where
  goes : (q : List ℕ) (t : Modem) → length q ≤ bound → Progress bound (go q t)
  stops : (t : Modem) → Answered t → Progress bound (stop t)

step-Progress :
    (dial : List ℕ → Bool) (c : ℕ) (p : List ℕ) (m : Modem) → Progress (length p) (step dial c p m)
unfolding step
step-Progress dial c p m =
    if_elim P (c == 32) (λ _. goes p m (omega arith))
      (λ _.
        if_elim P (c == 90) (λ _. skipped _)
          (λ _.
            if_elim P (c == 69) (λ _. skipped _)
              (λ _.
                if_elim P (c == 86) (λ _. skipped _)
                  (λ _.
                    if_elim P (c == 73) (λ _. skipped _)
                      (λ _.
                        if_elim P (c == 72) (λ _. skipped _)
                          (λ _.
                            if_elim P (c == 68)
                              (λ _.
                                stops (dial_out dial (dial_number 63 p) m)
                                  (dial_out-Answered dial (dial_number 63 p) m))
                              (λ _.
                                if_elim P (c == 38)
                                  (λ _.
                                    goes (skip (tail p)) m
                                      (omega (arith, length-digits 0 (tail p), length-tail p)))
                                  (λ _.
                                    if_elim P (c == 83)
                                      (λ _.
                                        if_elim P (first (skip p) == 61)
                                          (λ _. goes (skip (tail (skip p))) m (
                                            omega (
                                              arith,
                                              length-digits 0 p,
                                              length-tail (skip p),
                                              length-digits 0 (tail (skip p)),
                                            )))
                                          (λ _.
                                            if_elim P (first (skip p) == 63)
                                              (λ _. goes (tail (skip p)) (say m register_text) (
                                                omega
                                                  (arith, length-digits 0 p, length-tail (skip p))))
                                              (λ _. skipped m)))
                                      (λ _.
                                        if_elim P (not (is_alpha c))
                                          (λ _. stops (result m failed) (plain m failed))
                                          (λ _. skipped m))))))))))
  where
    P : Step → Type 0
    P = Progress (length p)

    skipped : (t : Modem) → Progress (length p) (go (skip p) t)
    skipped t = goes (skip p) t (length-digits 0 p)

-- What the loop does after a step, given that it answers on shorter texts.
resume :
    (dial : List ℕ → Bool) (n bound : ℕ) (s : Step)
    → Progress bound s
    → ((q : List ℕ) (t : Modem) → length q ≤ bound → Answered (parse dial n q t))
    → Answered (elim s as (λ _. Modem) [ go q t ↦ parse dial n q t | stop t ↦ t ])
resume dial n bound (go q t) (goes _ _ h) shorter = shorter q t h
resume dial n bound (stop t) (stops _ a) shorter = a

parse-Answered :
    (dial : List ℕ → Bool) (n : ℕ) (p : List ℕ) (m : Modem)
    → length p ≤ n
    → Answered (parse dial n p m)
unfolding parse
parse-Answered dial zero [] m h = plain m ok
parse-Answered dial (suc n) [] m h = plain m ok
parse-Answered dial zero (c ∷ p) m h = absurd (omega arith)
parse-Answered dial (suc n) (c ∷ p) m h =
    resume dial n (length p) (step dial (to_upper c) p m) (step-Progress dial (to_upper c) p m)
      (λ q t le. parse-Answered dial n q t (omega (arith, le, h)))

-- Every line that is not blank gets an answer, whatever it says: the modem's last words on it are OK,
-- CONNECT, NO CARRIER or ERROR. A line is never left in the middle, since its length is fuel enough.
pub execute-Answered :
    (dial : List ℕ → Bool) (line : List ℕ) (m : Modem)
    → (first (skip_spaces line) == 0) ≡ false
    → Answered (execute dial line m)
unfolding execute
execute-Answered dial line m some =
    if_elim Answered (not (attention trimmed))
      (λ _.
        if_elim Answered (first trimmed == 0) (λ blank. absurd (ground arith))
          (λ _. plain m failed))
      (λ _.
        parse-Answered dial (length (tail (tail trimmed))) (tail (tail trimmed)) m (omega arith))
  where
    trimmed : List ℕ
    trimmed = skip_spaces line
