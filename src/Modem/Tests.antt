-- ===== src/Modem/Tests.antt =====
-- Tests of the modem, and its theorems at a fresh one.
use be.Base.{ℕ, ◌≡◌, refl, Bool, true, false, min, if◌then◌else◌, arith, List, [], ◌∷◌, ◌++◌, take}
use be.Modem.{Modem, receive}
use be.Modem.Line.{execute}
use be.Modem.Uart.{write}
use be.Modem.Answers.{Answered, execute-Answered}
use be.Modem.Carrier.{unanswered_lem}
use be.Modem.Receive.{waiting, receive_lem}
use be.Modem.Typing.{Quiet, typed, type_in, typed_line}
use be.Modem.Inv.{InBuffers}

abbrev fresh : Modem
fresh = record {
  ier = 0;
  lcr = 0;
  mcr = 1;
  fcr = 0;
  scr = 0;
  dll = 0;
  dlm = 0;
  msr_delta = 0;
  thre_irq = true;
  rx = λ i. i;
  rx_head = 0;
  rx_count = 0;
  gps = false;
  online = false;
  echo = false;
  verbose = true;
  cmd = [];
  connect_rate = 52_000;
  calls = [];
}

abbrev on_line : Modem
on_line = record fresh { online = true; rx_count = 2 }

abbrev never : List ℕ → Bool
never n = false

-- "ATDT5"
abbrev dial_line : List ℕ
dial_line = 65 ∷ 84 ∷ 68 ∷ 84 ∷ 53 ∷ []

execute-Answered_example : Answered (execute never dial_line fresh)
execute-Answered_example = execute-Answered never dial_line fresh refl

unanswered_lem_example : (write never fresh 0 13).online ≡ false
unanswered_lem_example = unanswered_lem never fresh 0 13 (λ k. refl) refl

receive_lem_example :
    let (n, t) = receive on_line (7 ∷ 8 ∷ []) in
    (n ≡ (if true then min 4094 2 else 0)) × (waiting t ≡ waiting on_line ++ take n (7 ∷ 8 ∷ []))
receive_lem_example = receive_lem on_line (7 ∷ 8 ∷ []) (omega arith)

fresh-Quiet : Quiet fresh
fresh-Quiet = record { off_line = refl; no_gps = refl; no_echo = refl; no_latch = refl }

typed_line_example :
    write never (type_in never (typed fresh []) dial_line) 0 13
    ≡ record (execute never dial_line (typed fresh [])) { thre_irq = true }
typed_line_example = typed_line never fresh dial_line fresh-Quiet refl (omega arith)

fresh-InBuffers : InBuffers fresh
fresh-InBuffers = record { head = omega arith; count = omega arith; line = omega arith }
