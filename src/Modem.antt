-- ===== src/Modem.antt =====
-- The PC Card modem of src/hw/modem.c: the receive ring, the results, the line interpreter and the
-- 16550 registers (Modem/Uart). Characters are their codes. `cmd` holds the first `cmd_len` bytes of the
-- command buffer. The host's `dial` is an argument, which is constantly false where the pointer is
-- NULL; its other callbacks are recorded in `calls`. A number of more digits than an `int` holds is not
-- modelled.
pub mod Line
pub mod Uart
pub mod Answers
pub mod Carrier
pub mod Receive
pub mod Typing
pub mod Inv
mod Tests
use be.Base.{
  ℕ, zero, suc, ◌+◌, ◌-◌, ◌*◌, ◌/◌, ◌%◌, ◌^◌, Bool, true, false, not, ◌&&◌, ◌||◌, List, [], ◌∷◌,
  ◌++◌, ◌==◌, ltb, leb, if◌then◌else◌, bit_or, length,
}

abbrev pub rx_size : ℕ
rx_size = 4096

-- What the host is told.
pub data Call : Type 0 where
  dialled : List ℕ → Call
  hung_up : Call
  sent : ℕ → Call

pub record Modem : Type 0 where
  pub ier : ℕ
  pub lcr : ℕ
  pub mcr : ℕ
  pub fcr : ℕ
  pub scr : ℕ
  pub dll : ℕ
  pub dlm : ℕ
  pub msr_delta : ℕ
  pub thre_irq : Bool
  pub rx : ℕ → ℕ
  pub rx_head : ℕ
  pub rx_count : ℕ
  pub gps : Bool
  pub online : Bool
  pub echo : Bool
  pub verbose : Bool
  pub cmd : List ℕ
  pub connect_rate : ℕ
  pub calls : List Call

abbrev pub put_at : (ℕ → ℕ) → ℕ → ℕ → ℕ → ℕ
put_at m i x = λ (j : ℕ). if j == i then x else m j

unfoldable pub push : Modem → ℕ → Modem
push m b = record m {
  rx = if m.rx_count == rx_size then m.rx else put_at m.rx ((m.rx_head + m.rx_count) % rx_size) b;
  rx_count = if m.rx_count == rx_size then m.rx_count else m.rx_count + 1;
}

unfoldable pub say : Modem → List ℕ → Modem
unfolding push
say m [] = m
say m (c ∷ s) = say (push m c) s

-- The results of ITU V.250.
pub data Code : Type 0 where
  ok connect no_carrier failed : Code

-- The digits of a number in base 10, of at most `fuel` places, before `rest`.
unfoldable pub decimal : ℕ → ℕ → List ℕ → List ℕ
decimal zero n rest = rest
decimal (suc fuel) n rest =
    let longer = decimal fuel (n / 10) ((48 + n % 10) ∷ rest) in
    if ltb n 10 then (48 + n) ∷ rest else longer

-- "OK", "CONNECT ", "NO CARRIER", "ERROR"; the rate of 32 bits has at most ten digits.
abbrev pub text : Code → ℕ → List ℕ
text ok rate = 79 ∷ 75 ∷ []
text connect rate = 67 ∷ 79 ∷ 78 ∷ 78 ∷ 69 ∷ 67 ∷ 84 ∷ 32 ∷ decimal 10 rate []
text no_carrier rate = 78 ∷ 79 ∷ 32 ∷ 67 ∷ 65 ∷ 82 ∷ 82 ∷ 73 ∷ 69 ∷ 82 ∷ []
text failed rate = 69 ∷ 82 ∷ 82 ∷ 79 ∷ 82 ∷ []

abbrev pub number : Code → ℕ
number ok = 0
number connect = 1
number no_carrier = 3
number failed = 4

abbrev pub framed : List ℕ → List ℕ
framed s = 13 ∷ 10 ∷ (s ++ (13 ∷ 10 ∷ []))

unfoldable pub result : Modem → Code → Modem
unfolding say decimal
result m code =
    say m (if m.verbose then framed (text code m.connect_rate) else ((48 + number code) ∷ 13 ∷ []))

unfoldable pub reset : Modem → Modem
reset m = record {
  ier = 0;
  lcr = 0;
  mcr = 0;
  fcr = 0;
  scr = 0;
  dll = 0;
  dlm = 0;
  msr_delta = 0;
  thre_irq = true;
  rx = λ i. 0;
  rx_head = 0;
  rx_count = 0;
  gps = m.gps;
  online = m.gps;
  echo = not m.gps;
  verbose = not m.gps;
  cmd = [];
  connect_rate = 52_000;
  calls = m.calls;
}

abbrev pub dropped : Modem → Modem
dropped m = record m {
  online = false;
  msr_delta = bit_or m.msr_delta 8;
  calls = m.calls ++ (hung_up ∷ []);
}

unfoldable pub hang_up : Modem → Bool → Modem
unfolding result
hang_up m report =
    if not m.online then m else (if report then result (dropped m) no_carrier else dropped m)

unfoldable pub carrier_lost : Modem → Modem
unfolding hang_up
carrier_lost m = hang_up m true

unfoldable pub rx_space : Modem → ℕ
rx_space m = rx_size - m.rx_count

unfoldable pub receive_loop : List ℕ → Modem → ℕ × Modem
unfolding push
receive_loop [] m = (0, m)
receive_loop (b ∷ data_rest) m =
    let (n, t) = receive_loop data_rest (push m b) in
    if ltb m.rx_count rx_size then (n + 1, t) else (0, m)

-- How many bytes fit, and the modem with them.
unfoldable pub receive : Modem → List ℕ → ℕ × Modem
unfolding receive_loop
receive m bytes = if not m.online then (0, m) else receive_loop bytes m

unfoldable pub irq_pending : Modem → Bool
irq_pending m =
    (not (m.ier % 2 == 0) && not (m.rx_count == 0))
    || (not (m.ier / 2 % 2 == 0) && m.thre_irq)
    || (not (m.ier / 8 % 2 == 0) && not (m.msr_delta == 0))
