-- ===== src/Modem/Line.antt =====
-- The line interpreter of src/hw/modem.c.
use be.Base.{
  ℕ, zero, suc, ◌+◌, ◌-◌, ◌*◌, Bool, true, false, not, ◌&&◌, ◌||◌, List, [], ◌∷◌, ◌++◌, ◌==◌, ltb,
  leb, if◌then◌else◌, bit_or, length,
}
use be.Modem.{Modem, dialled, ok, connect, no_carrier, failed, push, say, result, hang_up}

abbrev pub is_digit : ℕ → Bool
is_digit c = leb 48 c && leb c 57

abbrev pub to_upper : ℕ → ℕ
to_upper c = if leb 97 c && leb c 122 then c - 32 else c

abbrev pub is_alpha : ℕ → Bool
is_alpha c = (leb 65 c && leb c 90) || (leb 97 c && leb c 122)

-- The value of the digits at the start, after those that make `v`, and the text after them.
abbrev pub digits : ℕ → List ℕ → ℕ × List ℕ
digits v [] = (v, [])
digits v (c ∷ p) =
    let more = digits (v * 10 + (c - 48)) p in if is_digit c then more else (v, c ∷ p)

abbrev pub skip : List ℕ → List ℕ
skip p = (digits 0 p).1

abbrev pub value : List ℕ → ℕ
value p = (digits 0 p).0

-- The first character, 0 at the end of the string.
abbrev pub first : List ℕ → ℕ
first [] = 0
first (c ∷ p) = c

abbrev pub tail : List ℕ → List ℕ
tail [] = []
tail (c ∷ p) = p

-- The dial string: digits, `*` and `#`, up to a `;`, in a buffer with `room` places left.
abbrev pub dial_number : ℕ → List ℕ → List ℕ
dial_number room [] = []
dial_number zero (c ∷ p) = []
dial_number (suc room) (c ∷ p) =
    let kept = c ∷ dial_number room p in
    let passed = dial_number (suc room) p in
    if c == 59 then [] else if is_digit c || c == 42 || c == 35 then kept else passed

-- What the interpreter does with a character: it goes on with a text, or it is done.
pub data Step : Type 0 where
  go : List ℕ → Modem → Step
  stop : Modem → Step

abbrev pub went_online : Modem → Modem
went_online m = record m { online = true; msr_delta = bit_or m.msr_delta 8 }

abbrev pub noted : Modem → List ℕ → Modem
noted m n = record m { calls = m.calls ++ (dialled n ∷ []) }

-- A call of the number: `dial` tells whether a peer answered.
unfoldable pub dial_out : (List ℕ → Bool) → List ℕ → Modem → Modem
unfolding result
dial_out dial n m =
    if length n == 0
    then result m ok
    else if not (dial n)
    then result (noted m n) no_carrier
    else went_online (result (noted m n) connect)

-- "\r\nL27-01\r\n", "\r\n56000\r\n" and "\r\n000\r\n".
abbrev pub identity : ℕ → List ℕ
identity v =
    if v == 3
    then 13 ∷ 10 ∷ 76 ∷ 50 ∷ 55 ∷ 45 ∷ 48 ∷ 49 ∷ 13 ∷ 10 ∷ []
    else if v == 0
    then 13 ∷ 10 ∷ 53 ∷ 54 ∷ 48 ∷ 48 ∷ 48 ∷ 13 ∷ 10 ∷ []
    else []

abbrev pub register_text : List ℕ
register_text = 13 ∷ 10 ∷ 48 ∷ 48 ∷ 48 ∷ 13 ∷ 10 ∷ []

-- The command of the upper-case character `c`, with the text `p` after it.
unfoldable pub step : (List ℕ → Bool) → ℕ → List ℕ → Modem → Step
unfolding say result hang_up dial_out
step dial c p m =
    if c == 32
    then go p m
    else if c == 90
    then go (skip p) (record m { echo = true; verbose = true })
    else if c == 69
    then go (skip p) (record m { echo = not (value p == 0) })
    else if c == 86
    then go (skip p) (record m { verbose = not (value p == 0) })
    else if c == 73
    then go (skip p) (say m (identity (value p)))
    else if c == 72
    then go (skip p) (hang_up m false)
    else if c == 68
    then stop (dial_out dial (dial_number 63 p) m)
    else if c == 38
    then go (skip (tail p)) m
    else if c == 83
    then (if first (skip p) == 61
        then go (skip (tail (skip p))) m
        else if first (skip p) == 63
        then go (tail (skip p)) (say m register_text)
        else go (skip p) m)
    else if not (is_alpha c)
    then stop (result m failed)
    else go (skip p) m

-- The loop over the line, for at most `n` characters.
unfoldable pub parse : (List ℕ → Bool) → ℕ → List ℕ → Modem → Modem
unfolding step
parse dial n [] m = result m ok
parse dial zero (c ∷ p) m = m
parse dial (suc n) (c ∷ p) m = elim (step dial (to_upper c) p m) [
  | go q t ↦ parse dial n q t
  | stop t ↦ t
]

abbrev pub skip_spaces : List ℕ → List ℕ
skip_spaces [] = []
skip_spaces (c ∷ p) = let rest = skip_spaces p in if c == 32 then rest else c ∷ p

-- The line starts with "AT".
abbrev pub attention : List ℕ → Bool
attention line = to_upper (first line) == 65 && to_upper (first (tail line)) == 84

-- The rest of the line is parsed with its length as fuel.
unfoldable pub execute : (List ℕ → Bool) → List ℕ → Modem → Modem
unfolding parse
execute dial line m =
    let trimmed = skip_spaces line in
    if not (attention trimmed)
    then (if first trimmed == 0 then m else result m failed)
    else parse dial (length (tail (tail trimmed))) (tail (tail trimmed)) m

abbrev pub drop_last : List ℕ → List ℕ
drop_last [] = []
drop_last (c ∷ []) = []
drop_last (c ∷ d ∷ p) = c ∷ drop_last (d ∷ p)

unfoldable pub command_byte : (List ℕ → Bool) → Modem → ℕ → Modem
unfolding execute push
command_byte dial m b =
    let t = if m.echo then push m b else m in
    if b == 13
    then execute dial t.cmd (record t { cmd = [] })
    else if b == 8 || b == 127
    then record t { cmd = drop_last t.cmd }
    else if leb 32 b && ltb b 127 && ltb (length t.cmd + 1) 96
    then record t { cmd = t.cmd ++ (b ∷ []) }
    else t
