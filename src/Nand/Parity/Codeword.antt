-- ===== src/Nand/Parity/Codeword.antt =====
-- The parity of src/hw/nand.c as a Reed-Solomon code: the values of a page followed by its parity.
use mathlib.Core.Path.{ap₂}
use be.Base.{
  ℕ, zero, suc, ◌+◌, ◌-◌, ◌*◌, ◌/◌, ◌%◌, ◌^◌, ◌≤◌, ◌<◌, ◌≡◌, refl, sym, ap, ◌∙◌, List, [], ◌∷◌,
  ◌++◌, ltb, if◌then◌else◌, bit_xor, length, get_or, replicate, arith,
}
use be.Base.Bits.Step.{bit_xor_self}
use be.Base.Bits.Xor.{xor_nothing, xor_right, xor_comm, xor_cancel, xor_small}
use be.Nand.{Medium}
use be.Nand.Parity.{
  shift_add, remainder_loop, generator, page_parity, feedback, gmul, rev_loop, bitrev, reversed,
}
use be.Nand.Parity.Field.{
  by_power, by_powers, by_powers-bit_xor, by_powers_comm, by_power_zero, gmul_small,
}
use be.Nand.Parity.Roots.{evaluate, evaluate-append, moved_out, shift_add_lem, generator_lem, roots}

-- The ten lowest bits in reverse.
unfoldable pub mirrored : ℕ → ℕ
mirrored v =
    v % 2 * 512
    + v / 2 % 2 * 256
    + v / 4 % 2 * 128
    + v / 8 % 2 * 64
    + v / 16 % 2 * 32
    + v / 32 % 2 * 16
    + v / 64 % 2 * 8
    + v / 128 % 2 * 4
    + v / 256 % 2 * 2
    + v / 512 % 2

-- The polynomial of the first `n` bytes: the first byte has the highest place.
unfoldable pub message : (ℕ → ℕ) → ℕ → List ℕ
unfolding mirrored
message bytes zero = []
message bytes (suc n) = mirrored (bytes n % 2 ^ 8) ∷ message bytes n

mirrored_small : (v : ℕ) → mirrored v < 2 ^ 10
unfolding mirrored
mirrored_small v = omega arith

bitrev_lem : (v : ℕ) → bitrev v * 4 ≡ mirrored (v % 2 ^ 8)
unfolding mirrored rev_loop
bitrev_lem v = omega arith

pub reversed_lem : (v : ℕ) → reversed v ≡ mirrored v
unfolding mirrored rev_loop
reversed_lem v = omega arith

-- Six coefficients of ten bits.
record Fine (rem : List ℕ) : Type 0 where
  six : length rem ≡ 6
  small : (i : ℕ) → get_or rem i 0 < 2 ^ 10

length-shift_add :
    (times : ℕ → ℕ) (below : ℕ) (rem ms : List ℕ)
    → length rem ≤ length ms
    → length (shift_add times below rem ms) ≡ length rem
unfolding shift_add
length-shift_add times below [] ms h = refl
length-shift_add times below (a ∷ rest) [] h = elim h [ ]
length-shift_add times below (a ∷ rest) (m ∷ ms) h =
    ap suc (length-shift_add times a rest ms (omega arith))

shift_add_small :
    (times : ℕ → ℕ) (below : ℕ) (rem ms : List ℕ)
    → ((m : ℕ) → times m < 2 ^ 10)
    → below < 2 ^ 10
    → ((i : ℕ) → get_or rem i 0 < 2 ^ 10)
    → (i : ℕ) → get_or (shift_add times below rem ms) i 0 < 2 ^ 10
unfolding shift_add
shift_add_small times below [] ms h b s i = omega arith
shift_add_small times below (a ∷ rest) [] h b s i = omega arith
shift_add_small times below (a ∷ rest) (m ∷ ms) h b s zero = xor_small 10 below (times m) b (h m)
shift_add_small times below (a ∷ rest) (m ∷ ms) h b s (suc i) =
    shift_add_small times a rest ms h (s 0) (λ j. s (suc j)) i

length-generator : length generator ≡ 7
unfolding generator
length-generator = refl

last_lem :
    (below : ℕ) (rem : List ℕ) (n : ℕ) → length rem ≡ suc n → moved_out below rem ≡ get_or rem n 0
last_lem below [] n e = absurd (omega arith)
last_lem below (a ∷ []) zero e = refl
last_lem below (a ∷ []) (suc n) e = absurd (omega arith)
last_lem below (a ∷ b ∷ rest) zero e = absurd (omega arith)
last_lem below (a ∷ b ∷ rest) (suc n) e = last_lem a (b ∷ rest) n (omega arith)

feedback_small : (byte : ℕ) (rem : List ℕ) → Fine rem → feedback byte rem < 2 ^ 10
feedback_small byte rem v =
    xor_small 10 (bitrev byte * 4) (get_or rem 5 0)
      (omega (arith, bitrev_lem byte, mirrored_small (byte % 2 ^ 8))) (v.small 5)

-- One byte: the polynomial is shifted by a place, and the byte is added above the six coefficients.
step_lem :
    (k byte : ℕ) (rem : List ℕ)
    → k < roots
    → Fine rem
    → evaluate k (shift_add (λ m. gmul (feedback byte rem) m) 0 rem generator)
      ≡ bit_xor (by_power k (evaluate k rem)) (by_powers k 6 (mirrored (byte % 2 ^ 8)))
unfolding evaluate
step_lem k byte rem h v =
    let times = λ (m : ℕ). gmul (feedback byte rem) m in
    xor_cancel (evaluate k (shift_add times 0 rem generator)) _
      (by_powers k (length rem) (moved_out 0 rem))
      (shift_add_lem k times 0 rem generator (omega (arith, v.six, length-generator))
        ∙ ap₂ bit_xor (xor_nothing (by_power k (evaluate k rem))) (
            generator_lem k (feedback byte rem) rem h (feedback_small byte rem v) v.six
            ∙ by_powers-bit_xor k 6 (bitrev byte * 4) (get_or rem 5 0)
            ∙ ap₂ bit_xor (ap (by_powers k 6) (bitrev_lem byte)) out)
        ∙ xor_right (by_power k (evaluate k rem)) _ _)
  where
    out : by_powers k 6 (get_or rem 5 0) ≡ by_powers k (length rem) (moved_out 0 rem)
    out = ap₂ (by_powers k) (sym v.six) (sym (last_lem 0 rem 5 v.six))

step-Fine :
    (byte : ℕ) (rem : List ℕ)
    → Fine rem
    → Fine (shift_add (λ m. gmul (feedback byte rem) m) 0 rem generator)
step-Fine byte rem v = record {
  six = length-shift_add _ 0 rem generator (omega (arith, v.six, length-generator)) ∙ v.six;
  small =
      shift_add_small (λ m. gmul (feedback byte rem) m) 0 rem generator
        (λ m. gmul_small (feedback byte rem) m (feedback_small byte rem v)) (omega arith) v.small;
}

message_step :
    (k i : ℕ) (bytes : ℕ → ℕ) (value : ℕ)
    → value ≡ by_powers k 6 (evaluate k (message bytes i))
    → bit_xor (by_power k value) (by_powers k 6 (mirrored (bytes i % 2 ^ 8)))
      ≡ by_powers k 6 (evaluate k (message bytes (i + 1)))
unfolding evaluate message
message_step k i bytes value e =
    let byte = mirrored (bytes i % 2 ^ 8) in
    let before = evaluate k (message bytes i) in
    ap (λ (t : ℕ). bit_xor (by_power k t) (by_powers k 6 byte)) e
    ∙ xor_comm (by_power k (by_powers k 6 before)) (by_powers k 6 byte)
    ∙ ap (bit_xor (by_powers k 6 byte)) (sym (by_powers_comm k 6 before))
    ∙ sym (by_powers-bit_xor k 6 byte (by_power k before))
    ∙ ap (λ (j : ℕ). by_powers k 6 (evaluate k (message bytes j))) {x = suc i} {y = i + 1}
        (omega arith)

loop_lem :
    (k n i : ℕ) (bytes : ℕ → ℕ) (rem : List ℕ)
    → k < roots
    → Fine rem
    → evaluate k rem ≡ by_powers k 6 (evaluate k (message bytes i))
    → (length (remainder_loop n i bytes rem) ≡ 6)
      × (evaluate k (remainder_loop n i bytes rem)
          ≡ by_powers k 6 (evaluate k (message bytes (i + n))))
unfolding remainder_loop
loop_lem k zero i bytes rem h v e = (
  v.six,
  e
      ∙ ap (λ (j : ℕ). by_powers k 6 (evaluate k (message bytes j))) {x = i} {y = i + 0}
          (omega arith),
)
loop_lem k (suc n) i bytes rem h v e =
    let next = shift_add (λ m. gmul (feedback (bytes i) rem) m) 0 rem generator in
    let (six, value) =
      loop_lem k n (i + 1) bytes next h (step-Fine (bytes i) rem v)
        (step_lem k (bytes i) rem h v ∙ message_step k i bytes (evaluate k rem) e) in
    (
      six,
      value
          ∙ ap (λ (j : ℕ). by_powers k 6 (evaluate k (message bytes j))) {x = i + 1 + n}
              {y = i + suc n} (omega arith),
    )

-- The bytes of a page: its data and its spare bytes.
abbrev pub raw_byte : Medium → ℕ → ℕ → ℕ
raw_byte m page i = if ltb i 512 then m.image (page * 512 + i) else m.oob (page * 16 + (i - 512))

closes :
    (k : ℕ) (rem above : List ℕ)
    → length rem ≡ 6
    → evaluate k rem ≡ by_powers k 6 (evaluate k above)
    → evaluate k (rem ++ above) ≡ 0
closes k rem above six e =
    evaluate-append k rem above
    ∙ ap₂ bit_xor e (ap (λ (n : ℕ). by_powers k n (evaluate k above)) six)
    ∙ bit_xor_self (by_powers k 6 (evaluate k above))

none-Fine : Fine (replicate 6 0)
none-Fine = record { six = refl; small = λ i. ground arith }

evaluate-replicate : (k n : ℕ) → evaluate k (replicate n 0) ≡ 0
unfolding evaluate
evaluate-replicate k zero = refl
evaluate-replicate k (suc n) =
    xor_nothing (by_power k (evaluate k (replicate n 0)))
    ∙ ap (by_power k) (evaluate-replicate k n)
    ∙ by_power_zero k

by_powers_zero : (k n : ℕ) → by_powers k n 0 ≡ 0
by_powers_zero k zero = refl
by_powers_zero k (suc n) = ap (by_power k) (by_powers_zero k n) ∙ by_power_zero k

nothing_read :
    (k : ℕ) (bytes : ℕ → ℕ)
    → evaluate k (replicate 6 0) ≡ by_powers k 6 (evaluate k (message bytes 0))
unfolding evaluate message
nothing_read k bytes = evaluate-replicate k 6 ∙ sym (by_powers_zero k 6)

-- A page above its parity is a polynomial that vanishes at the first six powers of the field's generator.
pub page_vanishes :
    (m : Medium) (page k : ℕ)
    → k < roots
    → (length (page_parity m page) ≡ 6)
      × (evaluate k (page_parity m page ++ message (raw_byte m page) 520) ≡ 0)
unfolding page_parity
page_vanishes m page k h =
    let (six, value) =
      loop_lem k 520 0 (raw_byte m page) (replicate 6 0) h none-Fine
        (nothing_read k (raw_byte m page)) in
    (six, closes k (page_parity m page) (message (raw_byte m page) 520) six value)
