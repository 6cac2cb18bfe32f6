-- ===== src/Nand/Parity/Roots.antt =====
-- The values of the generator polynomial of src/hw/nand.c and of its multiples.
use native.Mathlib.Nat.{pow-suc}
use mathlib.Core.Path.{ap₂}
use be.Base.{
  ℕ, zero, suc, ◌+◌, ◌*◌, ◌/◌, ◌%◌, ◌^◌, ◌≤◌, ◌<◌, ◌≡◌, refl, sym, ap, ◌∙◌, true, List, [], ◌∷◌,
  ◌++◌, ◌==◌, ==_iff, bit_xor, length, replicate, arith,
}
use be.Base.Bits.{holds_below, holds_below_lem}
use be.Base.Bits.Step.{bit_xor_self}
use be.Base.Bits.Xor.{xor_swap, xor_zero, xor_nothing, xor_right, xor_double, halves, xor_parts}
use be.Nand.Parity.{shift_add, generator, gmul}
use be.Nand.Parity.Field.{
  by_power, by_powers, product, by_power-bit_xor, by_power_zero, by_powers-bit_xor, product-bit_xor,
  gmul_lem,
}

-- The value at `x ^ k` of a polynomial, lowest coefficient first.
unfoldable pub evaluate : ℕ → List ℕ → ℕ
unfolding by_power
evaluate k [] = 0
evaluate k (c ∷ cs) = bit_xor c (by_power k (evaluate k cs))

pub evaluate-append :
    (k : ℕ) (p q : List ℕ)
    → evaluate k (p ++ q) ≡ bit_xor (evaluate k p) (by_powers k (length p) (evaluate k q))
unfolding evaluate
evaluate-append k [] q = sym (xor_nothing (evaluate k q))
evaluate-append k (c ∷ p) q =
    ap (λ (t : ℕ). bit_xor c (by_power k t)) (evaluate-append k p q)
    ∙ ap (bit_xor c) (by_power-bit_xor k (evaluate k p) (by_powers k (length p) (evaluate k q)))
    ∙ xor_right c _ _

-- The coefficient that a shift moves out of the list.
abbrev pub moved_out : ℕ → List ℕ → ℕ
moved_out below [] = below
moved_out below (a ∷ rest) = moved_out a rest

-- The multiples that the shift adds.
abbrev pub scaled : (ℕ → ℕ) → List ℕ → List ℕ → List ℕ
scaled times [] ms = []
scaled times (a ∷ rest) [] = []
scaled times (a ∷ rest) (m ∷ ms) = times m ∷ scaled times rest ms

pub shift_add_lem :
    (k : ℕ) (times : ℕ → ℕ) (below : ℕ) (rem ms : List ℕ)
    → length rem ≤ length ms
    → bit_xor
        (evaluate k (shift_add times below rem ms))
        (by_powers k (length rem) (moved_out below rem))
      ≡ bit_xor (evaluate k (below ∷ rem)) (evaluate k (scaled times rem ms))
unfolding evaluate shift_add
shift_add_lem k times below [] ms h =
    xor_nothing below
    ∙ sym (xor_zero below)
    ∙ sym (xor_zero (bit_xor below 0))
    ∙ ap (λ (t : ℕ). bit_xor (bit_xor below t) 0) (sym (by_power_zero k))
shift_add_lem k times below (a ∷ rest) [] h = elim h [ ]
shift_add_lem k times below (a ∷ rest) (m ∷ ms) h =
    sym (xor_right _ _ _)
    ∙ ap (bit_xor (bit_xor below (times m))) (
        sym (by_power-bit_xor k _ _)
        ∙ ap (by_power k) (shift_add_lem k times a rest ms (omega arith))
        ∙ by_power-bit_xor k _ _)
    ∙ xor_swap below (times m) _ _

Linear : (ℕ → ℕ) → Type 0
Linear f = (a b : ℕ) → f (bit_xor a b) ≡ bit_xor (f a) (f b)

Linear-zero : (f : ℕ → ℕ) → Linear f → f 0 ≡ 0
unfolding Linear
Linear-zero f p = p 0 0 ∙ bit_xor_self (f 0)

doubled : (f : ℕ → ℕ) → Linear f → Linear (λ (b : ℕ). f (2 * b))
unfolding Linear
doubled f p b c = ap f (sym (xor_double b c)) ∙ p (2 * b) (2 * c)

-- Linear functions that agree on the powers of 2 below a bound agree below it.
Linear-agree :
    (w : ℕ) (f g : ℕ → ℕ)
    → Linear f
    → Linear g
    → ((i : ℕ) → i < w → f (2 ^ i) ≡ g (2 ^ i))
    → (a : ℕ) → a < 2 ^ w
    → f a ≡ g a
unfolding Linear
Linear-agree zero f g p q e a h =
    ap f nil ∙ Linear-zero f p ∙ sym (Linear-zero g q) ∙ ap g (sym nil)
  where
    nil : a ≡ 0
    nil = omega arith
Linear-agree (suc w) f g p q e a h =
    ap f split
    ∙ p (2 * (a / 2)) (a % 2)
    ∙ ap₂ bit_xor
        (Linear-agree w (λ (b : ℕ). f (2 * b)) (λ (b : ℕ). g (2 * b)) (doubled f p) (doubled g q)
          (λ i lt.
            ap f (omega (arith, pow-suc 2 i))
            ∙ e (suc i) (omega arith)
            ∙ ap g (omega (arith, pow-suc 2 i)))
          (a / 2) (omega (arith, pow-suc 2 w)))
        (low (a % 2) (omega arith))
    ∙ sym (q (2 * (a / 2)) (a % 2))
    ∙ ap g (sym split)
  where
    upper : 2 * (a / 2) / 2 ≡ a / 2
    upper = omega arith

    lower : a % 2 / 2 ≡ 0
    lower = omega arith

    split : a ≡ bit_xor (2 * (a / 2)) (a % 2)
    split =
        halves a (bit_xor (2 * (a / 2)) (a % 2))
          (omega
            (arith, xor_parts (2 * (a / 2)) (a % 2), ap₂ bit_xor upper lower, xor_zero (a / 2)))
          (omega (arith, xor_parts (2 * (a / 2)) (a % 2)))

    low : (b : ℕ) → b < 2 → f b ≡ g b
    low zero lt = Linear-zero f p ∙ sym (Linear-zero g q)
    low (suc zero) lt = e 0 (omega arith)
    low (suc (suc b)) lt = absurd (omega arith)

scaled_same :
    (f g : ℕ → ℕ) (rem other ms : List ℕ)
    → ((m : ℕ) → f m ≡ g m)
    → length rem ≡ length other
    → scaled f rem ms ≡ scaled g other ms
scaled_same f g [] [] ms h e = refl
scaled_same f g [] (b ∷ other) ms h e = absurd (omega arith)
scaled_same f g (a ∷ rem) [] ms h e = absurd (omega arith)
scaled_same f g (a ∷ rem) (b ∷ other) [] h e = refl
scaled_same f g (a ∷ rem) (b ∷ other) (m ∷ ms) h e =
    ap₂ ◌∷◌ (h m) (scaled_same f g rem other ms h (omega arith))

-- The value of the multiples is linear in the factor.
scaled-Linear :
    (k : ℕ) (rem ms : List ℕ) → Linear (λ (f : ℕ). evaluate k (scaled (product 10 f) rem ms))
unfolding evaluate Linear
scaled-Linear k [] ms a b = refl
scaled-Linear k (r ∷ rem) [] a b = refl
scaled-Linear k (r ∷ rem) (m ∷ ms) a b =
    ap₂ bit_xor (product-bit_xor 10 a b m)
      (ap (by_power k) (scaled-Linear k rem ms a b) ∙ by_power-bit_xor k _ _)
    ∙ xor_swap (product 10 a m) (product 10 b m) _ _

abbrev pub roots : ℕ
roots = 6

-- The generator vanishes at the first six powers: its lower coefficients sum up to `x ^ 6` there.
abbrev multiples : ℕ → ℕ → ℕ
multiples k f = evaluate k (scaled (product 10 f) (replicate 6 0) generator)

roots_table :
    holds_below (λ j. multiples (j / 10) (2 ^ (j % 10)) == by_powers (j / 10) 6 (2 ^ (j % 10))) 60
    ≡ true
unfolding holds_below evaluate product generator by_power
roots_table = refl

at_root : (k i : ℕ) → k < roots → i < 10 → multiples k (2 ^ i) ≡ by_powers k 6 (2 ^ i)
at_root k i h lt =
    ap₂ (λ (k i : ℕ). multiples k (2 ^ i)) (sym row) (sym column)
    ∙ (==_iff _ _).0 (holds_below_lem _ 60 (k * 10 + i) (omega arith) roots_table)
    ∙ ap₂ (λ (k i : ℕ). by_powers k 6 (2 ^ i)) row column
  where
    row : (k * 10 + i) / 10 ≡ k
    row = omega arith

    column : (k * 10 + i) % 10 ≡ i
    column = omega arith

pub generator_lem :
    (k f : ℕ) (rem : List ℕ)
    → k < roots
    → f < 2 ^ 10
    → length rem ≡ 6
    → evaluate k (scaled (gmul f) rem generator) ≡ by_powers k 6 f
unfolding Linear
generator_lem k f rem h small six =
    ap (evaluate k) (
      scaled_same (gmul f) (product 10 f) rem (replicate 6 0) generator (λ m. gmul_lem f m small)
        six)
    ∙ Linear-agree 10 (multiples k) (by_powers k 6) (scaled-Linear k (replicate 6 0) generator)
        (by_powers-bit_xor k 6) (λ i lt. at_root k i h lt) f small
