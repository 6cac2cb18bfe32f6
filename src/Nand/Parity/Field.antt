-- ===== src/Nand/Parity/Field.antt =====
-- The field of 1024 elements in src/hw/nand.c: multiplication by powers of its generator, which is
-- linear, and the product.
use mathlib.Core.Path.{ap₂}
use be.Base.{
  ℕ, zero, suc, ◌*◌, ◌/◌, ◌%◌, ◌^◌, ◌<◌, ◌≡◌, refl, sym, ap, ◌∙◌, Bool, true, false, not, ◌==◌,
  if◌then◌else◌, same_flag, bit_xor, arith,
}
use be.Base.Bits.{test_bit, holds_below, holds_below_lem}
use be.Base.Bits.Xor.{
  xor_swap, xor_zero, xor_nothing, xor_right, xor_double, xor_mod, xor_small, test_bit-bit_xor,
}
use be.Nand.Parity.{xtime, gmul_loop, gmul}

-- What `x ^ 10` is, if there is one.
abbrev carry : Bool → ℕ
carry true = 9
carry false = 0

-- The product with `x` modulo `x ^ 10 + x ^ 3 + 1`: bit `i` is the coefficient of `x ^ i`.
unfoldable pub by_x : ℕ → ℕ
by_x a = bit_xor (2 * a % 2 ^ 10) (carry (test_bit a 9))

-- The product with `x ^ k`.
unfoldable pub by_power : ℕ → ℕ → ℕ
unfolding by_x
by_power zero a = a
by_power (suc k) a = by_x (by_power k a)

-- The product with `x ^ (k * n)`.
abbrev pub by_powers : ℕ → ℕ → ℕ → ℕ
by_powers k zero a = a
by_powers k (suc n) a = by_power k (by_powers k n a)

carry_lem : (p q : Bool) → carry (not (same_flag p q)) ≡ bit_xor (carry p) (carry q)
carry_lem true true = refl
carry_lem true false = refl
carry_lem false true = refl
carry_lem false false = refl

pub by_x-bit_xor : (a b : ℕ) → by_x (bit_xor a b) ≡ bit_xor (by_x a) (by_x b)
unfolding by_x
by_x-bit_xor a b =
    ap₂ bit_xor (ap (λ (t : ℕ). t % 2 ^ 10) (sym (xor_double a b)) ∙ xor_mod 10 (2 * a) (2 * b))
      (ap carry (test_bit-bit_xor 9 a b) ∙ carry_lem (test_bit a 9) (test_bit b 9))
    ∙ xor_swap (2 * a % 2 ^ 10) (2 * b % 2 ^ 10) (carry (test_bit a 9)) (carry (test_bit b 9))

pub by_power-bit_xor :
    (k a b : ℕ) → by_power k (bit_xor a b) ≡ bit_xor (by_power k a) (by_power k b)
unfolding by_power
by_power-bit_xor zero a b = refl
by_power-bit_xor (suc k) a b =
    ap by_x (by_power-bit_xor k a b) ∙ by_x-bit_xor (by_power k a) (by_power k b)

pub by_power_zero : (k : ℕ) → by_power k 0 ≡ 0
unfolding by_power by_x
by_power_zero zero = refl
by_power_zero (suc k) = ap by_x (by_power_zero k)

pub by_powers-bit_xor :
    (k n a b : ℕ) → by_powers k n (bit_xor a b) ≡ bit_xor (by_powers k n a) (by_powers k n b)
by_powers-bit_xor k zero a b = refl
by_powers-bit_xor k (suc n) a b =
    ap (by_power k) (by_powers-bit_xor k n a b)
    ∙ by_power-bit_xor k (by_powers k n a) (by_powers k n b)

pub by_powers_comm : (k n a : ℕ) → by_powers k n (by_power k a) ≡ by_power k (by_powers k n a)
by_powers_comm k zero a = refl
by_powers_comm k (suc n) a = ap (by_power k) (by_powers_comm k n a)

carry_small : (b : Bool) → carry b < 2 ^ 10
carry_small true = omega arith
carry_small false = omega arith

pub by_x_small : (a : ℕ) → by_x a < 2 ^ 10
unfolding by_x
by_x_small a = xor_small 10 (2 * a % 2 ^ 10) (carry (test_bit a 9)) (omega arith) (carry_small _)

same_table : holds_below (λ a. xtime a == by_x a) 1024 ≡ true
unfolding holds_below by_x
same_table = refl

-- The code's multiplication by `x`.
xtime_lem : (a : ℕ) → a < 2 ^ 10 → xtime a ≡ by_x a
xtime_lem a h = ground (arith, holds_below_lem (λ a. xtime a == by_x a) 1024 a h same_table)

-- The product of `a` with the polynomial of the lowest `n` bits of `b`.
unfoldable pub product : ℕ → ℕ → ℕ → ℕ
unfolding by_x
product zero a b = 0
product (suc n) a b = bit_xor (if b % 2 == 1 then a else 0) (product n (by_x a) (b / 2))

pub product-bit_xor :
    (n a c b : ℕ) → product n (bit_xor a c) b ≡ bit_xor (product n a b) (product n c b)
unfolding product
product-bit_xor zero a c b = refl
product-bit_xor (suc n) a c b =
    ap₂ bit_xor (chosen (b % 2 == 1)) (
      ap (λ (t : ℕ). product n t (b / 2)) (by_x-bit_xor a c)
      ∙ product-bit_xor n (by_x a) (by_x c) (b / 2))
    ∙ xor_swap (if b % 2 == 1 then a else 0) (if b % 2 == 1 then c else 0) _ _
  where
    chosen :
        (t : Bool)
        → (if t then bit_xor a c else 0) ≡ bit_xor (if t then a else 0) (if t then c else 0)
    chosen true = refl
    chosen false = refl

gmul_loop_lem : (n a b r : ℕ) → a < 2 ^ 10 → gmul_loop n a b r ≡ bit_xor r (product n a b)
unfolding gmul_loop product
gmul_loop_lem zero a b r h = sym (xor_zero r)
gmul_loop_lem (suc n) a b r h =
    ap (λ (t : ℕ). gmul_loop n t (b / 2) (if b % 2 == 1 then bit_xor r a else r)) (xtime_lem a h)
    ∙ gmul_loop_lem n (by_x a) (b / 2) _ (by_x_small a)
    ∙ chosen (b % 2 == 1)
  where
    chosen :
        (t : Bool)
        → bit_xor (if t then bit_xor r a else r) (product n (by_x a) (b / 2))
          ≡ bit_xor r (bit_xor (if t then a else 0) (product n (by_x a) (b / 2)))
    chosen true = sym (xor_right r a _)
    chosen false = ap (bit_xor r) (sym (xor_nothing _))

pub gmul_lem : (a b : ℕ) → a < 2 ^ 10 → gmul a b ≡ product 10 a b
gmul_lem a b h = gmul_loop_lem 10 a b 0 h ∙ xor_nothing (product 10 a b)

product_small : (n a b : ℕ) → a < 2 ^ 10 → product n a b < 2 ^ 10
unfolding product
product_small zero a b h = omega arith
product_small (suc n) a b h =
    xor_small 10 (if b % 2 == 1 then a else 0) (product n (by_x a) (b / 2)) (ground (arith, h))
      (product_small n (by_x a) (b / 2) (by_x_small a))

pub gmul_small : (a b : ℕ) → a < 2 ^ 10 → gmul a b < 2 ^ 10
gmul_small a b h = omega (arith, gmul_lem a b h, product_small 10 a b h)
