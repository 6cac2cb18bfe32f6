-- ===== src/Base/Bits/Step.antt =====
-- One equation for the lowest bit of each bit operation. The native operations are recursions on
-- halved operands with a bound on their depth; any bound from the first operand up gives the same.
use Prim.Native.Nat.{
  ℕ, zero, suc, ◌+◌, ◌*◌, ◌/◌, ◌%◌, ◌≤◌, min, max, digits, bitwise, differ, bit_and, bit_or,
  bit_xor, bit_and-bitwise, bit_or-bitwise, bit_xor-bitwise,
}
use mathlib.Core.Path.{◌≡◌, refl, ap, sym}
use native.Mathlib.Omega.{arith}

module _ (rest : ℕ → ℕ) (op : ℕ → ℕ → ℕ) where
  depth_free :
      (x y : ℕ) (deep : ℕ) (shallow : ℕ)
      → x ≤ shallow
      → x ≤ deep
      → digits rest op deep x y ≡ digits rest op shallow x y
  depth_free zero y (suc _) (suc _) p q = refl
  depth_free zero y (suc _) zero p q = refl
  depth_free zero y zero (suc _) p q = refl
  depth_free zero y zero zero p q = refl
  depth_free (suc x) y zero shallow p q = elim q [ ]
  depth_free (suc x) y (suc deep) zero p q = elim p [ ]
  depth_free (suc x) y (suc deep) (suc shallow) p q =
      let halved = depth_free (suc x / 2) (y / 2) deep shallow (omega arith) (omega arith) in
      ap (λ (t : ℕ). t * 2 + op (suc x % 2) (y % 2)) halved

  lowest :
      (x y : ℕ)
      → bitwise rest op (suc x) y ≡ bitwise rest op (suc x / 2) (y / 2) * 2 + op (suc x % 2) (y % 2)
  lowest x y =
      ap (λ (t : ℕ). t * 2 + op (suc x % 2) (y % 2))
        (depth_free (suc x / 2) (y / 2) x (suc x / 2) (omega arith) (omega arith))

pub bit_and_step : (x y : ℕ) → bit_and x y ≡ bit_and (x / 2) (y / 2) * 2 + min (x % 2) (y % 2)
bit_and_step (suc x) y =
    omega (
      arith,
      bit_and-bitwise (suc x) y,
      bit_and-bitwise (suc x / 2) (y / 2),
      lowest (λ _. 0) min x y,
    )
bit_and_step zero y = omega (arith, bit_and-bitwise 0 y, bit_and-bitwise 0 (y / 2))

pub bit_or_step : (x y : ℕ) → bit_or x y ≡ bit_or (x / 2) (y / 2) * 2 + max (x % 2) (y % 2)
bit_or_step (suc x) y =
    omega
      (arith, bit_or-bitwise (suc x) y, bit_or-bitwise (suc x / 2) (y / 2), lowest (λ t. t) max x y)
bit_or_step zero y = omega (arith, bit_or-bitwise 0 y, bit_or-bitwise 0 (y / 2))

pub bit_xor_step : (x y : ℕ) → bit_xor x y ≡ bit_xor (x / 2) (y / 2) * 2 + differ (x % 2) (y % 2)
bit_xor_step (suc x) y = omega (
  arith,
  bit_xor-bitwise (suc x) y,
  bit_xor-bitwise (suc x / 2) (y / 2),
  lowest (λ t. t) differ x y,
)
bit_xor_step zero y = omega (arith, bit_xor-bitwise 0 y, bit_xor-bitwise 0 (y / 2))

-- Words differ in no bit exactly if they are the same.
differ_self : (a : ℕ) → differ a a ≡ 0
differ_self zero = refl
differ_self (suc a) = differ_self a

differ_zero : (a b : ℕ) → differ a b ≡ 0 → a ≡ b
differ_zero zero b e = sym e
differ_zero (suc a) zero e = e
differ_zero (suc a) (suc b) e = ap suc (differ_zero a b e)

xor_self_fuel : (n x : ℕ) → x ≤ n → bit_xor x x ≡ 0
xor_self_fuel n zero le = refl
xor_self_fuel zero (suc x) le = elim le [ ]
xor_self_fuel (suc n) (suc x) le = omega (
  arith,
  bit_xor_step (suc x) (suc x),
  differ_self (suc x % 2),
  xor_self_fuel n (suc x / 2) (omega arith),
)

pub bit_xor_self : (x : ℕ) → bit_xor x x ≡ 0
bit_xor_self x = xor_self_fuel x x (omega arith)

xor_zero_fuel : (n x y : ℕ) → x ≤ n → bit_xor x y ≡ 0 → x ≡ y
xor_zero_fuel n zero y le e = omega (arith, e, bit_xor-bitwise 0 y)
xor_zero_fuel zero (suc x) y le e = elim le [ ]
xor_zero_fuel (suc n) (suc x) y le e =
    let low : suc x % 2 ≡ y % 2 =
      differ_zero (suc x % 2) (y % 2) (omega (arith, e, bit_xor_step (suc x) y)) in
    let high : suc x / 2 ≡ y / 2 =
      xor_zero_fuel n (suc x / 2) (y / 2) (omega arith)
        (omega (arith, e, bit_xor_step (suc x) y)) in
    omega (arith, low, high)

pub bit_xor_zero : (x y : ℕ) → bit_xor x y ≡ 0 → x ≡ y
bit_xor_zero x y e = xor_zero_fuel x x y (omega arith) e
