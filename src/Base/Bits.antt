-- ===== src/Base/Bits.antt =====
-- Single bits of a word. The sources test, set and clear bits by masks; here are the laws by which
-- a masked word is read bit by bit.
pub mod Step
pub mod Xor
use Step.{bit_and_step, bit_or_step}
use Prim.Native.Nat.{
  ℕ, zero, suc, ◌+◌, ◌-◌, ◌*◌, ◌/◌, ◌%◌, ◌^◌, ◌≤◌, ◌<◌, min, max, bit_and, bit_or, bit_xor,
}
use mathlib.Core.Path.{◌≡◌, refl, ap, ◌∙◌, sym}
use mathlib.Core.Bool.{Bool, true, false, not, ◌&&◌, ◌||◌, xor}
use native.Mathlib.Omega.{arith}
use native.Mathlib.Decide.{ℕ_discrete}
use native.Mathlib.Nat.{
  pow-suc, one-le-pow, div-add-mod, mul_assoc, mul_comm, mod-lt, mod-eq_of_lt,
  add-mul-mod_self_left,
}
use be.Base.Tests.{◌==◌, if◌then◌else◌}

-- Bit `k` of `x`, counted from the lowest.
abbrev pub test_bit : ℕ → ℕ → Bool
test_bit x zero = x % 2 == 1
test_bit x (suc k) = test_bit (x / 2) k

-- `(x & m) != 0`.
abbrev pub has : ℕ → ℕ → Bool
has x m = not (bit_and x m == 0)

-- `~m` in an unsigned type of `w` bits.
abbrev bit_not : ℕ → ℕ → ℕ
bit_not w m = 2 ^ w - 1 - m % 2 ^ w

-- `x & ~m` for an `x` of `w` bits.
abbrev pub and_not : ℕ → ℕ → ℕ → ℕ
and_not w x m = bit_and x (bit_not w m)

pub test_bit-bit_and : (k a b : ℕ) → test_bit (bit_and a b) k ≡ (test_bit a k && test_bit b k)
test_bit-bit_and zero a b = ground (arith, bit_and_step a b)
test_bit-bit_and (suc k) a b =
    let e : bit_and a b / 2 ≡ bit_and (a / 2) (b / 2) = omega (arith, bit_and_step a b) in
    ap (λ t. test_bit t k) e ∙ test_bit-bit_and k (a / 2) (b / 2)

pub test_bit-bit_or : (k a b : ℕ) → test_bit (bit_or a b) k ≡ (test_bit a k || test_bit b k)
test_bit-bit_or zero a b = ground (arith, bit_or_step a b)
test_bit-bit_or (suc k) a b =
    let e : bit_or a b / 2 ≡ bit_or (a / 2) (b / 2) = omega (arith, bit_or_step a b) in
    ap (λ t. test_bit t k) e ∙ test_bit-bit_or k (a / 2) (b / 2)

pub test_bit-zero : (k : ℕ) → test_bit 0 k ≡ false
test_bit-zero zero = refl
test_bit-zero (suc k) = test_bit-zero k

-- Doubling under a remainder.
double_mod : (p q r : ℕ) → 0 < p → r < 2 → (2 * q + r) % (2 * p) ≡ 2 * (q % p) + r
double_mod p q r pos small =
    let t = q % p in
    let parts : 2 * q + r ≡ 2 * t + r + 2 * p * (q / p) =
      omega (arith, div-add-mod q p, mul_assoc 2 p (q / p)) in
    ap (λ (s : ℕ). s % (2 * p)) parts
    ∙ add-mul-mod_self_left (2 * t + r) (2 * p) (q / p)
    ∙ mod-eq_of_lt (omega (arith, mod-lt q pos))

pub mod_pow_suc : (w m : ℕ) → m % 2 ^ suc w ≡ 2 * (m / 2 % 2 ^ w) + m % 2
mod_pow_suc w m =
    ap (λ (s : ℕ). m % s) (pow-suc 2 w ∙ mul_comm (2 ^ w) 2)
    ∙ ap (λ (s : ℕ). s % (2 * 2 ^ w)) (sym (div-add-mod m 2))
    ∙ double_mod (2 ^ w) (m / 2) (m % 2) (one-le-pow w 2 (omega arith)) (omega arith)

bit_not_step : (w m : ℕ) → bit_not (suc w) m ≡ 2 * bit_not w (m / 2) + (1 - m % 2)
bit_not_step w m =
    omega (arith, pow-suc 2 w, mod_pow_suc w m, mod-lt (m / 2) (one-le-pow w 2 (omega arith)))

test_bit-bit_not : (w k m : ℕ) → k < w → test_bit (bit_not w m) k ≡ not (test_bit m k)
test_bit-bit_not zero k m h = absurd (omega arith)
test_bit-bit_not (suc w) zero m h = ground (arith, bit_not_step w m)
test_bit-bit_not (suc w) (suc k) m h =
    let e : bit_not (suc w) m / 2 ≡ bit_not w (m / 2) = omega (arith, bit_not_step w m) in
    ap (λ t. test_bit t k) e ∙ test_bit-bit_not w k (m / 2) (omega arith)

pub test_bit-and_not :
    (w k x m : ℕ) → k < w → test_bit (and_not w x m) k ≡ (test_bit x k && not (test_bit m k))
test_bit-and_not w k x m h =
    test_bit-bit_and k x (bit_not w m) ∙ ap (λ b. test_bit x k && b) (test_bit-bit_not w k m h)

bit_and-zero_fuel : (n x : ℕ) → x ≤ n → bit_and x 0 ≡ 0
bit_and-zero_fuel n zero h = refl
bit_and-zero_fuel zero (suc x) h = elim h [ ]
bit_and-zero_fuel (suc n) (suc x) h =
    omega (arith, bit_and_step (suc x) 0, bit_and-zero_fuel n (suc x / 2) (omega arith))

bit_and-zero : (x : ℕ) → bit_and x 0 ≡ 0
bit_and-zero x = bit_and-zero_fuel x x (omega arith)

-- A mask of one bit reads that bit.
bit_and-two_pow : (k x : ℕ) → bit_and x (2 ^ k) ≡ (if test_bit x k then 2 ^ k else 0)
bit_and-two_pow zero x = ground (arith, bit_and_step x 1, bit_and-zero (x / 2))
bit_and-two_pow (suc k) x =
    ground (arith, pow-suc 2 k, bit_and_step x (2 ^ suc k), bit_and-two_pow k (x / 2))

pub has-two_pow : (k x : ℕ) → has x (2 ^ k) ≡ test_bit x k
has-two_pow k x = ground (arith, one-le-pow k 2, bit_and-two_pow k x)

-- A word with the same bits is the same word.
bit_ext :
    (w x y : ℕ) → x < 2 ^ w → y < 2 ^ w → ((k : ℕ) → k < w → test_bit x k ≡ test_bit y k) → x ≡ y
bit_ext zero x y p q h = omega arith
bit_ext (suc w) x y p q h =
    let low : x % 2 ≡ y % 2 = ground (arith, h 0 (omega arith)) in
    let high : x / 2 ≡ y / 2 =
      bit_ext w (x / 2) (y / 2) (omega (arith, pow-suc 2 w)) (omega (arith, pow-suc 2 w))
        (λ k l. h (suc k) (omega arith)) in
    omega arith

-- A test of every number below a bound, by evaluation.
unfoldable pub holds_below : (ℕ → Bool) → ℕ → Bool
holds_below test zero = true
holds_below test (suc n) = holds_below test n && test n

pub holds_below_lem :
    (test : ℕ → Bool) (n k : ℕ) → k < n → holds_below test n ≡ true → test k ≡ true
unfolding holds_below
holds_below_lem test zero k l h = elim l [ ]
holds_below_lem test (suc n) k l h = elim (ℕ_discrete k n) [
  | yes e ↦ rw e (ground arith)
  | no ne ↦ holds_below_lem test n k (omega arith) (ground arith)
]

-- The low bits of a word survive the cast to a narrower type.
pub test_bit-mod : (w k x : ℕ) → k < w → test_bit (x % 2 ^ w) k ≡ test_bit x k
test_bit-mod zero k x h = elim h [ ]
test_bit-mod (suc w) zero x h = ground (arith, mod_pow_suc w x)
test_bit-mod (suc w) (suc k) x h =
    let e : x % 2 ^ suc w / 2 ≡ x / 2 % 2 ^ w = omega (arith, mod_pow_suc w x) in
    ap (λ t. test_bit t k) e ∙ test_bit-mod w k (x / 2) (omega arith)
