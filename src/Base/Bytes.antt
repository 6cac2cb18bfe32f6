-- ===== src/Base/Bytes.antt =====
-- The bytes of a word, least significant first.
use Prim.Native.Nat.{ℕ, suc, ◌+◌, ◌*◌, ◌/◌, ◌%◌, ◌^◌, ◌<◌}
use mathlib.Core.Path.{◌≡◌, ap, ◌∙◌, sym}
use native.Mathlib.Omega.{arith}
use native.Mathlib.Nat.{
  pow-suc, one-le-pow, div-add-mod, mul_assoc, mod-lt, mod-eq_of_lt, add-mul-mod_self_left,
  div-div-eq-div-mul,
}

byte_pow : (n : ℕ) → 2 ^ (8 * (n + 1)) ≡ 2 ^ (8 * n) * 256
byte_pow n =
    ap (λ (e : ℕ). 2 ^ e) {y = suc (suc (suc (suc (suc (suc (suc (suc (8 * n))))))))} (omega arith)
    ∙ rw (pow-suc 2) (omega arith)

-- The bytes above byte `i`.
pub div-byte : (x i : ℕ) → x / 2 ^ (8 * (i + 1)) ≡ x / 2 ^ (8 * i) / 256
div-byte x i = ap (λ (d : ℕ). x / d) (byte_pow i) ∙ sym (div-div-eq-div-mul x (2 ^ (8 * i)) 256)

digit_mod : (p q r : ℕ) → 0 < p → r < 256 → (256 * q + r) % (256 * p) ≡ 256 * (q % p) + r
digit_mod p q r pos small =
    let t = q % p in
    let parts : 256 * q + r ≡ 256 * t + r + 256 * p * (q / p) =
      omega (arith, div-add-mod q p, mul_assoc 256 p (q / p)) in
    ap (λ (s : ℕ). s % (256 * p)) parts
    ∙ add-mul-mod_self_left (256 * t + r) (256 * p) (q / p)
    ∙ mod-eq_of_lt (omega (arith, mod-lt q pos))

-- The lowest byte of a word of `n + 1` bytes, and the others.
pub mod-byte : (x n : ℕ) → x % 2 ^ (8 * (n + 1)) ≡ x % 256 + x / 256 % 2 ^ (8 * n) * 256
mod-byte x n =
    ap (λ (d : ℕ). x % d) (byte_pow n ∙ omega arith)
    ∙ ap (λ (y : ℕ). y % (256 * 2 ^ (8 * n))) (sym (div-add-mod x 256))
    ∙ digit_mod (2 ^ (8 * n)) (x / 256) (x % 256) (one-le-pow (8 * n) 2 (omega arith)) (omega arith)
    ∙ omega arith
