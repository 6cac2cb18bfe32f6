-- ===== src/Base/Bits/Xor.antt =====
-- Exclusive or as addition of words.
use Prim.Native.Nat.{differ}
use native.Mathlib.Nat.{pow-suc}
use mathlib.Core.Path.{ap₂}
use be.Base.{
  ℕ, zero, suc, ◌+◌, ◌*◌, ◌/◌, ◌%◌, ◌^◌, ◌≤◌, ◌<◌, ◌≡◌, refl, sym, ap, ◌∙◌, bit_xor, not, same_flag,
  arith,
}
use be.Base.Bits.{test_bit, mod_pow_suc}
use be.Base.Bits.Step.{bit_xor_step, bit_xor_self}

differ_bits : (a b : ℕ) → a < 2 → b < 2 → differ a b ≡ (a + b) % 2
differ_bits zero zero p q = refl
differ_bits zero (suc zero) p q = refl
differ_bits (suc zero) zero p q = refl
differ_bits (suc zero) (suc zero) p q = refl
differ_bits (suc (suc a)) b p q = absurd (omega arith)
differ_bits a (suc (suc b)) p q = absurd (omega arith)

-- The two parts of a sum.
pub xor_parts :
    (x y : ℕ)
    → (bit_xor x y / 2 ≡ bit_xor (x / 2) (y / 2)) × (bit_xor x y % 2 ≡ (x % 2 + y % 2) % 2)
xor_parts x y =
    let low = differ_bits (x % 2) (y % 2) (omega arith) (omega arith) in
    (omega (arith, bit_xor_step x y, low), omega (arith, bit_xor_step x y, low))

-- Words are the same if they agree on the halves.
pub halves : (x y : ℕ) → x / 2 ≡ y / 2 → x % 2 ≡ y % 2 → x ≡ y
halves x y p q = omega arith

xor_nil : (n x : ℕ) → x ≤ n → bit_xor x 0 ≡ x
xor_nil n zero le = refl
xor_nil zero (suc x) le = elim le [ ]
xor_nil (suc n) (suc x) le = omega (arith, xor_parts (suc x) 0, xor_nil n (suc x / 2) (omega arith))

pub xor_zero : (x : ℕ) → bit_xor x 0 ≡ x
xor_zero x = xor_nil x x (omega arith)

nothing_xor : (n x : ℕ) → x ≤ n → bit_xor 0 x ≡ x
nothing_xor n zero le = refl
nothing_xor zero (suc x) le = elim le [ ]
nothing_xor (suc n) (suc x) le =
    omega (arith, xor_parts 0 (suc x), nothing_xor n (suc x / 2) (omega arith))

pub xor_nothing : (x : ℕ) → bit_xor 0 x ≡ x
xor_nothing x = nothing_xor x x (omega arith)

swap_fuel :
    (n a b c d : ℕ)
    → a + b + c + d ≤ n
    → bit_xor (bit_xor a b) (bit_xor c d) ≡ bit_xor (bit_xor a c) (bit_xor b d)
swap_fuel zero a b c d le = rw (nil_a, nil_b, nil_c, nil_d) refl
  where
    nil_a : a ≡ 0
    nil_a = omega arith

    nil_b : b ≡ 0
    nil_b = omega arith

    nil_c : c ≡ 0
    nil_c = omega arith

    nil_d : d ≡ 0
    nil_d = omega arith
swap_fuel (suc n) a b c d le =
    halves _ _
      (halved a b c d
        ∙ swap_fuel n (a / 2) (b / 2) (c / 2) (d / 2) (omega arith)
        ∙ sym (halved a c b d))
      (omega (
        arith,
        xor_parts (bit_xor a b) (bit_xor c d),
        xor_parts (bit_xor a c) (bit_xor b d),
        xor_parts a b,
        xor_parts c d,
        xor_parts a c,
        xor_parts b d,
      ))
  where
    halved :
        (a b c d : ℕ)
        → bit_xor (bit_xor a b) (bit_xor c d) / 2
          ≡ bit_xor (bit_xor (a / 2) (b / 2)) (bit_xor (c / 2) (d / 2))
    halved a b c d =
        (xor_parts (bit_xor a b) (bit_xor c d)).0 ∙ ap₂ bit_xor (xor_parts a b).0 (xor_parts c d).0

-- The two words in the middle change places.
pub xor_swap :
    (a b c d : ℕ) → bit_xor (bit_xor a b) (bit_xor c d) ≡ bit_xor (bit_xor a c) (bit_xor b d)
xor_swap a b c d = swap_fuel (a + b + c + d) a b c d (omega arith)

-- A word that is added twice goes away.
pub xor_twice : (a b c : ℕ) → bit_xor (bit_xor a c) (bit_xor b c) ≡ bit_xor a b
xor_twice a b c =
    xor_swap a c b c ∙ ap (bit_xor (bit_xor a b)) (bit_xor_self c) ∙ xor_zero (bit_xor a b)

pub xor_left : (a b c : ℕ) → bit_xor (bit_xor a c) b ≡ bit_xor (bit_xor a b) c
xor_left a b c =
    ap (bit_xor (bit_xor a c)) (sym (xor_zero b))
    ∙ xor_swap a c b 0
    ∙ ap (bit_xor (bit_xor a b)) (xor_zero c)

pub xor_right : (a b c : ℕ) → bit_xor a (bit_xor b c) ≡ bit_xor (bit_xor a b) c
xor_right a b c =
    ap (λ (t : ℕ). bit_xor t (bit_xor b c)) (sym (xor_zero a))
    ∙ xor_swap a 0 b c
    ∙ ap (bit_xor (bit_xor a b)) (xor_nothing c)

pub xor_comm : (a b : ℕ) → bit_xor a b ≡ bit_xor b a
xor_comm a b =
    ap (λ (t : ℕ). bit_xor t b) (sym (xor_nothing a))
    ∙ xor_left 0 b a
    ∙ ap (λ (t : ℕ). bit_xor t a) (xor_nothing b)

pub xor_cancel : (a b c : ℕ) → bit_xor a c ≡ bit_xor b c → a ≡ b
xor_cancel a b c e =
    sym (xor_zero a)
    ∙ sym (xor_twice a 0 c)
    ∙ ap (λ (t : ℕ). bit_xor t (bit_xor 0 c)) e
    ∙ xor_twice b 0 c
    ∙ xor_zero b

pub xor_double : (x y : ℕ) → bit_xor (2 * x) (2 * y) ≡ 2 * bit_xor x y
xor_double x y = omega (arith, xor_parts (2 * x) (2 * y), ap₂ bit_xor half_x half_y)
  where
    half_x : 2 * x / 2 ≡ x
    half_x = omega arith

    half_y : 2 * y / 2 ≡ y
    half_y = omega arith

pub xor_mod : (w x y : ℕ) → bit_xor x y % 2 ^ w ≡ bit_xor (x % 2 ^ w) (y % 2 ^ w)
xor_mod zero x y = omega (arith, ap₂ bit_xor nil_x nil_y)
  where
    nil_x : x % 2 ^ 0 ≡ 0
    nil_x = omega arith

    nil_y : y % 2 ^ 0 ≡ 0
    nil_y = omega arith
xor_mod (suc w) x y =
    halves _ _
      (omega (
        arith,
        ap₂ bit_xor half_x half_y,
        parts,
        both,
        ap (λ (t : ℕ). t % 2 ^ w) whole.0,
        xor_mod w (x / 2) (y / 2),
      ))
      (omega (arith, parts, both, whole, mod_pow_suc w x, mod_pow_suc w y))
  where
    whole : (bit_xor x y / 2 ≡ bit_xor (x / 2) (y / 2)) × (bit_xor x y % 2 ≡ (x % 2 + y % 2) % 2)
    whole = xor_parts x y

    parts : bit_xor x y % 2 ^ suc w ≡ 2 * (bit_xor x y / 2 % 2 ^ w) + bit_xor x y % 2
    parts = mod_pow_suc w (bit_xor x y)

    both :
        (bit_xor (x % 2 ^ suc w) (y % 2 ^ suc w) / 2
          ≡ bit_xor (x % 2 ^ suc w / 2) (y % 2 ^ suc w / 2))
        × (bit_xor (x % 2 ^ suc w) (y % 2 ^ suc w) % 2
            ≡ (x % 2 ^ suc w % 2 + y % 2 ^ suc w % 2) % 2)
    both = xor_parts (x % 2 ^ suc w) (y % 2 ^ suc w)

    half_x : x % 2 ^ suc w / 2 ≡ x / 2 % 2 ^ w
    half_x = omega (arith, mod_pow_suc w x)

    half_y : y % 2 ^ suc w / 2 ≡ y / 2 % 2 ^ w
    half_y = omega (arith, mod_pow_suc w y)

pub xor_small : (w x y : ℕ) → x < 2 ^ w → y < 2 ^ w → bit_xor x y < 2 ^ w
xor_small zero x y p q = omega (arith, p, q, ap₂ bit_xor nil_x nil_y)
  where
    nil_x : x ≡ 0
    nil_x = omega arith

    nil_y : y ≡ 0
    nil_y = omega arith
xor_small (suc w) x y p q = omega (
  arith,
  xor_parts x y,
  pow-suc 2 w,
  xor_small w (x / 2) (y / 2) (omega (arith, pow-suc 2 w)) (omega (arith, pow-suc 2 w)),
)

pub test_bit-bit_xor :
    (k x y : ℕ) → test_bit (bit_xor x y) k ≡ not (same_flag (test_bit x k) (test_bit y k))
test_bit-bit_xor zero x y = ground (arith, xor_parts x y)
test_bit-bit_xor (suc k) x y =
    ap (λ (t : ℕ). test_bit t k) (xor_parts x y).0 ∙ test_bit-bit_xor k (x / 2) (y / 2)
