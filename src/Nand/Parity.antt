-- ===== src/Nand/Parity.antt =====
-- The parity of a page in src/hw/nand.c: the remainder of its bytes by a generator polynomial over a field of
-- 1024 elements. The coefficients of a polynomial are a list, lowest first.
pub mod Field
pub mod Roots
pub mod Codeword
use be.Base.{
  ℕ, zero, suc, ◌+◌, ◌-◌, ◌*◌, ◌/◌, ◌%◌, ◌^◌, Bool, not, ◌&&◌, ◌||◌, List, [], ◌∷◌, ◌==◌, ltb, leb,
  if◌then◌else◌, bit_or, bit_xor, get_or, replicate, u8, u16,
}
use be.Base.Bits.{has}
use be.Nand.{Medium, page_count, page_data, page_oob}

-- The lowest `n` bits of `v` in reverse, after those of `r`.
unfoldable pub rev_loop : ℕ → ℕ → ℕ → ℕ
rev_loop zero v r = r
rev_loop (suc n) v r = rev_loop n (v / 2) (2 * r + v % 2)

abbrev bitrev : ℕ → ℕ
bitrev b = rev_loop 8 b 0

abbrev xtime : ℕ → ℕ
xtime a = let s = u16 (2 * a) in if has s 0x400 then bit_xor s 0x409 else s

unfoldable gmul_loop : ℕ → ℕ → ℕ → ℕ → ℕ
gmul_loop zero a b r = r
gmul_loop (suc n) a b r = gmul_loop n (xtime a) (b / 2) (if b % 2 == 1 then bit_xor r a else r)

abbrev gmul : ℕ → ℕ → ℕ
gmul a b = gmul_loop 10 a b 0

-- The first list moved up by one place, plus the multiples of the second.
unfoldable shift_add : (ℕ → ℕ) → ℕ → List ℕ → List ℕ → List ℕ
shift_add times below [] ms = []
shift_add times below (a ∷ rest) [] = []
shift_add times below (a ∷ rest) (m ∷ ms) = bit_xor below (times m) ∷ shift_add times a rest ms

-- The product of `x + root` for `n` roots; the places above the degree hold 0.
unfoldable generator_loop : ℕ → ℕ → List ℕ → List ℕ
unfolding shift_add gmul_loop
generator_loop zero root g = g
generator_loop (suc n) root g = generator_loop n (xtime root) (shift_add (λ m. gmul m root) 0 g g)

unfoldable pub generator : List ℕ
unfolding generator_loop
generator = generator_loop 6 1 (1 ∷ replicate 6 0)

abbrev page_byte : Medium → ℕ → ℕ → ℕ
page_byte m page i =
    if ltb i page_data
    then m.image (page * page_data + i)
    else m.oob (page * page_oob + (i - page_data))

abbrev feedback : ℕ → List ℕ → ℕ
feedback byte rem = bit_xor (bitrev byte * 4) (get_or rem 5 0)

-- The bytes from `i` on.
unfoldable remainder_loop : ℕ → ℕ → (ℕ → ℕ) → List ℕ → List ℕ
unfolding shift_add gmul_loop generator rev_loop
remainder_loop zero i bytes rem = rem
remainder_loop (suc n) i bytes rem =
    remainder_loop n (i + 1) bytes
      (shift_add (λ m. gmul (feedback (bytes i) rem) m) 0 rem generator)

-- The bytes of six fields of ten bits.
abbrev packed : (ℕ → ℕ) → List ℕ
packed v =
    u8 (v 5 / 2 ^ 2)
    ∷ u8 (bit_or (v 5 * 2 ^ 6) (v 4 / 2 ^ 4))
    ∷ u8 (bit_or (v 4 * 2 ^ 4) (v 3 / 2 ^ 6))
    ∷ u8 (bit_or (v 3 * 2 ^ 2) (v 2 / 2 ^ 8))
    ∷ u8 (v 2)
    ∷ u8 (v 1 / 2 ^ 2)
    ∷ u8 (bit_or (v 1 * 2 ^ 6) (v 0 / 2 ^ 4))
    ∷ u8 (v 0 * 2 ^ 4)
    ∷ []

-- What it leaves: the result buffer and the status.
pub record Parity : Type 0 where
  pub result : ℕ → ℕ
  pub status : ℕ

abbrev pub nonzero : (ℕ → ℕ) → Bool
nonzero v = not (v 0 == 0 && v 1 == 0 && v 2 == 0 && v 3 == 0 && v 4 == 0 && v 5 == 0)

-- The remainder of a page: its parity, lowest coefficient first.
unfoldable pub page_parity : Medium → ℕ → List ℕ
unfolding remainder_loop
page_parity m page = remainder_loop 520 0 (page_byte m page) (replicate 6 0)

abbrev pub reversed : ℕ → ℕ
reversed word = rev_loop 10 word 0

-- The words that the guest supplies against the remainder.
unfoldable pub syndrome : Medium → ℕ → (ℕ → ℕ) → ℕ → ℕ
unfolding page_parity rev_loop
syndrome m page words i = bit_xor (reversed (words i)) (get_or (page_parity m page) (5 - i) 0)

unfoldable pub physical_ecc : Medium → ℕ → (ℕ → ℕ) → Parity
unfolding syndrome rev_loop
physical_ecc m page words =
    let v = syndrome m page words in
    if not m.has_oob || leb page_count page
    then record { result = λ (k : ℕ). 0; status = 0 }
    else record {
      result = λ (k : ℕ).
          if ltb (k % 4) 2 && ltb k 16 then bitrev (get_or (packed v) (k / 4 * 2 + k % 4) 0) else 0;
      status = if nonzero v then 1 else 0;
    }
