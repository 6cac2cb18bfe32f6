-- ===== src/Nand/Syndrome.antt =====
-- The check of a page by its parity in src/hw/nand.c.
use native.Mathlib.Decide.{ℕ_discrete}
use be.Base.{
  ℕ, ◌-◌, ◌<◌, ◌≡◌, refl, ap, ◌∙◌, Bool, true, false, not, ◌&&◌, ◌||◌, ◌++◌, ◌==◌, leb, if_elim,
  if◌then◌else◌, length, arith, get_or, bit_xor,
}
use be.Base.Bits.Step.{bit_xor_self, bit_xor_zero}
use be.Nand.{Medium, page_count}
use be.Nand.Parity.{Parity, physical_ecc, page_parity, reversed, syndrome, nonzero}
use be.Nand.Parity.Roots.{evaluate, roots}
use be.Nand.Parity.Codeword.{mirrored, reversed_lem, message, raw_byte, page_vanishes}

-- A difference is 0 exactly if the words are the same.
xor_test : (a b : ℕ) → (bit_xor a b == 0) ≡ (a == b)
xor_test a b = elim (ℕ_discrete a b) [
  | yes same ↦ rw same (ground (arith, bit_xor_self b))
  | no differ ↦ ground (arith, bit_xor_zero a b)
]

module _ (m : Medium) (page : ℕ) (words : ℕ → ℕ) where
  -- Word `i`, whose bits the guest supplies in reverse, is the coefficient of the page's parity.
  abbrev word_agrees : ℕ → Bool
  word_agrees i = mirrored (words i) == get_or (page_parity m page) (5 - i) 0

  -- The supplied words are the parity of the page, its highest coefficient first.
  abbrev pub agrees : Bool
  agrees =
      word_agrees 0
      && word_agrees 1
      && word_agrees 2
      && word_agrees 3
      && word_agrees 4
      && word_agrees 5

  word_test : (i : ℕ) → (syndrome m page words i == 0) ≡ word_agrees i
  unfolding syndrome
  word_test i =
      xor_test (reversed (words i)) (get_or (page_parity m page) (5 - i) 0)
      ∙ ap (λ (w : ℕ). w == get_or (page_parity m page) (5 - i) 0) (reversed_lem (words i))

  status_test :
      ◌≡◌ {A = ℕ} (if nonzero (syndrome m page words) then 1 else 0) (if agrees then 0 else 1)
  status_test =
      rw (word_test 0, word_test 1, word_test 2, word_test 3, word_test 4, word_test 5)
        (turned agrees)
    where
      turned : (b : Bool) → ◌≡◌ {A = ℕ} (if not b then 1 else 0) (if b then 0 else 1)
      turned true = refl
      turned false = refl

-- For a page of a chip with a spare array, the status of the check is 0 if the six words that the guest supplies
-- are the page's parity, and 1 otherwise. The parity has six coefficients, and it completes the page to a
-- Reed-Solomon codeword: the polynomial of the page's 520 bytes above the parity vanishes at each of the first
-- six powers of the generator of the field with 1024 elements.
pub physical_ecc_lem :
    (m : Medium) (page : ℕ) (words : ℕ → ℕ) (k : ℕ)
    → m.has_oob ≡ true
    → page < page_count
    → k < roots
    → ((physical_ecc m page words).status ≡ (if agrees m page words then 0 else 1))
      × (length (page_parity m page) ≡ 6)
      × (evaluate k (page_parity m page ++ message (raw_byte m page) 520) ≡ 0)
unfolding physical_ecc
physical_ecc_lem m page words k there inside small =
    let (six, vanishes) = page_vanishes m page k small in (checked, six, vanishes)
  where
    checked : (physical_ecc m page words).status ≡ (if agrees m page words then 0 else 1)
    checked =
        if_elim (λ (p : Parity). p.status ≡ (if agrees m page words then 0 else 1))
          (not m.has_oob || leb page_count page)
          (λ bad. absurd (ground (arith, bad, there, inside))) (λ _. status_test m page words)
