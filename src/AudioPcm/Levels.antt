-- ===== src/AudioPcm/Levels.antt =====
-- The levels of the resampler's output in src/audio_pcm.c: each frame lies between its two neighbours.
use native.Mathlib.Nat.{mul-add, mul-le-mul_right, mul-le-mul_left}
use be.Base.{
  ℕ, zero, suc, ◌+◌, ◌-◌, ◌*◌, ◌/◌, ◌%◌, ◌≤◌, ◌<◌, ◌≡◌, refl, sym, ap, ◌∙◌, ltb, if_elim, arith,
}
use be.Base.Int.{ℤ, pos, negsuc, neg, minus, add, quot, i16}
use be.AudioPcm.{mix, pcm_rate}

-- A sample as a number from 0 to 65535.
abbrev pub level : ℤ → ℕ
level (pos a) = 32_768 + a
level (negsuc a) = 32_767 - a

-- A sample of 16 bits.
abbrev InRange : ℤ → Type 0
InRange (pos a) = a < 32_768
InRange (negsuc a) = a < 32_768

level-neg : (x : ℕ) → x ≤ 32_768 → level (neg x) ≡ 32_768 - x
level-neg zero h = refl
level-neg (suc x) h = omega arith

quot-neg : (x : ℕ) → quot (neg x) pcm_rate ≡ neg (x / pcm_rate)
quot-neg zero = refl
quot-neg (suc x) = refl

add-neg-neg : (x y : ℕ) → add (neg x) (neg y) ≡ neg (x + y)
add-neg-neg zero zero = refl
add-neg-neg zero (suc y) = ground arith
add-neg-neg (suc x) zero = ground (arith, ap neg {x = suc x - 0} {y = suc x + 0} (omega arith))
add-neg-neg (suc x) (suc y) = ap neg {x = suc (suc (x + y))} {y = suc x + suc y} (omega arith)

add-pos-neg : (x y : ℕ) → add (pos x) (neg y) ≡ minus x y
add-pos-neg x zero = ground (arith, ap pos {x = x + 0} {y = x - 0} (omega arith))
add-pos-neg x (suc y) = refl

add-neg-pos : (x y : ℕ) → add (neg x) (pos y) ≡ minus y x
add-neg-pos zero y = ground (arith, ap pos {x = 0 + y} {y = y - 0} (omega arith))
add-neg-pos (suc x) y = refl

i16-neg : (x : ℕ) → x ≤ 32_768 → i16 (neg x) ≡ neg x
i16-neg zero h = refl
i16-neg (suc x) h =
    ground (arith, ap negsuc {x = 65_535 - (65_535 - x % 65_536)} {y = x} (omega arith))

i16-pos : (x : ℕ) → x < 32_768 → i16 (pos x) ≡ pos x
i16-pos x h = ground (arith, ap pos {x = x % 65_536} {y = x} (omega arith))

-- A weighted mean of two numbers is between them.
mean :
    (lo hi a b f : ℕ)
    → f ≤ pcm_rate
    → lo ≤ a
    → lo ≤ b
    → a ≤ hi
    → b ≤ hi
    → (lo ≤ (a * (pcm_rate - f) + b * f) / pcm_rate)
      × ((a * (pcm_rate - f) + b * f) / pcm_rate ≤ hi)
mean lo hi a b f h la lb ah bh =
    (omega (arith, whole lo, la', lb'), omega (arith, whole hi, ah', bh'))
  where
    whole : (m : ℕ) → m * (pcm_rate - f) + m * f ≡ m * pcm_rate
    whole m = sym (mul-add m (pcm_rate - f) f) ∙ ap (λ (x : ℕ). m * x) (omega arith)

    la' : lo * (pcm_rate - f) ≤ a * (pcm_rate - f)
    la' = mul-le-mul_right (pcm_rate - f) la

    lb' : lo * f ≤ b * f
    lb' = mul-le-mul_right f lb

    ah' : a * (pcm_rate - f) ≤ hi * (pcm_rate - f)
    ah' = mul-le-mul_right (pcm_rate - f) ah

    bh' : b * f ≤ hi * f
    bh' = mul-le-mul_right f bh

-- A part of a number, of at most the whole.
part : (a f : ℕ) → f ≤ pcm_rate → a * f ≤ a * pcm_rate
part a f h = mul-le-mul_left a h

-- Where one sample is positive and the other negative.
level-minus :
    (a b x y : ℕ)
    → a < 32_768
    → b ≤ 32_768
    → x ≤ a * pcm_rate
    → y ≤ b * pcm_rate
    → (32_768 - b ≤ level (i16 (quot (minus x y) pcm_rate)))
      × (level (i16 (quot (minus x y) pcm_rate)) ≤ 32_768 + a)
level-minus a b x y ha hb hx hy =
    if_elim
      (λ z.
        (32_768 - b ≤ level (i16 (quot z pcm_rate))) × (level (i16 (quot z pcm_rate)) ≤ 32_768 + a))
      (ltb x y)
      (λ less.
        let e =
          ap (λ z. level (i16 z)) (quot-neg (y - x))
          ∙ ap level (i16-neg ((y - x) / pcm_rate) (omega arith))
          ∙ level-neg ((y - x) / pcm_rate) (omega arith) in
        (omega (arith, e), omega (arith, e)))
      (λ more.
        let e = ap level (i16-pos ((x - y) / pcm_rate) (omega arith)) in
        (omega (arith, e), omega (arith, e)))

-- A frame between two input frames lies, on each channel, between their samples, for any place from the
-- first to the second: bounds on both samples, of 16 bits, are bounds on what comes out.
pub mix_between :
    (lo hi : ℕ) (p c : ℤ) (f : ℕ)
    → InRange p
    → InRange c
    → f ≤ pcm_rate
    → lo ≤ level p
    → lo ≤ level c
    → level p ≤ hi
    → level c ≤ hi
    → (lo ≤ level (mix p c f)) × (level (mix p c f) ≤ hi)
unfolding mix
mix_between lo hi (pos a) (pos b) f ha hb h la lb ah bh =
    let (low, high) =
      mean (lo - 32_768) (hi - 32_768) a b f h (omega arith) (omega arith) (omega arith)
        (omega arith) in
    let (_, fits) = mean 0 32_767 a b f h (omega arith) (omega arith) (omega arith) (omega arith) in
    let e = ap level (i16-pos ((a * (pcm_rate - f) + b * f) / pcm_rate) (omega (arith, fits))) in
    (omega (arith, e, low), omega (arith, e, high))
mix_between lo hi (pos a) (negsuc b) f ha hb h la lb ah bh =
    let (low, high) =
      level-minus a (suc b) (a * (pcm_rate - f)) (suc b * f) ha (omega arith)
        (part a (pcm_rate - f) (omega arith)) (part (suc b) f h) in
    let e =
      ap (λ z. level (i16 (quot z pcm_rate))) (add-pos-neg (a * (pcm_rate - f)) (suc b * f)) in
    (omega (arith, e, low), omega (arith, e, high))
mix_between lo hi (negsuc a) (pos b) f ha hb h la lb ah bh =
    let (low, high) =
      level-minus b (suc a) (b * f) (suc a * (pcm_rate - f)) hb (omega arith) (part b f h)
        (part (suc a) (pcm_rate - f) (omega arith)) in
    let e =
      ap (λ z. level (i16 (quot z pcm_rate))) (add-neg-pos (suc a * (pcm_rate - f)) (b * f)) in
    (omega (arith, e, low), omega (arith, e, high))
mix_between lo hi (negsuc a) (negsuc b) f ha hb h la lb ah bh =
    let x = suc a * (pcm_rate - f) in
    let y = suc b * f in
    let (low, high) =
      mean (32_768 - hi) (32_768 - lo) (suc a) (suc b) f h (omega arith) (omega arith) (omega arith)
        (omega arith) in
    let (_, fits) =
      mean 0 32_768 (suc a) (suc b) f h (omega arith) (omega arith) (omega arith) (omega arith) in
    let e =
      ap (λ z. level (i16 (quot z pcm_rate))) (add-neg-neg x y)
      ∙ ap (λ z. level (i16 z)) (quot-neg (x + y))
      ∙ ap level (i16-neg ((x + y) / pcm_rate) (omega (arith, fits)))
      ∙ level-neg ((x + y) / pcm_rate) (omega (arith, fits)) in
    (omega (arith, e, low, fits), omega (arith, e, high, low, fits))
