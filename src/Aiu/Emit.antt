-- ===== src/Aiu/Emit.antt =====
-- The copy of src/hw/aiu.c from guest RAM to the host: the chunks of `aiu_emit` follow one another,
-- and none crosses a page.
use mathlib.Core.Path.{transport}
use be.Base.{
  ℕ, zero, suc, ◌+◌, ◌-◌, ◌*◌, ◌%◌, ◌^◌, ◌≤◌, ◌<◌, ◌≡◌, ap, ◌⊎◌, inl, inr, Bool, true, false, List,
  [], ◌∷◌, ◌==◌, u32, arith,
}
use be.Aiu.{piece, emit_loop, emit}

-- Chunks of at most 512 frames that cover `frames` frames from `pa` on without a gap, each within
-- one page.
pub data Covers (frame_bytes : ℕ) : ℕ → ℕ → List (ℕ × ℕ) → Type 0 where
  done : {pa : ℕ} → Covers frame_bytes pa 0 []
  chunk :
      {pa frames n : ℕ} {rest : List (ℕ × ℕ)}
      → 1 ≤ n
      → n ≤ 512
      → n ≤ frames
      → pa % 0x1000 + n * frame_bytes ≤ 0x1000
      → Covers frame_bytes (pa + n * frame_bytes) (frames - n) rest
      → Covers frame_bytes pa frames ((pa, n) ∷ rest)

-- A frame has one or two samples of 2 bytes.
abbrev Whole : ℕ → ℕ → Type 0
Whole frame_bytes pa = ((frame_bytes ≡ 2) × (pa % 2 ≡ 0)) ⊎ ((frame_bytes ≡ 4) × (pa % 4 ≡ 0))

piece_lem :
    (fb pa frames : ℕ)
    → Whole fb pa
    → 0 < frames
    → let n = piece fb pa frames in
      (1 ≤ n) × (n ≤ 512) × (n ≤ frames) × (pa % 0x1000 + n * fb ≤ 0x1000) × Whole fb (pa + n * fb)
piece_lem fb pa frames (inl (e, a)) pos = rw e (ground arith)
piece_lem fb pa frames (inr (e, a)) pos = rw e (ground arith)

next_in_range :
    (fb pa frames n : ℕ)
    → Whole fb pa
    → n ≤ frames
    → pa + frames * fb < 2 ^ 32
    → (u32 (pa + n * fb) ≡ pa + n * fb) × (pa + n * fb + (frames - n) * fb < 2 ^ 32)
next_in_range fb pa frames n (inl (e, a)) le h =
    let h2 = transport (ap (λ (b : ℕ). pa + frames * b < 2 ^ 32) e) h in rw e (omega arith)
next_in_range fb pa frames n (inr (e, a)) le h =
    let h4 = transport (ap (λ (b : ℕ). pa + frames * b < 2 ^ 32) e) h in rw e (omega arith)

emit_loop-Covers :
    (k : ℕ) (ram : ℕ → Bool) (fb pa frames : ℕ)
    → Whole fb pa
    → ((a : ℕ) → ram a ≡ true)
    → pa + frames * fb < 2 ^ 32
    → frames ≤ k
    → Covers fb pa frames (emit_loop k ram fb pa frames)
unfolding emit_loop
emit_loop-Covers k ram fb pa zero w all h le = nothing k
  where
    nothing : (j : ℕ) → Covers fb pa 0 (emit_loop j ram fb pa 0)
    nothing zero = done
    nothing (suc j) = done
emit_loop-Covers zero ram fb pa (suc m) w all h le = elim le [ ]
emit_loop-Covers (suc k) ram fb pa (suc m) w all h le =
    let (lo, small, in_all, page, w') = piece_lem fb pa (suc m) w (omega arith) in
    let n = piece fb pa (suc m) in
    let (same, h') = next_in_range fb pa (suc m) n w in_all h in
    rw (positive (suc m) (omega arith), positive n lo, all pa, same)
      (chunk lo small in_all page
        (emit_loop-Covers k ram fb (pa + n * fb) (suc m - n) w' all h' (omega arith)))
  where
    positive : (n : ℕ) → 1 ≤ n → (n == 0) ≡ false
    positive n h = ground arith

-- With the audio on and storage at every address, `aiu_emit` hands over all of a run of whole,
-- aligned frames below 2 ^ 32, in order, without a gap, in chunks of at most 512 that stay within
-- a page.
pub emit-Covers :
    (ram : ℕ → Bool) (frame_bytes pa frames : ℕ)
    → Whole frame_bytes pa
    → ((a : ℕ) → ram a ≡ true)
    → pa + frames * frame_bytes < 2 ^ 32
    → Covers frame_bytes pa frames (emit true ram frame_bytes pa frames)
unfolding emit
emit-Covers ram frame_bytes pa frames w all h =
    emit_loop-Covers frames ram frame_bytes pa frames w all h (omega arith)
