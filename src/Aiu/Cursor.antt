-- ===== src/Aiu/Cursor.antt =====
-- The DMA cursor of src/hw/aiu.c: every tick brings it to the frame that the clock has reached.
use be.Base.{
  ℕ, zero, suc, ◌+◌, ◌-◌, ◌^◌, ◌≤◌, ◌<◌, ◌≡◌, ap, ◌∙◌, inl, inr, Bool, true, false, not, ◌||◌, ◌==◌,
  Bool-cases, ltb, if◌then◌else◌, if_elim, u64, arith,
}
use be.Aiu.{
  Aiu, frames_left, play, drained, tick_loop, play_due, resync, due_by, wait_for_batch, tick,
}

frames-play :
    (s : Aiu) (audio_on : Bool) (ram : ℕ → Bool) (n : ℕ)
    → s.frames_done < 2 ^ 64
    → (play s audio_on ram n).frames_done ≡ u64 (s.frames_done + n)
unfolding play
frames-play s audio_on ram n h = elim (Bool-cases (n == 0)) [
  | inl e ↦ rw e (ground arith)
  | inr e ↦ rw e
]

frames-drained : (s : Aiu) (regs : ℕ → ℕ) → (drained s regs).frames_done ≡ s.frames_done
unfolding drained
frames-drained s regs = ground arith

add_rest : (a n due : ℕ) → n ≤ due → u64 (u64 (a + n) + (due - n)) ≡ u64 (a + due)
add_rest a n due h = omega arith

bounded : {f : ℕ} (a : ℕ) → f ≡ u64 a → f < 2 ^ 64
bounded a e = omega arith

smaller : (due left : ℕ) → (if ltb due left then due else left) ≤ due
smaller due left = ground arith

progress :
    (due left k : ℕ)
    → due ≤ suc k
    → (due == 0) ≡ false
    → (left == 0) ≡ false
    → due - (if ltb due left then due else left) ≤ k
progress due left k le some_due some_left = ground arith

all_due :
    (due left k : ℕ)
    → ((if ltb due left then due else left) == left) ≡ false
    → due - (if ltb due left then due else left) ≤ k
all_due due left k part = ground arith

-- The loop plays all the frames that are due, on fuel that is at least their number.
frames-tick_loop :
    (k : ℕ) (audio_on : Bool) (ram : ℕ → Bool) (regs : ℕ → ℕ) (s : Aiu) (due : ℕ)
    → s.frames_done < 2 ^ 64
    → due ≤ k
    → (tick_loop k audio_on ram regs s due).0.frames_done ≡ u64 (s.frames_done + due)
unfolding tick_loop
frames-tick_loop zero audio_on ram regs s due h le = omega arith
frames-tick_loop (suc k) audio_on ram regs s due h le =
    let P : Aiu × Bool → Type 0 = λ p. p.0.frames_done ≡ u64 (s.frames_done + due) in
    let left = frames_left s in
    let n : ℕ = if ltb due left then due else left in
    let t = play s audio_on ram n in
    let e = drained t regs in
    let ft = frames-play s audio_on ram n h in
    let fe = frames-drained t regs ∙ ft in
    let n_le : n ≤ due = smaller due left in
    if_elim P (due == 0) (λ z. ground arith)
      (λ some_due.
        if_elim P (n == left)
          (λ full.
            if_elim P (left == 0)
              (λ _. ap (λ (f : ℕ). u64 (f + (due - n))) fe ∙ add_rest s.frames_done n due n_le)
              (λ some_left.
                frames-tick_loop k audio_on ram regs e (due - n) (bounded _ fe)
                  (progress due left k le some_due some_left)
                ∙ ap (λ (f : ℕ). u64 (f + (due - n))) fe
                ∙ add_rest s.frames_done n due n_le))
          (λ part.
            frames-tick_loop k audio_on ram regs t (due - n) (bounded _ ft)
              (all_due due left k part)
            ∙ ap (λ (f : ℕ). u64 (f + (due - n))) ft
            ∙ add_rest s.frames_done n due n_le))

frames-play_due :
    (audio_on : Bool) (ram : ℕ → Bool) (regs : ℕ → ℕ) (s : Aiu) (due : ℕ)
    → s.frames_done < 2 ^ 64
    → wait_for_batch s due ≡ false
    → (play_due audio_on ram regs s due).frames_done ≡ u64 (s.frames_done + due)
unfolding play_due
frames-play_due audio_on ram regs s due h batch =
    if_elim (λ (t : Aiu). t.frames_done ≡ u64 (s.frames_done + due))
      (due == 0 || wait_for_batch s due) (λ z. rw (none_due (due == 0) z batch) (omega arith))
      (λ _. frames-tick_loop due audio_on ram regs s due h (omega arith))
  where
    none_due :
        (b : Bool)
        → (due == 0 || wait_for_batch s due) ≡ true
        → wait_for_batch s due ≡ false
        → due ≡ 0
    none_due b z w = ground arith

-- A tick of a running DMA with a rate, that is not behind the frames played and not put off to a
-- larger batch, brings the count of played frames to the count that the clock has reached, however
-- many buffers drain on the way.
pub tick_frames :
    (s : Aiu) (audio_on : Bool) (ram : ℕ → Bool) (regs : ℕ → ℕ) (now : ℕ)
    → s.running ≡ true
    → (s.rate_hz == 0) ≡ false
    → s.frames_done ≤ due_by (resync s now) now
    → wait_for_batch (resync s now) (due_by (resync s now) now - s.frames_done) ≡ false
    → (tick s audio_on ram regs now).frames_done ≡ due_by (resync s now) now
unfolding tick
tick_frames s audio_on ram regs now on rate le batch =
    let t = resync s now in
    let d = due_by t now in
    if_elim (λ (z : Aiu). z.frames_done ≡ d) (not s.running || s.rate_hz == 0) (λ h. ground arith)
      (λ _.
        frames-play_due audio_on ram regs t (d - s.frames_done) (omega arith) batch
        ∙ all_of d s.frames_done (omega arith) le)
  where
    all_of : (d f : ℕ) → d < 2 ^ 64 → f ≤ d → u64 (f + (d - f)) ≡ d
    all_of d f h le = omega arith
