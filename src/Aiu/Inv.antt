-- ===== src/Aiu/Inv.antt =====
-- What holds of the DMA state of src/hw/aiu.c between two calls, and what an acknowledge clears.
use mathlib.Core.Path.{transport}
use be.Base.{
  ℕ, zero, suc, ◌+◌, ◌-◌, ◌*◌, ◌/◌, ◌≤◌, ◌≡◌, refl, ap, ◌∙◌, ◌⊎◌, inl, inr, Bool, true, false, not,
  ◌&&◌, ◌||◌, ◌==◌, ltb, if◌then◌else◌, if_elim, u32, sub_u32, bit_and, arith,
}
use be.Base.Bits.{has, test_bit, test_bit-and_not}
use be.Aiu.{
  Aiu, buffer, frame_bytes, frames_left, play, drained, tick_loop, play_due, resync, due_by,
  wait_for_batch, tick, buffer_at, start, stop, note_write, acked, codec_noted,
}

-- Both buffers are within their 64 KB, and the cursor within the buffer that drains.
pub record IsValid (s : Aiu) : Type 0 where
  pub buf0_len : s.buf0.len ≤ 0x10000
  pub buf1_len : s.buf1.len ≤ 0x10000
  pub inside : s.pos ≤ (buffer s).len
  pub format : (s.channels ≡ 1) ⊎ (s.channels ≡ 2) ⊎ (s.running ≡ false)

len-buffer_at : (a b : ℕ) → (buffer_at a b).len ≤ 0x10000
unfolding buffer_at
len-buffer_at a b = ground arith

start-IsValid : (s : Aiu) (regs : ℕ → ℕ) (now : ℕ) → IsValid (start s regs now)
unfolding start
start-IsValid s regs now =
    ground (arith, len-buffer_at (regs 0x8b0) (regs 0x8b4), len-buffer_at (regs 0x8b8) (regs 0x8bc))

drained-IsValid : (s : Aiu) (regs : ℕ → ℕ) → IsValid s → IsValid (drained s regs)
unfolding drained
drained-IsValid s regs v =
    ground (arith, len-buffer_at (regs 0x8b0) (regs 0x8b4), len-buffer_at (regs 0x8b8) (regs 0x8bc))

-- The cursor after `n` of the frames that are left.
inside_lem :
    (len pos fb n : ℕ)
    → len ≤ 0x10000
    → pos ≤ len
    → (fb ≡ 2) ⊎ (fb ≡ 4)
    → n ≤ (if ltb len fb then 0 else sub_u32 len pos / fb)
    → u32 (pos + n * fb) ≤ len
inside_lem len pos fb n l p (inl e) h =
    let h2 = transport (ap (λ (b : ℕ). n ≤ (if ltb len b then 0 else sub_u32 len pos / b)) e) h in
    rw e (ground arith)
inside_lem len pos fb n l p (inr e) h =
    let h4 = transport (ap (λ (b : ℕ). n ≤ (if ltb len b then 0 else sub_u32 len pos / b)) e) h in
    rw e (ground arith)

play-IsValid :
    (s : Aiu) (audio_on : Bool) (ram : ℕ → Bool) (n : ℕ)
    → s.running ≡ true
    → n ≤ frames_left s
    → IsValid s
    → IsValid (play s audio_on ram n)
unfolding play
play-IsValid s audio_on ram n on h v =
    if_elim IsValid (n == 0) (λ _. v)
      (λ _. record {
        buf0_len = v.buf0_len;
        buf1_len = v.buf1_len;
        inside =
            inside_lem (buffer s).len s.pos (frame_bytes s) n (ground arith) v.inside (ground arith)
              h;
        format = v.format;
      })

running-play :
    (s : Aiu) (audio_on : Bool) (ram : ℕ → Bool) (n : ℕ)
    → (play s audio_on ram n).running ≡ s.running
unfolding play
running-play s audio_on ram n =
    if_elim (λ (t : Aiu). t.running ≡ s.running) (n == 0) (λ _. refl) (λ _. refl)

running-drained : (s : Aiu) (regs : ℕ → ℕ) → (drained s regs).running ≡ s.running
unfolding drained
running-drained s regs = ground arith

frames-IsValid : (s : Aiu) (n : ℕ) → IsValid s → IsValid (record s { frames_done = n })
frames-IsValid s n v = record {
  buf0_len = v.buf0_len;
  buf1_len = v.buf1_len;
  inside = v.inside;
  format = v.format;
}

updates-IsValid : (s : Aiu) (n : ℕ) → IsValid s → IsValid (record s { irq_updates = n })
updates-IsValid s n v = record {
  buf0_len = v.buf0_len;
  buf1_len = v.buf1_len;
  inside = v.inside;
  format = v.format;
}

resync-IsValid : (s : Aiu) (now : ℕ) → IsValid s → IsValid (resync s now)
resync-IsValid s now v = record {
  buf0_len = v.buf0_len;
  buf1_len = v.buf1_len;
  inside = v.inside;
  format = v.format;
}

tick_loop-IsValid :
    (k : ℕ) (audio_on : Bool) (ram : ℕ → Bool) (regs : ℕ → ℕ) (s : Aiu) (due : ℕ)
    → s.running ≡ true
    → IsValid s
    → IsValid (tick_loop k audio_on ram regs s due).0
unfolding tick_loop
tick_loop-IsValid zero audio_on ram regs s due on v = v
tick_loop-IsValid (suc k) audio_on ram regs s due on v =
    let P : Aiu × Bool → Type 0 = λ p. IsValid p.0 in
    let left = frames_left s in
    let n : ℕ = if ltb due left then due else left in
    let t = play s audio_on ram n in
    let e = drained t regs in
    let vt = play-IsValid s audio_on ram n on (at_most due left) v in
    let ve = drained-IsValid t regs vt in
    let ont = running-play s audio_on ram n ∙ on in
    if_elim P (due == 0) (λ _. v)
      (λ _.
        if_elim P (n == left)
          (λ _.
            if_elim P (left == 0) (λ _. frames-IsValid e _ ve)
              (λ _.
                tick_loop-IsValid k audio_on ram regs e (due - n) (running-drained t regs ∙ ont)
                  ve))
          (λ _. tick_loop-IsValid k audio_on ram regs t (due - n) ont vt))
  where
    at_most : (due left : ℕ) → (if ltb due left then due else left) ≤ left
    at_most due left = ground arith

play_due-IsValid :
    (audio_on : Bool) (ram : ℕ → Bool) (regs : ℕ → ℕ) (s : Aiu) (due : ℕ)
    → s.running ≡ true
    → IsValid s
    → IsValid (play_due audio_on ram regs s due)
unfolding play_due
play_due-IsValid audio_on ram regs s due on v =
    if_elim IsValid (due == 0 || wait_for_batch s due) (λ _. v)
      (λ _. updates-IsValid _ _ (tick_loop-IsValid due audio_on ram regs s due on v))

-- A tick of a valid state keeps the cursor within the buffer that drains, and both buffers within
-- 64 KB.
pub tick-IsValid :
    (s : Aiu) (audio_on : Bool) (ram : ℕ → Bool) (regs : ℕ → ℕ) (now : ℕ)
    → IsValid s
    → IsValid (tick s audio_on ram regs now)
unfolding tick
tick-IsValid s audio_on ram regs now v =
    if_elim IsValid (not s.running || s.rate_hz == 0) (λ _. v)
      (λ on.
        play_due-IsValid audio_on ram regs (resync s now)
          (due_by (resync s now) now - s.frames_done) (ground arith) (resync-IsValid s now v))

same_cursor :
    (s : Aiu) (double : Bool) (status : ℕ)
    → IsValid s
    → IsValid (record s { codec_double = double; status = status })
same_cursor s double status v = record {
  buf0_len = v.buf0_len;
  buf1_len = v.buf1_len;
  inside = v.inside;
  format = v.format;
}

stop-IsValid : (s : Aiu) → IsValid s → IsValid (stop s)
stop-IsValid s v = record {
  buf0_len = v.buf0_len;
  buf1_len = v.buf1_len;
  inside = v.inside;
  format = inr (inr refl);
}

noted-IsValid :
    (s : Aiu) (off val : ℕ) → IsValid s → IsValid (acked (codec_noted s off val) off val)
noted-IsValid s off val v =
    let c = codec_noted s off val in
    let w =
      if_elim IsValid (off == 0x3c0 && bit_and val 0xf000 == 0xd000)
        (λ _. same_cursor s (has val 0x80) s.status v) (λ _. v) in
    if_elim IsValid (off == 0x8c8 && has val 0x1) (λ _. same_cursor c c.codec_double _ w)
      (λ _.
        if_elim IsValid (off == 0x8cc && has val 0x1) (λ _. same_cursor c c.codec_double _ w)
          (λ _. w))

-- A write keeps the cursor within its buffer, whether it starts the DMA, stops it, or neither.
note_write-IsValid :
    (s : Aiu) (regs : ℕ → ℕ) (now off val : ℕ) → IsValid s → IsValid (note_write s regs now off val)
unfolding note_write
note_write-IsValid s regs now off val v =
    let t = acked (codec_noted s off val) off val in
    let w = noted-IsValid s off val v in
    let want_run = has (regs 0x898) 0x1 && has (regs 0x8a0) 0x1 in
    if_elim IsValid (want_run && not t.running) (λ _. start-IsValid t regs now)
      (λ _. if_elim IsValid (not want_run && t.running) (λ _. stop-IsValid t w) (λ _. w))

status-note_write :
    (s : Aiu) (regs : ℕ → ℕ) (now off val : ℕ)
    → (note_write s regs now off val).status ≡ (acked (codec_noted s off val) off val).status
unfolding note_write start
status-note_write s regs now off val =
    let t = acked (codec_noted s off val) off val in
    let P : Aiu → Type 0 = λ u. u.status ≡ t.status in
    let want_run = has (regs 0x898) 0x1 && has (regs 0x8a0) 0x1 in
    if_elim P (want_run && not t.running) (λ _. refl)
      (λ _. if_elim P (not want_run && t.running) (λ _. refl) (λ _. refl))

-- Each acknowledge register clears its own buffer's status bit if bit 0 is written, and leaves the
-- other buffer's.
pub acknowledge_lem :
    (s : Aiu) (regs : ℕ → ℕ) (now val : ℕ)
    → let a = (note_write s regs now 0x8c8 val).status in
      let b = (note_write s regs now 0x8cc val).status in
      (test_bit a 0 ≡ (test_bit s.status 0 && not (has val 0x1)))
      × (test_bit a 1 ≡ test_bit s.status 1)
      × (test_bit b 0 ≡ test_bit s.status 0)
      × (test_bit b 1 ≡ (test_bit s.status 1 && not (has val 0x1)))
acknowledge_lem s regs now val =
    rw (status-note_write s regs now 0x8c8 val, status-note_write s regs now 0x8cc val)
      (ground (
        arith,
        test_bit-and_not 32 0 s.status 0x1,
        test_bit-and_not 32 1 s.status 0x1,
        test_bit-and_not 32 0 s.status 0x2,
        test_bit-and_not 32 1 s.status 0x2,
      ))
