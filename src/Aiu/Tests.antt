-- ===== src/Aiu/Tests.antt =====
-- The theorems on the wave-output DMA of src/hw/aiu.c at concrete states.
use be.Base.{ℕ, ◌≡◌, refl, inl, inr, Bool, true, false, [], ◌==◌, if◌then◌else◌, arith}
use be.Aiu.{Aiu, emit, tick, resync, due_by}
use be.Aiu.Emit.{Covers, emit-Covers}
use be.Aiu.Cursor.{tick_frames}
use be.Aiu.Inv.{IsValid}

abbrev everywhere : ℕ → Bool
everywhere pa = true

-- 11025 Hz mono, both buffers programmed, running.
abbrev latch : ℕ → ℕ
latch off =
    if off == 0x880
    then 0x10
    else if off == 0x888
    then 2
    else if off == 0x898
    then 1
    else if off == 0x8a0
    then 1
    else if off == 0x8b0
    then 0xa004a000
    else if off == 0x8b4
    then 0xa004a0ff
    else if off == 0x8b8
    then 0xa004d000
    else if off == 0x8bc
    then 0xa004d0ff
    else 0

abbrev playing : Aiu
playing = record {
  running = true;
  cur_buf = false;
  buf0 = record { start = 0x4a000; len = 0x100 };
  buf1 = record { start = 0x4d000; len = 0x100 };
  pos = 16;
  status = 2;
  codec_double = false;
  rate_hz = 11025;
  channels = 1;
  start_ns = 1_000_000;
  frames_done = 8;
  irq_count = 0;
  queued = [];
  stream_resets = 1;
  irq_updates = 0;
}

playing-IsValid : IsValid playing
playing-IsValid = record {
  buf0_len = omega arith;
  buf1_len = omega arith;
  inside = omega arith;
  format = inl refl;
}

emit-Covers_example : Covers 4 0x4af00 300 (emit true everywhere 4 0x4af00 300)
emit-Covers_example =
    emit-Covers everywhere 4 0x4af00 300 (inr (refl, refl)) (λ a. refl) (omega arith)

tick_frames_example :
    (tick playing true everywhere latch 31_000_000).frames_done
    ≡ due_by (resync playing 31_000_000) 31_000_000
tick_frames_example =
    tick_frames playing true everywhere latch 31_000_000 refl refl (omega arith) refl
