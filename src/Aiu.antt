-- ===== src/Aiu.antt =====
-- The wave-output DMA of src/hw/aiu.c: two buffers that drain in turn, paced by the host's clock.
-- `regs` reads the companion latch (`aiu_reg`), `ram` tells whether an address has storage
-- (`memory_paddr_to_hostaddr`), `audio_on` is `cfg.enable_audio` and `now` the host's time. The
-- calls of other modules are kept as fields: `queued` has the address and the frames of each
-- `ui_audio_queue_pcm`, newest first, `stream_resets` counts `ui_audio_reset_stream`, and
-- `irq_updates` counts `be300_vrc4173_update_audio_irq`. Logging is not modelled.
pub mod Emit
pub mod Cursor
pub mod Inv
mod Tests
use be.Base.{
  ℕ, zero, suc, ◌+◌, ◌-◌, ◌*◌, ◌/◌, ◌%◌, ◌^◌, Bool, true, false, not, ◌&&◌, ◌||◌, List, [], ◌∷◌,
  ◌++◌, ◌==◌, ltb, leb, if◌then◌else◌, u32, u64, sub_u32, sub_u64, bit_and, bit_or,
}
use be.Base.Bits.{and_not, has}

pub record Buffer : Type 0 where
  pub start : ℕ
  pub len : ℕ

-- `cur_buf` is true for buffer 1.
pub record Aiu : Type 0 where
  pub running : Bool
  pub cur_buf : Bool
  pub buf0 : Buffer
  pub buf1 : Buffer
  pub pos : ℕ
  pub status : ℕ
  pub codec_double : Bool
  pub rate_hz : ℕ
  pub channels : ℕ
  pub start_ns : ℕ
  pub frames_done : ℕ
  pub irq_count : ℕ
  pub queued : List (ℕ × ℕ)
  pub stream_resets : ℕ
  pub irq_updates : ℕ

abbrev ns_per_s : ℕ
ns_per_s = 1_000_000_000

unfoldable rate_of : Aiu → (ℕ → ℕ) → ℕ
rate_of s regs =
    let code = bit_and (regs 0x880) 0x70 in
    let base : ℕ =
      if code == 0x40
      then 8000
      else if code == 0x10
      then 11025
      else if code == 0x30
      then 16000
      else 22050 in
    if s.codec_double then base * 2 else base

abbrev channels_of : (ℕ → ℕ) → ℕ
channels_of regs = if has (regs 0x888) 0x2 then 1 else 2

-- The physical address of what the registers give; a buffer that is too long or ends before it
-- starts has length 0.
unfoldable pub buffer_at : ℕ → ℕ → Buffer
buffer_at first last =
    let start = first % 2 ^ 29 in
    let end = last % 2 ^ 29 in
    record {
      start = start;
      len = if leb start end && ltb (end - start) 0x10000 then end - start + 1 else 0;
    }

abbrev load_buffer : Aiu → (ℕ → ℕ) → Bool → Aiu
load_buffer s regs idx =
    if idx
    then record s { buf1 = buffer_at (regs 0x8b8) (regs 0x8bc) }
    else record s { buf0 = buffer_at (regs 0x8b0) (regs 0x8b4) }

unfoldable pub init : Aiu
init = record {
  running = false;
  cur_buf = false;
  buf0 = record { start = 0; len = 0 };
  buf1 = record { start = 0; len = 0 };
  pos = 0;
  status = 0;
  codec_double = false;
  rate_hz = 0;
  channels = 0;
  start_ns = 0;
  frames_done = 0;
  irq_count = 0;
  queued = [];
  stream_resets = 0;
  irq_updates = 0;
}

unfoldable pub irq_pending : Aiu → Bool
irq_pending s = has s.status 0x3

unfoldable handles_write : ℕ → ℕ → Bool
handles_write off len =
    let end = u32 (off + len) in
    (ltb off 0x8d0 && ltb 0x898 end) || (ltb off 0x3c4 && ltb 0x3c0 end)

unfoldable pub start : Aiu → (ℕ → ℕ) → ℕ → Aiu
unfolding rate_of
start s regs now = record s {
  stream_resets = s.stream_resets + 1;
  running = true;
  cur_buf = false;
  pos = 0;
  rate_hz = rate_of s regs;
  channels = channels_of regs;
  buf0 = buffer_at (regs 0x8b0) (regs 0x8b4);
  buf1 = buffer_at (regs 0x8b8) (regs 0x8bc);
  start_ns = now;
  frames_done = 0;
}

abbrev pub stop : Aiu → Aiu
stop s = record s { running = false }

-- A codec command of the form 0xDxxx sets or clears the double rate.
abbrev pub codec_noted : Aiu → ℕ → ℕ → Aiu
codec_noted s off val =
    if off == 0x3c0 && bit_and val 0xf000 == 0xd000
    then record s { codec_double = has val 0x80 }
    else s

abbrev pub acked : Aiu → ℕ → ℕ → Aiu
acked s off val =
    if off == 0x8c8 && has val 0x1
    then record s { status = and_not 32 s.status 0x1 }
    else if off == 0x8cc && has val 0x1
    then record s { status = and_not 32 s.status 0x2 }
    else s

-- The latch has taken the write before: `regs` reads it back.
unfoldable pub note_write : Aiu → (ℕ → ℕ) → ℕ → ℕ → ℕ → Aiu
unfolding start
note_write s regs now off val =
    let t = acked (codec_noted s off val) off val in
    let want_run = has (regs 0x898) 0x1 && has (regs 0x8a0) 0x1 in
    if want_run && not t.running
    then start t regs now
    else if not want_run && t.running
    then stop t
    else t

-- How many frames the next round copies; 0 if a frame straddles the page.
abbrev pub piece : ℕ → ℕ → ℕ → ℕ
piece frame_bytes pa frames =
    let n : ℕ = if ltb frames 512 then frames else 512 in
    let page_left : ℕ = 0x1000 - pa % 0x1000 in
    if ltb page_left (n * frame_bytes) then page_left / frame_bytes else n

-- The loop of `aiu_emit` on fuel: each chunk's address and number of frames.
unfoldable pub emit_loop : ℕ → (ℕ → Bool) → ℕ → ℕ → ℕ → List (ℕ × ℕ)
emit_loop zero ram frame_bytes pa frames = []
emit_loop (suc k) ram frame_bytes pa frames =
    let n = piece frame_bytes pa frames in
    let skipped = emit_loop k ram frame_bytes (u32 (pa + frame_bytes)) (frames - 1) in
    let rest = emit_loop k ram frame_bytes (u32 (pa + n * frame_bytes)) (frames - n) in
    if frames == 0 then [] else if n == 0 then skipped else if ram pa then (pa, n) ∷ rest else []

unfoldable pub emit : Bool → (ℕ → Bool) → ℕ → ℕ → ℕ → List (ℕ × ℕ)
unfolding emit_loop
emit audio_on ram frame_bytes pa frames =
    if not audio_on then [] else emit_loop frames ram frame_bytes pa frames

abbrev pub buffer : Aiu → Buffer
buffer s = if s.cur_buf then s.buf1 else s.buf0

abbrev pub frame_bytes : Aiu → ℕ
frame_bytes s = 2 * s.channels

-- The frames left in the current buffer.
abbrev pub frames_left : Aiu → ℕ
frames_left s =
    if ltb (buffer s).len (frame_bytes s) then 0 else sub_u32 (buffer s).len s.pos / frame_bytes s

-- `n` frames of the current buffer go to the host.
unfoldable pub play : Aiu → Bool → (ℕ → Bool) → ℕ → Aiu
unfolding emit
play s audio_on ram n = if n == 0 then s else record s {
  queued = emit audio_on ram (frame_bytes s) (u32 ((buffer s).start + s.pos)) n ++ s.queued;
  pos = u32 (s.pos + n * frame_bytes s);
  frames_done = u64 (s.frames_done + n);
}

-- The current buffer is empty: its status bit and the other buffer's turn.
unfoldable pub drained : Aiu → (ℕ → ℕ) → Aiu
drained s regs =
    load_buffer
      (record s {
        status = bit_or s.status (if s.cur_buf then 2 else 1);
        irq_count = u64 (s.irq_count + 1);
        cur_buf = not s.cur_buf;
        pos = 0;
      })
      regs (not s.cur_buf)

-- The loop of `aiu_tick` on fuel: the state, and `raised`.
unfoldable pub tick_loop : ℕ → Bool → (ℕ → Bool) → (ℕ → ℕ) → Aiu → ℕ → Aiu × Bool
unfolding play drained
tick_loop zero audio_on ram regs s due = (s, false)
tick_loop (suc k) audio_on ram regs s due =
    let left = frames_left s in
    let n : ℕ = if ltb due left then due else left in
    let t = play s audio_on ram n in
    let e = drained t regs in
    let on = tick_loop k audio_on ram regs t (due - n) in
    let next = tick_loop k audio_on ram regs e (due - n) in
    if due == 0
    then (s, false)
    else if n == left
    then (if left == 0
        then (record e { frames_done = u64 (e.frames_done + (due - n)) }, true)
        else (next.0, true))
    else on

-- A stalled host restarts the cursor's clock at the current frame.
abbrev pub resync : Aiu → ℕ → Aiu
resync s now =
    let played = u64 (s.frames_done * ns_per_s) / s.rate_hz in
    let late = ltb (u64 (100_000_000 + played)) (sub_u64 now s.start_ns) in
    record s { start_ns = if late then sub_u64 now played else s.start_ns }

-- The frames that should have been played by `now`.
abbrev pub due_by : Aiu → ℕ → ℕ
due_by s now = u64 (sub_u64 now s.start_ns * s.rate_hz) / ns_per_s

-- Too few frames are due, and they do not reach the end of the buffer.
abbrev pub wait_for_batch : Aiu → ℕ → Bool
wait_for_batch s due =
    ltb due 64
    && leb (frame_bytes s) (buffer s).len
    && ltb due (sub_u32 (buffer s).len s.pos / frame_bytes s)

-- `aiu_tick` from the point where `due` frames are known to be due.
unfoldable pub play_due : Bool → (ℕ → Bool) → (ℕ → ℕ) → Aiu → ℕ → Aiu
unfolding tick_loop
play_due audio_on ram regs s due =
    let (u, raised) = tick_loop due audio_on ram regs s due in
    if due == 0 || wait_for_batch s due
    then s
    else record u { irq_updates = if raised then u.irq_updates + 1 else u.irq_updates }

unfoldable pub tick : Aiu → Bool → (ℕ → Bool) → (ℕ → ℕ) → ℕ → Aiu
unfolding play_due
tick s audio_on ram regs now =
    let t = resync s now in
    if not s.running || s.rate_hz == 0
    then s
    else play_due audio_on ram regs t (due_by t now - t.frames_done)
