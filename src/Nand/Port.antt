-- ===== src/Nand/Port.antt =====
-- The registers of the transfer engine and of the boot engine in src/hw/nand.c, and the window that their
-- streams go through; the word that A464 latches is the engine's `mode`.
use be.Base.{
  ℕ, zero, suc, ◌+◌, ◌-◌, ◌*◌, ◌/◌, ◌%◌, ◌^◌, true, false, not, ◌&&◌, ◌||◌, List, [], ◌∷◌, ◌==◌,
  ltb, leb, if◌then◌else◌, u8, u32, get_or, set,
}
use be.Nand.{update, stream_byte, page_raw, page_data}
use be.Nand.Parity.{physical_ecc}
use be.Nand.Engine.{
  Engine, row_addr, col_addr, latch_addr_state, commit_phase, stream_read, boot_reset,
  boot_latch_addr, boot_start_stream, with_nand, made_ready,
}

pub record Port : Type 0 where
  pub engine : Engine
  pub xfer_regs : ℕ → ℕ
  pub xfer_buffer : ℕ → ℕ
  pub addr24 : ℕ
  pub ecc_words : ℕ → ℕ
  pub ecc_count : ℕ
  pub boot_regs : ℕ → ℕ
  pub boot_ecc_words : ℕ → ℕ

abbrev on_engine : Port → Engine → Port
on_engine p e = record p { engine = e }

abbrev pub xfer_command : Port → ℕ → Port
xfer_command p byte =
    let e = p.engine in
    on_engine p (record e {
      phase = byte;
      addr_count = if byte == 0x03 || byte == 0x06 then 0 else e.addr_count;
    })

-- A fifth address byte pushes the first one out.
abbrev with_addr_byte : Engine → ℕ → Engine
with_addr_byte e byte =
    let b : ℕ → ℕ = λ i. get_or e.addr_bytes i 0 in
    let room = ltb e.addr_count 4 in
    record e {
      pending_byte = byte;
      addr_bytes = if room then set e.addr_bytes e.addr_count byte else b 1 ∷ b 2 ∷ b 3 ∷ byte ∷ [];
      addr_count = if room then e.addr_count + 1 else e.addr_count;
    }

abbrev pub xfer_address : Port → ℕ → Port
xfer_address p byte =
    let e = with_addr_byte p.engine byte in
    let b : ℕ → ℕ = λ i. get_or e.addr_bytes i 0 in
    if p.engine.phase == 0x06
    then record p {
      engine = latch_addr_state e;
      addr24 = if leb 3 e.addr_count then b 0 + b 1 * 2 ^ 8 + b 2 * 2 ^ 16 else p.addr24;
    }
    else on_engine p (record p.engine { pending_byte = byte })

abbrev no_stream : Engine → ℕ → ℕ → Engine
no_stream e base limit = record e {
  stream_base = base;
  stream_cursor = 0;
  stream_limit = limit;
  stream_active = false;
}

-- The stream at the latched address.
abbrev stream_at : Engine → ℕ → Engine
stream_at e limit = record e {
  stream_page = row_addr e;
  stream_col = col_addr e;
  stream_base = row_addr e * page_raw + col_addr e;
  stream_cursor = 0;
  stream_limit = limit;
  stream_active = true;
}

abbrev pub mode_idle : Port → ℕ → Port
mode_idle p byte = record p {
  engine = record (no_stream p.engine 0 0) {
    burst_520 = if byte == 0x01 then true else p.engine.burst_520;
  };
  ecc_count = 0;
  xfer_buffer = λ (i : ℕ). 0;
  xfer_regs = update p.xfer_regs 48 0;
}

-- The rest of the page, after a burst.
abbrev pub mode_rest : Port → Port
mode_rest p =
    let e = p.engine in
    let t = if not e.stream_active && leb 3 e.addr_count then stream_at e e.stream_limit else e in
    let bytes : ℕ → ℕ =
      λ (i : ℕ). stream_byte t.nand.medium t.stream_page t.stream_col (u32 (t.stream_cursor + i)) in
    record p {
      engine = record t {
        stream_limit =
            if t.stream_active then (page_raw + 2 ^ 32 - t.stream_col) % 2 ^ 32 else t.stream_limit;
      };
      xfer_buffer = λ (i : ℕ). if t.stream_active && ltb i 16 then bytes i else 0;
    }

abbrev pub set_mode : Port → ℕ → Port
set_mode p byte =
    let e = p.engine in
    if byte == 0x00 || byte == 0x01
    then mode_idle p byte
    else if byte == 0x04
    then mode_rest p
    else if byte == 0x05
    then on_engine p (stream_at e ((if e.burst_520 then page_data + 8 else page_raw) - col_addr e))
    else if byte == 0x06
    then on_engine p (no_stream e (page_data + 8) 8)
    else if byte == 0x07
    then on_engine p (no_stream (latch_addr_state e) 0 (page_data + 8))
    else p

abbrev pub ecc_input : Port → ℕ → Port
ecc_input p value =
    let room = ltb p.ecc_count 6 in
    let t = record p {
      ecc_words = if room then update p.ecc_words p.ecc_count (value % 0x400) else p.ecc_words;
      ecc_count = if room then p.ecc_count + 1 else p.ecc_count;
    } in
    let parity = physical_ecc t.engine.nand.medium t.engine.stream_page t.ecc_words in
    if not (p.engine.mode == 0x01)
    then p
    else if leb 6 t.ecc_count
    then record t {
      engine = made_ready t.engine;
      xfer_buffer = parity.result;
      xfer_regs = update t.xfer_regs 48 parity.status;
    }
    else t

-- The write of an offset from 0xA400 to 0xA4FF.
unfoldable pub xfer_write : Port → ℕ → ℕ → Port
unfolding latch_addr_state commit_phase physical_ecc
xfer_write s offset value =
    let byte = u8 value in
    let idx = (offset - 0xa400) / 4 in
    let p = record s {
      xfer_regs = update s.xfer_regs idx (u32 value);
      engine = record s.engine { mode = if idx == 25 then u32 value else s.engine.mode };
    } in
    let e = p.engine in
    if offset == 0xa414
    then xfer_command p byte
    else if offset == 0xa420
    then xfer_address p byte
    else if offset == 0xa430
    then on_engine p (commit_phase e)
    else if offset == 0xa460
    then on_engine p (with_nand e (record e.nand { ready = false }))
    else if offset == 0xa464
    then (let t = set_mode p byte in on_engine t (made_ready t.engine))
    else if offset == 0xa468
    then ecc_input p value
    else p

-- The bytes of a value of `n` bytes, least significant first.
abbrev pub lanes : ℕ → ℕ → List ℕ
lanes zero value = []
lanes (suc n) value = value % 0x100 ∷ lanes n (value / 0x100)

abbrev pub store_byte : Engine → ℕ → Engine
store_byte e byte =
    let idx = u32 (e.stream_base + e.stream_cursor) in
    let g = e.nand.program in
    record e {
      nand = record e.nand {
        program = record g {
          buffer = if ltb idx page_raw then update g.buffer idx byte else g.buffer;
          length = if ltb idx page_raw && ltb g.length (idx + 1) then idx + 1 else g.length;
        };
      };
      stream_cursor = u32 (e.stream_cursor + 1);
    }

-- Bytes written through the window, up to the limit of the stream.
unfoldable pub store_bytes : List ℕ → Engine → Engine
store_bytes [] e = e
store_bytes (b ∷ bs) e =
    let rest = store_bytes bs (store_byte e b) in
    if leb e.stream_limit e.stream_cursor then e else rest

unfoldable pub window_write : Engine → ℕ → ℕ → Engine
unfolding store_bytes
window_write e size value =
    if (e.mode == 0x06 || e.mode == 0x07) && not (e.stream_limit == 0)
    then store_bytes (lanes size value) e
    else e

unfoldable window_read : Engine → ℕ → ℕ × Engine
unfolding stream_read
window_read e size =
    if e.stream_active then stream_read e size else ((if leb 4 size then 0xffffffff else 0xff), e)

abbrev boot_mode_write : Engine → ℕ → Engine
boot_mode_write s byte =
    let e = record s { boot_mode = byte } in
    if byte == 0x05 && leb 3 e.boot_addr_count
    then boot_start_stream e
    else if byte == 0x04
    then record e { boot_ready = true; boot_status = 1 }
    else record e {
      boot_ecc_count = if byte == 0x00 || byte == 0x01 then 0 else e.boot_ecc_count;
      boot_status2 = if byte == 0x00 then 0 else e.boot_status2;
    }

-- The sixth word clears the result words and the status.
abbrev boot_ecc_write : Port → ℕ → Port
boot_ecc_write p value =
    let e = p.engine in
    let last = e.boot_ecc_count == 5 in
    if e.boot_mode == 0x01 && ltb e.boot_ecc_count 6
    then record p {
      boot_ecc_words = update p.boot_ecc_words e.boot_ecc_count (value % 0x400);
      engine = record e {
        boot_ecc_count = e.boot_ecc_count + 1;
        boot_status2 = if last then 0 else e.boot_status2;
      };
      boot_regs = λ (i : ℕ). if last && leb 40 i && ltb i 44 then 0 else p.boot_regs i;
    }
    else p

-- The write of an offset from 0xC000 to 0xC0FF. The status words are fields of the engine.
unfoldable boot_write : Port → ℕ → ℕ → Port
unfolding boot_reset boot_latch_addr boot_start_stream
boot_write s offset value =
    let byte = u8 value in
    let p = record s {
      boot_regs = update s.boot_regs ((offset - 0xc000) / 4) (u32 value);
      engine = record s.engine {
        boot_status = if (offset - 0xc000) / 4 == 16 then u32 value else s.engine.boot_status;
        boot_status2 = if (offset - 0xc000) / 4 == 48 then u32 value else s.engine.boot_status2;
      };
    } in
    let e = p.engine in
    if offset == 0xc010
    then (if value % 2 == 0 then on_engine p (boot_reset e) else p)
    else if offset == 0xc014
    then (if byte == 0x03 || byte == 0x06
        then on_engine p (record e { boot_addr_count = 0 })
        else if byte == 0x00
        then on_engine p (boot_reset e)
        else p)
    else if offset == 0xc020
    then on_engine p (boot_latch_addr e byte)
    else if offset == 0xc060
    then on_engine p (record e { boot_ready = false; boot_status = 0 })
    else if offset == 0xc064
    then on_engine p (boot_mode_write e byte)
    else if offset == 0xc068
    then boot_ecc_write p value
    else p
