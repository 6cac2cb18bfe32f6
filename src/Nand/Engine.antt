-- ===== src/Nand/Engine.antt =====
-- The transfer engine of src/hw/nand.c: the phases of its command and address latches, the bytes it
-- queues for reading, the stream window, and the boot engine that starts a stream.
use be.Base.{
  ℕ, zero, suc, ◌+◌, ◌-◌, ◌*◌, ◌/◌, ◌%◌, ◌^◌, Bool, true, false, not, ◌&&◌, ◌||◌, List, [], ◌∷◌,
  ◌==◌, ltb, leb, if◌then◌else◌, u32, bit_or, get_or, set, replicate,
}
use be.Nand.{
  Nand, idle, read_data, read_oob, read_id, read_status, program_data, erase_setup, commit_program,
  commit_erase, stream_byte, page_raw, block_pages, status_ok,
}
use be.Nand.Commands.{empty_program, is_program, is_erase}

-- `mode` is the latched A464 register.
pub record Engine : Type 0 where
  pub nand : Nand
  pub addr_bytes : List ℕ
  pub addr_count : ℕ
  pub last_cmd : ℕ
  pub phase : ℕ
  pub pending_byte : ℕ
  pub data_bytes : List ℕ
  pub data_count : ℕ
  pub data_pos : ℕ
  pub mode : ℕ
  pub stream_page : ℕ
  pub stream_col : ℕ
  pub stream_base : ℕ
  pub stream_cursor : ℕ
  pub stream_limit : ℕ
  pub stream_active : Bool
  pub burst_520 : Bool
  pub stream_stall : Bool
  pub boot_addr_bytes : List ℕ
  pub boot_addr_count : ℕ
  pub boot_ecc_count : ℕ
  pub boot_mode : ℕ
  pub boot_ready : Bool
  pub boot_status : ℕ
  pub boot_status2 : ℕ

abbrev clear_data : Engine → Engine
clear_data s = record s { data_count = 0; data_pos = 0; data_bytes = replicate 8 0 }

abbrev push_data : Engine → ℕ → Engine
push_data s byte =
    let room = ltb s.data_count 8 in
    record s {
      data_bytes = if room then set s.data_bytes s.data_count byte else s.data_bytes;
      data_count = if room then s.data_count + 1 else s.data_count;
    }

abbrev reset_addr : Engine → Engine
reset_addr s = record s { addr_count = 0; addr_bytes = replicate 4 0 }

abbrev pub row_addr : Engine → ℕ
row_addr s = get_or s.addr_bytes 1 0 + get_or s.addr_bytes 2 0 * 2 ^ 8

abbrev pub col_addr : Engine → ℕ
col_addr s = get_or s.addr_bytes 0 0

unfoldable pub block_addr : Engine → ℕ
block_addr s =
    let block = bit_or (get_or s.addr_bytes 0 0 / 2 ^ 5 % 8) (get_or s.addr_bytes 1 0 * 2 ^ 3) in
    if ltb s.addr_count 2
    then s.nand.page_addr / block_pages
    else if leb 3 s.addr_count
    then bit_or block (get_or s.addr_bytes 2 0 * 2 ^ 11)
    else block

abbrev pub with_nand : Engine → Nand → Engine
with_nand s n = record s { nand = n }

-- A command that addresses a page.
abbrev pub takes_page : ℕ → Bool
takes_page cmd = cmd == 0x00 || cmd == 0x01 || cmd == 0x50 || cmd == 0x80

abbrev latch_page : Engine → Engine
latch_page s = with_nand s (record s.nand { page_addr = row_addr s; column = col_addr s })

abbrev latch_block : Engine → Engine
latch_block s = with_nand s (record s.nand { page_addr = u32 (block_addr s * block_pages) })

unfoldable pub latch_addr_state : Engine → Engine
unfolding block_addr
latch_addr_state s =
    if takes_page s.last_cmd
    then (if leb 3 s.addr_count then latch_page s else s)
    else if s.last_cmd == 0x60
    then (if leb 2 s.addr_count then latch_block s else s)
    else s

abbrev prepare_readid : Engine → Engine
prepare_readid s = push_data (push_data (clear_data s) 0xec) 0x73

abbrev prepare_status : Engine → Engine
prepare_status s = push_data (clear_data s) s.nand.status_value

abbrev pub cleared : Engine → Nand → Engine
cleared s n = clear_data (reset_addr (with_nand s n))

abbrev pub done : Nand → Nand
done n = record n { state = idle; ready = true }

abbrev confirm_program : Engine → Engine
confirm_program s =
    let n = record s.nand { status_value = status_ok } in
    prepare_status (with_nand s (done (if is_program n.state then commit_program n else n)))

abbrev confirm_erase : Engine → Engine
confirm_erase s =
    let n = record s.nand { status_value = status_ok } in
    let addressed = record n { page_addr = u32 (block_addr s * block_pages) } in
    prepare_status (with_nand s (done (if is_erase n.state then commit_erase addressed else n)))

-- The command phase, after the command has been noted.
unfoldable pub engine_command : Engine → ℕ → Engine
unfolding block_addr
engine_command s cmd =
    let n = s.nand in
    if cmd == 0x00
    then cleared s (record n { state = read_data; column = 0 })
    else if cmd == 0x01
    then cleared s (record n { state = read_data; column = 256 })
    else if cmd == 0x50
    then cleared s (record n { state = read_oob })
    else if cmd == 0x90
    then cleared s (record n { state = read_id; ready = true })
    else if cmd == 0x70
    then prepare_status (with_nand s (record n { state = read_status; ready = true }))
    else if cmd == 0x80
    then cleared s (record n { state = program_data; column = 0; program = empty_program })
    else if cmd == 0x60
    then cleared s (record n { state = erase_setup })
    else if cmd == 0x10
    then confirm_program s
    else if cmd == 0xd0
    then confirm_erase s
    else if cmd == 0xff
    then clear_data (with_nand s (record (done n) { status_value = status_ok }))
    else clear_data (with_nand s (record n { ready = true }))

abbrev pub made_ready : Engine → Engine
made_ready s = with_nand s (record s.nand { ready = true })

-- The address phase: what the last command needs.
unfoldable pub engine_address : Engine → Engine
unfolding block_addr
engine_address s =
    if s.last_cmd == 0x90
    then prepare_readid s
    else if s.last_cmd == 0x70
    then prepare_status s
    else if takes_page s.last_cmd
    then latch_page s
    else if s.last_cmd == 0x60
    then latch_block s
    else s

unfoldable pub commit_phase : Engine → Engine
unfolding engine_command engine_address
commit_phase s =
    if s.phase == 0x03
    then engine_command (record s { last_cmd = s.pending_byte }) s.pending_byte
    else if s.phase == 0x06
    then made_ready (engine_address s)
    else s

-- A read of the window past a burst of 520 bytes in mode 5 hangs the bus.
abbrev pub past_limit : Engine → ℕ → Bool
past_limit s i = not (s.stream_limit == 0) && leb s.stream_limit (u32 (s.stream_cursor + i))

-- Bytes `i` to `i + n - 1` of a read, least significant first, and whether the bus hangs.
unfoldable pub read_loop : ℕ → ℕ → Engine → ℕ × Bool
read_loop zero i s = (0, false)
read_loop (suc n) i s =
    let (value, stall) = read_loop n (i + 1) s in
    if past_limit s i then (0xff + value * 2 ^ 8, (s.burst_520 && s.mode == 0x05) || stall) else (
      stream_byte s.nand.medium s.stream_page s.stream_col (u32 (s.stream_cursor + i))
          + value * 2 ^ 8,
      stall,
    )

unfoldable pub stream_read : Engine → ℕ → ℕ × Engine
unfolding read_loop
stream_read s size =
    let (value, stall) = read_loop size 0 s in
    (
      value,
      record s {
        stream_stall = s.stream_stall || stall;
        stream_cursor = u32 (s.stream_cursor + size);
      },
    )

-- The bytes that `nand_stream_read_dma` stores, from byte `i` on.
unfoldable pub dma_bytes : ℕ → ℕ → Engine → List ℕ
dma_bytes zero i s = []
dma_bytes (suc n) i s =
    stream_byte s.nand.medium s.stream_page s.stream_col (u32 (s.stream_cursor + i))
    ∷ dma_bytes n (i + 1) s

unfoldable pub stream_read_dma : Engine → ℕ → List ℕ × Engine
unfolding dma_bytes
stream_read_dma s len =
    if not s.stream_active
    then ([], s)
    else (dma_bytes len 0 s, record s { stream_cursor = u32 (s.stream_cursor + len) })

unfoldable dma_state_written : Engine → Engine
dma_state_written s = record s { burst_520 = false }

unfoldable pub boot_reset : Engine → Engine
boot_reset s = record s {
  boot_ready = false;
  boot_mode = 0;
  boot_addr_count = 0;
  boot_ecc_count = 0;
  stream_active = false;
  stream_limit = 0;
  boot_status = 0;
  boot_status2 = 0;
}

-- A fifth address byte pushes the first one out.
unfoldable pub boot_latch_addr : Engine → ℕ → Engine
boot_latch_addr s byte =
    let b : ℕ → ℕ = λ i. get_or s.boot_addr_bytes i 0 in
    let room = ltb s.boot_addr_count 4 in
    record s {
      boot_addr_bytes =
          if room
          then set s.boot_addr_bytes s.boot_addr_count byte
          else b 1 ∷ b 2 ∷ b 3 ∷ byte ∷ [];
      boot_addr_count = if room then s.boot_addr_count + 1 else s.boot_addr_count;
    }

unfoldable pub boot_start_stream : Engine → Engine
boot_start_stream s =
    let col = get_or s.boot_addr_bytes 0 0 in
    let page = get_or s.boot_addr_bytes 1 0 + get_or s.boot_addr_bytes 2 0 % 0x80 * 2 ^ 8 in
    record s {
      stream_page = page;
      stream_col = col;
      stream_base = u32 (page * page_raw + col);
      stream_cursor = 0;
      stream_limit = page_raw - col;
      stream_active = true;
      boot_ready = true;
      boot_status = 1;
      boot_status2 = 0;
    }
