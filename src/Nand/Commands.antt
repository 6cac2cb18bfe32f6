-- ===== src/Nand/Commands.antt =====
-- The command and address ports of src/hw/nand.c: the direct I/O port and the AC00 and AC04
-- registers drive this one sequence.
use be.Base.{
  ℕ, zero, suc, ◌+◌, ◌-◌, ◌*◌, ◌/◌, ◌^◌, Bool, true, false, ◌&&◌, ◌||◌, ◌==◌, ltb, leb,
  if◌then◌else◌, u8, u32, splice,
}
use be.Nand.{
  Nand, State, idle, read_data, read_oob, read_id, read_status, program_data, erase_setup, Program,
  commit_program, commit_erase, update, page_data, page_oob, page_raw, status_ok,
}

abbrev pub is_program : State → Bool
is_program program_data = true
is_program _ = false

abbrev pub is_erase : State → Bool
is_erase erase_setup = true
is_erase _ = false

abbrev pub is_read_data : State → Bool
is_read_data read_data = true
is_read_data _ = false

abbrev pub is_read_oob : State → Bool
is_read_oob read_oob = true
is_read_oob _ = false

-- The offset and the length of the transfer, by the state.
abbrev transfer_offset : State → Nand → ℕ
transfer_offset read_data s =
    u32 (u32 (s.page_addr * page_raw) + (if ltb s.column page_data then s.column else page_data))
transfer_offset read_oob s = u32 (u32 (s.page_addr * page_raw) + page_data)
transfer_offset _ s = 0

abbrev transfer_length : State → Nand → ℕ
transfer_length read_data s = if ltb s.column page_data then page_data - s.column else 0
transfer_length read_oob s = page_oob
transfer_length read_id s = 4
transfer_length _ s = 0

unfoldable pub setup_transfer : Nand → Nand
setup_transfer s = record s {
  nand_offset = transfer_offset s.state s;
  xfer_length = transfer_length s.state s;
  xfer_cursor = 0;
}

abbrev pub empty_program : Program
empty_program = record { buffer = λ i. 0xff; column = 0; length = 0 }

abbrev pub finish : Nand → Nand
finish s = record s { state = idle; ready = true }

-- The latches that every command sets.
abbrev pub noted : Nand → ℕ → Nand
noted s cmd = record s { last_cmd = cmd; addr_cycle = 0; xfer_cursor = 0; ready = false }

abbrev pub page_program : Nand → Nand
page_program s =
    let t = record s { status_value = status_ok } in
    finish (if is_program s.state then commit_program t else t)

abbrev pub erase_confirm : Nand → Nand
erase_confirm s =
    let t = record s { status_value = status_ok } in
    finish (if is_erase s.state then commit_erase t else t)

-- The `switch` of `nand_legacy_command`.
unfoldable pub command : Nand → ℕ → Nand
unfolding setup_transfer
command s cmd =
    if cmd == 0x00
    then record s { state = read_data; column = 0 }
    else if cmd == 0x01
    then record s { state = read_data; column = 256 }
    else if cmd == 0x50
    then record s { state = read_oob }
    else if cmd == 0x90
    then record (setup_transfer (record s { state = read_id })) { ready = true }
    else if cmd == 0x70
    then record s { state = read_status; ready = true }
    else if cmd == 0x80
    then record s { state = program_data; column = 0; program = empty_program }
    else if cmd == 0x60
    then record s { state = erase_setup }
    else if cmd == 0x10
    then page_program s
    else if cmd == 0xd0
    then erase_confirm s
    else finish s

unfoldable pub legacy_command : Nand → ℕ → Nand
unfolding command
legacy_command s cmd = command (noted s cmd) cmd

-- The page address with the byte of this cycle in its place.
abbrev page_with : ℕ → ℕ → ℕ → ℕ
page_with cycle page_addr abyte =
    if cycle == 1
    then splice page_addr 0 8 abyte
    else if cycle == 2
    then splice page_addr 8 16 abyte
    else if cycle == 3
    then splice page_addr 16 24 abyte
    else page_addr

-- The `switch` of `nand_legacy_address`: only a read takes the column.
abbrev pub address_byte : Nand → ℕ → Nand
address_byte s abyte = record s {
  column =
      if s.addr_cycle == 0 && is_read_data s.state
      then s.column / 2 ^ 8 * 2 ^ 8 + abyte
      else s.column;
  page_addr = page_with s.addr_cycle s.page_addr abyte;
}

-- One address cycle, and whether it completes a read setup.
unfoldable pub legacy_address : Nand → ℕ → Bool × Nand
unfolding setup_transfer
legacy_address s abyte =
    let t = address_byte s abyte in
    let u = record t { addr_cycle = u8 (s.addr_cycle + 1) } in
    if leb 3 u.addr_cycle && (is_read_data u.state || is_read_oob u.state)
    then (true, record (setup_transfer u) { ready = true })
    else if u.addr_cycle == 1 && is_program u.state
    then (false, record u { program = record u.program { column = u.column } })
    else (false, u)

-- Program data, least significant byte first, for the `n` bytes of `value` from byte `i` on.
unfoldable pub append_loop : ℕ → ℕ → ℕ → Program → Program
append_loop zero i value p = p
append_loop (suc n) i value p =
    let byte = u8 (value / 2 ^ (8 * i)) in
    let rest =
      append_loop n (i + 1) value
        (record p { buffer = update p.buffer p.length byte; length = p.length + 1 }) in
    if leb page_raw (p.column + p.length) then p else rest

unfoldable pub program_append : Nand → ℕ → ℕ → Nand
unfolding append_loop
program_append s value size = record s { program = append_loop size 0 value s.program }
