-- ===== src/Restore/Port.antt =====
-- The registers of the restore engine in src/hw/nand_restore.c.
use be.Base.{
  ℕ, zero, suc, ◌+◌, ◌*◌, ◌/◌, ◌%◌, ◌^◌, Bool, true, false, not, ◌&&◌, ◌||◌, [], ◌∷◌, ◌==◌, ltb,
  leb, if◌then◌else◌, u8, u32, get_or, set,
}
use be.Nand.{block_pages}
use be.Restore.{
  Restore, c20, cc0, get_reg, set_reg, set_ready, page_from_addr, block_from_addr, begin_program,
  commit_program, commit_erase, clean_ecc, prepare_mode, buffer_read, buffer_write,
}

unfoldable handles_offset : ℕ → Bool
handles_offset offset =
    leb 0xb00 offset && ltb offset 0xd00 && not (leb 0xc00 offset && ltb offset 0xc50)

-- The bytes of a register word, least significant first, from byte `i` on.
unfoldable reg_bytes : ℕ → ℕ → ℕ → ℕ
reg_bytes zero i word = 0
reg_bytes (suc n) i word = u8 (word / 2 ^ (8 * i)) + reg_bytes n (i + 1) word * 2 ^ 8

unfoldable pub read : Restore → ℕ → ℕ → ℕ × Restore
unfolding reg_bytes
read s offset size =
    if leb 0xb00 offset && ltb offset 0xc00
    then buffer_read s size
    else if leb 0x980 offset && ltb offset 0x990
    then (reg_bytes size 0 (get_reg s offset), s)
    else if leb 0xc00 offset && leb offset cc0
    then (
      reg_bytes size 0 (
          if offset == c20 && s.last_cmd == 0x70
          then (if s.status_ok then 1 else 0)
          else get_reg s offset),
      s,
    )
    else (0, s)

abbrev no_address : Restore → Restore
no_address s = record s { addr_count = 0 }

abbrev set_up : Restore → Restore
set_up s = set_ready (record s { addr_count = 0; status_ok = true }) false

-- The data register in the command phase, after the word has been stored.
unfoldable pub command : Restore → ℕ → Restore
unfolding begin_program commit_program commit_erase
command s byte =
    let t = record s { last_cmd = byte } in
    if byte == 0x00
    then set_up t
    else if byte == 0x80
    then begin_program (no_address t)
    else if byte == 0x60
    then set_up t
    else if byte == 0xd0
    then commit_erase t
    else if byte == 0x10
    then commit_program t
    else if byte == 0x70
    then set_ready (set_reg t c20 (if t.status_ok then 1 else 0)) true
    else t

-- A fifth address byte pushes the first one out.
abbrev latch_address : Restore → ℕ → Restore
latch_address s byte =
    let b : ℕ → ℕ = λ i. get_or s.addr_bytes i 0 in
    let room = ltb s.addr_count 4 in
    record s {
      addr_bytes = if room then set s.addr_bytes s.addr_count byte else b 1 ∷ b 2 ∷ b 3 ∷ byte ∷ [];
      addr_count = if room then s.addr_count + 1 else s.addr_count;
    }

-- The data register in the address phase.
unfoldable pub address : Restore → ℕ → Restore
unfolding page_from_addr block_from_addr
address s byte =
    let t = latch_address s byte in
    record t {
      page_addr =
          if t.last_cmd == 0x00 || t.last_cmd == 0x80
          then page_from_addr t
          else if t.last_cmd == 0x60
          then block_from_addr t * block_pages
          else t.page_addr;
    }

unfoldable pub write_data : Restore → ℕ → Restore
unfolding command address
write_data s value =
    let t = set_reg s c20 (u32 value) in
    if t.phase == 0x03
    then command t (u8 value)
    else if t.phase == 0x06
    then address t (u8 value)
    else t

-- One of the six words of parity; the sixth brings the check result.
unfoldable pub write_ecc : Restore → ℕ → Restore
write_ecc s value =
    let t = record s {
      ecc_words = set s.ecc_words s.ecc_count (value % 0x400);
      ecc_count = s.ecc_count + 1;
    } in
    if s.mode == 0x01 && ltb s.ecc_count 6
    then (if leb 6 t.ecc_count then clean_ecc t else t)
    else s

unfoldable pub write : Restore → ℕ → ℕ → ℕ → Restore
unfolding write_data write_ecc
write s offset size value =
    if leb 0xb00 offset && ltb offset 0xc00
    then buffer_write s size value
    else if leb 0x980 offset && ltb offset 0x990
    then set_reg s offset (u32 value)
    else if offset == 0xc14
    then set_reg (record s { phase = u8 value }) offset (u32 value)
    else if offset == c20
    then write_data s value
    else if offset == 0xc64
    then prepare_mode (set_reg s offset (u32 value)) (u8 value)
    else if offset == 0xc68
    then write_ecc (set_reg s offset (u32 value)) value
    else if leb 0xc00 offset && leb offset cc0
    then set_reg s offset (u32 value)
    else s
