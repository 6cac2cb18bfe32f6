-- ===== src/Restore.antt =====
-- The restore engine of src/hw/nand_restore.c: the page buffer with its window, and the commands that
-- move it to and from the medium. The state is the part of `nand_state_t` that the engine keeps, with
-- the medium of Nand; arrays are functions from the index. Restore/Port has the registers.
pub mod Port
pub mod Inv
pub mod Window
pub mod Pages
mod Tests
use be.Base.{
  ℕ, zero, suc, ◌+◌, ◌-◌, ◌*◌, ◌/◌, ◌%◌, ◌^◌, Bool, true, false, not, ◌&&◌, ◌||◌, List, ◌==◌, ltb,
  leb, if◌then◌else◌, u8, u32, bit_or, get_or, replicate,
}
use be.Nand.{
  Medium, and_loop, physical_bad, stream_oob_byte, erased, update, page_data, page_oob, page_raw,
  block_pages, block_count, page_count,
}

-- `regs` is indexed by words, `buffer` is the page buffer.
pub record Restore : Type 0 where
  pub medium : Medium
  pub regs : ℕ → ℕ
  pub buffer : ℕ → ℕ
  pub page_addr : ℕ
  pub stream_pos : ℕ
  pub stream_limit : ℕ
  pub stream_base : ℕ
  pub phase : ℕ
  pub mode : ℕ
  pub last_cmd : ℕ
  pub addr_bytes : List ℕ
  pub addr_count : ℕ
  pub ecc_words : List ℕ
  pub ecc_count : ℕ
  pub status_ok : Bool

abbrev pub c20 : ℕ
c20 = 0xc20

abbrev pub c40 : ℕ
c40 = 0xc40

abbrev ca0 : ℕ
ca0 = 0xca0

abbrev pub cc0 : ℕ
cc0 = 0xcc0

abbrev word_at : (ℕ → ℕ) → ℕ → ℕ
word_at regs offset = if leb 0x800 (offset / 4) then 0 else regs (offset / 4)

abbrev with_word : (ℕ → ℕ) → ℕ → ℕ → ℕ → ℕ
with_word regs offset value =
    if ltb (offset / 4) 0x800 then update regs (offset / 4) value else regs

abbrev pub get_reg : Restore → ℕ → ℕ
get_reg s offset = word_at s.regs offset

abbrev pub set_reg : Restore → ℕ → ℕ → Restore
set_reg s offset value = record s { regs = with_word s.regs offset value }

-- Bit 0 of the word, set or cleared.
abbrev pub set_ready : Restore → Bool → Restore
set_ready s ready =
    let word = get_reg s c40 in set_reg s c40 (if ready then bit_or word 1 else word / 2 * 2)

unfoldable pub seed_regs : Restore → Restore
seed_regs s = record s {
  regs = λ i. 0;
  buffer = λ i. 0xff;
  page_addr = 0;
  stream_pos = 0;
  stream_limit = 0;
  stream_base = 0;
  phase = 0;
  mode = 0;
  last_cmd = 0;
  addr_count = 0;
  ecc_count = 0;
  status_ok = true;
}

unfoldable pub page_from_addr : Restore → ℕ
page_from_addr s =
    if ltb s.addr_count 3
    then s.page_addr
    else get_or s.addr_bytes 1 0 + get_or s.addr_bytes 2 0 * 2 ^ 8

unfoldable pub block_from_addr : Restore → ℕ
block_from_addr s =
    if ltb s.addr_count 2
    then s.page_addr / block_pages
    else get_or s.addr_bytes 0 0 / 2 ^ 5 % 8 + get_or s.addr_bytes 1 0 * 2 ^ 3

-- A byte of the page buffer after `nand_restore_fill_page_buffer`.
unfoldable pub page_byte : Medium → ℕ → ℕ → ℕ
page_byte m page i =
    if not m.has_image || leb page_count page
    then 0xff
    else if ltb i page_data
    then (if leb (page * page_data + page_data) m.image_size
        then m.image (page * page_data + i)
        else 0xff)
    else stream_oob_byte m page (i - page_data)

abbrev fill_page_buffer : Restore → ℕ → Restore
fill_page_buffer s page = record s { buffer = page_byte s.medium page }

abbrev rewound : Restore → Restore
rewound s = record s { stream_base = 0; stream_pos = 0; stream_limit = 0 }

unfoldable pub begin_read : Restore → Restore
unfolding page_from_addr
begin_read s =
    let page = page_from_addr s in
    let ok = ltb page page_count in
    let t = rewound (fill_page_buffer (record s { page_addr = page }) page) in
    set_ready (set_reg (record t { status_ok = ok }) c20 (if ok then 1 else 0)) true

unfoldable pub begin_program : Restore → Restore
unfolding page_from_addr
begin_program s =
    let t =
      rewound (record s { page_addr = page_from_addr s; buffer = λ i. 0xff; status_ok = true }) in
    set_ready (set_reg (set_reg t c20 0) cc0 0) true

abbrev pub refuse : Restore → Restore
refuse s = set_ready (set_reg (record s { status_ok = false }) c20 0) true

abbrev refuse_bad : Restore → Restore
refuse_bad s = set_ready (record s { status_ok = false }) true

abbrev pub accept : Restore → Medium → Restore
accept s m = set_ready (set_reg (record s { medium = m; status_ok = true }) c20 1) true

-- The rounds of the loop over the data, which stops at the end of the image.
abbrev pub data_rounds : Medium → ℕ → ℕ
data_rounds m page_off =
    if leb (page_off + page_data) m.image_size then page_data else m.image_size - page_off

-- The medium after the page buffer has been programmed into a page.
abbrev pub programmed : Medium → ℕ → (ℕ → ℕ) → Medium
programmed m page buffer = record m {
  oob =
      if m.has_oob
      then and_loop page_oob 0 (page * page_oob) (λ (i : ℕ). buffer (page_data + i)) m.oob
      else m.oob;
  image = and_loop (data_rounds m (page * page_data)) 0 (page * page_data) buffer m.image;
  dirty = true;
  block_data_state =
      if ltb (page / block_pages) block_count
      then update m.block_data_state (page / block_pages) 1
      else m.block_data_state;
}

unfoldable pub commit_program : Restore → Restore
unfolding physical_bad and_loop
commit_program s =
    if not s.medium.has_image || leb page_count s.page_addr
    then refuse s
    else if physical_bad s.medium (s.page_addr / block_pages)
    then refuse_bad s
    else accept s (programmed s.medium s.page_addr s.buffer)

unfoldable pub commit_erase : Restore → Restore
unfolding physical_bad block_from_addr
commit_erase s =
    let block = block_from_addr s in
    if not s.medium.has_image || leb block_count block
    then refuse s
    else if physical_bad s.medium block
    then refuse_bad s
    else accept s (erased s.medium block)

-- The four words of the check result, cleared, and the word that tells that it is there.
abbrev pub clean_ecc : Restore → Restore
clean_ecc s =
    set_reg (set_reg (set_reg (set_reg (set_reg s ca0 0) (ca0 + 4) 0) (ca0 + 8) 0) (ca0 + 12) 0) cc0
      1

abbrev pub window : Restore → ℕ → ℕ → Restore
window s base limit = record s { stream_base = base; stream_limit = limit }

unfoldable pub prepare_mode : Restore → ℕ → Restore
unfolding begin_read
prepare_mode s mode =
    let t = record s { mode = mode; stream_pos = 0; ecc_count = 0 } in
    if mode == 0x04
    then set_ready (window t (page_data + 8) 8) true
    else if mode == 0x05
    then set_ready (window (if s.last_cmd == 0x00 then begin_read t else t) 0 (page_data + 8)) true
    else if mode == 0x06
    then set_ready (window (clean_ecc t) page_data page_oob) true
    else if mode == 0x07
    then set_ready (window t 0 page_data) true
    else if mode == 0x01
    then set_ready (set_reg t cc0 0) true
    else set_ready t true

-- One byte of the window, and the cursor moved; past the end, 0xFF.
abbrev pub next_byte : Restore → ℕ
next_byte s =
    if ltb s.stream_pos s.stream_limit && ltb (s.stream_base + s.stream_pos) page_raw
    then s.buffer (s.stream_base + s.stream_pos)
    else 0xff

abbrev pub step_on : Restore → Restore
step_on s = record s {
  stream_pos = if ltb s.stream_pos s.stream_limit then s.stream_pos + 1 else s.stream_pos;
}

-- The bytes of a read, least significant first.
unfoldable pub buffer_read : Restore → ℕ → ℕ × Restore
buffer_read s zero = (0, s)
buffer_read s (suc n) = let (rest, t) = buffer_read (step_on s) n in (next_byte s + rest * 2 ^ 8, t)

abbrev pub put_byte : Restore → ℕ → Restore
put_byte s byte = record s {
  buffer =
      if ltb (s.stream_base + s.stream_pos) page_raw
      then update s.buffer (s.stream_base + s.stream_pos) byte
      else s.buffer;
  stream_pos = s.stream_pos + 1;
}

-- The bytes of `value` from byte `i` on, until the window is full.
unfoldable pub write_loop : ℕ → ℕ → ℕ → Restore → Restore
write_loop zero i value s = s
write_loop (suc n) i value s =
    let rest = write_loop n (i + 1) value (put_byte s (u8 (value / 2 ^ (8 * i)))) in
    if leb s.stream_limit s.stream_pos then s else rest

unfoldable pub buffer_write : Restore → ℕ → ℕ → Restore
unfolding write_loop
buffer_write s size value = write_loop size 0 value s
