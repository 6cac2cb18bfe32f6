-- ===== src/Nand.antt =====
-- The NAND flash of src/hw/nand.c: the medium with its spare areas, program and erase, and the
-- streams that read it. Byte arrays are functions from the index; `has_image` and `has_oob` tell
-- which pointers are not NULL. The fields are those that the modelled functions use: the command
-- ports are in Nand/Commands and Nand/Engine, the registers of the engines and the stream window in
-- Nand/Port, and the parity of a page in Nand/Parity. The other registers of `nand_write` and `nand_read`
-- and the strap table are not modelled.
pub mod Commands
pub mod Media
pub mod Streams
pub mod Guards
pub mod Engine
pub mod Transfers
pub mod Parity
pub mod Syndrome
pub mod Port
pub mod Window
pub mod Bursts
mod Tests
use be.Base.{
  ℕ, zero, suc, ◌+◌, ◌-◌, ◌*◌, ◌/◌, ◌%◌, ◌^◌, Bool, true, false, not, ◌&&◌, ◌||◌, List, [], ◌∷◌,
  ◌==◌, ltb, leb, if◌then◌else◌, u8, u32, bit_and, replicate,
}

-- `update m i x` is `m` after `m[i] = x`.
abbrev pub update : (ℕ → ℕ) → ℕ → ℕ → ℕ → ℕ
update m i x = λ (j : ℕ). if j == i then x else m j

abbrev pub page_data : ℕ
page_data = 512

abbrev pub page_oob : ℕ
page_oob = 16

abbrev pub page_raw : ℕ
page_raw = 528

abbrev pub block_pages : ℕ
block_pages = 32

abbrev pub block_count : ℕ
block_count = 1024

abbrev pub page_count : ℕ
page_count = 32768

-- What the chip holds. `block_data_state` is above 0 for an allocated block.
pub record Medium : Type 0 where
  pub has_image : Bool
  pub image : ℕ → ℕ
  pub image_size : ℕ
  pub has_oob : Bool
  pub oob : ℕ → ℕ
  pub dirty : Bool
  pub block_data_state : ℕ → ℕ

pub data State : Type 0 where
  idle read_data read_oob read_id read_status program_data erase_setup : State

-- The buffer of a page program.
pub record Program : Type 0 where
  pub buffer : ℕ → ℕ
  pub column : ℕ
  pub length : ℕ

-- The command machine: the medium, the status that it reports, and the addressed page.
pub record Nand : Type 0 where
  pub medium : Medium
  pub state : State
  pub page_addr : ℕ
  pub column : ℕ
  pub nand_offset : ℕ
  pub xfer_length : ℕ
  pub xfer_cursor : ℕ
  pub addr_cycle : ℕ
  pub last_cmd : ℕ
  pub ready : Bool
  pub status_value : ℕ
  pub program : Program

abbrev pub status_ok : ℕ
status_ok = 0xc0

abbrev pub status_failed : ℕ
status_failed = 0xc1

unfoldable pub image_byte : Medium → ℕ → ℕ
image_byte m off = if not m.has_image || leb m.image_size off then 0xff else m.image off

unfoldable pub block_is_allocated : Medium → ℕ → Bool
block_is_allocated m block =
    if leb block_count block then false else ltb 0 (m.block_data_state block)

-- The spare bytes made up for a data-only image, of an allocated or an erased block.
unfoldable pub tag : Bool → ℕ → ℕ → ℕ
tag allocated block oob_idx =
    if oob_idx == 0
    then 0xaa
    else if oob_idx == 1
    then 0x55
    else if oob_idx == 2
    then (if allocated then 0x0f else 0xff)
    else if oob_idx == 4
    then (if allocated then u8 block else 0xff)
    else if oob_idx == 5
    then (if allocated then u8 (block / 2 ^ 8) else 0xff)
    else if oob_idx == 6
    then (if allocated then 0 else 0xff)
    else if oob_idx == 7
    then (if allocated then 0 else 0xff)
    else 0xff

unfoldable pub stream_oob_byte : Medium → ℕ → ℕ → ℕ
unfolding tag block_is_allocated
stream_oob_byte m page oob_idx =
    let block = page / block_pages in
    if leb page_oob oob_idx || leb page_count page
    then 0xff
    else if m.has_oob
    then m.oob (page * page_oob + oob_idx)
    else if ltb (page % block_pages) 5 && ltb block block_count
    then tag (block_is_allocated m block) block oob_idx
    else 0xff

-- A byte of the stream that starts at `stream_page` and `stream_col`.
unfoldable pub stream_byte : Medium → ℕ → ℕ → ℕ → ℕ
unfolding image_byte stream_oob_byte
stream_byte m stream_page stream_col cursor_pos =
    let absolute = u32 (stream_col + cursor_pos) in
    let page = u32 (stream_page + absolute / page_raw) in
    let in_page = absolute % page_raw in
    if ltb in_page page_data
    then image_byte m (u32 (page * page_data + in_page))
    else stream_oob_byte m page (in_page - page_data)

-- A page's spare bytes mark its block bad: byte 5 written, and no tag of an allocated block.
abbrev bad_mark : Medium → ℕ → Bool
bad_mark m page =
    let o : ℕ → ℕ = λ i. m.oob (page * page_oob + i) in
    not (o 5 == 0xff) && not (o 0 == 0xaa && o 1 == 0x55 && o 2 == 0x0f)

unfoldable pub physical_bad : Medium → ℕ → Bool
physical_bad m block =
    if not m.has_oob || leb block_count block
    then false
    else bad_mark m (block * block_pages) || bad_mark m (block * block_pages + 1)

-- `for (i ...) m[base + i] &= src[i]`, for the `n` indices from `i` on.
unfoldable pub and_loop : ℕ → ℕ → ℕ → (ℕ → ℕ) → (ℕ → ℕ) → ℕ → ℕ
and_loop zero i base src m = m
and_loop (suc n) i base src m =
    and_loop n (i + 1) base src (update m (base + i) (bit_and (m (base + i)) (src i)))

-- The loop over the program buffer that clears bits of the page's spare bytes, for the `n` indices
-- from `j` on.
unfoldable pub spare_loop : ℕ → ℕ → ℕ → Program → (ℕ → ℕ) → ℕ → ℕ
spare_loop zero j page p oob = oob
spare_loop (suc n) j page p oob =
    let col = p.column + j in
    let at = page * page_oob + col - page_data in
    let here = if leb page_data col then update oob at (bit_and (oob at) (p.buffer j)) else oob in
    let rest = spare_loop n (j + 1) page p here in if leb page_raw col then oob else rest

-- How many bytes of the program go to the page's data.
abbrev pub data_limit : Program → ℕ
data_limit p =
    if ltb page_data (p.column + p.length)
    then (if ltb p.column page_data then page_data - p.column else 0)
    else p.length

abbrev pub program_spare : Medium → ℕ → Program → Medium
program_spare m page p = record m {
  oob = if m.has_oob then spare_loop p.length 0 page p m.oob else m.oob;
  dirty = if m.has_oob && not (p.length == 0) then true else m.dirty;
}

-- A page that takes data becomes dirty, and its block allocated.
abbrev pub program_image : Medium → ℕ → Program → Medium
program_image m page p = record m {
  image = and_loop (data_limit p) 0 (page * page_data + p.column) p.buffer m.image;
  dirty = if data_limit p == 0 then m.dirty else true;
  block_data_state =
      if data_limit p == 0
      then m.block_data_state
      else update m.block_data_state (page / block_pages) 1;
}

unfoldable pub commit_program : Nand → Nand
unfolding physical_bad and_loop spare_loop
commit_program s =
    if not s.medium.has_image || leb page_count s.page_addr
    then s
    else if physical_bad s.medium (s.page_addr / block_pages)
    then record s { status_value = status_failed }
    else record s {
      medium = program_image (program_spare s.medium s.page_addr s.program) s.page_addr s.program;
    }

-- `memset(m + first, 0xFF, n)`.
abbrev pub blank : ℕ → ℕ → (ℕ → ℕ) → ℕ → ℕ
blank first n m = λ (i : ℕ). if leb first i && ltb i (first + n) then 0xff else m i

abbrev pub erased : Medium → ℕ → Medium
erased m block =
    let start_page = block * block_pages in
    record m {
      oob =
          if m.has_oob then blank (start_page * page_oob) (block_pages * page_oob) m.oob else m.oob;
      image = blank (start_page * page_data) (block_pages * page_data) m.image;
      dirty = true;
      block_data_state = update m.block_data_state block 0;
    }

unfoldable pub commit_erase : Nand → Nand
unfolding physical_bad
commit_erase s =
    let block = s.page_addr / block_pages in
    if not s.medium.has_image || leb block_count block
    then s
    else if physical_bad s.medium block
    then record s { status_value = status_failed }
    else record s { medium = erased s.medium block }

-- The part of `nand_init` that sets up the medium: the blocks that the loaded image reaches are
-- allocated.
unfoldable init_blocks : Bool → ℕ → ℕ → ℕ → ℕ
init_blocks has_image size valid_size block =
    let valid = if leb valid_size size then valid_size else size in
    if has_image && ltb (block * block_pages * page_data) valid then 1 else 0
