-- ===== src/Nand/Tests.antt =====
-- Tests of the NAND flash, and its theorems at an erased chip.
use be.Base.{
  ℕ, ◌+◌, ◌%◌, length, List, ◌++◌, ◌≡◌, refl, true, false, not, ◌&&◌, arith, [], ◌∷◌, replicate,
  get_or, if◌then◌else◌, ◌==◌,
}
use be.Base.Bits.{test_bit}
use be.Nand.{
  Nand, Medium, Program, program_data, physical_bad, commit_program, commit_erase, stream_byte,
  block_is_allocated,
}
use be.Nand.Commands.{legacy_command}
use be.Nand.Media.{Writable, program_only_clears}
use be.Nand.Streams.{stream-program-erase}
use be.Nand.Guards.{give, address, append, accesses, Bounded, unconfirmed_keeps, accesses-Bounded}
use be.Nand.Engine.{Engine, commit_phase}
use be.Nand.Transfers.{programs_alike}
use be.Nand.Port.{Port}
use be.Nand.Parity.{generator, physical_ecc, page_parity}
use be.Nand.Parity.Roots.{evaluate}
use be.Nand.Parity.Codeword.{message, raw_byte}
use be.Nand.Syndrome.{agrees, physical_ecc_lem}
use be.Nand.Window.{burst_bytes}
use be.Nand.Bursts.{write_page, write_page_lem}

abbrev some_program : Program
some_program = record { buffer = λ i. 0x5a; column = 0; length = 16 }

abbrev spare_program : Program
spare_program = record { buffer = λ i. 0x5a; column = 510; length = 8 }

abbrev erased_medium : Medium
erased_medium = record {
  has_image = true;
  image = λ i. 0xff;
  image_size = 16_777_216;
  has_oob = true;
  oob = λ i. 0xff;
  dirty = false;
  block_data_state = λ b. 0;
}

-- Spare byte 5 of every page is written.
abbrev bad_medium : Medium
bad_medium = record erased_medium { oob = λ i. 0 }

abbrev bare_medium : Medium
bare_medium = record erased_medium { has_oob = false; block_data_state = λ b. 1 }

abbrev chip : Nand
chip = record {
  medium = erased_medium;
  state = program_data;
  page_addr = 70;
  column = 0;
  nand_offset = 0;
  xfer_length = 0;
  xfer_cursor = 0;
  addr_cycle = 0;
  last_cmd = 0;
  ready = true;
  status_value = 0xc0;
  program = spare_program;
}

abbrev engine : Engine
engine = record {
  nand = chip;
  addr_bytes = replicate 4 0;
  addr_count = 0;
  last_cmd = 0x80;
  phase = 3;
  pending_byte = 0x10;
  data_bytes = replicate 8 0;
  data_count = 0;
  data_pos = 0;
  mode = 5;
  stream_page = 70;
  stream_col = 0;
  stream_base = 0;
  stream_cursor = 518;
  stream_limit = 520;
  stream_active = true;
  burst_520 = true;
  stream_stall = false;
  boot_addr_bytes = replicate 4 0;
  boot_addr_count = 0;
  boot_ecc_count = 0;
  boot_mode = 0;
  boot_ready = true;
  boot_status = 1;
  boot_status2 = 0;
}

chip-Writable : Writable chip
unfolding physical_bad
chip-Writable = record { there = refl; in_chip = omega arith; good = refl }

chip-Bounded : Bounded (record chip { program = some_program })
chip-Bounded = record { fill = omega arith; start = λ _. (refl, refl) }

stream-program-erase_example :
    stream_byte
      (commit_program (record (commit_erase chip) { program = some_program })).medium
      70
      0
      3
    ≡ 0x5a
stream-program-erase_example =
    stream-program-erase chip some_program 3 chip-Writable refl (omega arith) (omega arith)
      (omega arith) (omega arith)

unconfirmed_keeps_example :
    (accesses (give 0x80 ∷ address 5 ∷ append 0x1234 2 ∷ give 0x70 ∷ []) chip).medium
    ≡ erased_medium
unconfirmed_keeps_example =
    unconfirmed_keeps (give 0x80 ∷ address 5 ∷ append 0x1234 2 ∷ give 0x70 ∷ []) chip refl

accesses-Bounded_example : Bounded (
    accesses
      (give 0x80 ∷ address 5 ∷ append 0x1234 2 ∷ [])
      (record chip { program = some_program }))
accesses-Bounded_example =
    accesses-Bounded (give 0x80 ∷ address 5 ∷ append 0x1234 2 ∷ [])
      (record chip { program = some_program }) chip-Bounded

program_only_clears_example :
    (test_bit ((commit_program chip).medium.image 36_350) 1 && not (test_bit 0xff 1)) ≡ false
program_only_clears_example = program_only_clears chip 36_350 1

bad_chip : physical_bad bad_medium 2 ≡ true
unfolding physical_bad
bad_chip = refl

allocated : block_is_allocated bare_medium 2 ≡ true
unfolding block_is_allocated
allocated = refl

programs_alike_example :
    let a = (commit_phase engine).nand in
    let b = legacy_command chip 0x10 in
    (a.medium ≡ b.medium)
    × (a.status_value ≡ b.status_value)
    × (a.state ≡ b.state)
    × (get_or (commit_phase engine).data_bytes 0 0 ≡ b.status_value)
    × ((commit_phase engine).data_count ≡ 1)
programs_alike_example = programs_alike engine refl refl

-- 130 words of 4 bytes and two more.
abbrev words : List (ℕ × ℕ)
words = replicate 130 (4, 0x04030201)

abbrev port : Port
port = record {
  engine = engine;
  xfer_regs = λ i. 0;
  xfer_buffer = λ i. 0;
  addr24 = 0;
  ecc_words = λ i. 0;
  ecc_count = 0;
  boot_regs = λ i. 0;
  boot_ecc_words = λ i. 0;
}

write_page_lem_example :
    ((write_page port words (replicate 2 (4, 5))).nand.program.buffer 521
      ≡ get_or (burst_bytes words ++ burst_bytes (replicate 2 (4, 5))) 521 0)
    × ((write_page port words (replicate 2 (4, 5))).nand.program.length ≡ 528)
write_page_lem_example =
    write_page_lem port words (replicate 2 (4, 5)) 521 refl refl (omega arith) (omega arith)

-- The generator is the product of `x + root` for the first six powers of the field's generator.
generator-roots : generator ≡ 288 ∷ 455 ∷ 17 ∷ 1006 ∷ 806 ∷ 63 ∷ 1 ∷ []
unfolding generator
generator-roots = refl

-- The parity of a page with one byte 1 at the end of its first eight spare bytes.
parity-one :
    (physical_ecc
      (record erased_medium { image = λ i. 0; oob = λ i. if i == 55 then 1 else 0 })
      3
      (λ i. 0)).status
    ≡ 1
unfolding physical_ecc
parity-one = refl

-- A page whose bytes count up, and words that are not its parity.
abbrev counting : Medium
counting = record erased_medium { image = λ i. i % 256; oob = λ i. 7; has_oob = true }

physical_ecc_lem_example :
    ((physical_ecc counting 3 (λ i. i + 1)).status
      ≡ (if agrees counting 3 (λ i. i + 1) then 0 else 1))
    × (length (page_parity counting 3) ≡ 6)
    × (evaluate 5 (page_parity counting 3 ++ message (raw_byte counting 3) 520) ≡ 0)
physical_ecc_lem_example =
    physical_ecc_lem counting 3 (λ i. i + 1) 5 refl (omega arith) (omega arith)
