-- ===== src/Restore/Tests.antt =====
-- Tests of the restore engine, and its theorems at an erased chip.
use be.Base.{◌≡◌, refl, true, false, arith, replicate}
use be.Nand.{Medium, physical_bad}
use be.Restore.{Restore, page_from_addr, begin_read, commit_program}
use be.Restore.Inv.{InWindow, write-InWindow}
use be.Restore.Port.{write}
use be.Restore.Pages.{Ready, Blank, begin_read-commit_program}

abbrev erased_medium : Medium
erased_medium = record {
  has_image = true;
  image = λ i. 0xff;
  image_size = 16_777_216;
  has_oob = true;
  oob = λ i. 0xff;
  dirty = false;
  block_data_state = λ b. 0;
}

abbrev filled : Restore
filled = record {
  medium = erased_medium;
  regs = λ i. 0;
  buffer = λ i. 0x5a;
  page_addr = 70;
  stream_pos = 0;
  stream_limit = 512;
  stream_base = 0;
  phase = 3;
  mode = 7;
  last_cmd = 0x80;
  addr_bytes = replicate 4 0;
  addr_count = 0;
  ecc_words = replicate 6 0;
  ecc_count = 0;
  status_ok = true;
}

filled-InWindow : InWindow filled
filled-InWindow = record {
  inside = omega arith;
  cursor = omega arith;
  addresses = omega arith;
  words = omega arith;
}

write-InWindow_example : InWindow (write filled 0xb00 4 0x12345678)
write-InWindow_example = write-InWindow filled 0xb00 4 0x12345678 filled-InWindow

ready : Ready erased_medium 70
unfolding physical_bad
ready = record { there = refl; full = refl; in_chip = omega arith; good = refl }

blank : Blank erased_medium 70
blank = (λ i h. refl, λ i h. refl)

named : page_from_addr filled ≡ 70
unfolding page_from_addr
named = refl

begin_read-commit_program_example : (begin_read (commit_program filled)).buffer 520 ≡ 0x5a
begin_read-commit_program_example =
    begin_read-commit_program filled 520 ready blank refl named (omega arith) (omega arith)
