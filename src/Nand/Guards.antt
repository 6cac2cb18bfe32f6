-- ===== src/Nand/Guards.antt =====
-- The guards of the command port of src/hw/nand.c: which commands reach the medium, and how far the
-- buffer of a page program fills.
use be.Base.{
  ℕ, zero, suc, ◌+◌, ◌*◌, ◌/◌, ◌^◌, ◌≤◌, ◌≡◌, refl, sym, ◌∙◌, Bool, true, false, not, ◌&&◌, ◌||◌,
  ◌==◌, leb, if◌then◌else◌, if_elim, arith, u8, List, [], ◌∷◌,
}
use be.Nand.{
  Nand, State, idle, read_data, read_oob, read_id, read_status, program_data, erase_setup, Program,
  commit_program, commit_erase, page_raw, update, status_ok,
}
use be.Nand.Commands.{
  is_program, is_erase, is_read_data, is_read_oob, setup_transfer, noted, finish, command,
  legacy_command, address_byte, legacy_address, append_loop, program_append,
}

-- A command leaves the medium alone, unless it confirms a program that has been set up, or an erase.
medium-legacy_command :
    (s : Nand) (cmd : ℕ)
    → (cmd == 0x10 && is_program s.state) ≡ false
    → (cmd == 0xd0 && is_erase s.state) ≡ false
    → (legacy_command s cmd).medium ≡ s.medium
unfolding legacy_command command
medium-legacy_command s cmd no_program no_erase = ground arith

-- Address cycles and program data leave the medium alone.
medium-legacy_address : (s : Nand) (abyte : ℕ) → (legacy_address s abyte).1.medium ≡ s.medium
unfolding legacy_address setup_transfer
medium-legacy_address s abyte =
    if_elim P (leb 3 u.addr_cycle && (is_read_data u.state || is_read_oob u.state)) (λ _. refl)
      (λ _. if_elim P (u.addr_cycle == 1 && is_program u.state) (λ _. refl) (λ _. refl))
  where
    u : Nand
    u = record (address_byte s abyte) { addr_cycle = u8 (s.addr_cycle + 1) }

    P : Bool × Nand → Type 0
    P r = r.1.medium ≡ s.medium

-- What the guest does at the port.
pub data Access : Type 0 where
  give : ℕ → Access
  address : ℕ → Access
  append : ℕ → ℕ → Access

unfoldable pub access : Access → Nand → Nand
access (give cmd) s = legacy_command s cmd
access (address abyte) s = (legacy_address s abyte).1
access (append value size) s = program_append s value size

unfoldable pub accesses : List Access → Nand → Nand
accesses [] s = s
accesses (a ∷ l) s = accesses l (access a s)

-- An access that is not the confirmation of a program or of an erase.
abbrev harmless : Access → Bool
harmless (give cmd) = not (cmd == 0x10) && not (cmd == 0xd0)
harmless _ = true

abbrev all_harmless : List Access → Bool
all_harmless [] = true
all_harmless (a ∷ l) = harmless a && all_harmless l

access-harmless : (a : Access) (s : Nand) → harmless a ≡ true → (access a s).medium ≡ s.medium
unfolding access program_append
access-harmless (give cmd) s h = medium-legacy_command s cmd (ground arith) (ground arith)
access-harmless (address abyte) s h = medium-legacy_address s abyte
access-harmless (append value size) s h = refl

-- Whatever commands, addresses and data are written to the command port, other than the two
-- commands that confirm a program or an erase, the chip keeps its contents.
pub unconfirmed_keeps :
    (l : List Access) (s : Nand) → all_harmless l ≡ true → (accesses l s).medium ≡ s.medium
unfolding accesses
unconfirmed_keeps [] s h = refl
unconfirmed_keeps (a ∷ l) s h =
    unconfirmed_keeps l (access a s) (ground arith) ∙ access-harmless a s (ground arith)

-- The buffer of a program never overflows, and starts at column 0 while it is filled.
pub record Bounded (s : Nand) : Type 0 where
  pub fill : s.program.column + s.program.length ≤ page_raw
  pub start : is_program s.state ≡ true → (s.column ≡ 0) × (s.program.column ≡ 0)

append-Bounded :
    (n i value : ℕ) (p : Program)
    → p.column + p.length ≤ page_raw
    → ((append_loop n i value p).column ≡ p.column)
      × ((append_loop n i value p).column + (append_loop n i value p).length ≤ page_raw)
unfolding append_loop
append-Bounded zero i value p h = (refl, h)
append-Bounded (suc n) i value p h =
    if_elim (λ (q : Program). (q.column ≡ p.column) × (q.column + q.length ≤ page_raw))
      (leb page_raw (p.column + p.length)) (λ _. (refl, h))
      (λ room.
        append-Bounded n (i + 1) value
          (record p {
            buffer = update p.buffer p.length (u8 (value / 2 ^ (8 * i)));
            length = p.length + 1;
          })
          (ground arith))

program-commit_program : (s : Nand) → (commit_program s).program ≡ s.program
unfolding commit_program
program-commit_program s = ground arith

program-commit_erase : (s : Nand) → (commit_erase s).program ≡ s.program
unfolding commit_erase
program-commit_erase s = ground arith

finish-Bounded : (s t : Nand) → t.program ≡ s.program → Bounded s → Bounded (finish t)
finish-Bounded s t e v = record { fill = rw e v.fill; start = λ p. absurd (no p) }
  where
    no : false ≡ true → ⊥
    no p = ground arith

-- A command that starts a program empties the buffer; the others leave it, and end or do not start a
-- program.
command-Bounded : (s : Nand) (cmd : ℕ) → Bounded s → Bounded (legacy_command s cmd)
unfolding legacy_command command setup_transfer
command-Bounded s cmd v =
    if_elim Bounded (cmd == 0x00) (λ _. ground arith)
      (λ _.
        if_elim Bounded (cmd == 0x01) (λ _. ground arith)
          (λ _.
            if_elim Bounded (cmd == 0x50) (λ _. ground arith)
              (λ _.
                if_elim Bounded (cmd == 0x90) (λ _. ground arith)
                  (λ _.
                    if_elim Bounded (cmd == 0x70) (λ _. ground arith)
                      (λ _.
                        if_elim Bounded (cmd == 0x80) (λ _. ground arith)
                          (λ _.
                            if_elim Bounded (cmd == 0x60) (λ _. ground arith)
                              (λ _.
                                if_elim Bounded (cmd == 0x10)
                                  (λ _.
                                    finish-Bounded s
                                      (if is_program s.state then commit_program t else t)
                                      programmed v)
                                  (λ _.
                                    if_elim Bounded (cmd == 0xd0)
                                      (λ _.
                                        finish-Bounded s
                                          (if is_erase s.state then commit_erase t else t) wiped v)
                                      (λ _. finish-Bounded s (noted s cmd) refl v)))))))))
  where
    t : Nand
    t = record (noted s cmd) { status_value = status_ok }

    programmed : (if is_program s.state then commit_program t else t).program ≡ s.program
    programmed =
        if_elim (λ (u : Nand). u.program ≡ s.program) (is_program s.state)
          (λ _. program-commit_program t) (λ _. refl)

    wiped : (if is_erase s.state then commit_erase t else t).program ≡ s.program
    wiped =
        if_elim (λ (u : Nand). u.program ≡ s.program) (is_erase s.state)
          (λ _. program-commit_erase t) (λ _. refl)

is_read_program : (p : State) → is_program p ≡ true → is_read_data p ≡ false
is_read_program idle e = refl
is_read_program read_data e = sym e
is_read_program read_oob e = refl
is_read_program read_id e = refl
is_read_program read_status e = refl
is_read_program program_data e = refl
is_read_program erase_setup e = refl

address-Bounded : (s : Nand) (abyte : ℕ) → Bounded s → Bounded (legacy_address s abyte).1
unfolding legacy_address setup_transfer
address-Bounded s abyte v =
    if_elim P (leb 3 u.addr_cycle && (is_read_data u.state || is_read_oob u.state))
      (λ _. record { fill = v.fill; start = start_u })
      (λ _.
        if_elim P (u.addr_cycle == 1 && is_program u.state) (λ e. set_column (ground arith))
          (λ _. record { fill = v.fill; start = start_u }))
  where
    u : Nand
    u = record (address_byte s abyte) { addr_cycle = u8 (s.addr_cycle + 1) }

    P : Bool × Nand → Type 0
    P r = Bounded r.1

    same_column : is_program s.state ≡ true → u.column ≡ s.column
    same_column p = ground (arith, is_read_program s.state p)

    start_u : is_program s.state ≡ true → (u.column ≡ 0) × (u.program.column ≡ 0)
    start_u p = (same_column p ∙ (v.start p).0, (v.start p).1)

    set_column :
        is_program s.state ≡ true
        → Bounded (record u { program = record u.program { column = u.column } })
    set_column p = ground (arith, same_column p, v.start p)

access-Bounded : (a : Access) (s : Nand) → Bounded s → Bounded (access a s)
unfolding access program_append
access-Bounded (give cmd) s v = command-Bounded s cmd v
access-Bounded (address abyte) s v = address-Bounded s abyte v
access-Bounded (append value size) s v =
    let (same, fill) = append-Bounded size 0 value s.program v.fill in
    record { fill = fill; start = λ p. ((v.start p).0, same ∙ (v.start p).1) }

-- Whatever is written to the command port, the bytes of a program stay within the page buffer,
-- and a program that is being filled starts at column 0, if that was so before.
pub accesses-Bounded : (l : List Access) (s : Nand) → Bounded s → Bounded (accesses l s)
unfolding accesses
accesses-Bounded [] s v = v
accesses-Bounded (a ∷ l) s v = accesses-Bounded l (access a s) (access-Bounded a s v)

-- The column that a guest gives for a program is dropped: after the set-up command and the column
-- byte, whatever it is, the program starts at column 0.
program_column :
    (s : Nand) (abyte : ℕ) → (legacy_address (legacy_command s 0x80) abyte).1.program.column ≡ 0
unfolding legacy_address legacy_command command setup_transfer
program_column s abyte = refl
