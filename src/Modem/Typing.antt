-- ===== src/Modem/Typing.antt =====
-- What is typed to the modem of src/hw/modem.c, character by character.
use mathlib.Core.List.{append-nil, append_assoc}
use be.Base.{
  ℕ, ◌+◌, ◌≤◌, ◌<◌, ◌≡◌, refl, sym, ap, ◌∙◌, Bool, true, false, ◌&&◌, ◌||◌, List, [], ◌∷◌, ◌++◌,
  ◌==◌, ltb, leb, if◌then◌else◌, if_elim, arith, length, length-append,
}
use be.Modem.{Modem, push}
use be.Modem.Line.{execute, command_byte, drop_last}
use be.Modem.Uart.{write, write_data, dlab}

-- Characters that the command buffer takes.
abbrev printable : List ℕ → Bool
printable [] = true
printable (b ∷ s) = leb 32 b && ltb b 127 && printable s

-- The guest writes the characters to the data register.
unfoldable pub type_in : (List ℕ → Bool) → Modem → List ℕ → Modem
type_in dial m [] = m
type_in dial m (b ∷ s) = type_in dial (write dial m 0 b) s

-- The modem with `c` typed so far.
abbrev pub typed : Modem → List ℕ → Modem
typed m c = record m { cmd = c; thre_irq = true }

-- The modem waits for commands, and does not echo.
pub record Quiet (m : Modem) : Type 0 where
  pub off_line : m.online ≡ false
  pub no_gps : m.gps ≡ false
  pub no_echo : m.echo ≡ false
  pub no_latch : dlab m ≡ false

-- A command byte where nothing is echoed.
command_lem :
    (dial : List ℕ → Bool) (m : Modem) (c : List ℕ) (b : ℕ)
    → m.echo ≡ false
    → command_byte dial (typed m c) b ≡ (
        if b == 13
        then execute dial c (typed m [])
        else if b == 8 || b == 127
        then typed m (drop_last c)
        else if leb 32 b && ltb b 127 && ltb (length c + 1) 96
        then typed m (c ++ (b ∷ []))
        else typed m c)
unfolding command_byte
command_lem dial m c b no_echo = ap rest echo_off
  where
    rest : Modem → Modem
    rest t =
        if b == 13
        then execute dial t.cmd (record t { cmd = [] })
        else if b == 8 || b == 127
        then record t { cmd = drop_last t.cmd }
        else if leb 32 b && ltb b 127 && ltb (length t.cmd + 1) 96
        then record t { cmd = t.cmd ++ (b ∷ []) }
        else t

    echo_off : (if m.echo then push (typed m c) b else typed m c) ≡ typed m c
    echo_off =
        if_elim (λ (t : Modem). t ≡ typed m c) m.echo (λ on. absurd (ground (arith, no_echo)))
          (λ _. refl)

-- A write to the data register of a modem that waits for commands.
write_lem :
    (dial : List ℕ → Bool) (m : Modem) (c : List ℕ) (b : ℕ)
    → Quiet m
    → write dial (typed m c) 0 b ≡ record (command_byte dial (typed m c) b) { thre_irq = true }
unfolding write write_data
write_lem dial m c b q =
    if_elim P (dlab m) (λ latch. absurd (ground (arith, q.no_latch)))
      (λ _.
        if_elim P (m.online || m.gps) (λ on. absurd (ground (arith, q.off_line, q.no_gps)))
          (λ _. refl))
  where
    P : Modem → Type 0
    P t = t ≡ record (command_byte dial (typed m c) b) { thre_irq = true }

one_byte :
    (dial : List ℕ → Bool) (m : Modem) (c : List ℕ) (b : ℕ)
    → Quiet m
    → (leb 32 b && ltb b 127) ≡ true
    → length c < 95
    → write dial (typed m c) 0 b ≡ typed m (c ++ (b ∷ []))
one_byte dial m c b q fine room =
    write_lem dial m c b q
    ∙ ap (λ (t : Modem). record t { thre_irq = true }) (command_lem dial m c b q.no_echo ∙ stored)
  where
    P : Modem → Type 0
    P t = t ≡ typed m (c ++ (b ∷ []))

    stored :
        (if b == 13
          then execute dial c (typed m [])
          else if b == 8 || b == 127
          then typed m (drop_last c)
          else if leb 32 b && ltb b 127 && ltb (length c + 1) 96
          then typed m (c ++ (b ∷ []))
          else typed m c)
        ≡ typed m (c ++ (b ∷ []))
    stored =
        if_elim P (b == 13) (λ cr. absurd (ground (arith, fine)))
          (λ _.
            if_elim P (b == 8 || b == 127) (λ del. absurd (ground (arith, fine)))
              (λ _.
                if_elim P (leb 32 b && ltb b 127 && ltb (length c + 1) 96) (λ _. refl)
                  (λ no. absurd (ground (arith, fine, room)))))

type_in_lem :
    (dial : List ℕ → Bool) (m : Modem) (c s : List ℕ)
    → Quiet m
    → printable s ≡ true
    → length c + length s ≤ 95
    → type_in dial (typed m c) s ≡ typed m (c ++ s)
unfolding type_in
type_in_lem dial m c [] q fine h = ap (typed m) (sym (append-nil c))
type_in_lem dial m c (b ∷ s) q fine h =
    ap (λ t. type_in dial t s) (one_byte dial m c b q (ground (arith, fine)) (omega (arith, h)))
    ∙ type_in_lem dial m (c ++ (b ∷ [])) s q (ground (arith, fine))
        (omega (arith, h, length-append c (b ∷ [])))
    ∙ ap (typed m) (append_assoc c (b ∷ []) s)

-- A line of at most 95 printable characters, typed at the data register of a modem that waits for commands
-- and does not echo, is executed as typed when the carriage return comes.
pub typed_line :
    (dial : List ℕ → Bool) (m : Modem) (s : List ℕ)
    → Quiet m
    → printable s ≡ true
    → length s ≤ 95
    → write dial (type_in dial (typed m []) s) 0 13
      ≡ record (execute dial s (typed m [])) { thre_irq = true }
typed_line dial m s q fine h =
    ap (λ t. write dial t 0 13) (type_in_lem dial m [] s q fine (omega (arith, h)))
    ∙ write_lem dial m s 13 q
    ∙ ap (λ (t : Modem). record t { thre_irq = true }) (command_lem dial m s 13 q.no_echo)
