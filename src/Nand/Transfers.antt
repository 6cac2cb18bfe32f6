-- ===== src/Nand/Transfers.antt =====
-- The transfer engine of src/hw/nand.c against the command port, and its streams.
use mathlib.Core.Path.{ap₂}
use be.Base.{
  ℕ, zero, suc, ◌+◌, ◌/◌, ◌^◌, ◌<◌, ◌≡◌, refl, sym, ap, Bool-cases, ◌∙◌, inl, inr, Bool, true,
  false, not, ◌&&◌, ◌||◌, ◌==◌, ltb, leb, if◌then◌else◌, if_elim, arith, u32, List, [], ◌∷◌, ◌++◌,
  get_or,
}
use be.Nand.{Nand, commit_program, physical_bad, stream_byte, status_ok, page_count, block_pages}
use be.Nand.Commands.{is_program, legacy_command, command}
use be.Nand.Engine.{
  Engine, commit_phase, engine_command, past_limit, read_loop, stream_read, dma_bytes,
  stream_read_dma,
}

-- A program confirmed in the command phase of the transfer engine leaves the medium, the status
-- and the command state as one confirmed at the command port does, and queues that status as the
-- one byte to be read.
pub programs_alike :
    (s : Engine)
    → s.phase ≡ 0x03
    → s.pending_byte ≡ 0x10
    → let a = (commit_phase s).nand in
      let b = legacy_command s.nand 0x10 in
      (a.medium ≡ b.medium)
      × (a.status_value ≡ b.status_value)
      × (a.state ≡ b.state)
      × (get_or (commit_phase s).data_bytes 0 0 ≡ b.status_value)
      × ((commit_phase s).data_count ≡ 1)
unfolding commit_phase engine_command legacy_command command commit_program
programs_alike s p c = rw (p, c) (same.0, same.1, refl, same.1, refl)
  where
    a : Nand
    a = record s.nand { status_value = status_ok }

    b : Nand
    b = record s.nand {
      xfer_cursor = 0;
      addr_cycle = 0;
      last_cmd = 0x10;
      ready = false;
      status_value = status_ok;
    }

    Alike : Nand → Nand → Type 0
    Alike x y = (x.medium ≡ y.medium) × (x.status_value ≡ y.status_value)

    committed : Alike (commit_program a) (commit_program b)
    committed = elim (Bool-cases (not s.nand.medium.has_image || leb page_count s.nand.page_addr)) [
      | inl e ↦ rw e (refl, refl)
      | inr e ↦ elim (Bool-cases (physical_bad s.nand.medium (s.nand.page_addr / block_pages))) [
        | inl f ↦ rw (e, f) (refl, refl)
        | inr f ↦ rw (e, f) (refl, refl)
      ]
    ]

    same :
        Alike
          (if is_program s.nand.state then commit_program a else a)
          (if is_program s.nand.state then commit_program b else b)
    same = elim (Bool-cases (is_program s.nand.state)) [
      | inl e ↦ rw e committed
      | inr e ↦ rw e (refl, refl)
    ]

-- Past the end of a burst of 520 bytes in mode 5 a read hangs the bus, and no other read does.
stall-read_loop :
    (n i : ℕ) (s : Engine)
    → s.stream_cursor + i + n < 2 ^ 32
    → (read_loop n i s).1 ≡ (
        s.burst_520
        && s.mode == 0x05
        && not (s.stream_limit == 0)
        && ltb s.stream_limit (s.stream_cursor + i + n)
        && not (n == 0))
unfolding read_loop
stall-read_loop zero i s h = ground arith
stall-read_loop (suc n) i s h =
    if_elim (λ (r : ℕ × Bool). r.1 ≡ want) (past_limit s i)
      (λ past.
        ap (λ b. (s.burst_520 && s.mode == 0x05) || b) (stall-read_loop n (i + 1) s (omega arith))
        ∙ ground arith)
      (λ within. stall-read_loop n (i + 1) s (omega arith) ∙ ground arith)
  where
    want : Bool
    want =
        s.burst_520
        && s.mode == 0x05
        && not (s.stream_limit == 0)
        && ltb s.stream_limit (s.stream_cursor + i + suc n)
        && not (suc n == 0)

-- A read of the stream window hangs the bus exactly if a burst is limited, the mode is 5 and the
-- read goes past the limit; a bus that hangs goes on hanging.
pub stall_lem :
    (s : Engine) (size : ℕ)
    → s.stream_cursor + size < 2 ^ 32
    → (stream_read s size).1.stream_stall ≡ (
        s.stream_stall
        || (s.burst_520
            && s.mode == 0x05
            && not (s.stream_limit == 0)
            && ltb s.stream_limit (s.stream_cursor + size)
            && not (size == 0)))
unfolding stream_read
stall_lem s size h =
    ap (λ b. s.stream_stall || b) (stall-read_loop size 0 s (omega arith) ∙ ground arith)

dma_from :
    (n i j : ℕ) (s : Engine)
    → dma_bytes n (i + j) s ≡ dma_bytes n i (record s { stream_cursor = u32 (s.stream_cursor + j) })
unfolding dma_bytes
dma_from zero i j s = refl
dma_from (suc n) i j s =
    ap₂ ◌∷◌ (ap (λ (c : ℕ). stream_byte s.nand.medium s.stream_page s.stream_col c) (omega arith))
      (ap (λ (k : ℕ). dma_bytes n k s) (omega arith) ∙ dma_from n (i + 1) j s)

dma_append :
    (n a b i : ℕ) (s : Engine)
    → a + b ≡ n
    → dma_bytes n i s ≡ dma_bytes a i s ++ dma_bytes b (i + a) s
unfolding dma_bytes
dma_append n zero b i s e =
    ap (λ (m : ℕ). dma_bytes m i s) {x = n} {y = b} (omega arith)
    ∙ ap (λ (k : ℕ). dma_bytes b k s) {x = i} {y = i + 0} (omega arith)
dma_append zero (suc a) b i s e = absurd (omega arith)
dma_append (suc n) (suc a) b i s e =
    ap (λ l. stream_byte s.nand.medium s.stream_page s.stream_col (u32 (s.stream_cursor + i)) ∷ l)
      (dma_append n a b (i + 1) s (omega arith)
        ∙ ap (λ (k : ℕ). dma_bytes a (i + 1) s ++ dma_bytes b k s) (omega arith))

unfoldable moved : Engine → ℕ → Engine
moved s n = record s { stream_cursor = u32 (s.stream_cursor + n) }

dma_active :
    (s : Engine) (n : ℕ)
    → s.stream_active ≡ true
    → stream_read_dma s n ≡ (dma_bytes n 0 s, moved s n)
unfolding stream_read_dma moved
dma_active s n on =
    if_elim (λ r. r ≡ (dma_bytes n 0 s, moved s n)) (not s.stream_active) (λ off. ground arith)
      (λ _. refl)

dma_inactive : (s : Engine) (n : ℕ) → s.stream_active ≡ false → stream_read_dma s n ≡ ([], s)
unfolding stream_read_dma
dma_inactive s n off =
    if_elim (λ r. r ≡ ([], s)) (not s.stream_active) (λ _. refl) (λ on. ground arith)

-- A second read of the stream after a first one, with the bytes of both.
unfoldable pub read_on : ℕ → List ℕ × Engine → List ℕ × Engine
read_on b (first, t) = let (second, u) = stream_read_dma t b in (first ++ second, u)

-- A stream read by DMA in two parts gives the bytes, and leaves the state, of one read of their
-- total length, whether the stream is active or not.
pub dma_split : (s : Engine) (a b : ℕ) → stream_read_dma s (a + b) ≡ read_on b (stream_read_dma s a)
unfolding read_on moved
dma_split s a b = elim (Bool-cases s.stream_active) [
  | inl on ↦
      dma_active s (a + b) on
      ∙ ap₂ (λ l u. (l, u)) bytes cursor
      ∙ sym (
          ap (read_on b) (dma_active s a on)
          ∙ ap (λ r. (dma_bytes a 0 s ++ r.0, r.1)) (dma_active (moved s a) b (still on)))
  | inr off ↦
      dma_inactive s (a + b) off
      ∙ sym (ap (read_on b) (dma_inactive s a off) ∙ dma_inactive s b off)
]
  where
    still : s.stream_active ≡ true → (moved s a).stream_active ≡ true
    still on = on

    bytes : dma_bytes (a + b) 0 s ≡ dma_bytes a 0 s ++ dma_bytes b 0 (moved s a)
    bytes = dma_append (a + b) a b 0 s refl ∙ ap (λ l. dma_bytes a 0 s ++ l) (dma_from b 0 a s)

    cursor : moved s (a + b) ≡ moved (moved s a) b
    cursor = ap (λ (c : ℕ). record s { stream_cursor = c }) (omega arith)
