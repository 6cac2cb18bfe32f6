-- ===== src/Nand/Bursts.antt =====
-- Pages that the guest writes through the stream window of src/hw/nand.c: a burst of 520 bytes and one of 8.
use be.Base.{
  ℕ, zero, suc, ◌+◌, ◌-◌, ◌≤◌, ◌<◌, ◌≡◌, refl, ap, sym, ◌∙◌, true, ◌||◌, List, [], ◌∷◌, ◌++◌, ◌==◌,
  leb, if_elim, arith, length, get_or,
}
use native.Mathlib.Decide.{dec_lt}
use be.Nand.{page_raw, Program}
use be.Nand.Engine.{Engine, latch_addr_state, takes_page}
use be.Nand.Port.{Port, xfer_write}
use be.Nand.Window.{Holds, store_bytes-Holds, burst, burst_bytes, burst_lem}

-- The latched address leaves the program buffer alone.
program-latch : (e : Engine) → (latch_addr_state e).nand.program ≡ e.nand.program
unfolding latch_addr_state
program-latch e =
    if_elim P (takes_page e.last_cmd) (λ _. if_elim P (leb 3 e.addr_count) (λ _. refl) (λ _. refl))
      (λ _.
        if_elim P (e.last_cmd == 0x60) (λ _. if_elim P (leb 2 e.addr_count) (λ _. refl) (λ _. refl))
          (λ _. refl))
  where
    P : Engine → Type 0
    P t = t.nand.program ≡ e.nand.program

mode-latch : (e : Engine) → (latch_addr_state e).mode ≡ e.mode
unfolding latch_addr_state
mode-latch e =
    if_elim P (takes_page e.last_cmd) (λ _. if_elim P (leb 3 e.addr_count) (λ _. refl) (λ _. refl))
      (λ _.
        if_elim P (e.last_cmd == 0x60) (λ _. if_elim P (leb 2 e.addr_count) (λ _. refl) (λ _. refl))
          (λ _. refl))
  where
    P : Engine → Type 0
    P t = t.mode ≡ e.mode

-- The first bytes of two lists, and the others.
get_or-append_left :
    (xs ys : List ℕ) (i : ℕ) → i < length xs → get_or (xs ++ ys) i 0 ≡ get_or xs i 0
get_or-append_left [] ys i lt = elim lt [ ]
get_or-append_left (x ∷ xs) ys zero lt = refl
get_or-append_left (x ∷ xs) ys (suc i) lt = get_or-append_left xs ys i (omega arith)

get_or-append_right : (xs ys : List ℕ) (i : ℕ) → get_or (xs ++ ys) (length xs + i) 0 ≡ get_or ys i 0
get_or-append_right [] ys i = ap (λ (k : ℕ). get_or ys k 0) (omega arith)
get_or-append_right (x ∷ xs) ys i =
    ap (λ (k : ℕ). get_or (x ∷ (xs ++ ys)) k 0) {y = suc (length xs + i)} (omega arith)
    ∙ get_or-append_right xs ys i

-- The engine after a write of a mode.
abbrev in_mode : Port → ℕ → Engine
in_mode p mode = (xfer_write p 0xa464 mode).engine

-- An engine that is ready for a burst of `limit` bytes to the buffer from `base` on.
record IsReady (e : Engine) (base limit : ℕ) : Type 0 where
  stores : (e.mode == 0x06 || e.mode == 0x07) ≡ true
  at_base : e.stream_base ≡ base
  at_start : e.stream_cursor ≡ 0
  at_limit : e.stream_limit ≡ limit

full_burst :
    (ws : List (ℕ × ℕ)) (e : Engine) (base limit : ℕ)
    → IsReady e base limit
    → length (burst_bytes ws) ≡ limit
    → 0 < limit
    → base + limit ≤ page_raw
    → e.nand.program.length ≤ page_raw
    → base ≤ e.nand.program.length
    → Holds e base (burst_bytes ws) (burst ws e)
full_burst ws e base limit r all pos fits long reached =
    rw (burst_lem ws e r.stores (ground (arith, r.at_limit, pos))) (
      store_bytes-Holds (burst_bytes ws) e base (omega (arith, r.at_base, r.at_start))
        (omega (arith, r.at_start, r.at_limit, all)) (omega (arith, all))
        (omega (arith, r.at_limit)) long reached)

first-IsReady : (p : Port) → IsReady (in_mode p 0x07) 0 520
unfolding xfer_write
first-IsReady p = record {
  stores =
      ap (λ (m : ℕ). m == 0x06 || m == 0x07) {y = 7} (mode-latch (record p.engine { mode = 7 }));
  at_base = refl;
  at_start = refl;
  at_limit = refl;
}

second-IsReady : (p : Port) → IsReady (in_mode p 0x06) 520 8
unfolding xfer_write
second-IsReady p = record { stores = refl; at_base = refl; at_start = refl; at_limit = refl }

program-first : (p : Port) → (in_mode p 0x07).nand.program ≡ p.engine.nand.program
unfolding xfer_write
program-first p = program-latch (record p.engine { mode = 7 })

program-second : (p : Port) → (in_mode p 0x06).nand.program ≡ p.engine.nand.program
unfolding xfer_write
program-second p = refl

-- The guest's two bursts: mode 7 with the data and the first spare bytes, then mode 6 with the other spare bytes.
abbrev pub write_page : Port → List (ℕ × ℕ) → List (ℕ × ℕ) → Engine
write_page p body tail =
    let first = xfer_write p 0xa464 0x07 in
    let second = xfer_write (record first { engine = burst body first.engine }) 0xa464 0x06 in
    burst tail second.engine

-- Two bursts of 520 and 8 bytes, in writes of any sizes, leave the 528 bytes in the program buffer in
-- order. Before them the buffer's length is at most 528.
pub write_page_lem :
    (p : Port) (body tail : List (ℕ × ℕ)) (i : ℕ)
    → length (burst_bytes body) ≡ 520
    → length (burst_bytes tail) ≡ 8
    → p.engine.nand.program.length ≤ 528
    → i < 528
    → let g = (write_page p body tail).nand.program in
      (g.buffer i ≡ get_or (burst_bytes body ++ burst_bytes tail) i 0) × (g.length ≡ 528)
write_page_lem p body tail i long short fits lt = (
  elim (dec_lt i 520) [
    | yes early ↦
        h2.before i early
        ∙ ap (λ (g : Program). g.buffer i) (program-second middle)
        ∙ ap (burst body first).nand.program.buffer {y = 0 + i} (omega arith)
        ∙ h1.written i (omega (arith, long))
        ∙ sym (get_or-append_left (burst_bytes body) (burst_bytes tail) i (omega (arith, long)))
    | no late ↦
        ap (burst tail (in_mode middle 0x06)).nand.program.buffer {y = 520 + (i - 520)}
          (omega arith)
        ∙ h2.written (i - 520) (omega (arith, short))
        ∙ sym (get_or-append_right (burst_bytes body) (burst_bytes tail) (i - 520))
        ∙ ap (λ (k : ℕ). get_or (burst_bytes body ++ burst_bytes tail) k 0) (omega (arith, long))
  ],
  omega (arith, h2.reached, h2.long, short),
)
  where
    first : Engine
    first = in_mode p 0x07

    middle : Port
    middle = record (xfer_write p 0xa464 0x07) { engine = burst body first }

    h1 : Holds first 0 (burst_bytes body) (burst body first)
    h1 =
        full_burst body first 0 520 (first-IsReady p) long (omega arith) (omega arith)
          (omega (arith, ap (λ (g : Program). g.length) (program-first p), fits)) (omega arith)

    h2 : Holds (in_mode middle 0x06) 520 (burst_bytes tail) (burst tail (in_mode middle 0x06))
    h2 =
        let same = ap (λ (g : Program). g.length) (program-second middle) in
        full_burst tail (in_mode middle 0x06) 520 8 (second-IsReady middle) short (omega arith)
          (omega arith) (omega (arith, same, h1.long)) (omega (arith, same, h1.reached, long))
