-- ===== src/Nand/Window.antt =====
-- Writes to the stream window of src/hw/nand.c, by their bytes.
use be.Base.{
  ℕ, zero, suc, ◌+◌, ◌≤◌, ◌<◌, ◌≡◌, refl, ap, sym, ◌∙◌, true, false, not, ◌&&◌, ◌||◌, List, [], ◌∷◌,
  ◌++◌, ◌==◌, ltb, leb, if_elim, arith, length, get_or, u32, Bool-cases, inl, inr,
}
use be.Nand.{page_raw}
use be.Nand.Engine.{Engine}
use be.Nand.Port.{window_write, store_bytes, store_byte, lanes}

-- The writes of a burst: sizes and values.
abbrev pub burst : List (ℕ × ℕ) → Engine → Engine
burst [] e = e
burst ((size, value) ∷ ws) e = burst ws (window_write e size value)

-- Their bytes.
abbrev pub burst_bytes : List (ℕ × ℕ) → List ℕ
burst_bytes [] = []
burst_bytes ((size, value) ∷ ws) = lanes size value ++ burst_bytes ws

full_stop :
    (ys : List ℕ) (e : Engine) → leb e.stream_limit e.stream_cursor ≡ true → store_bytes ys e ≡ e
unfolding store_bytes
full_stop [] e full = refl
full_stop (y ∷ ys) e full =
    if_elim (λ (t : Engine). t ≡ e) (leb e.stream_limit e.stream_cursor) (λ _. refl)
      (λ room. absurd (ground (arith, full, room)))

store_bytes-append :
    (xs ys : List ℕ) (e : Engine) → store_bytes (xs ++ ys) e ≡ store_bytes ys (store_bytes xs e)
unfolding store_bytes
store_bytes-append [] ys e = refl
store_bytes-append (x ∷ xs) ys e = elim (Bool-cases (leb e.stream_limit e.stream_cursor)) [
  | inl full ↦ rw full (sym (full_stop ys e full))
  | inr room ↦ rw room (store_bytes-append xs ys (store_byte e x))
]

-- What writing to the window leaves alone.
record Same (e t : Engine) : Type 0 where
  mode : t.mode ≡ e.mode
  base : t.stream_base ≡ e.stream_base
  limit : t.stream_limit ≡ e.stream_limit

store_bytes-Same : (xs : List ℕ) (e : Engine) → Same e (store_bytes xs e)
unfolding store_bytes
store_bytes-Same [] e = record { mode = refl; base = refl; limit = refl }
store_bytes-Same (x ∷ xs) e =
    if_elim (Same e) (leb e.stream_limit e.stream_cursor)
      (λ _. record { mode = refl; base = refl; limit = refl })
      (λ _.
        let s = store_bytes-Same xs (store_byte e x) in
        record { mode = s.mode; base = s.base; limit = s.limit })

-- The buffer with `xs` from `at` on.
pub record Holds (e : Engine) (at : ℕ) (xs : List ℕ) (t : Engine) : Type 0 where
  pub written : (i : ℕ) → i < length xs → t.nand.program.buffer (at + i) ≡ get_or xs i 0
  pub before : (j : ℕ) → j < at → t.nand.program.buffer j ≡ e.nand.program.buffer j
  pub next : t.stream_cursor ≡ e.stream_cursor + length xs
  pub long : t.nand.program.length ≤ page_raw
  pub reached : at + length xs ≤ t.nand.program.length

pub store_bytes-Holds :
    (xs : List ℕ) (e : Engine) (at : ℕ)
    → e.stream_base + e.stream_cursor ≡ at
    → e.stream_cursor + length xs ≤ e.stream_limit
    → at + length xs ≤ page_raw
    → e.stream_limit ≤ page_raw
    → e.nand.program.length ≤ page_raw
    → at ≤ e.nand.program.length
    → Holds e at xs (store_bytes xs e)
unfolding store_bytes
store_bytes-Holds [] e at start room fits small long reached = record {
  written = λ i lt. elim lt [ ];
  before = λ j lt. refl;
  next = omega arith;
  long = long;
  reached = omega arith;
}
store_bytes-Holds (x ∷ xs) e at start room fits small long reached =
    if_elim (Holds e at (x ∷ xs)) (leb e.stream_limit e.stream_cursor)
      (λ full. absurd (ground (arith, full)))
      (λ _.
        let t = store_byte e x in
        let h =
          store_bytes-Holds xs t (at + 1) (omega arith) (omega arith) (omega arith) small
            (ground (arith, idx)) (ground (arith, idx)) in
        record {
          written = rest h;
          before = λ j lt. h.before j (omega arith) ∙ other j (omega arith);
          next = omega (arith, h.next);
          long = h.long;
          reached = omega (arith, h.reached);
        })
  where
    idx : u32 (e.stream_base + e.stream_cursor) ≡ at
    idx = omega arith

    Put : ℕ → ℕ → Type 0
    Put j value = (store_byte e x).nand.program.buffer j ≡ value

    here : Put at x
    here =
        if_elim (λ (f : ℕ → ℕ). f at ≡ x) (ltb (u32 (e.stream_base + e.stream_cursor)) page_raw)
          (λ _.
            if_elim (λ (y : ℕ). y ≡ x) (at == u32 (e.stream_base + e.stream_cursor)) (λ _. refl)
              (λ ne. absurd (ground (arith, idx, ne))))
          (λ out. absurd (ground (arith, idx, out)))

    other : (j : ℕ) → j < at → Put j (e.nand.program.buffer j)
    other j lt =
        if_elim (λ (f : ℕ → ℕ). f j ≡ e.nand.program.buffer j)
          (ltb (u32 (e.stream_base + e.stream_cursor)) page_raw)
          (λ _.
            if_elim (λ (y : ℕ). y ≡ e.nand.program.buffer j)
              (j == u32 (e.stream_base + e.stream_cursor))
              (λ same. absurd (ground (arith, idx, same))) (λ _. refl))
          (λ _. refl)

    rest :
        Holds (store_byte e x) (at + 1) xs (store_bytes xs (store_byte e x))
        → (i : ℕ) → i < length (x ∷ xs)
        → (store_bytes xs (store_byte e x)).nand.program.buffer (at + i) ≡ get_or (x ∷ xs) i 0
    rest h zero lt =
        ap (store_bytes xs (store_byte e x)).nand.program.buffer (omega arith)
        ∙ h.before at (omega arith)
        ∙ here
    rest h (suc i) lt =
        ap (store_bytes xs (store_byte e x)).nand.program.buffer (omega arith)
        ∙ h.written i (omega arith)

-- A burst stores its bytes.
pub burst_lem :
    (ws : List (ℕ × ℕ)) (e : Engine)
    → (e.mode == 0x06 || e.mode == 0x07) ≡ true
    → (e.stream_limit == 0) ≡ false
    → burst ws e ≡ store_bytes (burst_bytes ws) e
unfolding window_write store_bytes
burst_lem [] e stores some_limit = refl
burst_lem ((size, value) ∷ ws) e stores some_limit =
    let t = store_bytes (lanes size value) e in
    let s = store_bytes-Same (lanes size value) e in
    let rest : burst ws t ≡ store_bytes (burst_bytes ws) t =
      burst_lem ws t (ap (λ (m : ℕ). m == 0x06 || m == 0x07) s.mode ∙ stores)
        (ap (λ (l : ℕ). l == 0) s.limit ∙ some_limit) in
    if_elim (λ (u : Engine). burst ws u ≡ store_bytes (lanes size value ++ burst_bytes ws) e)
      ((e.mode == 0x06 || e.mode == 0x07) && not (e.stream_limit == 0))
      (λ _. rest ∙ sym (store_bytes-append (lanes size value) (burst_bytes ws) e))
      (λ off. absurd (ground (arith, off, stores, some_limit)))
