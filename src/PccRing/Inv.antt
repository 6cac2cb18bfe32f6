-- ===== src/PccRing/Inv.antt =====
-- The representation invariant of src/pcconnect_ring.h: indices in range, and the write index
-- `count` bytes past the read index.
use native.Mathlib.Decide.{ℕ_discrete}
use native.Mathlib.Nat.{mod-add-mod, mod-lt, zero-mod}
use be.Base.{
  ℕ, ◌+◌, ◌-◌, ◌%◌, ◌≤◌, ◌<◌, ◌≡◌, refl, sym, ap, ◌∙◌, ◌⊎◌, inl, inr, false, Option, none, some,
  List, ◌==◌, arith, length, length-set, Bool-cases,
}
use be.PccRing.{Ring, init, clear, make_room, store, push, pop}

pub record IsValid (r : Ring) : Type 0 where
  pub storage : r.cap ≤ length r.buf
  pub within : r.count ≤ r.cap
  pub tail_in : (r.cap ≡ 0) ⊎ (r.tail < r.cap)
  pub head_at : r.head ≡ (r.tail + r.count) % r.cap

-- `%` by a variable at the places where the ring uses it.
next_write : (t n c : ℕ) → ((t + n) % c + 1) % c ≡ (t + (n + 1)) % c
next_write t n c = mod-add-mod (t + n) c 1 ∙ ap (λ (k : ℕ). k % c) (omega arith)

next_read : (t n c : ℕ) → 0 < n → (t + n) % c ≡ ((t + 1) % c + (n - 1)) % c
next_read t n c h = ap (λ (k : ℕ). k % c) (omega arith) ∙ sym (mod-add-mod (t + 1) c (n - 1))

wrapped_in : (t c : ℕ) → (c ≡ 0) ⊎ (t % c < c)
wrapped_in t c = elim (ℕ_discrete c 0) [ yes e ↦ inl e | no ne ↦ inr (mod-lt t (omega arith)) ]

pub make_room-IsValid :
    {r : Ring} → IsValid r → 0 < r.cap → IsValid (make_room r) × ((make_room r).count < r.cap)
unfolding make_room
make_room-IsValid {r} v pos =
    ground (arith, next_read r.tail r.count r.cap, wrapped_in (r.tail + 1) r.cap)

store-IsValid : {r : Ring} (x : ℕ) → IsValid r → r.count < r.cap → IsValid (store r x)
unfolding store
store-IsValid {r} x v room = record {
  storage = omega (arith, length-set r.buf r.head x);
  within = omega arith;
  tail_in = v.tail_in;
  head_at = ap (λ (h : ℕ). (h + 1) % r.cap) v.head_at ∙ next_write r.tail r.count r.cap;
}

pub cap-make_room : (r : Ring) → (make_room r).cap ≡ r.cap
unfolding make_room
cap-make_room r = ground arith

-- The write index of a valid ring lies in the storage.
pub head-lt-cap : {r : Ring} → IsValid r → 0 < r.cap → r.head < r.cap
head-lt-cap {r} v pos = omega (arith, mod-lt (r.tail + r.count) pos)

pub push-IsValid : {r : Ring} (x : ℕ) → IsValid r → IsValid (push r x)
unfolding push
push-IsValid {r} x v = elim (Bool-cases (r.cap == 0)) [
  | inl e ↦ rw e v
  | inr e ↦ rw e (store-IsValid x (room e).0 (omega (arith, cap-make_room r, (room e).1)))
]
  where
    room : (r.cap == 0) ≡ false → IsValid (make_room r) × ((make_room r).count < r.cap)
    room e = make_room-IsValid v (ground arith)

pub pop-IsValid : {r : Ring} → IsValid r → IsValid (pop r).1
unfolding pop
pop-IsValid {r} v = ground (arith, next_read r.tail r.count r.cap, wrapped_in (r.tail + 1) r.cap)

pub clear-IsValid : {r : Ring} → IsValid r → IsValid (clear r)
unfolding clear
clear-IsValid {r} v = record {
  storage = v.storage;
  within = omega arith;
  tail_in = ground arith;
  head_at = sym (zero-mod r.cap);
}

pub init-IsValid :
    (m : Option (List ℕ)) (cap : ℕ)
    → ((b : List ℕ) → m ≡ some b → cap ≤ length b)
    → IsValid (init m cap).1
unfolding init
init-IsValid none cap h = omega arith
init-IsValid (some b) cap h = record {
  storage = h b refl;
  within = omega arith;
  tail_in = ground arith;
  head_at = sym (zero-mod cap);
}

pub cap-push : (r : Ring) (x : ℕ) → (push r x).cap ≡ r.cap
unfolding push store
cap-push r x = ground (arith, cap-make_room r)

pub cap-pop : (r : Ring) → (pop r).1.cap ≡ r.cap
unfolding pop
cap-pop r = ground arith
