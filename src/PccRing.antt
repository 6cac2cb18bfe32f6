-- ===== src/PccRing.antt =====
-- The byte ring of src/pcconnect_ring.h: host-to-guest queues that drop the oldest byte when full.
-- `buf` is the malloc'd storage, the empty list for NULL. The -1 of `pcc_ring_peek` and
-- `pcc_ring_pop` is `none`. `malloc` is a parameter: `init` takes what it returned.
pub mod Queue
pub mod Inv
pub mod Refine
mod Tests
use be.Base.{
  ℕ, ◌+◌, ◌-◌, ◌%◌, Bool, true, false, Option, none, some, List, [], ◌∷◌, ◌==◌, if◌then◌else◌,
  get_or, set,
}

pub record Ring : Type 0 where
  pub buf : List ℕ
  pub cap : ℕ
  pub head : ℕ
  pub tail : ℕ
  pub count : ℕ

unfoldable pub init : Option (List ℕ) → ℕ → Bool × Ring
init none cap = (false, record { buf = []; cap = 0; head = 0; tail = 0; count = 0 })
init (some storage) cap = (true, record { buf = storage; cap = cap; head = 0; tail = 0; count = 0 })

unfoldable pub free : Ring → Ring
free r = record { buf = []; cap = 0; head = 0; tail = 0; count = 0 }

unfoldable pub clear : Ring → Ring
clear r = record r { head = 0; tail = 0; count = 0 }

unfoldable space : Ring → ℕ
space r = r.cap - r.count

unfoldable is_empty : Ring → Bool
is_empty r = r.count == 0

unfoldable is_full : Ring → Bool
is_full r = r.count == r.cap

-- The first statement of `pcc_ring_push`: a full ring gives up its oldest byte.
unfoldable pub make_room : Ring → Ring
make_room r =
    if r.count == r.cap then record r { tail = (r.tail + 1) % r.cap; count = r.count - 1 } else r

unfoldable pub store : Ring → ℕ → Ring
store r byte = record r {
  buf = set r.buf r.head byte;
  head = (r.head + 1) % r.cap;
  count = r.count + 1;
}

unfoldable pub push : Ring → ℕ → Ring
unfolding make_room store
push r byte = if r.cap == 0 then r else store (make_room r) byte

unfoldable pub peek : Ring → Option ℕ
peek r = if r.count == 0 then none else some (get_or r.buf r.tail 0)

unfoldable pub pop : Ring → Option ℕ × Ring
pop r = if r.count == 0 then (none, r) else (
  some (get_or r.buf r.tail 0),
  record r { tail = (r.tail + 1) % r.cap; count = r.count - 1 },
)

pub data Op : Type 0 where
  put : ℕ → Op
  get : Op
  reset : Op

-- A producer and a consumer that share the ring: what each read returned, and the ring left.
unfoldable pub run : Ring → List Op → List (Option ℕ) × Ring
run r [] = ([], r)
run r (put x ∷ ops) = run (push r x) ops
run r (get ∷ ops) = let (out, r') = pop r in let (outs, last) = run r' ops in (out ∷ outs, last)
run r (reset ∷ ops) = run (clear r) ops
