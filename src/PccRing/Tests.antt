-- ===== src/PccRing/Tests.antt =====
-- Tests of the byte ring, and its theorems at concrete rings.
use be.Base.{◌≡◌, refl, none, some, List, [], ◌∷◌, arith}
use be.PccRing.{Ring, push, clear, pop, run, Op, put, get, reset}
use be.PccRing.Queue
use be.PccRing.Inv.{IsValid}
use be.PccRing.Refine.{contents, run_refines}

-- Three bytes of room, two held, round the end of the storage.
abbrev wrapped : Ring
wrapped = record { buf = 9 ∷ 7 ∷ 8 ∷ []; cap = 3; head = 1; tail = 2; count = 2 }

abbrev script : List Op
script = put 1 ∷ put 2 ∷ get ∷ get ∷ reset ∷ get ∷ put 5 ∷ get ∷ []

wrapped-IsValid : IsValid wrapped
wrapped-IsValid = ground arith

run-wrapped : (run wrapped script).0 ≡ some 9 ∷ some 1 ∷ none ∷ some 5 ∷ []
unfolding run push pop clear
run-wrapped = refl

run_refines_example :
    ((run wrapped script).0, contents (run wrapped script).1) ≡ Queue.run 3 (8 ∷ 9 ∷ []) script
run_refines_example = run_refines script wrapped-IsValid
