-- ===== src/WriteQueue/Tests.antt =====
-- Inputs for write_queue.cc, and the theorems at them.
use gen_utp.Base.{◌+◌, ◌≡◌, ◌≢◌, refl, List, [], ◌∷◌, ok, arith}
use gen_utp.WriteQueue.{DrvBinary, WriteQueue, destroy, Popped, pop_loop, pop_bytes}
use gen_utp.WriteQueue.Fifo.{content, IsValid, pop_bytes_lem}
use gen_utp.WriteQueue.References.{
  Op, clearing, Ledger, step, Balanced, pop, step-Balanced, run, lost, count, run-lost,
}

abbrev first : DrvBinary
first = record { id = 1; orig_bytes = 10 ∷ 11 ∷ 12 ∷ [] }

abbrev second : DrvBinary
second = record { id = 2; orig_bytes = 20 ∷ 21 ∷ [] }

-- One byte of the first binary is sent.
abbrev two : WriteQueue
two = record { queue = first ∷ second ∷ []; sz = 4; offset = 1 }

two-IsValid : IsValid two
two-IsValid = record { fits = omega arith; counted = refl; small = omega arith }

pop_bytes_lem_example :
    (r : Popped) × (pop_bytes two 3 ≡ ok r)
    × (r.copied ≡ 11 ∷ 12 ∷ 20 ∷ [])
    × (content r.rest ≡ 21 ∷ [])
    × IsValid r.rest
pop_bytes_lem_example = pop_bytes_lem 3 two-IsValid (omega arith)

abbrev popped : Popped
popped = record {
  rest = record { queue = second ∷ []; sz = 1; offset = 1 };
  copied = 11 ∷ 12 ∷ 20 ∷ [];
  freed = 1 ∷ [];
}

pop_two : pop_bytes two 3 ≡ ok popped
unfolding pop_bytes pop_loop
pop_two = refl

abbrev before : Ledger
before = record { wq = two; taken = 1 ∷ 2 ∷ []; freed = [] }

abbrev after : Ledger
after = record { wq = popped.rest; taken = 1 ∷ 2 ∷ []; freed = 1 ∷ [] }

popping_ran : step (pop 3) before ≡ ok after
unfolding step pop_bytes pop_loop
popping_ran = refl

pop_not_clearing : pop 3 ≢ clearing
pop_not_clearing e = ground arith

step-Balanced_example : Balanced after
step-Balanced_example = step-Balanced (pop 3) before after pop_not_clearing popping_ran refl

-- One byte more is sent, and then the queue is cleared while it holds the second binary.
abbrev popping_and_clearing : List Op
popping_and_clearing = pop 3 ∷ clearing ∷ []

abbrev cleared : Ledger
cleared = record {
  wq = record { queue = []; sz = 0; offset = 0 };
  taken = 1 ∷ 2 ∷ [];
  freed = 1 ∷ [];
}

all_ran : run popping_and_clearing before ≡ ok cleared
unfolding run step pop_bytes pop_loop
all_ran = refl

run-lost_example :
    count 2 (1 ∷ 2 ∷ [])
    ≡ count 2 (1 ∷ destroy cleared.wq) + count 2 (lost popping_and_clearing before)
run-lost_example = run-lost popping_and_clearing before cleared 2 refl all_ran
