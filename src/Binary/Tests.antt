-- ===== src/Binary/Tests.antt =====
-- Inputs for drv_types.cc, and the theorems at them.
use gen_utp.Base.{ℕ, zero, suc, ◌≡◌, refl, some, none, [], ◌∷◌, ok, arith}
use gen_utp.Binary.Counts.{Objects, assigning, step, step-Counted}
use gen_utp.Driver.CountedStore.{counted_store, counted_store_laws}
use gen_utp.Driver.CountedStore
use gen_utp.Binary.Counts

-- Two binaries: the first is held twice, and the second once and once elsewhere.
abbrev start : CountedStore.Counted
start = record { next = 2; counts = λ b. elim b [ zero ↦ 2 | suc c ↦ 2 ]; contents = λ b. 7 ∷ [] }

abbrev three : Objects counted_store
three = record { binaries = some 0 ∷ some 1 ∷ some 0 ∷ none ∷ []; store = start }

abbrev elsewhere : ℕ → ℕ
elsewhere zero = 0
elsewhere (suc zero) = 1
elsewhere (suc (suc b)) = 0

three-Counted : Counts.Counted counted_store elsewhere three
three-Counted zero = refl
three-Counted (suc zero) = refl
three-Counted (suc (suc b)) = ground arith

-- The first object is assigned the second, and the third the first.
abbrev assigned : Objects counted_store
assigned = record {
  binaries = some 1 ∷ some 1 ∷ some 0 ∷ none ∷ [];
  store = counted_store.inc_refc 1 (counted_store.free 0 start);
}

assign_three : step counted_store (assigning 0 1) three ≡ ok assigned
unfolding step
assign_three = refl

step-Counted_example : Counts.Counted counted_store elsewhere assigned
step-Counted_example =
    step-Counted counted_store counted_store_laws elsewhere (assigning 0 1) three assigned
      assign_three three-Counted
