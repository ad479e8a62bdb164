-- ===== src/WriteQueue/References.antt =====
-- write_queue.cc and the references that it holds: `push_back` takes one over,
-- `driver_free_binary` gives one up.
use gen_utp.Base.{
  ℕ, ◌≡◌, refl, ap, ◌≢◌, inl, inr, List, [], ◌∷◌, ◌++◌, Result, Result-cases, ok, ◌>>=◌, sub_size,
  append-nil, append_assoc, arith, ◌+◌, subst, ◌∙◌, Bool, true, false, ◌==◌, err,
}
use gen_utp.WriteQueue.{
  DrvBinary, orig_size, WriteQueue, copy_loop, copy, destroy_loop, destroy, push_back, Popped,
  pop_loop, pop_bytes, clear,
}

-- The binaries that a queue holds a reference to, one for each entry.
abbrev pub ids : List DrvBinary → List ℕ
ids [] = []
ids (bin ∷ rest) = bin.id ∷ ids rest

abbrev pub held : WriteQueue → List ℕ
held wq = ids wq.queue

ids-append : (xs : List DrvBinary) (b : DrvBinary) → ids (xs ++ b ∷ []) ≡ ids xs ++ b.id ∷ []
ids-append [] b = refl
ids-append (x ∷ xs) b = ap (λ ys. x.id ∷ ys) (ids-append xs b)

pop_loop-freed :
    (q : List DrvBinary) (offset sz count : ℕ) (r : Popped)
    → pop_loop q offset sz count ≡ ok r
    → ids q ≡ r.freed ++ held r.rest
unfolding pop_loop
pop_loop-freed [] offset sz count r e = ground arith
pop_loop-freed (bin ∷ q) offset sz count r e =
    let n = sub_size (orig_size bin) offset in
    elim (Result-cases (pop_loop q 0 (sub_size sz n) (sub_size count n))) [
      | inl (s, found) ↦
          let ih = pop_loop-freed q 0 (sub_size sz n) (sub_size count n) s found in
          ground (arith, ih, found)
      | inr (x, failed) ↦ ground (arith, failed)
    ]

-- What `pop_bytes` frees is exactly the front of what the queue held, in order, and it goes on
-- holding the rest.
pub pop_bytes-freed :
    (wq : WriteQueue) (count : ℕ) (r : Popped)
    → pop_bytes wq count ≡ ok r
    → held wq ≡ r.freed ++ held r.rest
unfolding pop_bytes
pop_bytes-freed wq count r e = pop_loop-freed wq.queue wq.offset wq.sz count r e

-- The operations on one queue of the driver.
pub data Op : Type 0 where
  push : DrvBinary → Op
  pop : ℕ → Op
  clearing : Op

ok_inj : {A : Type 0} {x y : A} → ok x ≡ ok y → x ≡ y
ok_inj e = cc

-- What a history has taken over and freed.
pub record Ledger : Type 0 where
  pub wq : WriteQueue
  pub taken : List ℕ
  pub freed : List ℕ

unfoldable pub step : Op → Ledger → Result Ledger
unfolding push_back clear
step (push bin) l =
    ok (record { wq = push_back bin l.wq; taken = l.taken ++ bin.id ∷ []; freed = l.freed })
step (pop n) l = do
  r ← pop_bytes l.wq n
  ok (record { wq = r.rest; taken = l.taken; freed = l.freed ++ r.freed })
step clearing l =
    let (wq, out) = clear l.wq in ok (record { wq = wq; taken = l.taken; freed = l.freed ++ out })

-- Each reference that was taken over is either freed, once, or still held.
abbrev pub Balanced : Ledger → Type 0
Balanced l = l.taken ≡ l.freed ++ held l.wq

-- A push and a pop keep the books: nothing is freed twice and nothing is lost.
pub step-Balanced :
    (op : Op) (l l' : Ledger) → op ≢ clearing → step op l ≡ ok l' → Balanced l → Balanced l'
unfolding step
step-Balanced (push bin) l l' h e b =
    ground (arith, ids-append l.wq.queue bin, append_assoc l.freed (held l.wq) (bin.id ∷ []))
step-Balanced (pop n) l l' h e b = elim (Result-cases (pop_bytes l.wq n)) [
  | inl (r, found) ↦
      ground
        (arith, found, pop_bytes-freed l.wq n r found, append_assoc l.freed r.freed (held r.rest))
  | inr (x, failed) ↦ ground (arith, failed)
]
step-Balanced clearing l l' h e b = absurd (h refl)

destroy_loop-ids : (q : List DrvBinary) → destroy_loop q ≡ ids q
unfolding destroy_loop
destroy_loop-ids [] = refl
destroy_loop-ids (bin ∷ q) = ap (λ xs. bin.id ∷ xs) (destroy_loop-ids q)

-- A history of operations.
unfoldable pub run : List Op → Ledger → Result Ledger
unfolding step
run [] l = ok l
run (op ∷ ops) l = do l' ← step op l; run ops l'

abbrev pub lost_at : Op → Ledger → List ℕ
lost_at (push bin) l = []
lost_at (pop n) l = []
lost_at clearing l = held l.wq

-- What the queue held each time that it was cleared.
unfoldable pub lost : List Op → Ledger → List ℕ
unfolding step
lost [] l = []
lost (op ∷ ops) l = lost_at op l ++ elim (step op l) [ ok l' ↦ lost ops l' | err e ↦ [] ]

abbrev pub one_if : Bool → ℕ
one_if true = 1
one_if false = 0

-- How often a binary stands in a list.
abbrev pub count : ℕ → List ℕ → ℕ
count x [] = 0
count x (y ∷ ys) = one_if (y == x) + count x ys

count-append : (x : ℕ) (xs ys : List ℕ) → count x (xs ++ ys) ≡ count x xs + count x ys
count-append x [] ys = omega arith
count-append x (y ∷ xs) ys = omega (arith, count-append x xs ys)

-- The references to a binary that are held or freed, and `k` that are neither.
abbrev Accounts : ℕ → ℕ → Ledger → Type 0
Accounts x k l = count x l.taken ≡ count x l.freed + count x (held l.wq) + k

step-Accounts :
    (x k : ℕ) (op : Op) (l l' : Ledger)
    → step op l ≡ ok l'
    → Accounts x k l
    → Accounts x (k + count x (lost_at op l)) l'
unfolding step
step-Accounts x k (push bin) l l' e a =
    let more = count-append x l.taken (bin.id ∷ []) in
    let kept =
      ap (count x) (ids-append l.wq.queue bin) ∙ count-append x (held l.wq) (bin.id ∷ []) in
    subst (Accounts x (k + 0)) (ok_inj e) (omega (arith, more, kept, a))
step-Accounts x k (pop n) l l' e a = elim (Result-cases (pop_bytes l.wq n)) [
  | inl (r, found) ↦
      let parts =
        ap (count x) (pop_bytes-freed l.wq n r found) ∙ count-append x r.freed (held r.rest) in
      let more = count-append x l.freed r.freed in
      subst (Accounts x (k + 0)) (ok_inj (rw found at e)) (omega (arith, parts, more, a))
  | inr (f, failed) ↦ ground (arith, failed)
]
step-Accounts x k clearing l l' e a =
    subst (Accounts x (k + count x (held l.wq))) (ok_inj e)
      (omega (arith, count-append x l.freed [], a))

run-Accounts :
    (x k : ℕ) (ops : List Op) (l l' : Ledger)
    → run ops l ≡ ok l'
    → Accounts x k l
    → Accounts x (k + count x (lost ops l)) l'
unfolding run lost
run-Accounts x k [] l l' e a = subst (Accounts x (k + 0)) (ok_inj e) (omega (arith, a))
run-Accounts x k (op ∷ ops) l l' e a = elim (Result-cases (step op l)) [
  | inl (l1, found) ↦
      let a1 = step-Accounts x k op l l1 found a in
      let a2 = run-Accounts x (k + count x (lost_at op l)) ops l1 l' (rw found at e) a1 in
      rw found (omega (arith, a2, count-append x (lost_at op l) (lost ops l1)))
  | inr (f, failed) ↦ ground (arith, failed)
]

-- If the books balance at first, each reference that was taken over being either freed or held,
-- then over any history of pushes, pops and clears that returns, and then the destructor: each is
-- freed, once, or it was in the queue at a `clear`, which frees none. So the references that are
-- lost are exactly those that a `clear` found.
pub run-lost :
    (ops : List Op) (l l' : Ledger) (x : ℕ)
    → Balanced l
    → run ops l ≡ ok l'
    → count x l'.taken ≡ count x (l'.freed ++ destroy l'.wq) + count x (lost ops l)
unfolding destroy
run-lost ops l l' x b e =
    let start : Accounts x 0 l =
      ap (count x) b ∙ (count-append x l.freed (held l.wq) ∙ omega arith) in
    let all = run-Accounts x 0 ops l l' e start in
    let last = ap (count x) (destroy_loop-ids l'.wq.queue) in
    omega (arith, all, last, count-append x l'.freed (destroy_loop l'.wq.queue))

copy_loop-eq : (q xs : List DrvBinary) (ns : List ℕ) → copy_loop q xs ns ≡ (xs ++ q, ns ++ ids q)
unfolding copy_loop
copy_loop-eq [] xs ns = rw (append-nil xs, append-nil ns)
copy_loop-eq (bin ∷ q) xs ns = rw (copy_loop-eq q, append_assoc xs, append_assoc ns)

-- A copy waits with the same bytes and takes a reference of its own to each binary; the destructor
-- of the copy gives up exactly those.
pub copy_lem :
    (wq : WriteQueue)
    → ((copy wq).0 ≡ wq) × ((copy wq).1 ≡ held wq) × (destroy (copy wq).0 ≡ (copy wq).1)
unfolding copy destroy
copy_lem wq = rw (copy_loop-eq wq.queue [] []) (refl, refl, destroy_loop-ids wq.queue)
