-- ===== src/Listener/Queue.antt =====
-- The queue of acceptors as the requests and the exits of processes change it.
use gen_utp.Base.{
  ℕ, ◌≡◌, ◌≢◌, ◌↔◌, refl, sym, ap, ◌⊎◌, inl, inr, Bool, true, Bool-cases, Option, some, none, List,
  [], ◌∷◌, ◌++◌, length, ◌==◌, ==_iff, if◌then◌else◌, arith,
}
use gen_utp.Binary.Equality.{same_bytes_iff}
use gen_utp.Listener.Defs.{Acceptor, Listener, same_ref, cancel_loop, exit_loop, process_exited}

-- Every acceptor of the queue has the property.
abbrev pub All : (Acceptor → Type 0) → List Acceptor → Type 0
All P [] = Unit
All P (a ∷ queue) = P a × All P queue

abbrev OthersRef : List ℕ → Acceptor → Type 0
OthersRef ref a = a.ref ≢ ref

-- Either nobody waits with the reference, and the queue stays, or the first who does is taken out.
abbrev pub Cancels : List ℕ → List Acceptor → List Acceptor × Option ℕ → Type 0
Cancels ref queue r =
    ((r.0 ≡ queue) × (r.1 ≡ none) × All (OthersRef ref) queue)
    ⊎ ((front : List Acceptor) × (a : Acceptor) × (back : List Acceptor) × (queue
          ≡ front ++ a ∷ back)
        × All (OthersRef ref) front
        × (a.ref ≡ ref)
        × (r.0 ≡ front ++ back)
        × (r.1 ≡ some a.caller))

same_ref_iff : (c b : List ℕ) → (same_ref c b ≡ true) ↔ (c ≡ b)
unfolding same_ref
same_ref_iff c b = (to, from)
  where
    to : same_ref c b ≡ true → c ≡ b
    to h = elim (Bool-cases (length b == length c)) [
      | inl e ↦ (same_bytes_iff c b).0 (rw e at h)
      | inr e ↦ cc (rw e at h)
    ]

    from : c ≡ b → same_ref c b ≡ true
    from e =
        rw ((==_iff (length b) (length c)).1 (ap length (sym e)), (same_bytes_iff c b).1 e) refl

-- `cancel_accept` takes out of the queue the first acceptor with the reference and no other, and it is
-- this one's caller that is no longer monitored; if there is none, the queue stays.
pub cancel_loop_lem :
    (ref : List ℕ) (queue : List Acceptor) → Cancels ref queue (cancel_loop ref queue)
unfolding cancel_loop
cancel_loop_lem ref [] = inl (refl, refl, tt)
cancel_loop_lem ref (a ∷ queue) = elim (Bool-cases (same_ref a.ref ref)) [
  | inl e ↦ rw e (inr ([], a, queue, refl, tt, (same_ref_iff a.ref ref).0 e, refl, refl))
  | inr e ↦
      let ne : OthersRef ref a = λ same. cc ((same_ref_iff a.ref ref).1 same, e) in
      rw e (elim (cancel_loop_lem ref queue) [
        | inl (stays, nobody, others) ↦ inl (ap (λ q. a ∷ q) stays, nobody, (ne, others))
        | inr (front, b, back, split, others, same, left, found) ↦ inr (
          a ∷ front,
          b,
          back,
          ap (λ q. a ∷ q) split,
          (ne, others),
          same,
          ap (λ q. a ∷ q) left,
          found,
        )
      ])
]

-- The references that a process waits with, the first first.
unfoldable pub refs_of : ℕ → List Acceptor → List (List ℕ)
refs_of p [] = []
refs_of p (a ∷ queue) = let rest = refs_of p queue in if a.caller == p then a.ref ∷ rest else rest

pub refs_of-append :
    (p : ℕ) (xs ys : List Acceptor) → refs_of p (xs ++ ys) ≡ refs_of p xs ++ refs_of p ys
unfolding refs_of
refs_of-append p [] ys = refl
refs_of-append p (a ∷ xs) ys =
    let ih = refs_of-append p xs ys in
    elim (Bool-cases (a.caller == p)) [ inl e ↦ rw e (ap (λ q. a.ref ∷ q) ih) | inr e ↦ rw e ih ]

-- What a process waits with after the exit of another, or its own.
abbrev pub left_of : Bool → List (List ℕ) → List (List ℕ)
left_of gone refs = if gone then [] else refs

pub refs_of-exit_loop :
    (proc p : ℕ) (queue : List Acceptor)
    → refs_of p (exit_loop proc queue) ≡ left_of (p == proc) (refs_of p queue)
unfolding refs_of exit_loop
refs_of-exit_loop proc p [] = ground arith
refs_of-exit_loop proc p (a ∷ queue) = let ih = refs_of-exit_loop proc p queue in ground (arith, ih)

-- After the exit of a process nobody waits for it, and every other process waits with the references that it
-- waited with, in the order that it did.
pub process_exited_lem :
    {Q : Type 0} (proc p : ℕ) (l : Listener Q)
    → refs_of p (process_exited proc l).acceptor_queue
      ≡ left_of (p == proc) (refs_of p l.acceptor_queue)
unfolding process_exited
process_exited_lem proc p l = refs_of-exit_loop proc p l.acceptor_queue
