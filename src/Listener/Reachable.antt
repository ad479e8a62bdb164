-- ===== src/Listener/Reachable.antt =====
-- The states that a listener and the main handler come to, and who is told of an exit in them.
use gen_utp.Base.{
  ℕ, ◌≤◌, ◌≡◌, refl, sym, subst, inl, inr, Bool-cases, Option-cases, some, none, List, [], ◌∷◌,
  length, lookup, ◌==◌, ==_iff, arith,
}
use gen_utp.Coder.Defs.{Ei}
use gen_utp.Coder.Arguments.{binary_argument}
use gen_utp.Monitors.{no_monitors, process_exit}
use gen_utp.Monitors.Watches.{OwnedBy, watched_by}
use gen_utp.Main.Registry.{Registry, exited}
use gen_utp.Listener.Defs.{Listener, accept, cancel_accept, process_exited}
use gen_utp.Listener.Incoming.{input_ready}
use gen_utp.Listener.Queue.{refs_of}
use gen_utp.Listener.Watched.{IsWatched, exited-IsWatched}
use gen_utp.Listener.Steps.{
  Change, accepting, cancelling, arriving, exiting, State, told_exit, step, Granted, Invariant,
  accept_ref-Invariant, cancel_ref-Invariant, received-Invariant,
}

own-lookup : (h m g : ℕ) (mons : List (ℕ × ℕ)) → OwnedBy h mons → lookup m mons ≡ some g → g ≡ h
unfolding lookup
own-lookup h m g [] o e = cc
own-lookup h m g ((n, k) ∷ mons) (own, o) e = elim (Bool-cases (n == m)) [
  | inl same ↦ let head = rw same at e in cc (head, own)
  | inr apart ↦ own-lookup h m g mons o (rw apart at e)
]

empty-IsWatched : (owner : ℕ → ℕ) (this : ℕ) → IsWatched owner this [] no_monitors
unfolding lookup refs_of
empty-IsWatched owner this = record {
  linked = record { monitors = tt; processes = tt; owned = λ p m e. cc; there = λ p m e. cc };
  own = tt;
  enough = λ p. omega arith;
}

module _ {Q : Type 0} (ei : Ei) (this : ℕ) (owner : ℕ → ℕ) where
  told-Invariant :
      (mon proc : ℕ) (l : Listener Q) (m : Registry)
      → owner mon ≡ proc
      → IsWatched owner this l.acceptor_queue m.monitors
      → IsWatched owner this
          (told_exit ei this (exited mon proc m).0 proc l).acceptor_queue
          (exited mon proc m).1.monitors
  unfolding exited process_exit process_exited
  told-Invariant mon proc l m o v = elim (Option-cases (lookup mon m.monitors.mon_map)) [
    | inl absent ↦ rw absent v
    | inr (g, found) ↦
        let mine = (==_iff g this).1 (own-lookup this mon g m.monitors.mon_map v.own found) in
        subst (λ q. IsWatched owner this q (process_exit mon proc m.monitors).1)
          (sym (rw (found, mine) refl))
          (exited-IsWatched owner this mon proc l.acceptor_queue m.monitors o v)
  ]

  -- Whatever comes, a request, a datagram or an exit, every process that waits for a connection keeps as many
  -- monitors at least as it has places in the queue, and all of them are the listener's: a request that is
  -- served, refused or cancelled ends one monitor of its caller and no other process's.
  pub step-Invariant :
      (c : Change Q) (s : State Q)
      → Granted ei this owner c s.1
      → Invariant ei this owner s
      → Invariant ei this owner (step ei this c s)
  unfolding step accept cancel_accept input_ready
  step-Invariant (accepting buf len caller answer) (l, main) g v =
      accept_ref-Invariant ei this owner (binary_argument ei buf len) buf len caller answer l main g
        v
  step-Invariant (cancelling buf len) (l, main) g v =
      cancel_ref-Invariant ei this owner (binary_argument ei buf len) l main v
  step-Invariant (arriving a) (l, main) g v =
      received-Invariant ei this owner a g a.datagram l main v
  step-Invariant (exiting mon proc) (l, none) g v = tt
  step-Invariant (exiting mon proc) (l, some m) g v = told-Invariant mon proc l m g v

  -- What follows from an empty queue and no monitors.
  pub data Reachable : State Q → Type 0 where
    begin :
        (l : Listener Q) (m : Registry)
        → l.acceptor_queue ≡ []
        → m.monitors ≡ no_monitors
        → Reachable (l, some m)
    next :
        (c : Change Q) (s : State Q)
        → Reachable s
        → Granted ei this owner c s.1
        → Reachable (step ei this c s)

  Reachable-Invariant : (s : State Q) → Reachable s → Invariant ei this owner s
  Reachable-Invariant _ (begin l m empty fresh) =
      subst (λ q. IsWatched owner this q m.monitors) (sym empty)
        (subst (λ ms. IsWatched owner this [] ms) (sym fresh) (empty-IsWatched owner this))
  Reachable-Invariant _ (next c s r g) = step-Invariant c s g (Reachable-Invariant s r)

  -- In every state that a listener comes to from an empty queue and no monitors, if a process waits for a
  -- connection then it has a monitor, and when that one reports its exit, the listener is told.
  pub Reachable-told :
      (l : Listener Q) (m : Registry)
      → Reachable (l, some m)
      → (proc : ℕ) → 1 ≤ length (refs_of proc l.acceptor_queue)
      → (mon : ℕ) × (owner mon ≡ proc) × ((exited mon proc m).0 ≡ some this)
  unfolding exited process_exit
  Reachable-told l m r proc waits =
      let v : IsWatched owner this l.acceptor_queue m.monitors =
        Reachable-Invariant (l, some m) r in
      let (mon, found, own) =
        watched_by owner proc m.monitors.mon_map this v.own v.linked.monitors
          (omega (arith, waits, v.enough proc)) in
      (mon, own, rw found refl)
