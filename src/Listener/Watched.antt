-- ===== src/Listener/Watched.antt =====
-- One listener and the monitors of the main handler: a process that waits is watched.
use gen_utp.Base.{
  ℕ, suc, ◌+◌, ◌≤◌, ◌≡◌, ◌≢◌, refl, sym, ap, ◌∙◌, inl, inr, false, Bool-cases, some, List, [], ◌∷◌,
  ◌++◌, length, length-append, ◌==◌, ==_iff, ne→==, arith,
}
use gen_utp.Monitors.{Monitors, add_mon, del_mon, process_exit}
use gen_utp.Monitors.Linked.{
  IsLinked, IsFresh, add_mon-IsLinked, del_mon-IsLinked, process_exit-IsLinked,
}
use gen_utp.Monitors.Watches.{
  OwnedBy, watches, watches-add_mon_self, watches-add_mon_ne, watches-del_mon_self,
  watches-del_mon_ne, watches-process_exit_ne, add_mon-OwnedBy, del_mon-OwnedBy,
  process_exit-OwnedBy,
}
use gen_utp.Listener.Defs.{Acceptor, exit_loop}
use gen_utp.Listener.Queue.{refs_of, refs_of-append, refs_of-exit_loop}

-- The monitors are the listener's, and each process has as many at least as it has acceptors that wait.
pub record IsWatched (owner : ℕ → ℕ) (this : ℕ) (queue : List Acceptor) (s : Monitors)
    : Type 0 where
  pub linked : IsLinked owner s
  pub own : OwnedBy this s.mon_map
  pub enough : (p : ℕ) → length (refs_of p queue) ≤ watches owner p s.mon_map

-- Who waits in two queues.
abbrev count_of : ℕ → List Acceptor → ℕ
count_of p queue = length (refs_of p queue)

count_of-append :
    (p : ℕ) (xs ys : List Acceptor) → count_of p (xs ++ ys) ≡ count_of p xs + count_of p ys
count_of-append p xs ys =
    ap length (refs_of-append p xs ys) ∙ length-append (refs_of p xs) (refs_of p ys)

count_of_self :
    (p : ℕ) (a : Acceptor) (rest : List Acceptor)
    → a.caller ≡ p
    → count_of p (a ∷ rest) ≡ suc (count_of p rest)
unfolding refs_of
count_of_self p a rest e = rw ((==_iff a.caller p).1 e) refl

count_of_other :
    (p : ℕ) (a : Acceptor) (rest : List Acceptor)
    → a.caller ≢ p
    → count_of p (a ∷ rest) ≡ count_of p rest
unfolding refs_of
count_of_other p a rest ne = rw (ne→== a.caller p ne) refl

count_of_nil : (p : ℕ) → count_of p [] ≡ 0
unfolding refs_of
count_of_nil p = refl

apart : (a b : ℕ) → (a == b) ≡ false → a ≢ b
apart a b h e = cc ((==_iff a b).1 e, h)

module _ (owner : ℕ → ℕ) (this : ℕ) where
  -- One acceptor is taken out, and its caller's monitor with it.
  pub removed-IsWatched :
      (front back : List Acceptor) (a : Acceptor) (s : Monitors)
      → IsWatched owner this (front ++ a ∷ back) s
      → IsWatched owner this (front ++ back) (del_mon a.caller s).0
  removed-IsWatched front back a s v = record {
    linked = del_mon-IsLinked owner a.caller s v.linked;
    own = del_mon-OwnedBy a.caller this s v.own;
    enough = enough_after;
  }
    where
      enough_after :
          (p : ℕ)
          → length (refs_of p (front ++ back)) ≤ watches owner p (del_mon a.caller s).0.mon_map
      enough_after p = elim (Bool-cases (a.caller == p)) [
        | inl e ↦
            let fewer = count_of_self p a back ((==_iff a.caller p).0 e) in
            let mine = watches-del_mon_self owner p s v.linked in
            rw ((==_iff a.caller p).0 e) (
              omega (
                arith,
                v.enough p,
                count_of-append p front (a ∷ back),
                count_of-append p front back,
                fewer,
                mine,
              ))
        | inr e ↦
            let as_many = count_of_other p a back (apart a.caller p e) in
            let others = watches-del_mon_ne owner p a.caller s (apart a.caller p e) v.linked in
            omega (
              arith,
              v.enough p,
              count_of-append p front (a ∷ back),
              count_of-append p front back,
              as_many,
              others,
            )
      ]

  pub added-IsWatched :
      (m caller : ℕ) (ref : List ℕ) (queue : List Acceptor) (s : Monitors)
      → IsFresh owner (some m) caller s
      → IsWatched owner this queue s
      → IsWatched owner this
          (queue ++ record { caller = caller; ref = ref } ∷ [])
          (add_mon (some m) caller this s).1
  added-IsWatched m caller ref queue s fresh v = record {
    linked = add_mon-IsLinked owner (some m) caller this s fresh v.linked;
    own = add_mon-OwnedBy (some m) caller this s v.own;
    enough = enough_after;
  }
    where
      new : Acceptor
      new = record { caller = caller; ref = ref }

      enough_after :
          (p : ℕ)
          → length (refs_of p (queue ++ new ∷ []))
            ≤ watches owner p (add_mon (some m) caller this s).1.mon_map
      enough_after p = elim (Bool-cases (caller == p)) [
        | inl e ↦
            let same = (==_iff caller p).0 e in
            let more = watches-add_mon_self owner p m caller this s fresh.0 (fresh.1 ∙ same) in
            omega (
              arith,
              v.enough p,
              count_of-append p queue (new ∷ []),
              count_of_self p new [] same,
              count_of_nil p,
              more,
            )
        | inr e ↦
            let ne = apart caller p e in
            let others =
              watches-add_mon_ne owner p m caller this s fresh.0 (λ own. ne (sym fresh.1 ∙ own)) in
            omega (
              arith,
              v.enough p,
              count_of-append p queue (new ∷ []),
              count_of_other p new [] ne,
              count_of_nil p,
              others,
            )
      ]

  pub exited-IsWatched :
      (m proc : ℕ) (queue : List Acceptor) (s : Monitors)
      → owner m ≡ proc
      → IsWatched owner this queue s
      → IsWatched owner this (exit_loop proc queue) (process_exit m proc s).1
  exited-IsWatched m proc queue s o v = record {
    linked = process_exit-IsLinked owner m proc s o v.linked;
    own = process_exit-OwnedBy m proc this s v.own;
    enough = enough_after;
  }
    where
      enough_after :
          (p : ℕ)
          → length (refs_of p (exit_loop proc queue))
            ≤ watches owner p (process_exit m proc s).1.mon_map
      enough_after p = elim (Bool-cases (p == proc)) [
        | inl e ↦ rw (refs_of-exit_loop proc p queue, e) (omega arith)
        | inr e ↦
            let same =
              watches-process_exit_ne owner p m proc s o
                (λ eq. cc ((==_iff p proc).1 (sym eq), e)) in
            rw (refs_of-exit_loop proc p queue, e) (omega (arith, v.enough p, same))
      ]
