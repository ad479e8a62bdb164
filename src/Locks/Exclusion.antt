-- ===== src/Locks/Exclusion.antt =====
-- What threads keep to, however they take turns: each follows the rule, and no two hold one mutex.
use gen_utp.Base.{
  ℕ, zero, suc, ◌≡◌, refl, sym, subst, ◌∙◌, Bool, true, false, Bool-cases, ◌⊎◌, inl, inr, some,
  List, [], ◌∷◌, get_elem?, set,
}
use gen_utp.Locks.{
  Mutex, is_same, Shared, Act, lock, unlock, uses, Thread, idle, holds, release, is_taken, perform,
}
use gen_utp.Locks.Calls.{AllIdle, Move, acts_at, Reached, begins, calls, moves, acts}
use gen_utp.Locks.Order.{IsGuarded, Follows, is_same_self, guard}
use gen_utp.Locks.Followed.{acts-Follows}
use gen_utp.Locks.Turns.{
  some_inj, none-some, if_true, if_false, set-cases, not_taken, perform-holds,
}

module _ (watched : Shared → Bool) where
  perform-Follows :
      (c : List Thread) (held : List Mutex) (todo : List Act) (u : Thread)
      → Follows watched held todo
      → perform c held todo ≡ some u
      → Follows watched u.held u.todo
  perform-Follows c held [] u f e = cc
  perform-Follows c held (lock k ∷ todo) u f e = elim (Bool-cases (is_taken k c)) [
    | inl taken ↦ absurd (none-some (sym (if_true _ _ taken) ∙ e))
    | inr free ↦
        subst (λ v. Follows watched v.held v.todo) (some_inj (sym (if_false _ _ free) ∙ e)) f.1
  ]
  perform-Follows c [] (unlock k ∷ todo) u f e = absurd f
  perform-Follows c (h ∷ held) (unlock k ∷ todo) u (same, f) e =
      let s : is_same h k ≡ true = subst (λ x. is_same h x ≡ true) same (is_same_self h) in
      let now = some_inj e in
      subst (λ v. Follows watched v.held v.todo) now
        (subst (λ x. Follows watched x todo) (sym (if_true held (h ∷ release k held) s)) f)
  perform-Follows c [] (uses s ∷ todo) u f e =
      subst (λ v. Follows watched v.held v.todo) (some_inj e) f.1
  perform-Follows c (h ∷ held) (uses s ∷ todo) u f e =
      subst (λ v. Follows watched v.held v.todo) (some_inj e) f.1

  -- Each thread follows the rule in what is left of its call, and a mutex has one holder.
  pub record IsOrderly (c : List Thread) : Type 0 where
    pub follows : (i : ℕ) (t : Thread) → get_elem? c i ≡ some t → Follows watched t.held t.todo
    pub exclusive :
        (i j : ℕ) (t u : Thread) (m : Mutex)
        → get_elem? c i ≡ some t
        → get_elem? c j ≡ some u
        → holds m t.held ≡ true
        → holds m u.held ≡ true
        → i ≡ j

  -- A thread is replaced by one that holds no mutex but its own and free ones.
  module _ (c : List Thread) (o : IsOrderly c) (i : ℕ) (t u : Thread)
      (at_i : get_elem? c i ≡ some t) (f : Follows watched u.held u.todo)
      (free : (m : Mutex)
        → holds m u.held ≡ true
        → (holds m t.held ≡ true) ⊎ (is_taken m c ≡ false)) where
    -- Another thread that holds a mutex of the new one is the same as it was.
    apart :
        (j : ℕ) (v : Thread) (m : Mutex)
        → get_elem? c j ≡ some v
        → holds m u.held ≡ true
        → holds m v.held ≡ true
        → i ≡ j
    apart j v m at_j hu hv = elim (free m hu) [
      | inl ht ↦ o.exclusive i j t v m at_i at_j ht hv
      | inr n ↦ absurd (let no = not_taken m c j v n at_j in cc)
    ]

    replaced-IsOrderly : IsOrderly (set c i u)
    replaced-IsOrderly = record {
      follows = λ j v e. elim (set-cases c i j t u v at_i e) [
        | inl (same, now) ↦ subst (λ x. Follows watched x.held x.todo) (sym now) f
        | inr old ↦ o.follows j v old
      ];
      exclusive = λ j k v w m e g hv hw. elim (set-cases c i j t u v at_i e) [
        | inl (same, now) ↦ elim (set-cases c i k t u w at_i g) [
          | inl (too, _) ↦ sym same ∙ too
          | inr old ↦ sym same ∙ apart k w m old (subst (λ x. holds m x.held ≡ true) now hv) hw
        ]
        | inr old ↦ elim (set-cases c i k t u w at_i g) [
          | inl (too, now) ↦
              sym (apart j v m old (subst (λ x. holds m x.held ≡ true) now hw) hv) ∙ too
          | inr other ↦ o.exclusive j k v w m old other hv hw
        ]
      ];
    }

  pub Move-IsOrderly : {c d : List Thread} → Move c d → IsOrderly c → IsOrderly d
  Move-IsOrderly {c} (acts_at i t u e p now) o = subst IsOrderly (sym now) (
      replaced-IsOrderly c o i t u e (perform-Follows c t.held t.todo u (o.follows i t e) p)
        (λ m h. perform-holds c t.held t.todo u m p h))

  AllIdle-idle :
      (c : List Thread) (i : ℕ) (t : Thread) → AllIdle c → get_elem? c i ≡ some t → t ≡ idle
  AllIdle-idle [] i t a e = cc
  AllIdle-idle (x ∷ c) zero t a e = sym (some_inj e) ∙ a.0
  AllIdle-idle (x ∷ c) (suc i) t a e = AllIdle-idle c i t a.1 e

  AllIdle-IsOrderly : (c : List Thread) → AllIdle c → IsOrderly c
  AllIdle-IsOrderly c a = record {
    follows =
        λ i t e. subst (λ x. Follows watched x.held x.todo) (sym (AllIdle-idle c i t a e)) refl;
    exclusive = λ i j t u m e f ht hu.
        absurd (let q = subst (λ x. holds m x.held ≡ true) (AllIdle-idle c i t a e) ht in cc);
  }

  -- However the threads begin calls and take turns, the mutexes are taken in order and have one holder.
  pub Reached-IsOrderly : {c : List Thread} → Reached watched c → IsOrderly c
  Reached-IsOrderly (begins c a) = AllIdle-IsOrderly c a
  Reached-IsOrderly (calls {c} i main call n e r) =
      replaced-IsOrderly c (Reached-IsOrderly r) i idle
        (record { held = []; todo = acts main call }) e (acts-Follows watched main call n)
        (λ m h. cc)
  Reached-IsOrderly (moves m r) = Move-IsOrderly m (Reached-IsOrderly r)

  -- However threads begin calls and take turns, two that are about to use what is watched under one mutex are
  -- the same thread. The monitors may always be watched; a listener's acceptors, as long as no call stops the
  -- port of that listener; the map of descriptors, as long as none stops the main handler with descriptors
  -- in it; and libutp, as long as no setopts changes the size of a buffer.
  pub Reached-race :
      {c : List Thread} (i j : ℕ) (t u : Thread) (s k : Shared) (ts us : List Act)
      → Reached watched c
      → get_elem? c i ≡ some t
      → get_elem? c j ≡ some u
      → t.todo ≡ uses s ∷ ts
      → u.todo ≡ uses k ∷ us
      → watched s ≡ true
      → watched k ≡ true
      → guard s ≡ guard k
      → i ≡ j
  Reached-race {c} i j t u s k ts us r e f a b ws wk same =
      let o = Reached-IsOrderly r in
      o.exclusive i j t u (guard k) e f
        (subst (λ m. holds m t.held ≡ true) same
          (using t.held s ts (subst (Follows watched t.held) a (o.follows i t e)) ws))
        (using u.held k us (subst (Follows watched u.held) b (o.follows j u f)) wk)
    where
      using :
          (held : List Mutex) (s : Shared) (todo : List Act)
          → Follows watched held (uses s ∷ todo)
          → IsGuarded watched s held
      using [] s todo f = f.0
      using (h ∷ held) s todo f = f.0
