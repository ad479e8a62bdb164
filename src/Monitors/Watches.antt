-- ===== src/Monitors/Watches.antt =====
-- How many monitors watch a process.
use gen_utp.Base.{
  ℕ, suc, ◌≤◌, ◌≡◌, ◌≢◌, refl, sym, ap, subst, ◌∙◌, inl, inr, Bool-cases, Option, Option-cases,
  some, none, List, [], ◌∷◌, ◌==◌, ==_iff, ne→==, if◌then◌else◌, lookup, insert, erase,
  erase_absent, Distinct, arith,
}
use gen_utp.Monitors.{Monitors, add_mon, del_mon, del_loop, del_mons, process_exit}
use gen_utp.Monitors.Linked.{IsLinked}

-- Every monitor in the map is the handler's.
abbrev pub OwnedBy : ℕ → List (ℕ × ℕ) → Type 0
OwnedBy h [] = Unit
OwnedBy h ((m, g) ∷ mons) = (g ≡ h) × OwnedBy h mons

module _ (owner : ℕ → ℕ) (p : ℕ) where
  unfoldable pub watches : List (ℕ × ℕ) → ℕ
  watches [] = 0
  watches ((m, g) ∷ mons) = let rest = watches mons in if owner m == p then suc rest else rest

  pub watches-add_mon_self :
      (m q h : ℕ) (s : Monitors)
      → lookup m s.mon_map ≡ none
      → owner m ≡ p
      → watches (add_mon (some m) q h s).1.mon_map ≡ suc (watches s.mon_map)
  unfolding watches insert add_mon
  watches-add_mon_self m q h s e own = rw (e, (==_iff (owner m) p).1 own) refl

  pub watches-add_mon_ne :
      (m q h : ℕ) (s : Monitors)
      → lookup m s.mon_map ≡ none
      → owner m ≢ p
      → watches (add_mon (some m) q h s).1.mon_map ≡ watches s.mon_map
  unfolding watches insert add_mon
  watches-add_mon_ne m q h s e ne = rw (e, ne→== (owner m) p ne) refl

  pub watches-erase_ne :
      (m : ℕ) (mons : List (ℕ × ℕ)) → owner m ≢ p → watches (erase m mons) ≡ watches mons
  unfolding watches erase
  watches-erase_ne m [] ne = refl
  watches-erase_ne m ((n, g) ∷ mons) ne =
      let ih = watches-erase_ne m mons ne in
      elim (Bool-cases (n == m)) [
        | inr apart ↦ rw apart (ap (λ k. if owner n == p then suc k else k) ih)
        | inl same ↦
            let other = ne→== (owner n) p (λ e. ne (ap owner (sym ((==_iff n m).0 same)) ∙ e)) in
            rw (same, other) ih
      ]

  pub watches-erase_le :
      (m : ℕ) (mons : List (ℕ × ℕ)) → Distinct mons → watches mons ≤ suc (watches (erase m mons))
  unfolding watches erase
  watches-erase_le m [] d = omega arith
  watches-erase_le m ((n, g) ∷ mons) (absent, d) =
      let ih = watches-erase_le m mons d in
      elim (Bool-cases (n == m)) [
        | inl same ↦
            let gone =
              erase_absent m mons
                (subst (λ k. lookup k mons ≡ none) ((==_iff n m).0 same) absent) in
            rw (same, gone) (ground arith)
        | inr apart ↦ rw apart (ground (arith, ih))
      ]

  -- The monitor that `del_mon` ends is the process's own.
  pub watches-del_mon_self :
      (s : Monitors) → IsLinked owner s → watches s.mon_map ≤ suc (watches (del_mon p s).0.mon_map)
  unfolding del_mon
  watches-del_mon_self s v = elim (Option-cases (lookup p s.proc_mon_map)) [
    | inl absent ↦ rw absent (omega arith)
    | inr (m, found) ↦ rw found (watches-erase_le m s.mon_map v.monitors)
  ]

  pub watches-del_mon_ne :
      (q : ℕ) (s : Monitors)
      → q ≢ p
      → IsLinked owner s
      → watches (del_mon q s).0.mon_map ≡ watches s.mon_map
  unfolding del_mon
  watches-del_mon_ne q s ne v = elim (Option-cases (lookup q s.proc_mon_map)) [
    | inl absent ↦ rw absent refl
    | inr (m, found) ↦
        rw found (watches-erase_ne m s.mon_map (λ e. ne (sym (v.owned q m found) ∙ e)))
  ]

  pub watches-process_exit_ne :
      (m q : ℕ) (s : Monitors)
      → owner m ≡ q
      → q ≢ p
      → watches (process_exit m q s).1.mon_map ≡ watches s.mon_map
  unfolding process_exit
  watches-process_exit_ne m q s o ne = elim (Option-cases (lookup m s.mon_map)) [
    | inl absent ↦ rw absent refl
    | inr (h, found) ↦ rw found (watches-erase_ne m s.mon_map (λ e. ne (sym o ∙ e)))
  ]

  -- A process that is watched has a monitor.
  pub watched_by :
      (mons : List (ℕ × ℕ)) (h : ℕ)
      → OwnedBy h mons
      → Distinct mons
      → 1 ≤ watches mons
      → (m : ℕ) × (lookup m mons ≡ some h) × (owner m ≡ p)
  unfolding watches lookup
  watched_by [] h o d le = absurd (omega (arith, le))
  watched_by ((m, g) ∷ mons) h (same, o) (absent, d) le = elim (Bool-cases (owner m == p)) [
    | inl e ↦ (m, rw ((==_iff m m).1 refl) (ap some same), (==_iff (owner m) p).0 e)
    | inr e ↦
        let (n, found, own) = watched_by mons h o d (rw e at le) in
        (
          n,
          elim (Bool-cases (m == n)) [
            | inl twice ↦
                absurd (cc (subst (λ k. lookup k mons ≡ none) ((==_iff m n).0 twice) absent, found))
            | inr apart ↦ rw apart found
          ],
          own,
        )
  ]

insert-OwnedBy : (m h : ℕ) (mons : List (ℕ × ℕ)) → OwnedBy h mons → OwnedBy h (insert m h mons)
unfolding insert
insert-OwnedBy m h mons o = elim (Option-cases (lookup m mons)) [
  | inl absent ↦ rw absent (refl, o)
  | inr (g, found) ↦ rw found o
]

erase-OwnedBy : (m h : ℕ) (mons : List (ℕ × ℕ)) → OwnedBy h mons → OwnedBy h (erase m mons)
unfolding erase
erase-OwnedBy m h [] o = tt
erase-OwnedBy m h ((n, g) ∷ mons) (e, o) = elim (Bool-cases (n == m)) [
  | inl same ↦ rw same (erase-OwnedBy m h mons o)
  | inr apart ↦ rw apart (e, erase-OwnedBy m h mons o)
]

pub add_mon-OwnedBy :
    (answer : Option ℕ) (p h : ℕ) (s : Monitors)
    → OwnedBy h s.mon_map
    → OwnedBy h (add_mon answer p h s).1.mon_map
unfolding add_mon
add_mon-OwnedBy none p h s o = o
add_mon-OwnedBy (some m) p h s o = insert-OwnedBy m h s.mon_map o

pub del_mon-OwnedBy :
    (p h : ℕ) (s : Monitors) → OwnedBy h s.mon_map → OwnedBy h (del_mon p s).0.mon_map
unfolding del_mon
del_mon-OwnedBy p h s o = elim (Option-cases (lookup p s.proc_mon_map)) [
  | inl absent ↦ rw absent o
  | inr (m, found) ↦ rw found (erase-OwnedBy m h s.mon_map o)
]

pub process_exit-OwnedBy :
    (m p h : ℕ) (s : Monitors) → OwnedBy h s.mon_map → OwnedBy h (process_exit m p s).1.mon_map
unfolding process_exit
process_exit-OwnedBy m p h s o = elim (Option-cases (lookup m s.mon_map)) [
  | inl absent ↦ rw absent o
  | inr (g, found) ↦ rw found (erase-OwnedBy m h s.mon_map o)
]

abbrev with_mon : ℕ → ℕ → Monitors → Monitors
with_mon m k s = record s { mon_map = (m, k) ∷ s.mon_map }

-- The destructor of a handler that has no monitor leaves the maps.
del_loop-none :
    (h g : ℕ) (mons procs : List (ℕ × ℕ))
    → g ≢ h
    → OwnedBy g mons
    → (del_loop h mons procs).0 ≡ record { mon_map = mons; proc_mon_map = procs }
unfolding del_loop
del_loop-none h g [] procs ne o = refl
del_loop-none h g ((m, k) ∷ mons) procs ne (e, o) =
    let apart = ne→== k h (λ same. ne (sym e ∙ same)) in
    rw apart (ap (with_mon m k) (del_loop-none h g mons procs ne o))

pub del_mons-none :
    (this h g : ℕ) (s : Monitors) → g ≢ h → OwnedBy g s.mon_map → (del_mons this h s).0 ≡ s
unfolding del_mons
del_mons-none this h g s ne o = elim (Bool-cases (h == this)) [
  | inl same ↦ rw same refl
  | inr apart ↦ rw apart (del_loop-none h g s.mon_map s.proc_mon_map ne o)
]
