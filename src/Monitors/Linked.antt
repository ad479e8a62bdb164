-- ===== src/Monitors/Linked.antt =====
-- The two maps of monitors agree: each process is mapped to a monitor of its own that is there.
use gen_utp.Base.{
  ℕ, ◌≡◌, ◌≢◌, sym, ap, subst, ◌∙◌, inl, inr, Option, Option-cases, some, none, lookup, insert,
  erase, lookup-insert_self, lookup-insert_ne, lookup-erase_self, lookup-erase_ne,
  lookup-insert_cases, Distinct, insert-Distinct, erase-Distinct,
}
use gen_utp.Monitors.{Monitors, add_mon, del_mon, process_exit, without}

-- `owner` says which process a monitor watches, as `driver_get_monitored_process` does.
pub record IsLinked (owner : ℕ → ℕ) (s : Monitors) : Type 0 where
  pub monitors : Distinct s.mon_map
  pub processes : Distinct s.proc_mon_map
  pub owned : (p m : ℕ) → lookup p s.proc_mon_map ≡ some m → owner m ≡ p
  pub there : (p m : ℕ) → lookup p s.proc_mon_map ≡ some m → (h : ℕ) × (lookup m s.mon_map ≡ some h)

-- A monitor that `driver_monitor_process` makes is none of those in use, and watches the process.
abbrev pub IsFresh : (ℕ → ℕ) → Option ℕ → ℕ → Monitors → Type 0
IsFresh owner none p s = Unit {0}
IsFresh owner (some m) p s = (lookup m s.mon_map ≡ none) × (owner m ≡ p)

module _ (owner : ℕ → ℕ) where
  -- A monitor and its process go together.
  without-IsLinked :
      (m p : ℕ) (s : Monitors) → owner m ≡ p → IsLinked owner s → IsLinked owner (without m p s)
  without-IsLinked m p s o v = record {
    monitors = erase-Distinct m s.mon_map v.monitors;
    processes = erase-Distinct p s.proc_mon_map v.processes;
    owned = λ q n e. v.owned q n (stays q n e);
    there = λ q n e.
        let (h, found) = v.there q n (stays q n e) in
        (
          h,
          lookup-erase_ne m n s.mon_map
                (λ same. other q n e (sym o ∙ (ap owner same ∙ v.owned q n (stays q n e))))
              ∙ found,
        );
  }
    where
      other : (q n : ℕ) → lookup q (erase p s.proc_mon_map) ≡ some n → p ≢ q
      other q n e same = cc (
        subst (λ k. lookup k (erase p s.proc_mon_map) ≡ none) same
            (lookup-erase_self p s.proc_mon_map),
        e,
      )

      stays :
          (q n : ℕ) → lookup q (erase p s.proc_mon_map) ≡ some n → lookup q s.proc_mon_map ≡ some n
      stays q n e =
          sym (
            lookup-erase_ne p q s.proc_mon_map (λ same. cc (
              subst (λ k. lookup k (erase p s.proc_mon_map) ≡ none) same
                  (lookup-erase_self p s.proc_mon_map),
              e,
            )))
          ∙ e

  pub add_mon-IsLinked :
      (answer : Option ℕ) (p h : ℕ) (s : Monitors)
      → IsFresh owner answer p s
      → IsLinked owner s
      → IsLinked owner (add_mon answer p h s).1
  unfolding add_mon
  add_mon-IsLinked none p h s fresh v = v
  add_mon-IsLinked (some m) p h s (fresh, o) v = record {
    monitors = insert-Distinct m h s.mon_map v.monitors;
    processes = insert-Distinct p m s.proc_mon_map v.processes;
    owned = λ q n e. elim (lookup-insert_cases p q m n s.proc_mon_map e) [
      | inl (same, new) ↦ subst (λ k. owner k ≡ q) new (o ∙ same)
      | inr old ↦ v.owned q n old
    ];
    there = λ q n e. elim (lookup-insert_cases p q m n s.proc_mon_map e) [
      | inl (same, new) ↦ (
        h,
        subst (λ k. lookup k (insert m h s.mon_map) ≡ some h) new
            (lookup-insert_self m h s.mon_map fresh),
      )
      | inr old ↦ kept q n old
    ];
  }
    where
      kept :
          (q n : ℕ)
          → lookup q s.proc_mon_map ≡ some n
          → (g : ℕ) × (lookup n (insert m h s.mon_map) ≡ some g)
      kept q n old =
          let (g, found) = v.there q n old in
          (
            g,
            lookup-insert_ne m n h s.mon_map
                  (λ same. cc (subst (λ k. lookup k s.mon_map ≡ none) same fresh, found))
                ∙ found,
          )

  pub del_mon-IsLinked : (p : ℕ) (s : Monitors) → IsLinked owner s → IsLinked owner (del_mon p s).0
  unfolding del_mon
  del_mon-IsLinked p s v = elim (Option-cases (lookup p s.proc_mon_map)) [
    | inl absent ↦ rw absent v
    | inr (m, found) ↦ rw found (without-IsLinked m p s (v.owned p m found) v)
  ]

  pub process_exit-IsLinked :
      (m p : ℕ) (s : Monitors)
      → owner m ≡ p
      → IsLinked owner s
      → IsLinked owner (process_exit m p s).1
  unfolding process_exit
  process_exit-IsLinked m p s o v = elim (Option-cases (lookup m s.mon_map)) [
    | inl absent ↦ rw absent v
    | inr (h, found) ↦ rw found (without-IsLinked m p s o v)
  ]
