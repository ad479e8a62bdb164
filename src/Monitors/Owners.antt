-- ===== src/Monitors/Owners.antt =====
-- `del_mons`, which `~SocketHandler` calls: no monitor of the handler is left.
use gen_utp.Base.{
  ℕ, ◌≡◌, ◌≢◌, refl, sym, ap, subst, ◌∙◌, inl, inr, Bool-cases, some, none, List, [], ◌∷◌, ◌==◌,
  ==_iff, ne→==, lookup, Distinct, arith,
}
use gen_utp.Monitors.{Monitors, drop_mon, del_loop, del_mons}
use gen_utp.Monitors.Linked.{IsLinked}

drop_mon-absent :
    (m q : ℕ) (procs : List (ℕ × ℕ)) → lookup q procs ≡ none → lookup q (drop_mon m procs).0 ≡ none
unfolding drop_mon lookup
drop_mon-absent m q [] e = refl
drop_mon-absent m q ((p, n) ∷ procs) e = elim (Bool-cases (p == q)) [
  | inl same ↦ cc (rw same at e)
  | inr ne ↦
      let ih = drop_mon-absent m q procs (rw ne at e) in
      elim (Bool-cases (n == m)) [ inl gone ↦ rw gone ih | inr stays ↦ rw stays (rw ne ih) ]
]

drop_mon-Distinct : (m : ℕ) (procs : List (ℕ × ℕ)) → Distinct procs → Distinct (drop_mon m procs).0
unfolding drop_mon
drop_mon-Distinct m [] d = tt
drop_mon-Distinct m ((p, n) ∷ procs) (h, d) = elim (Bool-cases (n == m)) [
  | inl gone ↦ rw gone (drop_mon-Distinct m procs d)
  | inr stays ↦ rw stays (drop_mon-absent m p procs h, drop_mon-Distinct m procs d)
]

-- What is left was there, and is another monitor's.
drop_mon-left :
    (m q n : ℕ) (procs : List (ℕ × ℕ))
    → Distinct procs
    → lookup q (drop_mon m procs).0 ≡ some n
    → (lookup q procs ≡ some n) × (n ≢ m)
unfolding drop_mon lookup
drop_mon-left m q n [] d e = cc
drop_mon-left m q n ((p, k) ∷ procs) (h, d) e = elim (Bool-cases (k == m)) [
  | inl gone ↦
      let e' = rw gone at e in
      let (found, ne) = drop_mon-left m q n procs d e' in
      elim (Bool-cases (p == q)) [
        | inl same ↦ absurd (cc (subst (λ r. lookup r procs ≡ none) ((==_iff p q).0 same) h, found))
        | inr apart ↦ (rw apart found, ne)
      ]
  | inr stays ↦ elim (Bool-cases (p == q)) [
    | inl same ↦ let e' = rw (stays, same) at e in (rw same e', λ eq. ground (arith, stays))
    | inr apart ↦
        let (found, ne) = drop_mon-left m q n procs d (rw (stays, apart) at e) in
        (rw apart found, ne)
  ]
]

module _ (h : ℕ) where
  del_loop-Distinct :
      (mons procs : List (ℕ × ℕ)) → Distinct procs → Distinct (del_loop h mons procs).0.proc_mon_map
  unfolding del_loop
  del_loop-Distinct [] procs d = d
  del_loop-Distinct ((m, g) ∷ mons) procs d = elim (Bool-cases (g == h)) [
    | inl own ↦ rw own (del_loop-Distinct mons (drop_mon m procs).0 (drop_mon-Distinct m procs d))
    | inr other ↦ rw other (del_loop-Distinct mons procs d)
  ]

  -- The processes that are left were there, and their monitors are not the handler's.
  del_loop-left :
      (mons procs : List (ℕ × ℕ)) (q n : ℕ)
      → Distinct procs
      → lookup q (del_loop h mons procs).0.proc_mon_map ≡ some n
      → (lookup q procs ≡ some n) × ((g : ℕ) → lookup n mons ≡ some g → g ≢ h)
  unfolding del_loop lookup
  del_loop-left [] procs q n d e = (e, λ g f. cc)
  del_loop-left ((m, g) ∷ mons) procs q n d e = elim (Bool-cases (g == h)) [
    | inl own ↦
        let (found, others) =
          del_loop-left mons (drop_mon m procs).0 q n (drop_mon-Distinct m procs d) (rw own at e) in
        let (was, ne) = drop_mon-left m q n procs d found in
        (was, λ k f. others k (rw (ne→== m n (λ eq. ne (sym eq))) at f))
    | inr other ↦
        let (found, others) = del_loop-left mons procs q n d (rw other at e) in
        (
          found,
          λ k f. elim (Bool-cases (m == n)) [
            | inl same ↦ λ eq.
                let same_h : g ≡ k = cc (rw same at f) in
                absurd (cc ((==_iff g h).1 (same_h ∙ eq), other))
            | inr apart ↦ others k (rw apart at f)
          ],
        )
  ]

  -- Exactly the handler's monitors go.
  del_loop-kept :
      (mons procs : List (ℕ × ℕ)) (n g : ℕ)
      → lookup n mons ≡ some g
      → g ≢ h
      → lookup n (del_loop h mons procs).0.mon_map ≡ some g
  unfolding del_loop lookup
  del_loop-kept [] procs n g f ne = cc
  del_loop-kept ((m, k) ∷ mons) procs n g f ne = elim (Bool-cases (m == n)) [
    | inl same ↦
        let e : k ≡ g = cc (rw same at f) in
        rw (ne→== k h (λ eq. ne (sym e ∙ eq)), same) (ap some e)
    | inr apart ↦ elim (Bool-cases (k == h)) [
      | inl own ↦ rw own (del_loop-kept mons (drop_mon m procs).0 n g (rw apart at f) ne)
      | inr other ↦ rw (other, apart) (del_loop-kept mons procs n g (rw apart at f) ne)
    ]
  ]

  del_loop-absent :
      (mons procs : List (ℕ × ℕ)) (n : ℕ)
      → lookup n mons ≡ none
      → lookup n (del_loop h mons procs).0.mon_map ≡ none
  unfolding del_loop lookup
  del_loop-absent [] procs n e = refl
  del_loop-absent ((m, k) ∷ mons) procs n e = elim (Bool-cases (m == n)) [
    | inl same ↦ cc (rw same at e)
    | inr apart ↦ elim (Bool-cases (k == h)) [
      | inl own ↦ rw own (del_loop-absent mons (drop_mon m procs).0 n (rw apart at e))
      | inr other ↦ rw (other, apart) (del_loop-absent mons procs n (rw apart at e))
    ]
  ]

  del_loop-mons-Distinct :
      (mons procs : List (ℕ × ℕ)) → Distinct mons → Distinct (del_loop h mons procs).0.mon_map
  unfolding del_loop
  del_loop-mons-Distinct [] procs d = tt
  del_loop-mons-Distinct ((m, k) ∷ mons) procs (e, d) = elim (Bool-cases (k == h)) [
    | inl own ↦ rw own (del_loop-mons-Distinct mons (drop_mon m procs).0 d)
    | inr other ↦ rw other (del_loop-absent mons procs m e, del_loop-mons-Distinct mons procs d)
  ]

  del_loop-others :
      (mons procs : List (ℕ × ℕ)) (n g : ℕ)
      → Distinct mons
      → lookup n (del_loop h mons procs).0.mon_map ≡ some g
      → (lookup n mons ≡ some g) × (g ≢ h)
  unfolding del_loop lookup
  del_loop-others [] procs n g d f = cc
  del_loop-others ((m, k) ∷ mons) procs n g (e, d) f = elim (Bool-cases (k == h)) [
    | inl own ↦
        let (was, ne) = del_loop-others mons (drop_mon m procs).0 n g d (rw own at f) in
        elim (Bool-cases (m == n)) [
          | inl same ↦ absurd (cc (subst (λ r. lookup r mons ≡ none) ((==_iff m n).0 same) e, was))
          | inr apart ↦ (rw apart was, ne)
        ]
    | inr other ↦ elim (Bool-cases (m == n)) [
      | inl same ↦
          let e' : k ≡ g = cc (rw (other, same) at f) in
          (rw same (ap some e'), λ eq. absurd (cc ((==_iff k h).1 (e' ∙ eq), other)))
      | inr apart ↦
          let (was, ne) = del_loop-others mons procs n g d (rw (other, apart) at f) in
          (rw apart was, ne)
    ]
  ]

-- What is left after the destructor of the handler `h`.
pub record Released (owner : ℕ → ℕ) (h : ℕ) (s s' : Monitors) : Type 0 where
  pub linked : IsLinked owner s'
  pub left : (n g : ℕ) → lookup n s'.mon_map ≡ some g → (lookup n s.mon_map ≡ some g) × (g ≢ h)
  pub kept : (n g : ℕ) → lookup n s.mon_map ≡ some g → g ≢ h → lookup n s'.mon_map ≡ some g

-- `del_mons` of another handler than the one that keeps the maps leaves no monitor that would tell the
-- handler of an exit, keeps every other handler's, and keeps the two maps linked.
pub del_mons-Released :
    (owner : ℕ → ℕ) (this h : ℕ) (s : Monitors)
    → h ≢ this
    → IsLinked owner s
    → Released owner h s (del_mons this h s).0
unfolding del_mons
del_mons-Released owner this h s ne v = rw (ne→== h this ne) record {
  linked = record {
    monitors = del_loop-mons-Distinct h s.mon_map s.proc_mon_map v.monitors;
    processes = del_loop-Distinct h s.mon_map s.proc_mon_map v.processes;
    owned = λ q n e. v.owned q n (del_loop-left h s.mon_map s.proc_mon_map q n v.processes e).0;
    there = λ q n e.
        let (was, others) = del_loop-left h s.mon_map s.proc_mon_map q n v.processes e in
        let (g, found) = v.there q n was in
        (g, del_loop-kept h s.mon_map s.proc_mon_map n g found (others g found));
  };
  left = λ n g f. del_loop-others h s.mon_map s.proc_mon_map n g v.monitors f;
  kept = λ n g f ne. del_loop-kept h s.mon_map s.proc_mon_map n g f ne;
}
