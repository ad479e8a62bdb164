-- ===== src/Locks/Turns.antt =====
-- Lemmas on one act of one thread among the others: who holds a mutex before and after it.
use gen_utp.Base.{
  ℕ, zero, suc, ◌≡◌, ◌≢◌, refl, sym, subst, ◌∙◌, Bool, true, false, ◌||◌, Bool-cases, ◌⊎◌, inl, inr,
  some, none, List, [], ◌∷◌, ◌==◌, ==_iff, get_elem?, set, get_elem?-set_self, get_elem?-set_ne,
  if◌then◌else◌,
}
use gen_utp.Locks.{
  Mutex, is_same, Act, lock, unlock, uses, Thread, holds, release, is_taken, perform,
}
use gen_utp.Locks.Order.{is_same→≡}

pub some_inj : {A : Type 0} {a b : A} → some a ≡ some b → a ≡ b
some_inj e = cc

pub none-some : {A : Type 0} {a : A} → none ≡ some a → ⊥
none-some e = cc

pub if_true : {A : Type 0} (x y : A) {b : Bool} → b ≡ true → (if b then x else y) ≡ x
if_true x y e = rw e refl

pub if_false : {A : Type 0} (x y : A) {b : Bool} → b ≡ false → (if b then x else y) ≡ y
if_false x y e = rw e refl

-- An entry of a list of which one entry was replaced.
pub set-cases :
    {A : Type 0} (c : List A) (i j : ℕ) (t u v : A)
    → get_elem? c i ≡ some t
    → get_elem? (set c i u) j ≡ some v
    → ((i ≡ j) × (v ≡ u)) ⊎ (get_elem? c j ≡ some v)
set-cases c i j t u v e f = elim (Bool-cases (i == j)) [
  | inl same ↦
      let p = (==_iff i j).0 same in
      inl (
        p,
        some_inj (
            sym f ∙ subst (λ k. get_elem? (set c i u) k ≡ some u) p (get_elem?-set_self c i t u e)),
      )
  | inr apart ↦
      let ne : i ≢ j = λ p. let s = (==_iff i j).1 p in cc in
      inr (sym (get_elem?-set_ne c i j u ne) ∙ f)
]

pub or_right : (a b : Bool) → b ≡ true → (a || b) ≡ true
or_right true b e = refl
or_right false b e = e

pub or_false : (a b : Bool) → (a || b) ≡ false → (a ≡ false) × (b ≡ false)
or_false true b e = cc
or_false false b e = (refl, e)

pub or_cases : (a b : Bool) → (a || b) ≡ true → (a ≡ true) ⊎ (b ≡ true)
or_cases true b e = inl refl
or_cases false b e = inr e

module _ (m k : Mutex) where
  pub holds-if :
      (same b : Bool) (held rest : List Mutex)
      → (holds m rest ≡ true → holds m held ≡ true)
      → (x : Mutex) → is_same x m ≡ b
      → holds m (if same then held else x ∷ rest) ≡ true
      → (b || holds m held) ≡ true
  holds-if true b held rest f x e h = or_right b (holds m held) h
  holds-if false true held rest f x e h = refl
  holds-if false false held rest f x e h =
      f (elim (or_cases (is_same x m) (holds m rest) h) [ inl y ↦ absurd (cc) | inr r ↦ r ])

  -- Who holds a mutex after another is given back held it before.
  pub holds-release : (held : List Mutex) → holds m (release k held) ≡ true → holds m held ≡ true
  holds-release [] h = h
  holds-release (x ∷ held) h =
      holds-if (is_same x k) (is_same x m) held (release k held) (holds-release held) x refl h

pub not_taken :
    (m : Mutex) (c : List Thread) (i : ℕ) (t : Thread)
    → is_taken m c ≡ false
    → get_elem? c i ≡ some t
    → holds m t.held ≡ false
not_taken m [] i t n e = cc
not_taken m (x ∷ c) zero t n e =
    subst (λ y. holds m y.held ≡ false) (some_inj e) (or_false (holds m x.held) (is_taken m c) n).0
not_taken m (x ∷ c) (suc i) t n e =
    not_taken m c i t (or_false (holds m x.held) (is_taken m c) n).1 e

pub who_holds :
    (m : Mutex) (c : List Thread)
    → is_taken m c ≡ true
    → (i : ℕ) × (t : Thread) × ((get_elem? c i ≡ some t) × (holds m t.held ≡ true))
who_holds m [] e = cc
who_holds m (t ∷ c) e = elim (or_cases (holds m t.held) (is_taken m c) e) [
  | inl here ↦ (0, t, (refl, here))
  | inr there ↦ let (i, u, (f, h)) = who_holds m c there in (suc i, u, (f, h))
]

-- An act that is performed: the thread's mutexes grow by one that nobody holds at most.
pub perform-holds :
    (c : List Thread) (held : List Mutex) (todo : List Act) (u : Thread) (m : Mutex)
    → perform c held todo ≡ some u
    → holds m u.held ≡ true
    → (holds m held ≡ true) ⊎ (is_taken m c ≡ false)
perform-holds c held [] u m e h = cc
perform-holds c held (unlock k ∷ todo) u m e h =
    inl (holds-release m k held (subst (λ v. holds m v.held ≡ true) (sym (some_inj e)) h))
perform-holds c held (uses s ∷ todo) u m e h =
    inl (subst (λ v. holds m v.held ≡ true) (sym (some_inj e)) h)
perform-holds c held (lock k ∷ todo) u m e h = elim (Bool-cases (is_taken k c)) [
  | inl taken ↦ absurd (none-some (sym (if_true _ _ taken) ∙ e))
  | inr free ↦
      let grown = some_inj (sym (if_false _ _ free) ∙ e) in
      elim (or_cases (is_same k m) (holds m held)
        (subst (λ v. holds m v.held ≡ true) (sym grown) h)) [
          | inl same ↦ inr (subst (λ x. is_taken x c ≡ false) (is_same→≡ k m same) free)
          | inr old ↦ inl old
        ]
]
