-- ===== src/Binary/Counts.antt =====
-- The objects of class `Binary` and the counts of the runtime: no operation loses or invents a
-- reference.
use gen_utp.Base.{
  ℕ, zero, suc, ◌+◌, ◌≤◌, ◌<◌, ◌≡◌, ◌≢◌, refl, subst, ◌∙◌, inl, inr, Bool-cases, some, none, List,
  [], ◌∷◌, get_elem?, set, remove, get_elem?-set_ne, get_elem?-set_self, ◌==◌, ==_iff,
  if◌then◌else◌, Result, ok, fault, ◌>>=◌, or_throw, or_throw-ok, Leaves, bind-Leaves, arith,
}
use gen_utp.Binary.{Binary, copy, reset, destroy, assign, allocate, swap}
use gen_utp.Driver.Binaries.{DrvBinaries, DrvBinariesLaws}

-- Whether an object holds a reference to `b`, and how many objects do.
abbrev pub holds : ℕ → Binary → ℕ
holds b none = 0
holds b (some c) = if c == b then 1 else 0

abbrev pub holders : ℕ → List Binary → ℕ
holders b [] = 0
holders b (x ∷ xs) = holds b x + holders b xs

holders-set :
    (b : ℕ) (xs : List Binary) (i : ℕ) (x y : Binary)
    → get_elem? xs i ≡ some x
    → holders b (set xs i y) + holds b x ≡ holders b xs + holds b y
holders-set b [] i x y e = cc
holders-set b (z ∷ xs) zero x y e = ground arith
holders-set b (z ∷ xs) (suc i) x y e = omega (arith, holders-set b xs i x y e)

holders-remove :
    (b : ℕ) (xs : List Binary) (i : ℕ) (x : Binary)
    → get_elem? xs i ≡ some x
    → holders b (remove xs i) + holds b x ≡ holders b xs
holders-remove b [] i x e = cc
holders-remove b (z ∷ xs) zero x e = ground arith
holders-remove b (z ∷ xs) (suc i) x e = omega (arith, holders-remove b xs i x e)

holders-two :
    (b : ℕ) (xs : List Binary) (i j : ℕ) (x y : Binary)
    → i ≢ j
    → get_elem? xs i ≡ some x
    → get_elem? xs j ≡ some y
    → holds b x + holds b y ≤ holders b xs
holders-two b xs i j x y ne ex ey =
    let at : get_elem? (set xs i none) j ≡ some y = get_elem?-set_ne xs i j none ne ∙ ey in
    omega (arith, holders-set b xs i x none ex, holders-remove b (set xs i none) j y at)

holds_self : (b : ℕ) → holds b (some b) ≡ 1
holds_self b = rw ((==_iff b b).1 refl) refl

-- What the driver does to its objects; an object is its place in a list.
pub data Op : Type 0 where
  copying : ℕ → Op
  destroying : ℕ → Op
  assigning : ℕ → ℕ → Op
  allocating : ℕ → ℕ → Op
  resetting : ℕ → Op
  swapping : ℕ → ℕ → Op

module _ (rt : DrvBinaries) where
  open rt use {Store, refc}

  pub record Objects : Type 0 where
    pub binaries : List Binary
    pub store : Store

  abbrev at_place : ℕ → Objects → Result Binary
  at_place i o = or_throw fault (get_elem? o.binaries i)

  abbrev put_at : ℕ → List Binary → Binary × Store → Objects
  put_at i bs r = record { binaries = set bs i r.0; store = r.1 }

  unfoldable pub step : Op → Objects → Result Objects
  unfolding copy destroy assign allocate reset swap
  step (copying i) o = do
    x ← at_place i o
    let (y, s) = copy rt x o.store
    ok (record { binaries = y ∷ o.binaries; store = s })
  step (destroying i) o = do
    x ← at_place i o
    ok (record { binaries = remove o.binaries i; store = destroy rt x o.store })
  step (assigning i j) o = do
    x ← at_place i o
    y ← at_place j o
    ok (put_at i o.binaries (assign rt (i == j) x y o.store))
  step (allocating i n) o = do x ← at_place i o; ok (put_at i o.binaries (allocate rt n x o.store))
  step (resetting i) o = do x ← at_place i o; ok (put_at i o.binaries (reset rt none x o.store))
  step (swapping i j) o = do
    x ← at_place i o
    y ← at_place j o
    let (x', y') = swap x y
    ok (record { binaries = set (set o.binaries i x') j y'; store = o.store })

  -- The count of each binary is the number of objects that hold it and of the references that are
  -- held elsewhere, such as in a write queue.
  abbrev pub Counted : (ℕ → ℕ) → Objects → Type 0
  Counted elsewhere o = (b : ℕ) → refc b o.store ≡ holders b o.binaries + elsewhere b

  -- What an object holds is there.
  abbrev Alive : Binary → Store → Type 0
  Alive none s = Unit {0}
  Alive (some c) s = 0 < refc c s

  module _ (laws : DrvBinariesLaws rt) where
    refc-copy :
        (b : ℕ) (x : Binary) (s : Store)
        → Alive x s
        → (refc b (copy rt x s).1 ≡ refc b s + holds b x) × ((copy rt x s).0 ≡ x)
    unfolding copy
    refc-copy b none s h = (omega arith, refl)
    refc-copy b (some c) s h = (ground (arith, laws.refc-inc_refc b c s h), refl)

    refc-reset :
        (b : ℕ) (x : Binary) (s : Store)
        → Alive x s
        → refc b (reset rt none x s).1 + holds b x ≡ refc b s
    unfolding reset
    refc-reset b none s h = omega arith
    refc-reset b (some c) s h = ground (arith, laws.refc-free b c s h)

    Counted-Alive :
        (elsewhere : ℕ → ℕ) (o : Objects) (i : ℕ) (x : Binary)
        → Counted elsewhere o
        → get_elem? o.binaries i ≡ some x
        → Alive x o.store
    Counted-Alive elsewhere o i none h e = tt
    Counted-Alive elsewhere o i (some c) h e =
        omega (arith, h c, holders-remove c o.binaries i (some c) e, holds_self c)

    -- The other object is there as well once this one has given up its reference.
    reset-Alive :
        (elsewhere : ℕ → ℕ) (o : Objects) (i j : ℕ) (x y : Binary)
        → Counted elsewhere o
        → i ≢ j
        → get_elem? o.binaries i ≡ some x
        → get_elem? o.binaries j ≡ some y
        → Alive y (reset rt none x o.store).1
    reset-Alive elsewhere o i j x none h ne ex ey = tt
    reset-Alive elsewhere o i j x (some c) h ne ex ey = omega (
      arith,
      h c,
      holds_self c,
      holders-two c o.binaries i j x (some c) ne ex ey,
      refc-reset c x o.store (Counted-Alive elsewhere o i x h ex),
    )

    refc-allocate :
        (b n : ℕ) (x : Binary) (s : Store)
        → Alive x s
        → refc b (allocate rt n x s).1 + holds b x ≡ refc b s + holds b (allocate rt n x s).0
    unfolding allocate
    refc-allocate b n x s h =
        let r = refc-reset b x s h in
        let s' = (reset rt none x s).1 in
        let zero_before = laws.alloc_fresh n s' in
        ground (arith, r, laws.refc-alloc n b s', laws.alloc_fresh n s')

    refc-assign :
        (elsewhere : ℕ → ℕ) (o : Objects) (b i j : ℕ) (x y : Binary)
        → Counted elsewhere o
        → get_elem? o.binaries i ≡ some x
        → get_elem? o.binaries j ≡ some y
        → refc b (assign rt (i == j) x y o.store).1 + holds b x
          ≡ refc b o.store + holds b (assign rt (i == j) x y o.store).0
    unfolding assign
    refc-assign elsewhere o b i j x y h ex ey = elim (Bool-cases (i == j)) [
      | inl same ↦ rw same refl
      | inr other ↦
          let ne : i ≢ j = λ e. cc ((==_iff i j).1 e, other) in
          let c =
            refc-copy b y (reset rt none x o.store).1
              (reset-Alive elsewhere o i j x y h ne ex ey) in
          rw (other, c.1)
            (omega (arith, c.0, refc-reset b x o.store (Counted-Alive elsewhere o i x h ex)))
    ]

    holders-put :
        (b i : ℕ) (bs : List Binary) (x y : Binary) (n m k : ℕ)
        → get_elem? bs i ≡ some x
        → n ≡ holders b bs + k
        → m + holds b x ≡ n + holds b y
        → m ≡ holders b (set bs i y) + k
    holders-put b i bs x y n m k ex before change = omega (arith, holders-set b bs i x y ex)

    place :
        (i : ℕ) (o : Objects) (x : Binary) → at_place i o ≡ ok x → get_elem? o.binaries i ≡ some x
    place i o x e = or_throw-ok fault (get_elem? o.binaries i) x e

    reset-none : (x : Binary) (s : Store) → (reset rt none x s).0 ≡ none
    unfolding reset
    reset-none none s = refl
    reset-none (some c) s = refl

    moved_to :
        (i j : ℕ) (bs : List Binary) (x y : Binary)
        → get_elem? bs i ≡ some x
        → get_elem? bs j ≡ some y
        → get_elem? (set bs i y) j ≡ some y
    moved_to i j bs x y ex ey = elim (Bool-cases (i == j)) [
      | inl same ↦
          let e : i ≡ j = (==_iff i j).0 same in
          subst (λ k. get_elem? (set bs i y) k ≡ some y) e (get_elem?-set_self bs i x y ex)
      | inr other ↦ get_elem?-set_ne bs i j y (λ e. cc ((==_iff i j).1 e, other)) ∙ ey
    ]

    step-Leaves :
        (elsewhere : ℕ → ℕ) (op : Op) (o : Objects)
        → Counted elsewhere o
        → Leaves (Counted elsewhere) (step op o)
    unfolding step
    step-Leaves elsewhere (copying i) o h =
        bind-Leaves (Counted elsewhere) (at_place i o) _ λ x e b.
          let c = refc-copy b x o.store (Counted-Alive elsewhere o i x h (place i o x e)) in
          rw c.1 (omega (arith, c.0, h b))
    step-Leaves elsewhere (destroying i) o h =
        bind-Leaves (Counted elsewhere) (at_place i o) _ λ x e b. omega (
          arith,
          h b,
          refc-reset b x o.store (Counted-Alive elsewhere o i x h (place i o x e)),
          holders-remove b o.binaries i x (place i o x e),
        )
    step-Leaves elsewhere (assigning i j) o h =
        bind-Leaves (Counted elsewhere) (at_place i o) _ λ x ex.
          bind-Leaves (Counted elsewhere) (at_place j o) _ λ y ey b.
            holders-put b i o.binaries x _ _ _ (elsewhere b) (place i o x ex) (h b)
              (refc-assign elsewhere o b i j x y h (place i o x ex) (place j o y ey))
    step-Leaves elsewhere (allocating i n) o h =
        bind-Leaves (Counted elsewhere) (at_place i o) _ λ x e b.
          holders-put b i o.binaries x _ _ _ (elsewhere b) (place i o x e) (h b)
            (refc-allocate b n x o.store (Counted-Alive elsewhere o i x h (place i o x e)))
    step-Leaves elsewhere (resetting i) o h =
        bind-Leaves (Counted elsewhere) (at_place i o) _ λ x e b.
          holders-put b i o.binaries x _ _ _ (elsewhere b) (place i o x e) (h b) (
            rw (reset-none x o.store) (
              omega
                (arith, refc-reset b x o.store (Counted-Alive elsewhere o i x h (place i o x e)))))
    step-Leaves elsewhere (swapping i j) o h =
        bind-Leaves (Counted elsewhere) (at_place i o) _ λ x ex.
          bind-Leaves (Counted elsewhere) (at_place j o) _ λ y ey b.
            let at = moved_to i j o.binaries x y (place i o x ex) (place j o y ey) in
            omega (
              arith,
              h b,
              holders-set b o.binaries i x y (place i o x ex),
              holders-set b (set o.binaries i y) j y x at,
            )

    -- Each operation that finds its objects keeps the count of every binary equal to the number of objects
    -- that hold it and of the references that are held elsewhere: no reference is lost or given up twice.
    pub step-Counted :
        (elsewhere : ℕ → ℕ) (op : Op) (o o' : Objects)
        → step op o ≡ ok o'
        → Counted elsewhere o
        → Counted elsewhere o'
    step-Counted elsewhere op o o' run h =
        subst (Leaves (Counted elsewhere)) run (step-Leaves elsewhere op o h)
