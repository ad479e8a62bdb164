-- ===== src/Locks/Progress.antt =====
-- Threads in the driver never wait for each other in a circle, and all of them come out of it.
use gen_utp.Base.{
  ℕ, zero, suc, ◌+◌, ◌≤◌, ◌<◌, ◌≡◌, refl, sym, ap, ap₂, subst, ◌∙◌, Bool, true, Bool-cases, ◌⊎◌,
  inl, inr, some, List, [], ◌∷◌, get_elem?, set, length, arith,
}
use gen_utp.Locks.{
  Mutex, queue_mutex, utp_mutex, map_mutex, Shared, Act, lock, unlock, uses, Thread, idle, holds,
  is_same, is_taken, perform,
}
use gen_utp.Locks.Calls.{AllIdle, Move, acts_at, Reached}
use gen_utp.Locks.Order.{Below, Follows, rank, is_same→≡}
use gen_utp.Locks.Turns.{who_holds, or_cases, if_true, if_false, none-some, some_inj}
use gen_utp.Locks.Exclusion.{IsOrderly, Reached-IsOrderly, Move-IsOrderly}

-- A number of acts of the threads, one after another.
pub data Runs (c : List Thread) : ℕ → List Thread → Type 0 where
  rests : Runs c 0 c
  goes_on : {n : ℕ} {d e : List Thread} → Runs c n d → Move d e → Runs c (suc n) e

built : {t : Thread} → t.held ≡ [] → t.todo ≡ [] → t ≡ idle
built h e = ap₂ (λ held todo. let t : Thread = record { held = held; todo = todo } in t) h e

-- How many acts are left of all the calls.
unfoldable pub left : List Thread → ℕ
left [] = 0
left (t ∷ threads) = length t.todo + left threads

List-cases : (xs : List Act) → (xs ≡ []) ⊎ ((a : Act) × (bs : List Act) × (xs ≡ a ∷ bs))
List-cases [] = inl refl
List-cases (a ∷ bs) = inr (a, bs, refl)

Below-holds :
    (r : ℕ) (m : Mutex) (held : List Mutex) → Below r held → holds m held ≡ true → rank m < r
Below-holds r m [] b h = cc
Below-holds r m (x ∷ held) (low, b) h = elim (or_cases (is_same x m) (holds m held) h) [
  | inl same ↦ subst (λ y. rank y < r) (is_same→≡ x m same) low
  | inr old ↦ Below-holds r m held b old
]

too_high : (m : Mutex) → 3 ≤ rank m + 0 → ⊥
too_high (queue_mutex n) h = omega arith
too_high utp_mutex h = omega arith
too_high map_mutex h = omega arith

-- With `n` more mutexes to wait for at most.
abbrev Waits : ℕ → Act → Type 0
Waits n (lock m) = 3 ≤ rank m + n
Waits n (unlock m) = Unit
Waits n (uses s) = Unit

some_Waits : (a : Act) → Waits 3 a
some_Waits (lock m) = omega arith
some_Waits (unlock m) = tt
some_Waits (uses s) = tt

module _ (watched : Shared → Bool) where
  holder_Waits :
      (n : ℕ) (m : Mutex) (held : List Mutex) (a : Act) (bs : List Act)
      → Follows watched held (a ∷ bs)
      → holds m held ≡ true
      → 3 ≤ rank m + suc n
      → Waits n a
  holder_Waits n m held (lock k) bs f h w =
      let above : rank m < rank k = Below-holds (rank k) m held f.0 h in omega arith
  holder_Waits n m held (unlock k) bs f h w = tt
  holder_Waits n m held (uses s) bs f h w = tt

  -- The thread can act, or one that holds what it waits for can.
  unblocked :
      (n : ℕ) (c : List Thread) (i : ℕ) (t : Thread) (a : Act) (bs : List Act)
      → IsOrderly watched c
      → get_elem? c i ≡ some t
      → t.todo ≡ a ∷ bs
      → Waits n a
      → (d : List Thread) × Move c d
  unblocked n c i t (unlock m) bs o e f w = (_, acts_at i t _ e (ap (perform c t.held) f) refl)
  unblocked n c i t (uses s) bs o e f w = (_, acts_at i t _ e (ap (perform c t.held) f) refl)
  unblocked zero c i t (lock m) bs o e f w = absurd (too_high m w)
  unblocked (suc n) c i t (lock m) bs o e f w = elim (Bool-cases (is_taken m c)) [
    | inl taken ↦
        let (j, u, (g, h)) = who_holds m c taken in
        elim (List-cases u.todo) [
          | inl out ↦
              let none_left = subst (Follows watched u.held) out (o.follows j u g) in
              absurd (let no = subst (λ x. holds m x ≡ true) none_left h in cc)
          | inr (b, cs, k) ↦ unblocked n c j u b cs o g k (
              holder_Waits n m u.held b cs (subst (Follows watched u.held) k (o.follows j u g)) h w)
        ]
    | inr free ↦ (_, acts_at i t _ e (ap (perform c t.held) f ∙ if_false _ _ free) refl)
  ]

  left-set :
      (c : List Thread) (i : ℕ) (t u : Thread)
      → get_elem? c i ≡ some t
      → length t.todo ≡ suc (length u.todo)
      → suc (left (set c i u)) ≡ left c
  unfolding left
  left-set [] i t u e h = cc
  left-set (x ∷ c) zero t u e h =
      let h' = subst (λ y. length y.todo ≡ suc (length u.todo)) (sym (some_inj e)) h in
      omega (arith, h')
  left-set (x ∷ c) (suc i) t u e h = let ih = left-set c i t u e h in omega (arith, ih)

  perform-length :
      (c : List Thread) (held : List Mutex) (todo : List Act) (u : Thread)
      → perform c held todo ≡ some u
      → length todo ≡ suc (length u.todo)
  perform-length c held [] u e = cc
  perform-length c held (unlock k ∷ todo) u e = ap (λ v. suc (length v.todo)) (some_inj e)
  perform-length c held (uses s ∷ todo) u e = ap (λ v. suc (length v.todo)) (some_inj e)
  perform-length c held (lock k ∷ todo) u e = elim (Bool-cases (is_taken k c)) [
    | inl taken ↦ absurd (none-some (sym (if_true _ _ taken) ∙ e))
    | inr free ↦ ap (λ v. suc (length v.todo)) (some_inj (sym (if_false _ _ free) ∙ e))
  ]

  Move-left : {c d : List Thread} → Move c d → suc (left d) ≡ left c
  Move-left {c} (acts_at i t u e p now) =
      subst (λ x. suc (left x) ≡ left c) (sym now)
        (left-set c i t u e (perform-length c t.held t.todo u p))

  Runs-left : {c d : List Thread} {n : ℕ} → Runs c n d → n + left d ≡ left c
  Runs-left rests = omega arith
  Runs-left (goes_on r m) = omega (arith, Runs-left r, Move-left m)

  Runs-IsOrderly :
      {c d : List Thread} {n : ℕ} → Runs c n d → IsOrderly watched c → IsOrderly watched d
  Runs-IsOrderly rests o = o
  Runs-IsOrderly (goes_on r m) o = Move-IsOrderly watched m (Runs-IsOrderly r o)

  -- Threads of which none has anything left to do are out of the driver with no mutex held.
  out_or_busy :
      (c : List Thread)
      → ((i : ℕ) (t : Thread) → get_elem? c i ≡ some t → Follows watched t.held t.todo)
      → (AllIdle c × (left c ≡ 0))
        ⊎ ((i : ℕ) × (t : Thread) × (a : Act) × (bs : List Act) × ((get_elem? c i ≡ some t)
              × (t.todo ≡ a ∷ bs)))
  unfolding left
  out_or_busy [] f = inl (tt, refl)
  out_or_busy (t ∷ c) f = elim (List-cases t.todo) [
    | inr (a, bs, e) ↦ inr (0, t, a, bs, (refl, e))
    | inl out ↦ elim (out_or_busy c (λ i. f (suc i))) [
      | inr (i, u, a, bs, e) ↦ inr (suc i, u, a, bs, e)
      | inl (idles, none_left) ↦
          let none_held : t.held ≡ [] = subst (Follows watched t.held) out (f 0 t refl) in
          let none_here : length t.todo ≡ 0 = ap length out in
          inl ((built none_held out, idles), omega (arith, none_here, none_left))
    ]
  ]

  moves_or_out :
      (c : List Thread)
      → IsOrderly watched c
      → ((d : List Thread) × Move c d) ⊎ (AllIdle c × (left c ≡ 0))
  moves_or_out c o = elim (out_or_busy c o.follows) [
    | inl out ↦ inr out
    | inr (i, t, a, bs, (e, f)) ↦ inl (unblocked 3 c i t a bs o e f (some_Waits a))
  ]

  -- After any number of acts of the threads that have begun their calls, in any order, either some thread can
  -- act again, or all that was left of the calls is done, every thread is out of the driver, and no mutex is
  -- held.
  pub Reached-ends :
      {c d : List Thread} {n : ℕ}
      → Reached watched c
      → Runs c n d
      → (n + left d ≡ left c) × (((e : List Thread) × Move d e) ⊎ ((n ≡ left c) × AllIdle d))
  Reached-ends {c} {d} {n} r run = (
    Runs-left run,
    elim (moves_or_out d (Runs-IsOrderly run (Reached-IsOrderly watched r))) [
      | inl more ↦ inl more
      | inr (out, none_left) ↦ inr (omega (arith, Runs-left run), out)
    ],
  )
