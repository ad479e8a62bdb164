-- ===== src/Locks/Order.antt =====
-- The rule that keeps the threads apart: a mutex is taken above all that are held, the last taken is given
-- back first, and what is watched is used under its own mutex.
use gen_utp.Base.{
  ℕ, ◌<◌, ◌≡◌, refl, sym, ap, subst, Bool, true, false, List, [], ◌∷◌, ◌++◌, append-nil,
  append_assoc, ==_iff,
}
use gen_utp.Locks.{
  Mutex, queue_mutex, utp_mutex, map_mutex, is_same, Shared, monitors, fdmap, acceptor_queue,
  libutp, Act, lock, unlock, uses, locked, holds,
}
use gen_utp.Locks.Methods.{when}

-- The order of the mutexes: those of the listeners, then libutp's, then that of the maps.
abbrev pub rank : Mutex → ℕ
rank (queue_mutex n) = 0
rank utp_mutex = 1
rank map_mutex = 2

abbrev pub guard : Shared → Mutex
guard monitors = map_mutex
guard fdmap = map_mutex
guard (acceptor_queue n) = queue_mutex n
guard libutp = utp_mutex

-- All of some mutexes come before a rank.
abbrev pub Below : ℕ → List Mutex → Type 0
Below r [] = Unit
Below r (h ∷ held) = (rank h < r) × Below r held

module _ (watched : Shared → Bool) where
  abbrev pub IsGuarded : Shared → List Mutex → Type 0
  IsGuarded s held = watched s ≡ true → holds (guard s) held ≡ true

  -- What is left of a call follows the rule, by a thread that holds some mutexes.
  abbrev pub Follows : List Mutex → List Act → Type 0
  Follows held [] = held ≡ []
  Follows held (lock m ∷ todo) = Below (rank m) held × Follows (m ∷ held) todo
  Follows [] (unlock m ∷ todo) = ⊥
  Follows (h ∷ held) (unlock m ∷ todo) = (h ≡ m) × Follows held todo
  Follows held (uses s ∷ todo) = IsGuarded s held × Follows held todo

  -- A part of a call that leaves the mutexes as they are.
  pub record Keeps (held : List Mutex) (acts : List Act) : Type 0 where
    pub before : (todo : List Act) → Follows held todo → Follows held (acts ++ todo)

  pub nil-Keeps : (held : List Mutex) → Keeps held []
  nil-Keeps held = record { before = λ todo f. f }

  pub append-Keeps :
      (held : List Mutex) (xs ys : List Act) → Keeps held xs → Keeps held ys → Keeps held (xs ++ ys)
  append-Keeps held xs ys kx ky = record {
    before = λ todo f.
        subst (Follows held) (sym (append_assoc xs ys todo))
          (kx.before (ys ++ todo) (ky.before todo f));
  }

  pub uses-Keeps :
      (held : List Mutex) (s : Shared) (xs : List Act)
      → IsGuarded s held
      → Keeps held xs
      → Keeps held (uses s ∷ xs)
  uses-Keeps [] s xs g k = record { before = λ todo f. (g, k.before todo f) }
  uses-Keeps (h ∷ held) s xs g k = record { before = λ todo f. (g, k.before todo f) }

  pub locked-Keeps :
      (held : List Mutex) (m : Mutex) (body : List Act)
      → Below (rank m) held
      → Keeps (m ∷ held) body
      → Keeps held (locked m body)
  unfolding locked
  locked-Keeps held m body b k = record {
    before = λ todo f. (
      b,
      subst (Follows (m ∷ held)) (sym (append_assoc body (unlock m ∷ []) todo))
          (k.before (unlock m ∷ todo) (refl, f)),
    );
  }

  pub when-Keeps :
      (held : List Mutex) (b : Bool) (xs : List Act) → Keeps held xs → Keeps held (when b xs)
  when-Keeps held true xs k = k
  when-Keeps held false xs k = nil-Keeps held

  pub Keeps-Follows : (acts : List Act) → Keeps [] acts → Follows [] acts
  Keeps-Follows acts k = subst (Follows []) (append-nil acts) (k.before [] refl)

pub is_same_self : (m : Mutex) → is_same m m ≡ true
is_same_self (queue_mutex n) = (==_iff n n).1 refl
is_same_self utp_mutex = refl
is_same_self map_mutex = refl

pub is_same→≡ : (m k : Mutex) → is_same m k ≡ true → m ≡ k
is_same→≡ (queue_mutex n) (queue_mutex k) e = ap queue_mutex ((==_iff n k).0 e)
is_same→≡ utp_mutex utp_mutex e = refl
is_same→≡ map_mutex map_mutex e = refl
is_same→≡ (queue_mutex n) utp_mutex e = cc
is_same→≡ (queue_mutex n) map_mutex e = cc
is_same→≡ utp_mutex (queue_mutex k) e = cc
is_same→≡ utp_mutex map_mutex e = cc
is_same→≡ map_mutex (queue_mutex k) e = cc
is_same→≡ map_mutex utp_mutex e = cc
