-- ===== src/Driver/Queue.antt =====
-- The queue that the runtime keeps for a port: `driver_sizeq`, `driver_peekq`, `driver_deq` and
-- `driver_enq` are the runtime's, so they are a parameter.
use gen_utp.Base.{ℕ, ◌≤◌, ◌≡◌, List, [], ◌∷◌, ◌++◌, length, drop}

pub record DrvQueue : Type 1 where
  pub Queue : Type 0
  pub sizeq : Queue → ℕ
  -- the buffers of the `SysIOVec`
  pub peekq : Queue → List (List ℕ)
  pub deq : Queue → ℕ → Queue
  pub enq : Queue → List ℕ → Queue

abbrev pub flat : List (List ℕ) → List ℕ
flat [] = []
flat (v ∷ vec) = v ++ flat vec

module _ (d : DrvQueue) where
  open d use {Queue, sizeq, peekq, deq, enq}

  abbrev pub content : Queue → List ℕ
  content q = flat (peekq q)

  -- What erl_driver documents of them.
  pub record DrvQueueLaws : Type 0 where
    pub sizeq_lem : (q : Queue) → sizeq q ≡ length (content q)
    pub content-deq : (q : Queue) (n : ℕ) → n ≤ sizeq q → content (deq q n) ≡ drop n (content q)
    pub content-enq : (q : Queue) (bytes : List ℕ) → content (enq q bytes) ≡ content q ++ bytes
