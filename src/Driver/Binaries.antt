-- ===== src/Driver/Binaries.antt =====
-- The runtime's reference-counted binaries: `driver_alloc_binary`, `driver_binary_inc_refc`,
-- `driver_free_binary`, `driver_binary_get_refc` and the memory of `orig_bytes` are the runtime's,
-- so they are a parameter. A binary is its address.
use gen_utp.Base.{ℕ, suc, ◌-◌, ◌<◌, ◌≡◌, List, ◌==◌, if◌then◌else◌}

pub record DrvBinaries : Type 1 where
  pub Store : Type 0
  pub alloc : ℕ → Store → ℕ × Store
  pub inc_refc : ℕ → Store → Store
  pub free : ℕ → Store → Store
  -- 0 for an address that holds no binary
  pub refc : ℕ → Store → ℕ
  pub orig_bytes : ℕ → Store → List ℕ
  -- a write of bytes at the front of `orig_bytes`, which are no more than it holds
  pub write : ℕ → List ℕ → Store → Store

module _ (rt : DrvBinaries) where
  open rt use {Store, alloc, inc_refc, free, refc}

  -- What erl_driver documents of the counts.
  pub record DrvBinariesLaws : Type 0 where
    pub alloc_fresh : (n : ℕ) (s : Store) → refc (alloc n s).0 s ≡ 0
    pub refc-alloc :
        (n b : ℕ) (s : Store) → refc b (alloc n s).1 ≡ (if (alloc n s).0 == b then 1 else refc b s)
    pub refc-inc_refc :
        (b c : ℕ) (s : Store)
        → 0 < refc c s
        → refc b (inc_refc c s) ≡ (if c == b then suc (refc b s) else refc b s)
    pub refc-free :
        (b c : ℕ) (s : Store)
        → 0 < refc c s
        → refc b (free c s) ≡ (if c == b then refc b s - 1 else refc b s)
