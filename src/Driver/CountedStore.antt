-- ===== src/Driver/CountedStore.antt =====
-- A store of binaries for inputs: each address has a count and its bytes, and addresses go up.
use gen_utp.Base.{
  ℕ, zero, suc, ◌-◌, List, [], ◌∷◌, ◌++◌, length, drop, ◌==◌, if◌then◌else◌, ltb, arith,
}
use gen_utp.Driver.Binaries.{DrvBinaries, DrvBinariesLaws}

pub record Counted : Type 0 where
  pub next : ℕ
  pub counts : ℕ → ℕ
  pub contents : ℕ → List ℕ

abbrev zeros : ℕ → List ℕ
zeros zero = []
zeros (suc n) = 0 ∷ zeros n

abbrev count_of : ℕ → Counted → ℕ
count_of b s = if ltb b s.next then s.counts b else 0

abbrev pub counted_store : DrvBinaries
counted_store = record {
  Store = Counted;
  alloc = λ n s. (
    s.next,
    record {
      next = suc s.next;
      counts = λ b. if s.next == b then 1 else s.counts b;
      contents = λ b. if s.next == b then zeros n else s.contents b;
    },
  );
  inc_refc = λ c s. record s { counts = λ b. if c == b then suc (s.counts b) else s.counts b };
  free = λ c s. record s { counts = λ b. if c == b then s.counts b - 1 else s.counts b };
  refc = λ b s. count_of b s;
  orig_bytes = λ b s. s.contents b;
  write = λ c bytes s. record s {
    contents = λ b. if c == b then bytes ++ drop (length bytes) (s.contents b) else s.contents b;
  };
}

pub counted_store_laws : DrvBinariesLaws counted_store
counted_store_laws = record {
  alloc_fresh = λ n s. ground arith;
  refc-alloc = λ n b s. ground arith;
  refc-inc_refc = λ b c s h. ground arith;
  refc-free = λ b c s h. ground arith;
}
