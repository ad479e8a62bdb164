-- ===== src/Driver/Shape.antt =====
-- When a reply is one term and a message specification makes one term.
use gen_utp.Base.{
  ℕ, zero, suc, ◌+◌, ◌-◌, ◌≡◌, Option, some, none, List, [], ◌∷◌, ltb, if◌then◌else◌,
}
use gen_utp.Driver.Defs.{Token, Reply, DrvTerm, Message}

-- How many terms are still to come, after tokens that begin with some number of them to come.
unfoldable pub pending : ℕ → List Token → Option ℕ
pending n [] = some n
pending zero (t ∷ ts) = none
pending (suc n) (Token.tuple_header k ∷ ts) = pending (k + n) ts
pending (suc n) (Token.list_header k ∷ ts) = pending (suc k + n) ts
pending (suc n) (t ∷ ts) = pending n ts

-- The tokens make exactly one term.
abbrev pub IsTerm : List Token → Type 0
IsTerm ts = pending 1 ts ≡ some 0

abbrev pub IsReply : Reply → Type 0
IsReply (Reply.term ts) = IsTerm ts
IsReply _ = Unit {0}

-- How many terms stand on the stack that a specification builds.
unfoldable pub stack : ℕ → List DrvTerm → Option ℕ
stack n [] = some n
stack n (DrvTerm.list k ∷ ts) = if ltb n k then none else stack (suc (n - k)) ts
stack n (DrvTerm.tuple k ∷ ts) = if ltb n k then none else stack (suc (n - k)) ts
stack n (t ∷ ts) = stack (suc n) ts

-- The cells of the array that the entries take.
abbrev pub cells : List DrvTerm → ℕ
cells [] = 0
cells (DrvTerm.ext2term b ∷ ts) = 3 + cells ts
cells (DrvTerm.text b ∷ ts) = 3 + cells ts
cells (DrvTerm.buf2binary b ∷ ts) = 3 + cells ts
cells (t ∷ ts) = 2 + cells ts

abbrev pub entries : Message → List DrvTerm
entries (Message.output ts) = ts
entries (Message.send to ts) = ts

-- A message's specification makes exactly one term.
abbrev pub IsMessage : Message → Type 0
IsMessage m = stack 0 (entries m) ≡ some 1
