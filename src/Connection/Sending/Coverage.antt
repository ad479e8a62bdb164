-- ===== src/Connection/Sending/Coverage.antt =====
-- `do_send_to`: which bytes of the datagram the calls of the kernel are given.
use gen_utp.Base.{
  ℕ, ◌+◌, ◌≤◌, ◌<◌, ◌≡◌, refl, inl, inr, true, false, Bool-cases, List, [], ◌∷◌, ◌==◌, ℤ, size_mod,
  add_size, sub_size, arith, ◌%◌, ◌^◌, to_int32, lt→ltb,
}
use gen_utp.Connection.Sending.{
  Sent, count, failure, is_retryable, Request, Outcome, done, failed, going_on, remaining, narrow,
  step_back, advance_by, send_loop, do_send_to,
}

-- The requests go on from `start`, each up to the datagram's end, and each begins where the bytes
-- that the answers before it took end. They stop at that end, at a failure, or where the answers do.
abbrev pub Consecutive : ℕ → ℕ → List Sent → List Request → Type 0
Consecutive len start answers [] = start ≡ len
Consecutive len start [] (r ∷ rs) = (r.index ≡ ℤ.pos start) × (r.size + start ≡ len) × (rs ≡ [])
Consecutive len start (count n ∷ answers) (r ∷ rs) =
    (r.index ≡ ℤ.pos start) × (r.size + start ≡ len) × Consecutive len (start + n) answers rs
Consecutive len start (failure e ∷ answers) (r ∷ rs) =
    (r.index ≡ ℤ.pos start) × (r.size + start ≡ len) × (rs ≡ [])

-- What the kernel may answer from `start` on: no more than it was given, and no failure that the
-- loop tries again.
abbrev pub Answers : ℕ → ℕ → List Sent → Type 0
Answers len start [] = Unit {0}
Answers len start (count n ∷ answers) = (start + n ≤ len) × Answers len (start + n) answers
Answers len start (failure e ∷ answers) = (is_retryable e ≡ false) × Answers len start answers

-- The bytes that the answers took until the loop ended.
abbrev pub bytes_sent : List Sent → ℕ
bytes_sent [] = 0
bytes_sent (count n ∷ answers) = n + bytes_sent answers
bytes_sent (failure e ∷ answers) = 0

-- How the loop ended.
abbrev pub Ends : ℕ → ℕ → List Sent → Outcome → Type 0
Ends len start answers done = start + bytes_sent answers ≡ len
Ends len start answers (failed e) = is_retryable e ≡ false
Ends len start answers going_on = start + bytes_sent answers ≤ len

-- A datagram's size and a place in it leave their difference.
remaining-start :
    (len start : ℕ) → len < size_mod → start ≤ len → remaining len (ℤ.pos start) + start ≡ len
unfolding remaining
remaining-start len start small le = omega arith

bytes_sent_le :
    (len start : ℕ)
    → (answers : List Sent) → start ≤ len
    → Answers len start answers
    → start + bytes_sent answers ≤ len
bytes_sent_le len start [] le ok = omega arith
bytes_sent_le len start (count n ∷ answers) le (le', ok) =
    let ih = bytes_sent_le len (start + n) answers le' ok in omega arith
bytes_sent_le len start (failure e ∷ answers) le ok = omega arith

going_further :
    (len start n : ℕ)
    → (answers : List Sent) (o : Outcome) → Ends len (start + n) answers o
    → Ends len start (count n ∷ answers) o
going_further len start n answers done h = omega arith
going_further len start n answers (failed e) h = h
going_further len start n answers going_on h = omega arith

-- An index below 2^31 is itself as an `int`.
narrow_lem : (n : ℕ) → n < 2 ^ 31 → narrow n ≡ ℤ.pos n
unfolding to_int32
narrow_lem n h = let low : n % 2 ^ 32 ≡ n = omega arith in rw (low, lt→ltb n (2 ^ 31) h) refl

-- A loop that no failure sends back, for a datagram below 2^31 bytes, gives the kernel each byte of the datagram once, in order: each
-- call gets what the calls before it left, up to the datagram's end, and the loop is done only
-- when all of it is sent.
pub send_loop-Coverage :
    (len start : ℕ)
    → (answers : List Sent) → len < 2 ^ 31
    → start ≤ len
    → Answers len start answers
    → Consecutive len start answers ((send_loop len (ℤ.pos start) answers).0)
      × Ends len start answers ((send_loop len (ℤ.pos start) answers).1)
unfolding send_loop advance_by is_retryable
send_loop-Coverage len start [] small le ok =
    ((refl, remaining-start len start (omega arith) le, refl), omega arith)
send_loop-Coverage len start (count n ∷ answers) small le (le', ok) =
    let (ih, ends) = send_loop-Coverage len (start + n) answers small le' ok in
    let r = remaining-start len start (omega arith) le in
    let next = narrow_lem (start + n) (omega arith) in
    let sent = bytes_sent_le len (start + n) answers le' ok in
    let left : n + bytes_sent answers ≡ bytes_sent (count n ∷ answers) = refl in
    elim (Bool-cases (n == remaining len (ℤ.pos start))) [
      | inl e ↦
          let all : n ≡ remaining len (ℤ.pos start) = ground arith in
          rw e ((refl, r, omega arith), omega arith)
      | inr e ↦ rw (e, next) ((refl, r, ih), going_further len start n answers _ ends)
    ]
send_loop-Coverage len start (failure e ∷ answers) small le (fatal, ok) =
    rw fatal ((refl, remaining-start len start (omega arith) le, refl), fatal)

-- Whatever the kernel answers, the loop asks first for what remains at its index.
send_loop-first :
    (len : ℕ) (index : ℤ) (answers : List Sent)
    → (more : List Request) × ((send_loop len index answers).0
        ≡ record { index = index; size = remaining len index } ∷ more)
unfolding send_loop
send_loop-first len index [] = (_, refl)
send_loop-first len index (count n ∷ answers) = elim (Bool-cases (n == remaining len index)) [
  | inl e ↦ ([], rw e)
  | inr e ↦ ((send_loop len (advance_by n index) answers).0, rw e)
]
send_loop-first len index (failure errno ∷ answers) = elim (Bool-cases (is_retryable errno)) [
  | inl e ↦ ((send_loop len (step_back index) answers).0, rw e)
  | inr e ↦ ([], rw e)
]

-- When the datagram was not sent, for a reason that passes, the next call is given an index of -1,
-- which is the byte before the datagram's start, and one byte more than the datagram has.
pub do_send_to-retry :
    (len errno : ℕ)
    → (rest : List Sent) → len + 1 < size_mod
    → is_retryable errno ≡ true
    → (more : List Request) × ((do_send_to true len (failure errno ∷ rest)).0
        ≡ record { index = ℤ.pos 0; size = len }
          ∷ record { index = ℤ.negsuc 0; size = len + 1 }
          ∷ more)
unfolding do_send_to send_loop remaining step_back
do_send_to-retry len errno rest small again =
    let (more, e) = send_loop-first len (ℤ.negsuc 0) rest in
    let whole : sub_size len 0 ≡ len = omega arith in
    let over : add_size len 1 ≡ len + 1 = omega arith in (more, rw (again, e, whole, over))
