-- ===== src/Connection/Sending.antt =====
-- utp_handler.cc, `UtpHandler::do_send_to`, and server.cc, `Server::do_send_to`: the loop that hands
-- one datagram to the kernel. Both have the same loop around `sendto` or `send`. What the kernel
-- answers to each call is an argument. `index` is an `int` of 32 bits: `index += count` adds in 64 bits and
-- keeps the low 32, as the compilers do, and it may come to be negative.
pub mod Coverage
use gen_utp.Base.{
  ℕ, zero, suc, ◌+◌, Bool, true, false, ◌||◌, List, [], ◌∷◌, ◌==◌, if◌then◌else◌, ℤ, add_size,
  sub_size, to_int32, ◌-◌, ◌%◌, ◌^◌,
}

-- `count`, or -1 with an errno.
pub data Sent : Type 0 where
  count : ℕ → Sent
  failure : ℕ → Sent

-- EINTR, EAGAIN and EWOULDBLOCK of Linux, of which the last two are one value.
unfoldable pub is_retryable : ℕ → Bool
is_retryable errno = errno == 4 || errno == 11

-- What a call is given: where it reads, counted from the datagram's start, and how many bytes.
pub record Request : Type 0 where
  pub index : ℤ
  pub size : ℕ

pub data Outcome : Type 0 where
  done : Outcome
  failed : ℕ → Outcome
  going_on : Outcome

-- `len-index` as a `size_t`
unfoldable pub remaining : ℕ → ℤ → ℕ
remaining len (ℤ.pos i) = sub_size len i
remaining len (ℤ.negsuc i) = add_size len (suc i)

-- The `int` that a sum that is not negative is converted to.
abbrev pub narrow : ℕ → ℤ
narrow n = to_int32 (n % 2 ^ 32)

-- `index += -1`
unfoldable pub step_back : ℤ → ℤ
unfolding to_int32
step_back (ℤ.pos zero) = ℤ.negsuc 0
step_back (ℤ.pos (suc i)) = ℤ.pos i
step_back (ℤ.negsuc i) = narrow (2 ^ 32 - (i + 2) % 2 ^ 32)

-- `index += count`; `negsuc i` is 2^32 less than the bit pattern 2^32 - i - 1.
unfoldable pub advance_by : ℕ → ℤ → ℤ
unfolding to_int32
advance_by n (ℤ.pos i) = narrow (i + n)
advance_by n (ℤ.negsuc i) = narrow (2 ^ 32 - (i + 1) % 2 ^ 32 + n)

-- The loop over the kernel's answers: the requests made, and how it ended, `failed` being the call
-- of `do_error`.
unfoldable pub send_loop : ℕ → ℤ → List Sent → List Request × Outcome
unfolding remaining step_back advance_by is_retryable
send_loop len index [] = (record { index = index; size = remaining len index } ∷ [], going_on)
send_loop len index (count n ∷ answers) =
    let request : Request = record { index = index; size = remaining len index } in
    let (requests, outcome) = send_loop len (advance_by n index) answers in
    if n == remaining len index then (request ∷ [], done) else (request ∷ requests, outcome)
send_loop len index (failure errno ∷ answers) =
    let request : Request = record { index = index; size = remaining len index } in
    let (requests, outcome) = send_loop len (step_back index) answers in
    if is_retryable errno then (request ∷ requests, outcome) else (request ∷ [], failed errno)

-- `if (udp_sock != INVALID_SOCKET)`
unfoldable pub do_send_to : Bool → ℕ → List Sent → List Request × Outcome
unfolding send_loop
do_send_to true len answers = send_loop len (ℤ.pos 0) answers
do_send_to false len answers = ([], done)
