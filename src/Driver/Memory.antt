-- ===== src/Driver/Memory.antt =====
-- utils.h, utils.cc: the replies as bytes, with what happens when memory runs out. The other modules take a
-- reply as the calls of `EiEncoder` that make it. `driver_alloc_binary` gives a binary or none, which is an
-- argument, and so is the text of `erl_errno_id`.
use gen_utp.Base.{
  ℕ, Bool, true, false, Option, none, some, List, [], ◌∷◌, length, ltb, if◌then◌else◌, Result, ok,
  err, fault, ◌>>=◌,
}
use gen_utp.Coder.Defs.{Ei, XBuff}
use gen_utp.Coder.Encoder.{Target, allocated, given, Copied, copy_to_binary}
use gen_utp.Coder.Encoder

-- What `*rbuf` points to: the buffer that the caller gave, a new binary with its bytes, or nothing.
pub data Pointed : Type 0 where
  buffer_given : Pointed
  new_binary : List ℕ → Pointed
  null : Pointed

-- A size, an exception, or no defined behaviour.
pub data Outcome : Type 0 where
  returned : ℕ → Outcome
  thrown : Outcome
  undefined : Outcome

-- `written` has the bytes written to the buffer given.
pub record Encoded : Type 0 where
  pub rbuf : Pointed
  pub written : List ℕ
  pub outcome : Outcome

abbrev pub ending : Pointed → Outcome → Encoded
ending p o = record { rbuf = p; written = []; outcome = o }

-- `memcpy(*rbuf, ...)` and the size returned, with `rlen` bytes where the buffer given is.
abbrev pub write : List ℕ → ℕ → Pointed → Encoded
write bytes rlen buffer_given =
    if ltb rlen (length bytes)
    then ending buffer_given undefined
    else record { rbuf = buffer_given; written = bytes; outcome = returned (length bytes) }
write bytes rlen (new_binary b) = ending (new_binary b) undefined
write bytes rlen null = ending null undefined

-- `copy_to_binary` once it is known where the bytes go. A binary that cannot be had is stored as null before
-- `bad_alloc` is thrown.
abbrev pub copy_target : Bool → Target → Copied → ℕ → Pointed → Encoded
copy_target true allocated c rlen p = ending (new_binary c.bytes) (returned c.size)
copy_target false allocated c rlen p = ending null thrown
copy_target allocates given c rlen p = write c.bytes rlen p

abbrev pub copied : Bool → Result Copied → ℕ → Pointed → Encoded
copied allocates (ok c) rlen p = copy_target allocates c.target c rlen p
copied allocates (err e) rlen p = ending p undefined

-- `NoMemError`: its binary, if it has one.
abbrev pub NoMemError : Type 0
NoMemError = Option (List ℕ)

-- `buffer` and `size` read through the pointer.
unfoldable pub buffer : NoMemError → Result (List ℕ)
buffer (some b) = ok b
buffer none = err fault

unfoldable pub size : NoMemError → Result ℕ
size (some b) = ok (length b)
size none = err fault

-- The destructor: whether it frees a binary.
unfoldable pub frees : NoMemError → Bool
frees (some b) = true
frees none = false

-- The handler of `std::exception`, which copies `enomem_error` to wherever `*rbuf` points by then.
abbrev copy_error : Result (List ℕ) → ℕ → Pointed → Encoded
copy_error (ok b) rlen p = write b rlen p
copy_error (err e) rlen p = ending p undefined

unfoldable pub caught : NoMemError → ℕ → Encoded → Encoded
unfolding buffer
caught enomem rlen e = elim e.outcome [ thrown ↦ copy_error (buffer enomem) rlen e.rbuf | _ ↦ e ]

-- "error"
abbrev pub error_text : List ℕ
error_text = 101 ∷ 114 ∷ 114 ∷ 111 ∷ 114 ∷ []

-- The calls that make `{error, Reason}`.
unfoldable pub error_pair : Ei → List ℕ → XBuff → Result XBuff
unfolding Encoder.tuple_header Encoder.atom
error_pair ei error x = do
  y ← Encoder.tuple_header ei 2 x
  z ← Encoder.atom ei error_text y
  Encoder.atom ei error z

module _ (ei : Ei) (enomem : NoMemError) (allocates : Bool) (rlen : ℕ) (p : Pointed) where
  -- The `try` block: the calls of the encoder, and the copy.
  abbrev pub try_block : Result XBuff → Encoded
  try_block (ok x) = copied allocates (copy_to_binary x rlen) rlen p
  try_block (err e) = ending p thrown

  -- The encoder is made before the block, and what its constructor throws is not caught.
  abbrev pub encode_with : (XBuff → Result XBuff) → Result XBuff → Encoded
  encode_with build (ok x) = caught enomem rlen (try_block (build x))
  encode_with build (err e) = ending p thrown

  unfoldable pub encode_atom : List ℕ → Encoded
  unfolding Encoder.new_encoder Encoder.atom copy_to_binary caught
  encode_atom a = encode_with (λ x. Encoder.atom ei a x) (Encoder.new_encoder ei)

  unfoldable pub encode_error : List ℕ → Encoded
  unfolding Encoder.new_encoder error_pair copy_to_binary caught
  encode_error error = encode_with (λ x. error_pair ei error x) (Encoder.new_encoder ei)

  unfoldable pub encode_errno : (ℕ → List ℕ) → ℕ → Encoded
  unfolding encode_error
  encode_errno erl_errno_id error = encode_error (erl_errno_id error)

abbrev pub bin_of : Pointed → NoMemError
bin_of (new_binary b) = some b
bin_of buffer_given = none
bin_of null = none

abbrev pub enomem_errno : ℕ
enomem_errno = 12

-- `enomem_error` is made while it has no binary itself, by `encode_error` to its own null pointer.
unfoldable pub new_no_mem_error : Ei → Bool → (ℕ → List ℕ) → Encoded
unfolding encode_errno
new_no_mem_error ei allocates erl_errno_id =
    encode_errno ei none allocates 0 null erl_errno_id enomem_errno
