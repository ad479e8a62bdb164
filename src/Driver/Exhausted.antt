-- ===== src/Driver/Exhausted.antt =====
-- utils.cc: what `encode_atom` and `encode_error` do when memory runs out.
use gen_utp.Base.{
  ℕ, ◌+◌, ◌≤◌, ◌<◌, ◌≡◌, refl, ap, ◌∙◌, Bool, true, false, none, some, List, length, take,
  length-take, lt→ltb, le→ltb, Result, ok, err, Error, arith,
}
use gen_utp.Coder.Defs.{Ei, XBuff}
use gen_utp.Coder.Encoder.{Target, allocated, given, Copied, copy_to_binary}
use gen_utp.Coder.Encoder
use gen_utp.Driver.Memory.{
  Pointed, buffer_given, new_binary, null, returned, thrown, undefined, Encoded, ending, write,
  copied, NoMemError, caught, buffer, try_block, encode_with, encode_atom, encode_error,
  encode_errno, error_pair, bin_of, enomem_errno, new_no_mem_error,
}

-- What `copy_to_binary` passes on of an encoder.
abbrev pub encoding : XBuff → List ℕ
encoding y = take (y.index + 1) y.buff

encoding_size : (y : XBuff) → y.index < length y.buff → length (encoding y) ≡ y.index + 1
encoding_size y h = omega (arith, length-take (y.index + 1) y.buff)

abbrev wrote : List ℕ → ℕ → Encoded
wrote bytes n = record { rbuf = buffer_given; written = bytes; outcome = returned n }

through_null :
    (enomem : NoMemError) (rlen : ℕ) → (caught enomem rlen (ending null thrown)).outcome ≡ undefined
unfolding caught buffer
through_null none rlen = refl
through_null (some b) rlen = refl

write_fits :
    (bytes : List ℕ) (rlen : ℕ)
    → length bytes ≤ rlen
    → write bytes rlen buffer_given
      ≡ record { rbuf = buffer_given; written = bytes; outcome = returned (length bytes) }
write_fits bytes rlen h = rw (le→ltb rlen (length bytes) h) refl

module _ (y : XBuff) (rlen : ℕ) (inside : y.index < length y.buff) where
  copy_large :
      rlen < y.index + 1
      → copy_to_binary y rlen
        ≡ ok (record { target = allocated; bytes = encoding y; size = y.index + 1 })
  unfolding copy_to_binary
  copy_large h =
      rw (le→ltb (length y.buff) (y.index + 1) (omega arith), lt→ltb rlen (y.index + 1) h) refl

  copy_small :
      y.index + 1 ≤ rlen
      → copy_to_binary y rlen
        ≡ ok (record { target = given; bytes = encoding y; size = y.index + 1 })
  unfolding copy_to_binary
  copy_small h =
      rw (le→ltb (length y.buff) (y.index + 1) (omega arith), le→ltb rlen (y.index + 1) h) refl

module _ (ei : Ei) (enomem : NoMemError) (allocates : Bool) (rlen : ℕ) (p : Pointed) where
  encode_with-built :
      (build : XBuff → Result XBuff) (made r : Result XBuff) (x : XBuff)
      → made ≡ ok x
      → build x ≡ r
      → encode_with ei enomem allocates rlen p build made
        ≡ caught enomem rlen (try_block ei enomem allocates rlen p r)
  encode_with-built build made r x m b =
      ap (encode_with ei enomem allocates rlen p build) m
      ∙ ap (λ t. caught enomem rlen (try_block ei enomem allocates rlen p t)) b

module _ (ei : Ei) (x y : XBuff) (a : List ℕ) (made : Encoder.new_encoder ei ≡ ok x)
    (built : Encoder.atom ei a x ≡ ok y) (inside : y.index < length y.buff) where
  -- A reply that fits in the caller's buffer is written there and needs no memory.
  pub encode_atom-fits :
      (enomem : NoMemError) (allocates : Bool) (rlen : ℕ)
      → y.index + 1 ≤ rlen
      → encode_atom ei enomem allocates rlen buffer_given a
        ≡ record { rbuf = buffer_given; written = encoding y; outcome = returned (y.index + 1) }
  unfolding encode_atom caught
  encode_atom-fits enomem allocates rlen fits =
      encode_with-built ei enomem allocates rlen buffer_given (λ z. Encoder.atom ei a z) _ _ x made
        built
      ∙ ap (λ c. caught enomem rlen (copied allocates c rlen buffer_given))
          (copy_small y rlen inside fits)
      ∙ ap (caught enomem rlen)
          (write_fits (encoding y) rlen (omega (arith, encoding_size y inside)))
      ∙ ap (λ n. wrote (encoding y) n) (encoding_size y inside)

  -- A reply that does not fit goes into a new binary, and if there is no memory for that, `encode_atom` has no
  -- defined behaviour, whatever `enomem_error` holds: it is copied through the null pointer just stored.
  pub encode_atom-exhausted :
      (enomem : NoMemError) (rlen : ℕ)
      → rlen < y.index + 1
      → (encode_atom ei enomem true rlen buffer_given a
          ≡ ending (new_binary (encoding y)) (returned (y.index + 1)))
        × ((encode_atom ei enomem false rlen buffer_given a).outcome ≡ undefined)
  unfolding encode_atom caught
  encode_atom-exhausted enomem rlen large = (
    encode_with-built ei enomem true rlen buffer_given (λ z. Encoder.atom ei a z) _ _ x made built
        ∙ ap (λ c. caught enomem rlen (copied true c rlen buffer_given))
            (copy_large y rlen inside large),
    ap (λ e. e.outcome)
          (encode_with-built ei enomem false rlen buffer_given (λ z. Encoder.atom ei a z) _ _ x made
              built
            ∙ ap (λ c. caught enomem rlen (copied false c rlen buffer_given))
                (copy_large y rlen inside large))
        ∙ through_null enomem rlen,
  )

-- `enomem_error` made while there is memory holds `{error, enomem}`, and a reply whose encoding fails is
-- answered by that.
pub encode_atom-enomem :
    (ei : Ei) (erl_errno_id : ℕ → List ℕ) (x y : XBuff) (a : List ℕ) (e : Error) (allocates : Bool)
    (rlen : ℕ)
    → Encoder.new_encoder ei ≡ ok x
    → error_pair ei (erl_errno_id enomem_errno) x ≡ ok y
    → y.index < length y.buff
    → Encoder.atom ei a x ≡ err e
    → y.index + 1 ≤ rlen
    → let no_mem = new_no_mem_error ei true erl_errno_id in
      (no_mem.outcome ≡ returned (y.index + 1))
      × (encode_atom ei (bin_of no_mem.rbuf) allocates rlen buffer_given a
          ≡ record { rbuf = buffer_given; written = encoding y; outcome = returned (y.index + 1) })
unfolding new_no_mem_error encode_errno encode_error encode_atom caught buffer
encode_atom-enomem ei text x y a e allocates rlen made pair inside fails fits = (
  ap (λ r. r.outcome) at_load,
  ap (λ r. encode_atom ei (bin_of r.rbuf) allocates rlen buffer_given a) at_load
      ∙ encode_with-built ei (some (encoding y)) allocates rlen buffer_given
          (λ z. Encoder.atom ei a z) _ _ x made fails
      ∙ write_fits (encoding y) rlen (omega (arith, encoding_size y inside))
      ∙ ap (λ n. wrote (encoding y) n) (encoding_size y inside),
)
  where
    at_load :
        new_no_mem_error ei true text ≡ ending (new_binary (encoding y)) (returned (y.index + 1))
    at_load =
        encode_with-built ei none true 0 null (λ z. error_pair ei (text enomem_errno) z) _ _ x made
          pair
        ∙ ap (λ c. caught none 0 (copied true c 0 null)) (copy_large y 0 inside (omega arith))
