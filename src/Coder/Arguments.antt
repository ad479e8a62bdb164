-- ===== src/Coder/Arguments.antt =====
-- The arguments that the handlers' `control` methods decode: each of these functions is the `try`
-- block that the handlers repeat, whose failures all answer ERL_DRV_ERROR_BADARG.
use gen_utp.Base.{ℕ, List, ◌==◌, if◌then◌else◌, Result, ok, err, ei_error, ◌>>=◌}
use gen_utp.Coder.Defs.{Ei}
use gen_utp.Coder.Decoder
use gen_utp.Coder.Decoder.{EiDecoder}

-- `ERL_BINARY_EXT`
abbrev pub erl_binary_ext : ℕ
erl_binary_ext = 109

module _ (ei : Ei) where
  -- `decoder.type(type, size)`, the test of the type, and `Binary::decode`.
  unfoldable pub binary_at : EiDecoder → Result (List ℕ)
  unfolding Decoder.type Decoder.binary Decoder.advance
  binary_at d = do
    (t, size) ← Decoder.type ei d
    let decoded = Decoder.binary ei d
    (if t == erl_binary_ext then (do (bin, d') ← decoded; ok bin) else err ei_error)

  -- A binary alone.
  unfoldable pub binary_argument : List ℕ → ℕ → Result (List ℕ)
  unfolding Decoder.new_decoder binary_at
  binary_argument buf len = do d ← Decoder.new_decoder ei buf len; binary_at d

  -- The pair of a length and a binary.
  unfoldable pub recv_argument : List ℕ → ℕ → Result (ℕ × List ℕ)
  unfolding Decoder.new_decoder Decoder.tuple_header Decoder.ulongval Decoder.advance binary_at
  recv_argument buf len = do
    d ← Decoder.new_decoder ei buf len
    (arity, d') ← Decoder.tuple_header ei d
    (if arity == 2
        then (do (length, d'') ← Decoder.ulongval ei d'; ref ← binary_at d''; ok (length, ref))
        else err ei_error)
