-- ===== src/Coder/Decoder.antt =====
-- c_src/coder.cc, `EiDecoder`: each method makes one call of ei at the decoder's index, and throws
-- if that fails. `atom_str` and `string_str` go through a local array and a `std::string`.
use gen_utp.Base.{
  ℕ, ◌+◌, Bool, true, Option, some, none, List, length, ltb, ◌==◌, if◌then◌else◌, ℤ, Result, ok,
  err, ei_error, fault, ◌>>=◌, or_throw,
}
use gen_utp.Coder.Defs.{Ei, EiFun, c_str}

-- `len` is kept and never read: the calls of ei are not told where the bytes end.
pub record EiDecoder : Type 0 where
  pub buf : List ℕ
  pub len : ℕ
  pub index : ℕ

-- What a call of ei leaves in `index` and in the argument by reference.
unfoldable pub advance {ℓ} : {A : Type ℓ} → EiDecoder → Option (A × ℕ) → Result (A × EiDecoder)
advance d none = err ei_error
advance d (some (v, i)) = ok (v, record d { index = i })

module _ (ei : Ei) where
  unfoldable pub new_decoder : List ℕ → ℕ → Result EiDecoder
  new_decoder bf ln = do
    (vsn, d) ← advance (record { buf = bf; len = ln; index = 0 }) (ei.decode_version bf 0)
    ok d

  unfoldable pub tuple_header : EiDecoder → Result (ℕ × EiDecoder)
  unfolding advance
  tuple_header d = advance d (ei.decode_tuple_header d.buf d.index)

  unfoldable pub list_header : EiDecoder → Result (ℕ × EiDecoder)
  unfolding advance
  list_header d = advance d (ei.decode_list_header d.buf d.index)

  unfoldable pub atom : EiDecoder → Result (List ℕ × EiDecoder)
  unfolding advance
  atom d = advance d (ei.decode_atom d.buf d.index)

  unfoldable pub string : EiDecoder → Result (List ℕ × EiDecoder)
  unfolding advance
  string d = advance d (ei.decode_string d.buf d.index)

  unfoldable pub longval : EiDecoder → Result (ℤ × EiDecoder)
  unfolding advance
  longval d = advance d (ei.decode_long d.buf d.index)

  unfoldable pub ulongval : EiDecoder → Result (ℕ × EiDecoder)
  unfolding advance
  ulongval d = advance d (ei.decode_ulong d.buf d.index)

  unfoldable pub longlongval : EiDecoder → Result (ℤ × EiDecoder)
  unfolding advance
  longlongval d = advance d (ei.decode_longlong d.buf d.index)

  unfoldable pub ulonglongval : EiDecoder → Result (ℕ × EiDecoder)
  unfolding advance
  ulonglongval d = advance d (ei.decode_ulonglong d.buf d.index)

  unfoldable pub doubleval : EiDecoder → Result (ei.Double × EiDecoder)
  unfolding advance
  doubleval d = advance d (ei.decode_double d.buf d.index)

  unfoldable pub charval : EiDecoder → Result (ℕ × EiDecoder)
  unfolding advance
  charval d = advance d (ei.decode_char d.buf d.index)

  unfoldable pub binary : EiDecoder → Result (List ℕ × EiDecoder)
  unfolding advance
  binary d = advance d (ei.decode_binary d.buf d.index)

  unfoldable pub pid : EiDecoder → Result (ei.Pid × EiDecoder)
  unfolding advance
  pid d = advance d (ei.decode_pid d.buf d.index)

  unfoldable pub port : EiDecoder → Result (ei.Port × EiDecoder)
  unfolding advance
  port d = advance d (ei.decode_port d.buf d.index)

  unfoldable pub ref : EiDecoder → Result (ei.Ref × EiDecoder)
  unfolding advance
  ref d = advance d (ei.decode_ref d.buf d.index)

  -- The array holds MAXATOMLEN bytes, which is what `ei_decode_atom` may write.
  unfoldable pub atom_str : EiDecoder → Result (List ℕ × EiDecoder)
  unfolding advance c_str
  atom_str d = do (s, d') ← advance d (ei.decode_atom d.buf d.index); ok (c_str s, d')

  -- The array holds 8192 bytes, and `ei_decode_string` writes the text and a 0 however long it is.
  unfoldable pub string_str : EiDecoder → Result (List ℕ × EiDecoder)
  unfolding advance c_str
  string_str d = do
    (s, d') ← advance d (ei.decode_string d.buf d.index)
    if ltb 8192 (length s + 1) then err fault else ok (c_str s, d')

  unfoldable pub boolval : EiDecoder → Result (Bool × EiDecoder)
  unfolding advance
  boolval d = do (v, d') ← advance d (ei.decode_boolean d.buf d.index); ok (v == 1, d')

  unfoldable pub fun : EiDecoder → Result (EiFun ei.Fun × EiDecoder)
  unfolding advance
  fun d = do
    (f, d') ← advance d (ei.decode_fun d.buf d.index)
    ok (record { value = f; allocated = true }, d')

  unfoldable pub skip : EiDecoder → Result EiDecoder
  skip d = do i ← or_throw ei_error (ei.skip_term d.buf d.index); ok (record d { index = i })

  -- `type(type, size)` does not move the index.
  unfoldable pub type : EiDecoder → Result (ℕ × ℕ)
  type d = or_throw ei_error (ei.get_type d.buf d.index)
