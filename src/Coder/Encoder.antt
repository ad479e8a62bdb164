-- ===== src/Coder/Encoder.antt =====
-- c_src/coder.cc, `EiEncoder`: each method makes one call of ei and throws if that fails.
-- Where the source overloads a method, `_len` takes a length and `_str` a `std::string`.
use gen_utp.Base.{
  ℕ, ◌+◌, Bool, List, take, length, ltb, if◌then◌else◌, ℤ, Result, ok, err, ei_error, fault,
  or_throw,
}
use gen_utp.Coder.Defs.{Ei, XBuff, EiFun, c_str}

-- Where `copy_to_binary` left the bytes: in a new binary or in the buffer that the caller gave.
pub data Target : Type 0 where
  allocated given : Target

pub record Copied : Type 0 where
  pub target : Target
  pub bytes : List ℕ
  pub size : ℕ

-- `buffer`: the bytes, with the length that it reports.
pub buffer : XBuff → List ℕ × ℕ
buffer x = (x.buff, x.index + 1)

-- `copy_to_binary`. The allocation succeeds. The copy reads `size` bytes of the allocated ones.
unfoldable pub copy_to_binary : XBuff → ℕ → Result Copied
copy_to_binary x rlen =
    let size = x.index + 1 in
    let target = if ltb rlen size then allocated else given in
    if ltb (length x.buff) size
    then err fault
    else ok (record { target = target; bytes = take size x.buff; size = size })

module _ (ei : Ei) where
  unfoldable pub new_encoder : Result XBuff
  new_encoder = or_throw ei_error ei.x_new_with_version

  unfoldable pub tuple_header : ℕ → XBuff → Result XBuff
  tuple_header arity x = or_throw ei_error (ei.x_encode_tuple_header x arity)

  unfoldable pub list_header : ℕ → XBuff → Result XBuff
  list_header arity x = or_throw ei_error (ei.x_encode_list_header x arity)

  unfoldable pub empty_list : XBuff → Result XBuff
  empty_list x = or_throw ei_error (ei.x_encode_empty_list x)

  unfoldable pub atom : List ℕ → XBuff → Result XBuff
  atom a x = or_throw ei_error (ei.x_encode_atom x (c_str a))

  unfoldable pub atom_len : List ℕ → ℕ → XBuff → Result XBuff
  atom_len a len x = or_throw ei_error (ei.x_encode_atom_len x a len)

  unfoldable pub atom_str : List ℕ → XBuff → Result XBuff
  atom_str a x = or_throw ei_error (ei.x_encode_atom x (c_str a))

  unfoldable pub atom_str_len : List ℕ → ℕ → XBuff → Result XBuff
  atom_str_len a len x = or_throw ei_error (ei.x_encode_atom_len x a len)

  unfoldable pub string : List ℕ → XBuff → Result XBuff
  string str x = or_throw ei_error (ei.x_encode_string x (c_str str))

  unfoldable pub string_len : List ℕ → ℕ → XBuff → Result XBuff
  string_len str len x = or_throw ei_error (ei.x_encode_string_len x str len)

  unfoldable pub string_str : List ℕ → XBuff → Result XBuff
  string_str str x = or_throw ei_error (ei.x_encode_string x (c_str str))

  unfoldable pub string_str_len : List ℕ → ℕ → XBuff → Result XBuff
  string_str_len str len x = or_throw ei_error (ei.x_encode_string_len x str len)

  unfoldable pub longval : ℤ → XBuff → Result XBuff
  longval val x = or_throw ei_error (ei.x_encode_long x val)

  unfoldable pub ulongval : ℕ → XBuff → Result XBuff
  ulongval val x = or_throw ei_error (ei.x_encode_ulong x val)

  unfoldable pub longlongval : ℤ → XBuff → Result XBuff
  longlongval val x = or_throw ei_error (ei.x_encode_longlong x val)

  unfoldable pub ulonglongval : ℕ → XBuff → Result XBuff
  ulonglongval val x = or_throw ei_error (ei.x_encode_ulonglong x val)

  unfoldable pub doubleval : ei.Double → XBuff → Result XBuff
  doubleval val x = or_throw ei_error (ei.x_encode_double x val)

  unfoldable pub boolval : Bool → XBuff → Result XBuff
  boolval val x = or_throw ei_error (ei.x_encode_boolean x (if val then 1 else 0))

  unfoldable pub charval : ℕ → XBuff → Result XBuff
  charval val x = or_throw ei_error (ei.x_encode_char x val)

  unfoldable pub binary : List ℕ → ℕ → XBuff → Result XBuff
  binary buf len x = or_throw ei_error (ei.x_encode_binary x buf len)

  unfoldable pub pid : ei.Pid → XBuff → Result XBuff
  pid p x = or_throw ei_error (ei.x_encode_pid x p)

  unfoldable pub fun : EiFun ei.Fun → XBuff → Result XBuff
  fun f x = or_throw ei_error (ei.x_encode_fun x f.value)

  unfoldable pub port : ei.Port → XBuff → Result XBuff
  port p x = or_throw ei_error (ei.x_encode_port x p)

  unfoldable pub ref : ei.Ref → XBuff → Result XBuff
  ref r x = or_throw ei_error (ei.x_encode_ref x r)

  unfoldable pub append : XBuff → XBuff → Result XBuff
  append enc x = or_throw ei_error (ei.x_append x enc)

  unfoldable pub append_buf : List ℕ → ℕ → XBuff → Result XBuff
  append_buf buf len x = or_throw ei_error (ei.x_append_buf x buf len)
