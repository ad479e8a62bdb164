-- ===== src/Coder/Defs.antt =====
-- The ei library as coder.cc calls it, and the data that coder.h declares over it.
use gen_utp.Base.{ℕ, Bool, Option, List, [], ◌∷◌, ◌==◌, if◌then◌else◌, ℤ}

-- `ei_x_buff`: the allocated bytes, and the index at which the next term goes.
pub record XBuff : Type 0 where
  pub buff : List ℕ
  pub index : ℕ

-- The functions of ei that coder.cc calls. A decoder is given the bytes and an index, and returns
-- the value and the new index.
pub record Ei : Type 1 where
  pub Double : Type 0
  pub Pid : Type 0
  pub Fun : Type 0
  pub Port : Type 0
  pub Ref : Type 0
  pub x_new_with_version : Option XBuff
  pub x_encode_tuple_header : XBuff → ℕ → Option XBuff
  pub x_encode_list_header : XBuff → ℕ → Option XBuff
  pub x_encode_empty_list : XBuff → Option XBuff
  pub x_encode_atom : XBuff → List ℕ → Option XBuff
  pub x_encode_atom_len : XBuff → List ℕ → ℕ → Option XBuff
  pub x_encode_string : XBuff → List ℕ → Option XBuff
  pub x_encode_string_len : XBuff → List ℕ → ℕ → Option XBuff
  pub x_encode_long : XBuff → ℤ → Option XBuff
  pub x_encode_ulong : XBuff → ℕ → Option XBuff
  pub x_encode_longlong : XBuff → ℤ → Option XBuff
  pub x_encode_ulonglong : XBuff → ℕ → Option XBuff
  pub x_encode_double : XBuff → Double → Option XBuff
  pub x_encode_boolean : XBuff → ℕ → Option XBuff
  pub x_encode_char : XBuff → ℕ → Option XBuff
  pub x_encode_binary : XBuff → List ℕ → ℕ → Option XBuff
  pub x_encode_pid : XBuff → Pid → Option XBuff
  pub x_encode_fun : XBuff → Fun → Option XBuff
  pub x_encode_port : XBuff → Port → Option XBuff
  pub x_encode_ref : XBuff → Ref → Option XBuff
  pub x_append : XBuff → XBuff → Option XBuff
  pub x_append_buf : XBuff → List ℕ → ℕ → Option XBuff
  pub decode_version : List ℕ → ℕ → Option (ℕ × ℕ)
  pub decode_tuple_header : List ℕ → ℕ → Option (ℕ × ℕ)
  pub decode_list_header : List ℕ → ℕ → Option (ℕ × ℕ)
  pub decode_atom : List ℕ → ℕ → Option (List ℕ × ℕ)
  pub decode_string : List ℕ → ℕ → Option (List ℕ × ℕ)
  pub decode_long : List ℕ → ℕ → Option (ℤ × ℕ)
  pub decode_ulong : List ℕ → ℕ → Option (ℕ × ℕ)
  pub decode_longlong : List ℕ → ℕ → Option (ℤ × ℕ)
  pub decode_ulonglong : List ℕ → ℕ → Option (ℕ × ℕ)
  pub decode_double : List ℕ → ℕ → Option (Double × ℕ)
  pub decode_boolean : List ℕ → ℕ → Option (ℕ × ℕ)
  pub decode_char : List ℕ → ℕ → Option (ℕ × ℕ)
  pub decode_binary : List ℕ → ℕ → Option (List ℕ × ℕ)
  pub decode_pid : List ℕ → ℕ → Option (Pid × ℕ)
  pub decode_fun : List ℕ → ℕ → Option (Fun × ℕ)
  pub decode_port : List ℕ → ℕ → Option (Port × ℕ)
  pub decode_ref : List ℕ → ℕ → Option (Ref × ℕ)
  pub skip_term : List ℕ → ℕ → Option ℕ
  -- `ei_get_type`: the type and size of the term at the index, which stays.
  pub get_type : List ℕ → ℕ → Option (ℕ × ℕ)

-- What a C function sees of a `std::string` through `c_str()`, or `assign` of a `char*`.
unfoldable pub c_str : List ℕ → List ℕ
c_str [] = []
c_str (c ∷ s) = if c == 0 then [] else c ∷ c_str s

-- `EiFun`, whose destructor frees what the library allocated.
pub record EiFun (F : Type 0) : Type 0 where
  pub value : F
  pub allocated : Bool

pub frees_fun : {F : Type 0} → EiFun F → Bool
frees_fun f = f.allocated
