-- ===== src/Coder/BinaryFormat.antt =====
-- ei for inputs: the external format of a binary, a small tuple, a string and a small number, and of no
-- other term.
use gen_utp.Base.{ℕ, ◌+◌, ◌*◌, Option, none, some, List, [], ◌∷◌, drop, take, ◌==◌, if◌then◌else◌}
use gen_utp.Coder.Defs.{Ei}

abbrev version_at : List ℕ → Option (ℕ × ℕ)
version_at (v ∷ rest) = if v == 131 then some (131, 1) else none
version_at [] = none

abbrev type_at : List ℕ → Option (ℕ × ℕ)
type_at (t ∷ a ∷ b ∷ c ∷ e ∷ rest) = some (t, ((a * 256 + b) * 256 + c) * 256 + e)
type_at _ = none

abbrev binary_of : ℕ → List ℕ → Option (List ℕ × ℕ)
binary_of i (t ∷ a ∷ b ∷ c ∷ e ∷ rest) =
    let size = ((a * 256 + b) * 256 + c) * 256 + e in
    if t == 109 then some (take size rest, i + 5 + size) else none
binary_of i _ = none

abbrev tuple_of : ℕ → List ℕ → Option (ℕ × ℕ)
tuple_of i (t ∷ n ∷ rest) = if t == 104 then some (n, i + 2) else none
tuple_of i _ = none

abbrev string_of : ℕ → List ℕ → Option (List ℕ × ℕ)
string_of i (t ∷ a ∷ b ∷ rest) =
    let size = a * 256 + b in if t == 107 then some (take size rest, i + 3 + size) else none
string_of i _ = none

abbrev number_of : ℕ → List ℕ → Option (ℕ × ℕ)
number_of i (t ∷ n ∷ rest) = if t == 97 then some (n, i + 2) else none
number_of i _ = none

abbrev pub binary_format : Ei
binary_format = record {
  Double = Unit {0};
  Pid = Unit {0};
  Fun = Unit {0};
  Port = Unit {0};
  Ref = Unit {0};
  x_new_with_version = none;
  x_encode_tuple_header = λ a b. none;
  x_encode_list_header = λ a b. none;
  x_encode_empty_list = λ a. none;
  x_encode_atom = λ a b. none;
  x_encode_atom_len = λ a b c. none;
  x_encode_string = λ a b. none;
  x_encode_string_len = λ a b c. none;
  x_encode_long = λ a b. none;
  x_encode_ulong = λ a b. none;
  x_encode_longlong = λ a b. none;
  x_encode_ulonglong = λ a b. none;
  x_encode_double = λ a b. none;
  x_encode_boolean = λ a b. none;
  x_encode_char = λ a b. none;
  x_encode_binary = λ a b c. none;
  x_encode_pid = λ a b. none;
  x_encode_fun = λ a b. none;
  x_encode_port = λ a b. none;
  x_encode_ref = λ a b. none;
  x_append = λ a b. none;
  x_append_buf = λ a b c. none;
  decode_version = λ buf i. version_at (drop i buf);
  decode_tuple_header = λ buf i. tuple_of i (drop i buf);
  decode_list_header = λ a b. none;
  decode_atom = λ a b. none;
  decode_string = λ buf i. string_of i (drop i buf);
  decode_long = λ a b. none;
  decode_ulong = λ buf i. number_of i (drop i buf);
  decode_longlong = λ a b. none;
  decode_ulonglong = λ a b. none;
  decode_double = λ a b. none;
  decode_boolean = λ a b. none;
  decode_char = λ a b. none;
  decode_binary = λ buf i. binary_of i (drop i buf);
  decode_pid = λ a b. none;
  decode_fun = λ a b. none;
  decode_port = λ a b. none;
  decode_ref = λ a b. none;
  skip_term = λ a b. none;
  get_type = λ buf i. type_at (drop i buf);
}
