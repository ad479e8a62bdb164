-- ===== src/Coder/AtomFormat.antt =====
-- ei for replies: the external format of a small tuple and of an atom of at most 255 bytes, and of no other
-- term. The buffer has one byte more than is used.
use gen_utp.Base.{ℕ, ◌+◌, Option, none, some, List, [], ◌∷◌, ◌++◌, length, take, ltb, if◌then◌else◌}
use gen_utp.Coder.Defs.{Ei, XBuff}
use gen_utp.Coder.BinaryFormat.{binary_format}

abbrev appended : XBuff → List ℕ → XBuff
appended x bytes = record {
  buff = take x.index x.buff ++ bytes ++ 0 ∷ [];
  index = x.index + length bytes;
}

abbrev atom_of : XBuff → List ℕ → Option XBuff
atom_of x a = if ltb 255 (length a) then none else some (appended x (115 ∷ length a ∷ a))

abbrev pub atom_format : Ei
atom_format = record binary_format {
  x_new_with_version = some (record { buff = 131 ∷ 0 ∷ []; index = 1 });
  x_encode_tuple_header = λ x arity. some (appended x (104 ∷ arity ∷ []));
  x_encode_atom = atom_of;
}
