-- ===== src/Coder.antt =====
-- c_src/coder.h and c_src/coder.cc: the wrappers of Erlang's ei library, for the terms that the
-- driver takes as arguments and answers with.
-- The library itself is a parameter, `Ei`: one field for each of its functions, `none` where the C
-- function returns a non-zero status. Text is a list of bytes; a C string ends at its first 0.
pub mod Defs
pub mod Encoder
pub mod Decoder
pub mod Arguments
pub mod BinaryFormat
pub mod AtomFormat
