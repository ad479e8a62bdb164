-- ===== src/Driver/Tests.antt =====
-- Replies as bytes, and the theorems at them.
use gen_utp.Base.{ℕ, zero, suc, ◌≡◌, refl, true, false, none, List, [], ◌∷◌, arith}
use gen_utp.Coder.Defs.{XBuff, c_str}
use gen_utp.Coder.AtomFormat.{atom_format}
use gen_utp.Coder.Encoder.{new_encoder, tuple_header, atom}
use gen_utp.Driver.Memory.{
  returned, undefined, ending, new_binary, buffer_given, encode_atom, error_pair, new_no_mem_error,
  bin_of,
}
use gen_utp.Driver.Exhausted.{encoding, encode_atom-exhausted, encode_atom-enomem}

-- "ok" and "enomem"
abbrev ok_text : List ℕ
ok_text = 111 ∷ 107 ∷ []

abbrev enomem_text : List ℕ
enomem_text = 101 ∷ 110 ∷ 111 ∷ 109 ∷ 101 ∷ 109 ∷ []

abbrev letters : ℕ → List ℕ
letters zero = []
letters (suc n) = 97 ∷ letters n

abbrev fresh : XBuff
fresh = record { buff = 131 ∷ 0 ∷ []; index = 1 }

abbrev ok_reply : XBuff
ok_reply = record { buff = 131 ∷ 115 ∷ 2 ∷ 111 ∷ 107 ∷ 0 ∷ []; index = 5 }

abbrev enomem_reply : XBuff
enomem_reply = record {
  buff =
      131 ∷ 104 ∷ 2 ∷ 115 ∷ 5 ∷ 101 ∷ 114 ∷ 114 ∷ 111 ∷ 114 ∷ 115 ∷ 6 ∷ 101 ∷ 110 ∷ 111 ∷ 109 ∷ 101
      ∷ 109 ∷ 0 ∷ [];
  index = 18;
}

encode_atom-exhausted_example :
    (encode_atom atom_format none true 3 buffer_given ok_text
      ≡ ending (new_binary (encoding ok_reply)) (returned 6))
    × ((encode_atom atom_format none false 3 buffer_given ok_text).outcome ≡ undefined)
unfolding new_encoder atom c_str
encode_atom-exhausted_example =
    encode_atom-exhausted atom_format fresh ok_reply ok_text refl refl (omega arith) none 3
      (omega arith)

encode_atom-enomem_example :
    let no_mem = new_no_mem_error atom_format true (λ e. enomem_text) in
    (no_mem.outcome ≡ returned 19)
    × (encode_atom atom_format (bin_of no_mem.rbuf) true 64 buffer_given (letters 256)
        ≡ record { rbuf = buffer_given; written = encoding enomem_reply; outcome = returned 19 })
unfolding new_encoder atom tuple_header error_pair c_str
encode_atom-enomem_example =
    encode_atom-enomem atom_format (λ e. enomem_text) fresh enomem_reply (letters 256) _ true 64
      refl refl (omega arith) refl (omega arith)
