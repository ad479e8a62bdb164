-- ===== src/Options/Tests.antt =====
-- Inputs for the options, and the theorems at them.
use gen_utp.Base.{ℕ, ◌≡◌, refl, none, some, List, [], ◌∷◌, ok, arith}
use gen_utp.Address.{zero_addr, GetAddrInfo}
use gen_utp.Options.Defs.{
  data_list, port_opt, list_opt, default_opts, set_addr, decode, decode_loop, decode_byte,
  decode_one, opt_of, decode_and_merge,
}
use gen_utp.Options.Encoding.{
  UtpOptions, infinity, millis, once, Fits, requested, tags, options_to_binary,
}
use gen_utp.Options.RoundTrip.{decode-options_to_binary}
use gen_utp.Options.Merging.{merge-options_to_binary}

abbrev no_names : GetAddrInfo
no_names s = some (record zero_addr { sa_family = 2 })

-- What `listen` may be given.
abbrev all_given : UtpOptions
all_given = record {
  mode = some data_list;
  ip = some (49 ∷ 46 ∷ 50 ∷ []);
  port = some 8000;
  family = none;
  send_tmout = some (millis 70000);
  active = some once;
  packet = some 2;
  header = some 300;
  sndbuf = some 32768;
  recbuf = none;
}

all_given-Fits : Fits all_given
all_given-Fits = record {
  ip = ((ground arith, (ground arith, (ground arith, tt))), omega arith);
  port = omega arith;
  send_tmout = omega arith;
  packet = omega arith;
  header = omega arith;
  sndbuf = omega arith;
  recbuf = tt;
}

decode-options_to_binary_example :
    decode no_names (options_to_binary all_given) default_opts
    ≡ set_addr no_names (requested all_given default_opts, tags all_given)
decode-options_to_binary_example =
    decode-options_to_binary no_names all_given default_opts all_given-Fits

-- What `setopts` may be given.
abbrev some_given : UtpOptions
some_given = record all_given { ip = none; port = none; send_tmout = some infinity }

some_given-Fits : Fits some_given
some_given-Fits = record {
  ip = tt;
  port = tt;
  send_tmout = tt;
  packet = omega arith;
  header = omega arith;
  sndbuf = omega arith;
  recbuf = tt;
}

merge-options_to_binary_example :
    decode_and_merge no_names (options_to_binary some_given) default_opts
    ≡ ok (requested some_given default_opts)
merge-options_to_binary_example =
    merge-options_to_binary no_names some_given default_opts some_given-Fits refl refl refl

-- The mode, and the port 8000.
abbrev with_port : List ℕ
with_port = 3 ∷ 2 ∷ 31 ∷ 64 ∷ []

port_is_read :
    decode no_names with_port default_opts
    ≡ ok (record default_opts { port = 8000; delivery_mode = data_list }, list_opt ∷ port_opt ∷ [])
unfolding decode decode_loop decode_byte decode_one opt_of set_addr
port_is_read = refl
