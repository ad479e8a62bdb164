-- ===== src/Sockets/Tests.antt =====
-- Inputs for the requests of socket_handler.cc, and the theorems at them.
use gen_utp.Base.{◌≡◌, refl, true, false, some, none, [], ◌∷◌}
use gen_utp.Driver.Defs.{lit, errno_id, Token, Reply}
use gen_utp.Options.Defs.{default_opts, opt_of}
use gen_utp.Sockets.Defs.{option_tokens, getopts_of, einval}
use gen_utp.Sockets.Replies.{getopts_of-einval}
use gen_utp.Sockets.Opening.{Calls, open_udp_socket, Settled, open_udp_socket-Settled}

header_without_case : option_tokens (opt_of 12) default_opts ≡ none
unfolding option_tokens opt_of
header_without_case = refl

-- The names active, header and mode.
getopts_of-einval_example :
    getopts_of (10 ∷ 12 ∷ 5 ∷ []) default_opts
    ≡ Reply.term
        (Token.tuple_header 2 ∷ Token.atom (lit "error") ∷ Token.atom (errno_id einval) ∷ [])
getopts_of-einval_example = getopts_of-einval (10 ∷ []) 12 (5 ∷ []) default_opts header_without_case

-- `bind` fails with EADDRINUSE.
abbrev bind_fails : Calls
bind_fails = record {
  socket = some 5;
  fcntl_ok = true;
  setsockopt_ok = true;
  bind_ok = false;
  errno = 98;
}

open_udp_socket-Settled_example : Settled true bind_fails (open_udp_socket true bind_fails)
open_udp_socket-Settled_example = open_udp_socket-Settled true bind_fails
