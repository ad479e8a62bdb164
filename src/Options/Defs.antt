-- ===== src/Options/Defs.antt =====
-- socket_handler.cc: `SockOpts::decode` and `SockOpts::decode_and_merge`.
use gen_utp.Base.{
  ℕ, zero, suc, ◌+◌, ◌*◌, ◌^◌, Bool, true, false, Option, some, none, List, [], ◌∷◌, ◌++◌, length,
  ltb, ◌==◌, if◌then◌else◌, ℤ, minus_one, to_int32, Result, ok, err, fault, invalid_argument, ◌>>=◌,
}
use gen_utp.Address.{SockAddr, zero_addr, GetAddrInfo, from_addrport}

-- `enum Opts`, in the order of the source: the first is 1.
pub data Opt : Type 0 where
  ip_opt port_opt list_opt binary_opt mode_opt inet_opt inet6_opt : Opt
  send_tmout_opt send_tmout_infinite_opt active_opt packet_opt header_opt : Opt
  sndbuf_opt recbuf_opt : Opt

abbrev opts : List Opt
opts =
    ip_opt ∷ port_opt ∷ list_opt ∷ binary_opt ∷ mode_opt ∷ inet_opt ∷ inet6_opt ∷ send_tmout_opt
    ∷ send_tmout_infinite_opt ∷ active_opt ∷ packet_opt ∷ header_opt ∷ sndbuf_opt ∷ recbuf_opt ∷ []

abbrev opt_at : List Opt → ℕ → Option Opt
opt_at [] n = none
opt_at (o ∷ os) zero = none
opt_at (o ∷ os) (suc zero) = some o
opt_at (o ∷ os) (suc (suc n)) = opt_at os (suc n)

-- The case that a byte selects in a `switch` over the options.
unfoldable pub opt_of : ℕ → Option Opt
opt_of = opt_at opts

-- `enum Active`; a byte beyond its values is kept as it is.
pub data Active : Type 0 where
  active_false active_once active_true : Active
  active_other : ℕ → Active

unfoldable pub to_active : ℕ → Active
to_active zero = active_false
to_active (suc zero) = active_once
to_active (suc (suc zero)) = active_true
to_active (suc (suc (suc n))) = active_other (suc (suc (suc n)))

pub data DeliveryMode : Type 0 where
  data_list data_binary : DeliveryMode

pub record SockOpts : Type 0 where
  pub addr : SockAddr
  pub addrstr : List ℕ
  pub send_tmout : ℤ
  pub active : Active
  pub fd : ℤ
  pub header : ℕ
  pub sndbuf : ℤ
  pub recbuf : ℤ
  pub port : ℕ
  pub delivery_mode : DeliveryMode
  pub packet : ℕ
  pub inet6 : Bool
  pub addr_set : Bool

-- `INVALID_SOCKET`
abbrev pub invalid_socket : ℤ
invalid_socket = minus_one

abbrev pub bufsize_default : ℤ
bufsize_default = ℤ.pos 16384

-- `SockOpts()`. The source leaves `addrstr` unset until `addr_set`.
abbrev pub default_opts : SockOpts
default_opts = record {
  addr = zero_addr;
  addrstr = [];
  send_tmout = minus_one;
  active = active_true;
  fd = invalid_socket;
  header = 0;
  sndbuf = bufsize_default;
  recbuf = bufsize_default;
  port = 0;
  delivery_mode = data_list;
  packet = 0;
  inet6 = false;
  addr_set = false;
}

abbrev pub be16 : ℕ → ℕ → ℕ
be16 a b = a * 256 + b

abbrev pub be32 : ℕ → ℕ → ℕ → ℕ → ℕ
be32 a b c d = a * 2 ^ 24 + b * 2 ^ 16 + c * 256 + d

-- `INET6_ADDRSTRLEN`
abbrev pub inet6_addrstrlen : ℕ
inet6_addrstrlen = 46

-- The text up to the first 0, and what follows that.
unfoldable pub split_text : List ℕ → Option (List ℕ × List ℕ)
split_text [] = none
split_text (c ∷ rest) =
    if c == 0
    then some ([], rest)
    else elim (split_text rest) [ none ↦ none | some (s, after) ↦ some (c ∷ s, after) ]

-- The options, the rest of the binary and the options seen.
pub record Scanned : Type 0 where
  pub so : SockOpts
  pub rest : List ℕ
  pub seen : List Opt

abbrev pub set_ip : SockOpts → Option (List ℕ × List ℕ) → Result Scanned
set_ip so none = err fault
set_ip so (some (s, rest)) =
    if ltb (length s) inet6_addrstrlen
    then ok (record {
      so = record so { addrstr = s; addr_set = true };
      rest = rest;
      seen = ip_opt ∷ [];
    })
    else err fault

-- One case of the `switch` in `decode`, given what follows the option's byte.
unfoldable pub decode_one : Opt → List ℕ → SockOpts → Result Scanned
unfolding to_active split_text
decode_one ip_opt data' so = set_ip so (split_text data')
decode_one port_opt (a ∷ b ∷ rest) so =
    ok (record { so = record so { port = be16 a b }; rest = rest; seen = port_opt ∷ [] })
decode_one port_opt _ so = err fault
decode_one list_opt rest so =
    ok (record { so = record so { delivery_mode = data_list }; rest = rest; seen = list_opt ∷ [] })
decode_one binary_opt rest so =
    ok (record {
      so = record so { delivery_mode = data_binary };
      rest = rest;
      seen = binary_opt ∷ [];
    })
decode_one mode_opt rest so = ok (record { so = so; rest = rest; seen = [] })
decode_one inet_opt rest so =
    ok (record { so = record so { inet6 = false }; rest = rest; seen = inet_opt ∷ [] })
decode_one inet6_opt rest so =
    ok (record { so = record so { inet6 = true }; rest = rest; seen = inet6_opt ∷ [] })
decode_one send_tmout_opt (a ∷ b ∷ c ∷ d ∷ rest) so = ok (record {
  so = record so { send_tmout = ℤ.pos (be32 a b c d) };
  rest = rest;
  seen = send_tmout_opt ∷ [];
})
decode_one send_tmout_opt _ so = err fault
decode_one send_tmout_infinite_opt rest so = ok (record {
  so = record so { send_tmout = minus_one };
  rest = rest;
  seen = send_tmout_infinite_opt ∷ [];
})
decode_one active_opt (a ∷ rest) so =
    ok (record { so = record so { active = to_active a }; rest = rest; seen = active_opt ∷ [] })
decode_one active_opt [] so = err fault
decode_one packet_opt (a ∷ rest) so =
    ok (record { so = record so { packet = a }; rest = rest; seen = packet_opt ∷ [] })
decode_one packet_opt [] so = err fault
decode_one header_opt (a ∷ b ∷ rest) so =
    ok (record { so = record so { header = be16 a b }; rest = rest; seen = header_opt ∷ [] })
decode_one header_opt _ so = err fault
decode_one sndbuf_opt (a ∷ b ∷ c ∷ d ∷ rest) so = ok (record {
  so = record so { sndbuf = to_int32 (be32 a b c d) };
  rest = rest;
  seen = sndbuf_opt ∷ [];
})
decode_one sndbuf_opt _ so = err fault
decode_one recbuf_opt (a ∷ b ∷ c ∷ d ∷ rest) so = ok (record {
  so = record so { recbuf = to_int32 (be32 a b c d) };
  rest = rest;
  seen = recbuf_opt ∷ [];
})
decode_one recbuf_opt _ so = err fault

-- A byte that is no case of the `switch` is passed over.
unfoldable pub decode_byte : ℕ → List ℕ → SockOpts → Result Scanned
unfolding opt_of decode_one
decode_byte op rest so = elim (opt_of op) [
  | none ↦ ok (record { so = so; rest = rest; seen = [] })
  | some o ↦ decode_one o rest so
]

-- The loop of `decode`, on fuel that bounds the rounds: each takes a byte at least.
unfoldable pub decode_loop : ℕ → List ℕ → SockOpts → List Opt → Result (SockOpts × List Opt)
decode_loop fuel [] so seen = ok (so, seen)
decode_loop zero (op ∷ rest) so seen = err fault
decode_loop (suc fuel) (op ∷ rest) so seen = do
  s ← decode_byte op rest so
  decode_loop fuel s.rest s.so (seen ++ s.seen)

-- One case of the `switch` in `decode_and_merge`.
unfoldable pub merge_one : Opt → SockOpts → SockOpts → Result SockOpts
merge_one ip_opt so o = err invalid_argument
merge_one port_opt so o = err invalid_argument
merge_one list_opt so o = ok (record o { delivery_mode = so.delivery_mode })
merge_one binary_opt so o = ok (record o { delivery_mode = so.delivery_mode })
merge_one mode_opt so o = ok (record o { delivery_mode = so.delivery_mode })
merge_one inet_opt so o = err invalid_argument
merge_one inet6_opt so o = err invalid_argument
merge_one send_tmout_opt so o = ok (record o { send_tmout = so.send_tmout })
merge_one send_tmout_infinite_opt so o = ok (record o { send_tmout = so.send_tmout })
merge_one active_opt so o = ok (record o { active = so.active })
merge_one packet_opt so o = ok (record o { packet = so.packet })
merge_one header_opt so o = ok (record o { header = so.header })
merge_one sndbuf_opt so o = ok (record o { sndbuf = so.sndbuf })
merge_one recbuf_opt so o = ok (record o { recbuf = so.recbuf })

unfoldable pub merge_loop : List Opt → SockOpts → SockOpts → Result SockOpts
merge_loop [] so o = ok o
merge_loop (x ∷ xs) so o = do o' ← merge_one x so o; merge_loop xs so o'

module _ (getaddrinfo : GetAddrInfo) where
  -- The address is set after the loop.
  unfoldable pub set_addr : SockOpts × List Opt → Result (SockOpts × List Opt)
  set_addr (so, seen) =
      if so.addr_set
      then (do a ← from_addrport getaddrinfo so.addrstr so.port; ok (record so { addr = a }, seen))
      else ok (so, seen)

  -- `decode` with a list for `opts_list`.
  unfoldable pub decode : List ℕ → SockOpts → Result (SockOpts × List Opt)
  unfolding set_addr decode_loop
  decode bin so = do r ← decode_loop (length bin) bin so []; set_addr r

  unfoldable pub decode_and_merge : List ℕ → SockOpts → Result SockOpts
  unfolding merge_one merge_loop
  decode_and_merge bin o = do (so, seen) ← decode bin default_opts; merge_loop seen so o
