-- ===== src/Sockets/Defs.antt =====
-- socket_handler.cc: `SocketHandler::setopts`, `getopts`, `sockname` and `set_port`. The options in
-- a request are decoded through ei, which is a parameter, as are `getaddrinfo` and the queue.
use gen_utp.Base.{
  ℕ, suc, Bool, true, false, Option, some, none, List, [], ◌∷◌, ◌++◌, length, ltb, if◌then◌else◌, ℤ,
  is_minus_one, to_ulong, Result, ok, err, fault, bad_sock_addr, socket_failure, invalid_argument,
  ei_error, ◌>>=◌,
}
use gen_utp.Address.{SockAddr, GetAddrInfo, GetNameInfo, encode}
use gen_utp.Coder.Defs.{Ei}
use gen_utp.Coder.Arguments.{binary_argument}
use gen_utp.Driver.Defs.{lit, errno_id, Token, Reply, Message, encode_atom, encode_errno}
use gen_utp.Driver.Queue.{DrvQueue}
use gen_utp.Options.Defs.{
  Active, active_false, active_once, active_true, active_other, DeliveryMode, data_list,
  data_binary, SockOpts, Opt, opt_of, mode_opt, send_tmout_opt, active_opt, packet_opt, sndbuf_opt,
  recbuf_opt, decode_and_merge,
}
use gen_utp.Reading.Defs.{Socket, connected_receiver, emit_read_buffer}

abbrev pub einval : ℕ
einval = 22

-- A request's outcome: the state, the messages sent on the way, and the reply.
pub record Answer (Q : Type 0) : Type 0 where
  pub sock : Socket Q
  pub messages : List Message
  pub reply : Reply

-- `SocketHandler::set_port`: the state, and the descriptor whose input is started, if it is.
unfoldable pub set_port : {Q : Type 0} → ℕ → Socket Q → Socket Q × Option ℤ
set_port p s =
    let s' = record s { drv_port = p } in
    if s.selected then (s', none) else (record s' { selected = true }, some s.udp_sock)

-- `sockname`, given what `getsockname` says: the address, or an errno.
unfoldable pub sockname : GetNameInfo → ℕ → Option SockAddr → ℕ → Reply
unfolding encode encode_errno
sockname getnameinfo errno none failed = encode_errno failed
sockname getnameinfo errno (some addr) failed = encode getnameinfo errno addr

abbrev pub active_name : Active → Token
active_name active_false = Token.atom (lit "false")
active_name active_true = Token.atom (lit "true")
active_name _ = Token.atom (lit "once")

abbrev pub mode_name : DeliveryMode → Token
mode_name data_list = Token.atom (lit "list")
mode_name data_binary = Token.atom (lit "binary")

-- One case of the `switch` in `getopts`; `none` for its default.
unfoldable pub option_tokens : Option Opt → SockOpts → Option (List Token)
unfolding to_ulong is_minus_one
option_tokens (some active_opt) so =
    some (Token.tuple_header 2 ∷ Token.atom (lit "active") ∷ active_name so.active ∷ [])
option_tokens (some mode_opt) so =
    some (Token.tuple_header 2 ∷ Token.atom (lit "mode") ∷ mode_name so.delivery_mode ∷ [])
option_tokens (some send_tmout_opt) so = some (
    Token.tuple_header 2
    ∷ Token.atom (lit "send_timeout")
    ∷ (if is_minus_one so.send_tmout
        then Token.atom (lit "infinity")
        else Token.longval so.send_tmout)
    ∷ [])
option_tokens (some packet_opt) so =
    some (Token.tuple_header 2 ∷ Token.atom (lit "packet") ∷ Token.ulongval so.packet ∷ [])
option_tokens (some sndbuf_opt) so =
    some
      (Token.tuple_header 2 ∷ Token.atom (lit "sndbuf") ∷ Token.ulongval (to_ulong so.sndbuf) ∷ [])
option_tokens (some recbuf_opt) so =
    some
      (Token.tuple_header 2 ∷ Token.atom (lit "recbuf") ∷ Token.ulongval (to_ulong so.recbuf) ∷ [])
option_tokens _ so = none

-- The loop of `getopts` after the list's header; `none` where it returns the error.
unfoldable pub getopts_loop : List ℕ → SockOpts → Option (List Token)
unfolding option_tokens opt_of
getopts_loop [] so = some (Token.empty_list ∷ [])
getopts_loop (op ∷ names) so = elim (option_tokens (opt_of op) so) [
  | none ↦ none
  | some ts ↦ elim (getopts_loop names so) [ none ↦ none | some rest ↦ some (ts ++ rest) ]
]

abbrev pub listed : ℕ → Option (List Token) → Reply
listed n none =
    Reply.term (Token.tuple_header 2 ∷ Token.atom (lit "error") ∷ Token.atom (errno_id einval) ∷ [])
listed n (some ts) =
    Reply.term (Token.tuple_header 2 ∷ Token.atom (lit "ok") ∷ Token.list_header n ∷ ts)

-- `getopts` of the names in a binary.
unfoldable pub getopts_of : List ℕ → SockOpts → Reply
unfolding getopts_loop
getopts_of [] so = Reply.term (Token.tuple_header 2 ∷ Token.atom (lit "ok") ∷ Token.empty_list ∷ [])
getopts_of (op ∷ names) so = listed (suc (length names)) (getopts_loop (op ∷ names) so)

module _ (ei : Ei) where
  unfoldable pub getopts : List ℕ → ℕ → SockOpts → Reply
  unfolding binary_argument getopts_of
  getopts buf len so = elim (binary_argument ei buf len) [
    | ok names ↦ getopts_of names so
    | err e ↦ Reply.error_badarg
  ]

-- Whether `setopts` sends what is queued: the options before and after, and whether counts wait.
unfoldable pub sends_after : Active → Active → Bool → Bool
sends_after active_false active_false waiting = false
sends_after active_false active_once waiting = waiting
sends_after active_false active_true waiting = true
sends_after active_false (active_other n) waiting = false
sends_after active_once active_true waiting = true
sends_after active_once _ waiting = false
sends_after active_true active_true waiting = true
sends_after active_true _ waiting = false
sends_after (active_other n) _ waiting = false

module _ (d : DrvQueue) where
  open d use {Queue}

  -- `setopts` once the options are merged. The size that `emit_read_buffer` leaves is not used.
  unfoldable pub apply_opts : SockOpts → Socket Queue → Result (Answer Queue)
  unfolding sends_after encode_atom
  apply_opts so s =
      let s' = record s { sockopts = so } in
      let sent = (do
        e ← emit_read_buffer d 0 connected_receiver 0 s'
        ok (record { sock = e.sock; messages = e.messages; reply = encode_atom "ok" })) in
      if sends_after s.sockopts.active so.active (ltb 0 (length s.read_count))
      then sent
      else ok (record { sock = s'; messages = []; reply = encode_atom "ok" })

  -- `invalid_argument` is caught, and no other exception.
  unfoldable pub merged : Result SockOpts → Socket Queue → Result (Answer Queue)
  unfolding apply_opts
  merged (ok so) s = apply_opts so s
  merged (err invalid_argument) s =
      ok (record { sock = s; messages = []; reply = Reply.error_badarg })
  merged (err bad_sock_addr) s = err bad_sock_addr
  merged (err socket_failure) s = err socket_failure
  merged (err ei_error) s = err ei_error
  merged (err fault) s = err fault

  unfoldable pub setopts : Ei → GetAddrInfo → List ℕ → ℕ → Socket Queue → Result (Answer Queue)
  unfolding binary_argument merged
  setopts ei getaddrinfo buf len s = elim (binary_argument ei buf len) [
    | ok bin ↦ merged (decode_and_merge getaddrinfo bin s.sockopts) s
    | err e ↦ ok (record { sock = s; messages = []; reply = Reply.error_badarg })
  ]
