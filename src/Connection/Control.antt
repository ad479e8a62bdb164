-- ===== src/Connection/Control.antt =====
-- utp_handler.cc: the requests of the Erlang side, `control`, `close`, `recv`, `setopts`, `peername`
-- and `stop`, and those of client.cc. `driver_caller` is the argument `from`.
use gen_utp.Base.{
  ℕ, Bool, true, false, not, ◌&&◌, ◌||◌, Option, some, none, List, [], ◌∷◌, ◌++◌, map, ◌==◌,
  if◌then◌else◌, ℤ, Result, ok, err, ◌>>=◌,
}
use gen_utp.Address.{SockAddr, GetAddrInfo, GetNameInfo, encode}
use gen_utp.Coder.Defs.{Ei}
use gen_utp.Coder.Arguments.{binary_argument, recv_argument}
use gen_utp.Driver.Defs.{lit, errno_id, Token, Reply, encode_atom, encode_errno, process}
use gen_utp.Driver.Queue.{DrvQueue}
use gen_utp.Reading.Defs.{is_false, emit_read_buffer}
use gen_utp.Sockets.Defs.{Answer, getopts, sockname}
use gen_utp.Sockets.Defs
use gen_utp.Connection.Defs.{
  Status, not_connected, listening, connect_pending, connected, connect_failed, closing, stopped,
  UtpHandler, Event, message, rb_drained, set_sndbuf, set_recbuf, deq_all, deleted, Stepped,
  close_utp, cancel_send, cancel_recv, is_destroying,
}
use gen_utp.Connection.Callbacks.{is_closing, is_connected}

abbrev pub enotconn : ℕ
enotconn = 107

-- `enum Commands`, in the order of the source: the first is 1.
pub data Command : Type 0 where
  utp_listen utp_accept utp_cancel_accept utp_connect_start utp_connect_validate : Command
  utp_close utp_sockname utp_peername utp_setopts utp_getopts utp_cancel_send : Command
  utp_recv utp_cancel_recv : Command
  unknown : ℕ → Command

pub record Answered (Q : Type 0) : Type 0 where
  pub after : UtpHandler Q
  pub events : List Event
  pub reply : Reply

-- What the calls that a request makes outside the driver return.
pub record World : Type 0 where
  pub from : ℕ
  pub getaddrinfo : GetAddrInfo
  pub getnameinfo : GetNameInfo
  pub errno : ℕ
  -- `getsockname`, `UTP_GetPeerName`
  pub sock_name : Option SockAddr
  pub peer_name : SockAddr

-- Whether two values of type `int` differ.
unfoldable pub differ : ℤ → ℤ → Bool
differ (ℤ.pos a) (ℤ.pos b) = not (a == b)
differ (ℤ.negsuc a) (ℤ.negsuc b) = not (a == b)
differ _ _ = true

unfoldable pub status_number : Status → ℕ
status_number not_connected = 0
status_number listening = 1
status_number connect_pending = 2
status_number connected = 3
status_number connect_failed = 4
status_number closing = 5
status_number Status.destroying = 6
status_number stopped = 7

module _ {Q : Type 0} where
  abbrev pub replied : UtpHandler Q → Reply → Answered Q
  replied h r = record { after = h; events = []; reply = r }

  -- `peername`
  unfoldable pub peername : World → UtpHandler Q → Reply
  unfolding encode encode_errno
  peername w h = elim h.utp [
    | none ↦ encode_errno enotconn
    | some u ↦
        if is_connected h.status
        then encode w.getnameinfo w.errno w.peer_name
        else encode_errno enotconn
  ]

  -- The condition under which `close` begins to close.
  unfoldable pub may_close : UtpHandler Q → Bool
  unfolding is_destroying
  may_close h =
      not h.close_pending
      && (h.eof_seen || (not (is_closing h.status) && not (is_destroying h.status)))

  -- What `close` has set when it decodes its argument.
  abbrev pub closing_state : UtpHandler Q → UtpHandler Q
  closing_state h =
      let s = h.sock in
      record h { status = closing; eof_seen = false; sock = record s { close_pending = true } }

  -- `Binary::decode` allocates before it reads: where the reading throws, the source leaves a binary of unset
  -- bytes in `caller_ref`, and this leaves the field as it was.
  abbrev pub close_with : ℕ → UtpHandler Q → Result (List ℕ) → Answered Q
  close_with from h (err e) = replied h Reply.error_badarg
  close_with from h (ok ref) =
      let closed = close_utp (record h { caller_ref = some ref; caller = process from }) in
      record { after = closed.after; events = closed.events; reply = encode_atom "wait" }

  unfoldable pub close : Ei → World → List ℕ → ℕ → UtpHandler Q → Answered Q
  unfolding may_close close_utp binary_argument encode_atom
  close ei w buf len h =
      if may_close h
      then close_with w.from (closing_state h) (binary_argument ei buf len)
      else replied h (encode_atom "ok")

  -- `stop`: the state unless the handler was deleted, and the events.
  abbrev pub stop_with : UtpHandler Q → List Event → ℕ → Stepped Q
  stop_with h events qsize =
      let off = if qsize == 0 then events else events ++ deq_all qsize ∷ [] in
      if is_destroying h.status
      then record { after = h; events = off ++ deleted ∷ [] }
      else record { after = record h { status = stopped }; events = off }

  -- `Client::connect_validate`
  abbrev pub validate_as : Status → List ℕ → UtpHandler Q → Answered Q
  validate_as connect_pending ref h =
      replied (record h { caller_ref = some ref }) (encode_atom "wait")
  validate_as connect_failed ref h =
      replied (record h { status = not_connected })
        (Reply.term (
          Token.tuple_header 2
          ∷ Token.atom (lit "error")
          ∷ Token.atom (errno_id h.error_code)
          ∷ []))
  validate_as connected ref h = replied h (encode_atom "ok")
  validate_as other ref h = replied h (
      Reply.term (
        Token.tuple_header 2
        ∷ Token.atom (lit "error")
        ∷ Token.illegal_state (status_number other)
        ∷ []))

  unfoldable pub connect_validate : Ei → List ℕ → ℕ → UtpHandler Q → Answered Q
  unfolding binary_argument encode_atom status_number
  connect_validate ei buf len h = elim (binary_argument ei buf len) [
    | ok ref ↦ validate_as h.status ref h
    | err e ↦ replied h Reply.error_badarg
  ]

module _ (d : DrvQueue) where
  open d use {Queue, sizeq, deq}

  -- The queue of the port with nothing in it.
  abbrev pub emptied : UtpHandler Queue → UtpHandler Queue
  emptied h =
      let s = h.sock in
      let qsize = sizeq s.queue in
      if qsize == 0 then h else record h { sock = record s { queue = deq s.queue qsize } }

  unfoldable pub stop : UtpHandler Queue → Stepped Queue
  unfolding close_utp is_destroying
  stop h =
      let closed = close_utp h in
      stop_with (emptied closed.after) closed.events (sizeq closed.after.queue)

  -- `UtpHandler::setopts`
  unfoldable pub setopts : Ei → World → List ℕ → ℕ → UtpHandler Queue → Result (Answered Queue)
  unfolding Defs.setopts differ
  setopts ei w buf len h = do
    a ← Defs.setopts d ei w.getaddrinfo buf len h.sock
    let s = a.sock
    let snd =
        (if differ h.sockopts.sndbuf s.sockopts.sndbuf
          then set_sndbuf h.utp s.sockopts.sndbuf ∷ []
          else [])
    let rec =
        (if differ h.sockopts.recbuf s.sockopts.recbuf
          then set_recbuf h.utp s.sockopts.recbuf ∷ []
          else [])
    ok (record {
      after = record h { sock = s };
      events = map message a.messages ++ (snd ++ rec);
      reply = a.reply;
    })

  abbrev pub wait_for_data : ℕ → List ℕ → ℕ → UtpHandler Queue → UtpHandler Queue
  wait_for_data length ref from h = record h {
    caller_ref = some ref;
    caller = process from;
    recv_len = length;
    receiver_waiting = true;
  }

  abbrev pub recv_with : ℕ → UtpHandler Queue → Result (ℕ × List ℕ) → Result (Answered Queue)
  recv_with from h (err x) = ok (replied h Reply.error_badarg)
  recv_with from h (ok (length, ref)) = do
    e ←
        emit_read_buffer d length
          (record { caller_ref = ref; caller = process from; send_to_connected = false }) 1 h.sock
    let h' = record h { sock = e.sock }
    ok (record {
      after = if e.sent then h' else wait_for_data length ref from h';
      events =
          map message e.messages
          ++ (if e.sent && (e.new_qsize == 0) then rb_drained h.utp ∷ [] else []);
      reply = encode_atom "wait";
    })

  unfoldable pub recv : Ei → World → List ℕ → ℕ → UtpHandler Queue → Result (Answered Queue)
  unfolding recv_argument encode_atom
  recv ei w buf len h =
      if is_false h.sockopts.active
      then recv_with w.from h (recv_argument ei buf len)
      else ok (replied h Reply.error_badarg)

  -- `Client::control`, then `UtpHandler::control`, then `SocketHandler::control`; `is_client` tells
  -- a `Client` from a `Server`. A request that `UtpHandler` answers does not reach `SocketHandler`.
  unfoldable pub control :
      Bool → Command → Ei → World → List ℕ → ℕ → UtpHandler Queue → Result (Answered Queue)
  unfolding connect_validate cancel_send cancel_recv recv setopts close sockname peername getopts
  control true utp_connect_validate ei w buf len h = ok (connect_validate ei buf len h)
  control is_client utp_cancel_send ei w buf len h = ok (replied (cancel_send h) Reply.nothing)
  control is_client utp_recv ei w buf len h = recv ei w buf len h
  control is_client utp_cancel_recv ei w buf len h = ok (replied (cancel_recv h) Reply.nothing)
  control is_client utp_setopts ei w buf len h = setopts ei w buf len h
  control is_client utp_close ei w buf len h = ok (close ei w buf len h)
  control is_client utp_sockname ei w buf len h =
      ok (replied h (sockname w.getnameinfo w.errno w.sock_name w.errno))
  control is_client utp_peername ei w buf len h = ok (replied h (peername w h))
  control is_client utp_getopts ei w buf len h = ok (replied h (getopts ei buf len h.sockopts))
  control is_client _ ei w buf len h = ok (replied h Reply.error_general)
