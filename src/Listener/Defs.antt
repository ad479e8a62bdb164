-- ===== src/Listener/Defs.antt =====
-- listener.h and listener.cc: the state of a `Listener`, its requests and `stop`, and
-- `SocketHandler::control` as a listener has it. The main handler is the one of Main.Registry, and `this`
-- is the listener's number there. A caller is the number of a process.
use gen_utp.Base.{
  ℕ, Bool, true, false, Option, some, none, List, [], ◌∷◌, ◌++◌, length, ◌==◌, if◌then◌else◌, ℤ,
  Result, ok, err, ◌>>=◌,
}
use gen_utp.Address.{SockAddr}
use gen_utp.Binary.{same_bytes}
use gen_utp.Coder.Defs.{Ei}
use gen_utp.Coder.Arguments.{binary_argument}
use gen_utp.Driver.Defs.{
  lit, Token, Reply, Message, encode_atom, encode_errno, not_connected_message, process,
}
use gen_utp.Driver.Queue.{DrvQueue}
use gen_utp.Options.Defs.{SockOpts}
use gen_utp.Reading.Defs.{Socket, new_socket}
use gen_utp.Sockets.Defs.{Answer, sockname, getopts, setopts}
use gen_utp.Connection.Control.{
  Command, utp_accept, utp_cancel_accept, utp_close, utp_sockname, utp_peername, utp_setopts,
  utp_getopts, utp_recv, World, enotconn,
}
use gen_utp.Main.Registry.{Registry, Selection, add_monitor, del_monitor, del_monitors, stop_input}

pub record Acceptor : Type 0 where
  pub caller : ℕ
  pub ref : List ℕ

pub record Listener (Q : Type 0) : Type 0 where
  pub sock : Socket Q
  pub acceptor_queue : List Acceptor
  pub my_addr : SockAddr

-- `Listener(int sock, const SockOpts& so)`, with the address that `getsockname` gives. The source throws
-- `SocketFailure` when it gives none.
unfoldable pub new_listener : {Q : Type 0} → Q → ℤ → SockOpts → SockAddr → Listener Q
new_listener q fd so my_addr = record {
  sock = new_socket q fd so;
  acceptor_queue = [];
  my_addr = my_addr;
}

-- A request's outcome: the two states, the monitors ended, the messages and the reply.
pub record Handled (Q : Type 0) : Type 0 where
  pub listener : Listener Q
  pub main : Option Registry
  pub demonitored : List ℕ
  pub messages : List Message
  pub reply : Reply

abbrev plain : {Q : Type 0} → Listener Q → Option Registry → Reply → Handled Q
plain l main reply = record {
  listener = l;
  main = main;
  demonitored = [];
  messages = [];
  reply = reply;
}

-- `Binary::operator==` of two binaries that are there.
unfoldable pub same_ref : List ℕ → List ℕ → Bool
unfolding same_bytes
same_ref c b = if length b == length c then same_bytes c b else false

-- The loop of `cancel_accept`: the queue, and the caller of the acceptor that is erased.
unfoldable pub cancel_loop : List ℕ → List Acceptor → List Acceptor × Option ℕ
unfolding same_ref
cancel_loop ref [] = ([], none)
cancel_loop ref (a ∷ queue) =
    let (rest, found) = cancel_loop ref queue in
    if same_ref a.ref ref then (queue, some a.caller) else (a ∷ rest, found)

abbrev pub del_found : Option ℕ → Option Registry → Option Registry × List ℕ
del_found none main = (main, [])
del_found (some caller) main = del_monitor caller main

-- `process_exited`
unfoldable pub exit_loop : ℕ → List Acceptor → List Acceptor
exit_loop proc [] = []
exit_loop proc (a ∷ queue) =
    let rest = exit_loop proc queue in if a.caller == proc then rest else a ∷ rest

unfoldable pub process_exited : {Q : Type 0} → ℕ → Listener Q → Listener Q
unfolding exit_loop
process_exited proc l = record l { acceptor_queue = exit_loop proc l.acceptor_queue }

-- What `stop` leaves: the main handler, what is turned off, and the monitors ended by the destructor.
pub record Stopped : Type 0 where
  pub main : Option Registry
  pub selections : List Selection
  pub demonitored : List ℕ

unfoldable pub close : Reply
unfolding encode_atom
close = encode_atom "ok"

unfoldable pub peername : Reply
unfolding encode_errno
peername = encode_errno enotconn

module _ (this : ℕ) where
  abbrev pub queued : {Q : Type 0} → List ℕ → ℕ → Bool × Option Registry → Listener Q → Handled Q
  queued ref caller (true, main) l =
      plain
        (record l {
          acceptor_queue = l.acceptor_queue ++ record { caller = caller; ref = ref } ∷ [];
        })
        main (Reply.term (Token.tuple_header 2 ∷ Token.atom (lit "ok") ∷ Token.binary ref ∷ []))
  queued ref caller (false, main) l = plain l main Reply.nothing

  abbrev pub accept_ref :
      {Q : Type 0} → Result (List ℕ) → ℕ → Option ℕ → Listener Q → Option Registry → Handled Q
  accept_ref (ok ref) caller answer l main =
      queued ref caller (add_monitor answer caller this main) l
  accept_ref (err e) caller answer l main = plain l main Reply.error_badarg

  -- `accept` from a caller, with the answer of `driver_monitor_process`.
  unfoldable pub accept :
      {Q : Type 0} → Ei → List ℕ → ℕ → ℕ → Option ℕ → Listener Q → Option Registry → Handled Q
  unfolding binary_argument add_monitor
  accept ei buf len caller answer l main =
      accept_ref (binary_argument ei buf len) caller answer l main

  abbrev pub cancelled : {Q : Type 0} → List ℕ → Listener Q → Option Registry → Handled Q
  cancelled ref l main =
      let (queue, found) = cancel_loop ref l.acceptor_queue in
      let (main', out) = del_found found main in
      record {
        listener = record l { acceptor_queue = queue };
        main = main';
        demonitored = out;
        messages = [];
        reply = Reply.nothing;
      }

  abbrev pub cancel_ref : {Q : Type 0} → Result (List ℕ) → Listener Q → Option Registry → Handled Q
  cancel_ref (ok ref) l main = cancelled ref l main
  cancel_ref (err e) l main = plain l main Reply.error_badarg

  unfoldable pub cancel_accept :
      {Q : Type 0} → Ei → List ℕ → ℕ → Listener Q → Option Registry → Handled Q
  unfolding binary_argument cancel_loop del_monitor
  cancel_accept ei buf len l main = cancel_ref (binary_argument ei buf len) l main

  -- `stop`, and then `~SocketHandler`.
  abbrev released : List Selection → Option Registry → Stopped
  released es main =
      let (main', out) = del_monitors this main in
      record { main = main'; selections = es; demonitored = out }

  unfoldable pub stop : {Q : Type 0} → Listener Q → Option Registry → Stopped
  unfolding stop_input del_monitors
  stop l main =
      let (main', es) = stop_input l.sock.udp_sock main in
      let off = released es main' in
      let silent = released [] main in if l.sock.selected then off else silent

  module _ (d : DrvQueue) where
    open d use {Queue}

    abbrev answered : Listener Queue → Option Registry → Answer Queue → Handled Queue
    answered l main a = record {
      listener = record l { sock = a.sock };
      main = main;
      demonitored = [];
      messages = a.messages;
      reply = a.reply;
    }

    -- `SocketHandler::control`. `getopts` is answered from the options.
    unfoldable pub socket_control :
        Command
        → Ei
        → World
        → List ℕ
        → ℕ
        → Listener Queue
        → Option Registry
        → Result (Handled Queue)
    unfolding sockname getopts setopts close peername encode_errno
    socket_control utp_close ei w buf len l main = ok (plain l main close)
    socket_control utp_sockname ei w buf len l main =
        ok (plain l main (sockname w.getnameinfo w.errno w.sock_name w.errno))
    socket_control utp_peername ei w buf len l main = ok (plain l main peername)
    socket_control utp_setopts ei w buf len l main = do
      a ← setopts d ei w.getaddrinfo buf len l.sock
      ok (answered l main a)
    socket_control utp_getopts ei w buf len l main =
        ok (plain l main (getopts ei buf len l.sock.sockopts))
    socket_control utp_recv ei w buf len l main = ok (plain l main (encode_errno enotconn))
    socket_control _ ei w buf len l main = ok (plain l main Reply.error_general)

    -- `control`; `answer` is the runtime's answer to `accept`.
    unfoldable pub control :
        Command
        → Ei
        → World
        → Option ℕ
        → List ℕ
        → ℕ
        → Listener Queue
        → Option Registry
        → Result (Handled Queue)
    unfolding accept cancel_accept socket_control
    control utp_accept ei w answer buf len l main = ok (accept ei buf len w.from answer l main)
    control utp_cancel_accept ei w answer buf len l main = ok (cancel_accept ei buf len l main)
    control command ei w answer buf len l main = socket_control command ei w buf len l main

-- `outputv`: whatever is sent is answered by the error.
unfoldable pub outputv : {Q : Type 0} → ℕ → Listener Q → Message
unfolding not_connected_message
outputv caller l = not_connected_message (process caller) l.sock.drv_port enotconn
