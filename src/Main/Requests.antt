-- ===== src/Main/Requests.antt =====
-- main_handler.cc: a port's `MainHandler`. Until `listen` or `connect_start` gives it a delegatee it answers
-- itself. What the system calls, libutp and the runtime answer is an argument.
use gen_utp.Base.{
  ℕ, zero, suc, ◌+◌, Bool, true, false, Option, some, none, List, [], ◌∷◌, length, ltb, ◌==◌,
  if◌then◌else◌, ℤ, is_minus_one, Result, ok, err, fault, ei_error, bad_sock_addr, socket_failure,
  or_throw, ◌>>=◌,
}
use gen_utp.Address.{SockAddr, GetAddrInfo, from_addrport, from_in_addr}
use gen_utp.Coder.Defs.{Ei, c_str}
use gen_utp.Coder.Decoder
use gen_utp.Coder.Arguments.{binary_argument, binary_at}
use gen_utp.Driver.Defs.{errno_id, Reply, Message, encode_atom, encode_error}
use gen_utp.Options.Defs.{SockOpts, default_opts, inet6_addrstrlen, decode}
use gen_utp.Sockets.Opening.{Calls, Opened, open_udp_socket}
use gen_utp.Sockets.Defs.{set_port}
use gen_utp.Connection.Defs.{UtpHandler, Event, new_handler}
use gen_utp.Connection.Peers.{connect_to}
use gen_utp.Main.Registry.{Registry, Selection, start_input, give_port}
use gen_utp.Listener.Defs.{Listener, new_listener}

-- A `Handler` that is not a `MainHandler`. A connection is a `Server` or a `Client`; the Boolean is true for a
-- `Server`.
pub data Handler (Q : Type 0) : Type 0 where
  listener : Listener Q → Handler Q
  connection : Bool → UtpHandler Q → Handler Q

-- `delegatee` has the number of the handler in the registry.
pub record MainHandler (Q : Type 0) : Type 0 where
  pub port : ℕ
  pub delegatee : Option (ℕ × Handler Q)

-- The answers: `getsockname` of the descriptor in the options, an errno if it fails; the calls that open a
-- socket for an address; `getsockname` in the constructor of a `Listener`; `UTP_Create`; the queue of the
-- port; the number of the new handler, and that of the port's handler itself.
pub record Outside (Q : Type 0) : Type 0 where
  pub getaddrinfo : GetAddrInfo
  pub fd_errno : Option ℕ
  pub calls : SockAddr → Calls
  pub my_addr : Option SockAddr
  pub created : Option ℕ
  pub queue : Q
  pub number : ℕ
  pub this : ℕ

-- A request's outcome; `closed` has the descriptors closed.
pub record Attached (Q : Type 0) : Type 0 where
  pub handler : MainHandler Q
  pub main : Option Registry
  pub selections : List Selection
  pub events : List Event
  -- The address that `UTP_Create` and `UTP_Connect` are given.
  pub peer : Option SockAddr
  pub demonitored : List ℕ
  pub messages : List Message
  pub closed : List ℕ
  pub reply : Reply

abbrev pub failing : {Q : Type 0} → MainHandler Q → Option Registry → List ℕ → Reply → Attached Q
failing h main fds reply = record {
  handler = h;
  main = main;
  selections = [];
  events = [];
  peer = none;
  demonitored = [];
  messages = [];
  closed = fds;
  reply = reply;
}

-- "::"
abbrev pub in6_any : List ℕ
in6_any = 58 ∷ 58 ∷ []

-- `INADDR_ANY`
abbrev pub inaddr_any : List ℕ
inaddr_any = 0 ∷ 0 ∷ 0 ∷ 0 ∷ []

abbrev fd_result : Option ℕ → ℤ
fd_result none = ℤ.pos 0
fd_result (some errno) = ℤ.pos errno

-- `open_udp_socket` of a port.
unfoldable pub open_udp_port : Bool → (SockAddr → Calls) → ℕ → Opened
unfolding from_in_addr open_udp_socket
open_udp_port reuseaddr calls port =
    open_udp_socket reuseaddr (calls (from_in_addr inaddr_any port))

-- The choice of the socket, with `open_udp_socket` for a port or for an address.
unfoldable pub open_for : {Q : Type 0} → Bool → SockOpts → Outside Q → Result Opened
unfolding is_minus_one from_addrport open_udp_socket open_udp_port
open_for reuseaddr opts w =
    let any6 = (do
      a ← from_addrport w.getaddrinfo in6_any 0
      ok (open_udp_socket reuseaddr (w.calls a))) in
    if is_minus_one opts.fd
    then (if opts.addr_set
        then ok (open_udp_socket reuseaddr (w.calls opts.addr))
        else (if opts.inet6 then any6 else ok (open_udp_port reuseaddr w.calls opts.port)))
    else ok (record { result = fd_result w.fd_errno; udp_sock = opts.fd; closed = [] })

-- `set_port` of the delegatee, and the `start_input` that it asks for.
abbrev pub started : Option ℤ → ℕ → Option Registry → Option Registry × List Selection
started none number main = (main, [])
started (some fd) number main = start_input fd number main

-- The text in `addrstr`, an array of INET6_ADDRSTRLEN bytes; a text that is longer is written past its end.
unfoldable pub addr_text : List ℕ → Result (List ℕ)
unfolding c_str
addr_text s = if ltb inet6_addrstrlen (length s + 1) then err fault else ok (c_str s)

-- The `try` block of `connect_start`.
unfoldable pub connect_argument : Ei → List ℕ → ℕ → Result (List ℕ × ℕ × List ℕ)
unfolding Decoder.new_decoder Decoder.tuple_header Decoder.string Decoder.ulongval Decoder.advance
    binary_at addr_text
connect_argument ei buf len = do
  d ← Decoder.new_decoder ei buf len
  (arity, d') ← Decoder.tuple_header ei d
  (if arity == 3
      then (do
        (s, d2) ← Decoder.string ei d'
        addrstr ← addr_text s
        (addrport, d3) ← Decoder.ulongval ei d2
        bin ← binary_at ei d3
        ok (addrstr, addrport, bin))
      else err ei_error)

module _ {Q : Type 0} (w : Outside Q) where
  -- `delegatee = new Listener(udp_sock, opts)` and what follows.
  unfoldable pub attach_listener :
      ℤ → SockOpts → SockAddr → MainHandler Q → Option Registry → Attached Q
  unfolding new_listener set_port start_input give_port encode_atom
  attach_listener fd opts addr h main =
      let new = new_listener w.queue fd opts addr in
      let (sock, input) = set_port h.port new.sock in
      let (main', es) = started input w.number main in
      record {
        handler = record {
          port = 0;
          delegatee = some (w.number, listener (record new { sock = sock }));
        };
        main = give_port w.this main';
        selections = es;
        events = [];
        peer = none;
        demonitored = [];
        messages = [];
        closed = [];
        reply = encode_atom "ok";
      }

  -- The errno, or the socket; the value is never negative.
  abbrev pub listen_on :
      ℤ → Opened → SockOpts → MainHandler Q → Option Registry → Result (Attached Q)
  listen_on (ℤ.pos zero) o opts h main = do
    addr ← or_throw socket_failure w.my_addr
    ok (attach_listener o.udp_sock opts addr h main)
  listen_on (ℤ.pos (suc n)) o opts h main =
      ok (failing h main o.closed (encode_error (errno_id (suc n))))
  listen_on (ℤ.negsuc n) o opts h main = err fault

  unfoldable pub listen_with : List ℕ → MainHandler Q → Option Registry → Result (Attached Q)
  unfolding decode open_for attach_listener encode_error
  listen_with bin h main = do
    (opts, seen) ← decode w.getaddrinfo bin default_opts
    o ← open_for true opts w
    listen_on o.result o opts h main

  -- `listen`. An exception after the arguments is not caught.
  abbrev pub listen_ref : Result (List ℕ) → MainHandler Q → Option Registry → Result (Attached Q)
  listen_ref (ok bin) h main = listen_with bin h main
  listen_ref (err e) h main = ok (failing h main [] Reply.error_badarg)

  unfoldable pub listen : Ei → List ℕ → ℕ → MainHandler Q → Option Registry → Result (Attached Q)
  unfolding binary_argument listen_with
  listen ei buf len h main = listen_ref (binary_argument ei buf len) h main

  -- `new Client(udp_sock, opts)` and what follows.
  unfoldable pub attach_client :
      SockAddr → ℤ → SockOpts → MainHandler Q → Option Registry → Attached Q
  unfolding new_handler set_port start_input give_port connect_to encode_atom
  attach_client addr fd opts h main =
      let new = new_handler w.queue fd opts in
      let (sock, input) = set_port h.port new.sock in
      let (main', es) = started input w.number main in
      let begun = connect_to w.created (record new { sock = sock }) in
      record {
        handler = record { port = 0; delegatee = some (w.number, connection false begun.after) };
        main = give_port w.this main';
        selections = es;
        events = begun.events;
        peer = some addr;
        demonitored = [];
        messages = [];
        closed = [];
        reply = encode_atom "ok";
      }

  abbrev pub connect_on :
      SockAddr → ℤ → Opened → SockOpts → MainHandler Q → Option Registry → Result (Attached Q)
  connect_on addr (ℤ.pos zero) o opts h main = ok (attach_client addr o.udp_sock opts h main)
  connect_on addr (ℤ.pos (suc n)) o opts h main =
      ok (failing h main o.closed (encode_error (errno_id (suc n))))
  connect_on addr (ℤ.negsuc n) o opts h main = err fault

  unfoldable pub connect_with :
      SockAddr → List ℕ → MainHandler Q → Option Registry → Result (Attached Q)
  unfolding decode open_for attach_client encode_error
  connect_with addr bin h main = do
    (opts, seen) ← decode w.getaddrinfo bin default_opts
    o ← open_for false opts w
    connect_on addr o.result o opts h main

  -- `BadSockAddr` is caught where the address is made, and not after.
  abbrev pub connect_to_addr :
      Result SockAddr → List ℕ → MainHandler Q → Option Registry → Result (Attached Q)
  connect_to_addr (ok addr) bin h main = connect_with addr bin h main
  connect_to_addr (err bad_sock_addr) bin h main = ok (failing h main [] Reply.error_badarg)
  connect_to_addr (err e) bin h main = err e

  -- The address, the port and the options of `connect_start`.
  abbrev pub connect_ref :
      Result (List ℕ × ℕ × List ℕ) → MainHandler Q → Option Registry → Result (Attached Q)
  connect_ref (ok (addrstr, addrport, bin)) h main =
      connect_to_addr (from_addrport w.getaddrinfo addrstr addrport) bin h main
  connect_ref (err ei_error) h main = ok (failing h main [] Reply.error_badarg)
  connect_ref (err e) h main = err e

  -- `connect_start`
  unfoldable pub connect_start :
      Ei → List ℕ → ℕ → MainHandler Q → Option Registry → Result (Attached Q)
  unfolding connect_argument from_addrport connect_with
  connect_start ei buf len h main = connect_ref (connect_argument ei buf len) h main
