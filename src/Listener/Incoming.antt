-- ===== src/Listener/Incoming.antt =====
-- listener.cc, `Listener::input_ready`: a datagram opens a connection for the first process that waits. What
-- the system calls, libutp and the runtime answer is an argument.
use gen_utp.Base.{
  ℕ, Bool, true, false, Option, some, none, List, [], ◌∷◌, ◌++◌, ◌==◌, if◌then◌else◌, ℤ,
}
use gen_utp.Driver.Defs.{lit, errno_id, DrvTerm, port, ext2term, tuple, Message, send, process}
use gen_utp.Sockets.Opening.{Calls, Opened, open_udp_socket}
use gen_utp.Reading.Defs.{Socket}
use gen_utp.Sockets.Defs.{set_port}
use gen_utp.Connection.Defs.{UtpHandler, Event, Stepped, new_handler}
use gen_utp.Connection.Peers.{do_incoming}
use gen_utp.Main.Registry.{Registry, Selection, del_monitor, del_monitors, start_input}
use gen_utp.Listener.Defs.{Acceptor, Listener}

abbrev pub eintr : ℕ
eintr = 4

-- The answers: the bytes of the datagram, none if `recvfrom` fails; the calls that open a socket; the
-- `errno` of each `connect` in turn, none if it succeeds; what `UTP_IsIncomingUTP` returns, and the
-- connections that it hands to `do_incoming` before; the port that is made, with its queue.
pub record Arrival (Q : Type 0) : Type 0 where
  pub datagram : Option (List ℕ)
  pub calls : Calls
  pub connects : List (Option ℕ)
  pub is_utp : Bool
  pub incoming : List ℕ
  pub new_port : ℕ
  pub queue : Q
  -- The numbers of the two objects that are made.
  pub server : ℕ
  pub handler : ℕ

pub record Served (Q : Type 0) : Type 0 where
  pub listener : Listener Q
  pub main : Option Registry
  -- The server that the new port has.
  pub started : Option (UtpHandler Q)
  pub events : List Event
  pub selections : List Selection
  pub demonitored : List ℕ
  pub messages : List Message
  -- The calls of `close`, and of the destructors.
  pub closed : List ℤ
  pub deleted : List ℕ

abbrev pub dropped :
    {Q : Type 0} → Listener Q → Option Registry → List ℤ → List ℕ → List ℕ → Served Q
dropped l main fds objects out = record {
  listener = l;
  main = main;
  started = none;
  events = [];
  selections = [];
  demonitored = out;
  messages = [];
  closed = fds;
  deleted = objects;
}

unfoldable pub is_negative : ℤ → Bool
is_negative (ℤ.pos n) = false
is_negative (ℤ.negsuc n) = true

-- The loop of `connect`: its outcome, or none while it goes on.
unfoldable pub connect_loop : List (Option ℕ) → Option (Option ℕ)
connect_loop [] = none
connect_loop (none ∷ answers) = some none
connect_loop (some errno ∷ answers) =
    let rest = connect_loop answers in if errno == eintr then rest else some (some errno)

abbrev pub closed_fds : List ℕ → List ℤ
closed_fds [] = []
closed_fds (fd ∷ fds) = ℤ.pos fd ∷ closed_fds fds

-- `new Server(sock, sockopts)`, and the calls of its `do_incoming`.
unfoldable pub incoming_loop : {Q : Type 0} → List ℕ → UtpHandler Q → Stepped Q
unfolding do_incoming
incoming_loop [] h = record { after = h; events = [] }
incoming_loop (u ∷ us) h =
    let first = do_incoming u h in
    let rest = incoming_loop us first.after in
    record { after = rest.after; events = first.events ++ rest.events }

abbrev pub error_message : ℕ → Acceptor → ℕ → Message
error_message p acc errno = send (process acc.caller) (
    DrvTerm.atom (lit "utp_async")
    ∷ port p
    ∷ ext2term acc.ref
    ∷ DrvTerm.atom (lit "error")
    ∷ DrvTerm.atom (errno_id errno)
    ∷ tuple 2
    ∷ tuple 4
    ∷ [])

abbrev pub ok_message : ℕ → Acceptor → ℕ → Message
ok_message p acc new_port = send (process acc.caller) (
    DrvTerm.atom (lit "utp_async")
    ∷ port p
    ∷ ext2term acc.ref
    ∷ DrvTerm.atom (lit "ok")
    ∷ port new_port
    ∷ tuple 2
    ∷ tuple 4
    ∷ [])

-- The branch of a failed `connect`.
unfoldable pub refused :
    {Q : Type 0} → ℕ → Opened → Acceptor → List Acceptor → Listener Q → Option Registry → Served Q
unfolding del_monitor
refused errno o acc rest l main =
    let (main', out) = del_monitor acc.caller main in
    record (dropped (record l { acceptor_queue = rest }) main'
      (closed_fds o.closed ++ o.udp_sock ∷ []) [] out) {
        messages = error_message l.sock.drv_port acc errno ∷ [];
      }

-- `delete server; delete mh`: the second deletes the server as its delegatee.
abbrev pub delete_both : ℕ → ℕ → List ℕ
delete_both server mh = server ∷ server ∷ mh ∷ []

-- The `start_input` that `set_port` asks for.
abbrev pub input_from : Option ℤ → ℕ → Option Registry → Option Registry × List Selection
input_from none h main = (main, [])
input_from (some fd) h main = start_input fd h main

module _ {Q : Type 0} (a : Arrival Q) (o : Opened) where
  -- The branch of a datagram of uTP: what `set_port` and `start_input` leave, and what `del_monitor` does.
  abbrev pub served :
      Acceptor
      → List Acceptor
      → Listener Q
      → Stepped Q
      → Socket Q
      → Option Registry × List Selection
      → List ℕ
      → Served Q
  served acc rest l new sock (main, es) out = record {
    listener = record l { acceptor_queue = rest };
    main = main;
    started = some (record new.after { sock = sock });
    events = new.events;
    selections = es;
    demonitored = out;
    messages = ok_message l.sock.drv_port acc a.new_port ∷ [];
    closed = closed_fds o.closed;
    deleted = [];
  }

  -- The other branch, with what the destructor of the server does.
  abbrev pub unserved : Listener Q → Stepped Q → Option Registry × List ℕ → Served Q
  unserved l new (main, out) =
      record (dropped l main (closed_fds o.closed ++ o.udp_sock ∷ [])
        (delete_both a.server a.handler) out) { events = new.events }

  -- The rest, once `connect` succeeds.
  unfoldable pub connected_to : Acceptor → List Acceptor → Listener Q → Option Registry → Served Q
  unfolding incoming_loop new_handler del_monitor del_monitors set_port start_input
  connected_to acc rest l main =
      let new = incoming_loop a.incoming (new_handler a.queue o.udp_sock l.sock.sockopts) in
      let (main', out) = del_monitor acc.caller main in
      let (sock', fd) = set_port a.new_port new.after.sock in
      let taken = served acc rest l new sock' (input_from fd a.server main') out in
      let left = unserved l new (del_monitors a.server main) in if a.is_utp then taken else left

abbrev pub after_connect :
    {Q : Type 0}
    → Option (Option ℕ)
    → Arrival Q
    → Opened
    → Acceptor
    → List Acceptor
    → Listener Q
    → Option Registry
    → Option (Served Q)
after_connect none a o acc rest l main = none
after_connect (some none) a o acc rest l main = some (connected_to a o acc rest l main)
after_connect (some (some errno)) a o acc rest l main = some (refused errno o acc rest l main)

-- From `open_udp_socket` on.
abbrev pub opening :
    {Q : Type 0}
    → Arrival Q
    → Opened
    → Acceptor
    → List Acceptor
    → Listener Q
    → Option Registry
    → Option (Served Q)
opening a o acc rest l main =
    if is_negative o.result
    then some (dropped l main (closed_fds o.closed) [] [])
    else after_connect (connect_loop a.connects) a o acc rest l main

abbrev pub waiting :
    {Q : Type 0} → List Acceptor → Arrival Q → Listener Q → Option Registry → Option (Served Q)
waiting [] a l main = some (dropped l main [] [] [])
waiting (acc ∷ rest) a l main = opening a (open_udp_socket true a.calls) acc rest l main

abbrev pub received :
    {Q : Type 0} → Option (List ℕ) → Arrival Q → Listener Q → Option Registry → Option (Served Q)
received none a l main = some (dropped l main [] [] [])
received (some []) a l main = some (dropped l main [] [] [])
received (some (b ∷ bytes)) a l main = waiting l.acceptor_queue a l main

-- `input_ready`; none while `connect` is called again and again.
unfoldable pub input_ready :
    {Q : Type 0} → Arrival Q → Listener Q → Option Registry → Option (Served Q)
unfolding open_udp_socket is_negative connect_loop refused connected_to
input_ready a l main = received a.datagram a l main
