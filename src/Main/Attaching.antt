-- ===== src/Main/Attaching.antt =====
-- A port's handler gets a delegatee once, and what is left of it when the port is closed.
use gen_utp.Base.{
  ℕ, zero, suc, ◌≡◌, refl, sym, subst, true, false, not, Option, some, none, List, [], ℤ, Result,
  ok, err, fault, Leaves, bind-Leaves, or_throw, ei_error, bad_sock_addr, socket_failure,
  invalid_argument, if◌then◌else◌, ◌==◌,
}
use gen_utp.Address.{SockAddr, from_addrport}
use gen_utp.Coder.Defs.{Ei}
use gen_utp.Coder.Arguments.{binary_argument}
use gen_utp.Driver.Defs.{encode_error, errno_id, lit, Reply}
use gen_utp.Driver.Queue.{DrvQueue}
use gen_utp.Options.Defs.{SockOpts, default_opts, decode}
use gen_utp.Sockets.Opening.{Opened}
use gen_utp.Connection.Control.{Command, utp_listen, utp_connect_start, World}
use gen_utp.Main.Registry.{Registry, start_input, give_port, select}
use gen_utp.Main.Requests.{
  Handler, listener, connection, MainHandler, Outside, Attached, failing, open_for, listen,
  listen_ref, listen_on, listen_with, attach_listener, connect_start, connect_ref, connect_to_addr,
  connect_on, connect_with, attach_client, connect_argument,
}
use gen_utp.Main.Dispatch.{control, own_control, pass_control, from_listener, from_connection}
use gen_utp.Listener.Defs
use gen_utp.Listener.Defs.{Listener, new_listener}
use gen_utp.Connection.Defs.{UtpHandler, new_handler}
use gen_utp.Connection.Peers.{connect_to}
use gen_utp.Sockets.Defs.{set_port}
use gen_utp.Connection.Control

-- The port that a handler has been given.
abbrev pub handler_port : {Q : Type 0} → Handler Q → ℕ
handler_port (listener l) = l.sock.drv_port
handler_port (connection is_server c) = c.drv_port

-- The port of the main handler afterwards, where `this` has given its own away.
abbrev pub Gives : ℕ → Option Registry → Option Registry → Type 0
Gives this none main' = main' ≡ none
Gives this (some m) main' =
    (m' : Registry) × (main' ≡ some m')
    × (m'.this ≡ m.this)
    × (m'.port ≡ (if m.this == this then 0 else m.port))

-- What a port without a delegatee becomes: it has none still, and its number; or it has the new one, which has
-- been given the number, and neither it nor the main handler, if it is that, has the number any more.
abbrev pub BecomesOf :
    {Q : Type 0}
    → Outside Q
    → MainHandler Q
    → Option Registry
    → Attached Q
    → Option (ℕ × Handler Q)
    → Type 0
BecomesOf w h main r none = r.handler.port ≡ h.port
BecomesOf w h main r (some (n, x)) =
    (n ≡ w.number) × (handler_port x ≡ h.port) × (r.handler.port ≡ 0) × Gives w.this main r.main

-- A delegatee stays, and stays what it is.
abbrev pub KeepsOf :
    {Q : Type 0}
    → Outside Q
    → MainHandler Q
    → Option Registry
    → Attached Q
    → Option (ℕ × Handler Q)
    → Type 0
KeepsOf w h main r none = BecomesOf w h main r r.handler.delegatee
KeepsOf {Q} w h main r (some (n, listener l)) =
    (r.handler.port ≡ h.port) × ((l' : Listener Q) × (r.handler.delegatee ≡ some (n, listener l')))
KeepsOf {Q} w h main r (some (n, connection b c)) =
    (r.handler.port ≡ h.port)
    × ((c' : UtpHandler Q) × (r.handler.delegatee ≡ some (n, connection b c')))

abbrev pub Keeps : {Q : Type 0} → Outside Q → MainHandler Q → Option Registry → Attached Q → Type 0
Keeps w h main r = KeepsOf w h main r h.delegatee

started-Gives :
    (this n : ℕ) (fd : ℤ) (main : Option Registry)
    → Gives this main (give_port this (start_input fd n main).0)
unfolding give_port start_input select
started-Gives this n fd none = refl
started-Gives this n fd (some m) = (_, refl, refl, refl)

module _ {Q : Type 0} (w : Outside Q) (h : MainHandler Q) (fresh : h.delegatee ≡ none) where
  abbrev Becomes : Option Registry → Attached Q → Type 0
  Becomes main r = BecomesOf w h main r r.handler.delegatee

  unchanged :
      (main : Option Registry) (fds : List ℕ) (reply : Reply)
      → Becomes main (failing h main fds reply)
  unchanged main fds reply =
      subst (λ x. BecomesOf w h main (failing h main fds reply) x) (sym fresh) refl

  listen_on-Becomes :
      (res : ℤ) (o : Opened) (opts : SockOpts) (main : Option Registry)
      → Leaves (Becomes main) (listen_on w res o opts h main)
  unfolding attach_listener set_port new_listener
  listen_on-Becomes (ℤ.pos zero) o opts main =
      bind-Leaves (Becomes main) (or_throw socket_failure w.my_addr) _
        (λ addr e. (refl, refl, refl, started-Gives w.this w.number o.udp_sock main))
  listen_on-Becomes (ℤ.pos (suc n)) o opts main =
      unchanged main o.closed (encode_error (errno_id (suc n)))
  listen_on-Becomes (ℤ.negsuc n) o opts main = tt

  listen_ref-Becomes :
      (r : Result (List ℕ)) (main : Option Registry) → Leaves (Becomes main) (listen_ref w r h main)
  unfolding listen_with
  listen_ref-Becomes (err e) main = unchanged main [] Reply.error_badarg
  listen_ref-Becomes (ok bin) main =
      bind-Leaves (Becomes main) (decode w.getaddrinfo bin default_opts) _ (λ p e.
        bind-Leaves (Becomes main) (open_for true p.0 w) _
          (λ o e'. listen_on-Becomes o.result o p.0 main))

  connect_on-Becomes :
      (addr : SockAddr) (res : ℤ) (o : Opened) (opts : SockOpts) (main : Option Registry)
      → Leaves (Becomes main) (connect_on w addr res o opts h main)
  unfolding attach_client set_port new_handler connect_to
  connect_on-Becomes addr (ℤ.pos zero) o opts main =
      (refl, refl, refl, started-Gives w.this w.number o.udp_sock main)
  connect_on-Becomes addr (ℤ.pos (suc n)) o opts main =
      unchanged main o.closed (encode_error (errno_id (suc n)))
  connect_on-Becomes addr (ℤ.negsuc n) o opts main = tt

  connect_with-Becomes :
      (addr : SockAddr) (bin : List ℕ) (main : Option Registry)
      → Leaves (Becomes main) (connect_with w addr bin h main)
  unfolding connect_with
  connect_with-Becomes addr bin main =
      bind-Leaves (Becomes main) (decode w.getaddrinfo bin default_opts) _ (λ p e.
        bind-Leaves (Becomes main) (open_for false p.0 w) _
          (λ o e'. connect_on-Becomes addr o.result o p.0 main))

  connect_to_addr-Becomes :
      (r : Result SockAddr) (bin : List ℕ) (main : Option Registry)
      → Leaves (Becomes main) (connect_to_addr w r bin h main)
  connect_to_addr-Becomes (ok addr) bin main = connect_with-Becomes addr bin main
  connect_to_addr-Becomes (err bad_sock_addr) bin main = unchanged main [] Reply.error_badarg
  connect_to_addr-Becomes (err ei_error) bin main = tt
  connect_to_addr-Becomes (err socket_failure) bin main = tt
  connect_to_addr-Becomes (err invalid_argument) bin main = tt
  connect_to_addr-Becomes (err fault) bin main = tt

  connect_ref-Becomes :
      (r : Result (List ℕ × ℕ × List ℕ)) (main : Option Registry)
      → Leaves (Becomes main) (connect_ref w r h main)
  connect_ref-Becomes (ok (addrstr, addrport, bin)) main =
      connect_to_addr-Becomes (from_addrport w.getaddrinfo addrstr addrport) bin main
  connect_ref-Becomes (err ei_error) main = unchanged main [] Reply.error_badarg
  connect_ref-Becomes (err bad_sock_addr) main = tt
  connect_ref-Becomes (err socket_failure) main = tt
  connect_ref-Becomes (err invalid_argument) main = tt
  connect_ref-Becomes (err fault) main = tt

  Becomes-Keeps :
      (main : Option Registry) (r : Result (Attached Q))
      → Leaves (Becomes main) r
      → Leaves (Keeps w h main) r
  Becomes-Keeps main (ok r) b = subst (λ x. KeepsOf w h main r x) (sym fresh) b
  Becomes-Keeps main (err e) b = tt

module _ (d : DrvQueue) where
  open d use {Queue}

  own_control-Keeps :
      (command : Command) (ei : Ei) (w : Outside Queue) (buf : List ℕ) (len : ℕ)
      (h : MainHandler Queue) (main : Option Registry)
      → h.delegatee ≡ none
      → Leaves (Keeps w h main) (own_control d command ei w buf len h main)
  unfolding listen connect_start
  own_control-Keeps utp_listen ei w buf len h main fresh =
      Becomes-Keeps w h fresh main (listen w ei buf len h main)
        (listen_ref-Becomes w h fresh (binary_argument ei buf len) main)
  own_control-Keeps utp_connect_start ei w buf len h main fresh =
      Becomes-Keeps w h fresh main (connect_start w ei buf len h main)
        (connect_ref-Becomes w h fresh (connect_argument ei buf len) main)
  own_control-Keeps _ ei w buf len h main fresh =
      Becomes-Keeps w h fresh main (ok (failing h main [] (encode_error (lit "enotsup"))))
        (unchanged w h fresh main [] (encode_error (lit "enotsup")))

  pass_control-Keeps :
      (x : Option (ℕ × Handler Queue)) (command : Command) (ei : Ei) (w : Outside Queue)
      (world : World) (answer : Option ℕ) (buf : List ℕ) (len : ℕ) (h : MainHandler Queue)
      (main : Option Registry)
      → h.delegatee ≡ x
      → Leaves (Keeps w h main) (pass_control d x command ei w world answer buf len h main)
  pass_control-Keeps none command ei w world answer buf len h main e =
      own_control-Keeps command ei w buf len h main e
  pass_control-Keeps (some (n, listener l)) command ei w world answer buf len h main e =
      bind-Leaves (Keeps w h main) (Defs.control n d command ei world answer buf len l main) _
        (λ r e'.
          subst (λ x. KeepsOf w h main (from_listener d h.port n r) x) (sym e) (refl, (_, refl)))
  pass_control-Keeps (some (n, connection is_server c)) command ei w world answer buf len h main e =
      bind-Leaves (Keeps w h main) (Control.control d (not is_server) command ei world buf len c) _
        (λ r e'.
          subst (λ x. KeepsOf w h main (from_connection d h.port n is_server main r) x) (sym e)
            (refl, (_, refl)))

  -- Whatever is requested of a port, unless an exception escapes or what the code does is not
  -- defined: a listener stays that listener and a client that client, and the port keeps its
  -- number. A port that is neither has its number still after the request, or it has become one:
  -- then the new listener or client has been given the number, and the port has 0 in its place,
  -- also where it is the main handler.
  pub control-Keeps :
      (command : Command) (ei : Ei) (w : Outside Queue) (world : World) (answer : Option ℕ)
      (buf : List ℕ) (len : ℕ) (h : MainHandler Queue) (main : Option Registry)
      → Leaves (Keeps w h main) (control d command ei w world answer buf len h main)
  unfolding control
  control-Keeps command ei w world answer buf len h main =
      pass_control-Keeps h.delegatee command ei w world answer buf len h main refl
