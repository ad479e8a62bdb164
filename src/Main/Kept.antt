-- ===== src/Main/Kept.antt =====
-- No request changes which object the main handler is.
use gen_utp.Base.{
  ℕ, zero, suc, ◌≡◌, refl, subst, ◌∙◌, Bool, true, false, not, Option, some, none, List, ℤ, Result,
  ok, err, ei_error, bad_sock_addr, socket_failure, invalid_argument, fault, or_throw, Leaves,
  bind-Leaves,
}
use gen_utp.Address.{SockAddr, from_addrport}
use gen_utp.Coder.Defs.{Ei}
use gen_utp.Coder.Arguments.{binary_argument}
use gen_utp.Driver.Queue.{DrvQueue}
use gen_utp.Options.Defs.{SockOpts, default_opts, decode}
use gen_utp.Sockets.Opening.{Opened}
use gen_utp.Sockets.Defs.{setopts, set_port}
use gen_utp.Connection.Control.{
  Command, utp_listen, utp_connect_start, utp_accept, utp_cancel_accept, utp_close, utp_sockname,
  utp_peername, utp_setopts, utp_getopts, utp_recv, World,
}
use gen_utp.Connection.Control
use gen_utp.Connection.Defs.{new_handler}
use gen_utp.Main.Registry.{Registry, select, start_input, give_port, add_monitor, del_monitor}
use gen_utp.Main.Requests.{
  Handler, listener, connection, MainHandler, Outside, Attached, open_for, started, listen,
  listen_ref, listen_on, listen_with, attach_listener, connect_start, connect_ref, connect_to_addr,
  connect_on, connect_with, attach_client, connect_argument,
}
use gen_utp.Main.Dispatch.{control, own_control, pass_control}
use gen_utp.Listener.Defs.{
  new_listener, Acceptor, Listener, Handled, queued, accept_ref, accept, cancel_loop, del_found,
  cancelled, cancel_ref, cancel_accept, socket_control,
}
use gen_utp.Listener.Defs

abbrev pub Same : Option Registry → Option Registry → Type 0
Same none none = Unit {0}
Same (some m) (some m') = m'.this ≡ m.this
Same none (some m') = ⊥
Same (some m) none = ⊥

pub Same-refl : (main : Option Registry) → Same main main
Same-refl none = tt
Same-refl (some m) = refl

pub Same-trans : (a b c : Option Registry) → Same a b → Same b c → Same a c
Same-trans none none c s t = t
Same-trans none (some m) c s t = absurd s
Same-trans (some m) none c s t = absurd s
Same-trans (some m) (some k) none s t = absurd t
Same-trans (some m) (some k) (some j) s t = t ∙ s

pub started-Same :
    (input : Option ℤ) (n : ℕ) (main : Option Registry) → Same main (started input n main).0
unfolding start_input select
started-Same none n main = Same-refl main
started-Same (some fd) n none = tt
started-Same (some fd) n (some m) = refl

give_port-Same :
    (this : ℕ) (main main' : Option Registry) → Same main main' → Same main (give_port this main')
unfolding give_port
give_port-Same this none none s = tt
give_port-Same this none (some m) s = absurd s
give_port-Same this (some m) none s = absurd s
give_port-Same this (some m) (some m') s = s

pub add_monitor-Same :
    (answer : Option ℕ) (p h : ℕ) (main : Option Registry)
    → Same main (add_monitor answer p h main).1
unfolding add_monitor
add_monitor-Same answer p h none = tt
add_monitor-Same answer p h (some m) = refl

pub del_found-Same :
    (found : Option ℕ) (main : Option Registry) → Same main (del_found found main).0
unfolding del_monitor
del_found-Same none main = Same-refl main
del_found-Same (some p) none = tt
del_found-Same (some p) (some m) = refl

module _ {Q : Type 0} (n : ℕ) (l : Listener Q) (main : Option Registry) where
  queued-Same :
      (ref : List ℕ) (caller : ℕ) (r : Bool × Option Registry)
      → Same main r.1
      → Same main (queued n ref caller r l).main
  queued-Same ref caller (true, main') s = s
  queued-Same ref caller (false, main') s = s

  accept_ref-Same :
      (r : Result (List ℕ)) (caller : ℕ) (answer : Option ℕ)
      → Same main (accept_ref n r caller answer l main).main
  accept_ref-Same (ok ref) caller answer =
      queued-Same ref caller (add_monitor answer caller n main)
        (add_monitor-Same answer caller n main)
  accept_ref-Same (err e) caller answer = Same-refl main

  cancel_ref-Same : (r : Result (List ℕ)) → Same main (cancel_ref n r l main).main
  cancel_ref-Same (ok ref) = del_found-Same (cancel_loop ref l.acceptor_queue).1 main
  cancel_ref-Same (err e) = Same-refl main

module _ {Q : Type 0} (w : Outside Q) (h : MainHandler Q) (main : Option Registry) where
  abbrev SameMain : Attached Q → Type 0
  SameMain r = Same main r.main

  listen_on-Same :
      (res : ℤ) (o : Opened) (opts : SockOpts) → Leaves SameMain (listen_on w res o opts h main)
  unfolding attach_listener set_port new_listener
  listen_on-Same (ℤ.pos zero) o opts =
      bind-Leaves SameMain (or_throw socket_failure w.my_addr) _
        (λ addr e. give_port-Same w.this main _ (started-Same (some o.udp_sock) w.number main))
  listen_on-Same (ℤ.pos (suc n)) o opts = Same-refl main
  listen_on-Same (ℤ.negsuc n) o opts = tt

  listen_ref-Same : (r : Result (List ℕ)) → Leaves SameMain (listen_ref w r h main)
  unfolding listen_with
  listen_ref-Same (err e) = Same-refl main
  listen_ref-Same (ok bin) =
      bind-Leaves SameMain (decode w.getaddrinfo bin default_opts) _ (λ p e.
        bind-Leaves SameMain (open_for true p.0 w) _ (λ o e'. listen_on-Same o.result o p.0))

  connect_on-Same :
      (addr : SockAddr) (res : ℤ) (o : Opened) (opts : SockOpts)
      → Leaves SameMain (connect_on w addr res o opts h main)
  unfolding attach_client set_port new_handler
  connect_on-Same addr (ℤ.pos zero) o opts =
      give_port-Same w.this main _ (started-Same (some o.udp_sock) w.number main)
  connect_on-Same addr (ℤ.pos (suc n)) o opts = Same-refl main
  connect_on-Same addr (ℤ.negsuc n) o opts = tt

  connect_to_addr-Same :
      (r : Result SockAddr) (bin : List ℕ) → Leaves SameMain (connect_to_addr w r bin h main)
  unfolding connect_with
  connect_to_addr-Same (ok addr) bin =
      bind-Leaves SameMain (decode w.getaddrinfo bin default_opts) _ (λ p e.
        bind-Leaves SameMain (open_for false p.0 w) _ (λ o e'. connect_on-Same addr o.result o p.0))
  connect_to_addr-Same (err bad_sock_addr) bin = Same-refl main
  connect_to_addr-Same (err ei_error) bin = tt
  connect_to_addr-Same (err socket_failure) bin = tt
  connect_to_addr-Same (err invalid_argument) bin = tt
  connect_to_addr-Same (err fault) bin = tt

  connect_ref-Same : (r : Result (List ℕ × ℕ × List ℕ)) → Leaves SameMain (connect_ref w r h main)
  connect_ref-Same (ok (addrstr, addrport, bin)) =
      connect_to_addr-Same (from_addrport w.getaddrinfo addrstr addrport) bin
  connect_ref-Same (err ei_error) = Same-refl main
  connect_ref-Same (err bad_sock_addr) = tt
  connect_ref-Same (err socket_failure) = tt
  connect_ref-Same (err invalid_argument) = tt
  connect_ref-Same (err fault) = tt

module _ (d : DrvQueue) where
  open d use {Queue}

  listener-Same :
      (n : ℕ) (command : Command) (ei : Ei) (w : World) (answer : Option ℕ) (buf : List ℕ) (len : ℕ)
      (l : Listener Queue) (main : Option Registry)
      → Leaves (λ r. Same main r.main) (Defs.control n d command ei w answer buf len l main)
  unfolding Defs.control accept cancel_accept socket_control
  listener-Same n utp_accept ei w answer buf len l main =
      accept_ref-Same n l main (binary_argument ei buf len) w.from answer
  listener-Same n utp_cancel_accept ei w answer buf len l main =
      cancel_ref-Same n l main (binary_argument ei buf len)
  listener-Same n utp_setopts ei w answer buf len l main =
      bind-Leaves (λ r. Same main r.main) (setopts d ei w.getaddrinfo buf len l.sock) _
        (λ a e. Same-refl main)
  listener-Same n _ ei w answer buf len l main = Same-refl main

  own_control-Same :
      (command : Command) (ei : Ei) (w : Outside Queue) (buf : List ℕ) (len : ℕ)
      (h : MainHandler Queue) (main : Option Registry)
      → Leaves (λ r. Same main r.main) (own_control d command ei w buf len h main)
  unfolding listen connect_start
  own_control-Same utp_listen ei w buf len h main =
      listen_ref-Same w h main (binary_argument ei buf len)
  own_control-Same utp_connect_start ei w buf len h main =
      connect_ref-Same w h main (connect_argument ei buf len)
  own_control-Same _ ei w buf len h main = Same-refl main

  pass_control-Same :
      (x : Option (ℕ × Handler Queue)) (command : Command) (ei : Ei) (w : Outside Queue)
      (world : World) (answer : Option ℕ) (buf : List ℕ) (len : ℕ) (h : MainHandler Queue)
      (main : Option Registry)
      → Leaves (λ r. Same main r.main) (pass_control d x command ei w world answer buf len h main)
  pass_control-Same none command ei w world answer buf len h main =
      own_control-Same command ei w buf len h main
  pass_control-Same (some (n, listener l)) command ei w world answer buf len h main =
      bind-Leaves (λ r. Same main r.main) (Defs.control n d command ei world answer buf len l main)
        _
        (λ r e.
          subst (λ x. Leaves (λ r'. Same main r'.main) x) e
            (listener-Same n command ei world answer buf len l main))
  pass_control-Same (some (n, connection is_server c)) command ei w world answer buf len h main =
      bind-Leaves (λ r. Same main r.main)
        (Control.control d (not is_server) command ei world buf len c) _ (λ r e. Same-refl main)

  pub control-Same :
      (command : Command) (ei : Ei) (w : Outside Queue) (world : World) (answer : Option ℕ)
      (buf : List ℕ) (len : ℕ) (h : MainHandler Queue) (main : Option Registry)
      → Leaves (λ r. Same main r.main) (control d command ei w world answer buf len h main)
  unfolding control
  control-Same command ei w world answer buf len h main =
      pass_control-Same h.delegatee command ei w world answer buf len h main
