-- ===== src/Main/Replies.antt =====
-- What every request of every port is answered with.
use gen_utp.Base.{
  ℕ, zero, suc, refl, subst, true, false, not, Option, some, none, List, ℤ, Result, ok, err, fault,
  Leaves, bind-Leaves, or_throw, ei_error, bad_sock_addr, socket_failure, invalid_argument,
}
use gen_utp.Address.{SockAddr, from_addrport}
use gen_utp.Coder.Defs.{Ei}
use gen_utp.Coder.Arguments.{binary_argument}
use gen_utp.Driver.Defs.{encode_atom, errno_id, lit}
use gen_utp.Driver.Queue.{DrvQueue}
use gen_utp.Options.Defs.{SockOpts, default_opts, decode}
use gen_utp.Sockets.Opening.{Opened}
use gen_utp.Connection.Control.{Command, utp_listen, utp_connect_start, World}
use gen_utp.Main.Registry.{Registry}
use gen_utp.Main.Requests.{
  Handler, listener, connection, MainHandler, Outside, Attached, open_for, listen, listen_ref,
  listen_on, listen_with, attach_listener, connect_start, connect_ref, connect_to_addr, connect_on,
  connect_with, attach_client, connect_argument,
}
use gen_utp.Main.Dispatch.{control, own_control, pass_control}
use gen_utp.Listener.Defs
use gen_utp.Listener.Replies.{control-Answers as listener_Answers}
use gen_utp.Connection.Replies.{control-Answers as client_Answers}
use gen_utp.Sockets.Answers.{encode_error-IsReply}
use gen_utp.Driver.Shape.{pending, IsReply}
use gen_utp.Connection.Control

abbrev pub Answers : {Q : Type 0} → Attached Q → Type 0
Answers r = IsReply r.reply

module _ {Q : Type 0} (w : Outside Q) where
  listen_on-Answers :
      (res : ℤ) (o : Opened) (opts : SockOpts) (h : MainHandler Q) (main : Option Registry)
      → Leaves Answers (listen_on w res o opts h main)
  unfolding attach_listener encode_atom pending
  listen_on-Answers (ℤ.pos zero) o opts h main =
      bind-Leaves Answers (or_throw socket_failure w.my_addr) _ (λ addr e. refl)
  listen_on-Answers (ℤ.pos (suc n)) o opts h main = encode_error-IsReply (errno_id (suc n))
  listen_on-Answers (ℤ.negsuc n) o opts h main = tt

  listen_ref-Answers :
      (r : Result (List ℕ)) (h : MainHandler Q) (main : Option Registry)
      → Leaves Answers (listen_ref w r h main)
  unfolding listen_with
  listen_ref-Answers (err e) h main = tt
  listen_ref-Answers (ok bin) h main =
      bind-Leaves Answers (decode w.getaddrinfo bin default_opts) _ (λ p e.
        bind-Leaves Answers (open_for true p.0 w) _
          (λ o e'. listen_on-Answers o.result o p.0 h main))

  connect_on-Answers :
      (addr : SockAddr) (res : ℤ) (o : Opened) (opts : SockOpts) (h : MainHandler Q)
      (main : Option Registry)
      → Leaves Answers (connect_on w addr res o opts h main)
  unfolding attach_client encode_atom pending
  connect_on-Answers addr (ℤ.pos zero) o opts h main = refl
  connect_on-Answers addr (ℤ.pos (suc n)) o opts h main = encode_error-IsReply (errno_id (suc n))
  connect_on-Answers addr (ℤ.negsuc n) o opts h main = tt

  connect_with-Answers :
      (addr : SockAddr) (bin : List ℕ) (h : MainHandler Q) (main : Option Registry)
      → Leaves Answers (connect_with w addr bin h main)
  unfolding connect_with
  connect_with-Answers addr bin h main =
      bind-Leaves Answers (decode w.getaddrinfo bin default_opts) _ (λ p e.
        bind-Leaves Answers (open_for false p.0 w) _
          (λ o e'. connect_on-Answers addr o.result o p.0 h main))

  connect_to_addr-Answers :
      (r : Result SockAddr) (bin : List ℕ) (h : MainHandler Q) (main : Option Registry)
      → Leaves Answers (connect_to_addr w r bin h main)
  connect_to_addr-Answers (ok addr) bin h main = connect_with-Answers addr bin h main
  connect_to_addr-Answers (err bad_sock_addr) bin h main = tt
  connect_to_addr-Answers (err ei_error) bin h main = tt
  connect_to_addr-Answers (err socket_failure) bin h main = tt
  connect_to_addr-Answers (err invalid_argument) bin h main = tt
  connect_to_addr-Answers (err fault) bin h main = tt

  connect_ref-Answers :
      (r : Result (List ℕ × ℕ × List ℕ)) (h : MainHandler Q) (main : Option Registry)
      → Leaves Answers (connect_ref w r h main)
  connect_ref-Answers (ok (addrstr, addrport, bin)) h main =
      connect_to_addr-Answers (from_addrport w.getaddrinfo addrstr addrport) bin h main
  connect_ref-Answers (err ei_error) h main = tt
  connect_ref-Answers (err bad_sock_addr) h main = tt
  connect_ref-Answers (err socket_failure) h main = tt
  connect_ref-Answers (err invalid_argument) h main = tt
  connect_ref-Answers (err fault) h main = tt

module _ (d : DrvQueue) where
  open d use {Queue}

  own_control-Answers :
      (command : Command) (ei : Ei) (w : Outside Queue) (buf : List ℕ) (len : ℕ)
      (h : MainHandler Queue) (main : Option Registry)
      → Leaves Answers (own_control d command ei w buf len h main)
  unfolding listen connect_start
  own_control-Answers utp_listen ei w buf len h main =
      listen_ref-Answers w (binary_argument ei buf len) h main
  own_control-Answers utp_connect_start ei w buf len h main =
      connect_ref-Answers w (connect_argument ei buf len) h main
  own_control-Answers _ ei w buf len h main = encode_error-IsReply (lit "enotsup")

  pass_control-Answers :
      (x : Option (ℕ × Handler Queue)) (command : Command) (ei : Ei) (w : Outside Queue)
      (world : World) (answer : Option ℕ) (buf : List ℕ) (len : ℕ) (h : MainHandler Queue)
      (main : Option Registry)
      → Leaves Answers (pass_control d x command ei w world answer buf len h main)
  pass_control-Answers none command ei w world answer buf len h main =
      own_control-Answers command ei w buf len h main
  pass_control-Answers (some (n, listener l)) command ei w world answer buf len h main =
      bind-Leaves Answers (Defs.control n d command ei world answer buf len l main) _ (λ r e.
        subst (Leaves (λ a. IsReply a.reply)) e
          (listener_Answers n d command ei world answer buf len l main))
  pass_control-Answers (some (n, connection is_server c)) command ei w world answer buf len h main =
      bind-Leaves Answers (Control.control d (not is_server) command ei world buf len c) _ (λ r e.
        subst (Leaves (λ a. IsReply a.reply)) e
          (client_Answers d (not is_server) command ei world buf len c))

  -- Whatever is requested of a port, whatever it has become and whatever the state, an answer that is a term
  -- is exactly one: each tuple and list in it has as many elements as its header says, and nothing follows.
  pub control-IsReply :
      (command : Command) (ei : Ei) (w : Outside Queue) (world : World) (answer : Option ℕ)
      (buf : List ℕ) (len : ℕ) (h : MainHandler Queue) (main : Option Registry)
      → Leaves Answers (control d command ei w world answer buf len h main)
  unfolding control
  control-IsReply command ei w world answer buf len h main =
      pass_control-Answers h.delegatee command ei w world answer buf len h main
