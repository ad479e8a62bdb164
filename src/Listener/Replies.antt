-- ===== src/Listener/Replies.antt =====
-- listener.cc: the replies of a listener.
use gen_utp.Base.{
  ℕ, refl, subst, Bool, true, false, Option, List, Result, ok, err, Leaves, bind-Leaves,
}
use gen_utp.Coder.Defs.{Ei}
use gen_utp.Coder.Arguments.{binary_argument}
use gen_utp.Driver.Defs.{encode_atom}
use gen_utp.Driver.Queue.{DrvQueue}
use gen_utp.Driver.Shape.{pending, IsReply}
use gen_utp.Sockets.Defs.{setopts}
use gen_utp.Sockets.Answers.{
  encode_errno-IsReply, sockname-IsReply, getopts-IsReply, setopts-Answers,
}
use gen_utp.Connection.Control.{
  Command, utp_accept, utp_cancel_accept, utp_close, utp_sockname, utp_peername, utp_setopts,
  utp_getopts, utp_recv, World, enotconn,
}
use gen_utp.Main.Registry.{Registry, add_monitor}
use gen_utp.Listener.Defs.{
  Listener, Handled, close, peername, queued, accept_ref, accept, cancel_ref, cancel_accept,
  socket_control, control,
}

abbrev pub Answers : {Q : Type 0} → Handled Q → Type 0
Answers r = IsReply r.reply

module _ (this : ℕ) where
  queued-Answers :
      {Q : Type 0} (ref : List ℕ) (caller : ℕ) (r : Bool × Option Registry) (l : Listener Q)
      → Answers (queued this ref caller r l)
  unfolding pending
  queued-Answers ref caller (true, main) l = refl
  queued-Answers ref caller (false, main) l = tt

  accept_ref-Answers :
      {Q : Type 0} (r : Result (List ℕ)) (caller : ℕ) (answer : Option ℕ) (l : Listener Q)
      (main : Option Registry)
      → Answers (accept_ref this r caller answer l main)
  accept_ref-Answers (ok ref) caller answer l main =
      queued-Answers ref caller (add_monitor answer caller this main) l
  accept_ref-Answers (err e) caller answer l main = tt

  cancel_ref-Answers :
      {Q : Type 0} (r : Result (List ℕ)) (l : Listener Q) (main : Option Registry)
      → Answers (cancel_ref this r l main)
  cancel_ref-Answers (ok ref) l main = tt
  cancel_ref-Answers (err e) l main = tt

  module _ (d : DrvQueue) where
    open d use {Queue}

    socket_control-Answers :
        (command : Command) (ei : Ei) (w : World) (buf : List ℕ) (len : ℕ) (l : Listener Queue)
        (main : Option Registry)
        → Leaves Answers (socket_control this d command ei w buf len l main)
    unfolding socket_control close peername pending encode_atom
    socket_control-Answers utp_close ei w buf len l main = refl
    socket_control-Answers utp_sockname ei w buf len l main =
        sockname-IsReply w.getnameinfo w.errno w.sock_name w.errno
    socket_control-Answers utp_peername ei w buf len l main = encode_errno-IsReply enotconn
    socket_control-Answers utp_setopts ei w buf len l main =
        bind-Leaves Answers (setopts d ei w.getaddrinfo buf len l.sock) _ (λ a e.
          subst (Leaves (λ b. IsReply b.reply)) e
            (setopts-Answers d ei w.getaddrinfo buf len l.sock))
    socket_control-Answers utp_getopts ei w buf len l main =
        getopts-IsReply ei buf len l.sock.sockopts
    socket_control-Answers utp_recv ei w buf len l main = encode_errno-IsReply enotconn
    socket_control-Answers _ ei w buf len l main = tt

    -- Every request of a listener that is answered is answered by one term.
    pub control-Answers :
        (command : Command) (ei : Ei) (w : World) (answer : Option ℕ) (buf : List ℕ) (len : ℕ)
        (l : Listener Queue) (main : Option Registry)
        → Leaves Answers (control this d command ei w answer buf len l main)
    unfolding control accept cancel_accept
    control-Answers utp_accept ei w answer buf len l main =
        accept_ref-Answers (binary_argument ei buf len) w.from answer l main
    control-Answers utp_cancel_accept ei w answer buf len l main =
        cancel_ref-Answers (binary_argument ei buf len) l main
    control-Answers command ei w answer buf len l main =
        socket_control-Answers command ei w buf len l main
