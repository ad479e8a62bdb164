-- ===== src/Connection/Replies.antt =====
-- utp_handler.cc, client.cc: the replies of a connection.
use gen_utp.Base.{
  ℕ, refl, subst, Bool, true, false, none, some, List, if◌then◌else◌, Result, ok, err, Leaves,
  bind-Leaves, if-Holds, either-Leaves,
}
use gen_utp.Coder.Defs.{Ei}
use gen_utp.Coder.Arguments.{binary_argument, recv_argument}
use gen_utp.Driver.Defs.{Reply, process, encode_atom, encode_errno}
use gen_utp.Address.{encode}
use gen_utp.Driver.Queue.{DrvQueue}
use gen_utp.Driver.Shape.{pending, IsReply}
use gen_utp.Reading.Defs.{emit_read_buffer, is_false}
use gen_utp.Sockets.Defs
use gen_utp.Sockets.Answers.{
  encode_errno-IsReply, encode-IsReply, sockname-IsReply, getopts-IsReply, setopts-Answers,
}
use gen_utp.Connection.Defs.{
  Status, not_connected, listening, connect_pending, connect_failed, connected, closing, stopped,
  UtpHandler,
}
use gen_utp.Connection.Callbacks.{is_connected}
use gen_utp.Connection.Control.{
  Command, utp_connect_validate, utp_cancel_send, utp_recv, utp_cancel_recv, utp_setopts, utp_close,
  utp_sockname, utp_peername, utp_getopts, World, Answered, peername, may_close, close, close_with,
  closing_state, replied, validate_as, connect_validate, setopts, recv, recv_with, control,
  enotconn,
}

abbrev pub Answers : {Q : Type 0} → Answered Q → Type 0
Answers a = IsReply a.reply

module _ {Q : Type 0} where
  peername-IsReply : (w : World) (h : UtpHandler Q) → IsReply (peername w h)
  unfolding peername
  peername-IsReply w h =
      elim h.utp
        as (λ x. IsReply (elim x [
          | none ↦ encode_errno enotconn
          | some u ↦
              if is_connected h.status
              then encode w.getnameinfo w.errno w.peer_name
              else encode_errno enotconn
        ])) [
          | none ↦ encode_errno-IsReply enotconn
          | some u ↦
              if-Holds IsReply (is_connected h.status) _ _
                (encode-IsReply w.getnameinfo w.errno w.peer_name) (encode_errno-IsReply enotconn)
        ]

  close_with-Answers :
      (from : ℕ) (h : UtpHandler Q) (r : Result (List ℕ)) → Answers (close_with from h r)
  unfolding encode_atom pending
  close_with-Answers from h (ok ref) = refl
  close_with-Answers from h (err e) = tt

  close-Answers :
      (ei : Ei) (w : World) (buf : List ℕ) (len : ℕ) (h : UtpHandler Q)
      → Answers (close ei w buf len h)
  unfolding close encode_atom pending
  close-Answers ei w buf len h =
      if-Holds Answers (may_close h) _ _
        (close_with-Answers w.from (closing_state h) (binary_argument ei buf len)) refl

  validate_as-Answers :
      (s : Status) (ref : List ℕ) (h : UtpHandler Q) → Answers (validate_as s ref h)
  unfolding encode_atom pending
  validate_as-Answers connect_pending ref h = refl
  validate_as-Answers connect_failed ref h = refl
  validate_as-Answers connected ref h = refl
  validate_as-Answers not_connected ref h = refl
  validate_as-Answers listening ref h = refl
  validate_as-Answers closing ref h = refl
  validate_as-Answers Status.destroying ref h = refl
  validate_as-Answers stopped ref h = refl

  connect_validate-Answers :
      (ei : Ei) (buf : List ℕ) (len : ℕ) (h : UtpHandler Q)
      → Answers (connect_validate ei buf len h)
  unfolding connect_validate
  connect_validate-Answers ei buf len h =
      elim (binary_argument ei buf len)
        as (λ r.
          Answers (elim r [
            | ok ref ↦ validate_as h.status ref h
            | err e ↦ replied h Reply.error_badarg
          ])) [ ok ref ↦ validate_as-Answers h.status ref h | err e ↦ tt ]

module _ (d : DrvQueue) where
  open d use {Queue}

  setopts-IsReply :
      (ei : Ei) (w : World) (buf : List ℕ) (len : ℕ) (h : UtpHandler Queue)
      → Leaves Answers (setopts d ei w buf len h)
  unfolding setopts
  setopts-IsReply ei w buf len h =
      bind-Leaves Answers (Defs.setopts d ei w.getaddrinfo buf len h.sock) _ (λ a e.
        subst (Leaves (λ b. IsReply b.reply)) e (setopts-Answers d ei w.getaddrinfo buf len h.sock))

  recv_with-Answers :
      (from : ℕ) (h : UtpHandler Queue) (r : Result (ℕ × List ℕ))
      → Leaves Answers (recv_with d from h r)
  unfolding encode_atom pending
  recv_with-Answers from h (err x) = tt
  recv_with-Answers from h (ok (length, ref)) =
      bind-Leaves Answers
        (emit_read_buffer d length
          (record { caller_ref = ref; caller = process from; send_to_connected = false }) 1 h.sock)
        _ (λ e q. refl)

  recv-Answers :
      (ei : Ei) (w : World) (buf : List ℕ) (len : ℕ) (h : UtpHandler Queue)
      → Leaves Answers (recv d ei w buf len h)
  unfolding recv
  recv-Answers ei w buf len h =
      either-Leaves Answers (is_false h.sockopts.active) _ _
        (recv_with-Answers w.from h (recv_argument ei buf len)) tt

  -- Every request of a connection that is answered is answered by one term.
  pub control-Answers :
      (is_client : Bool) (command : Command) (ei : Ei) (w : World) (buf : List ℕ) (len : ℕ)
      (h : UtpHandler Queue)
      → Leaves Answers (control d is_client command ei w buf len h)
  unfolding control
  control-Answers true utp_connect_validate ei w buf len h = connect_validate-Answers ei buf len h
  control-Answers is_client utp_cancel_send ei w buf len h = tt
  control-Answers is_client utp_recv ei w buf len h = recv-Answers ei w buf len h
  control-Answers is_client utp_cancel_recv ei w buf len h = tt
  control-Answers is_client utp_setopts ei w buf len h = setopts-IsReply ei w buf len h
  control-Answers is_client utp_close ei w buf len h = close-Answers ei w buf len h
  control-Answers is_client utp_sockname ei w buf len h =
      sockname-IsReply w.getnameinfo w.errno w.sock_name w.errno
  control-Answers is_client utp_peername ei w buf len h = peername-IsReply w h
  control-Answers is_client utp_getopts ei w buf len h = getopts-IsReply ei buf len h.sockopts
  control-Answers is_client _ ei w buf len h = tt
