-- ===== src/Connection/Deselecting/Requests.antt =====
-- Requests and data that a process sends leave the input of a connection as it is.
use gen_utp.Base.{
  ℕ, ltb, length, ◌≡◌, refl, subst, inl, inr, Bool, true, false, ◌&&◌, Option, some, none, List, [],
  ◌∷◌, map, ◌==◌, if◌then◌else◌, Result, ok, err, invalid_argument, bad_sock_addr, socket_failure,
  ei_error, fault, Leaves, bind-Leaves, either-Leaves, if-Holds,
}
use gen_utp.Coder.Defs.{Ei}
use gen_utp.Coder.Arguments.{binary_argument, recv_argument}
use gen_utp.Driver.Defs.{Reply, process}
use gen_utp.Driver.Queue.{DrvQueue}
use gen_utp.WriteQueue
use gen_utp.Options.Defs.{SockOpts, decode_and_merge}
use gen_utp.Reading.Defs.{Socket, Receiver, connected_receiver, is_false, emit_read_buffer}
use gen_utp.Sockets.Defs.{Answer, sends_after, apply_opts, merged}
use gen_utp.Sockets.Defs
use gen_utp.Connection.Defs.{
  Status, not_connected, listening, connect_pending, connect_failed, connected, closing, stopped,
  UtpHandler, message, set_sndbuf, Stepped, is_destroying, close_utp, close_on, cancel_send,
  cancel_recv, reset_waiting_recv,
}
use gen_utp.Connection.Control.{
  Command, utp_connect_validate, utp_recv, utp_setopts, utp_close, World, Answered, differ, replied,
  may_close, close, close_with, closing_state, validate_as, connect_validate, setopts, recv,
  recv_with, control,
}
use gen_utp.Connection.Deselecting.{Calm, Calm-append, map-message-Calm, Quiet}
use gen_utp.Connection.Deselecting.Callbacks.{Selects, emit_read_buffer-Selects}

-- A request's outcome as a step.
abbrev pub stepped : {Q : Type 0} → Answered Q → Stepped Q
stepped a = record { after = a.after; events = a.events }

abbrev pub QuietAnswer : {Q : Type 0} → UtpHandler Q → Answered Q → Type 0
QuietAnswer h a = Quiet h (stepped a)

module _ {Q : Type 0} where
  closed_on-Quiet :
      (h g : UtpHandler Q) (u : Option ℕ)
      → g.sock.selected ≡ h.sock.selected
      → is_destroying g.status ≡ false
      → Quiet h (close_on g u)
  unfolding close_on is_destroying
  closed_on-Quiet h g none s t = (s, tt, inr t)
  closed_on-Quiet h g (some u) s t =
      if-Holds (Quiet h) (is_destroying g.status) _ _ (s, tt, inr t)
        (if-Holds (Quiet h) (WriteQueue.size g.write_queue == 0) _ _ (s, tt, inr refl)
          (s, tt, inr t))

  close_with-Quiet :
      (from : ℕ) (h g : UtpHandler Q) (r : Result (List ℕ))
      → g.sock.selected ≡ h.sock.selected
      → is_destroying g.status ≡ false
      → QuietAnswer h (close_with from g r)
  unfolding close_utp
  close_with-Quiet from h g (err e) s t = (s, tt, inr t)
  close_with-Quiet from h g (ok ref) s t =
      closed_on-Quiet h (record g { caller_ref = some ref; caller = process from }) g.utp s t

  close-Quiet :
      (ei : Ei) (w : World) (buf : List ℕ) (len : ℕ) (h : UtpHandler Q)
      → QuietAnswer h (close ei w buf len h)
  unfolding close is_destroying
  close-Quiet ei w buf len h =
      if-Holds (QuietAnswer h) (may_close h) _ _
        (close_with-Quiet w.from h (closing_state h) (binary_argument ei buf len) refl refl)
        (refl, tt, inl refl)

  validate_as-Quiet :
      (s : Status) (ref : List ℕ) (h : UtpHandler Q) → QuietAnswer h (validate_as s ref h)
  unfolding is_destroying
  validate_as-Quiet connect_pending ref h = (refl, tt, inl refl)
  validate_as-Quiet connect_failed ref h = (refl, tt, inr refl)
  validate_as-Quiet connected ref h = (refl, tt, inl refl)
  validate_as-Quiet not_connected ref h = (refl, tt, inl refl)
  validate_as-Quiet listening ref h = (refl, tt, inl refl)
  validate_as-Quiet closing ref h = (refl, tt, inl refl)
  validate_as-Quiet Status.destroying ref h = (refl, tt, inl refl)
  validate_as-Quiet stopped ref h = (refl, tt, inl refl)

  connect_validate-Quiet :
      (ei : Ei) (buf : List ℕ) (len : ℕ) (h : UtpHandler Q)
      → QuietAnswer h (connect_validate ei buf len h)
  unfolding connect_validate
  connect_validate-Quiet ei buf len h =
      elim (binary_argument ei buf len)
        as (λ r.
          QuietAnswer h (elim r [
            | ok ref ↦ validate_as h.status ref h
            | err e ↦ replied h Reply.error_badarg
          ])) [ ok ref ↦ validate_as-Quiet h.status ref h | err e ↦ (refl, tt, inl refl) ]

module _ (d : DrvQueue) where
  open d use {Queue}

  abbrev SameInput : Socket Queue → Answer Queue → Type 0
  SameInput s a = a.sock.selected ≡ s.selected

  apply_opts-SameInput :
      (so : SockOpts) (s : Socket Queue) → Leaves (SameInput s) (apply_opts d so s)
  unfolding apply_opts
  apply_opts-SameInput so s =
      let s' = record s { sockopts = so } in
      either-Leaves (SameInput s)
        (sends_after s.sockopts.active so.active (ltb 0 (length s.read_count))) _ _
        (bind-Leaves (SameInput s) (emit_read_buffer d 0 connected_receiver 0 s') _ (λ e q.
          subst (Leaves (Selects d s.selected)) q
            (emit_read_buffer-Selects d 0 connected_receiver 0 s')))
        refl

  merged-SameInput : (r : Result SockOpts) (s : Socket Queue) → Leaves (SameInput s) (merged d r s)
  unfolding merged
  merged-SameInput (ok so) s = apply_opts-SameInput so s
  merged-SameInput (err invalid_argument) s = refl
  merged-SameInput (err bad_sock_addr) s = tt
  merged-SameInput (err socket_failure) s = tt
  merged-SameInput (err ei_error) s = tt
  merged-SameInput (err fault) s = tt

  socket_setopts-SameInput :
      (ei : Ei) (w : World) (buf : List ℕ) (len : ℕ) (s : Socket Queue)
      → Leaves (SameInput s) (Defs.setopts d ei w.getaddrinfo buf len s)
  unfolding Defs.setopts
  socket_setopts-SameInput ei w buf len s =
      elim (binary_argument ei buf len)
        as (λ r. Leaves (SameInput s) (elim r [
          | ok bin ↦ merged d (decode_and_merge w.getaddrinfo bin s.sockopts) s
          | err e ↦ ok (record { sock = s; messages = []; reply = Reply.error_badarg })
        ])) [
          | ok bin ↦ merged-SameInput (decode_and_merge w.getaddrinfo bin s.sockopts) s
          | err e ↦ refl
        ]

  setopts-Quiet :
      (ei : Ei) (w : World) (buf : List ℕ) (len : ℕ) (h : UtpHandler Queue)
      → Leaves (QuietAnswer h) (setopts d ei w buf len h)
  unfolding setopts
  setopts-Quiet ei w buf len h =
      bind-Leaves (QuietAnswer h) (Defs.setopts d ei w.getaddrinfo buf len h.sock) _ (λ a e. (
        subst (Leaves (SameInput h.sock)) e (socket_setopts-SameInput ei w buf len h.sock),
        Calm-append (map message a.messages) _ (map-message-Calm a.messages) (
            Calm-append
              (if differ h.sockopts.sndbuf a.sock.sockopts.sndbuf
                then set_sndbuf h.utp a.sock.sockopts.sndbuf ∷ []
                else [])
              _ (if-Holds Calm (differ h.sockopts.sndbuf a.sock.sockopts.sndbuf) _ _ tt tt)
              (if-Holds Calm (differ h.sockopts.recbuf a.sock.sockopts.recbuf) _ _ tt tt)),
        inl refl,
      ))

  recv_with-Quiet :
      (from : ℕ) (h : UtpHandler Queue) (r : Result (ℕ × List ℕ))
      → Leaves (QuietAnswer h) (recv_with d from h r)
  recv_with-Quiet from h (err x) = (refl, tt, inl refl)
  recv_with-Quiet from h (ok (length, ref)) =
      let rcvr : Receiver = record {
        caller_ref = ref;
        caller = process from;
        send_to_connected = false;
      } in
      bind-Leaves (QuietAnswer h) (emit_read_buffer d length rcvr 1 h.sock) _ (λ e q.
        let same =
          subst (Leaves (Selects d h.sock.selected)) q
            (emit_read_buffer-Selects d length rcvr 1 h.sock) in
        (
          if-Holds (λ (g : UtpHandler Queue). g.sock.selected ≡ h.sock.selected) e.sent _ _ same
              same,
          Calm-append (map message e.messages) _ (map-message-Calm e.messages)
              (if-Holds Calm (e.sent && (e.new_qsize == 0)) _ _ tt tt),
          inl (
              if-Holds (λ (g : UtpHandler Queue). is_destroying g.status ≡ is_destroying h.status)
                e.sent _ _ refl refl),
        ))

  recv-Quiet :
      (ei : Ei) (w : World) (buf : List ℕ) (len : ℕ) (h : UtpHandler Queue)
      → Leaves (QuietAnswer h) (recv d ei w buf len h)
  unfolding recv
  recv-Quiet ei w buf len h =
      either-Leaves (QuietAnswer h) (is_false h.sockopts.active) _ _
        (recv_with-Quiet w.from h (recv_argument ei buf len)) (refl, tt, inl refl)

  pub control-Quiet :
      (is_client : Bool) (command : Command) (ei : Ei) (w : World) (buf : List ℕ) (len : ℕ)
      (h : UtpHandler Queue)
      → Leaves (QuietAnswer h) (control d is_client command ei w buf len h)
  unfolding control cancel_send cancel_recv reset_waiting_recv
  control-Quiet true utp_connect_validate ei w buf len h = connect_validate-Quiet ei buf len h
  control-Quiet is_client utp_recv ei w buf len h = recv-Quiet ei w buf len h
  control-Quiet is_client utp_setopts ei w buf len h = setopts-Quiet ei w buf len h
  control-Quiet is_client utp_close ei w buf len h = close-Quiet ei w buf len h
  control-Quiet is_client _ ei w buf len h = (refl, tt, inl refl)
