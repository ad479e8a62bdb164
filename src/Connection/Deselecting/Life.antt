-- ===== src/Connection/Deselecting/Life.antt =====
-- The life of a connection: the calls of client.cc, server.cc and utp_handler.cc that change one, from the
-- time a client connects or a listener hands a server its first packet.
use gen_utp.Base.{
  ℕ, ◌≡◌, refl, subst, ◌⊎◌, inl, Bool, true, false, not, ◌&&◌, Option, none, some, List, [], ◌∷◌, ℤ,
  Result, ok, err, Leaves, bind-Leaves, either-Leaves, if-Holds,
}
use gen_utp.Coder.Defs.{Ei}
use gen_utp.Driver.Queue.{DrvQueue}
use gen_utp.Options.Defs.{SockOpts}
use gen_utp.Sockets.Defs.{set_port}
use gen_utp.Connection.Defs.{connected, UtpHandler, Stepped, new_handler, is_destroying}
use gen_utp.Connection.Callbacks.{WriteRun, is_connected, do_writes}
use gen_utp.Connection.Control.{Command, World, Answered, control, stop}
use gen_utp.Connection.Incoming.{Callback, call_backs, input_ready}
use gen_utp.Connection.Output.{
  IoVec, queue_data, write_data, refuse_data, has_socket, is_zero, outputv,
}
use gen_utp.Connection.Peers.{connect_to, do_incoming, set_utp_callbacks}
use gen_utp.Connection.Stopping.{deletions}
use gen_utp.Connection.Deselecting.{IsOff, Quiet, Quiet-Switches, Switches}
use gen_utp.Connection.Deselecting.Callbacks.{call_backs-Switches, input_ready-Switches}
use gen_utp.Connection.Deselecting.Requests.{stepped, QuietAnswer, control-Quiet}
use gen_utp.Connection.Deselecting.Ending.{stop-freed}
use gen_utp.Listener.Incoming.{incoming_loop}

module _ {Q : Type 0} where
  write_data-Quiet :
      (from id : ℕ) (w : WriteRun) (ev : IoVec) (h : UtpHandler Q)
      → Leaves (Quiet h) (write_data from id w ev h)
  unfolding write_data
  write_data-Quiet from id w ev h =
      bind-Leaves (Quiet h) (queue_data id h.sockopts.packet ev h.write_queue) _ (λ (wq, total) e.
        bind-Leaves (Quiet h) (do_writes w.counts wq) _ (λ r e'. (refl, tt, inl refl)))

  refuse_data-Quiet : (from : ℕ) (h : UtpHandler Q) → Quiet h (refuse_data from h)
  unfolding refuse_data
  refuse_data-Quiet from h =
      if-Holds (Quiet h) (is_zero h.sockopts.send_tmout) _ _ (refl, tt, inl refl)
        (refl, tt, inl refl)

  outputv-Quiet :
      (from id : ℕ) (w : WriteRun) (ev : IoVec) (h : UtpHandler Q)
      → Leaves (Quiet h) (outputv from id w ev h)
  unfolding outputv
  outputv-Quiet from id w ev h =
      either-Leaves (Quiet h) (is_connected h.status && has_socket h) _ _
        (either-Leaves (Quiet h) h.is_writable _ _ (write_data-Quiet from id w ev h)
          (refuse_data-Quiet from h))
        (refl, tt, inl refl)

  abbrev Alive : Stepped Q → Type 0
  Alive st = is_destroying st.after.status ≡ false

  do_incoming-Alive :
      (u : ℕ) (h : UtpHandler Q) → is_destroying h.status ≡ false → Alive (do_incoming u h)
  unfolding do_incoming is_destroying set_utp_callbacks
  do_incoming-Alive u h e =
      elim h.utp
        as (λ x. Alive (elim x [
          | none ↦
              let h' = record h { utp = some u } in
              record {
                after = record h' { is_writable = true; status = connected };
                events = set_utp_callbacks h';
              }
          | some v ↦ record { after = h; events = [] }
        ])) [ none ↦ refl | some v ↦ e ]

  incoming_loop-Alive :
      (us : List ℕ) (h : UtpHandler Q) → is_destroying h.status ≡ false → Alive (incoming_loop us h)
  unfolding incoming_loop
  incoming_loop-Alive [] h e = e
  incoming_loop-Alive (u ∷ us) h e =
      incoming_loop-Alive us (do_incoming u h).after (do_incoming-Alive u h e)

  -- A connection with the port that `set_port` gives it.
  abbrev pub with_port : ℕ → UtpHandler Q → UtpHandler Q
  with_port port h = record h { sock = (set_port port h.sock).0 }

  Alive-IsOff : (h : UtpHandler Q) → is_destroying h.status ≡ false → IsOff h
  Alive-IsOff h alive gone = absurd cc

  Quiet-IsOff : (h : UtpHandler Q) (st : Stepped Q) → Quiet h st → IsOff h → IsOff st.after
  Quiet-IsOff h st q o = (Quiet-Switches h st q).off o

  -- What a step does if it deletes the handler: the input is off.
  abbrev pub DeletesOff : Stepped Q → Type 0
  DeletesOff st = (deletions st.events ≡ 0) ⊎ (st.after.sock.selected ≡ false)

module _ (ei : Ei) (d : DrvQueue) where
  open d use {Queue}

  pub data Life : Bool → UtpHandler Queue → Type 0 where
    -- `connect_start`, then `Client::connect_to`
    client_begun :
        (q : Queue) (fd : ℤ) (so : SockOpts) (port : ℕ) (created : Option ℕ)
        → Life false (connect_to created (with_port port (new_handler q fd so))).after
    -- `Listener::input_ready`, where libutp offers the sockets `us`
    server_begun :
        (q : Queue) (fd : ℤ) (so : SockOpts) (port : ℕ) (us : List ℕ)
        → Life true (with_port port (incoming_loop us (new_handler q fd so)).after)
    -- `input_ready`
    datagram_arrived :
        {is_server : Bool} {h : UtpHandler Queue} (datagram : Option (List ℕ)) (cs : List Callback)
        (st : Stepped Queue)
        → input_ready d is_server datagram cs h ≡ ok st
        → Life is_server h
        → Life is_server st.after
    -- the callbacks of `UTP_CheckTimeouts` and of the other calls of libutp
    called_back :
        {is_server : Bool} {h : UtpHandler Queue} (cs : List Callback) (st : Stepped Queue)
        → call_backs d is_server cs h ≡ ok st
        → Life is_server h
        → Life is_server st.after
    -- `control`
    requested :
        {is_server : Bool} {h : UtpHandler Queue} (command : Command) (w : World) (buf : List ℕ)
        (len : ℕ) (a : Answered Queue)
        → control d (not is_server) command ei w buf len h ≡ ok a
        → Life is_server h
        → Life is_server a.after
    -- `outputv`
    data_sent :
        {is_server : Bool} {h : UtpHandler Queue} (from id : ℕ) (wr : WriteRun) (ev : IoVec)
        (st : Stepped Queue)
        → outputv from id wr ev h ≡ ok st
        → Life is_server h
        → Life is_server st.after

  Life-IsOff : (is_server : Bool) (h : UtpHandler Queue) → Life is_server h → IsOff h
  unfolding connect_to new_handler is_destroying
  Life-IsOff is_server h (client_begun q fd so port created) = Alive-IsOff h refl
  Life-IsOff is_server h (server_begun q fd so port us) =
      Alive-IsOff h (incoming_loop-Alive us (new_handler q fd so) refl)
  Life-IsOff is_server h (datagram_arrived {h = g} datagram cs st e l) =
      let s = subst (Leaves (Switches g)) e (input_ready-Switches d is_server datagram cs g) in
      s.off (Life-IsOff is_server g l)
  Life-IsOff is_server h (called_back {h = g} cs st e l) =
      let s = subst (Leaves (Switches g)) e (call_backs-Switches d is_server cs g) in
      s.off (Life-IsOff is_server g l)
  Life-IsOff is_server h (requested {h = g} command w buf len a e l) =
      Quiet-IsOff g (stepped a)
        (subst (Leaves (QuietAnswer g)) e (control-Quiet d (not is_server) command ei w buf len g))
        (Life-IsOff is_server g l)
  Life-IsOff is_server h (data_sent {h = g} from id wr ev st e l) =
      Quiet-IsOff g st (subst (Leaves (Quiet g)) e (outputv-Quiet from id wr ev g))
        (Life-IsOff is_server g l)

  -- Whatever datagrams, timeouts, requests and data a connection has seen since it began, and in whatever
  -- order: `stop` deletes it only with its input off, and so do the callbacks of a datagram if nothing
  -- throws.
  pub Life-DeletesOff :
      (is_server : Bool) (h : UtpHandler Queue)
      → Life is_server h
      → DeletesOff (stop d h)
        × ((datagram : Option (List ℕ)) (cs : List Callback)
            → Leaves DeletesOff (input_ready d is_server datagram cs h))
  Life-DeletesOff is_server h l = (
    stop-freed d h (Life-IsOff is_server h l),
    λ datagram cs.
        freed_only (input_ready d is_server datagram cs h)
          (input_ready-Switches d is_server datagram cs h),
  )
    where
      freed_only : (r : Result (Stepped Queue)) → Leaves (Switches h) r → Leaves DeletesOff r
      freed_only (ok st) s = s.freed
      freed_only (err e) s = tt
