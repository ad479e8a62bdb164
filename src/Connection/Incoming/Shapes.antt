-- ===== src/Connection/Incoming/Shapes.antt =====
-- The messages of all that a datagram calls back.
use gen_utp.Base.{
  ℕ, ◌≡◌, refl, subst, Bool, true, false, not, sym, inl, inr, Option, Option-cases, some, none,
  List, [], ◌∷◌, map, ◌==◌, if◌then◌else◌, is_minus_one, Result, ok, Leaves, bind-Leaves,
  either-Leaves,
}
use gen_utp.Driver.Defs.{Message}
use gen_utp.Driver.Queue.{DrvQueue}
use gen_utp.Connection.Defs.{connected, UtpHandler, Event, message, Stepped}
use gen_utp.Connection.Callbacks.{do_write, do_read, received, read_done, binary_bytes}
use gen_utp.Connection.Messages.{
  Sound, Sound-append, SoundStep, SoundResult, state_change-Sound, do_error-Sound,
}
use gen_utp.Connection.Peers.{do_incoming, set_utp_callbacks}
use gen_utp.Connection.Sending.{Outcome, done, failed, going_on, do_send_to}
use gen_utp.Connection.Incoming.{
  Callback, utp_read, utp_write, utp_get_rb_size, utp_state_change, utp_error, utp_overhead,
  utp_incoming, send_to, unmoved, after_send, incoming, call_back, call_backs, input_ready,
}
use gen_utp.Reading.Defs.{Receiver, connected_receiver, is_false, Emitted, emit_read_buffer}
use gen_utp.Reading.Delivery.{AllMessages}
use gen_utp.Reading.Shapes.{emit_read_buffer-AllMessages}

messages-Sound : (ms : List Message) → AllMessages ms → Sound (map message ms)
messages-Sound [] all = tt
messages-Sound (m ∷ ms) all = (all.0, messages-Sound ms all.1)

either-events : (b : Bool) (xs ys : List Event) → Sound xs → Sound ys → Sound (if b then xs else ys)
either-events true xs ys sx sy = sx
either-events false xs ys sx sy = sy

module _ (d : DrvQueue) where
  open d use {Queue}

  read_done-Sound :
      (h : UtpHandler Queue) (waiting : Bool) (r : Result (Emitted d))
      → Leaves (λ e. AllMessages e.messages) r
      → (e : Emitted d) → r ≡ ok e
      → Sound (read_done d h waiting e).events
  read_done-Sound h waiting r all e same =
      let sound =
        messages-Sound e.messages
          (subst (λ x. Leaves (λ e'. AllMessages e'.messages) x) same all) in
      Sound-append (map message e.messages) _ sound
        (either-events (e.new_qsize == 0) _ _ (tt, tt) tt)

  do_read-Sound : (bytes : List ℕ) (h : UtpHandler Queue) → SoundResult d (do_read d bytes h)
  unfolding do_read
  do_read-Sound [] h = tt
  do_read-Sound (b ∷ bytes) h =
      let h' = received d (b ∷ bytes) h in
      let rcvr : Receiver = record {
        caller_ref = binary_bytes h.caller_ref;
        caller = h.caller;
        send_to_connected = false;
      } in
      either-Leaves (SoundStep d) (is_false h.sockopts.active) _ _
        (either-Leaves (SoundStep d) h.receiver_waiting _ _
          (bind-Leaves (SoundStep d) (emit_read_buffer d h.recv_len rcvr 1 h'.sock) _ (
            read_done-Sound h' true (emit_read_buffer d h.recv_len rcvr 1 h'.sock)
              (emit_read_buffer-AllMessages d h.recv_len rcvr 1 h'.sock)))
          tt)
        (bind-Leaves (SoundStep d) (emit_read_buffer d 0 connected_receiver 1 h'.sock) _ (
          read_done-Sound h' false (emit_read_buffer d 0 connected_receiver 1 h'.sock)
            (emit_read_buffer-AllMessages d 0 connected_receiver 1 h'.sock)))

  unmoved-Sound : (h : UtpHandler Queue) → Sound (unmoved d h).events
  unmoved-Sound h = tt

  abbrev taken : ℕ → UtpHandler Queue → Stepped Queue
  taken u h =
      let h' = record h { utp = some u } in
      record {
        after = record h' { is_writable = true; status = connected };
        events = set_utp_callbacks h';
      }

  do_incoming-first : (u : ℕ) (h : UtpHandler Queue) → Sound (taken u h).events
  unfolding set_utp_callbacks
  do_incoming-first u h = (tt, (tt, tt))

  incoming-Sound :
      (is_server : Bool) (u : ℕ) (h : UtpHandler Queue) → Sound (incoming d is_server u h).events
  unfolding do_incoming set_utp_callbacks
  incoming-Sound false u h = tt
  incoming-Sound true u h = elim (Option-cases h.utp) [
    | inl e ↦
        let first : do_incoming u h ≡ taken u h = rw e refl in
        subst (SoundStep d) (sym first) (do_incoming-first u h)
    | inr (v, e) ↦
        let later : do_incoming u h ≡ unmoved d h = rw e refl in
        subst (SoundStep d) (sym later) (unmoved-Sound h)
  ]

  after_send-Sound : (o : Outcome) (h : UtpHandler Queue) → Sound (after_send d o h).events
  after_send-Sound done h = tt
  after_send-Sound (failed errno) h = do_error-Sound d errno h
  after_send-Sound going_on h = tt

  call_back-Sound :
      (is_server : Bool) (c : Callback) (h : UtpHandler Queue)
      → SoundResult d (call_back d is_server c h)
  unfolding call_back
  call_back-Sound is_server (utp_read bytes) h = do_read-Sound bytes h
  call_back-Sound is_server (utp_write n) h =
      bind-Leaves (SoundStep d) (do_write n h.write_queue) _ (λ r e. tt)
  call_back-Sound is_server utp_get_rb_size h = tt
  call_back-Sound is_server (utp_state_change st w) h = state_change-Sound d st w h
  call_back-Sound is_server (utp_error errcode) h = do_error-Sound d errcode h
  call_back-Sound is_server utp_overhead h = tt
  call_back-Sound is_server (utp_incoming u) h = incoming-Sound is_server u h
  call_back-Sound is_server (send_to len answers) h =
      after_send-Sound (do_send_to (not (is_minus_one h.udp_sock)) len answers).1 h

  call_backs-Sound :
      (is_server : Bool) (cs : List Callback) (h : UtpHandler Queue)
      → SoundResult d (call_backs d is_server cs h)
  unfolding call_backs
  call_backs-Sound is_server [] h = tt
  call_backs-Sound is_server (c ∷ cs) h =
      bind-Leaves (SoundStep d) (call_back d is_server c h) _ (λ first e.
        bind-Leaves (SoundStep d) (call_backs d is_server cs first.after) _ (λ rest e'.
          Sound-append first.events rest.events
            (subst (SoundResult d) e (call_back-Sound is_server c h))
            (subst (SoundResult d) e' (call_backs-Sound is_server cs first.after))))

  -- Whatever libutp calls back for a datagram, data, state changes, errors, new connections and datagrams to
  -- send, in whatever order, each message that the handler sends on the way makes exactly one term, unless the
  -- driver does what has no defined behaviour.
  pub input_ready-Sound :
      (is_server : Bool) (datagram : Option (List ℕ)) (cs : List Callback) (h : UtpHandler Queue)
      → Leaves (λ s. Sound s.events) (input_ready d is_server datagram cs h)
  unfolding input_ready
  input_ready-Sound is_server none cs h = tt
  input_ready-Sound is_server (some []) cs h = tt
  input_ready-Sound is_server (some (b ∷ bytes)) cs h = call_backs-Sound is_server cs h
