-- ===== src/Connection/Deselecting/Callbacks.antt =====
-- The callbacks of libutp, one by one and in any sequence.
use gen_utp.Base.{
  ℕ, ◌≡◌, refl, sym, ap, ◌∙◌, subst, inl, inr, Bool, true, false, Bool-cases, not, ◌&&◌, ◌||◌,
  Option, some, none, List, [], ◌∷◌, ◌++◌, map, ◌==◌, ltb, if◌then◌else◌, Result, ok, err, Leaves,
  bind-Leaves, either-Leaves, if-Holds, ◌%◌, ◌^◌, ◌+◌,
}
use gen_utp.Driver.Queue.{DrvQueue}
use gen_utp.WriteQueue
use gen_utp.Reading.Defs.{
  Socket, Receiver, connected_receiver, is_false, Emitted, emit_read_buffer, emit_closed_message,
  emit_queued, emit_packet, emit_passive, emit_from, emit_loop, emitting, Emitting, packet_size,
  reduce_read_count,
}
use gen_utp.Connection.Defs.{
  Status, not_connected, listening, connect_pending, connected, connect_failed, closing, stopped,
  UtpState, connect, writable, eof, UtpHandler, Event, message, deleted, Stepped, is_destroying,
  close_on, close_utp, reset_waiting_recv,
}
use gen_utp.Connection.Callbacks.{
  WriteRun, do_write, do_read, received, read_done, binary_bytes, on_eof, write_queued, wake_sender,
  on_writable, on_connect, report_closed, deselected, destroyed, on_destroying, do_state_change,
  error_on, do_error, is_stopped, is_closing, do_writes, is_set, econnreset, is_connect_pending,
}
use gen_utp.Connection.Peers.{do_incoming, set_utp_callbacks}
use gen_utp.Connection.Sending.{Outcome, done, failed, going_on}
use gen_utp.Connection.Incoming.{
  Callback, utp_read, utp_write, utp_get_rb_size, utp_state_change, utp_error, utp_overhead,
  utp_incoming, send_to, after_send, call_back, call_backs, input_ready,
}
use gen_utp.Connection.Deselecting.{
  on_after, on_after-append, on_after_off, Calm, Calm-append, map-message-Calm, Switches, Quiet,
  Quiet-Switches, chained-Switches,
}

module _ (d : DrvQueue) where
  open d use {Queue, sizeq, peekq}

  abbrev pub Selects : Bool → Emitted d → Type 0
  Selects b e = e.sock.selected ≡ b

  emit_from-Selects :
      (n : ℕ) (rcvr : Receiver) (e : Emitting d) (s : Socket Queue)
      → Leaves (Selects s.selected) (emit_from d n rcvr e s)
  unfolding emit_from
  emit_from-Selects n rcvr e s =
      bind-Leaves (Selects s.selected) (emit_loop d n s.drv_port s.sockopts rcvr e) _ (λ e' q. refl)

  emit_queued-Selects :
      (len : ℕ) (rcvr : Receiver) (s : Socket Queue)
      → Leaves (Selects s.selected) (emit_queued d len rcvr s)
  unfolding emit_queued emit_packet emit_passive
  emit_queued-Selects len rcvr s =
      bind-Leaves (Selects s.selected) (packet_size s.sockopts.packet (peekq s.queue)) _
        (λ pkt_size q.
          either-Leaves (Selects s.selected) (not (pkt_size == 0)) _ _
            (either-Leaves (Selects s.selected)
              (ltb (sizeq s.queue) ((s.sockopts.packet + pkt_size) % 2 ^ 32)) _ _ refl
              (bind-Leaves (Selects s.selected) (reduce_read_count s.read_count pkt_size) _
                (λ counts q'. emit_from-Selects 1 rcvr _ s)))
            (either-Leaves (Selects s.selected) (is_false s.sockopts.active) _ _
              (bind-Leaves (Selects s.selected)
                (if len == 0
                  then ok []
                  else reduce_read_count s.read_count
                      ((if len == 0 then sizeq s.queue else len) % 2 ^ 32))
                _ (λ counts q'. emit_from-Selects 1 rcvr _ s))
              (emit_from-Selects _ rcvr (emitting d s) s)))

  pub emit_read_buffer-Selects :
      (len : ℕ) (rcvr : Receiver) (qsize : ℕ) (s : Socket Queue)
      → Leaves (Selects s.selected) (emit_read_buffer d len rcvr qsize s)
  unfolding emit_read_buffer
  emit_read_buffer-Selects len rcvr qsize s =
      either-Leaves (Selects s.selected) (s.close_pending && (emit_closed_message d s).0) _ _ refl (
        either-Leaves (Selects s.selected)
          (sizeq s.queue == 0 || ltb (sizeq s.queue) len || ltb (sizeq s.queue) s.sockopts.packet) _
          _ refl (emit_queued-Selects len rcvr s))

  read_done-Quiet :
      (h h' : UtpHandler Queue) (waiting : Bool) (e : Emitted d)
      → e.sock.selected ≡ h.sock.selected
      → is_destroying h'.status ≡ is_destroying h.status
      → Quiet h (read_done d h' waiting e)
  unfolding reset_waiting_recv
  read_done-Quiet h h' waiting e same status =
      let w = waiting && e.sent in
      (
        if-Holds (λ (g : UtpHandler Queue). g.sock.selected ≡ h.sock.selected) w _ _ same same,
        Calm-append (map message e.messages) _ (map-message-Calm e.messages)
            (if-Holds Calm (e.new_qsize == 0) _ _ tt tt),
        inl (
            if-Holds (λ (g : UtpHandler Queue). is_destroying g.status ≡ is_destroying h.status) w _
              _ status status),
      )

  do_read-Quiet : (bytes : List ℕ) (h : UtpHandler Queue) → Leaves (Quiet h) (do_read d bytes h)
  unfolding do_read
  do_read-Quiet [] h = (refl, tt, inl refl)
  do_read-Quiet (b ∷ bytes) h =
      let h' = received d (b ∷ bytes) h in
      let rcvr : Receiver = record {
        caller_ref = binary_bytes h.caller_ref;
        caller = h.caller;
        send_to_connected = false;
      } in
      either-Leaves (Quiet h) (is_false h.sockopts.active) _ _
        (either-Leaves (Quiet h) h.receiver_waiting _ _
          (bind-Leaves (Quiet h) (emit_read_buffer d h.recv_len rcvr 1 h'.sock) _ (λ e q.
            read_done-Quiet h h' true e
              (subst (Leaves (Selects h.sock.selected)) q
                (emit_read_buffer-Selects h.recv_len rcvr 1 h'.sock))
              refl))
          (refl, tt, inl refl))
        (bind-Leaves (Quiet h) (emit_read_buffer d 0 connected_receiver 1 h'.sock) _ (λ e q.
          read_done-Quiet h h' false e
            (subst (Leaves (Selects h.sock.selected)) q
              (emit_read_buffer-Selects 0 connected_receiver 1 h'.sock))
            refl))

  pub close_on-Quiet :
      (h g : UtpHandler Queue) (u : Option ℕ)
      → g.sock.selected ≡ h.sock.selected
      → is_destroying g.status ≡ is_destroying h.status
      → Quiet h (close_on g u)
  unfolding close_on is_destroying
  close_on-Quiet h g none s t = (s, tt, inl t)
  close_on-Quiet h g (some u) s t =
      if-Holds (Quiet h) (is_destroying g.status) _ _ (s, tt, inl t)
        (if-Holds (Quiet h) (WriteQueue.size g.write_queue == 0) _ _ (s, tt, inr refl)
          (s, tt, inl t))

  chained-Quiet :
      (h : UtpHandler Queue) (f r : Stepped Queue)
      → Quiet h f
      → Quiet f.after r
      → Quiet h (record { after = r.after; events = f.events ++ r.events })
  chained-Quiet h f r (s, c, st) (s', c', st') = (
    s' ∙ s,
    Calm-append f.events r.events c c',
    elim st' [
      | inr alive ↦ inr alive
      | inl kept ↦ elim st [ inl before ↦ inl (kept ∙ before) | inr alive ↦ inr (kept ∙ alive) ]
    ],
  )

  on_eof-Quiet : (h : UtpHandler Queue) → Quiet h (on_eof d h)
  unfolding on_eof close_utp
  on_eof-Quiet h =
      let cleared = record h { write_queue = (WriteQueue.clear h.write_queue).0 } in
      let q : Quiet h (
          if is_stopped h.status
          then record { after = cleared; events = [] }
          else close_on cleared h.utp) =
        if-Holds (Quiet h) (is_stopped h.status) _ _ (refl, tt, inl refl)
          (close_on-Quiet h cleared h.utp refl refl) in
      (q.0, q.1, q.2)

  write_queued-Quiet : (w : WriteRun) (h : UtpHandler Queue) → Leaves (Quiet h) (write_queued d w h)
  unfolding write_queued
  write_queued-Quiet w h =
      either-Leaves (Quiet h) (WriteQueue.size h.write_queue == 0) _ _ (refl, tt, inl refl)
        (bind-Leaves (Quiet h) (do_writes w.counts h.write_queue) _ (λ r e. (refl, tt, inl refl)))

  wake_sender-Quiet : (h : UtpHandler Queue) → Quiet h (wake_sender d h)
  unfolding wake_sender
  wake_sender-Quiet h =
      if-Holds (Quiet h) (h.is_writable && h.sender_waiting) _ _ (refl, tt, inl refl)
        (refl, tt, inl refl)

  abbrev close_if : Bool → UtpHandler Queue → Stepped Queue
  close_if b h = if b then close_utp h else record { after = h; events = [] }

  closing_if-Quiet : (b : Bool) (h : UtpHandler Queue) → Quiet h (close_if b h)
  unfolding close_utp
  closing_if-Quiet b h =
      if-Holds (Quiet h) b _ _ (close_on-Quiet h h h.utp refl refl) (refl, tt, inl refl)

  on_writable-Quiet : (w : WriteRun) (h : UtpHandler Queue) → Leaves (Quiet h) (on_writable d w h)
  unfolding on_writable
  on_writable-Quiet w h = bind-Leaves (Quiet h) (write_queued d w h) _ (λ wrote e.
      let woken = wake_sender d wrote.after in
      let closed = close_if woken.after.sock.close_pending woken.after in
      let rest : Stepped Queue = record {
        after = closed.after;
        events = woken.events ++ closed.events;
      } in
      chained-Quiet h wrote rest (subst (Leaves (Quiet h)) e (write_queued-Quiet w h)) (
        chained-Quiet wrote.after woken closed (wake_sender-Quiet wrote.after)
          (closing_if-Quiet woken.after.sock.close_pending woken.after)))

  on_connect-Quiet : (h : UtpHandler Queue) → Quiet h (on_connect d h)
  unfolding on_connect is_destroying
  on_connect-Quiet h =
      (refl, if-Holds Calm (is_connect_pending h.status && is_set h.caller_ref) _ _ tt tt, inr refl)

  report_closed-selected :
      (h : UtpHandler Queue) → (report_closed d h).after.sock.selected ≡ h.sock.selected
  unfolding report_closed
  report_closed-selected h =
      if-Holds (λ (st : Stepped Queue). st.after.sock.selected ≡ h.sock.selected)
        (h.close_pending && is_set h.caller_ref) _ _ refl
        (if-Holds (λ (st : Stepped Queue). st.after.sock.selected ≡ h.sock.selected)
          (is_false h.sockopts.active) _ _ refl refl)

  deselected_off :
      (h : UtpHandler Queue)
      → ((deselected d h).after.sock.selected ≡ false)
        × (on_after h.sock.selected (deselected d h).events ≡ false)
  unfolding on_after
  deselected_off h = elim (Bool-cases h.sock.selected) [
    | inl on ↦ rw on (refl, refl)
    | inr off ↦ rw off (refl, refl)
  ]

  on_destroying_off : (h : UtpHandler Queue) → (on_destroying d h).after.sock.selected ≡ false
  unfolding on_destroying
  on_destroying_off h =
      let off = (deselected_off h).0 in
      if-Holds (λ (st : Stepped Queue). st.after.sock.selected ≡ false) (is_closing h.status) _ _
        (report_closed-selected (deselected d h).after ∙ off)
        (if-Holds (λ (st : Stepped Queue). st.after.sock.selected ≡ false) (is_stopped h.status) _ _
          off off)

  -- What `on_destroying` does once the input is off.
  abbrev after_off : UtpHandler Queue → Stepped Queue
  after_off h =
      let off = deselected d h in
      if is_closing h.status
      then destroyed d off.after
      else (if is_stopped h.status
          then record { after = off.after; events = deleted ∷ [] }
          else record { after = off.after; events = [] })

  on_destroying-Switches : (h : UtpHandler Queue) → Switches h (on_destroying d h)
  unfolding on_destroying
  on_destroying-Switches h = record {
    on = on_destroying_off h ∙ sym (turned_off (after_off h).events);
    off = λ o e. on_destroying_off h;
    freed = inr (on_destroying_off h);
  }
    where
      turned_off :
          (es : List Event) → on_after h.sock.selected ((deselected d h).events ++ es) ≡ false
      turned_off es =
          on_after-append h.sock.selected (deselected d h).events es
          ∙ ap (λ b. on_after b es) (deselected_off h).1
          ∙ on_after_off es

  pub of_Quiet :
      (h : UtpHandler Queue) (r : Result (Stepped Queue))
      → Leaves (Quiet h) r
      → Leaves (Switches h) r
  of_Quiet h (ok s) q = Quiet-Switches h s q
  of_Quiet h (err e) q = tt

  do_state_change-Switches :
      (st : UtpState) (w : WriteRun) (h : UtpHandler Queue)
      → Leaves (Switches h) (do_state_change d st w h)
  unfolding do_state_change
  do_state_change-Switches eof w h =
      Quiet-Switches h _ (on_eof-Quiet (record h { state = some eof }))
  do_state_change-Switches writable w h =
      of_Quiet h (on_writable d w (record h { state = some writable }))
        (on_writable-Quiet w (record h { state = some writable }))
  do_state_change-Switches connect w h =
      Quiet-Switches h _ (on_connect-Quiet (record h { state = some connect }))
  do_state_change-Switches UtpState.destroying w h =
      let s = on_destroying-Switches (record h { state = some UtpState.destroying }) in
      record { on = s.on; off = s.off; freed = s.freed }
  do_state_change-Switches (UtpState.other n) w h = Quiet-Switches h _ (refl, tt, inl refl)

  error_on-Quiet :
      (s : Status) (h : UtpHandler Queue) (errcode : ℕ) → Quiet h (error_on d s h errcode)
  unfolding is_destroying close_utp
  error_on-Quiet connect_pending h errcode =
      (refl, if-Holds Calm (is_set h.caller_ref) _ _ tt tt, inr refl)
  error_on-Quiet connected h errcode =
      if-Holds (Quiet h) (errcode == econnreset) _ _ (close_on-Quiet h h h.utp refl refl) (
        if-Holds (Quiet h) (is_false h.sockopts.active) _ _ (refl, tt, inl refl)
          (refl, tt, inl refl))
  error_on-Quiet not_connected h errcode = (refl, tt, inl refl)
  error_on-Quiet listening h errcode = (refl, tt, inl refl)
  error_on-Quiet connect_failed h errcode = (refl, tt, inl refl)
  error_on-Quiet closing h errcode = (refl, tt, inl refl)
  error_on-Quiet Status.destroying h errcode = (refl, tt, inl refl)
  error_on-Quiet stopped h errcode = (refl, tt, inl refl)

  do_error-Switches : (errcode : ℕ) (h : UtpHandler Queue) → Switches h (do_error d errcode h)
  unfolding do_error
  do_error-Switches errcode h =
      let q = error_on-Quiet h.status (record h { error_code = errcode }) errcode in
      Quiet-Switches h _ (q.0, q.1, q.2)

  do_incoming-Quiet : (u : ℕ) (h : UtpHandler Queue) → Quiet h (do_incoming u h)
  unfolding do_incoming set_utp_callbacks is_destroying
  do_incoming-Quiet u h =
      elim h.utp
        as (λ x. Quiet h (elim x [
          | none ↦
              let h' = record h { utp = some u } in
              record {
                after = record h' { is_writable = true; status = connected };
                events = set_utp_callbacks h';
              }
          | some v ↦ record { after = h; events = [] }
        ])) [ none ↦ (refl, tt, inr refl) | some v ↦ (refl, tt, inl refl) ]

  after_send-Switches : (o : Outcome) (h : UtpHandler Queue) → Switches h (after_send d o h)
  after_send-Switches done h = Quiet-Switches h _ (refl, tt, inl refl)
  after_send-Switches (failed errno) h = do_error-Switches errno h
  after_send-Switches going_on h = Quiet-Switches h _ (refl, tt, inl refl)

  call_back-Switches :
      (is_server : Bool) (c : Callback) (h : UtpHandler Queue)
      → Leaves (Switches h) (call_back d is_server c h)
  unfolding call_back
  call_back-Switches is_server (utp_read bytes) h =
      of_Quiet h (do_read d bytes h) (do_read-Quiet bytes h)
  call_back-Switches is_server (utp_write n) h =
      bind-Leaves (Switches h) (do_write n h.write_queue) _
        (λ r e. Quiet-Switches h _ (refl, tt, inl refl))
  call_back-Switches is_server utp_get_rb_size h = Quiet-Switches h _ (refl, tt, inl refl)
  call_back-Switches is_server (utp_state_change st w) h = do_state_change-Switches st w h
  call_back-Switches is_server (utp_error errcode) h = do_error-Switches errcode h
  call_back-Switches is_server utp_overhead h = Quiet-Switches h _ (refl, tt, inl refl)
  call_back-Switches true (utp_incoming u) h = Quiet-Switches h _ (do_incoming-Quiet u h)
  call_back-Switches false (utp_incoming u) h = Quiet-Switches h _ (refl, tt, inl refl)
  call_back-Switches is_server (send_to len answers) h = after_send-Switches _ h

  pub call_backs-Switches :
      (is_server : Bool) (cs : List Callback) (h : UtpHandler Queue)
      → Leaves (Switches h) (call_backs d is_server cs h)
  unfolding call_backs
  call_backs-Switches is_server [] h = Quiet-Switches h _ (refl, tt, inl refl)
  call_backs-Switches is_server (c ∷ cs) h =
      bind-Leaves (Switches h) (call_back d is_server c h) _ (λ first e.
        bind-Leaves (Switches h) (call_backs d is_server cs first.after) _ (λ rest f.
          chained-Switches h first rest
            (subst (Leaves (Switches h)) e (call_back-Switches is_server c h))
            (subst (Leaves (Switches first.after)) f
              (call_backs-Switches is_server cs first.after))))

  -- Whatever a datagram calls back on a connection, in any order: its input is on afterwards as the calls of
  -- `stop_input` among what happened have it, a handler of which DESTROYING was reported has its input off if
  -- it had before, and a handler that is deleted has its input off.
  pub input_ready-Switches :
      (is_server : Bool) (datagram : Option (List ℕ)) (cs : List Callback) (h : UtpHandler Queue)
      → Leaves (Switches h) (input_ready d is_server datagram cs h)
  unfolding input_ready
  input_ready-Switches is_server none cs h = Quiet-Switches h _ (refl, tt, inl refl)
  input_ready-Switches is_server (some []) cs h = Quiet-Switches h _ (refl, tt, inl refl)
  input_ready-Switches is_server (some (b ∷ bytes)) cs h = call_backs-Switches is_server cs h
