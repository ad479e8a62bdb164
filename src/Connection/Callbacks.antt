-- ===== src/Connection/Callbacks.antt =====
-- utp_handler.cc: what libutp calls, `do_read`, `do_write`, `do_get_rb_size`, `do_state_change` and
-- `do_error`. A call of `UTP_Write` calls `do_write` back: how often and for how many bytes, and
-- the result, is libutp's choice, a `WriteRun`. Errno values are those of Linux.
use gen_utp.Base.{
  ℕ, zero, suc, Bool, true, false, ◌&&◌, Option, some, none, List, [], ◌∷◌, ◌++◌, map, length, ◌==◌,
  if◌then◌else◌, Result, ok, ◌>>=◌,
}
use gen_utp.Driver.Defs.{
  lit, errno_id, DrvTerm, port, ext2term, tuple, Message, output, send, Process, nil, process,
}
use gen_utp.Driver.Queue.{DrvQueue}
use gen_utp.Reading.Defs.{
  connected_receiver, is_false, Emitted, emit_read_buffer, emit_closed_message,
}
use gen_utp.WriteQueue
use gen_utp.WriteQueue.{WriteQueue}
use gen_utp.Connection.Defs.{
  Status, connect_pending, connected, connect_failed, closing, stopped, UtpState, connect, writable,
  eof, UtpHandler, Event, message, utp_write, rb_drained, stop_input, deleted, Stepped, close_utp,
  reset_waiting_recv,
}

abbrev pub econnreset : ℕ
econnreset = 104

pub record WriteRun : Type 0 where
  pub counts : List ℕ
  pub result : Bool

abbrev pub binary_bytes : Option (List ℕ) → List ℕ
binary_bytes none = []
binary_bytes (some b) = b

-- The null test of a `Binary`.
abbrev pub is_set : Option (List ℕ) → Bool
is_set none = false
is_set (some b) = true

-- `{Ref, ok}`
abbrev pub ref_ok : Option (List ℕ) → List DrvTerm
ref_ok ref = ext2term (binary_bytes ref) ∷ DrvTerm.atom (lit "ok") ∷ tuple 2 ∷ []

-- `do_write`: the queue and the bytes that were copied.
unfoldable pub do_write : ℕ → WriteQueue → Result (WriteQueue × List ℕ)
do_write zero wq = ok (wq, [])
do_write (suc n) wq = do r ← WriteQueue.pop_bytes wq (suc n); ok (r.rest, r.copied)

-- The calls of `do_write` within one `UTP_Write`.
unfoldable pub do_writes : List ℕ → WriteQueue → Result (WriteQueue × List ℕ)
unfolding do_write
do_writes [] wq = ok (wq, [])
do_writes (n ∷ ns) wq = do
  (wq', sent) ← do_write n wq
  (wq'', more) ← do_writes ns wq'
  ok (wq'', sent ++ more)

abbrev pub is_connect_pending : Status → Bool
is_connect_pending connect_pending = true
is_connect_pending _ = false

abbrev pub is_stopped : Status → Bool
is_stopped stopped = true
is_stopped _ = false

abbrev pub is_closing : Status → Bool
is_closing closing = true
is_closing _ = false

abbrev pub is_connected : Status → Bool
is_connected connected = true
is_connected _ = false

module _ (d : DrvQueue) where
  open d use {Queue, sizeq, enq}

  -- `do_get_rb_size`
  unfoldable pub do_get_rb_size : UtpHandler Queue → ℕ
  do_get_rb_size h = if is_connected h.status then sizeq h.queue else 0

  abbrev drained : UtpHandler Queue → ℕ → List Event
  drained h qsize = if qsize == 0 then rb_drained h.utp ∷ [] else []

  -- What `do_read` goes on with after a call of `emit_read_buffer`.
  abbrev pub read_done : UtpHandler Queue → Bool → Emitted d → Stepped Queue
  read_done h waiting e =
      let h' = record h { sock = e.sock } in
      record {
        after = if waiting && e.sent then reset_waiting_recv h' else h';
        events = map message e.messages ++ drained h e.new_qsize;
      }

  abbrev pub received : List ℕ → UtpHandler Queue → UtpHandler Queue
  received bytes h =
      let s = h.sock in
      record h {
        sock = record s {
          queue = enq s.queue bytes;
          read_count = s.read_count ++ length bytes ∷ [];
        };
      }

  unfoldable pub do_read : List ℕ → UtpHandler Queue → Result (Stepped Queue)
  unfolding reset_waiting_recv
  do_read [] h = ok (record { after = h; events = [] })
  do_read (b ∷ bytes) h =
      let h' = received (b ∷ bytes) h in
      if is_false h.sockopts.active
      then if h.receiver_waiting
        then (do
          e ←
              emit_read_buffer d h.recv_len
                (record {
                  caller_ref = binary_bytes h.caller_ref;
                  caller = h.caller;
                  send_to_connected = false;
                })
                1 h'.sock
          ok (read_done h' true e))
        else ok (record { after = h'; events = [] })
      else (do e ← emit_read_buffer d 0 connected_receiver 1 h'.sock; ok (read_done h' false e))

  -- `UTP_STATE_EOF`
  unfoldable pub on_eof : UtpHandler Queue → Stepped Queue
  unfolding close_utp WriteQueue.clear
  on_eof h =
      let cleared = record h { write_queue = (WriteQueue.clear h.write_queue).0 } in
      let closed =
        if is_stopped h.status
        then record { after = cleared; events = [] }
        else close_utp cleared in
      let h' = closed.after in
      record { after = record h' { is_writable = false; eof_seen = true }; events = closed.events }

  -- The `UTP_Write` of what is queued, if anything is.
  unfoldable pub write_queued : WriteRun → UtpHandler Queue → Result (Stepped Queue)
  unfolding do_writes WriteQueue.size
  write_queued w h =
      if WriteQueue.size h.write_queue == 0
      then ok (record { after = record h { is_writable = true }; events = [] })
      else (do
        (wq, sent) ← do_writes w.counts h.write_queue
        ok (record {
          after = record h { write_queue = wq; is_writable = w.result };
          events = utp_write h.utp (WriteQueue.size h.write_queue) ∷ [];
        }))

  abbrev pub retry_message : UtpHandler Queue → Message
  retry_message h =
      send h.caller (
        DrvTerm.atom (lit "utp_reply")
        ∷ port h.drv_port
        ∷ DrvTerm.atom (lit "retry")
        ∷ tuple 3
        ∷ [])

  unfoldable pub wake_sender : UtpHandler Queue → Stepped Queue
  wake_sender h =
      if h.is_writable && h.sender_waiting
      then record {
        after = record h { sender_waiting = false };
        events = message (retry_message h) ∷ [];
      }
      else record { after = h; events = [] }

  -- `UTP_STATE_WRITABLE`
  unfoldable pub on_writable : WriteRun → UtpHandler Queue → Result (Stepped Queue)
  unfolding write_queued wake_sender close_utp
  on_writable w h = do
    wrote ← write_queued w h
    let woken = wake_sender wrote.after
    let h' = woken.after
    let closed = (if h'.close_pending then close_utp h' else record { after = h'; events = [] })
    ok (record { after = closed.after; events = wrote.events ++ (woken.events ++ closed.events) })

  -- `UTP_STATE_CONNECT`
  unfoldable pub on_connect : UtpHandler Queue → Stepped Queue
  on_connect h = record {
    after = record h { status = connected; is_writable = true };
    events =
        if is_connect_pending h.status && is_set h.caller_ref
        then message (output (ref_ok h.caller_ref)) ∷ []
        else [];
  }

  abbrev pub to_caller : Process → List DrvTerm → Message
  to_caller nil ts = output ts
  to_caller (process p) ts = send (process p) ts

  -- The reply to `close`, or the message that the connection is closed.
  unfoldable pub report_closed : UtpHandler Queue → Stepped Queue
  unfolding emit_closed_message
  report_closed h =
      let s = h.sock in
      if h.close_pending && is_set h.caller_ref
      then record {
        after = record h { caller = nil; sock = record s { close_pending = false } };
        events = message (to_caller h.caller (ref_ok h.caller_ref)) ∷ [];
      }
      else (if is_false h.sockopts.active
          then record { after = h; events = [] }
          else record { after = h; events = map message (emit_closed_message d s).1 })

  abbrev pub deselected : UtpHandler Queue → Stepped Queue
  deselected h =
      let s = h.sock in
      if h.selected
      then record {
        after = record h { sock = record s { selected = false } };
        events = stop_input h.udp_sock ∷ [];
      }
      else record { after = h; events = [] }

  abbrev pub destroyed : UtpHandler Queue → Stepped Queue
  destroyed h =
      let reported = report_closed h in
      let h' = reported.after in
      record {
        after = record h' { is_writable = false; status = Status.destroying; eof_seen = false };
        events = reported.events;
      }

  -- `UTP_STATE_DESTROYING`
  unfoldable pub on_destroying : UtpHandler Queue → Stepped Queue
  unfolding report_closed
  on_destroying h =
      let off = deselected h in
      let rest =
        if is_closing h.status
        then destroyed off.after
        else (if is_stopped h.status
            then record { after = off.after; events = deleted ∷ [] }
            else record { after = off.after; events = [] }) in
      record { after = rest.after; events = off.events ++ rest.events }

  unfoldable pub do_state_change : UtpState → WriteRun → UtpHandler Queue → Result (Stepped Queue)
  unfolding on_eof on_writable on_connect on_destroying
  do_state_change eof w h = ok (on_eof (record h { state = some eof }))
  do_state_change writable w h = on_writable w (record h { state = some writable })
  do_state_change connect w h = ok (on_connect (record h { state = some connect }))
  do_state_change UtpState.destroying w h =
      ok (on_destroying (record h { state = some UtpState.destroying }))
  do_state_change (UtpState.other n) w h =
      ok (record { after = record h { state = some (UtpState.other n) }; events = [] })

  abbrev pub connect_error : UtpHandler Queue → ℕ → List Event
  connect_error h errcode =
      if is_set h.caller_ref
      then message (
          output (
            ext2term (binary_bytes h.caller_ref)
            ∷ DrvTerm.atom (lit "error")
            ∷ DrvTerm.atom (errno_id errcode)
            ∷ tuple 2
            ∷ tuple 2
            ∷ []))
        ∷ []
      else []

  abbrev pub error_on : Status → UtpHandler Queue → ℕ → Stepped Queue
  error_on connect_pending h errcode = record {
    after = record h { status = connect_failed };
    events = connect_error h errcode;
  }
  error_on connected h errcode =
      if errcode == econnreset
      then close_utp h
      else (if is_false h.sockopts.active then record { after = h; events = [] } else record {
        after = h;
        events =
            message (
              output (
                DrvTerm.atom (lit "utp_error")
                ∷ port h.drv_port
                ∷ DrvTerm.atom (errno_id errcode)
                ∷ tuple 3
                ∷ []))
            ∷ [];
      })
  error_on _ h errcode = record { after = h; events = [] }

  unfoldable pub do_error : ℕ → UtpHandler Queue → Stepped Queue
  unfolding close_utp
  do_error errcode h = error_on h.status (record h { error_code = errcode }) errcode
