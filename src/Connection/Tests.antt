-- ===== src/Connection/Tests.antt =====
-- Inputs for utp_handler.cc, and the theorems at them.
use gen_utp.Base.{
  ℕ, ◌≡◌, refl, inl, inr, true, false, some, none, List, [], ◌∷◌, ◌++◌, map, length, ℤ, ok, arith,
}
use gen_utp.Address.{zero_addr}
use gen_utp.Coder.BinaryFormat.{binary_format}
use gen_utp.Coder.Arguments.{binary_argument, binary_at}
use gen_utp.Driver.Defs.{Message, send, process}
use gen_utp.Driver.Queue.{content}
use gen_utp.Reading.Moving.{payloads}
use gen_utp.Reading.Delivery.{AllMessages}
use gen_utp.Connection.Receiving.{Receives, do_read_active}
use gen_utp.Driver.ListQueue.{list_queue, list_queue_laws}
use gen_utp.Options.Defs.{default_opts}
use gen_utp.WriteQueue.{WriteQueue, empty}
use gen_utp.WriteQueue.Fifo.{IsValid, empty-IsValid}
use gen_utp.Connection.Defs.{
  Status, connected, UtpState, UtpHandler, message, rb_drained, Stepped, new_handler,
}
use gen_utp.Connection.Callbacks.{WriteRun, ref_ok, on_eof, do_error, do_read, do_state_change}
use gen_utp.Connection.Control.{World, may_close, close, stop}
use gen_utp.Connection.Closing.{at_eof, at_error, Reaches, callback, here, next, close-answered}
use gen_utp.Connection.Closing.Pending.{messages_to}
use gen_utp.Connection.Messages.{Sound}
use gen_utp.Connection.Incoming.{Callback, input_ready}
use gen_utp.Connection.Deselecting.{Switches}
use gen_utp.Connection.Deselecting.Callbacks.{input_ready-Switches}
use gen_utp.Connection.Deselecting.Life.{
  Life, server_begun, datagram_arrived, requested, with_port, DeletesOff, Life-DeletesOff,
}
use gen_utp.Base.{Option}
use gen_utp.Listener.Incoming.{incoming_loop}
use gen_utp.Connection.Callbacks.{on_destroying}
use gen_utp.Connection.Control.{control, utp_close}
use gen_utp.Connection.Incoming.{call_backs, call_back}
use gen_utp.Connection.Incoming.Shapes.{input_ready-Sound}
use gen_utp.Base.{Leaves}
use gen_utp.Connection.Sending.{Sent}
use gen_utp.WriteQueue
use gen_utp.Connection.Defs.{is_destroying}
use gen_utp.Connection.Callbacks.{do_writes}
use gen_utp.Connection.Stopping.{deletions}
use gen_utp.Connection.Stopping.Awaited.{Passes, stop-Deletes}
use gen_utp.Connection.Stopping.Awaited as Awaited
use gen_utp.Connection.Stopping.Leaking.{stop-leaks}
use gen_utp.Base.{false, ◌⊎◌, ◌+◌}
use gen_utp.Connection.Output.{IoVec, queue_data, outputv}
use gen_utp.Connection.Writing.{Takes, outputv-Takes}
use gen_utp.Connection.Output.Queued.{ReadsAs, Appended, packet_size-packet_prefix, queue_data_lem}
use gen_utp.Connection.Sending.{Sent, count, failure, is_retryable, Request, send_loop, do_send_to}
use gen_utp.Connection.Sending.Coverage.{Consecutive, Ends, send_loop-Coverage, do_send_to-retry}

abbrev no_run : WriteRun
no_run = record { counts = []; result = true }

abbrev fresh : UtpHandler (List (List ℕ))
fresh = new_handler [] (ℤ.pos 3) default_opts

abbrev open_connection : UtpHandler (List (List ℕ))
open_connection = record fresh { status = connected; utp = some 4; is_writable = true }

abbrev world : World
world = record {
  from = 5;
  getaddrinfo = λ s. none;
  getnameinfo = λ a. none;
  errno = 0;
  sock_name = none;
  peer_name = zero_addr;
}

-- The binary of the bytes 1 and 2.
abbrev close_argument : List ℕ
close_argument = 131 ∷ 109 ∷ 0 ∷ 0 ∷ 0 ∷ 2 ∷ 1 ∷ 2 ∷ []

close_argument-binary : binary_argument binary_format close_argument 8 ≡ ok (1 ∷ 2 ∷ [])
unfolding binary_argument binary_at
close_argument-binary = refl

may_close_open : may_close open_connection ≡ true
unfolding may_close new_handler
may_close_open = refl

-- The connection after `close`.
abbrev closed : UtpHandler (List (List ℕ))
closed = (close binary_format world close_argument 8 open_connection).after

-- The connection after `close` and then an end of file.
abbrev after_eof : Stepped (List (List ℕ))
after_eof = on_eof list_queue (record closed { state = some UtpState.eof })

eof_returns : callback list_queue at_eof closed ≡ ok after_eof
unfolding do_state_change
eof_returns = refl

-- And then an error.
abbrev after_error : UtpHandler (List (List ℕ))
after_error = (do_error list_queue 104 after_eof.after).after

eof_and_error : Reaches list_queue closed after_error
eof_and_error = next at_eof after_eof eof_returns (next (at_error 104) _ refl here)

close-answered_example :
    (s : Stepped (List (List ℕ))) × (do_state_change list_queue UtpState.destroying no_run
        after_error
      ≡ ok s)
    × (messages_to 5 s.events ≡ message (send (process 5) (ref_ok (some (1 ∷ 2 ∷ [])))) ∷ [])
    × (s.after.status ≡ Status.destroying)
    × (s.after.close_pending ≡ false)
close-answered_example =
    close-answered list_queue binary_format world close_argument 8 (1 ∷ 2 ∷ []) no_run
      open_connection after_error may_close_open close_argument-binary eof_and_error

-- Then an end of file and an error.
stop_eof :
    Passes list_queue
      (stop list_queue open_connection).after
      0
      (do_error list_queue 104
        (on_eof list_queue (
          let h = (stop list_queue open_connection).after in
          record h { state = some UtpState.eof })).after).after
unfolding stop do_state_change do_error new_handler
stop_eof = Awaited.next at_eof _ refl (Awaited.next (at_error 104) _ refl Awaited.here refl) refl

stop-Deletes_example :
    ((is_destroying connected ≡ true) × (deletions (stop list_queue open_connection).events ≡ 1))
    ⊎ ((is_destroying connected ≡ false)
        × (deletions (stop list_queue open_connection).events + 0 ≡ 0)
        × (s : Stepped (List (List ℕ))) × (do_state_change list_queue UtpState.destroying no_run
              (do_error list_queue 104
                (on_eof list_queue (
                  let h = (stop list_queue open_connection).after in
                  record h { state = some UtpState.eof })).after).after
            ≡ ok s)
        × (deletions s.events ≡ 1))
unfolding new_handler
stop-Deletes_example = stop-Deletes list_queue no_run open_connection _ 0 refl stop_eof

packet_size-packet_prefix_example : ReadsAs 2 70000 4464
packet_size-packet_prefix_example = packet_size-packet_prefix 2 70000 (inr (inl refl))

-- An entry without bytes and without a binary, one of three bytes, and one without bytes whose binary
-- holds one.
abbrev three_bytes : IoVec
three_bytes = record {
  size = 3;
  entries =
      record { bytes = []; binv = none }
      ∷ record { bytes = 7 ∷ 8 ∷ 9 ∷ []; binv = none }
      ∷ record { bytes = []; binv = some (record { id = 9; orig_bytes = 6 ∷ [] }) }
      ∷ [];
}

queue_data_lem_example :
    (wq : WriteQueue) × (queue_data 1 2 three_bytes empty ≡ ok (wq, 5))
    × Appended empty (0 ∷ 3 ∷ 7 ∷ 8 ∷ 9 ∷ 6 ∷ []) wq
unfolding empty
queue_data_lem_example =
    queue_data_lem 1 2 three_bytes empty (inr (inr (inl refl))) empty-IsValid (omega arith)
      (omega arith)

abbrev answers : List Sent
answers = count 4 ∷ count 6 ∷ []

send_loop-Coverage_example :
    Consecutive 10 0 answers (send_loop 10 (ℤ.pos 0) answers).0
    × Ends 10 0 answers (send_loop 10 (ℤ.pos 0) answers).1
send_loop-Coverage_example =
    send_loop-Coverage 10 0 answers (omega arith) (omega arith) (omega arith, (omega arith, tt))

again : is_retryable 11 ≡ true
unfolding is_retryable
again = refl

do_send_to-retry_example :
    (more : List Request) × ((do_send_to true 10 (failure 11 ∷ [])).0
      ≡ record { index = ℤ.pos 0; size = 10 } ∷ record { index = ℤ.negsuc 0; size = 11 } ∷ more)
do_send_to-retry_example = do_send_to-retry 10 11 [] (omega arith) again

-- Two bytes wait already, from a time when the socket was passive.
abbrev two_wait : UtpHandler (List (List ℕ))
two_wait =
    let s = fresh.sock in
    record open_connection { sock = record s { queue = (1 ∷ 2 ∷ []) ∷ []; read_count = 2 ∷ [] } }

two_wait-Receives : Receives list_queue list_queue_laws two_wait
unfolding new_handler
two_wait-Receives = record {
  open_ = refl;
  raw = refl;
  active = refl;
  counted = refl;
  header_fits = (omega arith, tt);
}

do_read_active_example :
    (s : Stepped (List (List ℕ))) × (ms : List Message) × (do_read list_queue
        (3 ∷ 4 ∷ 5 ∷ [])
        two_wait
      ≡ ok s)
    × (s.events ≡ map message ms ++ rb_drained (some 4) ∷ [])
    × (payloads ms ≡ 1 ∷ 2 ∷ 3 ∷ 4 ∷ 5 ∷ [])
    × AllMessages ms
    × (length ms ≡ 2)
    × (content list_queue s.after.queue ≡ [])
unfolding new_handler
do_read_active_example =
    do_read_active list_queue list_queue_laws 3 (4 ∷ 5 ∷ []) two_wait two_wait-Receives
      (omega arith) (omega arith)

-- Four bytes wait in two binaries.
abbrev four_wait : WriteQueue
four_wait = record {
  queue =
      record { id = 1; orig_bytes = 1 ∷ 2 ∷ 3 ∷ [] } ∷ record { id = 2; orig_bytes = 4 ∷ [] } ∷ [];
  sz = 4;
  offset = 0;
}

four_wait-IsValid : IsValid four_wait
four_wait-IsValid = record { fits = omega arith; counted = refl; small = omega arith }

-- A connection that puts a prefix of two bytes in front of data.
abbrev framing : UtpHandler (List (List ℕ))
framing =
    let s = fresh.sock in
    record open_connection {
      write_queue = four_wait;
      sock = record s { sockopts = record default_opts { packet = 2 } };
    }

outputv-Takes_example :
    (s : Stepped (List (List ℕ))) × (sent : List ℕ) × (outputv 5 1
        (record { counts = 4 ∷ 3 ∷ []; result = false })
        three_bytes
        framing
      ≡ ok s)
    × Takes 5
        (record { counts = 4 ∷ 3 ∷ []; result = false })
        (0 ∷ 3 ∷ 7 ∷ 8 ∷ 9 ∷ 6 ∷ [])
        5
        framing
        s
        sent
unfolding new_handler
outputv-Takes_example =
    outputv-Takes 5 1 4 (record { counts = 4 ∷ 3 ∷ []; result = false }) three_bytes framing refl
      refl refl (inr (inr (inl refl))) four_wait-IsValid (omega arith) (omega arith) (omega arith)

-- Data comes, a second socket is offered, a datagram is lost for good, and the connection ends.
abbrev called_back : List Callback
called_back =
    Callback.utp_read (1 ∷ 2 ∷ [])
    ∷ Callback.utp_incoming 4
    ∷ Callback.send_to 3 (Sent.failure 110 ∷ [])
    ∷ Callback.utp_state_change UtpState.destroying no_run
    ∷ []

input_ready-Sound_example :
    Leaves
      (λ s. Sound s.events)
      (input_ready list_queue true (some (65 ∷ [])) called_back open_connection)
input_ready-Sound_example =
    input_ready-Sound list_queue true (some (65 ∷ [])) called_back open_connection

input_ready-Switches_example :
    Leaves
      (Switches open_connection)
      (input_ready list_queue true (some (65 ∷ [])) called_back open_connection)
input_ready-Switches_example =
    input_ready-Switches list_queue true (some (65 ∷ [])) called_back open_connection

-- A server that took its first packet, was closed and then heard of DESTROYING.
abbrev served : UtpHandler (List (List ℕ))
served = with_port 9 (incoming_loop (3 ∷ []) (new_handler [] (ℤ.pos 7) default_opts)).after

abbrev closed_server : UtpHandler (List (List ℕ))
closed_server = (close binary_format world close_argument 8 served).after

abbrev gone_server : Stepped (List (List ℕ))
gone_server = on_destroying list_queue (record closed_server { state = some UtpState.destroying })

abbrev destroyed_callback : List Callback
destroyed_callback = Callback.utp_state_change UtpState.destroying no_run ∷ []

close_answers :
    control list_queue false utp_close binary_format world close_argument 8 served
    ≡ ok (close binary_format world close_argument 8 served)
unfolding control
close_answers = refl

ends :
    input_ready list_queue true (some (65 ∷ [])) destroyed_callback closed_server
    ≡ ok (record { after = gone_server.after; events = gone_server.events ++ [] })
unfolding input_ready call_backs call_back do_state_change
ends = refl

lived : Life binary_format list_queue true gone_server.after
lived = datagram_arrived (some (65 ∷ [])) destroyed_callback _ ends (
    requested utp_close world close_argument 8 _ close_answers
      (server_begun [] (ℤ.pos 7) default_opts 9 (3 ∷ [])))

Life-DeletesOff_example :
    DeletesOff (stop list_queue gone_server.after)
    × ((datagram : Option (List ℕ)) (cs : List Callback)
        → Leaves DeletesOff (input_ready list_queue true datagram cs gone_server.after))
Life-DeletesOff_example = Life-DeletesOff binary_format list_queue true gone_server.after lived

-- Closed and stopped while four bytes wait, which libutp then writes.
abbrev closed_in_writing : UtpHandler (List (List ℕ))
closed_in_writing =
    let s = fresh.sock in
    record open_connection {
      write_queue = four_wait;
      status = Status.closing;
      sock = record s { close_pending = true };
    }

abbrev writes_four : WriteRun
writes_four = record { counts = 4 ∷ []; result = true }

four_written : do_writes (4 ∷ []) four_wait ≡ ok (empty, 1 ∷ 2 ∷ 3 ∷ 4 ∷ [])
unfolding do_writes empty WriteQueue.pop_bytes WriteQueue.pop_loop
four_written = refl

stop-leaks_example :
    (s s' : Stepped (List (List ℕ))) × (do_state_change list_queue UtpState.writable writes_four
        (stop list_queue closed_in_writing).after
      ≡ ok s)
    × (do_state_change list_queue UtpState.destroying no_run s.after ≡ ok s')
    × (deletions (stop list_queue closed_in_writing).events
          + deletions s.events
          + deletions s'.events
        ≡ 0)
    × (s'.after.status ≡ Status.destroying)
unfolding new_handler WriteQueue.size is_destroying empty
stop-leaks_example =
    stop-leaks list_queue no_run writes_four closed_in_writing 4 empty (1 ∷ 2 ∷ 3 ∷ 4 ∷ []) refl
      refl refl refl four_written refl
