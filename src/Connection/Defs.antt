-- ===== src/Connection/Defs.antt =====
-- The state of a `UtpHandler`, what it asks of libutp and of the runtime, and its small methods.
use gen_utp.Base.{ℕ, Bool, true, false, Option, some, none, List, [], ◌∷◌, ◌==◌, if◌then◌else◌, ℤ}
use gen_utp.Driver.Defs.{Message, Process, nil, process}
use gen_utp.Options.Defs.{SockOpts}
use gen_utp.Reading.Defs.{Socket, new_socket}
use gen_utp.WriteQueue.{WriteQueue}
use gen_utp.WriteQueue

-- `enum UtpPortStatus`
pub data Status : Type 0 where
  not_connected listening connect_pending connected connect_failed closing destroying stopped :
      Status

-- The states that libutp reports; a value that the `switch` has no case for is kept.
pub data UtpState : Type 0 where
  connect writable eof destroying : UtpState
  other : ℕ → UtpState

-- The handler's fields. `utp` is none for a null pointer, and so is `caller_ref` for a null binary.
pub record UtpHandler (Q : Type 0) : Type 0 where
  pub sock : Socket Q
  pub open sock use *
  pub write_queue : WriteQueue
  pub caller_ref : Option (List ℕ)
  pub caller : Process
  pub utp : Option ℕ
  pub recv_len : ℕ
  pub status : Status
  pub state : Option UtpState
  pub error_code : ℕ
  pub is_writable : Bool
  pub sender_waiting : Bool
  pub receiver_waiting : Bool
  pub eof_seen : Bool

-- What a method asks of the world outside, in order.
pub data Event : Type 0 where
  message : Message → Event
  utp_write : Option ℕ → ℕ → Event
  utp_close : ℕ → Event
  rb_drained : Option ℕ → Event
  set_sndbuf : Option ℕ → ℤ → Event
  set_recbuf : Option ℕ → ℤ → Event
  stop_input : ℤ → Event
  deq_all : ℕ → Event
  deleted : Event

-- A method's result: the state and the events, or an error.
pub record Stepped (Q : Type 0) : Type 0 where
  pub after : UtpHandler Q
  pub events : List Event

-- `UtpHandler(int sock, const SockOpts& so)`
unfoldable pub new_handler : {Q : Type 0} → Q → ℤ → SockOpts → UtpHandler Q
unfolding WriteQueue.empty
new_handler q fd so = record {
  sock = new_socket q fd so;
  write_queue = WriteQueue.empty;
  caller_ref = none;
  caller = nil;
  utp = none;
  recv_len = 0;
  status = not_connected;
  state = none;
  error_code = 0;
  is_writable = false;
  sender_waiting = false;
  receiver_waiting = false;
  eof_seen = false;
}

unfoldable pub is_destroying : Status → Bool
is_destroying Status.destroying = true
is_destroying _ = false

module _ {Q : Type 0} where
  -- `close_utp` of a connection whose socket is there.
  abbrev pub close_socket : UtpHandler Q → ℕ → ℕ → Stepped Q
  close_socket h u size =
      if size == 0
      then record { after = record h { status = closing; utp = none }; events = utp_close u ∷ [] }
      else record { after = h; events = [] }

  unfoldable pub close_on : UtpHandler Q → Option ℕ → Stepped Q
  unfolding WriteQueue.size is_destroying
  close_on h none = record { after = h; events = [] }
  close_on h (some u) =
      if is_destroying h.status
      then record { after = h; events = [] }
      else close_socket h u (WriteQueue.size h.write_queue)

  unfoldable pub close_utp : UtpHandler Q → Stepped Q
  unfolding close_on
  close_utp h = close_on h h.utp

  unfoldable pub reset_waiting_recv : UtpHandler Q → UtpHandler Q
  reset_waiting_recv h = record h {
    receiver_waiting = false;
    recv_len = 0;
    caller_ref = none;
    caller = process 0;
  }

  unfoldable pub cancel_send : UtpHandler Q → UtpHandler Q
  cancel_send h = record h { sender_waiting = false; caller = nil }

  unfoldable pub cancel_recv : UtpHandler Q → UtpHandler Q
  unfolding reset_waiting_recv
  cancel_recv h = reset_waiting_recv h
