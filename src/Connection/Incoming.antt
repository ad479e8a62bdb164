-- ===== src/Connection/Incoming.antt =====
-- utp_handler.cc, `UtpHandler::input_ready` and the static functions that libutp calls back with the handler
-- as `data`: a datagram is handed to libutp, which calls some of them back, in an order that is an argument.
pub mod Shapes
use gen_utp.Base.{
  ℕ, Bool, true, false, Option, some, none, List, [], ◌∷◌, ◌++◌, if◌then◌else◌, ℤ, is_minus_one,
  not, Result, ok, ◌>>=◌,
}
use gen_utp.Driver.Queue.{DrvQueue}
use gen_utp.Connection.Defs.{UtpState, UtpHandler, Event, Stepped}
use gen_utp.Connection.Callbacks.{WriteRun, do_write, do_read, do_state_change, do_error}
use gen_utp.Connection.Peers.{do_incoming}
use gen_utp.Connection.Sending.{Sent, Outcome, done, failed, going_on, do_send_to}

-- `utp_read` with the bytes, `utp_write` with a count, `utp_get_rb_size`, `utp_state_change` with what libutp
-- does in a `UTP_Write`, `utp_error`, `utp_overhead`, `utp_incoming`, and `send_to` with the length of a
-- datagram and the answers of the kernel.
pub data Callback : Type 0 where
  utp_read : List ℕ → Callback
  utp_write : ℕ → Callback
  utp_get_rb_size : Callback
  utp_state_change : UtpState → WriteRun → Callback
  utp_error : ℕ → Callback
  utp_overhead : Callback
  utp_incoming : ℕ → Callback
  send_to : ℕ → List Sent → Callback

module _ (d : DrvQueue) where
  open d use {Queue}

  abbrev pub unmoved : UtpHandler Queue → Stepped Queue
  unmoved h = record { after = h; events = [] }

  -- `do_send_to` calls `do_error` when a send fails for good.
  abbrev pub after_send : Outcome → UtpHandler Queue → Stepped Queue
  after_send done h = unmoved h
  after_send (failed errno) h = do_error d errno h
  after_send going_on h = unmoved h

  -- `do_incoming` of a `Server`, and of a `Client`.
  abbrev pub incoming : Bool → ℕ → UtpHandler Queue → Stepped Queue
  incoming true u h = do_incoming u h
  incoming false u h = unmoved h

  -- One call; `is_server` tells a `Server` from a `Client`.
  unfoldable pub call_back : Bool → Callback → UtpHandler Queue → Result (Stepped Queue)
  unfolding do_write do_read do_state_change do_error do_incoming do_send_to is_minus_one
  call_back is_server (utp_read bytes) h = do_read d bytes h
  call_back is_server (utp_write n) h = do
    (wq, copied) ← do_write n h.write_queue
    ok (unmoved (record h { write_queue = wq }))
  call_back is_server utp_get_rb_size h = ok (unmoved h)
  call_back is_server (utp_state_change st w) h = do_state_change d st w h
  call_back is_server (utp_error errcode) h = ok (do_error d errcode h)
  call_back is_server utp_overhead h = ok (unmoved h)
  call_back is_server (utp_incoming u) h = ok (incoming is_server u h)
  call_back is_server (send_to len answers) h =
      ok (after_send (do_send_to (not (is_minus_one h.udp_sock)) len answers).1 h)

  unfoldable pub call_backs : Bool → List Callback → UtpHandler Queue → Result (Stepped Queue)
  unfolding call_back
  call_backs is_server [] h = ok (unmoved h)
  call_backs is_server (c ∷ cs) h = do
    first ← call_back is_server c h
    rest ← call_backs is_server cs first.after
    ok (record { after = rest.after; events = first.events ++ rest.events })

  -- `input_ready`, with the datagram, or none if `recvfrom` fails, and what `UTP_IsIncomingUTP` calls back.
  unfoldable pub input_ready :
      Bool → Option (List ℕ) → List Callback → UtpHandler Queue → Result (Stepped Queue)
  unfolding call_backs
  input_ready is_server none cs h = ok (unmoved h)
  input_ready is_server (some []) cs h = ok (unmoved h)
  input_ready is_server (some (b ∷ bytes)) cs h = call_backs is_server cs h
