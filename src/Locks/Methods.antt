-- ===== src/Locks/Methods.antt =====
-- The methods of the driver as what they do with the mutexes and with what these guard, in the order of the
-- code: main_handler.cc, listener.cc, socket_handler.cc, utp_handler.cc, client.cc. What a test of the code
-- finds is an argument, named after the test. The tracing, the runtime's calls, which take no mutex of the
-- driver, and the fields of a connection are left out.
use gen_utp.Base.{ℕ, Bool, false, if◌then◌else◌, List, [], ◌∷◌, ◌++◌}
use gen_utp.Locks.{
  Act, uses, queue_mutex, utp_mutex, map_mutex, monitors, fdmap, acceptor_queue, libutp, locked,
}

-- One part of a method after another.
infixr 65 ◌⨟◌
abbrev pub ◌⨟◌ : List Act → List Act → List Act
xs ⨟ ys = xs ++ ys

-- A block that runs when a test is true.
abbrev pub when : Bool → List Act → List Act
when b acts = if b then acts else []

-- The static methods of the main handler; `main` is whether `main_handler` is set. The map of descriptors is
-- changed under the mutex, after the call of `driver_select`.
unfoldable pub start_input : Bool → List Act
start_input main = when main (locked map_mutex (uses fdmap ∷ []))

unfoldable pub stop_input : Bool → Bool → List Act
stop_input main valid = when main (when valid (locked map_mutex (uses fdmap ∷ [])))

unfoldable pub add_monitor : Bool → List Act
add_monitor main = when main (locked map_mutex (uses monitors ∷ []))

unfoldable pub del_monitor : Bool → List Act
del_monitor main = when main (locked map_mutex (uses monitors ∷ []))

-- Called by `~SocketHandler`, and so by each `delete` of a handler of a socket.
unfoldable pub del_monitors : Bool → List Act
del_monitors main = when main (locked map_mutex (uses monitors ∷ []))

-- `SocketHandler::set_port`.
unfoldable pub set_port : Bool → Bool → List Act
set_port main selected = if selected then [] else start_input main

-- One call of libutp to a `UtpHandler` while the mutex of libutp is held: whether it comes to `stop_input`,
-- as `do_state_change` does for a selected handler that is destroyed, and with a descriptor that is valid,
-- whether it calls libutp in turn, to write, to close or to set the callbacks, and whether the handler is
-- deleted.
pub record Callback : Type 0 where
  pub deselects : Bool
  pub is_valid : Bool
  pub calls_libutp : Bool
  pub deletes : Bool

unfoldable pub call_back : Bool → Callback → List Act
call_back main c =
    when c.deselects (stop_input main c.is_valid)
    ⨟ when c.calls_libutp (uses libutp ∷ [])
    ⨟ when c.deletes (del_monitors main)

-- A call of libutp, with the calls back that it makes before it returns; one that is made from within
-- another follows it in the list.
unfoldable pub call_libutp : Bool → List Callback → List Act
call_libutp main [] = uses libutp ∷ []
call_libutp main (c ∷ callbacks) = uses libutp ∷ call_back main c ⨟ call_libutp main callbacks

-- MainHandler
unfoldable pub check_utp_timeouts : Bool → List Callback → List Act
check_utp_timeouts main callbacks = when main (locked utp_mutex (call_libutp main callbacks))

unfoldable pub start : List Act
start = locked utp_mutex []

-- The map is walked when this is the main handler, it has a port and the map is not empty, with the mutex of
-- libutp alone.
unfoldable pub stop : List Act → Bool → List Act
stop delegatee_stop walks = delegatee_stop ⨟ locked utp_mutex (when walks (uses fdmap ∷ []))

unfoldable pub ready_input : List Act → List Act
ready_input input_ready = locked map_mutex (uses fdmap ∷ []) ⨟ input_ready

unfoldable pub process_exit : List Act → List Act
process_exit process_exited = locked map_mutex (uses monitors ∷ []) ⨟ process_exited

-- Listener
unfoldable pub accept : ℕ → Bool → Bool → List Act
accept n main added =
    add_monitor main ⨟ when added (locked (queue_mutex n) (uses (acceptor_queue n) ∷ []))

unfoldable pub cancel_accept : ℕ → Bool → Bool → List Act
cancel_accept n main found =
    locked (queue_mutex n)
      (uses (acceptor_queue n) ∷ when found (del_monitor main ⨟ uses (acceptor_queue n) ∷ []))

unfoldable pub process_exited : ℕ → List Act
process_exited n = locked (queue_mutex n) (uses (acceptor_queue n) ∷ [])

-- The end of `stop` is `delete this`: `~Listener` destroys the mutex of the queue, and then the queue goes, with
-- no mutex held, before `~SocketHandler`.
unfoldable pub stop_listener : ℕ → Bool → Bool → Bool → List Act
stop_listener n main selected valid =
    when selected (stop_input main valid) ⨟ uses (acceptor_queue n) ∷ del_monitors main

-- The ends of `input_ready`: no datagram; no acceptor, or no socket for one; a `connect` that fails; a
-- datagram that libutp takes, when the new server is selected or not; one that it does not, when the server
-- is deleted, and by the handler of its port again.
pub data Arrival : Type 0 where
  no_datagram : Arrival
  no_acceptor : Arrival
  connect_fails : Arrival
  incoming : List Callback → Bool → Arrival
  not_utp : List Callback → Arrival

unfoldable pub listener_input_ready : ℕ → Bool → Arrival → List Act
listener_input_ready n main no_datagram = []
listener_input_ready n main no_acceptor = locked (queue_mutex n) (uses (acceptor_queue n) ∷ [])
listener_input_ready n main connect_fails = locked (queue_mutex n) (
    uses (acceptor_queue n) ∷ uses (acceptor_queue n) ∷ del_monitor main
    ⨟ uses (acceptor_queue n) ∷ [])
listener_input_ready n main (incoming callbacks selected) = locked (queue_mutex n) (
    uses (acceptor_queue n) ∷ locked utp_mutex (call_libutp main callbacks)
    ⨟ uses (acceptor_queue n) ∷ del_monitor main
    ⨟ set_port main selected
    ⨟ uses (acceptor_queue n) ∷ [])
listener_input_ready n main (not_utp callbacks) = locked (queue_mutex n) (
    uses (acceptor_queue n) ∷ locked utp_mutex (call_libutp main callbacks)
    ⨟ del_monitors main
    ⨟ del_monitors main)

-- UtpHandler and Client
unfoldable pub input_ready : Bool → Bool → List Callback → List Act
input_ready main received callbacks = when received (locked utp_mutex (call_libutp main callbacks))

unfoldable pub peername : Bool → List Act
peername is_connected = when is_connected (locked utp_mutex (uses libutp ∷ []))

-- `outputv` of a connection: with nothing to write to, with a call of `UTP_Write`, with a caller refused at
-- once, and with one that waits.
pub data Output : Type 0 where
  not_connected times_out waits : Output
  writes : List Callback → Output

unfoldable pub outputv : Bool → Output → List Act
outputv main not_connected = []
outputv main times_out = []
outputv main waits = locked utp_mutex []
outputv main (writes callbacks) = locked utp_mutex (call_libutp main callbacks)

-- `close_utp`: `UTP_Close` unless the handler has no socket, is destroyed or has data to write.
unfoldable pub close_utp : Bool → Bool → List Callback → List Act
close_utp main closes callbacks = when closes (call_libutp main callbacks)

unfoldable pub stop_connection : Bool → Bool → Bool → Bool → List Callback → List Act
stop_connection main has_utp closes destroying callbacks =
    when has_utp (locked utp_mutex (close_utp main closes callbacks))
    ⨟ when destroying (del_monitors main)

-- The argument is decoded, and refused, while the mutex is held.
unfoldable pub close : Bool → Bool → Bool → Bool → List Callback → List Act
close main may_close decoded closes callbacks =
    when may_close (locked utp_mutex (when decoded (close_utp main closes callbacks)))

unfoldable pub recv : Bool → Bool → Bool → List Callback → List Act
recv main sent drained callbacks =
    if sent
    then when drained (locked utp_mutex (call_libutp main callbacks))
    else locked utp_mutex []

unfoldable pub cancel_send : List Act
cancel_send = locked utp_mutex []

unfoldable pub cancel_recv : List Act
cancel_recv = locked utp_mutex []

-- `SocketHandler::setopts`.
unfoldable pub socket_setopts : Bool → List Act
socket_setopts valid = when valid (locked utp_mutex [])

-- `UtpHandler::setopts` sets the sizes of the buffers of libutp that have changed, without a mutex.
unfoldable pub setopts : Bool → Bool → Bool → List Act
setopts valid sndbuf_changed recbuf_changed =
    socket_setopts valid
    ⨟ when sndbuf_changed (uses libutp ∷ [])
    ⨟ when recbuf_changed (uses libutp ∷ [])

-- `UTP_Create`, the three calls of `set_utp_callbacks`, and `UTP_Connect`.
unfoldable pub connect_to : Bool → List Callback → List Act
connect_to main callbacks =
    locked utp_mutex
      (uses libutp ∷ uses libutp ∷ uses libutp ∷ uses libutp ∷ call_libutp main callbacks)

-- `listen` and `connect_start` where the request is good and the socket open: `set_port` of the new handler,
-- which is not selected yet.
unfoldable pub listen : Bool → Bool → List Act
listen main opened = when opened (set_port main false)

unfoldable pub connect_start : Bool → Bool → List Callback → List Act
connect_start main opened callbacks = when opened (set_port main false ⨟ connect_to main callbacks)
