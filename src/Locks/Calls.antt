-- ===== src/Locks/Calls.antt =====
-- The entries of the driver, utpdrv.cc, as the threads of the runtime call them, and every way of the threads
-- to take turns. A call is a method with what its tests find; the requests of `control` that take no mutex,
-- and the refusals of the others, are the call with nothing to do.
use gen_utp.Base.{ℕ, ◌≡◌, Bool, true, false, some, List, [], ◌∷◌, get_elem?, set}
use gen_utp.Locks.{Act, Shared, fdmap, acceptor_queue, libutp, Thread, idle, perform}
use gen_utp.Locks.Methods.{Callback, Arrival, Output}
use gen_utp.Locks.Methods

-- The delegatee of a port that ends: the listener with a number, selected or not, or a connection.
pub data Delegatee : Type 0 where
  no_delegatee : Delegatee
  a_listener : ℕ → Bool → Bool → Delegatee
  a_connection : Bool → Bool → Bool → List Callback → Delegatee

-- Whose input is ready, and who is told of an exit.
pub data Ready : Type 0 where
  nobody : Ready
  at_listener : ℕ → Arrival → Ready
  at_connection : Bool → List Callback → Ready

pub data Exit : Type 0 where
  no_listener : Exit
  of_listener : ℕ → Exit

pub data Call : Type 0 where
  starting : Call
  stopping : Delegatee → Bool → Call
  timing_out : List Callback → Call
  reading : Ready → Call
  exiting : Exit → Call
  writing : Output → Call
  listening : Bool → Call
  connecting : Bool → List Callback → Call
  accepting : ℕ → Bool → Call
  cancelling_accept : ℕ → Bool → Call
  asking_peer : Bool → Call
  closing : Bool → Bool → Bool → List Callback → Call
  receiving : Bool → Bool → List Callback → Call
  cancelling_send cancelling_recv : Call
  setting_listener : Bool → Call
  setting_connection : Bool → Bool → Bool → Call
  answering : Call

-- What a call does while `main` tells whether there is a main handler.
module _ (main : Bool) where
  unfoldable pub delegatee_stop : Delegatee → List Act
  delegatee_stop no_delegatee = []
  delegatee_stop (a_listener n selected valid) = Methods.stop_listener n main selected valid
  delegatee_stop (a_connection has_utp closes destroying callbacks) =
      Methods.stop_connection main has_utp closes destroying callbacks

  unfoldable pub handler_input_ready : Ready → List Act
  handler_input_ready nobody = []
  handler_input_ready (at_listener n arrival) = Methods.listener_input_ready n main arrival
  handler_input_ready (at_connection received callbacks) =
      Methods.input_ready main received callbacks

  unfoldable pub handler_process_exited : Exit → List Act
  handler_process_exited no_listener = []
  handler_process_exited (of_listener n) = Methods.process_exited n

  unfoldable pub acts : Call → List Act
  acts starting = Methods.start
  acts (stopping d walks) = Methods.stop (delegatee_stop d) walks
  acts (timing_out callbacks) = Methods.check_utp_timeouts main callbacks
  acts (reading r) = Methods.ready_input (handler_input_ready r)
  acts (exiting e) = Methods.process_exit (handler_process_exited e)
  acts (writing o) = Methods.outputv main o
  acts (listening opened) = Methods.listen main opened
  acts (connecting opened callbacks) = Methods.connect_start main opened callbacks
  acts (accepting n added) = Methods.accept n main added
  acts (cancelling_accept n found) = Methods.cancel_accept n main found
  acts (asking_peer is_connected) = Methods.peername is_connected
  acts (closing may_close decoded closes callbacks) =
      Methods.close main may_close decoded closes callbacks
  acts (receiving sent drained callbacks) = Methods.recv main sent drained callbacks
  acts cancelling_send = Methods.cancel_send
  acts cancelling_recv = Methods.cancel_recv
  acts (setting_listener valid) = Methods.socket_setopts valid
  acts (setting_connection valid sndbuf recbuf) = Methods.setopts valid sndbuf recbuf
  acts answering = []

-- A listener that is deleted takes its queue with it.
abbrev pub Destroys : (Shared → Bool) → Delegatee → Type 0
Destroys watched (a_listener n selected valid) = watched (acceptor_queue n) ≡ false
Destroys watched d = Unit {0}

-- Three calls touch what they share without its mutex: `stop` of a listener's port, which destroys the queue of
-- acceptors, `stop` of the main handler with descriptors in its map, and `setopts` of a connection with a
-- new size. Where what they touch is watched, they are left out.
unfoldable pub IsAllowed : (Shared → Bool) → Call → Type 0
IsAllowed watched (stopping d true) = (watched fdmap ≡ false) × Destroys watched d
IsAllowed watched (stopping d false) = Destroys watched d
IsAllowed watched (setting_connection valid true recbuf) = watched libutp ≡ false
IsAllowed watched (setting_connection valid sndbuf true) = watched libutp ≡ false
IsAllowed watched c = Unit

-- The threads before any of them is in the driver.
abbrev pub AllIdle : List Thread → Type 0
AllIdle [] = Unit
AllIdle (t ∷ threads) = (t ≡ idle) × AllIdle threads

-- One act of one thread.
pub data Move (c d : List Thread) : Type 0 where
  acts_at :
      (i : ℕ) (t u : Thread)
      → get_elem? c i ≡ some t
      → perform c t.held t.todo ≡ some u
      → d ≡ set c i u
      → Move c d

-- What the threads come to: they begin outside the driver, an idle one may begin a call, and any may act.
pub data Reached (watched : Shared → Bool) : List Thread → Type 0 where
  begins : (c : List Thread) → AllIdle c → Reached watched c
  calls :
      {c : List Thread} (i : ℕ) (main : Bool) (call : Call)
      → IsAllowed watched call
      → get_elem? c i ≡ some idle
      → Reached watched c
      → Reached watched (set c i (record { held = []; todo = acts main call }))
  moves : {c d : List Thread} → Move c d → Reached watched c → Reached watched d
