-- ===== src/Main/Input.antt =====
-- utpdrv.cc: the entry points that the runtime calls when a descriptor is ready or the timer runs out,
-- `utp_ready_input` and `utp_check_timeouts`, with what the handlers do then. What libutp calls back is an
-- argument; it calls back the connection whose input it is, or at a timeout any of them.
use gen_utp.Base.{
  ℕ, Bool, true, false, Option, some, none, List, [], ◌∷◌, ◌==◌, if◌then◌else◌, ℤ, Result, ok,
  ◌>>=◌, lookup, insert, erase,
}
use gen_utp.Driver.Queue.{DrvQueue}
use gen_utp.Connection.Defs.{UtpHandler, Stepped}
use gen_utp.Connection.Incoming.{Callback, call_backs}
use gen_utp.Connection.Incoming
use gen_utp.Listener.Incoming.{Arrival, Served}
use gen_utp.Listener.Incoming as Arriving
use gen_utp.Main.Registry.{Registry}
use gen_utp.Main.Registry
use gen_utp.Main.Requests.{Handler, listener, connection, MainHandler}
use gen_utp.Main.Dispatch.{effects}
use gen_utp.Main.Entry.{Driver, replace, is_deleted}

-- What arrives: for a listener, and for a connection the datagram, or none if `recvfrom` fails, with what
-- libutp calls back.
pub record Input (Q : Type 0) : Type 0 where
  pub arrival : Arrival Q
  pub datagram : Option (List ℕ)
  pub callbacks : List Callback

module _ {Q : Type 0} where
  -- The port that has the handler with a number.
  abbrev pub found_in :
      ℕ
      → ℕ
      → MainHandler Q
      → Option (ℕ × Handler Q)
      → Option (ℕ × MainHandler Q × Handler Q)
      → Option (ℕ × MainHandler Q × Handler Q)
  found_in n k h none rest = rest
  found_in n k h (some (n', hd)) rest = if n' == n then some (k, h, hd) else rest

  unfoldable pub port_of : ℕ → List (ℕ × MainHandler Q) → Option (ℕ × MainHandler Q × Handler Q)
  port_of n [] = none
  port_of n ((k, h) ∷ ports) = found_in n k h h.delegatee (port_of n ports)

  -- What a connection leaves, as the delegatee of an open port and on its own. `delete this` is for one whose
  -- port has stopped.
  abbrev pub moved_port : ℕ → MainHandler Q → ℕ → Bool → Stepped Q → Driver Q → Driver Q
  moved_port k h n is_server st s = record s {
    main = (effects n st.events s.main).0;
    ports = replace k (record h { delegatee = some (n, connection is_server st.after) }) s.ports;
  }

  abbrev pub moved_lingering : ℕ → Bool → Stepped Q → Driver Q → Driver Q
  moved_lingering n is_server st s =
      let others = erase n s.lingering in
      record s {
        main = (effects n st.events s.main).0;
        lingering =
            if is_deleted st.events then others else (n, connection is_server st.after) ∷ others;
      }

  abbrev pub run_lingering :
      (Bool → UtpHandler Q → Result (Stepped Q))
      → Option (Handler Q)
      → ℕ
      → Driver Q
      → Result (Driver Q)
  run_lingering f (some (connection b c)) n s = do st ← f b c; ok (moved_lingering n b st s)
  run_lingering f (some (listener l)) n s = ok s
  run_lingering f none n s = ok s

  -- The connection with a number does something, wherever it is.
  abbrev pub run_connection :
      (Bool → UtpHandler Q → Result (Stepped Q))
      → Option (ℕ × MainHandler Q × Handler Q)
      → ℕ
      → Driver Q
      → Result (Driver Q)
  run_connection f (some (k, h, connection b c)) n s = do st ← f b c; ok (moved_port k h n b st s)
  run_connection f (some (k, h, listener l)) n s = ok s
  run_connection f none n s = run_lingering f (lookup n s.lingering) n s

  -- The port that a listener makes for a new server.
  abbrev pub with_server :
      Option (UtpHandler Q) → Arrival Q → List (ℕ × MainHandler Q) → List (ℕ × MainHandler Q)
  with_server none a ports = ports
  with_server (some sv) a ports =
      insert a.handler (record { port = 0; delegatee = some (a.server, connection true sv) }) ports

  -- What a listener leaves; none while it calls `connect` again and again.
  abbrev pub listened :
      Option (Served Q) → ℕ → MainHandler Q → ℕ → Arrival Q → Driver Q → Option (Result (Driver Q))
  listened none k h n a s = none
  listened (some r) k h n a s =
      let ports = replace k (record h { delegatee = some (n, listener r.listener) }) s.ports in
      some (ok (record s { main = r.main; ports = with_server r.started a ports }))

module _ (d : DrvQueue) where
  open d use {Queue}

  -- `input_ready` of the handler.
  abbrev pub handler_input :
      Option (ℕ × MainHandler Queue × Handler Queue)
      → ℕ
      → Input Queue
      → Driver Queue
      → Option (Result (Driver Queue))
  handler_input (some (k, h, listener l)) n i s =
      listened (Arriving.input_ready i.arrival l s.main) k h n i.arrival s
  handler_input p n i s =
      some (run_connection (λ b h. Incoming.input_ready d b i.datagram i.callbacks h) p n s)

  abbrev pub told_input : Option ℕ → Input Queue → Driver Queue → Option (Result (Driver Queue))
  told_input none i s = some (ok s)
  told_input (some n) i s = handler_input (port_of n s.ports) n i s

  -- `ready_input` of the port's handler: only the main handler has descriptors in its map.
  abbrev pub ready_main :
      Option Registry → ℕ → ℤ → Input Queue → Driver Queue → Option (Result (Driver Queue))
  ready_main none this fd i s = some (ok s)
  ready_main (some m) this fd i s =
      let told = told_input (Registry.ready_input fd m) i s in
      if m.this == this then told else some (ok s)

  -- `utp_ready_input`
  unfoldable pub utp_ready_input :
      ℕ → ℤ → Input Queue → Driver Queue → Option (Result (Driver Queue))
  unfolding port_of Arriving.input_ready Incoming.input_ready Registry.ready_input effects
      is_deleted
  utp_ready_input this fd i s = ready_main s.main this fd i s

  -- What libutp calls back at a timeout, connection for connection.
  unfoldable pub timeouts : List (ℕ × List Callback) → Driver Queue → Result (Driver Queue)
  unfolding port_of call_backs effects is_deleted
  timeouts [] s = ok s
  timeouts ((n, cs) ∷ more) s = do
    s' ← run_connection (λ b h. call_backs d b cs h) (port_of n s.ports) n s
    timeouts more s'

  -- `utp_check_timeouts`
  abbrev pub timeouts_if : Bool → List (ℕ × List Callback) → Driver Queue → Result (Driver Queue)
  timeouts_if true calls s = timeouts calls s
  timeouts_if false calls s = ok s

  unfoldable pub utp_check_timeouts :
      List (ℕ × List Callback) → Driver Queue → Result (Driver Queue)
  unfolding timeouts Registry.check_utp_timeouts
  utp_check_timeouts calls s = timeouts_if (Registry.check_utp_timeouts s.main) calls s
