-- ===== src/Main/Dispatch.antt =====
-- main_handler.cc: what a port's `MainHandler` passes to its delegatee, and `stop`. utpdrv.cc calls these
-- methods and no others.
use gen_utp.Base.{
  Bool, false, not, ◌++◌, ◌==◌, ℕ, Option, some, none, List, [], ◌∷◌, Result, ok, ◌>>=◌,
}
use gen_utp.Coder.Defs.{Ei}
use gen_utp.Driver.Defs.{lit, encode_error}
use gen_utp.Driver.Queue.{DrvQueue}
use gen_utp.Connection.Defs.{Event, message, stop_input, deleted}
use gen_utp.Connection.Callbacks.{WriteRun}
use gen_utp.Connection.Control.{Command, utp_listen, utp_connect_start, World, Answered}
use gen_utp.Connection.Control
use gen_utp.Connection.Output.{IoVec}
use gen_utp.Connection.Output
use gen_utp.Listener.Defs.{Listener, Handled, Stopped}
use gen_utp.Listener.Defs
use gen_utp.Main.Registry.{Registry, Selection, del_monitors, stop_main}
use gen_utp.Main.Registry
use gen_utp.Main.Requests.{
  Handler, listener, connection, MainHandler, Outside, Attached, failing, listen, connect_start,
}

-- What `stop` leaves: the connection, which lives on until libutp is done with it, with its events; the main
-- handler; the calls of `driver_select`; the keys of the descriptors that the main handler turns off; the monitors ended.
pub record Ended (Q : Type 0) : Type 0 where
  pub left : Option (ℕ × Handler Q)
  pub events : List Event
  pub main : Option Registry
  pub selections : List Selection
  pub turned_off : List ℕ
  pub demonitored : List ℕ

-- What the events of a connection do to the main handler: it may have its input turned off, and its destructor
-- ends its monitors.
unfoldable pub effects : ℕ → List Event → Option Registry → Option Registry × List Selection
unfolding Registry.stop_input del_monitors
effects n [] main = (main, [])
effects n (stop_input fd ∷ events) main =
    let (main', es) = Registry.stop_input fd main in
    let (last, more) = effects n events main' in (last, es ++ more)
effects n (deleted ∷ events) main = effects n events (del_monitors n main).0
effects n (e ∷ events) main = effects n events main

module _ (d : DrvQueue) where
  open d use {Queue}

  abbrev pub from_listener : ℕ → ℕ → Handled Queue → Attached Queue
  from_listener port n r = record {
    handler = record { port = port; delegatee = some (n, listener r.listener) };
    main = r.main;
    selections = [];
    events = [];
    peer = none;
    demonitored = r.demonitored;
    messages = r.messages;
    closed = [];
    reply = r.reply;
  }

  abbrev pub from_connection : ℕ → ℕ → Bool → Option Registry → Answered Queue → Attached Queue
  from_connection port n is_server main r = record {
    handler = record { port = port; delegatee = some (n, connection is_server r.after) };
    main = main;
    selections = [];
    events = r.events;
    peer = none;
    demonitored = [];
    messages = [];
    closed = [];
    reply = r.reply;
  }

  -- `control` of a port without a delegatee.
  abbrev pub own_control :
      Command
      → Ei
      → Outside Queue
      → List ℕ
      → ℕ
      → MainHandler Queue
      → Option Registry
      → Result (Attached Queue)
  own_control utp_listen ei w buf len h main = listen w ei buf len h main
  own_control utp_connect_start ei w buf len h main = connect_start w ei buf len h main
  own_control _ ei w buf len h main = ok (failing h main [] (encode_error (lit "enotsup")))

  abbrev pub pass_control :
      Option (ℕ × Handler Queue)
      → Command
      → Ei
      → Outside Queue
      → World
      → Option ℕ
      → List ℕ
      → ℕ
      → MainHandler Queue
      → Option Registry
      → Result (Attached Queue)
  pass_control none command ei w world answer buf len h main =
      own_control command ei w buf len h main
  pass_control (some (n, listener l)) command ei w world answer buf len h main = do
    r ← Defs.control n d command ei world answer buf len l main
    ok (from_listener h.port n r)
  pass_control (some (n, connection is_server c)) command ei w world answer buf len h main = do
    r ← Control.control d (not is_server) command ei world buf len c
    ok (from_connection h.port n is_server main r)

  -- `control`
  unfoldable pub control :
      Command
      → Ei
      → Outside Queue
      → World
      → Option ℕ
      → List ℕ
      → ℕ
      → MainHandler Queue
      → Option Registry
      → Result (Attached Queue)
  unfolding listen connect_start encode_error Defs.control Control.control
  control command ei w world answer buf len h main =
      pass_control h.delegatee command ei w world answer buf len h main

  abbrev pub stop_delegatee : Option (ℕ × Handler Queue) → Option Registry → Ended Queue
  stop_delegatee none main = record {
    left = none;
    events = [];
    main = main;
    selections = [];
    turned_off = [];
    demonitored = [];
  }
  stop_delegatee (some (n, listener l)) main =
      let s = Defs.stop n l main in
      record {
        left = none;
        events = [];
        main = s.main;
        selections = s.selections;
        turned_off = [];
        demonitored = s.demonitored;
      }
  stop_delegatee (some (n, connection is_server c)) main =
      let s = Control.stop d c in
      let (main', es) = effects n s.events main in
      record {
        left = some (n, connection is_server s.after);
        events = s.events;
        main = main';
        selections = es;
        turned_off = [];
        demonitored = [];
      }

  -- `stop` of the handler `this`.
  unfoldable pub stop : ℕ → MainHandler Queue → Option Registry → Ended Queue
  unfolding Defs.stop Control.stop stop_main
  stop this h main =
      let e = stop_delegatee h.delegatee main in
      let (main', off) = stop_main this e.main in record e { main = main'; turned_off = off }

  -- `outputv` of data that a process sends; `id` and `wr` are as for the client.
  abbrev pub pass_output :
      Option (ℕ × Handler Queue)
      → ℕ
      → ℕ
      → WriteRun
      → IoVec
      → MainHandler Queue
      → Result (MainHandler Queue × List Event)
  pass_output none from id wr ev h = ok (h, [])
  pass_output (some (n, listener l)) from id wr ev h = ok (h, message (Defs.outputv from l) ∷ [])
  pass_output (some (n, connection is_server c)) from id wr ev h = do
    s ← Output.outputv from id wr ev c
    ok (record { port = h.port; delegatee = some (n, connection is_server s.after) }, s.events)

  unfoldable pub outputv :
      ℕ → ℕ → WriteRun → IoVec → MainHandler Queue → Result (MainHandler Queue × List Event)
  unfolding Defs.outputv Output.outputv
  outputv from id wr ev h = pass_output h.delegatee from id wr ev h

-- What the handler that a monitor tells does: `Listener::process_exited`, or `Handler::process_exited`, which
-- ends the port if it was its owner that exited. `connected` is what `driver_connected` returns.
unfoldable pub process_exited : {Q : Type 0} → ℕ → ℕ → Handler Q → Handler Q × Bool
unfolding Defs.process_exited
process_exited proc connected (listener l) = (listener (Defs.process_exited proc l), false)
process_exited proc connected (connection is_server c) = (connection is_server c, proc == connected)
