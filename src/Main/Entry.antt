-- ===== src/Main/Entry.antt =====
-- utpdrv.cc: the entry points of the driver that are called for a port or for a process. The runtime calls each
-- with the port's `MainHandler`, which is a number here; `ports` has those that were started, or made for a
-- server, and not stopped. `lingering` has the connections that outlive their port, each under its own number.
use gen_utp.Base.{
  ℕ, Bool, true, false, Option, some, none, List, [], ◌∷◌, ◌==◌, if◌then◌else◌, Result, ok, ◌>>=◌,
  lookup, insert, erase,
}
use gen_utp.Coder.Defs.{Ei}
use gen_utp.Driver.Defs.{Reply}
use gen_utp.Driver.Queue.{DrvQueue}
use gen_utp.Connection.Callbacks.{WriteRun}
use gen_utp.Connection.Control.{Command, World}
use gen_utp.Connection.Defs.{Event, deleted}
use gen_utp.Connection.Output.{IoVec}
use gen_utp.Main.Registry.{Registry, start, exited}
use gen_utp.Main.Requests.{Handler, MainHandler, Outside}
use gen_utp.Main.Dispatch.{control, stop, outputv, process_exited}

pub record Driver (Q : Type 0) : Type 0 where
  pub main : Option Registry
  pub ports : List (ℕ × MainHandler Q)
  pub lingering : List (ℕ × Handler Q)

abbrev pub no_driver : {Q : Type 0} → Driver Q
no_driver = record { main = none; ports = []; lingering = [] }

-- `utp_start` of a new object for a port.
unfoldable pub utp_start : {Q : Type 0} → ℕ → ℕ → Driver Q → Driver Q
unfolding start
utp_start this port s = record s {
  main = start this port s.main;
  ports = insert this (record { port = port; delegatee = none }) s.ports;
}

abbrev pub replace :
    {Q : Type 0} → ℕ → MainHandler Q → List (ℕ × MainHandler Q) → List (ℕ × MainHandler Q)
replace this h ports = (this, h) ∷ erase this ports

-- The delegatee with a number, wherever it is, and what it does when its monitor tells it of an exit.
abbrev pub told_of : {Q : Type 0} → ℕ → ℕ → ℕ → MainHandler Q → MainHandler Q
told_of n proc connected h = record h {
  delegatee = elim h.delegatee [
    | none ↦ none
    | some (n', hd) ↦ some (n', if n' == n then (process_exited proc connected hd).0 else hd)
  ];
}

abbrev pub tell :
    {Q : Type 0} → Option ℕ → ℕ → ℕ → List (ℕ × MainHandler Q) → List (ℕ × MainHandler Q)
tell none proc connected ports = ports
tell (some n) proc connected [] = []
tell (some n) proc connected ((k, h) ∷ ports) =
    (k, told_of n proc connected h) ∷ tell (some n) proc connected ports

-- `utp_process_exit`
unfoldable pub utp_process_exit : {Q : Type 0} → ℕ → ℕ → ℕ → Driver Q → Driver Q
unfolding exited process_exited
utp_process_exit mon proc connected s = elim s.main [
  | none ↦ s
  | some m ↦
      let (told, m') = exited mon proc m in
      record s { main = some m'; ports = tell told proc connected s.ports }
]

unfoldable pub is_deleted : List Event → Bool
is_deleted [] = false
is_deleted (deleted ∷ events) = true
is_deleted (e ∷ events) = is_deleted events

-- The connection of a port that stops, unless it is deleted at once.
abbrev pub lingers :
    {Q : Type 0} → Option (ℕ × Handler Q) → List Event → List (ℕ × Handler Q) → List (ℕ × Handler Q)
lingers none events others = others
lingers (some (n, h)) events others = if is_deleted events then others else (n, h) ∷ others

module _ (d : DrvQueue) where
  open d use {Queue}

  -- `utp_stop`
  abbrev pub stop_port : Option (MainHandler Queue) → ℕ → Driver Queue → Driver Queue
  stop_port none this s = s
  stop_port (some h) this s =
      let e = stop d this h s.main in
      record {
        main = e.main;
        ports = erase this s.ports;
        lingering = lingers e.left e.events s.lingering;
      }

  unfoldable pub utp_stop : ℕ → Driver Queue → Driver Queue
  unfolding stop is_deleted
  utp_stop this s = stop_port (lookup this s.ports) this s

  -- The request is made of the handler `this`.
  abbrev pub own : ℕ → Outside Queue → Outside Queue
  own this w = record w { this = this }

  -- `utp_control`
  abbrev pub control_port :
      Option (MainHandler Queue)
      → ℕ
      → Command
      → Ei
      → Outside Queue
      → World
      → Option ℕ
      → List ℕ
      → ℕ
      → Driver Queue
      → Result (Driver Queue × Reply)
  control_port none this command ei w world answer buf len s = ok (s, Reply.nothing)
  control_port (some h) this command ei w world answer buf len s = do
    r ← control d command ei (own this w) world answer buf len h s.main
    ok (record s { main = r.main; ports = replace this r.handler s.ports }, r.reply)

  unfoldable pub utp_control :
      ℕ
      → Command
      → Ei
      → Outside Queue
      → World
      → Option ℕ
      → List ℕ
      → ℕ
      → Driver Queue
      → Result (Driver Queue × Reply)
  unfolding control
  utp_control this command ei w world answer buf len s =
      control_port (lookup this s.ports) this command ei w world answer buf len s

  -- `utp_outputv`
  abbrev pub output_port :
      Option (MainHandler Queue)
      → ℕ
      → ℕ
      → ℕ
      → WriteRun
      → IoVec
      → Driver Queue
      → Result (Driver Queue)
  output_port none this from id wr ev s = ok s
  output_port (some h) this from id wr ev s = do
    (h', events) ← outputv d from id wr ev h
    ok (record s { ports = replace this h' s.ports })

  unfoldable pub utp_outputv : ℕ → ℕ → ℕ → WriteRun → IoVec → Driver Queue → Result (Driver Queue)
  unfolding outputv
  utp_outputv this from id wr ev s = output_port (lookup this s.ports) this from id wr ev s
