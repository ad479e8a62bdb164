-- ===== src/Listener/Tests.antt =====
-- Inputs for listener.cc, and the theorems at them.
use gen_utp.Base.{
  ℕ, lookup, insert, ◌/◌, ◌≤◌, ◌≡◌, ◌≢◌, refl, true, false, some, none, List, [], ◌∷◌, length, ℤ,
  arith,
}
use gen_utp.Address.{zero_addr}
use gen_utp.Coder.BinaryFormat.{binary_format}
use gen_utp.Coder.Arguments.{binary_argument}
use gen_utp.Monitors.{no_monitors, add_mon}
use gen_utp.Options.Defs.{default_opts}
use gen_utp.Sockets.Opening.{Calls}
use gen_utp.Main.Registry.{Registry, exited, add_monitor}
use gen_utp.Listener.Defs.{Acceptor, Listener, accept}
use gen_utp.Listener.Incoming.{Arrival, Served, input_ready}
use gen_utp.Listener.Queue.{refs_of}
use gen_utp.Listener.Steps.{accepting, step}
use gen_utp.Listener.Reachable.{Reachable, begin, next, Reachable-told}
use gen_utp.Listener.Service.{interrupted, input_ready-closed}

-- The process 7 waits with the reference 1, the process 8 with 2, and 7 again with 3.
abbrev three_wait : List Acceptor
three_wait =
    record { caller = 7; ref = 1 ∷ [] }
    ∷ record { caller = 8; ref = 2 ∷ [] }
    ∷ record { caller = 7; ref = 3 ∷ [] }
    ∷ []

abbrev idle : Listener (List (List ℕ))
idle = record {
  sock = record {
    drv_port = 4;
    queue = [];
    read_count = [];
    sockopts = default_opts;
    udp_sock = ℤ.pos 5;
    close_pending = false;
    selected = true;
  };
  acceptor_queue = [];
  my_addr = zero_addr;
}

abbrev busy : Listener (List (List ℕ))
busy = record idle { acceptor_queue = three_wait }

-- A socket that is opened and cannot be bound.
abbrev unbound : Calls
unbound = record {
  socket = some 6;
  fcntl_ok = true;
  setsockopt_ok = true;
  bind_ok = false;
  errno = 98;
}

abbrev bound : Calls
bound = record unbound { bind_ok = true }

-- A signal interrupts `connect` twice, and then it succeeds.
abbrev arrival : Arrival (List (List ℕ))
arrival = record {
  datagram = some (65 ∷ 0 ∷ []);
  calls = bound;
  connects = interrupted 2 (none ∷ []);
  is_utp = true;
  incoming = 9 ∷ [];
  new_port = 12;
  queue = [];
  server = 20;
  handler = 21;
}

econnrefused_apart : ◌≢◌ {A = ℕ} 111 4
econnrefused_apart e = omega arith

abbrev refused_arrival : Arrival (List (List ℕ))
refused_arrival = record arrival { calls = unbound; connects = some 111 ∷ [] }

input_ready-closed_example :
    (r : Served (List (List ℕ))) × (input_ready refused_arrival busy none ≡ some r)
    × (r.closed ≡ ℤ.pos 6 ∷ ℤ.pos 6 ∷ [])
input_ready-closed_example =
    input_ready-closed refused_arrival 6 65 111 (0 ∷ []) [] (record { caller = 7; ref = 1 ∷ [] })
      (record { caller = 8; ref = 2 ∷ [] } ∷ record { caller = 7; ref = 3 ∷ [] } ∷ []) busy none
      refl refl refl refl econnrefused_apart refl

-- The monitor n watches the process n / 10, and the process 7 asks to be told of a connection.
abbrev owner : ℕ → ℕ
owner n = n / 10

abbrev alone : Registry
alone = record { this = 0; port = 1; fdmap = []; monitors = no_monitors }

-- A binary of one byte.
abbrev request : List ℕ
request = 131 ∷ 109 ∷ 0 ∷ 0 ∷ 0 ∷ 1 ∷ 42 ∷ []

abbrev one_waits : Listener (List (List ℕ))
one_waits = record idle { acceptor_queue = record { caller = 7; ref = 42 ∷ [] } ∷ [] }

abbrev one_watched : Registry
one_watched = record alone {
  monitors = record { mon_map = (70, 3) ∷ []; proc_mon_map = (7, 70) ∷ [] };
}

one_waits-Reachable : Reachable binary_format 3 owner (one_waits, some one_watched)
unfolding step accept binary_argument add_monitor add_mon lookup insert
one_waits-Reachable =
    next (accepting request 7 7 (some 70)) (idle, some alone) (begin idle alone refl refl)
      (refl, refl)

one_place : 1 ≤ length (refs_of 7 one_waits.acceptor_queue)
unfolding refs_of
one_place = omega arith

Reachable-told_example : (mon : ℕ) × (owner mon ≡ 7) × ((exited mon 7 one_watched).0 ≡ some 3)
Reachable-told_example =
    Reachable-told binary_format 3 owner one_waits one_watched one_waits-Reachable 7 one_place
