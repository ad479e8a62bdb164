-- ===== src/Main/Tests.antt =====
-- Inputs for main_handler.cc, and the theorems at them.
use gen_utp.Base.{
  ℕ, is_minus_one, ◌≡◌, ◌≢◌, refl, true, lookup, some, none, List, [], ◌∷◌, ℤ, Leaves, arith,
}
use gen_utp.Address.{zero_addr}
use gen_utp.Coder.BinaryFormat.{binary_format}
use gen_utp.Driver.ListQueue.{list_queue}
use gen_utp.Monitors.{no_monitors}
use gen_utp.Monitors.Linked.{IsLinked}
use gen_utp.Options.Defs.{default_opts}
use gen_utp.Connection.Control.{utp_listen, World}
use gen_utp.Main.Registry.{Registry, ready_input}
use gen_utp.Main.Descriptors.{starting, stopping, runs, told, ready_input-runs}
use gen_utp.Main.Requests.{MainHandler, Outside, attach_listener}
use gen_utp.Main.Dispatch.{control, stop}
use gen_utp.Main.Attaching.{Keeps, control-Keeps}
use gen_utp.Main.Replies.{Answers, control-IsReply}
use gen_utp.Main.Ending.{attach_listener-stop}
use gen_utp.Listener.Stopping.{Forgets}
use gen_utp.Main.Entry.{Driver, no_driver, utp_start}
use gen_utp.Main.Registry.{start}
use gen_utp.Base.{insert}
use gen_utp.Main.Started.{Reached, at_first, port_started, Reached-open}

abbrev alone : Registry
alone = record { this = 0; port = 1; fdmap = []; monitors = no_monitors }

-- Two handlers start on one descriptor, which is stopped and started again.
ready_input-runs_example :
    ready_input (ℤ.pos 5) (
      runs
        (starting (ℤ.pos 5) 3
          ∷ starting (ℤ.pos 5) 4
          ∷ stopping (ℤ.pos 5)
          ∷ starting (ℤ.pos 5) 6
          ∷ [])
        alone)
    ≡ told
        (starting (ℤ.pos 5) 3
          ∷ starting (ℤ.pos 5) 4
          ∷ stopping (ℤ.pos 5)
          ∷ starting (ℤ.pos 5) 6
          ∷ [])
        (λ y. ready_input y alone)
        (ℤ.pos 5)
ready_input-runs_example =
    ready_input-runs (ℤ.pos 5)
      (starting (ℤ.pos 5) 3 ∷ starting (ℤ.pos 5) 4 ∷ stopping (ℤ.pos 5) ∷ starting (ℤ.pos 5) 6 ∷ [])
      alone

abbrev outside : Outside (List (List ℕ))
outside = record {
  getaddrinfo = λ s. some zero_addr;
  fd_errno = none;
  calls = λ a. record {
    socket = some 6;
    fcntl_ok = true;
    setsockopt_ok = true;
    bind_ok = true;
    errno = 0;
  };
  my_addr = some zero_addr;
  created = some 9;
  queue = [];
  number = 3;
  this = 2;
}

abbrev world : World
world = record {
  from = 7;
  getaddrinfo = λ s. some zero_addr;
  getnameinfo = λ a. none;
  errno = 0;
  sock_name = none;
  peer_name = zero_addr;
}

abbrev new_port : MainHandler (List (List ℕ))
new_port = record { port = 4; delegatee = none }

-- No options.
abbrev request : List ℕ
request = 131 ∷ 109 ∷ 0 ∷ 0 ∷ 0 ∷ 0 ∷ []

control-Keeps_example :
    Leaves (Keeps outside new_port (some alone)) (
      control list_queue utp_listen binary_format outside world none request 6 new_port
        (some alone))
control-Keeps_example =
    control-Keeps list_queue utp_listen binary_format outside world none request 6 new_port
      (some alone)

control-IsReply_example :
    Leaves Answers (
      control list_queue utp_listen binary_format outside world none request 6 new_port
        (some alone))
control-IsReply_example =
    control-IsReply list_queue utp_listen binary_format outside world none request 6 new_port
      (some alone)

main_apart : ◌≢◌ {A = ℕ} 0 2
main_apart e = omega arith

listener_apart : ◌≢◌ {A = ℕ} 3 0
listener_apart e = omega arith

alone-IsLinked : IsLinked (λ n. n) no_monitors
unfolding lookup
alone-IsLinked = record { monitors = tt; processes = tt; owned = λ p m e. cc; there = λ p m e. cc }

alone-silent : (x : ℤ) → ready_input x alone ≢ some 3
unfolding ready_input lookup
alone-silent x e = cc

attach_listener-stop_example :
    (m' : Registry) × ((stop list_queue 2
        (attach_listener outside (ℤ.pos 6) default_opts zero_addr new_port (some alone)).handler
        (attach_listener outside (ℤ.pos 6) default_opts zero_addr new_port (some alone)).main).main
      ≡ some m')
    × Forgets 3 m'
unfolding is_minus_one
attach_listener-stop_example =
    attach_listener-stop list_queue (λ n. n) 2 outside (ℤ.pos 6) default_opts zero_addr new_port
      alone main_apart listener_apart alone-IsLinked alone-silent refl

-- The driver after the port 4 was started as the first and the port 5 as the second.
abbrev two_started : Driver (List (List ℕ))
two_started = record {
  main = some (record { this = 2; port = 4; fdmap = []; monitors = no_monitors });
  ports =
      (3, record { port = 5; delegatee = none }) ∷ (2, record { port = 4; delegatee = none }) ∷ [];
  lingering = [];
}

two_started-Reached : Reached list_queue binary_format two_started
unfolding utp_start start lookup insert
two_started-Reached =
    port_started 3 5 (utp_start 2 4 (no_driver)) (port_started 2 4 (no_driver) at_first)

Reached-open_example : (h : MainHandler (List (List ℕ))) × (lookup 2 two_started.ports ≡ some h)
Reached-open_example =
    Reached-open list_queue binary_format two_started
      (record { this = 2; port = 4; fdmap = []; monitors = no_monitors }) two_started-Reached refl
