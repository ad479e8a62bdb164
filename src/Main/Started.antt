-- ===== src/Main/Started.antt =====
-- The whole driver: the main handler is one of the ports that are open.
use gen_utp.Base.{ℕ, ◌≡◌, subst, Option, some, List, ℤ, ok, Leaves, lookup}
use gen_utp.Coder.Defs.{Ei}
use gen_utp.Driver.Defs.{Reply}
use gen_utp.Driver.Queue.{DrvQueue}
use gen_utp.Connection.Callbacks.{WriteRun}
use gen_utp.Connection.Control.{Command, World}
use gen_utp.Connection.Output.{IoVec}
use gen_utp.Main.Registry.{Registry}
use gen_utp.Main.Requests.{MainHandler, Outside}
use gen_utp.Main.Entry.{
  Driver, no_driver, utp_start, utp_stop, utp_control, utp_outputv, utp_process_exit,
}
use gen_utp.Main.Open.{
  OpenIn, MainIsOpen, start-open, stop_port-open, control_port-open, output_port-open, exit-open,
}
use gen_utp.Main.Input.{Input, utp_ready_input, utp_check_timeouts}
use gen_utp.Main.Arriving.{ready_input-open, check_timeouts-open}
use gen_utp.Connection.Incoming.{Callback}

module _ (d : DrvQueue) where
  open d use {Queue}

  -- What the runtime calls, from an empty driver on, where no exception is raised.
  pub data Reached (ei : Ei) : Driver Queue → Type 0 where
    at_first : Reached ei (no_driver)
    port_started :
        (this port : ℕ) (s : Driver Queue) → Reached ei s → Reached ei (utp_start this port s)
    port_stopped : (this : ℕ) (s : Driver Queue) → Reached ei s → Reached ei (utp_stop d this s)
    requested :
        (this : ℕ) (command : Command) (w : Outside Queue) (world : World) (answer : Option ℕ)
        (buf : List ℕ) (len : ℕ) (s s' : Driver Queue) (reply : Reply)
        → Reached ei s
        → utp_control d this command ei w world answer buf len s ≡ ok (s', reply)
        → Reached ei s'
    data_sent :
        (this from id : ℕ) (wr : WriteRun) (ev : IoVec) (s s' : Driver Queue)
        → Reached ei s
        → utp_outputv d this from id wr ev s ≡ ok s'
        → Reached ei s'
    exit_reported :
        (mon proc connected : ℕ) (s : Driver Queue)
        → Reached ei s
        → Reached ei (utp_process_exit mon proc connected s)
    input_arrived :
        (this : ℕ) (fd : ℤ) (i : Input Queue) (s s' : Driver Queue)
        → Reached ei s
        → utp_ready_input d this fd i s ≡ some (ok s')
        → Reached ei s'
    timer_ran_out :
        (calls : List (ℕ × List Callback)) (s s' : Driver Queue)
        → Reached ei s
        → utp_check_timeouts d calls s ≡ ok s'
        → Reached ei s'

  Reached-MainIsOpen : (ei : Ei) (s : Driver Queue) → Reached ei s → MainIsOpen s
  unfolding utp_start utp_stop utp_control utp_outputv
  Reached-MainIsOpen ei _ Reached.at_first = tt
  Reached-MainIsOpen ei _ (Reached.port_started this port s r) =
      start-open d this port s.main s.ports _ (Reached-MainIsOpen ei s r)
  Reached-MainIsOpen ei _ (Reached.port_stopped this s r) =
      stop_port-open d (lookup this s.ports) this s (Reached-MainIsOpen ei s r)
  Reached-MainIsOpen ei _ (Reached.requested this command w world answer buf len s s' reply r e) =
      subst (λ x. Leaves (λ y. MainIsOpen y.0) x) e
        (control_port-open d (lookup this s.ports) this command ei w world answer buf len s
          (Reached-MainIsOpen ei s r))
  Reached-MainIsOpen ei _ (Reached.data_sent this from id wr ev s s' r e) =
      subst (λ x. Leaves MainIsOpen x) e
        (output_port-open d (lookup this s.ports) this from id wr ev s (Reached-MainIsOpen ei s r))
  Reached-MainIsOpen ei _ (Reached.exit_reported mon proc connected s r) =
      exit-open d mon proc connected s.main s.ports (Reached-MainIsOpen ei s r) s.lingering
  Reached-MainIsOpen ei _ (Reached.input_arrived this fd i s s' r e) =
      ready_input-open d this fd i s s' (Reached-MainIsOpen ei s r) e
  Reached-MainIsOpen ei _ (Reached.timer_ran_out calls s s' r e) =
      check_timeouts-open d calls s s' (Reached-MainIsOpen ei s r) e

  -- From an empty driver on, whatever ports are started and stopped, requests and data sent, exits reported,
  -- datagrams received and timeouts run, in any order, with no exception in a request, in data sent, in input
  -- or in a timeout, if there is a main handler then it is a port that was started and is not stopped.
  pub Reached-open :
      (ei : Ei) (s : Driver Queue) (m : Registry)
      → Reached ei s
      → s.main ≡ some m
      → (h : MainHandler Queue) × (lookup m.this s.ports ≡ some h)
  Reached-open ei s m r e = subst (λ main. OpenIn main s.ports) e (Reached-MainIsOpen ei s r)
