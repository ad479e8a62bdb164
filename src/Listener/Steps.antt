-- ===== src/Listener/Steps.antt =====
-- What can happen to a listener, the only one of the driver, and to the main handler with it.
use gen_utp.Base.{
  ℕ, ◌≡◌, ◌≢◌, refl, sym, subst, inl, inr, Bool, true, false, Bool-cases, Option, some, none, List,
  [], ◌∷◌, ℤ, ◌++◌, ◌==◌, if◌then◌else◌, Result, ok, err,
}
use gen_utp.Coder.Defs.{Ei}
use gen_utp.Monitors.{add_mon}
use gen_utp.Monitors.Linked.{IsFresh}
use gen_utp.Monitors.Watches.{del_mons-none}
use gen_utp.Sockets.Opening.{Opened, open_udp_socket}
use gen_utp.Main.Registry.{
  start_input, select, Registry, add_monitor, del_monitor, del_monitors, exited,
}
use gen_utp.Listener.Defs.{
  Acceptor, Listener, cancel_loop, queued, accept_ref, accept, cancelled, cancel_ref, cancel_accept,
  process_exited, del_found,
}
use gen_utp.Listener.Incoming.{
  input_from, Arrival, Served, input_ready, received, waiting, after_connect, connected_to,
  connect_loop, refused, is_negative,
}
use gen_utp.Listener.Queue.{cancel_loop_lem}
use gen_utp.Listener.Watched.{IsWatched, removed-IsWatched, added-IsWatched}

-- `accept` of a buffer with the caller and the answer of `driver_monitor_process`, `cancel_accept`,
-- `input_ready`, and the exit that a monitor reports of a process.
pub data Change (Q : Type 0) : Type 0 where
  accepting : List ℕ → ℕ → ℕ → Option ℕ → Change Q
  cancelling : List ℕ → ℕ → Change Q
  arriving : Arrival Q → Change Q
  exiting : ℕ → ℕ → Change Q

abbrev pub State : Type 0 → Type 0
State Q = Listener Q × Option Registry

module _ (owner : ℕ → ℕ) (this : ℕ) where
  abbrev pub InvariantOf : List Acceptor → Option Registry → Type 0
  InvariantOf queue none = Unit {0}
  InvariantOf queue (some m) = IsWatched owner this queue m.monitors

  -- The acceptor that `del_monitor` is called for has left the queue.
  removed-Invariant :
      (front back : List Acceptor) (a : Acceptor) (main : Option Registry)
      → InvariantOf (front ++ a ∷ back) main
      → InvariantOf (front ++ back) (del_monitor a.caller main).0
  unfolding del_monitor
  removed-Invariant front back a none v = tt
  removed-Invariant front back a (some m) v = removed-IsWatched owner this front back a m.monitors v

  input_from-Invariant :
      (queue : List Acceptor) (fd : Option ℤ) (h : ℕ) (main : Option Registry)
      → InvariantOf queue main
      → InvariantOf queue (input_from fd h main).0
  unfolding start_input select
  input_from-Invariant queue none h main v = v
  input_from-Invariant queue (some fd) h none v = tt
  input_from-Invariant queue (some fd) h (some m) v = v

  del_monitors-Invariant :
      (queue : List Acceptor) (server : ℕ) (main : Option Registry)
      → this ≢ server
      → InvariantOf queue main
      → InvariantOf queue (del_monitors server main).0
  unfolding del_monitors
  del_monitors-Invariant queue server none ne v = tt
  del_monitors-Invariant queue server (some m) ne v =
      subst (λ s. IsWatched owner this queue s)
        (sym (del_mons-none m.this server this m.monitors ne v.own)) v

module _ {Q : Type 0} (ei : Ei) (this : ℕ) where
  -- A call of `input_ready` that goes on for ever changes nothing.
  abbrev pub arrived : Option (Served Q) → State Q → State Q
  arrived none s = s
  arrived (some r) s = (r.listener, r.main)

  -- `MainHandler::process_exit`, whose handler is this listener or not.
  abbrev pub told_exit : Option ℕ → ℕ → Listener Q → Listener Q
  told_exit none proc l = l
  told_exit (some h) proc l = if h == this then process_exited proc l else l

  unfoldable pub step : Change Q → State Q → State Q
  unfolding accept cancel_accept input_ready process_exited exited
  step (accepting buf len caller answer) (l, main) =
      let r = accept this ei buf len caller answer l main in (r.listener, r.main)
  step (cancelling buf len) (l, main) =
      let r = cancel_accept this ei buf len l main in (r.listener, r.main)
  step (arriving a) (l, main) = arrived (input_ready a l main) (l, main)
  step (exiting mon proc) (l, none) = (l, none)
  step (exiting mon proc) (l, some m) =
      let (told, m') = exited mon proc m in (told_exit told proc l, some m')

  module _ (owner : ℕ → ℕ) where
    -- What the runtime sees to, and that a server is another object than the listener.
    abbrev pub Granted : Change Q → Option Registry → Type 0
    Granted (accepting buf len caller none) main = Unit {0}
    Granted (accepting buf len caller (some mon)) none = Unit {0}
    Granted (accepting buf len caller (some mon)) (some m) =
        IsFresh owner (some mon) caller m.monitors
    Granted (cancelling buf len) main = Unit {0}
    Granted (arriving a) main = this ≢ a.server
    Granted (exiting mon proc) main = owner mon ≡ proc

    abbrev pub Invariant : State Q → Type 0
    Invariant (l, main) = InvariantOf owner this l.acceptor_queue main

    queued-Invariant :
        (ref : List ℕ) (caller : ℕ) (answer : Option ℕ) (buf : List ℕ) (len : ℕ) (l : Listener Q)
        (main : Option Registry)
        → Granted (accepting buf len caller answer) main
        → InvariantOf owner this l.acceptor_queue main
        → let r = queued this ref caller (add_monitor answer caller this main) l in
          InvariantOf owner this r.listener.acceptor_queue r.main
    unfolding add_monitor add_mon
    queued-Invariant ref caller answer buf len l none g v = tt
    queued-Invariant ref caller none buf len l (some m) g v = v
    queued-Invariant ref caller (some mon) buf len l (some m) g v =
        added-IsWatched owner this mon caller ref l.acceptor_queue m.monitors g v

    pub accept_ref-Invariant :
        (r : Result (List ℕ)) (buf : List ℕ) (len caller : ℕ) (answer : Option ℕ) (l : Listener Q)
        (main : Option Registry)
        → Granted (accepting buf len caller answer) main
        → InvariantOf owner this l.acceptor_queue main
        → let r' = accept_ref this r caller answer l main in
          InvariantOf owner this r'.listener.acceptor_queue r'.main
    accept_ref-Invariant (ok ref) buf len caller answer l main g v =
        queued-Invariant ref caller answer buf len l main g v
    accept_ref-Invariant (err e) buf len caller answer l main g v = v

    cancelled-Invariant :
        (ref : List ℕ) (l : Listener Q) (main : Option Registry)
        → InvariantOf owner this l.acceptor_queue main
        → let r = cancelled this ref l main in
          InvariantOf owner this r.listener.acceptor_queue r.main
    cancelled-Invariant ref l main v = elim (cancel_loop_lem ref l.acceptor_queue) [
      | inl (stays, nobody, others) ↦
          subst
            (λ o. InvariantOf owner this (cancel_loop ref l.acceptor_queue).0 (del_found o main).0)
            (sym nobody) (subst (λ q. InvariantOf owner this q main) (sym stays) v)
      | inr (front, a, back, split, others, same, left, found) ↦
          subst
            (λ o. InvariantOf owner this (cancel_loop ref l.acceptor_queue).0 (del_found o main).0)
            (sym found)
            (subst (λ q. InvariantOf owner this q (del_monitor a.caller main).0) (sym left)
              (removed-Invariant owner this front back a main
                (subst (λ q. InvariantOf owner this q main) split v)))
    ]

    pub cancel_ref-Invariant :
        (r : Result (List ℕ)) (l : Listener Q) (main : Option Registry)
        → InvariantOf owner this l.acceptor_queue main
        → let r' = cancel_ref this r l main in
          InvariantOf owner this r'.listener.acceptor_queue r'.main
    cancel_ref-Invariant (ok ref) l main v = cancelled-Invariant ref l main v
    cancel_ref-Invariant (err e) l main v = v

    abbrev Keeps : Served Q → Type 0
    Keeps r = InvariantOf owner this r.listener.acceptor_queue r.main

    either-Keeps : (b : Bool) (x y : Served Q) → Keeps x → Keeps y → Keeps (if b then x else y)
    either-Keeps true x y kx ky = kx
    either-Keeps false x y kx ky = ky

    -- The answers as `input_ready` takes them, one after the other.
    module _ (a : Arrival Q) (ne : this ≢ a.server) where
      connected_to-Invariant :
          (o : Opened) (acc : Acceptor) (rest : List Acceptor) (l : Listener Q)
          (main : Option Registry)
          → l.acceptor_queue ≡ acc ∷ rest
          → InvariantOf owner this l.acceptor_queue main
          → Keeps (connected_to a o acc rest l main)
      unfolding connected_to
      connected_to-Invariant o acc rest l main e v =
          either-Keeps a.is_utp _ _
            (input_from-Invariant owner this rest _ a.server _ (
              removed-Invariant owner this [] rest acc main
                (subst (λ q. InvariantOf owner this q main) e v)))
            (del_monitors-Invariant owner this l.acceptor_queue a.server main ne v)

      after_connect-Invariant :
          (answer : Option (Option ℕ)) (o : Opened) (acc : Acceptor) (rest : List Acceptor)
          (l : Listener Q) (main : Option Registry)
          → l.acceptor_queue ≡ acc ∷ rest
          → InvariantOf owner this l.acceptor_queue main
          → Invariant (arrived (after_connect answer a o acc rest l main) (l, main))
      unfolding refused
      after_connect-Invariant none o acc rest l main e v = v
      after_connect-Invariant (some none) o acc rest l main e v =
          connected_to-Invariant o acc rest l main e v
      after_connect-Invariant (some (some errno)) o acc rest l main e v =
          removed-Invariant owner this [] rest acc main
            (subst (λ q. InvariantOf owner this q main) e v)

      waiting-Invariant :
          (queue : List Acceptor) (l : Listener Q) (main : Option Registry)
          → l.acceptor_queue ≡ queue
          → InvariantOf owner this l.acceptor_queue main
          → Invariant (arrived (waiting queue a l main) (l, main))
      waiting-Invariant [] l main e v = v
      waiting-Invariant (acc ∷ rest) l main e v =
          elim (Bool-cases (is_negative (open_udp_socket true a.calls).result)) [
            | inl negative ↦ rw (Invariant, negative) v
            | inr not_negative ↦
                rw (Invariant, not_negative)
                  (after_connect-Invariant (connect_loop a.connects) (open_udp_socket true a.calls)
                    acc rest l main e v)
          ]

      pub received-Invariant :
          (datagram : Option (List ℕ)) (l : Listener Q) (main : Option Registry)
          → InvariantOf owner this l.acceptor_queue main
          → Invariant (arrived (received datagram a l main) (l, main))
      received-Invariant none l main v = v
      received-Invariant (some []) l main v = v
      received-Invariant (some (b ∷ bytes)) l main v =
          waiting-Invariant l.acceptor_queue l main refl v
