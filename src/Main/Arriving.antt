-- ===== src/Main/Arriving.antt =====
-- What input and timeouts leave: the main handler is the same, and open.
use gen_utp.Base.{
  ℕ, ◌≡◌, refl, ap, subst, ◌∙◌, Bool, true, false, Option, some, none, List, [], ◌∷◌, ◌==◌, ℤ,
  Result, ok, Leaves, bind-Leaves, if-Holds, lookup,
}
use gen_utp.Driver.Queue.{DrvQueue}
use gen_utp.Connection.Defs.{UtpHandler, Stepped, new_handler}
use gen_utp.Connection.Incoming.{Callback, call_backs, input_ready as connection_input}
use gen_utp.Sockets.Defs.{set_port}
use gen_utp.Sockets.Opening.{Opened, open_udp_socket}
use gen_utp.Listener.Defs.{Acceptor, Listener}
use gen_utp.Listener.Incoming.{
  Arrival, Served, is_negative, connect_loop, refused, input_from, connected_to, incoming_loop,
  after_connect, opening, waiting, received, input_ready,
}
use gen_utp.Main.Registry.{
  Registry, select, start_input, del_monitor, ready_input, check_utp_timeouts,
}
use gen_utp.Main.Requests.{Handler, listener, connection, MainHandler}
use gen_utp.Main.Entry.{Driver}
use gen_utp.Main.Kept.{Same, Same-refl, Same-trans}
use gen_utp.Main.Open.{
  OpenIn, MainIsOpen, insert-open, replaced-open, effects-Same, del_monitors-Same,
}
use gen_utp.Main.Input.{
  Input, port_of, run_lingering, run_connection, with_server, listened, handler_input, told_input,
  ready_main, utp_ready_input, timeouts, timeouts_if, utp_check_timeouts,
}

-- An answer that is there satisfies `P`.
abbrev Given {ℓ κ} : {A : Type ℓ} → (A → Type κ) → Option A → Type κ
Given P none = Unit
Given P (some a) = P a

del_monitor-Same : (p : ℕ) (main : Option Registry) → Same main (del_monitor p main).0
unfolding del_monitor
del_monitor-Same p none = tt
del_monitor-Same p (some m) = refl

input_from-Same :
    (input : Option ℤ) (n : ℕ) (main : Option Registry) → Same main (input_from input n main).0
unfolding start_input select
input_from-Same none n main = Same-refl main
input_from-Same (some fd) n none = tt
input_from-Same (some fd) n (some m) = refl

module _ {Q : Type 0} (a : Arrival Q) (l : Listener Q) (main : Option Registry) where
  abbrev ServedSame : Served Q → Type 0
  ServedSame r = Same main r.main

  connected_to-Same :
      (o : Opened) (acc : Acceptor) (rest : List Acceptor)
      → ServedSame (connected_to a o acc rest l main)
  unfolding connected_to
  connected_to-Same o acc rest =
      let new = incoming_loop a.incoming (new_handler a.queue o.udp_sock l.sock.sockopts) in
      if-Holds ServedSame a.is_utp _ _
        (Same-trans main (del_monitor acc.caller main).0 _ (del_monitor-Same acc.caller main) (
          input_from-Same (set_port a.new_port new.after.sock).1 a.server
            (del_monitor acc.caller main).0))
        (del_monitors-Same a.server main)

  after_connect-Same :
      (c : Option (Option ℕ)) (o : Opened) (acc : Acceptor) (rest : List Acceptor)
      → Given ServedSame (after_connect c a o acc rest l main)
  unfolding refused
  after_connect-Same none o acc rest = tt
  after_connect-Same (some none) o acc rest = connected_to-Same o acc rest
  after_connect-Same (some (some errno)) o acc rest = del_monitor-Same acc.caller main

  opening-Same :
      (o : Opened) (acc : Acceptor) (rest : List Acceptor)
      → Given ServedSame (opening a o acc rest l main)
  opening-Same o acc rest =
      if-Holds (Given ServedSame) (is_negative o.result) _ _ (Same-refl main)
        (after_connect-Same (connect_loop a.connects) o acc rest)

  waiting-Same : (queue : List Acceptor) → Given ServedSame (waiting queue a l main)
  waiting-Same [] = Same-refl main
  waiting-Same (acc ∷ rest) = opening-Same (open_udp_socket true a.calls) acc rest

  received-Same : (datagram : Option (List ℕ)) → Given ServedSame (received datagram a l main)
  received-Same none = Same-refl main
  received-Same (some []) = Same-refl main
  received-Same (some (b ∷ bytes)) = waiting-Same l.acceptor_queue

module _ {Q : Type 0} where
  Same-open :
      (main main' : Option Registry) (ports : List (ℕ × MainHandler Q))
      → Same main main'
      → OpenIn main ports
      → OpenIn main' ports
  Same-open none none ports s o = tt
  Same-open none (some m') ports s o = absurd s
  Same-open (some m) none ports s o = absurd s
  Same-open (some m) (some m') ports s (h, e) = (h, ap (λ k. lookup k ports) s ∙ e)

  with_server-open :
      (main : Option Registry) (sv : Option (UtpHandler Q)) (a : Arrival Q)
      (ports : List (ℕ × MainHandler Q))
      → OpenIn main ports
      → OpenIn main (with_server sv a ports)
  with_server-open none none a ports o = tt
  with_server-open none (some sv) a ports o = tt
  with_server-open (some m) none a ports o = o
  with_server-open (some m) (some sv) a ports o = insert-open m.this a.handler _ ports o

module _ (d : DrvQueue) where
  open d use {Queue}

  run_lingering-open :
      (f : Bool → UtpHandler Queue → Result (Stepped Queue)) (x : Option (Handler Queue)) (n : ℕ)
      (s : Driver Queue)
      → MainIsOpen s
      → Leaves MainIsOpen (run_lingering f x n s)
  run_lingering-open f (some (connection b c)) n s o =
      bind-Leaves MainIsOpen (f b c) _
        (λ st e. Same-open s.main _ s.ports (effects-Same n st.events s.main) o)
  run_lingering-open f (some (listener l)) n s o = o
  run_lingering-open f none n s o = o

  run_connection-open :
      (f : Bool → UtpHandler Queue → Result (Stepped Queue))
      (p : Option (ℕ × MainHandler Queue × Handler Queue)) (n : ℕ) (s : Driver Queue)
      → MainIsOpen s
      → Leaves MainIsOpen (run_connection f p n s)
  run_connection-open f (some (k, h, connection b c)) n s o =
      bind-Leaves MainIsOpen (f b c) _
        (λ st e. replaced-open d k _ s.main _ s.ports (effects-Same n st.events s.main) o)
  run_connection-open f (some (k, h, listener l)) n s o = o
  run_connection-open f none n s o = run_lingering-open f (lookup n s.lingering) n s o

  listened-open :
      (r : Option (Served Queue)) (k : ℕ) (h : MainHandler Queue) (n : ℕ) (a : Arrival Queue)
      (s : Driver Queue)
      → Given (λ v. Same s.main v.main) r
      → MainIsOpen s
      → Given (Leaves MainIsOpen) (listened r k h n a s)
  listened-open none k h n a s same o = tt
  listened-open (some r) k h n a s same o =
      with_server-open r.main r.started a _ (replaced-open d k _ s.main r.main s.ports same o)

  handler_input-open :
      (p : Option (ℕ × MainHandler Queue × Handler Queue)) (n : ℕ) (i : Input Queue)
      (s : Driver Queue)
      → MainIsOpen s
      → Given (Leaves MainIsOpen) (handler_input d p n i s)
  unfolding input_ready
  handler_input-open (some (k, h, listener l)) n i s o =
      listened-open _ k h n i.arrival s (received-Same i.arrival l s.main i.arrival.datagram) o
  handler_input-open (some (k, h, connection b c)) n i s o =
      run_connection-open (λ b' h'. connection_input d b' i.datagram i.callbacks h')
        (some (k, h, connection b c)) n s o
  handler_input-open none n i s o =
      run_connection-open (λ b' h'. connection_input d b' i.datagram i.callbacks h') none n s o

  told_input-open :
      (x : Option ℕ) (i : Input Queue) (s : Driver Queue)
      → MainIsOpen s
      → Given (Leaves MainIsOpen) (told_input d x i s)
  told_input-open none i s o = o
  told_input-open (some n) i s o = handler_input-open (port_of n s.ports) n i s o

  ready_main-open :
      (main : Option Registry) (this : ℕ) (fd : ℤ) (i : Input Queue) (s : Driver Queue)
      → MainIsOpen s
      → Given (Leaves MainIsOpen) (ready_main d main this fd i s)
  ready_main-open none this fd i s o = o
  ready_main-open (some m) this fd i s o =
      if-Holds (Given (Leaves MainIsOpen)) (m.this == this) _ _
        (told_input-open (ready_input fd m) i s o) o

  pub ready_input-open :
      (this : ℕ) (fd : ℤ) (i : Input Queue) (s s' : Driver Queue)
      → MainIsOpen s
      → utp_ready_input d this fd i s ≡ some (ok s')
      → MainIsOpen s'
  unfolding utp_ready_input
  ready_input-open this fd i s s' o e =
      subst (Given (Leaves MainIsOpen)) e (ready_main-open s.main this fd i s o)

  timeouts-open :
      (calls : List (ℕ × List Callback)) (s : Driver Queue)
      → MainIsOpen s
      → Leaves MainIsOpen (timeouts d calls s)
  unfolding timeouts
  timeouts-open [] s o = o
  timeouts-open ((n, cs) ∷ more) s o =
      bind-Leaves MainIsOpen (run_connection (λ b h. call_backs d b cs h) (port_of n s.ports) n s) _
        (λ s' e. timeouts-open more s' (
          subst (Leaves MainIsOpen) e
            (run_connection-open (λ b h. call_backs d b cs h) (port_of n s.ports) n s o)))

  timeouts_if-open :
      (b : Bool) (calls : List (ℕ × List Callback)) (s : Driver Queue)
      → MainIsOpen s
      → Leaves MainIsOpen (timeouts_if d b calls s)
  timeouts_if-open true calls s o = timeouts-open calls s o
  timeouts_if-open false calls s o = o

  pub check_timeouts-open :
      (calls : List (ℕ × List Callback)) (s s' : Driver Queue)
      → MainIsOpen s
      → utp_check_timeouts d calls s ≡ ok s'
      → MainIsOpen s'
  unfolding utp_check_timeouts
  check_timeouts-open calls s s' o e =
      subst (Leaves MainIsOpen) e (timeouts_if-open (check_utp_timeouts s.main) calls s o)
