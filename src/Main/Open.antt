-- ===== src/Main/Open.antt =====
-- What each entry of the driver leaves: a main handler that is one of the open ports.
use gen_utp.Base.{
  ℕ, ◌≡◌, ◌≢◌, refl, sym, ap, subst, ◌∙◌, Bool, true, false, Bool-cases, inl, inr, Option,
  Option-cases, some, none, List, [], ◌∷◌, ◌==◌, ==_iff, if◌then◌else◌, ℤ, is_minus_one, Leaves,
  bind-Leaves, lookup, insert, erase, lookup-insert_self, lookup-erase_ne,
}
use gen_utp.Coder.Defs.{Ei}
use gen_utp.Driver.Queue.{DrvQueue}
use gen_utp.Connection.Callbacks.{WriteRun}
use gen_utp.Connection.Control.{Command, World}
use gen_utp.Connection.Output.{IoVec}
use gen_utp.Main.Registry.{Registry, deselect, stop_input, del_monitors, start, stop_main, exited}
use gen_utp.Main.Requests.{Handler, listener, connection, MainHandler, Outside}
use gen_utp.Main.Dispatch.{control, stop, stop_delegatee, outputv, effects}
use gen_utp.Connection.Defs.{
  Event, message, utp_write, utp_close, rb_drained, set_sndbuf, set_recbuf, stop_input as turn_off,
  deq_all, deleted,
}
use gen_utp.Connection.Control
use gen_utp.Main.Kept.{Same, Same-refl, Same-trans, control-Same}
use gen_utp.Main.Entry.{
  own, Driver, stop_port, control_port, output_port, utp_process_exit, replace, told_of, tell,
}
use gen_utp.Listener.Defs.{Listener, Stopped}
use gen_utp.Listener.Defs

-- The main handler, if there is one, is open.
abbrev pub OpenIn : {Q : Type 0} → Option Registry → List (ℕ × MainHandler Q) → Type 0
OpenIn none ports = Unit {0}
OpenIn {Q} (some m) ports = (h : MainHandler Q) × (lookup m.this ports ≡ some h)

abbrev pub MainIsOpen : {Q : Type 0} → Driver Q → Type 0
MainIsOpen s = OpenIn s.main s.ports

deselect-this : (fd : ℤ) (m : Registry) → (deselect fd m).0.this ≡ m.this
unfolding deselect
deselect-this fd m = elim (Bool-cases (is_minus_one fd)) [ inl e ↦ rw e refl | inr e ↦ rw e refl ]

stop_input-Same : (fd : ℤ) (main : Option Registry) → Same main (stop_input fd main).0
unfolding stop_input
stop_input-Same fd none = tt
stop_input-Same fd (some m) = deselect-this fd m

pub del_monitors-Same : (n : ℕ) (main : Option Registry) → Same main (del_monitors n main).0
unfolding del_monitors
del_monitors-Same n none = tt
del_monitors-Same n (some m) = refl

pub effects-Same :
    (n : ℕ) (events : List Event) (main : Option Registry) → Same main (effects n events main).0
unfolding effects
effects-Same n [] main = Same-refl main
effects-Same n (turn_off fd ∷ events) main =
    Same-trans main (stop_input fd main).0 _ (stop_input-Same fd main)
      (effects-Same n events (stop_input fd main).0)
effects-Same n (deleted ∷ events) main =
    Same-trans main (del_monitors n main).0 _ (del_monitors-Same n main)
      (effects-Same n events (del_monitors n main).0)
effects-Same n (message m ∷ events) main = effects-Same n events main
effects-Same n (utp_write u k ∷ events) main = effects-Same n events main
effects-Same n (utp_close u ∷ events) main = effects-Same n events main
effects-Same n (rb_drained u ∷ events) main = effects-Same n events main
effects-Same n (set_sndbuf u k ∷ events) main = effects-Same n events main
effects-Same n (set_recbuf u k ∷ events) main = effects-Same n events main
effects-Same n (deq_all k ∷ events) main = effects-Same n events main

either-Same :
    (main : Option Registry) (b : Bool) (x y : Stopped)
    → Same main x.main
    → Same main y.main
    → Same main (if b then x else y).main
either-Same main true x y sx sy = sx
either-Same main false x y sx sy = sy

listener_stop-Same :
    {Q : Type 0} (n : ℕ) (l : Listener Q) (main : Option Registry)
    → Same main (Defs.stop n l main).main
unfolding Defs.stop stop_input del_monitors
listener_stop-Same n l none = either-Same none l.sock.selected _ _ tt tt
listener_stop-Same n l (some m) =
    either-Same (some m) l.sock.selected _ _ (deselect-this l.sock.udp_sock m) refl

module _ {Q : Type 0} where
  pub insert-open :
      (k j : ℕ) (h : MainHandler Q) (ports : List (ℕ × MainHandler Q))
      → (x : MainHandler Q) × (lookup k ports ≡ some x)
      → (y : MainHandler Q) × (lookup k (insert j h ports) ≡ some y)
  unfolding insert lookup
  insert-open k j h ports (x, e) = elim (Option-cases (lookup j ports)) [
    | inr (g, found) ↦ (x, rw found e)
    | inl absent ↦ elim (Bool-cases (j == k)) [
      | inl same ↦ (h, rw (absent, same) refl)
      | inr other ↦ (x, rw (absent, other) e)
    ]
  ]

  pub new-open :
      (k : ℕ) (h : MainHandler Q) (ports : List (ℕ × MainHandler Q))
      → (y : MainHandler Q) × (lookup k (insert k h ports) ≡ some y)
  unfolding insert
  new-open k h ports = elim (Option-cases (lookup k ports)) [
    | inr (g, found) ↦ (g, rw found found)
    | inl absent ↦ (h, lookup-insert_self k h ports absent)
  ]

  pub replace-open :
      (k j : ℕ) (h : MainHandler Q) (ports : List (ℕ × MainHandler Q))
      → (x : MainHandler Q) × (lookup k ports ≡ some x)
      → (y : MainHandler Q) × (lookup k (replace j h ports) ≡ some y)
  unfolding lookup
  replace-open k j h ports (x, e) = elim (Bool-cases (j == k)) [
    | inl same ↦ (h, rw same refl)
    | inr other ↦
        (x, rw other (lookup-erase_ne j k ports (λ eq. cc ((==_iff j k).1 eq, other)) ∙ e))
  ]

  pub tell-open :
      (told : Option ℕ) (proc connected k : ℕ) (ports : List (ℕ × MainHandler Q))
      → (x : MainHandler Q) × (lookup k ports ≡ some x)
      → (y : MainHandler Q) × (lookup k (tell told proc connected ports) ≡ some y)
  unfolding lookup
  tell-open none proc connected k ports x = x
  tell-open (some n) proc connected k [] (x, e) = absurd cc
  tell-open (some n) proc connected k ((j, h) ∷ ports) (x, e) = elim (Bool-cases (j == k)) [
    | inl same ↦ (told_of n proc connected h, rw same refl)
    | inr other ↦
        let (y, found) = tell-open (some n) proc connected k ports (x, rw other at e) in
        (y, rw other found)
  ]

module _ (d : DrvQueue) where
  open d use {Queue}

  stop_delegatee-Same :
      (x : Option (ℕ × Handler Queue)) (main : Option Registry)
      → Same main (stop_delegatee d x main).main
  stop_delegatee-Same none main = Same-refl main
  stop_delegatee-Same (some (n, listener l)) main = listener_stop-Same n l main
  stop_delegatee-Same (some (n, connection is_server c)) main =
      effects-Same n (Control.stop d c).events main

  -- A main handler that another port's end leaves is open still.
  stop_main-open :
      (this : ℕ) (main main' : Option Registry) (ports : List (ℕ × MainHandler Queue))
      → Same main main'
      → OpenIn main ports
      → OpenIn (stop_main this main').0 (erase this ports)
  unfolding stop_main
  stop_main-open this none none ports s o = tt
  stop_main-open this none (some m') ports s o = absurd s
  stop_main-open this (some m) none ports s o = absurd s
  stop_main-open this (some m) (some m') ports s (h, e) = elim (Bool-cases (m'.this == this)) [
    | inl own ↦ rw (OpenIn, own) tt
    | inr other ↦
        let apart : this ≢ m.this = λ eq. cc ((==_iff m'.this this).1 (s ∙ sym eq), other) in
        rw (OpenIn, other)
          (
            h,
            ap (λ k. lookup k (erase this ports)) s ∙ (lookup-erase_ne this m.this ports apart ∙ e),
          )
  ]

  pub stop_port-open :
      (x : Option (MainHandler Queue)) (this : ℕ) (s : Driver Queue)
      → MainIsOpen s
      → MainIsOpen (stop_port d x this s)
  unfolding stop
  stop_port-open none this s o = o
  stop_port-open (some h) this s o =
      stop_main-open this s.main (stop_delegatee d h.delegatee s.main).main s.ports
        (stop_delegatee-Same h.delegatee s.main) o

  pub start-open :
      (this port : ℕ) (main : Option Registry) (ports : List (ℕ × MainHandler Queue))
      (h : MainHandler Queue)
      → OpenIn main ports
      → OpenIn (start this port main) (insert this h ports)
  unfolding start
  start-open this port none ports h o = new-open this h ports
  start-open this port (some m) ports h o = insert-open m.this this h ports o

  pub replaced-open :
      (this : ℕ) (h : MainHandler Queue) (main main' : Option Registry)
      (ports : List (ℕ × MainHandler Queue))
      → Same main main'
      → OpenIn main ports
      → OpenIn main' (replace this h ports)
  replaced-open this h none none ports s o = tt
  replaced-open this h none (some m') ports s o = absurd s
  replaced-open this h (some m) none ports s o = absurd s
  replaced-open this h (some m) (some m') ports s (x, e) =
      replace-open m'.this this h ports (x, ap (λ k. lookup k ports) s ∙ e)

  pub control_port-open :
      (x : Option (MainHandler Queue)) (this : ℕ) (command : Command) (ei : Ei) (w : Outside Queue)
      (world : World) (answer : Option ℕ) (buf : List ℕ) (len : ℕ) (s : Driver Queue)
      → MainIsOpen s
      → Leaves (λ r. MainIsOpen r.0) (control_port d x this command ei w world answer buf len s)
  control_port-open none this command ei w world answer buf len s o = o
  control_port-open (some h) this command ei w world answer buf len s o =
      bind-Leaves (λ r. MainIsOpen r.0)
        (control d command ei (own d this w) world answer buf len h s.main) _
        (λ r e.
          replaced-open this r.handler s.main r.main s.ports
            (subst (λ x. Leaves (λ r'. Same s.main r'.main) x) e
              (control-Same d command ei (own d this w) world answer buf len h s.main))
            o)

  pub output_port-open :
      (x : Option (MainHandler Queue)) (this from id : ℕ) (wr : WriteRun) (ev : IoVec)
      (s : Driver Queue)
      → MainIsOpen s
      → Leaves MainIsOpen (output_port d x this from id wr ev s)
  output_port-open none this from id wr ev s o = o
  output_port-open (some h) this from id wr ev s o =
      bind-Leaves MainIsOpen (outputv d from id wr ev h) _
        (λ r e. replaced-open this r.0 s.main s.main s.ports (Same-refl s.main) o)

  pub exit-open :
      (mon proc connected : ℕ) (main : Option Registry) (ports : List (ℕ × MainHandler Queue))
      → OpenIn main ports
      → (lingering : List (ℕ × Handler Queue))
      → MainIsOpen (
          utp_process_exit mon proc connected
            (record { main = main; ports = ports; lingering = lingering }))
  unfolding utp_process_exit exited
  exit-open mon proc connected none ports o lingering = tt
  exit-open mon proc connected (some m) ports o lingering =
      tell-open (exited mon proc m).0 proc connected m.this ports o
