-- ===== src/Connection/Messages.antt =====
-- utp_handler.cc: the messages of `do_state_change` and `do_error`.
use gen_utp.Base.{
  ℕ, ◌≡◌, refl, subst, Bool, true, false, Bool-cases, inl, inr, ◌&&◌, Option, some, none, List, [],
  ◌∷◌, ◌++◌, map, ◌==◌, if◌then◌else◌, Result, ok, Leaves, bind-Leaves, either-Leaves,
}
use gen_utp.Driver.Defs.{Process, nil, process}
use gen_utp.Driver.Shape.{stack, IsMessage}
use gen_utp.Driver.Queue.{DrvQueue}
use gen_utp.WriteQueue
use gen_utp.Connection.Defs.{
  Status, not_connected, listening, connect_pending, connected, connect_failed, closing, stopped,
  UtpState, connect, writable, eof, UtpHandler, Event, message, Stepped, close_on, close_utp,
  is_destroying,
}
use gen_utp.Connection.Callbacks.{
  WriteRun, ref_ok, is_set, is_closing, is_stopped, is_connect_pending, to_caller, econnreset,
  connect_error, do_writes, wake_sender, write_queued, on_writable, on_eof, on_connect, deselected,
  destroyed, report_closed, on_destroying, do_state_change, error_on, do_error,
}
use gen_utp.Reading.Defs.{Socket, is_false, emit_closed_message}

abbrev pub SoundEvent : Event → Type 0
SoundEvent (message m) = IsMessage m
SoundEvent _ = Unit {0}

-- Each message makes exactly one term.
abbrev pub Sound : List Event → Type 0
Sound [] = Unit {0}
Sound (e ∷ es) = SoundEvent e × Sound es

pub Sound-append : (xs ys : List Event) → Sound xs → Sound ys → Sound (xs ++ ys)
Sound-append [] ys sx sy = sy
Sound-append (x ∷ xs) ys sx sy = (sx.0, Sound-append xs ys sx.1 sy)

either-events : (b : Bool) (xs ys : List Event) → Sound xs → Sound ys → Sound (if b then xs else ys)
either-events true xs ys sx sy = sx
either-events false xs ys sx sy = sy

module _ (d : DrvQueue) where
  open d use {Queue, sizeq}

  either-Sound :
      (b : Bool) (x y : Stepped Queue)
      → Sound x.events
      → Sound y.events
      → Sound (if b then x else y).events
  either-Sound true x y sx sy = sx
  either-Sound false x y sx sy = sy

  close_on-Sound : (h : UtpHandler Queue) (u : Option ℕ) → Sound (close_on h u).events
  unfolding close_on
  close_on-Sound h none = tt
  close_on-Sound h (some u) =
      either-Sound (is_destroying h.status) _ _ tt
        (either-Sound (WriteQueue.size h.write_queue == 0) _ _ (tt, tt) tt)

  close_utp-Sound : (h : UtpHandler Queue) → Sound (close_utp h).events
  unfolding close_utp
  close_utp-Sound h = close_on-Sound h h.utp

  on_eof-Sound : (h : UtpHandler Queue) → Sound (on_eof d h).events
  unfolding on_eof
  on_eof-Sound h =
      either-Sound (is_stopped h.status) _ _ tt
        (close_utp-Sound (record h { write_queue = (WriteQueue.clear h.write_queue).0 }))

  wake_sender-Sound : (h : UtpHandler Queue) → Sound (wake_sender d h).events
  unfolding wake_sender stack
  wake_sender-Sound h = either-Sound (h.is_writable && h.sender_waiting) _ _ (refl, tt) tt

  on_connect-Sound : (h : UtpHandler Queue) → Sound (on_connect d h).events
  unfolding on_connect stack
  on_connect-Sound h =
      either-events (is_connect_pending h.status && is_set h.caller_ref) _ _ (refl, tt) tt

  ref_ok-IsMessage : (p : Process) (ref : Option (List ℕ)) → IsMessage (to_caller d p (ref_ok ref))
  unfolding stack
  ref_ok-IsMessage nil ref = refl
  ref_ok-IsMessage (process p) ref = refl

  emit_closed_message-Sound : (s : Socket Queue) → Sound (map message (emit_closed_message d s).1)
  unfolding emit_closed_message stack
  emit_closed_message-Sound s = elim (Bool-cases (sizeq s.queue == 0)) [
    | inl e ↦ rw e (refl, tt)
    | inr e ↦ rw e tt
  ]

  report_closed-Sound : (h : UtpHandler Queue) → Sound (report_closed d h).events
  unfolding report_closed
  report_closed-Sound h =
      either-Sound (h.close_pending && is_set h.caller_ref) _ _
        (ref_ok-IsMessage h.caller h.caller_ref, tt)
        (either-Sound (is_false h.sockopts.active) _ _ tt (emit_closed_message-Sound h.sock))

  connect_error-Sound : (h : UtpHandler Queue) (n : ℕ) → Sound (connect_error d h n)
  unfolding stack
  connect_error-Sound h n = either-events (is_set h.caller_ref) _ _ (refl, tt) tt

  error_on-Sound : (st : Status) (h : UtpHandler Queue) (n : ℕ) → Sound (error_on d st h n).events
  unfolding stack close_utp
  error_on-Sound connect_pending h n = connect_error-Sound h n
  error_on-Sound connected h n =
      either-Sound (n == econnreset) _ _ (close_utp-Sound h)
        (either-Sound (is_false h.sockopts.active) _ _ tt (refl, tt))
  error_on-Sound not_connected h n = tt
  error_on-Sound listening h n = tt
  error_on-Sound connect_failed h n = tt
  error_on-Sound closing h n = tt
  error_on-Sound Status.destroying h n = tt
  error_on-Sound stopped h n = tt

  -- Each message that `do_error` sends makes exactly one term.
  pub do_error-Sound : (n : ℕ) (h : UtpHandler Queue) → Sound (do_error d n h).events
  unfolding do_error
  do_error-Sound n h = error_on-Sound h.status (record h { error_code = n }) n

  destroyed-Sound : (h : UtpHandler Queue) → Sound (destroyed d h).events
  destroyed-Sound h = report_closed-Sound h

  on_destroying-Sound : (h : UtpHandler Queue) → Sound (on_destroying d h).events
  unfolding on_destroying
  on_destroying-Sound h =
      Sound-append (deselected d h).events _ (either-Sound h.selected _ _ (tt, tt) tt) (
        either-Sound (is_closing h.status) _ _ (destroyed-Sound (deselected d h).after)
          (either-Sound (is_stopped h.status) _ _ (tt, tt) tt))

  abbrev pub SoundStep : Stepped Queue → Type 0
  SoundStep s = Sound s.events

  abbrev pub SoundResult : Result (Stepped Queue) → Type 0
  SoundResult r = Leaves SoundStep r

  write_queued-Sound : (w : WriteRun) (h : UtpHandler Queue) → SoundResult (write_queued d w h)
  unfolding write_queued
  write_queued-Sound w h =
      either-Leaves SoundStep (WriteQueue.size h.write_queue == 0) _ _ tt
        (bind-Leaves SoundStep (do_writes w.counts h.write_queue) _ (λ a e. (tt, tt)))

  on_writable-Sound : (w : WriteRun) (h : UtpHandler Queue) → SoundResult (on_writable d w h)
  unfolding on_writable
  on_writable-Sound w h = bind-Leaves SoundStep (write_queued d w h) _ (λ wrote e.
      let h' = (wake_sender d wrote.after).after in
      Sound-append wrote.events _ (subst SoundResult e (write_queued-Sound w h)) (
        Sound-append (wake_sender d wrote.after).events _ (wake_sender-Sound wrote.after)
          (either-Sound h'.close_pending _ _ (close_utp-Sound h') tt)))

  pub state_change-Sound :
      (st : UtpState) (w : WriteRun) (h : UtpHandler Queue) → SoundResult (do_state_change d st w h)
  unfolding do_state_change
  state_change-Sound connect w h = on_connect-Sound (record h { state = some connect })
  state_change-Sound writable w h = on_writable-Sound w (record h { state = some writable })
  state_change-Sound eof w h = on_eof-Sound (record h { state = some eof })
  state_change-Sound UtpState.destroying w h =
      on_destroying-Sound (record h { state = some UtpState.destroying })
  state_change-Sound (UtpState.other n) w h = tt

  -- Each message that a `do_state_change` that returns sends makes exactly one term.
  pub do_state_change-Sound :
      (st : UtpState) (w : WriteRun) (h : UtpHandler Queue) (s : Stepped Queue)
      → do_state_change d st w h ≡ ok s
      → Sound s.events
  do_state_change-Sound st w h s run = subst SoundResult run (state_change-Sound st w h)
