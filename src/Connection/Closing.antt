-- ===== src/Connection/Closing.antt =====
-- How a connection ends, utp_handler.cc: `close`, `stop` and the state change DESTROYING.
pub mod Pending
use gen_utp.Base.{
  ℕ, ◌≡◌, refl, sym, ap, ◌∙◌, inl, inr, Bool, true, false, ◌&&◌, Bool-cases, Option, some, none,
  List, [], ◌∷◌, ◌++◌, ◌==◌, ==_iff, if◌then◌else◌, Result, ok, err, ◌>>=◌, subst,
}
use gen_utp.Coder.Defs.{Ei}
use gen_utp.Coder.Arguments.{binary_argument}
use gen_utp.Driver.Defs.{process, send}
use gen_utp.Driver.Queue.{DrvQueue}
use gen_utp.WriteQueue
use gen_utp.Connection.Defs.{
  Status, closing, UtpState, UtpHandler, Event, message, Stepped, close_on, close_utp,
  is_destroying,
}
use gen_utp.Connection.Callbacks.{
  WriteRun, ref_ok, is_stopped, do_error, error_on, wake_sender, write_queued, do_writes,
  on_writable, on_eof, deselected, destroyed, report_closed, on_destroying, do_state_change,
}
use gen_utp.Connection.Control.{World, may_close, closing_state, close}
use gen_utp.Connection.Closing.Pending.{
  messages_to, Waits, LeavesWaits, close-Waits, destroying-answers, on_eof-Waits,
  on_writable-LeavesWaits, do_error-Waits,
}

-- What libutp may call between `close` and DESTROYING.
pub data Callback : Type 0 where
  at_eof : Callback
  at_writable : WriteRun → Callback
  at_error : ℕ → Callback

module _ (d : DrvQueue) where
  open d use {Queue}

  -- One callback of libutp between `close` and DESTROYING.
  abbrev pub callback : Callback → UtpHandler Queue → Result (Stepped Queue)
  callback at_eof h = do_state_change d UtpState.eof (record { counts = []; result = true }) h
  callback (at_writable w) h = do_state_change d UtpState.writable w h
  callback (at_error n) h = ok (do_error d n h)

  callback-LeavesWaits :
      (p : ℕ) (ref : List ℕ) (c : Callback) (h : UtpHandler Queue)
      → Waits d p ref h
      → LeavesWaits d p ref (callback c h)
  unfolding do_state_change
  callback-LeavesWaits p ref at_eof h wt =
      on_eof-Waits d p ref (record h { state = some UtpState.eof })
        (record {
          status = wt.status;
          close_pending = wt.close_pending;
          caller_ref = wt.caller_ref;
          caller = wt.caller;
        })
  callback-LeavesWaits p ref (at_writable w) h wt =
      on_writable-LeavesWaits d p ref w (record h { state = some UtpState.writable })
        (record {
          status = wt.status;
          close_pending = wt.close_pending;
          caller_ref = wt.caller_ref;
          caller = wt.caller;
        })
  callback-LeavesWaits p ref (at_error n) h wt = do_error-Waits d p ref n h wt

  -- The states that callbacks lead to.
  pub data Reaches : UtpHandler Queue → UtpHandler Queue → Type 0 where
    here : {h : UtpHandler Queue} → Reaches h h
    next :
        {h h' : UtpHandler Queue} (c : Callback) (s : Stepped Queue)
        → callback c h ≡ ok s
        → Reaches s.after h'
        → Reaches h h'

  Reaches-Waits :
      (p : ℕ) (ref : List ℕ) (h h' : UtpHandler Queue)
      → Reaches h h'
      → Waits d p ref h
      → Waits d p ref h'
  Reaches-Waits p ref h h' here wt = wt
  Reaches-Waits p ref h h' (next c s run more) wt =
      Reaches-Waits p ref s.after h' more
        (subst (LeavesWaits d p ref) run (callback-LeavesWaits p ref c h wt))

  -- A `close` that begins to close, with a reference that decodes, is answered once: whatever
  -- end-of-file, writable and error callbacks return in between, the state change to DESTROYING
  -- returns, sends {Ref, ok} to the process that closed as its only message to it, and leaves no
  -- close pending and the status `destroying`.
  pub close-answered :
      (ei : Ei) (w : World) (buf : List ℕ) (len : ℕ) (ref : List ℕ) (wr : WriteRun)
      (h h' : UtpHandler Queue)
      → may_close h ≡ true
      → binary_argument ei buf len ≡ ok ref
      → Reaches (close ei w buf len h).after h'
      → (s : Stepped Queue) × (do_state_change d UtpState.destroying wr h' ≡ ok s)
        × (messages_to w.from s.events ≡ message (send (process w.from) (ref_ok (some ref))) ∷ [])
        × (s.after.status ≡ Status.destroying)
        × (s.after.close_pending ≡ false)
  close-answered ei w buf len ref wr h h' may arg reach =
      destroying-answers d w.from ref wr h'
        (Reaches-Waits w.from ref _ h' reach (close-Waits d ei w buf len ref h may arg))
