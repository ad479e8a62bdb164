-- ===== src/Connection/Closing/Pending.antt =====
-- utp_handler.cc: a connection whose `close` is to be answered, and what the callbacks make of it.
use gen_utp.Base.{
  ℕ, ◌≡◌, refl, sym, ap, ◌∙◌, inl, inr, Bool, true, false, ◌&&◌, Bool-cases, Option, some, none,
  List, [], ◌∷◌, ◌++◌, ◌==◌, ==_iff, if◌then◌else◌, Result, ok, Leaves, bind-Leaves, either-Leaves,
  subst,
}
use gen_utp.Coder.Defs.{Ei}
use gen_utp.Coder.Arguments.{binary_argument}
use gen_utp.Driver.Defs.{process, send}
use gen_utp.Driver.Queue.{DrvQueue}
use gen_utp.WriteQueue
use gen_utp.Connection.Defs.{
  Status, closing, UtpState, UtpHandler, Event, message, Stepped, close_on, close_utp,
  is_destroying,
}
use gen_utp.Connection.Callbacks.{
  WriteRun, ref_ok, is_stopped, do_error, error_on, wake_sender, write_queued, do_writes,
  on_writable, on_eof, deselected, destroyed, report_closed, on_destroying, do_state_change,
}
use gen_utp.Connection.Control.{World, may_close, closing_state, close}

-- The messages to a process.
abbrev pub messages_to : ℕ → List Event → List Event
messages_to p [] = []
messages_to p (message (send (process q) ts) ∷ es) =
    let rest = messages_to p es in if p == q then message (send (process q) ts) ∷ rest else rest
messages_to p (e ∷ es) = messages_to p es

module _ (d : DrvQueue) where
  open d use {Queue}

  -- `close` is answered later: the handler waits for DESTROYING on behalf of `p`.
  pub record Waits (p : ℕ) (ref : List ℕ) (h : UtpHandler Queue) : Type 0 where
    pub status : h.status ≡ closing
    pub close_pending : h.close_pending ≡ true
    pub caller_ref : h.caller_ref ≡ some ref
    pub caller : h.caller ≡ process p

  either-Waits :
      (p : ℕ) (ref : List ℕ) (b : Bool) (x y : Stepped Queue)
      → Waits p ref x.after
      → Waits p ref y.after
      → Waits p ref (if b then x else y).after
  either-Waits p ref true x y wx wy = wx
  either-Waits p ref false x y wx wy = wy

  close_on-Waits :
      (p : ℕ) (ref : List ℕ) (h : UtpHandler Queue) (u : Option ℕ)
      → Waits p ref h
      → Waits p ref (close_on h u).after
  unfolding close_on
  close_on-Waits p ref h none wt = wt
  close_on-Waits p ref h (some u) wt = either-Waits p ref (is_destroying h.status) _ _ wt (
      either-Waits p ref (WriteQueue.size h.write_queue == 0) _ _
        (record {
          status = refl;
          close_pending = wt.close_pending;
          caller_ref = wt.caller_ref;
          caller = wt.caller;
        })
        wt)

  close_utp-Waits :
      (p : ℕ) (ref : List ℕ) (h : UtpHandler Queue)
      → Waits p ref h
      → Waits p ref (close_utp h).after
  unfolding close_utp
  close_utp-Waits p ref h wt = close_on-Waits p ref h h.utp wt

  pub close-Waits :
      (ei : Ei) (w : World) (buf : List ℕ) (len : ℕ) (ref : List ℕ) (h : UtpHandler Queue)
      → may_close h ≡ true
      → binary_argument ei buf len ≡ ok ref
      → Waits w.from ref (close ei w buf len h).after
  unfolding close
  close-Waits ei w buf len ref h may arg =
      rw (may, arg)
        (close_utp-Waits w.from ref
          (let h' = closing_state h in record h' { caller_ref = some ref; caller = process w.from })
          (record { status = refl; close_pending = refl; caller_ref = refl; caller = refl }))

  deselected-Waits :
      (p : ℕ) (ref : List ℕ) (h : UtpHandler Queue)
      → Waits p ref h
      → Waits p ref (deselected d h).after
  deselected-Waits p ref h wt =
      either-Waits p ref h.selected _ _
        (record {
          status = wt.status;
          close_pending = wt.close_pending;
          caller_ref = wt.caller_ref;
          caller = wt.caller;
        })
        wt

  destroyed-answers :
      (p : ℕ) (ref : List ℕ) (h : UtpHandler Queue)
      → Waits p ref h
      → (destroyed d h).events ≡ message (send (process p) (ref_ok (some ref))) ∷ []
  unfolding report_closed
  destroyed-answers p ref h wt = rw (wt.close_pending, wt.caller_ref, wt.caller) refl

  destroyed-settled :
      (p : ℕ) (ref : List ℕ) (h : UtpHandler Queue)
      → Waits p ref h
      → ((destroyed d h).after.close_pending ≡ false)
        × ((destroyed d h).after.status ≡ Status.destroying)
  unfolding report_closed
  destroyed-settled p ref h wt = (rw (wt.close_pending, wt.caller_ref) refl, refl)

  -- What `on_destroying` does once a handler that closes is deselected.
  abbrev after_off : Stepped Queue → Stepped Queue
  after_off off =
      let rest = destroyed d off.after in
      record { after = rest.after; events = off.events ++ rest.events }

  on_destroying-closing :
      (h : UtpHandler Queue) → h.status ≡ closing → on_destroying d h ≡ after_off (deselected d h)
  unfolding on_destroying
  on_destroying-closing h e = rw e refl

  -- An event that is no message.
  no_messages :
      (p : ℕ) (h : UtpHandler Queue) (es : List Event)
      → messages_to p ((deselected d h).events ++ es) ≡ messages_to p es
  no_messages p h es = elim (Bool-cases h.selected) [ inl e ↦ rw e refl | inr e ↦ rw e refl ]

  -- A handler that waits to answer `close` answers with {Ref, ok} when libutp reports DESTROYING, in
  -- one message to the process that called, which then no longer waits, and goes to the status
  -- `destroying`.
  pub destroying-answers :
      (p : ℕ) (ref : List ℕ) (wr : WriteRun) (h : UtpHandler Queue)
      → Waits p ref h
      → (s : Stepped Queue) × (do_state_change d UtpState.destroying wr h ≡ ok s)
        × (messages_to p s.events ≡ message (send (process p) (ref_ok (some ref))) ∷ [])
        × (s.after.status ≡ Status.destroying)
        × (s.after.close_pending ≡ false)
  unfolding do_state_change
  destroying-answers p ref wr h wt =
      let h' = record h { state = some UtpState.destroying } in
      let wt' : Waits p ref h' = record {
        status = wt.status;
        close_pending = wt.close_pending;
        caller_ref = wt.caller_ref;
        caller = wt.caller;
      } in
      let run = on_destroying-closing h' wt'.status in
      let off = deselected-Waits p ref h' wt' in
      let (open_, status) = destroyed-settled p ref (deselected d h').after off in
      (
        on_destroying d h',
        refl,
        ap (λ s. messages_to p s.events) run
            ∙ (no_messages p h' _
                ∙ (ap (messages_to p) (destroyed-answers p ref (deselected d h').after off)
                    ∙ rw ((==_iff p p).1 refl) refl)),
        ap (λ (s : Stepped Queue). s.after.status) run ∙ status,
        ap (λ (s : Stepped Queue). s.after.close_pending) run ∙ open_,
      )

  wake_sender-Waits :
      (p : ℕ) (ref : List ℕ) (h : UtpHandler Queue)
      → Waits p ref h
      → Waits p ref (wake_sender d h).after
  unfolding wake_sender
  wake_sender-Waits p ref h wt =
      either-Waits p ref (h.is_writable && h.sender_waiting) _ _
        (record {
          status = wt.status;
          close_pending = wt.close_pending;
          caller_ref = wt.caller_ref;
          caller = wt.caller;
        })
        wt

  -- A method that returns leaves a handler that waits.
  abbrev WaitsAfter : ℕ → List ℕ → Stepped Queue → Type 0
  WaitsAfter p ref s = Waits p ref s.after

  abbrev pub LeavesWaits : ℕ → List ℕ → Result (Stepped Queue) → Type 0
  LeavesWaits p ref r = Leaves (WaitsAfter p ref) r

  write_queued-LeavesWaits :
      (p : ℕ) (ref : List ℕ) (w : WriteRun) (h : UtpHandler Queue)
      → Waits p ref h
      → LeavesWaits p ref (write_queued d w h)
  unfolding write_queued
  write_queued-LeavesWaits p ref w h wt =
      either-Leaves (WaitsAfter p ref) (WriteQueue.size h.write_queue == 0) _ _
        (record {
          status = wt.status;
          close_pending = wt.close_pending;
          caller_ref = wt.caller_ref;
          caller = wt.caller;
        })
        (bind-Leaves (WaitsAfter p ref) (do_writes w.counts h.write_queue) _ (λ a e. record {
          status = wt.status;
          close_pending = wt.close_pending;
          caller_ref = wt.caller_ref;
          caller = wt.caller;
        }))

  pub on_writable-LeavesWaits :
      (p : ℕ) (ref : List ℕ) (w : WriteRun) (h : UtpHandler Queue)
      → Waits p ref h
      → LeavesWaits p ref (on_writable d w h)
  unfolding on_writable
  on_writable-LeavesWaits p ref w h wt =
      bind-Leaves (WaitsAfter p ref) (write_queued d w h) _ (λ wrote e.
        let wt1 = subst (LeavesWaits p ref) e (write_queued-LeavesWaits p ref w h wt) in
        let wt2 = wake_sender-Waits p ref wrote.after wt1 in
        either-Waits p ref (wake_sender d wrote.after).after.close_pending _ _
          (close_utp-Waits p ref (wake_sender d wrote.after).after wt2) wt2)

  pub on_eof-Waits :
      (p : ℕ) (ref : List ℕ) (h : UtpHandler Queue) → Waits p ref h → Waits p ref (on_eof d h).after
  unfolding on_eof
  on_eof-Waits p ref h wt =
      let cleared = record h { write_queue = (WriteQueue.clear h.write_queue).0 } in
      let wt' : Waits p ref cleared = record {
        status = wt.status;
        close_pending = wt.close_pending;
        caller_ref = wt.caller_ref;
        caller = wt.caller;
      } in
      let closed =
        either-Waits p ref (is_stopped h.status) (record { after = cleared; events = [] })
          (close_utp cleared) wt' (close_utp-Waits p ref cleared wt') in
      record {
        status = closed.status;
        close_pending = closed.close_pending;
        caller_ref = closed.caller_ref;
        caller = closed.caller;
      }

  pub do_error-Waits :
      (p : ℕ) (ref : List ℕ) (n : ℕ) (h : UtpHandler Queue)
      → Waits p ref h
      → Waits p ref (do_error d n h).after
  unfolding do_error
  do_error-Waits p ref n h wt =
      let h' = record h { error_code = n } in
      let wt' : Waits p ref h' = record {
        status = wt.status;
        close_pending = wt.close_pending;
        caller_ref = wt.caller_ref;
        caller = wt.caller;
      } in
      subst (λ (st : Status). Waits p ref (error_on d st h' n).after) (sym wt.status) wt'
