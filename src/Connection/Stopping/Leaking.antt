-- ===== src/Connection/Stopping/Leaking.antt =====
-- utp_handler.cc, `stop` after `close` with data that is still to be written: the handler outlives all that
-- would delete it.
use gen_utp.Base.{
  ℕ, ◌+◌, ◌≡◌, refl, ap, ◌∙◌, true, false, ◌&&◌, some, none, List, [], ◌∷◌, ◌++◌, map, ◌==◌, ok,
  if-Holds, arith,
}
use gen_utp.Driver.Defs.{Message}
use gen_utp.Driver.Queue.{DrvQueue}
use gen_utp.Reading.Defs.{is_false}
use gen_utp.WriteQueue
use gen_utp.WriteQueue.{WriteQueue}
use gen_utp.Connection.Defs.{
  Status, closing, UtpState, UtpHandler, message, utp_write, utp_close, Stepped, close_on,
  close_utp, is_destroying,
}
use gen_utp.Connection.Callbacks.{
  WriteRun, is_closing, is_set, do_writes, write_queued, wake_sender, on_writable, deselected,
  report_closed, on_destroying, do_state_change,
}
use gen_utp.Connection.Control.{emptied, stop, stop_with}
use gen_utp.Connection.Stopping.{deletions, deletions-append, dropped-deletions}

messages-deletions : (ms : List Message) → deletions (map message ms) ≡ 0
messages-deletions [] = refl
messages-deletions (m ∷ ms) = omega (arith, messages-deletions ms)

module _ (d : DrvQueue) where
  open d use {Queue, sizeq}

  -- A handler that a `close` waits for and that may still write what is queued.
  record IsLeft (u : ℕ) (wq : WriteQueue) (h : UtpHandler Queue) : Type 0 where
    pending : h.close_pending ≡ true
    utp : h.utp ≡ some u
    left : is_destroying h.status ≡ false
    queue : h.write_queue ≡ wq

  emptied-IsLeft :
      (u : ℕ) (wq : WriteQueue) (h : UtpHandler Queue) → IsLeft u wq h → IsLeft u wq (emptied d h)
  emptied-IsLeft u wq h l =
      if-Holds (IsLeft u wq) (sizeq h.queue == 0) _ _ l
        (record { pending = l.pending; utp = l.utp; left = l.left; queue = l.queue })

  close_utp-waits :
      (u : ℕ) (wq : WriteQueue) (h : UtpHandler Queue)
      → IsLeft u wq h
      → (WriteQueue.size wq == 0) ≡ false
      → close_utp h ≡ record { after = h; events = [] }
  unfolding close_utp close_on
  close_utp-waits u wq h l queued =
      ap (close_on h) l.utp ∙ rw (l.left, ap (λ q. WriteQueue.size q == 0) l.queue ∙ queued) refl

  stop_with-IsLeft :
      (u : ℕ) (wq : WriteQueue) (h : UtpHandler Queue) (qsize : ℕ)
      → IsLeft u wq h
      → IsLeft u wq (stop_with h [] qsize).after × (deletions (stop_with h [] qsize).events ≡ 0)
  unfolding is_destroying
  stop_with-IsLeft u wq h qsize l =
      let off = dropped-deletions d [] qsize refl in
      rw l.left (record { pending = l.pending; utp = l.utp; left = refl; queue = l.queue }, off)

  stop-IsLeft :
      (u : ℕ) (wq : WriteQueue) (h : UtpHandler Queue)
      → IsLeft u wq h
      → (WriteQueue.size wq == 0) ≡ false
      → IsLeft u wq (stop d h).after × (deletions (stop d h).events ≡ 0)
  unfolding stop
  stop-IsLeft u wq h l queued =
      rw (close_utp-waits u wq h l queued)
        (stop_with-IsLeft u wq (emptied d h) (sizeq h.queue) (emptied-IsLeft u wq h l))

  wake_sender-IsLeft :
      (u : ℕ) (wq : WriteQueue) (h : UtpHandler Queue)
      → IsLeft u wq h
      → IsLeft u wq (wake_sender d h).after × (deletions (wake_sender d h).events ≡ 0)
  unfolding wake_sender
  wake_sender-IsLeft u wq h l =
      if-Holds (λ (s : Stepped Queue). IsLeft u wq s.after × (deletions s.events ≡ 0))
        (h.is_writable && h.sender_waiting) _ _
        (record { pending = l.pending; utp = l.utp; left = l.left; queue = l.queue }, refl)
        (l, refl)

  -- `close_utp` of a handler that has nothing to write any more.
  abbrev closed : UtpHandler Queue → ℕ → Stepped Queue
  closed h u = record {
    after = record h { status = closing; utp = none };
    events = utp_close u ∷ [];
  }

  close_utp-closes :
      (u : ℕ) (wq : WriteQueue) (h : UtpHandler Queue)
      → IsLeft u wq h
      → (WriteQueue.size wq == 0) ≡ true
      → close_utp h ≡ closed h u
  unfolding close_utp close_on
  close_utp-closes u wq h l drained =
      ap (close_on h) l.utp ∙ rw (l.left, ap (λ q. WriteQueue.size q == 0) l.queue ∙ drained) refl

  -- Libutp writes everything, and `close_utp` begins to close.
  writable-closes :
      (u : ℕ) (wq wq' : WriteQueue) (sent : List ℕ) (w : WriteRun) (h : UtpHandler Queue)
      → IsLeft u wq h
      → (WriteQueue.size wq == 0) ≡ false
      → do_writes w.counts wq ≡ ok (wq', sent)
      → WriteQueue.size wq' ≡ 0
      → (s : Stepped Queue) × (do_state_change d UtpState.writable w h ≡ ok s)
        × (s.after.status ≡ closing)
        × (deletions s.events ≡ 0)
  unfolding do_state_change on_writable write_queued
  writable-closes u wq wq' sent w h l queued run drained =
      let h1 = record h { state = some UtpState.writable } in
      let h2 : UtpHandler Queue = record h1 { write_queue = wq'; is_writable = w.result } in
      let (l3, none3) =
        wake_sender-IsLeft u wq' h2
          (record { pending = l.pending; utp = l.utp; left = l.left; queue = refl }) in
      let woken = wake_sender d h2 in
      let empty : (WriteQueue.size wq' == 0) ≡ true = rw drained refl in
      (
        record {
          after = (closed woken.after u).after;
          events =
              utp_write h.utp (WriteQueue.size h.write_queue) ∷ woken.events ++ utp_close u ∷ [];
        },
        rw
            (
              ap (λ q. WriteQueue.size q == 0) l.queue ∙ queued,
              ap (do_writes w.counts) l.queue ∙ run,
              l3.pending,
              close_utp-closes u wq' woken.after l3 empty,
            )
            refl,
        refl,
        omega (arith, none3, deletions-append woken.events (utp_close u ∷ [])),
      )

  report_closed-deletions : (h : UtpHandler Queue) → deletions (report_closed d h).events ≡ 0
  unfolding report_closed
  report_closed-deletions h =
      if-Holds (λ (s : Stepped Queue). deletions s.events ≡ 0)
        (h.close_pending && is_set h.caller_ref) _ _ refl
        (if-Holds (λ (s : Stepped Queue). deletions s.events ≡ 0) (is_false h.sockopts.active) _ _
          refl (messages-deletions _))

  destroying-keeps :
      (h : UtpHandler Queue)
      → h.status ≡ closing
      → (deletions (on_destroying d h).events ≡ 0)
        × ((on_destroying d h).after.status ≡ Status.destroying)
  unfolding on_destroying
  destroying-keeps h e =
      let off = deselected d h in
      let none_off : deletions off.events ≡ 0 =
        if-Holds (λ (s : Stepped Queue). deletions s.events ≡ 0) h.selected _ _ refl refl in
      let none_reported = report_closed-deletions off.after in
      let test : is_closing h.status ≡ true = ap is_closing e in
      rw test (
        deletions-append off.events (report_closed d off.after).events
            ∙ omega (arith, none_off, none_reported),
        refl,
      )

  -- A handler for which a `close` waits, with a socket, data to write and no DESTROYING yet, is
  -- stopped; then libutp writes all of the data in the WRITABLE callback, and reports DESTROYING.
  -- All three return, and none of them deletes the handler: `close_utp` sets the status `closing`
  -- in place of `stopped` in the callback, and the handler is left with the status `destroying`.
  pub stop-leaks :
      (wr w : WriteRun) (h : UtpHandler Queue) (u : ℕ) (wq : WriteQueue) (sent : List ℕ)
      → h.close_pending ≡ true
      → h.utp ≡ some u
      → is_destroying h.status ≡ false
      → (WriteQueue.size h.write_queue == 0) ≡ false
      → do_writes w.counts h.write_queue ≡ ok (wq, sent)
      → WriteQueue.size wq ≡ 0
      → (s s' : Stepped Queue) × (do_state_change d UtpState.writable w (stop d h).after ≡ ok s)
        × (do_state_change d UtpState.destroying wr s.after ≡ ok s')
        × (deletions (stop d h).events + deletions s.events + deletions s'.events ≡ 0)
        × (s'.after.status ≡ Status.destroying)
  unfolding do_state_change
  stop-leaks wr w h u wq sent pending utp left queued run drained =
      let (l, none_yet) =
        stop-IsLeft u h.write_queue h
          (record { pending = pending; utp = utp; left = left; queue = refl }) queued in
      let (s, writes, closes, none_then) =
        writable-closes u h.write_queue wq sent w (stop d h).after l queued run drained in
      let (none_last, gone) =
        destroying-keeps (record s.after { state = some UtpState.destroying }) closes in
      (s, _, writes, refl, omega (arith, none_yet, none_then, none_last), gone)
