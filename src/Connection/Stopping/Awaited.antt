-- ===== src/Connection/Stopping/Awaited.antt =====
-- utp_handler.cc, `stop` of a handler that libutp still uses: what calls libutp back makes of it until
-- DESTROYING.
use gen_utp.Base.{
  ℕ, ◌+◌, ◌≡◌, refl, subst, ◌∙◌, ◌⊎◌, inl, inr, true, false, ◌&&◌, Bool, Bool-cases, Option, none,
  some, List, [], ◌∷◌, ◌++◌, ◌==◌, Result, ok, Leaves, bind-Leaves, either-Leaves, if-Holds, arith,
}
use gen_utp.Driver.Queue.{DrvQueue}
use gen_utp.WriteQueue
use gen_utp.WriteQueue.{WriteQueue}
use gen_utp.Connection.Defs.{
  stopped, UtpState, UtpHandler, Event, deleted, Stepped, close_on, close_utp, is_destroying,
}
use gen_utp.Connection.Callbacks.{
  WriteRun, do_error, do_writes, write_queued, wake_sender, on_writable, on_eof, do_state_change,
}
use gen_utp.Connection.Control.{emptied, stop, stop_with}
use gen_utp.Connection.Closing.{Callback, at_eof, at_writable, at_error, callback}
use gen_utp.Connection.Stopping.{
  deletions, deletions-append, close_on-deletions, dropped, dropped-deletions, destroying-deletes,
}

module _ (d : DrvQueue) where
  open d use {Queue, sizeq}

  -- Callbacks one after another, with the number of times that they delete the handler.
  pub data Passes : UtpHandler Queue → ℕ → UtpHandler Queue → Type 0 where
    here : {h : UtpHandler Queue} → Passes h 0 h
    next :
        {h h' : UtpHandler Queue} {n k : ℕ} (c : Callback) (s : Stepped Queue)
        → callback d c h ≡ ok s
        → Passes s.after n h'
        → k ≡ deletions s.events + n
        → Passes h k h'

  -- The handler is stopped, and nobody waits for it to close.
  pub record IsAwaited (h : UtpHandler Queue) : Type 0 where
    pub status : h.status ≡ stopped
    pub not_pending : h.close_pending ≡ false

  -- A step that deletes nothing and leaves it so.
  abbrev Stays : Stepped Queue → Type 0
  Stays s = IsAwaited s.after × (deletions s.events ≡ 0)

  abbrev LeavesStays : Result (Stepped Queue) → Type 0
  LeavesStays r = Leaves Stays r

  write_queued-LeavesStays :
      (w : WriteRun) (h : UtpHandler Queue) → IsAwaited h → LeavesStays (write_queued d w h)
  unfolding write_queued
  write_queued-LeavesStays w h a =
      either-Leaves Stays (WriteQueue.size h.write_queue == 0) _ _
        (record { status = a.status; not_pending = a.not_pending }, refl)
        (bind-Leaves Stays (do_writes w.counts h.write_queue) _
          (λ x e. (record { status = a.status; not_pending = a.not_pending }, refl)))

  wake_sender-Stays : (h : UtpHandler Queue) → IsAwaited h → Stays (wake_sender d h)
  unfolding wake_sender
  wake_sender-Stays h a =
      if-Holds Stays (h.is_writable && h.sender_waiting) _ _
        (record { status = a.status; not_pending = a.not_pending }, refl) (a, refl)

  on_writable-LeavesStays :
      (w : WriteRun) (h : UtpHandler Queue) → IsAwaited h → LeavesStays (on_writable d w h)
  unfolding on_writable
  on_writable-LeavesStays w h a = bind-Leaves Stays (write_queued d w h) _ (λ wrote e.
      let (a1, none1) = subst LeavesStays e (write_queued-LeavesStays w h a) in
      let (a2, none2) = wake_sender-Stays wrote.after a1 in
      let woken = wake_sender d wrote.after in
      rw a2.not_pending (
        a2,
        deletions-append wrote.events (woken.events ++ [])
            ∙ omega (arith, none1, none2, deletions-append woken.events []),
      ))

  callback-LeavesStays :
      (c : Callback) (h : UtpHandler Queue) → IsAwaited h → LeavesStays (callback d c h)
  unfolding do_state_change on_eof do_error
  callback-LeavesStays at_eof h a =
      rw a.status (record { status = refl; not_pending = a.not_pending }, refl)
  callback-LeavesStays (at_writable w) h a =
      on_writable-LeavesStays w (record h { state = some UtpState.writable })
        (record { status = a.status; not_pending = a.not_pending })
  callback-LeavesStays (at_error n) h a =
      rw a.status (record { status = refl; not_pending = a.not_pending }, refl)

  Passes-IsAwaited :
      {h h' : UtpHandler Queue} {n : ℕ} → Passes h n h' → IsAwaited h → IsAwaited h' × (n ≡ 0)
  Passes-IsAwaited here a = (a, refl)
  Passes-IsAwaited (next {h} c s run more k) a =
      let (a', off) = subst LeavesStays run (callback-LeavesStays c h a) in
      let (last, n) = Passes-IsAwaited more a' in (last, omega (arith, k, off, n))

  -- The fields that `close_utp` and the emptying of the queue leave: whether DESTROYING was reported, and
  -- whether somebody waits.
  abbrev Same : UtpHandler Queue → UtpHandler Queue → Type 0
  Same h x = (is_destroying x.status ≡ is_destroying h.status) × (x.close_pending ≡ h.close_pending)

  close_on-Same : (h : UtpHandler Queue) (u : Option ℕ) → Same h (close_on h u).after
  unfolding close_on is_destroying
  close_on-Same h none = (refl, refl)
  close_on-Same h (some u) = elim (Bool-cases (is_destroying h.status)) [
    | inl e ↦ rw e (e, refl)
    | inr e ↦ elim (Bool-cases (WriteQueue.size h.write_queue == 0)) [
      | inl f ↦ rw (e, f) (refl, refl)
      | inr f ↦ rw (e, f) (e, refl)
    ]
  ]

  emptied-Same : (h : UtpHandler Queue) → Same h (emptied d h)
  emptied-Same h = if-Holds (Same h) (sizeq h.queue == 0) _ _ (refl, refl) (refl, refl)

  -- What `stop` makes of a handler for which nobody waits: the events delete it at once, or not at all.
  abbrev Stops : Bool → Stepped Queue → Type 0
  Stops true s = deletions s.events ≡ 1
  Stops false s = Stays s

  stop_with-Stops :
      (h x : UtpHandler Queue) (es : List Event) (qsize : ℕ)
      → deletions es ≡ 0
      → Same h x
      → h.close_pending ≡ false
      → Stops (is_destroying h.status) (stop_with x es qsize)
  stop_with-Stops h x es qsize e (same, pending) p =
      let off = dropped-deletions d es qsize e in
      elim (Bool-cases (is_destroying h.status)) [
        | inl gone ↦
            rw (same, gone)
              (deletions-append (dropped d es qsize) (deleted ∷ []) ∙ omega (arith, off))
        | inr left ↦ rw (same, left) (record { status = refl; not_pending = pending ∙ p }, off)
      ]

  stop-Stops :
      (h : UtpHandler Queue) → h.close_pending ≡ false → Stops (is_destroying h.status) (stop d h)
  unfolding stop close_utp
  stop-Stops h p =
      let closed = close_on h h.utp in
      let (same, pending) = close_on-Same h h.utp in
      let (same', pending') = emptied-Same closed.after in
      stop_with-Stops h (emptied d closed.after) closed.events (sizeq closed.after.queue)
        (close_on-deletions d h h.utp) (same' ∙ same, pending' ∙ pending) p

  -- `stop` of a handler that no `close` waits for deletes it exactly once. After DESTROYING it does so at
  -- once. Otherwise it does not, and neither does any end-of-file, writable or error callback that
  -- follows, in whatever order; then the state change to DESTROYING does.
  pub stop-Deletes :
      (wr : WriteRun) (h h' : UtpHandler Queue) (n : ℕ)
      → h.close_pending ≡ false
      → Passes (stop d h).after n h'
      → ((is_destroying h.status ≡ true) × (deletions (stop d h).events ≡ 1))
        ⊎ ((is_destroying h.status ≡ false)
            × (deletions (stop d h).events + n ≡ 0)
            × (s : Stepped Queue) × (do_state_change d UtpState.destroying wr h' ≡ ok s)
            × (deletions s.events ≡ 1))
  stop-Deletes wr h h' n p passes = elim (Bool-cases (is_destroying h.status)) [
    | inl gone ↦ inl (gone, subst (λ b. Stops b (stop d h)) gone (stop-Stops h p))
    | inr left ↦
        let (a, off) = subst (λ b. Stops b (stop d h)) left (stop-Stops h p) in
        let (a', none_more) = Passes-IsAwaited passes a in
        let (s, run, one) = destroying-deletes d wr h' a'.status in
        inr (left, omega (arith, off, none_more), s, run, one)
  ]
