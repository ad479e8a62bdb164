-- ===== src/Connection/Writing.antt =====
-- utp_handler.cc, `outputv` and the calls of `do_write` that `UTP_Write` makes.
use gen_utp.Base.{
  ℕ, zero, suc, ◌+◌, ◌≤◌, ◌<◌, ◌≡◌, refl, ap, ◌∙◌, ◌⊎◌, true, some, List, [], ◌∷◌, ◌++◌, length,
  take, ok, arith, length-append, append_assoc, size_mod, take-append-drop, length-take,
}
use gen_utp.Driver.Defs.{lit, DrvTerm, tuple}
use gen_utp.WriteQueue.{WriteQueue}
use gen_utp.WriteQueue.Fifo.{bytes_of, content, IsValid, pop_bytes_lem}
use gen_utp.Reading.Moving.{sum}
use gen_utp.Connection.Defs.{connected, UtpHandler, message, utp_write, Stepped}
use gen_utp.Connection.Callbacks.{WriteRun, do_write, do_writes}
use gen_utp.Connection.Output.{IoVec, write_data, outputv, utp_reply}
use gen_utp.Connection.Output.Queued.{IsPrefixSize, frame, asked, queue_data_lem}

-- `sent` went out of `wq`, and `wq'` waits with the rest.
abbrev pub Writes : ℕ → WriteQueue → WriteQueue → List ℕ → Type 0
Writes n wq wq' sent = (sent ++ content wq' ≡ content wq) × (length sent ≡ n) × IsValid wq'

do_write_lem :
    (n : ℕ) (wq : WriteQueue)
    → IsValid wq
    → n ≤ length (content wq)
    → (wq' : WriteQueue) × (sent : List ℕ) × (do_write n wq ≡ ok (wq', sent)) × Writes n wq wq' sent
unfolding do_write
do_write_lem zero wq v h = (wq, [], refl, (refl, refl, v))
do_write_lem (suc n) wq v h =
    let (r, run, copied, left, valid) = pop_bytes_lem (suc n) v h in
    (
      r.rest,
      r.copied,
      rw run refl,
      (
        ap (λ xs. xs ++ content r.rest) copied
            ∙ (ap (λ ys. take (suc n) (content wq) ++ ys) left
                ∙ take-append-drop (suc n) (content wq)),
        ap length copied ∙ omega (arith, length-take (suc n) (content wq)),
        valid,
      ),
    )

-- The calls of `do_write` within one `UTP_Write`, for no more bytes than wait on a valid queue, return:
-- together they copy out the first bytes that wait, in order, and leave the rest on a valid queue.
pub do_writes_lem :
    (counts : List ℕ) (wq : WriteQueue)
    → IsValid wq
    → sum counts ≤ length (content wq)
    → (wq' : WriteQueue) × (sent : List ℕ) × (do_writes counts wq ≡ ok (wq', sent))
      × Writes (sum counts) wq wq' sent
unfolding do_writes
do_writes_lem [] wq v h = (wq, [], refl, (refl, refl, v))
do_writes_lem (n ∷ ns) wq v h =
    let (wq1, first, run, (same, long, v1)) = do_write_lem n wq v (omega arith) in
    let left : sum ns ≤ length (content wq1) =
      omega (arith, ap length same, length-append first (content wq1)) in
    let (wq2, more, run', (same', long', v2)) = do_writes_lem ns wq1 v1 left in
    (
      wq2,
      first ++ more,
      rw (run, run') refl,
      (
        append_assoc first more (content wq2) ∙ (ap (λ xs. first ++ xs) same' ∙ same),
        omega (arith, length-append first more),
        v2,
      ),
    )

module _ {Q : Type 0} where
  -- What `outputv` does when the connection takes the data: what waited and then the data with its
  -- size in front is split, in order, into what went out and what waits.
  pub record Takes (from : ℕ) (w : WriteRun) (bytes : List ℕ) (total : ℕ) (h : UtpHandler Q)
      (s : Stepped Q) (sent : List ℕ) : Type 0 where
    pub same : sent ++ content s.after.write_queue ≡ content h.write_queue ++ bytes
    pub long : length sent ≡ sum w.counts
    pub valid : IsValid s.after.write_queue
    pub writable : s.after.is_writable ≡ w.result
    pub events :
        s.events
        ≡ utp_write h.utp total
          ∷ message (utp_reply from h.drv_port (DrvTerm.atom (lit "ok") ∷ tuple 3 ∷ []))
          ∷ []

  abbrev wrote : ℕ → WriteRun → ℕ → WriteQueue → UtpHandler Q → Stepped Q
  wrote from w total wq h = record {
    after = record h { write_queue = wq; is_writable = w.result };
    events =
        utp_write h.utp total
        ∷ message (utp_reply from h.drv_port (DrvTerm.atom (lit "ok") ∷ tuple 3 ∷ []))
        ∷ [];
  }

  write_data_lem :
      (from id : ℕ) (w : WriteRun) (ev : IoVec) (h : UtpHandler Q)
      → (h.sockopts.packet ≡ 0) ⊎ IsPrefixSize h.sockopts.packet
      → IsValid h.write_queue
      → length (bytes_of h.write_queue.queue) + length (frame h.sockopts.packet ev.size ev.entries)
        < size_mod
      → h.sockopts.packet + ev.size < size_mod
      → sum w.counts
        ≤ length (content h.write_queue) + length (frame h.sockopts.packet ev.size ev.entries)
      → (s : Stepped Q) × (sent : List ℕ) × (write_data from id w ev h ≡ ok s)
        × Takes from w
            (frame h.sockopts.packet ev.size ev.entries)
            (asked h.sockopts.packet ev.size)
            h
            s
            sent
  unfolding write_data
  write_data_lem from id w ev h p v fits small enough =
      let bytes = frame h.sockopts.packet ev.size ev.entries in
      let (wq, queued, (waits, v1, long1)) =
        queue_data_lem id h.sockopts.packet ev h.write_queue p v fits small in
      let within : sum w.counts ≤ length (content wq) =
        omega (arith, ap length waits, length-append (content h.write_queue) bytes) in
      let (wq', sent, run, (same, long, v2)) = do_writes_lem w.counts wq v1 within in
      (
        wrote from w (asked h.sockopts.packet ev.size) wq' h,
        sent,
        rw (queued, run) refl,
        record { same = same ∙ waits; long = long; valid = v2; writable = refl; events = refl },
      )

  outputv-open :
      (from id u : ℕ) (w : WriteRun) (ev : IoVec) (h : UtpHandler Q)
      → h.status ≡ connected
      → h.utp ≡ some u
      → h.is_writable ≡ true
      → outputv from id w ev h ≡ write_data from id w ev h
  unfolding outputv
  outputv-open from id u w ev h status utp writable = rw (status, utp, writable) refl

  -- `outputv` on a connection that is open and can send returns, for a `packet` of 0, 1, 2 or 4, bytes
  -- that fit the address space, and a libutp that asks for no more than waits: what waited, and then, if
  -- the vector's size is not 0, that size in `packet` bytes and what its entries hold (their bytes, or
  -- the whole binary of an entry without bytes), is split, in order, into what went out and what
  -- waits; the caller is answered `ok`, and `UTP_Write` is asked for `packet` and the size together.
  pub outputv-Takes :
      (from id u : ℕ) (w : WriteRun) (ev : IoVec) (h : UtpHandler Q)
      → h.status ≡ connected
      → h.utp ≡ some u
      → h.is_writable ≡ true
      → (h.sockopts.packet ≡ 0) ⊎ IsPrefixSize h.sockopts.packet
      → IsValid h.write_queue
      → length (bytes_of h.write_queue.queue) + length (frame h.sockopts.packet ev.size ev.entries)
        < size_mod
      → h.sockopts.packet + ev.size < size_mod
      → sum w.counts
        ≤ length (content h.write_queue) + length (frame h.sockopts.packet ev.size ev.entries)
      → (s : Stepped Q) × (sent : List ℕ) × (outputv from id w ev h ≡ ok s)
        × Takes from w
            (frame h.sockopts.packet ev.size ev.entries)
            (asked h.sockopts.packet ev.size)
            h
            s
            sent
  outputv-Takes from id u w ev h status utp writable p v fits small enough =
      let (s, sent, run, t) = write_data_lem from id w ev h p v fits small enough in
      (s, sent, outputv-open from id u w ev h status utp writable ∙ run, t)
