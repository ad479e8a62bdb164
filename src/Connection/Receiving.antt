-- ===== src/Connection/Receiving.antt =====
-- utp_handler.cc, `do_read`: data of libutp goes through the runtime's queue to the Erlang side.
use gen_utp.Base.{
  ℕ, ◌+◌, ◌^◌, ◌≤◌, ◌<◌, ◌≡◌, refl, ap, ◌∙◌, true, false, List, [], ◌∷◌, ◌++◌, map, length, ◌==◌,
  ==_iff, ok, arith, length-append,
}
use gen_utp.Driver.Defs.{Message}
use gen_utp.Driver.Queue.{DrvQueue, DrvQueueLaws, content}
use gen_utp.Options.Defs.{active_true}
use gen_utp.Reading.Defs.{connected_receiver, is_false, Emitted, emit_read_buffer}
use gen_utp.Reading.Moving.{sum, payloads}
use gen_utp.Reading.Delivery.{AllAtLeast, AllMessages, Counted}
use gen_utp.Reading.Raw.{Ready, emit_read_buffer_active}
use gen_utp.Connection.Defs.{UtpHandler, message, rb_drained, Stepped}
use gen_utp.Connection.Callbacks.{received, read_done, do_read}

sum-append : (xs : List ℕ) (n : ℕ) → sum (xs ++ n ∷ []) ≡ sum xs + n
sum-append [] n = omega arith
sum-append (x ∷ xs) n = omega (arith, sum-append xs n)

AllAtLeast-append : (h n : ℕ) (xs : List ℕ) → AllAtLeast h xs → h ≤ n → AllAtLeast h (xs ++ n ∷ [])
AllAtLeast-append h n [] all le = (le, tt)
AllAtLeast-append h n (x ∷ xs) all le = (all.0, AllAtLeast-append h n xs all.1 le)

module _ (d : DrvQueue) (laws : DrvQueueLaws d) where
  open d use {Queue, enq}

  -- A connection in active, raw mode that goes on to receive.
  pub record Receives (h : UtpHandler Queue) : Type 0 where
    pub open_ : h.close_pending ≡ false
    pub raw : h.sockopts.packet ≡ 0
    pub active : h.sockopts.active ≡ active_true
    pub counted : Counted d laws h.queue h.read_count
    pub header_fits : AllAtLeast h.sockopts.header h.read_count

  received-Ready :
      (b : ℕ) (bytes : List ℕ) (h : UtpHandler Queue)
      → Receives h
      → h.sockopts.header ≤ length (b ∷ bytes)
      → length (content d h.queue) + length (b ∷ bytes) < 2 ^ 32
      → Ready d laws (received d (b ∷ bytes) h).sock
  received-Ready b bytes h r fits small = record {
    open_ = r.open_;
    raw = r.raw;
    some_queued = omega (arith, total);
    small = omega (arith, total);
    counted = omega (arith, total, sum-append h.read_count (length (b ∷ bytes)), r.counted);
    header_fits =
        AllAtLeast-append h.sockopts.header (length (b ∷ bytes)) h.read_count r.header_fits fits;
  }
    where
      total :
          length (content d (enq h.queue (b ∷ bytes)))
          ≡ length (content d h.queue) + length (b ∷ bytes)
      total =
          ap length (laws.content-enq h.queue (b ∷ bytes))
          ∙ length-append (content d h.queue) (b ∷ bytes)

  do_read_runs :
      (b : ℕ) (bytes : List ℕ) (h : UtpHandler Queue) (e : Emitted d)
      → is_false h.sockopts.active ≡ false
      → emit_read_buffer d 0 connected_receiver 1 (received d (b ∷ bytes) h).sock ≡ ok e
      → do_read d (b ∷ bytes) h ≡ ok (read_done d (received d (b ∷ bytes) h) false e)
  unfolding do_read
  do_read_runs b bytes h e on run = rw (on, run)

  -- `do_read` of some bytes on a connection in active, raw mode with no close pending, where the read counts
  -- add up to what is queued and each of them and the new bytes cover the header, and fewer than 2^32 bytes
  -- are then queued, returns: the messages carry what was queued and then the bytes, each makes one term,
  -- one goes out for each count, nothing stays queued, and libutp is told so.
  pub do_read_active :
      (b : ℕ) (bytes : List ℕ) (h : UtpHandler Queue)
      → Receives h
      → h.sockopts.header ≤ length (b ∷ bytes)
      → length (content d h.queue) + length (b ∷ bytes) < 2 ^ 32
      → (s : Stepped Queue) × (ms : List Message) × (do_read d (b ∷ bytes) h ≡ ok s)
        × (s.events ≡ map message ms ++ rb_drained h.utp ∷ [])
        × (payloads ms ≡ content d h.queue ++ b ∷ bytes)
        × AllMessages ms
        × (length ms ≡ length h.read_count + 1)
        × (content d s.after.queue ≡ [])
  do_read_active b bytes h r fits small =
      let h' = received d (b ∷ bytes) h in
      let (e, run, done, count, drained, act) =
        emit_read_buffer_active d laws connected_receiver 1 h'.sock
          (received-Ready b bytes h r fits small) r.active in
      let empty : (e.new_qsize == 0) ≡ true =
        (==_iff e.new_qsize 0).1 (done.qsize ∙ ap length drained) in
      (
        read_done d h' false e,
        e.messages,
        do_read_runs b bytes h e (ap is_false r.active) run,
        rw empty refl,
        done.delivered ∙ laws.content-enq h.queue (b ∷ bytes),
        done.shaped,
        count ∙ length-append h.read_count (length (b ∷ bytes) ∷ []),
        drained,
      )
