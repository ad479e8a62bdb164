-- ===== src/Reading/Raw.antt =====
-- `emit_read_buffer` in raw mode: which bytes go out, in how many messages, and what stays queued.
use gen_utp.Base.{
  ℕ, zero, suc, ◌+◌, ◌%◌, ◌^◌, ◌≤◌, ◌<◌, ◌≡◌, refl, sym, ap, ◌∙◌, true, false, List, [], ◌∷◌, ◌++◌,
  length, take, le→ltb, ◌==◌, if◌then◌else◌, Result, ok, arith, append-nil, length-take,
  length-drop, take-append-drop,
}
use gen_utp.Driver.Defs.{Message}
use gen_utp.Driver.Queue.{DrvQueue, DrvQueueLaws, content}
use gen_utp.Options.Defs.{Active, active_false, active_once, active_true, SockOpts}
use gen_utp.Reading.Defs.{
  Socket, Receiver, reduce_read_count, packet_size, is_false, is_true, after_once, Emitting,
  next_buffer, emit_loop, Emitted, emit_from, emitting, emit_passive, emit_read_buffer,
  move_read_data, packet_message,
}
use gen_utp.Reading.Moving.{sum, reduce_loop_lem, payload, payloads}
use gen_utp.Reading.Addressed.{IsFor, packet_message-IsFor}
use gen_utp.Reading.Delivery.{
  AllAtLeast, AllMessages, Counted, move_read_data_lem, message_lem, emit_loop_lem,
}

module _ (d : DrvQueue) (laws : DrvQueueLaws d) where
  open d use {Queue, sizeq, peekq, deq, enq}

  abbrev pub finished : Emitting d → Socket Queue → Emitted d
  finished e s = record {
    sock =
        (let so = s.sockopts in
          record s {
            queue = e.queue;
            read_count = e.read_count;
            sockopts = record so { active = after_once so.active };
          });
    sent = true;
    new_qsize = sizeq e.queue;
    messages = e.messages;
  }

  -- What a call that sends has done: `bytes` went out, in well-formed messages, the rest stays
  -- queued, and the counts still add up.
  pub record Delivers (s : Socket Queue) (bytes : List ℕ) (e : Emitted d) : Type 0 where
    pub sent : e.sent ≡ true
    pub delivered : payloads e.messages ≡ bytes
    pub kept : bytes ++ content d e.sock.queue ≡ content d s.queue
    pub counted : Counted d laws e.sock.queue e.sock.read_count
    pub shaped : AllMessages e.messages
    pub qsize : e.new_qsize ≡ length (content d e.sock.queue)

  -- A single message, and whom it is for.
  abbrev pub Alone : ℕ → Receiver → List Message → Type 0
  Alone drv_port rcvr ms =
      (m : Message) × (ms ≡ m ∷ []) × IsFor drv_port rcvr rcvr.send_to_connected m

  pub emit_from_lem :
      (k : ℕ) (rcvr : Receiver) (e e' : Emitting d) (s : Socket Queue)
      → emit_loop d k s.drv_port s.sockopts rcvr e ≡ ok e'
      → emit_from d k rcvr e s ≡ ok (finished e' s)
  unfolding emit_from
  emit_from_lem k rcvr e e' s run = rw run

  next_buffer_lem : (buf : List ℕ) (e : Emitting d) → 0 < length buf → next_buffer d buf e ≡ ok e
  unfolding next_buffer
  next_buffer_lem [] e h = absurd (omega arith)
  next_buffer_lem (b ∷ bs) e h = refl

  -- The variables of the loop where `n` bytes have been moved already.
  abbrev pub moved : Queue → List ℕ → ℕ → Emitting d
  moved q counts n = record {
    queue = (move_read_data d (peekq q) [] n q).1;
    read_count = counts;
    vec = peekq q;
    buf = (move_read_data d (peekq q) [] n q).0;
    pkt_size = n;
    messages = [];
  }

  pub send_moved :
      (drv_port : ℕ) (so : SockOpts) (rcvr : Receiver) (q : Queue) (counts : List ℕ) (n : ℕ)
      (m : Message)
      → 0 < length (move_read_data d (peekq q) [] n q).0
      → packet_message drv_port so rcvr (move_read_data d (peekq q) [] n q).0 n ≡ ok m
      → emit_loop d 1 drv_port so rcvr (moved q counts n)
        ≡ ok (let e = moved q counts n in record e { messages = m ∷ [] })
  unfolding emit_loop
  send_moved drv_port so rcvr q counts n m h sent =
      rw (next_buffer_lem _ (moved q counts n) h, sent)

  -- `n` bytes that were moved go out in one message.
  module _ (s : Socket Queue) (small : length (content d s.queue) < 2 ^ 32) where
    open s use {queue, sockopts}

    emit_moved :
        (rcvr : Receiver) (counts : List ℕ) (n : ℕ)
        → 0 < n
        → n ≤ length (content d queue)
        → sockopts.header ≤ n
        → sum counts + n ≡ length (content d queue)
        → (e : Emitted d) × (emit_from d 1 rcvr (moved queue counts n) s ≡ ok e)
          × Delivers s (take n (content d queue)) e
          × Alone s.drv_port rcvr e.messages
    emit_moved rcvr counts n pos h fits total =
        let (bytes, left) = move_read_data_lem d laws queue n h small in
        let full : 0 < length (move_read_data d (peekq queue) [] n queue).0 =
          rw bytes (omega (arith, length-take n (content d queue))) in
        let (m, sent, same, shape) =
          message_lem d laws s.drv_port sockopts rcvr queue n h fits small in
        (
          _,
          emit_from_lem 1 rcvr (moved queue counts n) _ s
              (send_moved s.drv_port sockopts rcvr queue counts n m full sent),
          record {
            sent = refl;
            delivered = append-nil (payload m) ∙ (same ∙ bytes);
            kept = rw left (take-append-drop n (content d queue));
            counted = rw left (omega (arith, length-drop n (content d queue)));
            shaped = (shape, tt);
            qsize = laws.sizeq_lem _;
          },
          (m, refl, packet_message-IsFor s.drv_port sockopts rcvr _ n m sent),
        )

    -- A `k` of the counts that wait go out in `k` messages.
    emit_waiting :
        (rcvr : Receiver) (k : ℕ)
        → k ≤ length s.read_count
        → Counted d laws queue s.read_count
        → AllAtLeast sockopts.header s.read_count
        → (e : Emitted d) × (emit_from d k rcvr (emitting d s) s ≡ ok e)
          × Delivers s (payloads e.messages) e
          × (length e.messages ≡ k)
          × (length e.sock.read_count + k ≡ length s.read_count)
          × (e.sock.sockopts.active ≡ after_once sockopts.active)
    emit_waiting rcvr k enough counted fits =
        let (e, run, done, more, fewer) =
          emit_loop_lem d laws k s.drv_port sockopts rcvr queue s.read_count 0 [] enough counted
            fits small tt in
        (
          finished e s,
          emit_from_lem k rcvr (emitting d s) e s run,
          record {
            sent = refl;
            delivered = refl;
            kept = done.bytes;
            counted = done.counted;
            shaped = done.shaped;
            qsize = laws.sizeq_lem e.queue;
          },
          omega (arith, more),
          fewer,
          refl,
        )

  -- The state of a socket in raw mode with something queued.
  pub record Ready (s : Socket Queue) : Type 0 where
    pub open_ : s.close_pending ≡ false
    pub raw : s.sockopts.packet ≡ 0
    pub some_queued : 0 < length (content d s.queue)
    pub small : length (content d s.queue) < 2 ^ 32
    pub counted : Counted d laws s.queue s.read_count
    pub header_fits : AllAtLeast s.sockopts.header s.read_count

  packet_size-zero : (n : ℕ) (vec : List (List ℕ)) → n ≡ 0 → packet_size n vec ≡ ok 0
  unfolding packet_size
  packet_size-zero n vec e = rw e

  abbrev by_active : ℕ → Receiver → Socket Queue → Active → Result (Emitted d)
  by_active len rcvr s a =
      if is_false a
      then emit_passive d len rcvr s
      else emit_from d (if is_true a then length s.read_count else 1) rcvr (emitting d s) s

  emit_read_buffer_queued :
      (len : ℕ) (rcvr : Receiver) (qsize : ℕ) (s : Socket Queue)
      → Ready s
      → len ≤ length (content d s.queue)
      → emit_read_buffer d len rcvr qsize s ≡ by_active len rcvr s s.sockopts.active
  unfolding emit_read_buffer
  emit_read_buffer_queued len rcvr qsize s r h =
      rw
        (
          r.open_,
          not_zero,
          le→ltb (sizeq s.queue) len (omega (arith, laws.sizeq_lem s.queue)),
          le→ltb (sizeq s.queue) s.sockopts.packet (omega (arith, r.raw)),
          packet_size-zero s.sockopts.packet (peekq s.queue) r.raw,
        )
        refl
    where
      not_zero : (sizeq s.queue == 0) ≡ false
      not_zero = ground (arith, laws.sizeq_lem s.queue, r.some_queued)

  -- With `active` true, `emit_read_buffer` returns; one message goes out for each count, together
  -- they carry every queued byte in order, each makes one term, and nothing stays queued.
  pub emit_read_buffer_active :
      (rcvr : Receiver) (qsize : ℕ) (s : Socket Queue)
      → Ready s
      → s.sockopts.active ≡ active_true
      → (e : Emitted d) × (emit_read_buffer d 0 rcvr qsize s ≡ ok e)
        × Delivers s (content d s.queue) e
        × (length e.messages ≡ length s.read_count)
        × (content d e.sock.queue ≡ [])
        × (e.sock.sockopts.active ≡ active_true)
  emit_read_buffer_active rcvr qsize s r a =
      let (e, run, done, count, left, act) =
        emit_waiting s r.small rcvr (length s.read_count) (omega arith) r.counted r.header_fits in
      let drained : content d e.sock.queue ≡ [] =
        no_counts e.sock.read_count (content d e.sock.queue) done.counted (omega (arith, left)) in
      let all : payloads e.messages ≡ content d s.queue =
        sym (append-nil (payloads e.messages))
        ∙ (ap (λ xs. payloads e.messages ++ xs) (sym drained) ∙ done.kept) in
      (
        e,
        emit_read_buffer_queued 0 rcvr qsize s r (omega arith) ∙ (ap (by_active 0 rcvr s) a ∙ run),
        rw (← all) done,
        count,
        drained,
        act ∙ ap after_once a,
      )
    where
      no_counts : (counts xs : List ℕ) → sum counts ≡ length xs → length counts ≡ 0 → xs ≡ []
      no_counts [] [] e h = refl
      no_counts [] (x ∷ xs) e h = absurd (omega arith)
      no_counts (c ∷ counts) xs e h = absurd (omega arith)

  -- With `active` once, `emit_read_buffer` returns; a single message goes out, it carries the
  -- bytes of the first count, and the socket is passive afterwards.
  pub emit_read_buffer_once :
      (rcvr : Receiver) (qsize : ℕ) (s : Socket Queue)
      → Ready s
      → s.sockopts.active ≡ active_once
      → (e : Emitted d) × (emit_read_buffer d 0 rcvr qsize s ≡ ok e)
        × Delivers s (payloads e.messages) e
        × (length e.messages ≡ 1)
        × (length e.sock.read_count + 1 ≡ length s.read_count)
        × (e.sock.sockopts.active ≡ active_false)
  emit_read_buffer_once rcvr qsize s r a =
      let (e, run, done, count, left, act) =
        emit_waiting s r.small rcvr 1 (one s.read_count (omega (arith, r.counted, r.some_queued)))
          r.counted r.header_fits in
      (
        e,
        emit_read_buffer_queued 0 rcvr qsize s r (omega arith) ∙ (ap (by_active 0 rcvr s) a ∙ run),
        done,
        count,
        left,
        act ∙ ap after_once a,
      )
    where
      one : (counts : List ℕ) → 0 < sum counts → 1 ≤ length counts
      one [] h = absurd (omega arith)
      one (c ∷ counts) h = omega arith

  -- How much a passive call takes: what was asked for, or everything for 0.
  abbrev pub asked : ℕ → Socket Queue → ℕ
  asked zero s = length (content d s.queue)
  asked (suc len) s = suc len

  -- With `active` false, `emit_read_buffer` of a ready socket, asked for no more than is queued and no less
  -- than the header, returns: one message goes out, to the connected process or to the receiver under
  -- its reference as the receiver says, well formed and with exactly the bytes asked for, or all of
  -- them for length 0; the rest stays queued, and the read counts add up to it.
  pub emit_read_buffer_passive :
      (len : ℕ) (rcvr : Receiver) (qsize : ℕ) (s : Socket Queue)
      → Ready s
      → s.sockopts.active ≡ active_false
      → len ≤ length (content d s.queue)
      → s.sockopts.header ≤ asked len s
      → (e : Emitted d) × (emit_read_buffer d len rcvr qsize s ≡ ok e)
        × Delivers s (take (asked len s) (content d s.queue)) e
        × Alone s.drv_port rcvr e.messages
  unfolding emit_passive reduce_read_count
  emit_read_buffer_passive zero rcvr qsize s r a h fits =
      let (e, run, done, alone) =
        emit_moved s r.small rcvr [] (length (content d s.queue)) r.some_queued (omega arith) fits
          (omega arith) in
      let n : sizeq s.queue % 2 ^ 32 ≡ length (content d s.queue) =
        omega (arith, laws.sizeq_lem s.queue, r.small) in
      (
        e,
        emit_read_buffer_queued 0 rcvr qsize s r (omega arith)
            ∙ (ap (by_active 0 rcvr s) a ∙ rw n run),
        done,
        alone,
      )
  emit_read_buffer_passive (suc len) rcvr qsize s r a h fits =
      let (left, reduced, total) =
        reduce_loop_lem s.read_count 0 (suc len) (omega arith) (omega (arith, r.counted))
          (omega (arith, r.counted, r.small)) in
      let (e, run, done, alone) =
        emit_moved s r.small rcvr left (suc len) (omega arith) h fits (omega (arith, r.counted)) in
      let n : suc len % 2 ^ 32 ≡ suc len = omega (arith, r.small) in
      let asks : (suc len == 0) ≡ false = ground arith in
      (
        e,
        emit_read_buffer_queued (suc len) rcvr qsize s r h
            ∙ (ap (by_active (suc len) rcvr s) a ∙ rw (asks, n, reduced) run),
        done,
        alone,
      )
