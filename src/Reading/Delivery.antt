-- ===== src/Reading/Delivery.antt =====
-- The last loop of `emit_read_buffer`: what it sends is what it takes off the queue.
use gen_utp.Base.{
  ℕ, zero, suc, ◌+◌, ◌%◌, ◌^◌, ◌≤◌, ◌<◌, ◌≡◌, refl, sym, ap, ◌∙◌, List, [], ◌∷◌, ◌++◌, length, take,
  drop, ok, arith, append-nil, append_assoc, length-append, length-take, length-drop,
  take-append-drop,
}
use gen_utp.Driver.Defs.{Message}
use gen_utp.Driver.Shape.{IsMessage}
use gen_utp.Driver.Queue.{DrvQueue, DrvQueueLaws, content}
use gen_utp.Options.Defs.{SockOpts}
use gen_utp.Reading.Defs.{Receiver, Emitting, next_round, emit_loop, move_read_data, packet_message}
use gen_utp.Reading.Moving.{sum, move_loop_lem, payload, payloads, packet_message_lem}

payloads-append :
    (ms : List Message) (m : Message) → payloads (ms ++ m ∷ []) ≡ payloads ms ++ payload m
payloads-append [] m = append-nil (payload m)
payloads-append (x ∷ ms) m =
    ap (λ ys. payload x ++ ys) (payloads-append ms m)
    ∙ sym (append_assoc (payload x) (payloads ms) (payload m))

-- Each of the counts is at least `h`.
abbrev pub AllAtLeast : ℕ → List ℕ → Type 0
AllAtLeast h [] = Unit {0}
AllAtLeast h (c ∷ cs) = (h ≤ c) × AllAtLeast h cs

abbrev pub AllMessages : List Message → Type 0
AllMessages [] = Unit {0}
AllMessages (m ∷ ms) = IsMessage m × AllMessages ms

pub AllMessages-append :
    (ms : List Message) (m : Message) → AllMessages ms → IsMessage m → AllMessages (ms ++ m ∷ [])
AllMessages-append [] m a h = (h, tt)
AllMessages-append (x ∷ ms) m a h = (a.0, AllMessages-append ms m a.1 h)

module _ (d : DrvQueue) (laws : DrvQueueLaws d) where
  open d use {Queue, sizeq, peekq, deq, enq}

  -- The counts add up to what is queued.
  abbrev pub Counted : Queue → List ℕ → Type 0
  Counted q counts = sum counts ≡ length (content d q)

  -- `move_read_data` from the queue's own vector.
  pub move_read_data_lem :
      (q : Queue) (pkt_size : ℕ)
      → pkt_size ≤ length (content d q)
      → length (content d q) < 2 ^ 32
      → ((move_read_data d (peekq q) [] pkt_size q).0 ≡ take pkt_size (content d q))
        × (content d (move_read_data d (peekq q) [] pkt_size q).1 ≡ drop pkt_size (content d q))
  unfolding move_read_data
  move_read_data_lem q pkt_size h small = (
    move_loop_lem (peekq q) pkt_size 0 [] (omega arith) (omega arith) (omega arith)
        ∙ ap (λ k. take k (content d q)) (omega arith),
    laws.content-deq q pkt_size (omega (arith, laws.sizeq_lem q)),
  )

  -- What a round of the last loop, or the whole loop, has sent, on top of what was sent before.
  pub record Sent (before : List ℕ) (e : Emitting d) : Type 0 where
    pub bytes : payloads e.messages ++ content d e.queue ≡ before
    pub counted : Counted e.queue e.read_count
    pub shaped : AllMessages e.messages

  -- The variables of the loop where a count is to be taken.
  abbrev pub waiting : Queue → List ℕ → ℕ → List Message → Emitting d
  waiting q counts pkt_size ms = record {
    queue = q;
    read_count = counts;
    vec = peekq q;
    buf = [];
    pkt_size = pkt_size;
    messages = ms;
  }

  -- What one message adds to what was sent is what leaves the queue.
  pub sent_bytes :
      (q : Queue) (c : ℕ) (ms : List Message) (m : Message)
      → c ≤ length (content d q)
      → length (content d q) < 2 ^ 32
      → payload m ≡ (move_read_data d (peekq q) [] c q).0
      → payloads (ms ++ m ∷ []) ++ content d (move_read_data d (peekq q) [] c q).1
        ≡ payloads ms ++ content d q
  sent_bytes q c ms m h small e =
      let (moved, left) = move_read_data_lem q c h small in
      rw (payloads-append ms m, e, moved, left, append_assoc (payloads ms) (take c (content d q)))
        (ap (λ xs. payloads ms ++ xs) (take-append-drop c (content d q)))

  left-Counted :
      (q : Queue) (c : ℕ) (counts : List ℕ)
      → Counted q (c ∷ counts)
      → length (content d q) < 2 ^ 32
      → Counted (move_read_data d (peekq q) [] c q).1 counts
  left-Counted q c counts h small =
      rw (move_read_data_lem q c (omega arith) small).1 (omega (arith, length-drop c (content d q)))

  -- The variables after a count was taken and its message sent.
  abbrev taken : Queue → ℕ → List ℕ → List Message → Emitting d
  taken q c counts ms = record {
    queue = (move_read_data d (peekq q) [] c q).1;
    read_count = counts;
    vec = peekq q;
    buf = (move_read_data d (peekq q) [] c q).0;
    pkt_size = c;
    messages = ms;
  }

  round_lem :
      (k drv_port : ℕ) (so : SockOpts) (rcvr : Receiver) (q : Queue) (c : ℕ) (counts : List ℕ)
      (pkt_size : ℕ) (ms : List Message) (m : Message)
      → c % 2 ^ 32 ≡ c
      → packet_message drv_port so rcvr (move_read_data d (peekq q) [] c q).0 c ≡ ok m
      → emit_loop d (suc k) drv_port so rcvr (waiting q (c ∷ counts) pkt_size ms)
        ≡ emit_loop d k drv_port so rcvr (next_round d k (taken q c counts (ms ++ m ∷ [])))
  unfolding emit_loop
  round_lem k drv_port so rcvr q c counts pkt_size ms m e sent = rw (e, sent)

  -- The message of a round.
  pub message_lem :
      (drv_port : ℕ) (so : SockOpts) (rcvr : Receiver) (q : Queue) (c : ℕ)
      → c ≤ length (content d q)
      → so.header ≤ c
      → length (content d q) < 2 ^ 32
      → (m : Message) × (packet_message drv_port so rcvr (move_read_data d (peekq q) [] c q).0 c
          ≡ ok m)
        × (payload m ≡ (move_read_data d (peekq q) [] c q).0)
        × IsMessage m
  message_lem drv_port so rcvr q c h fits small =
      let full : c ≡ length (move_read_data d (peekq q) [] c q).0 =
        rw (move_read_data_lem q c h small).0 (omega (arith, length-take c (content d q))) in
      let (m, sent, same, shape, size) =
        packet_message_lem drv_port so rcvr _ c full fits (omega arith) in
      (m, sent, same, shape)

  -- The last loop of `emit_read_buffer` with `k` counts to take: it returns, and has sent `k` more
  -- messages that carry exactly the bytes that left the queue.
  pub emit_loop_lem :
      (k drv_port : ℕ) (so : SockOpts) (rcvr : Receiver) (q : Queue) (counts : List ℕ)
      (pkt_size : ℕ) (ms : List Message)
      → k ≤ length counts
      → Counted q counts
      → AllAtLeast so.header counts
      → length (content d q) < 2 ^ 32
      → AllMessages ms
      → (e : Emitting d) × (emit_loop d k drv_port so rcvr (waiting q counts pkt_size ms) ≡ ok e)
        × Sent (payloads ms ++ content d q) e
        × (length e.messages ≡ length ms + k)
        × (length e.read_count + k ≡ length counts)
  unfolding emit_loop
  emit_loop_lem zero drv_port so rcvr q counts pkt_size ms enough counted fits small shaped = (
    waiting q counts pkt_size ms,
    refl,
    record { bytes = refl; counted = counted; shaped = shaped },
    omega arith,
    omega arith,
  )
  emit_loop_lem (suc k) drv_port so rcvr q [] pkt_size ms enough counted fits small shaped =
      absurd (omega arith)
  emit_loop_lem (suc zero) drv_port so rcvr q (c ∷ counts) pkt_size ms enough counted fits small
        shaped =
      let (m, sent, same, shape) = message_lem drv_port so rcvr q c (omega arith) fits.0 small in
      (
        taken q c counts (ms ++ m ∷ []),
        round_lem zero drv_port so rcvr q c counts pkt_size ms m (omega arith) sent,
        record {
          bytes = sent_bytes q c ms m (omega arith) small same;
          counted = left-Counted q c counts counted small;
          shaped = AllMessages-append ms m shaped shape;
        },
        omega (arith, length-append ms (m ∷ [])),
        omega arith,
      )
  emit_loop_lem (suc (suc k)) drv_port so rcvr q (c ∷ counts) pkt_size ms enough counted fits small
        shaped =
      let (m, sent, same, shape) = message_lem drv_port so rcvr q c (omega arith) fits.0 small in
      let q' = (move_read_data d (peekq q) [] c q).1 in
      let less : length (content d q') < 2 ^ 32 =
        rw (move_read_data_lem q c (omega arith) small).1
          (omega (arith, length-drop c (content d q))) in
      let (e', run, done, more, fewer) =
        emit_loop_lem (suc k) drv_port so rcvr q' counts c (ms ++ m ∷ []) (omega arith)
          (left-Counted q c counts counted small) fits.1 less
          (AllMessages-append ms m shaped shape) in
      (
        e',
        round_lem (suc k) drv_port so rcvr q c counts pkt_size ms m (omega arith) sent ∙ run,
        record {
          bytes = done.bytes ∙ sent_bytes q c ms m (omega arith) small same;
          counted = done.counted;
          shaped = done.shaped;
        },
        omega (arith, more, length-append ms (m ∷ [])),
        omega (arith, fewer),
      )
