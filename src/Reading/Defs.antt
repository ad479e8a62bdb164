-- ===== src/Reading/Defs.antt =====
-- The state of a `SocketHandler` and the functions of socket_handler.cc that deliver what has been
-- read. A count in `read_count` is a `size_t`, `pkt_size` a `uint32_t`.
use gen_utp.Base.{
  ℕ, zero, suc, ◌+◌, ◌-◌, ◌%◌, ◌^◌, Bool, true, false, not, ◌&&◌, ◌||◌, List, [], ◌∷◌, ◌++◌, length,
  take, ltb, ◌==◌, if◌then◌else◌, ℤ, add_size, sub_size, Result, ok, err, fault, ◌>>=◌,
}
use gen_utp.Driver.Defs.{
  lit, DrvTerm, port, ext2term, uint, text, buf2binary, list, tuple, Message, output, send, Process,
}
use gen_utp.Driver.Queue.{DrvQueue}
use gen_utp.Options.Defs.{
  Active, active_false, active_once, active_true, DeliveryMode, data_list, data_binary, SockOpts,
  be16, be32,
}

-- `SocketHandler`, with the runtime's queue of its port.
pub record Socket (Q : Type 0) : Type 0 where
  pub drv_port : ℕ
  pub queue : Q
  pub read_count : List ℕ
  pub sockopts : SockOpts
  pub udp_sock : ℤ
  pub close_pending : Bool
  pub selected : Bool

-- `SocketHandler(int fd, const SockOpts& so)`
abbrev pub new_socket : {Q : Type 0} → Q → ℤ → SockOpts → Socket Q
new_socket q fd so = record {
  drv_port = 0;
  queue = q;
  read_count = [];
  sockopts = so;
  udp_sock = fd;
  close_pending = false;
  selected = false;
}

pub record Receiver : Type 0 where
  pub caller_ref : List ℕ
  pub caller : Process
  pub send_to_connected : Bool

-- `Receiver()`, whose caller is not set.
abbrev pub connected_receiver : Receiver
connected_receiver = record { caller_ref = []; caller = Process.nil; send_to_connected = true }

-- `reduce_read_count`: the loop over `i`. After a `push_front` the test of the loop fails.
unfoldable pub reduce_loop : List ℕ → ℕ → ℕ → Result (List ℕ)
reduce_loop [] i reduction = if ltb i reduction then err fault else ok []
reduce_loop (c ∷ counts) i reduction =
    let i' = add_size i c in
    let rest = reduce_loop counts i' reduction in
    if ltb i reduction
    then if ltb reduction i' then ok (sub_size i' reduction ∷ counts) else rest
    else ok (c ∷ counts)

unfoldable pub reduce_read_count : List ℕ → ℕ → Result (List ℕ)
reduce_read_count counts reduction = reduce_loop counts 0 reduction

-- The loop of `move_read_data`.
unfoldable pub move_loop : List (List ℕ) → ℕ → ℕ → List ℕ → List ℕ
move_loop [] pkt_size total buf = buf
move_loop (v ∷ vec) pkt_size total buf =
    let needed = sub_size pkt_size total in
    let rest = move_loop vec pkt_size (add_size total (length v)) (buf ++ v) in
    if ltb (length v) needed then rest else buf ++ take needed v

-- `for (i = 0; i < sockopts.header; ++i)`: the entries and where `p` ends; a read past the end of
-- the buffer is a fault.
unfoldable pub header_terms : ℕ → List ℕ → Result (List DrvTerm × List ℕ)
header_terms zero p = ok ([], p)
header_terms (suc n) [] = err fault
header_terms (suc n) (b ∷ p) = do (ts, p') ← header_terms n p; ok (uint b ∷ ts, p')

-- `ERL_DRV_LIST` after a header.
abbrev pub list_terms : ℕ → List DrvTerm
list_terms zero = []
list_terms (suc n) = list (suc n + 1) ∷ []

-- The entry for the data: the runtime reads `len` bytes at `p`.
unfoldable pub data_term : DeliveryMode → ℕ → List ℕ → Result DrvTerm
data_term data_list len p = if ltb (length p) len then err fault else ok (text (take len p))
data_term data_binary len p = if ltb (length p) len then err fault else ok (buf2binary (take len p))

-- `pkt_size - sockopts.header`
abbrev pub data_length : ℕ → ℕ → ℕ
data_length pkt_size header = (pkt_size + 2 ^ 32 - header) % 2 ^ 32

-- One message of `emit_read_buffer`.
unfoldable pub packet_message : ℕ → SockOpts → Receiver → List ℕ → ℕ → Result Message
unfolding header_terms data_term
packet_message drv_port so rcvr buf pkt_size = do
  (hs, p) ← header_terms so.header buf
  d ←
      data_term (if rcvr.send_to_connected then so.delivery_mode else data_binary)
        (data_length pkt_size so.header) p
  let body = hs ++ d ∷ list_terms so.header
  ok (
      if rcvr.send_to_connected
      then output (DrvTerm.atom (lit "utp") ∷ port drv_port ∷ body ++ tuple 3 ∷ [])
      else send rcvr.caller
          (ext2term rcvr.caller_ref ∷ DrvTerm.atom (lit "ok") ∷ body ++ tuple 2 ∷ tuple 2 ∷ []))

-- `*reinterpret_cast<...>(vec[0].iov_base)`, by the size of the packet's length.
unfoldable pub packet_size : ℕ → List (List ℕ) → Result ℕ
packet_size (suc zero) ((a ∷ v) ∷ vec) = ok a
packet_size (suc zero) _ = err fault
packet_size (suc (suc zero)) ((a ∷ b ∷ v) ∷ vec) = ok (be16 a b)
packet_size (suc (suc zero)) _ = err fault
packet_size (suc (suc (suc (suc zero)))) ((a ∷ b ∷ c ∷ d ∷ v) ∷ vec) = ok (be32 a b c d)
packet_size (suc (suc (suc (suc zero)))) _ = err fault
packet_size _ vec = ok 0

abbrev pub is_false : Active → Bool
is_false active_false = true
is_false _ = false

abbrev pub is_true : Active → Bool
is_true active_true = true
is_true _ = false

abbrev pub after_once : Active → Active
after_once active_once = active_false
after_once a = a

module _ (d : DrvQueue) where
  open d use {Queue, sizeq, peekq, deq, enq}

  -- `move_read_data`: the buffer and the queue afterwards.
  unfoldable pub move_read_data : List (List ℕ) → List ℕ → ℕ → Queue → List ℕ × Queue
  unfolding move_loop
  move_read_data vec buf pkt_size q = (move_loop vec pkt_size 0 buf, deq q pkt_size)

  -- The variables of the last loop of `emit_read_buffer`.
  pub record Emitting : Type 0 where
    pub queue : Queue
    pub read_count : List ℕ
    pub vec : List (List ℕ)
    pub buf : List ℕ
    pub pkt_size : ℕ
    pub messages : List Message

  -- `if (buf.size() == 0)`: the next count, and that many bytes.
  unfoldable pub refill : List ℕ → Emitting → Result Emitting
  unfolding move_read_data
  refill [] e = err fault
  refill (c ∷ counts) e =
      let pkt_size = c % 2 ^ 32 in
      let (buf, q) = move_read_data e.vec e.buf pkt_size e.queue in
      ok (record e { queue = q; read_count = counts; buf = buf; pkt_size = pkt_size })

  unfoldable pub next_buffer : List ℕ → Emitting → Result Emitting
  unfolding refill
  next_buffer [] e = refill e.read_count e
  next_buffer (b ∷ bs) e = ok e

  -- `if (pkts_to_send != 0)`
  abbrev pub next_round : ℕ → Emitting → Emitting
  next_round zero e = e
  next_round (suc n) e = record e { buf = []; vec = peekq e.queue }

  -- `while (pkts_to_send-- > 0)`
  unfoldable pub emit_loop : ℕ → ℕ → SockOpts → Receiver → Emitting → Result Emitting
  unfolding next_buffer packet_message
  emit_loop zero drv_port so rcvr e = ok e
  emit_loop (suc pkts_to_send) drv_port so rcvr e = do
    e' ← next_buffer e.buf e
    m ← packet_message drv_port so rcvr e'.buf e'.pkt_size
    emit_loop pkts_to_send drv_port so rcvr
        (next_round pkts_to_send (record e' { messages = e'.messages ++ m ∷ [] }))

  -- What `emit_read_buffer` returns, with the messages that it sent.
  pub record Emitted : Type 0 where
    pub sock : Socket Queue
    pub sent : Bool
    pub new_qsize : ℕ
    pub messages : List Message

  abbrev pub unsent : Socket Queue → Emitted
  unsent s = record { sock = s; sent = false; new_qsize = sizeq s.queue; messages = [] }

  -- `emit_closed_message`: whether the queue is empty, and then the message.
  unfoldable pub emit_closed_message : Socket Queue → Bool × List Message
  emit_closed_message s =
      if sizeq s.queue == 0
      then (true, output (DrvTerm.atom (lit "utp_closed") ∷ port s.drv_port ∷ tuple 2 ∷ []) ∷ [])
      else (false, [])

  -- The last loop and what follows it.
  unfoldable pub emit_from : ℕ → Receiver → Emitting → Socket Queue → Result Emitted
  unfolding emit_loop
  emit_from pkts_to_send rcvr e s = do
    e' ← emit_loop pkts_to_send s.drv_port s.sockopts rcvr e
    let so = s.sockopts
    ok (record {
      sock = record s {
        queue = e'.queue;
        read_count = e'.read_count;
        sockopts = record so { active = after_once so.active };
      };
      sent = true;
      new_qsize = sizeq e'.queue;
      messages = e'.messages;
    })

  abbrev pub emitting : Socket Queue → Emitting
  emitting s = record {
    queue = s.queue;
    read_count = s.read_count;
    vec = peekq s.queue;
    buf = [];
    pkt_size = 0;
    messages = [];
  }

  -- A packet whose length stands in front of it.
  unfoldable pub emit_packet : ℕ → Receiver → Socket Queue → Result Emitted
  unfolding emit_from move_read_data reduce_read_count
  emit_packet pkt_size rcvr s =
      if ltb (sizeq s.queue) ((s.sockopts.packet + pkt_size) % 2 ^ 32) then ok (unsent s) else (do
        let q = deq s.queue s.sockopts.packet
        let (buf, q') = move_read_data (peekq q) [] pkt_size q
        counts ← reduce_read_count s.read_count pkt_size
        emit_from 1 rcvr
            (record {
              queue = q';
              read_count = counts;
              vec = peekq q;
              buf = buf;
              pkt_size = pkt_size;
              messages = [];
            })
            s)

  -- `active` is false: all that is queued, or as much as was asked for.
  unfoldable pub emit_passive : ℕ → Receiver → Socket Queue → Result Emitted
  unfolding emit_from move_read_data reduce_read_count
  emit_passive len rcvr s = do
    let pkt_size = (if len == 0 then sizeq s.queue else len) % 2 ^ 32
    counts ← (if len == 0 then ok [] else reduce_read_count s.read_count pkt_size)
    let (buf, q) = move_read_data (peekq s.queue) [] pkt_size s.queue
    let e = emitting s
    emit_from 1 rcvr (record e { queue = q; read_count = counts; buf = buf; pkt_size = pkt_size }) s

  unfoldable pub emit_queued : ℕ → Receiver → Socket Queue → Result Emitted
  unfolding packet_size emit_packet emit_passive emit_from
  emit_queued len rcvr s = do
    pkt_size ← packet_size s.sockopts.packet (peekq s.queue)
    (if not (pkt_size == 0)
        then emit_packet pkt_size rcvr s
        else (if is_false s.sockopts.active
            then emit_passive len rcvr s
            else emit_from (if is_true s.sockopts.active then length s.read_count else 1) rcvr
                (emitting s) s))

  -- `emit_read_buffer`; `qsize` is what the argument by reference held.
  unfoldable pub emit_read_buffer : ℕ → Receiver → ℕ → Socket Queue → Result Emitted
  unfolding emit_closed_message emit_queued
  emit_read_buffer len rcvr qsize s =
      let (closed, ms) = emit_closed_message s in
      let n = sizeq s.queue in
      if s.close_pending && closed
      then ok (record {
        sock = record s { close_pending = false };
        sent = false;
        new_qsize = qsize;
        messages = ms;
      })
      else (if n == 0 || ltb n len || ltb n s.sockopts.packet
          then ok (unsent s)
          else emit_queued len rcvr s)
