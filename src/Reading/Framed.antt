-- ===== src/Reading/Framed.antt =====
-- `emit_read_buffer` in packet mode, once it has read the size of a packet from its prefix.
use gen_utp.Base.{
  ℕ, ◌+◌, ◌%◌, ◌^◌, ◌≤◌, ◌<◌, ◌≡◌, refl, ap, ◌∙◌, [], ◌∷◌, length, take, drop, le→ltb, ok, arith,
  append-nil, length-take, length-drop,
}
use gen_utp.Driver.Queue.{DrvQueue, DrvQueueLaws, content}
use gen_utp.Reading.Defs.{Socket, Receiver, reduce_read_count, Emitted, emit_packet, move_read_data}
use gen_utp.Reading.Moving.{sum, reduce_loop_lem, payload, payloads}
use gen_utp.Reading.Addressed.{packet_message-IsFor}
use gen_utp.Reading.Delivery.{AllMessages, Counted, move_read_data_lem, message_lem}
use gen_utp.Reading.Raw.{Alone, finished, moved, send_moved, emit_from_lem}

module _ (d : DrvQueue) (laws : DrvQueueLaws d) where
  open d use {Queue, sizeq, peekq, deq}

  -- What a packet of `n` bytes leaves: it went out alone in one term, its prefix and its bytes are off
  -- the queue, and the read counts still count the prefix.
  pub record Unpacks (rcvr : Receiver) (s : Socket Queue) (n : ℕ) (e : Emitted d) : Type 0 where
    pub alone : Alone d laws s.drv_port rcvr e.messages
    pub delivered : payloads e.messages ≡ take n (drop s.sockopts.packet (content d s.queue))
    pub shaped : AllMessages e.messages
    pub left : content d e.sock.queue ≡ drop n (drop s.sockopts.packet (content d s.queue))
    pub overcounted : sum e.sock.read_count ≡ length (content d e.sock.queue) + s.sockopts.packet

  -- `emit_read_buffer` that has read the size `n` from a prefix, for a queue below 2^32 bytes that the
  -- counts add up to and that holds the packet, which is not empty and covers the header, returns: one
  -- message goes out, to the connected process or to the receiver as the receiver says; it makes one
  -- term and carries exactly the packet, and the queue loses the prefix and the packet; but the
  -- counts then add up to more than is queued, by the bytes of the prefix.
  pub emit_packet_lem :
      (n : ℕ) (rcvr : Receiver) (s : Socket Queue)
      → 0 < n
      → s.sockopts.header ≤ n
      → s.sockopts.packet + n ≤ length (content d s.queue)
      → length (content d s.queue) < 2 ^ 32
      → Counted d laws s.queue s.read_count
      → (e : Emitted d) × (emit_packet d n rcvr s ≡ ok e) × Unpacks rcvr s n e
  unfolding emit_packet reduce_read_count
  emit_packet_lem n rcvr s pos header whole small counted =
      let q = deq s.queue s.sockopts.packet in
      let rest : content d q ≡ drop s.sockopts.packet (content d s.queue) =
        laws.content-deq s.queue s.sockopts.packet (omega (arith, laws.sizeq_lem s.queue)) in
      let size = ap length rest ∙ length-drop s.sockopts.packet (content d s.queue) in
      let fits : n ≤ length (content d q) = omega (arith, size) in
      let small' : length (content d q) < 2 ^ 32 = omega (arith, size) in
      let (counts, reduced, total) =
        reduce_loop_lem s.read_count 0 n (omega arith) (omega (arith, counted))
          (omega (arith, counted)) in
      let (bytes, after) = move_read_data_lem d laws q n fits small' in
      let full : 0 < length (move_read_data d (peekq q) [] n q).0 =
        rw bytes (omega (arith, length-take n (content d q))) in
      let (m, made, same, shape) =
        message_lem d laws s.drv_port s.sockopts rcvr q n fits header small' in
      let here : (s.sockopts.packet + n) % 2 ^ 32 ≡ s.sockopts.packet + n = omega arith in
      (
        finished d laws (let e = moved d laws q counts n in record e { messages = m ∷ [] }) s,
        rw
            (
              here,
              le→ltb (sizeq s.queue) (s.sockopts.packet + n)
                  (omega (arith, laws.sizeq_lem s.queue)),
              reduced,
            )
            (emit_from_lem d laws 1 rcvr (moved d laws q counts n) _ s
              (send_moved d laws s.drv_port s.sockopts rcvr q counts n m full made)),
        record {
          alone = (m, refl, packet_message-IsFor s.drv_port s.sockopts rcvr _ n m made);
          delivered = append-nil (payload m) ∙ (same ∙ (bytes ∙ ap (take n) rest));
          shaped = (shape, tt);
          left = after ∙ ap (drop n) rest;
          overcounted =
              omega (arith, ap length after, length-drop n (content d q), size, total, counted);
        },
      )
