-- ===== src/Reading/Shapes.antt =====
-- socket_handler.cc, `emit_read_buffer`: each message that it sends, in every mode, is one term.
use gen_utp.Base.{
  ℕ, zero, suc, ◌+◌, ◌%◌, ◌^◌, ◌≡◌, refl, sym, ap, subst, ◌∙◌, Bool, true, false, not, ◌&&◌, ◌||◌,
  Bool-cases, inl, inr, some, List, [], ◌∷◌, ◌++◌, length, take, ltb, ◌==◌, if◌then◌else◌, ok,
  Leaves, bind-Leaves, either-Leaves, append_assoc, arith,
}
use gen_utp.Driver.Defs.{DrvTerm, tuple, Message}
use gen_utp.Driver.Queue.{DrvQueue}
use gen_utp.Driver.Shape.{stack, IsMessage}
use gen_utp.Options.Defs.{DeliveryMode, data_list, data_binary, SockOpts}
use gen_utp.Reading.Defs.{
  Socket, Receiver, header_terms, list_terms, data_term, data_length, packet_message, packet_size,
  Emitting, refill, next_buffer, next_round, emit_loop, emit_from, emitting, emit_packet,
  emit_passive, emit_queued, Emitted, emit_read_buffer, emit_closed_message, reduce_read_count,
  is_false,
}
use gen_utp.Reading.Moving.{data_entry_lem}
use gen_utp.Reading.Delivery.{AllMessages, AllMessages-append}

abbrev Deep : ℕ → List DrvTerm × List ℕ → Type 0
Deep n r = (k : ℕ) (us : List DrvTerm) → stack k (r.0 ++ us) ≡ stack (k + n) us

header_terms-Deep : (n : ℕ) (p : List ℕ) → Leaves (Deep n) (header_terms n p)
unfolding header_terms stack
header_terms-Deep zero p = λ k us. ap (λ j. stack j us) (omega arith)
header_terms-Deep (suc n) [] = tt
header_terms-Deep (suc n) (b ∷ p) = bind-Leaves (Deep (suc n)) (header_terms n p) _ (λ r e k us.
    let deep : Deep n r = subst (λ x. Leaves (Deep n) x) e (header_terms-Deep n p) in
    deep (suc k) us ∙ ap (λ j. stack j us) (omega arith))

-- The data, and the list that a header makes of it, leave one more term.
abbrev Closes : DrvTerm → Type 0
Closes t =
    (h k : ℕ) (us : List DrvTerm) → stack (k + h) ((t ∷ list_terms h) ++ us) ≡ stack (suc k) us

data_term-Closes :
    (mode : DeliveryMode) (len : ℕ) (p : List ℕ) → Leaves Closes (data_term mode len p)
unfolding data_term
data_term-Closes data_list len p =
    either-Leaves Closes (ltb (length p) len) _ _ tt
      (λ h k us. (data_entry_lem data_list (take len p) h k us).0)
data_term-Closes data_binary len p =
    either-Leaves Closes (ltb (length p) len) _ _ tt
      (λ h k us. (data_entry_lem data_binary (take len p) h k us).0)

either-IsMessage :
    (b : Bool) (m n : Message) → IsMessage m → IsMessage n → IsMessage (if b then m else n)
either-IsMessage true m n im in_ = im
either-IsMessage false m n im in_ = in_

packet_message-IsMessage :
    (drv_port : ℕ) (so : SockOpts) (rcvr : Receiver) (buf : List ℕ) (pkt_size : ℕ)
    → Leaves IsMessage (packet_message drv_port so rcvr buf pkt_size)
unfolding packet_message stack
packet_message-IsMessage drv_port so rcvr buf pkt_size =
    let mode = if rcvr.send_to_connected then so.delivery_mode else data_binary in
    let len = data_length pkt_size so.header in
    bind-Leaves IsMessage (header_terms so.header buf) _ (λ r e.
      bind-Leaves IsMessage (data_term mode len r.1) _ (λ t e'.
        let deep : Deep so.header r =
          subst (λ x. Leaves (Deep so.header) x) e (header_terms-Deep so.header buf) in
        let closes : Closes t = subst (λ x. Leaves Closes x) e' (data_term-Closes mode len r.1) in
        either-IsMessage rcvr.send_to_connected _ _ (shape r.0 t deep closes (tuple 3 ∷ []) refl)
          (shape r.0 t deep closes (tuple 2 ∷ tuple 2 ∷ []) refl)))
  where
    shape :
        (hs : List DrvTerm) (t : DrvTerm)
        → ((k : ℕ) (us : List DrvTerm) → stack k (hs ++ us) ≡ stack (k + so.header) us)
        → Closes t
        → (us : List DrvTerm) → stack 3 us ≡ some 1
        → stack 2 ((hs ++ t ∷ list_terms so.header) ++ us) ≡ some 1
    shape hs t deep closes us done =
        rw (append_assoc hs (t ∷ list_terms so.header) us)
          (deep 2 _ ∙ (closes so.header 2 us ∙ done))

module _ (d : DrvQueue) where
  open d use {Queue, sizeq, peekq, deq}

  refill-messages :
      (counts : List ℕ) (e : Emitting d)
      → Leaves (λ e'. e'.messages ≡ e.messages) (refill d counts e)
  unfolding refill
  refill-messages [] e = tt
  refill-messages (c ∷ counts) e = refl

  next_buffer-messages :
      (buf : List ℕ) (e : Emitting d)
      → Leaves (λ e'. e'.messages ≡ e.messages) (next_buffer d buf e)
  unfolding next_buffer
  next_buffer-messages [] e = refill-messages e.read_count e
  next_buffer-messages (b ∷ buf) e = refl

  next_round-messages :
      (n : ℕ) (e : Emitting d) → AllMessages e.messages → AllMessages (next_round d n e).messages
  next_round-messages zero e all = all
  next_round-messages (suc n) e all = all

  AllSent : Emitted d → Type 0
  AllSent e = AllMessages e.messages

  AllEmitting : Emitting d → Type 0
  AllEmitting e = AllMessages e.messages

  emit_loop-AllMessages :
      (n drv_port : ℕ) (so : SockOpts) (rcvr : Receiver) (e : Emitting d)
      → AllMessages e.messages
      → Leaves AllEmitting (emit_loop d n drv_port so rcvr e)
  unfolding emit_loop AllEmitting
  emit_loop-AllMessages zero drv_port so rcvr e all = all
  emit_loop-AllMessages (suc n) drv_port so rcvr e all =
      bind-Leaves AllEmitting (next_buffer d e.buf e) _ (λ e' q.
        bind-Leaves AllEmitting (packet_message drv_port so rcvr e'.buf e'.pkt_size) _ (λ m q'.
          let same : e'.messages ≡ e.messages =
            subst (λ x. Leaves (λ y. y.messages ≡ e.messages) x) q (next_buffer-messages e.buf e) in
          let shape : IsMessage m =
            subst (λ x. Leaves IsMessage x) q'
              (packet_message-IsMessage drv_port so rcvr e'.buf e'.pkt_size) in
          emit_loop-AllMessages n drv_port so rcvr _ (
            next_round-messages n _ (
              AllMessages-append e'.messages m (subst (λ ms. AllMessages ms) (sym same) all)
                shape))))

  emit_from-AllSent :
      (n : ℕ) (rcvr : Receiver) (e : Emitting d) (s : Socket Queue)
      → AllMessages e.messages
      → Leaves AllSent (emit_from d n rcvr e s)
  unfolding emit_from AllSent AllEmitting
  emit_from-AllSent n rcvr e s all =
      bind-Leaves AllSent (emit_loop d n s.drv_port s.sockopts rcvr e) _ (λ e' q.
        subst (λ x. Leaves AllEmitting x) q
          (emit_loop-AllMessages n s.drv_port s.sockopts rcvr e all))

  emit_queued-AllSent :
      (len : ℕ) (rcvr : Receiver) (s : Socket Queue) → Leaves AllSent (emit_queued d len rcvr s)
  unfolding emit_queued emit_packet emit_passive AllSent
  emit_queued-AllSent len rcvr s =
      bind-Leaves AllSent (packet_size s.sockopts.packet (peekq s.queue)) _ (λ pkt_size q.
        either-Leaves AllSent (not (pkt_size == 0)) _ _
          (either-Leaves AllSent (ltb (sizeq s.queue) ((s.sockopts.packet + pkt_size) % 2 ^ 32)) _ _
            tt
            (bind-Leaves AllSent (reduce_read_count s.read_count pkt_size) _
              (λ counts q'. emit_from-AllSent 1 rcvr _ s tt)))
          (either-Leaves AllSent (is_false s.sockopts.active) _ _
            (bind-Leaves AllSent
              (if len == 0
                then ok []
                else reduce_read_count s.read_count
                    ((if len == 0 then sizeq s.queue else len) % 2 ^ 32))
              _ (λ counts q'. emit_from-AllSent 1 rcvr _ s tt))
            (emit_from-AllSent _ rcvr (emitting d s) s tt)))

  emit_closed_message-AllMessages : (s : Socket Queue) → AllMessages (emit_closed_message d s).1
  unfolding emit_closed_message stack
  emit_closed_message-AllMessages s = elim (Bool-cases (sizeq s.queue == 0)) [
    | inl e ↦ rw e (refl, tt)
    | inr e ↦ rw e tt
  ]

  -- Whatever the mode and the receiver, each message that `emit_read_buffer` sends makes exactly one term.
  pub emit_read_buffer-AllMessages :
      (len : ℕ) (rcvr : Receiver) (qsize : ℕ) (s : Socket Queue)
      → Leaves (λ e. AllMessages e.messages) (emit_read_buffer d len rcvr qsize s)
  unfolding emit_read_buffer AllSent
  emit_read_buffer-AllMessages len rcvr qsize s =
      either-Leaves AllSent (s.close_pending && (emit_closed_message d s).0) _ _
        (emit_closed_message-AllMessages s)
        (either-Leaves AllSent
          (sizeq s.queue == 0 || ltb (sizeq s.queue) len || ltb (sizeq s.queue) s.sockopts.packet) _
          _ tt (emit_queued-AllSent len rcvr s))
