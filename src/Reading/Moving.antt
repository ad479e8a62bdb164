-- ===== src/Reading/Moving.antt =====
-- The loops of `move_read_data` and `reduce_read_count`, and one message of `emit_read_buffer`.
use gen_utp.Base.{
  ℕ, zero, suc, ◌+◌, ◌-◌, ◌*◌, ◌^◌, ◌≤◌, ◌<◌, ◌≡◌, refl, sym, ap, ◌∙◌, inl, inr, Bool-cases, List,
  [], ◌∷◌, ◌++◌, length, take, drop, ltb, ltb→lt, ltb→le, le→ltb, size_mod, add_size, sub_size, ok,
  arith, append-nil, append_assoc, length-append, take-append_ge, take-append_le, take-length,
  length-drop, take-append-drop,
}
use gen_utp.Driver.Defs.{
  lit, DrvTerm, port, ext2term, uint, text, buf2binary, tuple, Message, output, send,
}
use gen_utp.Driver.Queue.{flat}
use gen_utp.Driver.Shape.{stack, cells, entries, IsMessage}
use gen_utp.Options.Defs.{DeliveryMode, data_list, data_binary, SockOpts}
use gen_utp.Reading.Defs.{
  Receiver, reduce_loop, move_loop, header_terms, list_terms, data_term, data_length,
  packet_message,
}

abbrev pub sum : List ℕ → ℕ
sum [] = 0
sum (c ∷ cs) = c + sum cs

-- `move_read_data` collects the first `pkt_size` bytes of the vector.
pub move_loop_lem :
    (vec : List (List ℕ)) (pkt_size total : ℕ) (buf : List ℕ)
    → total ≤ pkt_size
    → pkt_size < size_mod
    → total + length (flat vec) < size_mod
    → move_loop vec pkt_size total buf ≡ buf ++ take (pkt_size - total) (flat vec)
unfolding move_loop
move_loop_lem [] pkt_size total buf h p s =
    sym (ap (λ xs. buf ++ xs) (take-length [] (pkt_size - total) (omega arith)) ∙ append-nil buf)
move_loop_lem (v ∷ vec) pkt_size total buf h p s =
    elim (Bool-cases (ltb (length v) (sub_size pkt_size total))) [
      | inl more ↦
          rw
            (
              more,
              move_loop_lem vec pkt_size (add_size total (length v)) (buf ++ v)
                  (omega (arith, ltb→lt _ _ more, whole)) p (omega (arith, whole)),
              append_assoc buf v,
              take-append_ge (pkt_size - total) v (flat vec) (omega (arith, ltb→lt _ _ more)),
            )
            (ap (λ k. buf ++ (v ++ take k (flat vec))) (omega (arith, ltb→lt _ _ more, whole)))
      | inr last ↦
          rw (last, take-append_le (pkt_size - total) v (flat vec) (omega (arith, ltb→le _ _ last)))
            (ap (λ k. buf ++ take k v) (omega arith))
    ]
  where
    whole : length (flat (v ∷ vec)) ≡ length v + length (flat vec)
    whole = length-append v (flat vec)

-- `reduce_read_count` takes the reduction off the counts, if they cover it.
pub reduce_loop_lem :
    (counts : List ℕ) (i reduction : ℕ)
    → i ≤ reduction
    → reduction - i ≤ sum counts
    → i + sum counts < size_mod
    → (left : List ℕ) × (reduce_loop counts i reduction ≡ ok left)
      × (sum left + (reduction - i) ≡ sum counts)
unfolding reduce_loop
reduce_loop_lem [] i reduction h c s = ([], rw (le→ltb i reduction (omega arith)), omega arith)
reduce_loop_lem (c ∷ counts) i reduction h cover s = elim (Bool-cases (ltb i reduction)) [
  | inl going ↦ elim (Bool-cases (ltb reduction (add_size i c))) [
    | inl over ↦ (
      sub_size (add_size i c) reduction ∷ counts,
      rw (going, over),
      omega (arith, ltb→lt _ _ over, ltb→lt _ _ going),
    )
    | inr under ↦
        let (left, e, total) =
          reduce_loop_lem counts (add_size i c) reduction (ltb→le _ _ under)
            (omega (arith, ltb→le _ _ under)) (omega arith) in
        (left, rw (going, under) e, omega (arith, ltb→lt _ _ going, ltb→le _ _ under))
  ]
  | inr done ↦ (c ∷ counts, rw done, omega (arith, ltb→le _ _ done))
]

-- The bytes of received data that entries and messages carry.
abbrev pub term_bytes : List DrvTerm → List ℕ
term_bytes [] = []
term_bytes (uint b ∷ ts) = b ∷ term_bytes ts
term_bytes (text bs ∷ ts) = bs ++ term_bytes ts
term_bytes (buf2binary bs ∷ ts) = bs ++ term_bytes ts
term_bytes (t ∷ ts) = term_bytes ts

abbrev pub payload : Message → List ℕ
payload m = term_bytes (entries m)

abbrev pub payloads : List Message → List ℕ
payloads [] = []
payloads (m ∷ ms) = payload m ++ payloads ms

-- The entries of the header carry its bytes, in front of whatever follows them.
header_terms_lem :
    (n : ℕ) (p : List ℕ)
    → n ≤ length p
    → (ts : List DrvTerm) × (header_terms n p ≡ ok (ts, drop n p))
      × ((us : List DrvTerm) → term_bytes (ts ++ us) ≡ take n p ++ term_bytes us)
      × ((k : ℕ) (us : List DrvTerm) → stack k (ts ++ us) ≡ stack (k + n) us)
      × ((us : List DrvTerm) → cells (ts ++ us) ≡ 2 * n + cells us)
unfolding header_terms stack
header_terms_lem zero p h =
    ([], refl, λ us. refl, λ k us. ap (λ j. stack j us) (omega arith), λ us. omega arith)
header_terms_lem (suc n) [] h = absurd (omega arith)
header_terms_lem (suc n) (b ∷ p) h =
    let (ts, e, bytes, depth, size) = header_terms_lem n p (omega arith) in
    (
      uint b ∷ ts,
      rw e,
      λ us. ap (λ xs. b ∷ xs) (bytes us),
      λ k us. depth (suc k) us ∙ ap (λ j. stack j us) (omega arith),
      λ us. omega (arith, size us),
    )

abbrev pub data_entry : DeliveryMode → List ℕ → DrvTerm
data_entry data_list p = text p
data_entry data_binary p = buf2binary p

data_term_lem :
    (mode : DeliveryMode) (len : ℕ) (p : List ℕ)
    → len ≡ length p
    → data_term mode len p ≡ ok (data_entry mode p)
unfolding data_term
data_term_lem data_list len p e =
    rw (le→ltb (length p) len (omega arith), take-length p len (omega arith))
data_term_lem data_binary len p e =
    rw (le→ltb (length p) len (omega arith), take-length p len (omega arith))

-- The data and the list that a header makes leave one more term on the stack.
pub data_entry_lem :
    (mode : DeliveryMode) (p : List ℕ) (h k : ℕ) (us : List DrvTerm)
    → (stack (k + h) ((data_entry mode p ∷ list_terms h) ++ us) ≡ stack (suc k) us)
      × (term_bytes ((data_entry mode p ∷ list_terms h) ++ us) ≡ p ++ term_bytes us)
      × (cells ((data_entry mode p ∷ list_terms h) ++ us) ≤ 5 + cells us)
unfolding stack
data_entry_lem data_list p zero k us = (ap (λ j. stack (suc j) us) (omega arith), refl, omega arith)
data_entry_lem data_binary p zero k us =
    (ap (λ j. stack (suc j) us) (omega arith), refl, omega arith)
data_entry_lem data_list p (suc n) k us = (
  rw (le→ltb (suc (k + suc n)) (suc n + 1) (omega arith)) (ap (λ j. stack j us) (omega arith)),
  refl,
  omega arith,
)
data_entry_lem data_binary p (suc n) k us = (
  rw (le→ltb (suc (k + suc n)) (suc n + 1) (omega arith)) (ap (λ j. stack j us) (omega arith)),
  refl,
  omega arith,
)

-- The header's entries, the data and what closes the message.
body_lem :
    (mode : DeliveryMode) (h : ℕ) (buf : List ℕ)
    → h ≤ length buf
    → (hs : List DrvTerm) × (header_terms h buf ≡ ok (hs, drop h buf))
      × ((us : List DrvTerm)
          → term_bytes ((hs ++ data_entry mode (drop h buf) ∷ list_terms h) ++ us)
            ≡ buf ++ term_bytes us)
      × ((k : ℕ) (us : List DrvTerm)
          → stack k ((hs ++ data_entry mode (drop h buf) ∷ list_terms h) ++ us) ≡ stack (suc k) us)
      × ((us : List DrvTerm)
          → cells ((hs ++ data_entry mode (drop h buf) ∷ list_terms h) ++ us)
            ≤ 2 * h + 5 + cells us)
body_lem mode h buf fits =
    let (hs, e, bytes, depth, size) = header_terms_lem h buf fits in
    let d = data_entry mode (drop h buf) ∷ list_terms h in
    let shown = data_entry_lem mode (drop h buf) h in
    (
      hs,
      e,
      λ us.
          rw (append_assoc hs d us, bytes (d ++ us), (shown 0 us).1)
            (sym (append_assoc (take h buf) (drop h buf) (term_bytes us))
              ∙ ap (λ xs. xs ++ term_bytes us) (take-append-drop h buf)),
      λ k us. rw (append_assoc hs d us, depth k (d ++ us)) (shown k us).0,
      λ us. rw (append_assoc hs d us, size (d ++ us)) (omega (arith, (shown 0 us).2)),
    )

-- A message of `emit_read_buffer` for a buffer that holds the packet and its header: it carries
-- exactly the bytes of the buffer, it makes one term, and it fits the array of `2*header+14` cells.
pub packet_message_lem :
    (drv_port : ℕ) (so : SockOpts) (rcvr : Receiver) (buf : List ℕ) (pkt_size : ℕ)
    → pkt_size ≡ length buf
    → so.header ≤ pkt_size
    → pkt_size < 2 ^ 32
    → (m : Message) × (packet_message drv_port so rcvr buf pkt_size ≡ ok m)
      × (payload m ≡ buf)
      × IsMessage m
      × (cells (entries m) ≤ 2 * so.header + 14)
unfolding packet_message stack
packet_message_lem drv_port so rcvr buf pkt_size same fits small =
    elim (Bool-cases rcvr.send_to_connected) [
      | inl c ↦
          let (hs, e, bytes, depth, size) = body_lem so.delivery_mode so.header buf (omega arith) in
          let us = tuple 3 ∷ [] in
          (
            output (
                DrvTerm.atom (lit "utp")
                  ∷ port drv_port
                  ∷ (hs ++ data_entry so.delivery_mode (drop so.header buf) ∷ list_terms so.header)
                ++ us),
            rw (
              e,
              c,
              data_term_lem so.delivery_mode (data_length pkt_size so.header) (drop so.header buf)
                  len,
            ),
            bytes us ∙ append-nil buf,
            depth 2 us,
            omega (arith, size us),
          )
      | inr c ↦
          let (hs, e, bytes, depth, size) = body_lem data_binary so.header buf (omega arith) in
          let us = tuple 2 ∷ tuple 2 ∷ [] in
          (
            send rcvr.caller (
                ext2term rcvr.caller_ref
                  ∷ DrvTerm.atom (lit "ok")
                  ∷ (hs ++ data_entry data_binary (drop so.header buf) ∷ list_terms so.header)
                ++ us),
            rw (
              e,
              c,
              data_term_lem data_binary (data_length pkt_size so.header) (drop so.header buf) len,
            ),
            bytes us ∙ append-nil buf,
            depth 2 us,
            omega (arith, size us),
          )
    ]
  where
    len : data_length pkt_size so.header ≡ length (drop so.header buf)
    len = omega (arith, length-drop so.header buf)
