-- ===== src/Connection/Output/Queued.antt =====
-- `outputv`: what it queues, a prefix that tells the size and then the data. `packet_size` is how
-- the receiving side's `emit_read_buffer` reads a prefix.
use gen_utp.Base.{
  ℕ, zero, suc, ◌+◌, ◌/◌, ◌%◌, ◌^◌, ◌<◌, ◌≡◌, refl, sym, ap, ◌∙◌, ◌⊎◌, inl, inr, Option, some, none,
  List, [], ◌∷◌, ◌++◌, length, ok, arith, size_mod, add_size, append-nil, append_assoc,
  length-append, ◌==◌, false,
}
use gen_utp.WriteQueue.{DrvBinary, WriteQueue, push_back}
use gen_utp.WriteQueue.Fifo.{bytes_of, content, IsValid, push_back_lem, push_back-length}
use gen_utp.Reading.Defs.{packet_size}
use gen_utp.Connection.Output.{
  IoEntry, IoVec, entry_binary, push_entry, packet_prefix, push_prefix, push_entries, queue_data,
}

-- The sizes of a prefix that the options allow, other than none.
abbrev pub IsPrefixSize : ℕ → Type 0
IsPrefixSize packet = (packet ≡ 1) ⊎ (packet ≡ 2) ⊎ (packet ≡ 4)

-- What the prefix of `size` is, and what is read from it whatever comes after.
abbrev pub ReadsAs : ℕ → ℕ → ℕ → Type 0
ReadsAs packet size n =
    (bs : List ℕ) × (packet_prefix packet size ≡ ok bs)
    × (length bs ≡ packet)
    × ((rest : List ℕ) (vec : List (List ℕ)) → packet_size packet ((bs ++ rest) ∷ vec) ≡ ok n)

prefix-1 : (size : ℕ) → ReadsAs 1 size (size % 256)
unfolding packet_prefix packet_size
prefix-1 size = (_, refl, refl, λ rest vec. refl)

prefix-2 : (size : ℕ) → ReadsAs 2 size (size % 256 ^ 2)
unfolding packet_prefix packet_size
prefix-2 size = (_, refl, refl, λ rest vec. ap ok (omega arith))

prefix-4 : (size : ℕ) → ReadsAs 4 size (size % 256 ^ 4)
unfolding packet_prefix packet_size
prefix-4 size = (_, refl, refl, λ rest vec. ap ok (omega arith))

-- The prefix that `outputv` writes has `packet` bytes, and `emit_read_buffer` reads from it the size
-- modulo 256 ^ `packet`: the very size if it fits, and less if it does not, since nothing checks it.
pub packet_size-packet_prefix :
    (packet size : ℕ) → IsPrefixSize packet → ReadsAs packet size (size % 256 ^ packet)
packet_size-packet_prefix packet size (inl e) = rw e (prefix-1 size)
packet_size-packet_prefix packet size (inr (inl e)) = rw e (prefix-2 size)
packet_size-packet_prefix packet size (inr (inr e)) = rw e (prefix-4 size)

-- The bytes of `n`, the most significant first, `k` of them.
abbrev pub big_endian : ℕ → ℕ → List ℕ
big_endian zero n = []
big_endian (suc k) n = (n / 256 ^ k % 256) ∷ big_endian k n

-- What one entry adds to the queue: its bytes, or the whole of its binary if it has none.
abbrev pub entry_bytes : List ℕ → Option DrvBinary → List ℕ
entry_bytes [] none = []
entry_bytes [] (some bin) = bin.orig_bytes
entry_bytes (b ∷ bs) binv = b ∷ bs

abbrev pub queued_of : List IoEntry → List ℕ
queued_of [] = []
queued_of (e ∷ es) = entry_bytes e.bytes e.binv ++ queued_of es

-- The data of a vector: the bytes that its entries point at.
abbrev pub data_of : List IoEntry → List ℕ
data_of [] = []
data_of (e ∷ es) = e.bytes ++ data_of es

-- What goes to the other side for a vector of a size, and how many bytes `UTP_Write` is to send.
abbrev pub frame : ℕ → ℕ → List IoEntry → List ℕ
frame packet zero es = []
frame packet (suc n) es = big_endian packet (suc n) ++ queued_of es

abbrev pub asked : ℕ → ℕ → ℕ
asked packet zero = 0
asked packet (suc n) = packet + suc n

low : (size : ℕ) → size % 256 ≡ size / 1 % 256
low size = omega arith

packet_prefix_lem :
    (packet size : ℕ)
    → (packet ≡ 0) ⊎ IsPrefixSize packet
    → packet_prefix packet size ≡ ok (big_endian packet size)
unfolding packet_prefix
packet_prefix_lem packet size (inl e) = rw e refl
packet_prefix_lem packet size (inr (inl e)) = rw e (ap (λ x. ok (x ∷ [])) (low size))
packet_prefix_lem packet size (inr (inr (inl e))) =
    rw e (ap (λ x. ok ((size / 256 % 256) ∷ x ∷ [])) (low size))
packet_prefix_lem packet size (inr (inr (inr e))) = rw e (
    ap (λ x. ok ((size / 2 ^ 24 % 256) ∷ (size / 2 ^ 16 % 256) ∷ (size / 256 % 256) ∷ x ∷ []))
      (low size))

big_endian-length : (k n : ℕ) → length (big_endian k n) ≡ k
big_endian-length zero n = refl
big_endian-length (suc k) n = ap suc (big_endian-length k n) ∙ omega arith

-- A valid queue that waits to send `bs` more than `wq`.
abbrev pub Appended : WriteQueue → List ℕ → WriteQueue → Type 0
Appended wq bs wq' =
    (content wq' ≡ content wq ++ bs)
    × IsValid wq'
    × (length (bytes_of wq'.queue) ≡ length (bytes_of wq.queue) + length bs)

Appended-trans :
    (wq wq' wq'' : WriteQueue) (xs ys : List ℕ)
    → Appended wq xs wq'
    → Appended wq' ys wq''
    → Appended wq (xs ++ ys) wq''
Appended-trans wq wq' wq'' xs ys (c, v, l) (c', v', l') = (
  c' ∙ ap (λ zs. zs ++ ys) c ∙ append_assoc (content wq) xs ys,
  v',
  omega (arith, length-append xs ys),
)

push_back-Appended :
    (bin : DrvBinary) (wq : WriteQueue)
    → IsValid wq
    → length (bytes_of wq.queue) + length bin.orig_bytes < size_mod
    → Appended wq bin.orig_bytes (push_back bin wq)
push_back-Appended bin wq v h =
    let (c, v') = push_back_lem bin v h in (c, v', push_back-length bin wq)

none-Appended : (wq : WriteQueue) → IsValid wq → Appended wq [] wq
none-Appended wq v = (sym (append-nil (content wq)), v, omega arith)

push_prefix-Appended :
    (id : ℕ) (bs : List ℕ) (wq : WriteQueue)
    → IsValid wq
    → length (bytes_of wq.queue) + length bs < size_mod
    → Appended wq bs (push_prefix id bs wq)
unfolding push_prefix
push_prefix-Appended id [] wq v h = none-Appended wq v
push_prefix-Appended id (b ∷ bs) wq v h = push_back-Appended _ wq v h

push_entry-Appended :
    (id : ℕ) (bytes : List ℕ) (binv : Option DrvBinary) (wq : WriteQueue)
    → IsValid wq
    → length (bytes_of wq.queue) + length (entry_bytes bytes binv) < size_mod
    → Appended wq
        (entry_bytes bytes binv)
        (push_entry (entry_binary id (record { bytes = bytes; binv = binv })) wq)
push_entry-Appended id (b ∷ bs) binv wq v h = push_back-Appended _ wq v h
push_entry-Appended id [] none wq v h = none-Appended wq v
push_entry-Appended id [] (some bin) wq v h = push_back-Appended bin wq v h

push_entries-Appended :
    (id : ℕ) (es : List IoEntry) (wq : WriteQueue)
    → IsValid wq
    → length (bytes_of wq.queue) + length (queued_of es) < size_mod
    → Appended wq (queued_of es) (push_entries id es wq)
unfolding push_entries
push_entries-Appended id [] wq v h = none-Appended wq v
push_entries-Appended id (e ∷ es) wq v h =
    let bs = entry_bytes e.bytes e.binv in
    let n = length-append bs (queued_of es) in
    let first = push_entry-Appended id e.bytes e.binv wq v (omega (arith, n)) in
    Appended-trans wq _ _ bs (queued_of es) first
      (push_entries-Appended (id + 1) es _ first.1 (omega (arith, n, first.2)))

queue_something :
    (id packet n : ℕ) (es : List IoEntry) (wq : WriteQueue)
    → (packet ≡ 0) ⊎ IsPrefixSize packet
    → queue_data id packet (record { size = suc n; entries = es }) wq
      ≡ ok (
        push_entries (id + 1) es (push_prefix id (big_endian packet (suc n)) wq),
        add_size packet (suc n),
      )
unfolding queue_data
queue_something id packet n es wq p =
    let more : (suc n == 0) ≡ false = ground arith in
    rw (more, packet_prefix_lem packet (suc n) p) refl

queue_sized :
    (id packet size : ℕ) (es : List IoEntry) (wq : WriteQueue)
    → (packet ≡ 0) ⊎ IsPrefixSize packet
    → IsValid wq
    → length (bytes_of wq.queue) + length (frame packet size es) < size_mod
    → packet + size < size_mod
    → (wq' : WriteQueue) × (queue_data id packet (record { size = size; entries = es }) wq
        ≡ ok (wq', asked packet size))
      × Appended wq (frame packet size es) wq'
unfolding queue_data
queue_sized id packet zero es wq p v h small = (wq, refl, none-Appended wq v)
queue_sized id packet (suc n) es wq p v h small =
    let prefix = big_endian packet (suc n) in
    let long = length-append prefix (queued_of es) in
    let put = push_prefix-Appended id prefix wq v (omega (arith, long)) in
    let rest =
      push_entries-Appended (id + 1) es (push_prefix id prefix wq) put.1
        (omega (arith, long, put.2)) in
    let total : add_size packet (suc n) ≡ packet + suc n = omega arith in
    (
      push_entries (id + 1) es (push_prefix id prefix wq),
      queue_something id packet n es wq p
          ∙ ap (λ k. ok (push_entries (id + 1) es (push_prefix id prefix wq), k)) total,
      Appended-trans wq _ _ prefix (queued_of es) put rest,
    )

-- For a `packet` of 0, 1, 2 or 4 and whatever vector, if the bytes fit the address space: `outputv`
-- appends to what waits nothing if the vector's size is 0, and otherwise the size, big-endian in `packet`
-- bytes, and then what each entry holds, its bytes or, if it has none, the whole of its binary; the
-- queue stays valid, and `UTP_Write` is to be asked for `packet` and the vector's size together,
-- which leaves out the binaries of entries without bytes.
pub queue_data_lem :
    (id packet : ℕ) (ev : IoVec) (wq : WriteQueue)
    → (packet ≡ 0) ⊎ IsPrefixSize packet
    → IsValid wq
    → length (bytes_of wq.queue) + length (frame packet ev.size ev.entries) < size_mod
    → packet + ev.size < size_mod
    → (wq' : WriteQueue) × (queue_data id packet ev wq ≡ ok (wq', asked packet ev.size))
      × Appended wq (frame packet ev.size ev.entries) wq'
queue_data_lem id packet ev wq p v h small = queue_sized id packet ev.size ev.entries wq p v h small
