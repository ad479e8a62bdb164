-- ===== src/WriteQueue/Fifo.antt =====
-- write_queue.cc as a queue of bytes.
use mathlib.Core.List.{append-nil, append_assoc}
use gen_utp.Base.{
  ℕ, zero, suc, ◌+◌, ◌-◌, ◌≤◌, ◌<◌, ◌≡◌, refl, sym, ap, subst, ◌∙◌, inl, inr, true, List, [], ◌∷◌,
  ◌++◌, length, take, drop, ltb, ltb→lt, ltb→le, lt→ltb, le→ltb, Bool-cases, ok, err, fault,
  size_mod, add_size, sub_size, arith, length-append, length-drop, take-append_le, take-append_ge,
  drop-append_le, drop-append_ge, drop-drop, take-length,
}
use gen_utp.WriteQueue.{
  DrvBinary, orig_size, WriteQueue, empty, push_back, size, Popped, slice, add_popped, pop_loop,
  pop_bytes,
}

abbrev pub bytes_of : List DrvBinary → List ℕ
bytes_of [] = []
bytes_of (bin ∷ rest) = bin.orig_bytes ++ bytes_of rest

-- The bytes that wait, oldest first.
abbrev pub content : WriteQueue → List ℕ
content wq = drop wq.offset (bytes_of wq.queue)

-- The offset lies within the first binary.
abbrev pub OffsetFits : ℕ → List DrvBinary → Type 0
OffsetFits offset [] = offset ≡ 0
OffsetFits offset (bin ∷ rest) = offset ≤ orig_size bin

pub record IsValid (wq : WriteQueue) : Type 0 where
  pub fits : OffsetFits wq.offset wq.queue
  pub counted : wq.sz + wq.offset ≡ length (bytes_of wq.queue)
  pub small : length (bytes_of wq.queue) < size_mod

bytes_of-append :
    (xs : List DrvBinary) (b : DrvBinary) → bytes_of (xs ++ b ∷ []) ≡ bytes_of xs ++ b.orig_bytes
bytes_of-append [] b = append-nil b.orig_bytes
bytes_of-append (x ∷ xs) b =
    ap (λ ys. x.orig_bytes ++ ys) (bytes_of-append xs b)
    ∙ sym (append_assoc x.orig_bytes (bytes_of xs) b.orig_bytes)

pub empty-IsValid : IsValid empty
unfolding empty
empty-IsValid = record { fits = refl; counted = omega arith; small = omega arith }

-- The stored size is the number of bytes that wait.
pub size-eq-length : {wq : WriteQueue} → IsValid wq → size wq ≡ length (content wq)
unfolding size
size-eq-length {wq} v = omega (arith, v.counted, length-drop wq.offset (bytes_of wq.queue))

OffsetFits-append :
    (q : List DrvBinary) (o : ℕ) (b : DrvBinary) → OffsetFits o q → OffsetFits o (q ++ b ∷ [])
OffsetFits-append [] o b h = omega arith
OffsetFits-append (x ∷ q) o b h = h

OffsetFits-le : (q : List DrvBinary) (o : ℕ) → OffsetFits o q → o ≤ length (bytes_of q)
OffsetFits-le [] o h = omega arith
OffsetFits-le (x ∷ q) o h = omega (arith, length-append x.orig_bytes (bytes_of q))

pub push_back-length :
    (bin : DrvBinary) (wq : WriteQueue)
    → length (bytes_of (push_back bin wq).queue) ≡ length (bytes_of wq.queue) + orig_size bin
unfolding push_back
push_back-length bin wq =
    ap length (bytes_of-append wq.queue bin) ∙ length-append (bytes_of wq.queue) bin.orig_bytes

-- `push_back` appends the bytes of its binary to those that wait and keeps the queue valid, if
-- their number stays below the size of the address space.
pub push_back_lem :
    (bin : DrvBinary) {wq : WriteQueue}
    → IsValid wq
    → length (bytes_of wq.queue) + orig_size bin < size_mod
    → (content (push_back bin wq) ≡ content wq ++ bin.orig_bytes) × IsValid (push_back bin wq)
unfolding push_back
push_back_lem bin {wq} v h = (
  rw (bytes_of-append wq.queue bin) (
      drop-append_le wq.offset (bytes_of wq.queue) bin.orig_bytes
        (OffsetFits-le wq.queue wq.offset v.fits)),
  record {
    fits = OffsetFits-append wq.queue wq.offset bin v.fits;
    counted = rw (bytes_of-append wq.queue bin) (omega (arith, total, v.counted));
    small = rw (bytes_of-append wq.queue bin) (omega (arith, total));
  },
)
  where
    total :
        length (bytes_of wq.queue ++ bin.orig_bytes)
        ≡ length (bytes_of wq.queue) + length bin.orig_bytes
    total = length-append (bytes_of wq.queue) bin.orig_bytes

-- What `pop_loop` does with `count` of the bytes that wait: it copies them out in order, leaves the
-- others, and the queue stays valid.
pub record Takes (count : ℕ) (waiting : List ℕ) (r : Popped) : Type 0 where
  pub copied : r.copied ≡ take count waiting
  pub left : content r.rest ≡ drop count waiting
  pub valid : IsValid r.rest

pop_none :
    (wq : WriteQueue)
    → IsValid wq
    → Takes 0 (content wq) (record { rest = wq; copied = []; freed = [] })
pop_none wq v = record { copied = refl; left = refl; valid = v }

-- The run ends within the first binary.
pop_within :
    (bin : DrvBinary) (q : List DrvBinary) (offset sz count : ℕ)
    → IsValid (record { queue = bin ∷ q; sz = sz; offset = offset })
    → count < orig_size bin - offset
    → Takes count (drop offset (bytes_of (bin ∷ q))) (record {
      rest = record { queue = bin ∷ q; sz = sub_size sz count; offset = add_size offset count };
      copied = slice count offset bin.orig_bytes;
      freed = [];
    })
pop_within bin q offset sz count v h = record {
  copied = rw (drop-append_le offset bin.orig_bytes (bytes_of q) v.fits) (
      sym (
        take-append_le count (drop offset bin.orig_bytes) (bytes_of q)
          (omega (arith, length-drop offset bin.orig_bytes))));
  left = rw end (sym (drop-drop count offset (bytes_of (bin ∷ q))));
  valid = record {
    fits = omega (arith, v.small, total);
    counted = omega (arith, v.counted, v.small, total);
    small = v.small;
  };
}
  where
    total : length (bytes_of (bin ∷ q)) ≡ orig_size bin + length (bytes_of q)
    total = length-append bin.orig_bytes (bytes_of q)

    end : add_size offset count ≡ offset + count
    end = omega (arith, v.small, total)

-- The run uses up the first binary and goes on with the others.
pop_beyond :
    (bin : DrvBinary) (q : List DrvBinary) (offset n count : ℕ) (r : Popped)
    → offset ≤ orig_size bin
    → n ≡ orig_size bin - offset
    → n ≤ count
    → Takes (count - n) (bytes_of q) r
    → Takes count
        (drop offset (bytes_of (bin ∷ q)))
        (add_popped (slice n offset bin.orig_bytes) bin.id r)
pop_beyond bin q offset n count r h e le t = record {
  copied =
      rw
        (
          split,
          take-append_ge count (drop offset bin.orig_bytes) (bytes_of q) (omega (arith, first)),
          t.copied,
          whole,
        )
        (ap (λ k. drop offset bin.orig_bytes ++ take k (bytes_of q)) (omega (arith, first)));
  left =
      rw
        (
          split,
          drop-append_ge count (drop offset bin.orig_bytes) (bytes_of q) (omega (arith, first)),
          t.left,
        )
        (ap (λ k. drop k (bytes_of q)) (omega (arith, first)));
  valid = t.valid;
}
  where
    first : length (drop offset bin.orig_bytes) ≡ n
    first = omega (arith, length-drop offset bin.orig_bytes)

    split : drop offset (bytes_of (bin ∷ q)) ≡ drop offset bin.orig_bytes ++ bytes_of q
    split = drop-append_le offset bin.orig_bytes (bytes_of q) h

    whole : slice n offset bin.orig_bytes ≡ drop offset bin.orig_bytes
    whole = take-length (drop offset bin.orig_bytes) n (omega (arith, first))

zero_fits : (xs : List DrvBinary) → OffsetFits 0 xs
zero_fits [] = refl
zero_fits (x ∷ xs) = omega arith

rest-IsValid :
    (bin : DrvBinary) (q : List DrvBinary) (offset sz n : ℕ)
    → IsValid (record { queue = bin ∷ q; sz = sz; offset = offset })
    → n ≡ orig_size bin - offset
    → IsValid (record { queue = q; sz = sub_size sz n; offset = 0 })
rest-IsValid bin q offset sz n v e = record {
  fits = zero_fits q;
  counted = omega (arith, v.counted, v.small, v.fits, total);
  small = omega (arith, v.small, total);
}
  where
    total : length (bytes_of (bin ∷ q)) ≡ orig_size bin + length (bytes_of q)
    total = length-append bin.orig_bytes (bytes_of q)

pop_loop_lem :
    (q : List DrvBinary) (offset sz count : ℕ)
    → IsValid (record { queue = q; sz = sz; offset = offset })
    → count ≤ length (drop offset (bytes_of q))
    → (r : Popped) × (pop_loop q offset sz count ≡ ok r) × Takes count (drop offset (bytes_of q)) r
unfolding pop_loop
pop_loop_lem [] offset sz zero v h = (_, refl, pop_none _ v)
pop_loop_lem [] offset sz (suc count) v h = absurd (omega (arith, length-drop offset (bytes_of [])))
pop_loop_lem (bin ∷ q) offset sz zero v h = (_, refl, pop_none _ v)
pop_loop_lem (bin ∷ q) offset sz (suc count) v h =
    elim (Bool-cases (ltb (suc count) (sub_size (orig_size bin) offset))) [
      | inl within ↦ (
        _,
        rw (started, within),
        pop_within bin q offset sz (suc count) v (omega (arith, exact, ltb→lt _ _ within)),
      )
      | inr beyond ↦
          let n = sub_size (orig_size bin) offset in
          let left : sub_size (suc count) n ≡ suc count - n =
            omega (arith, exact, v.small, whole, total, ltb→le _ _ beyond) in
          let (r, e, t) =
            pop_loop_lem q 0 (sub_size sz n) (sub_size (suc count) n)
              (rest-IsValid bin q offset sz n v exact)
              (omega (arith, exact, left, whole, total, h)) in
          (
            _,
            rw (started, beyond, e),
            pop_beyond bin q offset n (suc count) r v.fits exact (ltb→le _ _ beyond)
                (subst (λ k. Takes k (bytes_of q) r) left t),
          )
    ]
  where
    started : ltb 0 (suc count) ≡ true
    started = lt→ltb 0 (suc count) (omega arith)

    exact : sub_size (orig_size bin) offset ≡ orig_size bin - offset
    exact = omega (arith, v.small, v.fits, length-append bin.orig_bytes (bytes_of q))

    total : length (bytes_of (bin ∷ q)) ≡ orig_size bin + length (bytes_of q)
    total = length-append bin.orig_bytes (bytes_of q)

    whole : length (drop offset (bytes_of (bin ∷ q))) ≡ length (bytes_of (bin ∷ q)) - offset
    whole = length-drop offset (bytes_of (bin ∷ q))

-- `pop_bytes` with at most the waiting bytes asked for returns; it copies out exactly the first
-- `count` of them in order, leaves exactly the others, and keeps the queue valid.
pub pop_bytes_lem :
    {wq : WriteQueue} (count : ℕ)
    → IsValid wq
    → count ≤ length (content wq)
    → (r : Popped) × (pop_bytes wq count ≡ ok r)
      × (r.copied ≡ take count (content wq))
      × (content r.rest ≡ drop count (content wq))
      × IsValid r.rest
unfolding pop_bytes
pop_bytes_lem {wq} count v h =
    let (r, e, t) = pop_loop_lem wq.queue wq.offset wq.sz count v h in
    (r, e, t.copied, t.left, t.valid)

pop_loop_overrun :
    (q : List DrvBinary) (offset sz count : ℕ)
    → OffsetFits offset q
    → length (bytes_of q) < size_mod
    → length (drop offset (bytes_of q)) < count
    → count < size_mod
    → pop_loop q offset sz count ≡ err fault
unfolding pop_loop
pop_loop_overrun q offset sz zero f s h c = absurd (omega arith)
pop_loop_overrun [] offset sz (suc count) f s h c = rw (lt→ltb 0 (suc count) (omega arith))
pop_loop_overrun (bin ∷ q) offset sz (suc count) f s h c = rw (
  lt→ltb 0 (suc count) (omega arith),
  le→ltb (suc count) n (omega (arith, exact, whole, total)),
  pop_loop_overrun q 0 (sub_size sz n) (sub_size (suc count) n) (zero_fits q) (omega (arith, total))
      (omega (arith, exact, whole, total)) (omega arith),
)
  where
    n : ℕ
    n = sub_size (orig_size bin) offset

    total : length (bytes_of (bin ∷ q)) ≡ orig_size bin + length (bytes_of q)
    total = length-append bin.orig_bytes (bytes_of q)

    whole : length (drop offset (bytes_of (bin ∷ q))) ≡ length (bytes_of (bin ∷ q)) - offset
    whole = length-drop offset (bytes_of (bin ∷ q))

    exact : n ≡ orig_size bin - offset
    exact = omega (arith, total)

-- `pop_bytes` asked for more than the bytes that wait reads the front of an empty list.
pub pop_bytes_overrun :
    {wq : WriteQueue} (count : ℕ)
    → IsValid wq
    → length (content wq) < count
    → count < size_mod
    → pop_bytes wq count ≡ err fault
unfolding pop_bytes
pop_bytes_overrun {wq} count v h c =
    pop_loop_overrun wq.queue wq.offset wq.sz count v.fits v.small h c
