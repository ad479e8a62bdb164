-- ===== src/WriteQueue.antt =====
-- c_src/write_queue.h and c_src/write_queue.cc: the bytes that wait to be sent, as a list of driver
-- binaries, the number of bytes left and the offset into the first binary.
-- `pop_bytes` copies to a buffer that is a list here; a binary has an identity, so that the
-- references that the queue gives up can be followed.
pub mod Fifo
pub mod References
mod Tests
use gen_utp.Base.{
  ℕ, ◌+◌, ◌-◌, ◌≡◌, Bool, true, false, List, [], ◌∷◌, ◌++◌, map, length, take, drop, ltb,
  if◌then◌else◌, Result, ok, err, fault, ◌>>=◌, add_size, sub_size,
}

-- `ErlDrvBinary`, `orig_size` being the length of its bytes.
pub record DrvBinary : Type 0 where
  pub id : ℕ
  pub orig_bytes : List ℕ

abbrev pub orig_size : DrvBinary → ℕ
orig_size b = length b.orig_bytes

pub record WriteQueue : Type 0 where
  pub queue : List DrvBinary
  pub sz : ℕ
  pub offset : ℕ

unfoldable pub empty : WriteQueue
empty = record { queue = []; sz = 0; offset = 0 }

-- The copy constructor: the new queue, and the binaries whose count it incremented.
pub copy_loop : List DrvBinary → List DrvBinary → List ℕ → List DrvBinary × List ℕ
copy_loop [] queue incremented = (queue, incremented)
copy_loop (bin ∷ rest) queue incremented =
    copy_loop rest (queue ++ bin ∷ []) (incremented ++ bin.id ∷ [])

pub copy : WriteQueue → WriteQueue × List ℕ
unfolding copy_loop
copy wq =
    let (queue, incremented) = copy_loop wq.queue [] [] in
    (record { queue = queue; sz = wq.sz; offset = wq.offset }, incremented)

-- The destructor: the binaries that it frees.
pub destroy_loop : List DrvBinary → List ℕ
destroy_loop [] = []
destroy_loop (bin ∷ rest) = bin.id ∷ destroy_loop rest

pub destroy : WriteQueue → List ℕ
unfolding destroy_loop
destroy wq = destroy_loop wq.queue

unfoldable pub push_back : DrvBinary → WriteQueue → WriteQueue
push_back bin wq = record wq { queue = wq.queue ++ bin ∷ []; sz = add_size wq.sz (orig_size bin) }

unfoldable pub size : WriteQueue → ℕ
size wq = wq.sz

-- What a run of `pop_bytes` leaves: the queue, the bytes copied out and the binaries freed.
pub record Popped : Type 0 where
  pub rest : WriteQueue
  pub copied : List ℕ
  pub freed : List ℕ

-- `memcpy(to, bin->orig_bytes+offset, n)`
abbrev pub slice : ℕ → ℕ → List ℕ → List ℕ
slice n offset bytes = take n (drop offset bytes)

abbrev pub add_popped : List ℕ → ℕ → Popped → Popped
add_popped bytes id r = record r { copied = bytes ++ r.copied; freed = id ∷ r.freed }

-- One round takes from the first binary, and ends the loop or removes that binary.
unfoldable pub pop_loop : List DrvBinary → ℕ → ℕ → ℕ → Result Popped
pop_loop [] offset sz count =
    if ltb 0 count
    then err fault
    else ok
        (record { rest = record { queue = []; sz = sz; offset = offset }; copied = []; freed = [] })
pop_loop (bin ∷ queue) offset sz count =
    let to_copy = sub_size (orig_size bin) offset in
    let more = (do
      r ← pop_loop queue 0 (sub_size sz to_copy) (sub_size count to_copy)
      ok (add_popped (slice to_copy offset bin.orig_bytes) bin.id r)) in
    if ltb 0 count
    then if ltb count to_copy
      then ok (record {
        rest = record {
          queue = bin ∷ queue;
          sz = sub_size sz count;
          offset = add_size offset count;
        };
        copied = slice count offset bin.orig_bytes;
        freed = [];
      })
      else more
    else ok (record {
      rest = record { queue = bin ∷ queue; sz = sz; offset = offset };
      copied = [];
      freed = [];
    })

unfoldable pub pop_bytes : WriteQueue → ℕ → Result Popped
pop_bytes wq count = pop_loop wq.queue wq.offset wq.sz count

-- The queue, and the binaries that are freed.
unfoldable pub clear : WriteQueue → WriteQueue × List ℕ
clear wq = (record { queue = []; sz = 0; offset = 0 }, [])
