-- ===== src/Driver/ListQueue.antt =====
-- A queue of the runtime as a list of buffers, for inputs: `deq` joins what it leaves.
use gen_utp.Base.{
  ℕ, ◌≡◌, refl, sym, ap, ◌∙◌, List, [], ◌∷◌, ◌++◌, length, drop, append-nil, append_assoc,
}
use gen_utp.Driver.Queue.{DrvQueue, DrvQueueLaws, flat}

abbrev pub list_queue : DrvQueue
list_queue = record {
  Queue = List (List ℕ);
  sizeq = λ q. length (flat q);
  peekq = λ q. q;
  deq = λ q n. drop n (flat q) ∷ [];
  enq = λ q bytes. q ++ bytes ∷ [];
}

flat-append : (q : List (List ℕ)) (bytes : List ℕ) → flat (q ++ bytes ∷ []) ≡ flat q ++ bytes
flat-append [] bytes = append-nil bytes
flat-append (v ∷ q) bytes =
    ap (λ xs. v ++ xs) (flat-append q bytes) ∙ sym (append_assoc v (flat q) bytes)

pub list_queue_laws : DrvQueueLaws list_queue
list_queue_laws = record {
  sizeq_lem = λ q. refl;
  content-deq = λ q n h. append-nil (drop n (flat q));
  content-enq = flat-append;
}
