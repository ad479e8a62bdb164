-- ===== src/Connection/Output.antt =====
-- utp_handler.cc, `outputv`: data from the Erlang side.
pub mod Queued
use gen_utp.Base.{
  ℕ, zero, suc, ◌+◌, ◌/◌, ◌%◌, ◌^◌, Bool, true, false, not, ◌&&◌, Option, some, none, List, [], ◌∷◌,
  ◌++◌, length, ltb, ◌==◌, if◌then◌else◌, ℤ, is_minus_one, to_ulong, add_size, Result, ok, err,
  fault, ◌>>=◌,
}
use gen_utp.Driver.Defs.{
  lit, errno_id, DrvTerm, port, uint, tuple, Message, send, Process, process, not_connected_message,
}
use gen_utp.WriteQueue.{DrvBinary, WriteQueue, push_back}
use gen_utp.Connection.Defs.{UtpHandler, Event, message, utp_write, Stepped}
use gen_utp.Connection.Callbacks.{WriteRun, do_writes, is_connected}
use gen_utp.Connection.Control.{enotconn}

abbrev pub etimedout : ℕ
etimedout = 110

-- One entry of `ErlIOVec`: its bytes and its binary, if it has one.
pub record IoEntry : Type 0 where
  pub bytes : List ℕ
  pub binv : Option DrvBinary

pub record IoVec : Type 0 where
  pub size : ℕ
  pub entries : List IoEntry

-- The bytes put in front of the data. Where `packet` is none of the sizes that the `switch` has, the
-- binary that was allocated is queued unset.
unfoldable pub packet_prefix : ℕ → ℕ → Result (List ℕ)
packet_prefix zero size = ok []
packet_prefix (suc zero) size = ok (size % 256 ∷ [])
packet_prefix (suc (suc zero)) size = ok ((size / 256 % 256) ∷ size % 256 ∷ [])
packet_prefix (suc (suc (suc zero))) size = err fault
packet_prefix (suc (suc (suc (suc zero)))) size =
    ok ((size / 2 ^ 24 % 256) ∷ (size / 2 ^ 16 % 256) ∷ (size / 256 % 256) ∷ size % 256 ∷ [])
packet_prefix (suc (suc (suc (suc (suc n))))) size = err fault

-- The prefix as a binary of its own; `id` is the identity of what is allocated.
unfoldable pub push_prefix : ℕ → List ℕ → WriteQueue → WriteQueue
unfolding push_back
push_prefix id [] wq = wq
push_prefix id (b ∷ bs) wq = push_back (record { id = id; orig_bytes = b ∷ bs }) wq

-- The loop over the entries: a copy of the bytes, or the binary itself if there are none.
abbrev pub entry_binary : ℕ → IoEntry → Option DrvBinary
entry_binary id e = elim e.bytes [
  | [] ↦ e.binv
  | b ∷ bs ↦ some (record { id = id; orig_bytes = b ∷ bs })
]

abbrev pub push_entry : Option DrvBinary → WriteQueue → WriteQueue
push_entry none wq = wq
push_entry (some b) wq = push_back b wq

unfoldable pub push_entries : ℕ → List IoEntry → WriteQueue → WriteQueue
unfolding push_back
push_entries id [] wq = wq
push_entries id (e ∷ es) wq = push_entries (id + 1) es (push_entry (entry_binary id e) wq)

-- What `outputv` queues, and how many bytes it asks `UTP_Write` to send.
unfoldable pub queue_data : ℕ → ℕ → IoVec → WriteQueue → Result (WriteQueue × ℕ)
unfolding packet_prefix push_prefix push_entries
queue_data id packet ev wq = if ev.size == 0 then ok (wq, 0) else (do
  prefix ← packet_prefix packet ev.size
  ok (push_entries (id + 1) ev.entries (push_prefix id prefix wq), add_size packet ev.size))

abbrev pub utp_reply : ℕ → ℕ → List DrvTerm → Message
utp_reply from p rest = send (process from) (DrvTerm.atom (lit "utp_reply") ∷ port p ∷ rest)

-- `wait`, with the timeout if there is one.
unfoldable pub wait_terms : ℤ → List DrvTerm
unfolding is_minus_one to_ulong
wait_terms tmout =
    if is_minus_one tmout
    then DrvTerm.atom (lit "wait") ∷ tuple 3 ∷ []
    else DrvTerm.atom (lit "wait") ∷ uint (to_ulong tmout) ∷ tuple 2 ∷ tuple 3 ∷ []

abbrev pub is_zero : ℤ → Bool
is_zero (ℤ.pos zero) = true
is_zero _ = false

module _ {Q : Type 0} where
  -- The connection takes the data.
  unfoldable pub write_data : ℕ → ℕ → WriteRun → IoVec → UtpHandler Q → Result (Stepped Q)
  unfolding queue_data do_writes
  write_data from id w ev h = do
    (wq, total) ← queue_data id h.sockopts.packet ev h.write_queue
    (wq', sent) ← do_writes w.counts wq
    ok (record {
      after = record h { write_queue = wq'; is_writable = w.result };
      events =
          utp_write h.utp total
          ∷ message (utp_reply from h.drv_port (DrvTerm.atom (lit "ok") ∷ tuple 3 ∷ []))
          ∷ [];
    })

  -- The connection cannot take it now.
  unfoldable pub refuse_data : ℕ → UtpHandler Q → Stepped Q
  unfolding wait_terms
  refuse_data from h =
      if is_zero h.sockopts.send_tmout
      then record {
        after = h;
        events =
            message (
              utp_reply from h.drv_port (
                DrvTerm.atom (lit "error")
                ∷ DrvTerm.atom (errno_id etimedout)
                ∷ tuple 2
                ∷ tuple 3
                ∷ []))
            ∷ [];
      }
      else record {
        after = record h { caller = process from; sender_waiting = true };
        events = message (utp_reply from h.drv_port (wait_terms h.sockopts.send_tmout)) ∷ [];
      }

  abbrev pub has_socket : UtpHandler Q → Bool
  has_socket h = elim h.utp [ none ↦ false | some u ↦ true ]

  -- `outputv`, called by the process `from`; `w` is what libutp does within `UTP_Write`.
  unfoldable pub outputv : ℕ → ℕ → WriteRun → IoVec → UtpHandler Q → Result (Stepped Q)
  unfolding write_data refuse_data not_connected_message
  outputv from id w ev h =
      if is_connected h.status && has_socket h
      then (if h.is_writable then write_data from id w ev h else ok (refuse_data from h))
      else ok (record {
        after = h;
        events = message (not_connected_message (process from) h.drv_port enotconn) ∷ [];
      })
