-- ===== src/Reading/Tests.antt =====
-- Inputs for `emit_read_buffer`, and the theorems at them.
use gen_utp.Base.{ℕ, ◌≤◌, ◌≡◌, refl, true, false, List, [], ◌∷◌, length, ℤ, ok, arith}
use gen_utp.Driver.Defs.{Message, process}
use gen_utp.Driver.Shape.{cells, entries, IsMessage}
use gen_utp.Driver.Queue.{content}
use gen_utp.Driver.ListQueue.{list_queue, list_queue_laws}
use gen_utp.Options.Defs.{Active, active_false, active_true, default_opts}
use gen_utp.Reading.Defs.{
  Socket, Receiver, connected_receiver, Emitted, emit_read_buffer, emit_packet, packet_message,
}
use gen_utp.Reading.Moving.{payload, packet_message_lem}
use gen_utp.Reading.Framed.{Unpacks, emit_packet_lem}
use gen_utp.Reading.Raw.{Delivers, Alone, Ready, emit_read_buffer_active, emit_read_buffer_passive}

-- Two datagrams wait, of three bytes and two, and one byte of each goes to the header.
abbrev five_bytes : Active → Socket (List (List ℕ))
five_bytes a = record {
  drv_port = 7;
  queue = (1 ∷ 2 ∷ 3 ∷ []) ∷ (4 ∷ 5 ∷ []) ∷ [];
  read_count = 3 ∷ 2 ∷ [];
  sockopts = (let so = default_opts in record so { active = a; header = 1 });
  udp_sock = ℤ.pos 3;
  close_pending = false;
  selected = true;
}

five_bytes-Ready : (a : Active) → Ready list_queue list_queue_laws (five_bytes a)
five_bytes-Ready a = record {
  open_ = refl;
  raw = refl;
  some_queued = omega arith;
  small = omega arith;
  counted = refl;
  header_fits = (omega arith, (omega arith, tt));
}

abbrev caller_receiver : Receiver
caller_receiver = record { caller_ref = 9 ∷ []; caller = process 5; send_to_connected = false }

emit_read_buffer_active_example :
    (e : Emitted list_queue) × (emit_read_buffer list_queue 0 connected_receiver 0
        (five_bytes active_true)
      ≡ ok e)
    × Delivers list_queue list_queue_laws (five_bytes active_true) (1 ∷ 2 ∷ 3 ∷ 4 ∷ 5 ∷ []) e
    × (length e.messages ≡ 2)
    × (content list_queue e.sock.queue ≡ [])
    × (e.sock.sockopts.active ≡ active_true)
emit_read_buffer_active_example =
    emit_read_buffer_active list_queue list_queue_laws connected_receiver 0 (five_bytes active_true)
      (five_bytes-Ready active_true) refl

emit_read_buffer_passive_example :
    (e : Emitted list_queue) × (emit_read_buffer list_queue 4 caller_receiver 1
        (five_bytes active_false)
      ≡ ok e)
    × Delivers list_queue list_queue_laws (five_bytes active_false) (1 ∷ 2 ∷ 3 ∷ 4 ∷ []) e
    × Alone list_queue list_queue_laws 7 caller_receiver e.messages
emit_read_buffer_passive_example =
    emit_read_buffer_passive list_queue list_queue_laws 4 caller_receiver 1
      (five_bytes active_false) (five_bytes-Ready active_false) refl (omega arith) (omega arith)

packet_message_lem_example :
    (m : Message) × (packet_message 7
        (five_bytes active_true).sockopts
        connected_receiver
        (1 ∷ 2 ∷ 3 ∷ [])
        3
      ≡ ok m)
    × (payload m ≡ 1 ∷ 2 ∷ 3 ∷ [])
    × IsMessage m
    × (cells (entries m) ≤ 16)
packet_message_lem_example =
    packet_message_lem 7 (five_bytes active_true).sockopts connected_receiver (1 ∷ 2 ∷ 3 ∷ []) 3
      refl (omega arith) (omega arith)

-- One packet of three bytes waits behind its prefix of two.
abbrev one_packet : Socket (List (List ℕ))
one_packet =
    let s = five_bytes active_true in
    record s {
      queue = (0 ∷ 3 ∷ 7 ∷ 8 ∷ 9 ∷ []) ∷ [];
      read_count = 5 ∷ [];
      sockopts = record default_opts { packet = 2 };
    }

emit_packet_lem_example :
    (e : Emitted list_queue) × (emit_packet list_queue 3 connected_receiver one_packet ≡ ok e)
    × Unpacks list_queue list_queue_laws connected_receiver one_packet 3 e
emit_packet_lem_example =
    emit_packet_lem list_queue list_queue_laws 3 connected_receiver one_packet (omega arith)
      (omega arith) (omega arith) (omega arith) refl
