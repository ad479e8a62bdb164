-- ===== src/Reading/Addressed.antt =====
-- `emit_read_buffer`: to whom a message goes.
use gen_utp.Base.{
  ℕ, ◌≡◌, refl, subst, Bool, true, false, if◌then◌else◌, List, ◌∷◌, ok, Leaves, bind-Leaves,
}
use gen_utp.Driver.Defs.{lit, DrvTerm, port, ext2term, Message, output, send}
use gen_utp.Options.Defs.{data_binary, SockOpts}
use gen_utp.Reading.Defs.{Receiver, header_terms, data_term, data_length, packet_message}

-- Who a message of `emit_read_buffer` goes to: the connected process, under the port, or the receiver,
-- under its reference.
abbrev pub IsFor : ℕ → Receiver → Bool → Message → Type 0
IsFor drv_port rcvr true m =
    (ts : List DrvTerm) × (m ≡ output (DrvTerm.atom (lit "utp") ∷ port drv_port ∷ ts))
IsFor drv_port rcvr false m =
    (ts : List DrvTerm) × (m
      ≡ send rcvr.caller (ext2term rcvr.caller_ref ∷ DrvTerm.atom (lit "ok") ∷ ts))

addressed :
    (drv_port : ℕ) (rcvr : Receiver) (b : Bool) (ts us : List DrvTerm)
    → IsFor drv_port rcvr b (
        if b
        then output (DrvTerm.atom (lit "utp") ∷ port drv_port ∷ ts)
        else send rcvr.caller (ext2term rcvr.caller_ref ∷ DrvTerm.atom (lit "ok") ∷ us))
addressed drv_port rcvr true ts us = (ts, refl)
addressed drv_port rcvr false ts us = (us, refl)

packet_message-Leaves :
    (drv_port : ℕ) (so : SockOpts) (rcvr : Receiver) (buf : List ℕ) (pkt_size : ℕ)
    → Leaves
        (IsFor drv_port rcvr rcvr.send_to_connected)
        (packet_message drv_port so rcvr buf pkt_size)
unfolding packet_message
packet_message-Leaves drv_port so rcvr buf pkt_size =
    bind-Leaves (IsFor drv_port rcvr rcvr.send_to_connected) (header_terms so.header buf) _ (λ x e.
      bind-Leaves (IsFor drv_port rcvr rcvr.send_to_connected)
        (data_term (if rcvr.send_to_connected then so.delivery_mode else data_binary)
          (data_length pkt_size so.header) x.1)
        _ (λ y e'. addressed drv_port rcvr rcvr.send_to_connected _ _))

pub packet_message-IsFor :
    (drv_port : ℕ) (so : SockOpts) (rcvr : Receiver) (buf : List ℕ) (pkt_size : ℕ) (m : Message)
    → packet_message drv_port so rcvr buf pkt_size ≡ ok m
    → IsFor drv_port rcvr rcvr.send_to_connected m
packet_message-IsFor drv_port so rcvr buf pkt_size m e =
    subst (Leaves (IsFor drv_port rcvr rcvr.send_to_connected)) e
      (packet_message-Leaves drv_port so rcvr buf pkt_size)
