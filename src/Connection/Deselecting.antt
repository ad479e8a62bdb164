-- ===== src/Connection/Deselecting.antt =====
-- utp_handler.cc: the input of a connection is turned off before the connection is deleted.
pub mod Callbacks
pub mod Ending
pub mod Life
pub mod Requests
use gen_utp.Base.{
  ℕ, ◌+◌, ◌≡◌, refl, sym, ap, subst, ◌∙◌, ◌⊎◌, inl, inr, Bool, true, false, Bool-cases, not, ◌&&◌,
  ◌||◌, Option, some, none, List, [], ◌∷◌, ◌++◌, map, ◌==◌, ltb, if◌then◌else◌, is_minus_one,
  Result, ok, Leaves, bind-Leaves, either-Leaves, if-Holds, arith,
}
use gen_utp.Driver.Defs.{Message}
use gen_utp.Driver.Queue.{DrvQueue}
use gen_utp.WriteQueue
use gen_utp.Reading.Defs.{
  Socket, Receiver, connected_receiver, is_false, Emitted, emit_read_buffer, emit_closed_message,
  emit_queued, emit_packet, emit_passive, emit_from, emit_loop, emitting, packet_size,
  reduce_read_count,
}
use gen_utp.Connection.Defs.{
  Status, not_connected, listening, connect_pending, connected, connect_failed, closing, stopped,
  UtpState, connect, writable, eof, UtpHandler, Event, message, utp_write, utp_close, rb_drained,
  set_sndbuf, set_recbuf, stop_input, deq_all, deleted, Stepped, is_destroying, close_on, close_utp,
  reset_waiting_recv,
}
use gen_utp.Connection.Callbacks.{
  WriteRun, do_write, do_read, received, read_done, binary_bytes, on_eof, write_queued, wake_sender,
  on_writable, on_connect, report_closed, deselected, destroyed, on_destroying, do_state_change,
  error_on, do_error, is_stopped, is_closing, do_writes, is_set,
}
use gen_utp.Connection.Stopping.{deletions, deletions-append}

-- Whether the input is on after some events, given whether it was on before.
unfoldable pub on_after : Bool → List Event → Bool
on_after b [] = b
on_after b (stop_input fd ∷ es) = on_after false es
on_after b (e ∷ es) = on_after b es

-- Events that neither turn the input off nor delete the handler.
abbrev pub Calm : List Event → Type 0
Calm [] = Unit
Calm (stop_input fd ∷ es) = ⊥
Calm (deleted ∷ es) = ⊥
Calm (e ∷ es) = Calm es

Calm-lem : (b : Bool) (es : List Event) → Calm es → (on_after b es ≡ b) × (deletions es ≡ 0)
unfolding on_after
Calm-lem b [] c = (refl, refl)
Calm-lem b (stop_input fd ∷ es) c = absurd c
Calm-lem b (deleted ∷ es) c = absurd c
Calm-lem b (message m ∷ es) c = let (o, n) = Calm-lem b es c in (o, omega (arith, n))
Calm-lem b (utp_write u k ∷ es) c = let (o, n) = Calm-lem b es c in (o, omega (arith, n))
Calm-lem b (utp_close u ∷ es) c = let (o, n) = Calm-lem b es c in (o, omega (arith, n))
Calm-lem b (rb_drained u ∷ es) c = let (o, n) = Calm-lem b es c in (o, omega (arith, n))
Calm-lem b (set_sndbuf u k ∷ es) c = let (o, n) = Calm-lem b es c in (o, omega (arith, n))
Calm-lem b (set_recbuf u k ∷ es) c = let (o, n) = Calm-lem b es c in (o, omega (arith, n))
Calm-lem b (deq_all k ∷ es) c = let (o, n) = Calm-lem b es c in (o, omega (arith, n))

pub Calm-append : (xs ys : List Event) → Calm xs → Calm ys → Calm (xs ++ ys)
Calm-append [] ys cx cy = cy
Calm-append (stop_input fd ∷ xs) ys cx cy = absurd cx
Calm-append (deleted ∷ xs) ys cx cy = absurd cx
Calm-append (message m ∷ xs) ys cx cy = Calm-append xs ys cx cy
Calm-append (utp_write u k ∷ xs) ys cx cy = Calm-append xs ys cx cy
Calm-append (utp_close u ∷ xs) ys cx cy = Calm-append xs ys cx cy
Calm-append (rb_drained u ∷ xs) ys cx cy = Calm-append xs ys cx cy
Calm-append (set_sndbuf u k ∷ xs) ys cx cy = Calm-append xs ys cx cy
Calm-append (set_recbuf u k ∷ xs) ys cx cy = Calm-append xs ys cx cy
Calm-append (deq_all k ∷ xs) ys cx cy = Calm-append xs ys cx cy

pub map-message-Calm : (ms : List Message) → Calm (map message ms)
map-message-Calm [] = tt
map-message-Calm (m ∷ ms) = map-message-Calm ms

pub on_after-append :
    (b : Bool) (xs ys : List Event) → on_after b (xs ++ ys) ≡ on_after (on_after b xs) ys
unfolding on_after
on_after-append b [] ys = refl
on_after-append b (stop_input fd ∷ xs) ys = on_after-append false xs ys
on_after-append b (deleted ∷ xs) ys = on_after-append b xs ys
on_after-append b (message m ∷ xs) ys = on_after-append b xs ys
on_after-append b (utp_write u k ∷ xs) ys = on_after-append b xs ys
on_after-append b (utp_close u ∷ xs) ys = on_after-append b xs ys
on_after-append b (rb_drained u ∷ xs) ys = on_after-append b xs ys
on_after-append b (set_sndbuf u k ∷ xs) ys = on_after-append b xs ys
on_after-append b (set_recbuf u k ∷ xs) ys = on_after-append b xs ys
on_after-append b (deq_all k ∷ xs) ys = on_after-append b xs ys

pub on_after_off : (es : List Event) → on_after false es ≡ false
unfolding on_after
on_after_off [] = refl
on_after_off (stop_input fd ∷ xs) = on_after_off xs
on_after_off (deleted ∷ xs) = on_after_off xs
on_after_off (message m ∷ xs) = on_after_off xs
on_after_off (utp_write u k ∷ xs) = on_after_off xs
on_after_off (utp_close u ∷ xs) = on_after_off xs
on_after_off (rb_drained u ∷ xs) = on_after_off xs
on_after_off (set_sndbuf u k ∷ xs) = on_after_off xs
on_after_off (set_recbuf u k ∷ xs) = on_after_off xs
on_after_off (deq_all k ∷ xs) = on_after_off xs

module _ {Q : Type 0} where
  -- A handler that DESTROYING was reported for has its input off.
  abbrev pub IsOff : UtpHandler Q → Type 0
  IsOff h = is_destroying h.status ≡ true → h.sock.selected ≡ false

  -- What a step leaves: the input is on as its events have it, a handler stays off, and one that is deleted
  -- is off.
  pub record Switches (h : UtpHandler Q) (st : Stepped Q) : Type 0 where
    pub on : st.after.sock.selected ≡ on_after h.sock.selected st.events
    pub off : IsOff h → IsOff st.after
    pub freed : (deletions st.events ≡ 0) ⊎ (st.after.sock.selected ≡ false)

  -- A step that leaves the input alone.
  abbrev pub Quiet : UtpHandler Q → Stepped Q → Type 0
  Quiet h st =
      (st.after.sock.selected ≡ h.sock.selected)
      × Calm st.events
      × ((is_destroying st.after.status ≡ is_destroying h.status)
          ⊎ (is_destroying st.after.status ≡ false))

  pub Quiet-Switches : (h : UtpHandler Q) (st : Stepped Q) → Quiet h st → Switches h st
  Quiet-Switches h st (same, calm, status) =
      let (on_same, none_deleted) = Calm-lem h.sock.selected st.events calm in
      record {
        on = same ∙ sym on_same;
        off = λ o e. elim status [ inl kept ↦ same ∙ o (sym kept ∙ e) | inr alive ↦ absurd cc ];
        freed = inl none_deleted;
      }

  -- One step after another.
  pub chained-Switches :
      (h : UtpHandler Q) (first rest : Stepped Q)
      → Switches h first
      → Switches first.after rest
      → Switches h (record { after = rest.after; events = first.events ++ rest.events })
  chained-Switches h first rest f r = record {
    on =
        r.on
        ∙ ap (λ b. on_after b rest.events) f.on
        ∙ sym (on_after-append h.sock.selected first.events rest.events);
    off = λ o. r.off (f.off o);
    freed = elim r.freed [
      | inr off ↦ inr off
      | inl none_after ↦ elim f.freed [
        | inl none_before ↦
            inl (deletions-append first.events rest.events ∙ omega (arith, none_before, none_after))
        | inr off ↦ inr (r.on ∙ ap (λ b. on_after b rest.events) off ∙ on_after_off rest.events)
      ]
    ];
  }
