-- ===== src/Connection/Deselecting/Ending.antt =====
-- `stop` of a connection deletes it with its input off.
use gen_utp.Base.{
  ℕ, ◌≡◌, refl, sym, ◌∙◌, subst, ◌⊎◌, inl, inr, true, false, Bool-cases, List, ◌==◌, if-Holds,
}
use gen_utp.Driver.Queue.{DrvQueue}
use gen_utp.Connection.Defs.{UtpHandler, Event, Stepped, is_destroying, close_utp}
use gen_utp.Connection.Control.{emptied, stop, stop_with}
use gen_utp.Connection.Stopping.{deletions, dropped-deletions, close_on-deletions}
use gen_utp.Connection.Deselecting.{IsOff}
use gen_utp.Connection.Deselecting.Callbacks.{close_on-Quiet}

module _ (d : DrvQueue) where
  open d use {Queue, sizeq}

  emptied-selected : (h : UtpHandler Queue) → (emptied d h).sock.selected ≡ h.sock.selected
  emptied-selected h =
      if-Holds (λ (g : UtpHandler Queue). g.sock.selected ≡ h.sock.selected)
        (sizeq h.sock.queue == 0) _ _ refl refl

  emptied-status : (h : UtpHandler Queue) → (emptied d h).status ≡ h.status
  emptied-status h =
      if-Holds (λ (g : UtpHandler Queue). g.status ≡ h.status) (sizeq h.sock.queue == 0) _ _ refl
        refl

  stop_with-selected :
      (h : UtpHandler Queue) (es : List Event) (qsize : ℕ)
      → (stop_with h es qsize).after.sock.selected ≡ h.sock.selected
  stop_with-selected h es qsize =
      if-Holds (λ (st : Stepped Queue). st.after.sock.selected ≡ h.sock.selected)
        (is_destroying h.status) _ _ refl refl

  -- `stop` of a handler whose input is off if DESTROYING was reported deletes it only with its input off.
  pub stop-freed :
      (h : UtpHandler Queue)
      → IsOff h
      → (deletions (stop d h).events ≡ 0) ⊎ ((stop d h).after.sock.selected ≡ false)
  unfolding stop close_utp
  stop-freed h o =
      let closed = close_utp h in
      let g = emptied d closed.after in
      let (selected, calm, status) = close_on-Quiet d h h h.utp refl refl in
      elim (Bool-cases (is_destroying g.status)) [
        | inl gone ↦
            let gone' : is_destroying closed.after.status ≡ true =
              subst (λ s. is_destroying s ≡ true) (emptied-status closed.after) gone in
            elim status [
              | inl kept ↦ inr (
                  stop_with-selected g closed.events (sizeq closed.after.sock.queue)
                  ∙ emptied-selected closed.after
                  ∙ selected
                  ∙ o (sym kept ∙ gone'))
              | inr alive ↦ absurd cc
            ]
        | inr left ↦ inl (
            rw left (
              dropped-deletions d closed.events (sizeq closed.after.sock.queue)
                (close_on-deletions d h h.utp)))
      ]
