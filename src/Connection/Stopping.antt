-- ===== src/Connection/Stopping.antt =====
-- utp_handler.cc, `stop`: the events that delete the handler.
pub mod Awaited
pub mod Leaking
use gen_utp.Base.{
  ℕ, ◌+◌, ◌≡◌, refl, ◌∙◌, ◌⊎◌, inl, inr, Bool-cases, Option, some, none, List, [], ◌∷◌, ◌++◌, ◌==◌,
  if◌then◌else◌, ok, arith,
}
use gen_utp.Driver.Queue.{DrvQueue}
use gen_utp.WriteQueue
use gen_utp.Connection.Defs.{
  stopped, UtpState, UtpHandler, Event, deq_all, deleted, Stepped, close_on, is_destroying,
}
use gen_utp.Connection.Callbacks.{WriteRun, on_destroying, do_state_change}

abbrev deletion : Event → ℕ
deletion deleted = 1
deletion _ = 0

-- How often the handler is deleted.
abbrev pub deletions : List Event → ℕ
deletions [] = 0
deletions (e ∷ es) = deletion e + deletions es

pub deletions-append : (xs ys : List Event) → deletions (xs ++ ys) ≡ deletions xs + deletions ys
deletions-append [] ys = omega arith
deletions-append (x ∷ xs) ys = omega (arith, deletions-append xs ys)

module _ (d : DrvQueue) where
  open d use {Queue, sizeq}

  pub close_on-deletions :
      (h : UtpHandler Queue) (u : Option ℕ) → deletions (close_on h u).events ≡ 0
  unfolding close_on
  close_on-deletions h none = refl
  close_on-deletions h (some u) = elim (Bool-cases (is_destroying h.status)) [
    | inl e ↦ rw e refl
    | inr e ↦ elim (Bool-cases (WriteQueue.size h.write_queue == 0)) [
      | inl f ↦ rw (e, f) refl
      | inr f ↦ rw (e, f) refl
    ]
  ]

  -- DESTROYING of a handler that is stopped deletes it.
  pub destroying-deletes :
      (wr : WriteRun) (h : UtpHandler Queue)
      → h.status ≡ stopped
      → (s : Stepped Queue) × (do_state_change d UtpState.destroying wr h ≡ ok s)
        × (deletions s.events ≡ 1)
  unfolding do_state_change on_destroying
  destroying-deletes wr h e = (
    _,
    refl,
    elim (Bool-cases h.selected) [ inl on ↦ rw (e, on) refl | inr off ↦ rw (e, off) refl ],
  )

  abbrev pub dropped : List Event → ℕ → List Event
  dropped es qsize = if qsize == 0 then es else es ++ deq_all qsize ∷ []

  pub dropped-deletions :
      (es : List Event) (qsize : ℕ) → deletions es ≡ 0 → deletions (dropped es qsize) ≡ 0
  dropped-deletions es qsize e = elim (Bool-cases (qsize == 0)) [
    | inl none_left ↦ rw none_left e
    | inr some_left ↦ rw some_left (deletions-append es (deq_all qsize ∷ []) ∙ omega (arith, e))
  ]
