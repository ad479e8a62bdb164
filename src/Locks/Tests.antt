-- ===== src/Locks/Tests.antt =====
-- Runs of the model of the threads, and the theorems at concrete inputs.
use gen_utp.Base.{ℕ, ◌+◌, ◌≡◌, refl, ◌⊎◌, Bool, true, false, List, [], ◌∷◌}
use gen_utp.Locks.{
  queue_mutex, utp_mutex, map_mutex, Shared, monitors, fdmap, acceptor_queue, libutp, lock, unlock,
  uses, locked, Thread, idle,
}
use gen_utp.Locks.Methods.{
  Callback, incoming, call_back, call_libutp, listener_input_ready, ready_input, process_exit,
  del_monitor, stop_input, set_port, start_input,
}
use gen_utp.Locks.Calls.{
  Call, reading, exiting, at_listener, no_listener, handler_input_ready, handler_process_exited,
  acts, Move, acts_at, Reached, begins, calls, moves, IsAllowed, AllIdle,
}
use gen_utp.Locks.Order.{Follows}
use gen_utp.Locks.Followed.{acts-Follows}
use gen_utp.Locks.Exclusion.{Reached-race}
use gen_utp.Locks.Progress.{rests, goes_on, left, Reached-ends}

abbrev everything : Shared → Bool
everything s = true

abbrev quiet : Callback
quiet = record { deselects = true; is_valid = true; calls_libutp = true; deletes = false }

-- A datagram for listener 1 that libutp takes, while a callback deselects a handler.
abbrev arrival : Call
arrival = reading (at_listener 1 (incoming (quiet ∷ []) false))

arrival-acts :
    acts true arrival
    ≡ lock map_mutex
      ∷ uses fdmap
      ∷ unlock map_mutex
      ∷ lock (queue_mutex 1)
      ∷ uses (acceptor_queue 1)
      ∷ lock utp_mutex
      ∷ uses libutp
      ∷ lock map_mutex
      ∷ uses fdmap
      ∷ unlock map_mutex
      ∷ uses libutp
      ∷ uses libutp
      ∷ unlock utp_mutex
      ∷ uses (acceptor_queue 1)
      ∷ lock map_mutex
      ∷ uses monitors
      ∷ unlock map_mutex
      ∷ lock map_mutex
      ∷ uses fdmap
      ∷ unlock map_mutex
      ∷ uses (acceptor_queue 1)
      ∷ unlock (queue_mutex 1)
      ∷ []
unfolding acts ready_input handler_input_ready listener_input_ready call_libutp call_back stop_input
    del_monitor set_port start_input locked
arrival-acts = refl

acts-Follows_example : Follows everything [] (acts true arrival)
unfolding IsAllowed
acts-Follows_example = acts-Follows everything true arrival tt

-- One thread in a call and one idle.
abbrev exit_call : Call
exit_call = exiting no_listener

abbrev one_in : List Thread
one_in =
    record { held = []; todo = lock map_mutex ∷ uses monitors ∷ unlock map_mutex ∷ [] } ∷ idle ∷ []

abbrev one_inside : List Thread
one_inside =
    record { held = map_mutex ∷ []; todo = uses monitors ∷ unlock map_mutex ∷ [] } ∷ idle ∷ []

one_in-Reached : Reached everything one_in
unfolding IsAllowed acts process_exit handler_process_exited locked
one_in-Reached = calls 0 true exit_call tt refl (begins (idle ∷ idle ∷ []) (refl, (refl, tt)))

one_inside-Move : Move one_in one_inside
one_inside-Move = acts_at 0 _ _ refl refl refl

Reached-race_example : let i : ℕ = 0 in i ≡ i
Reached-race_example =
    Reached-race everything 0 0
      (record { held = map_mutex ∷ []; todo = uses monitors ∷ unlock map_mutex ∷ [] })
      (record { held = map_mutex ∷ []; todo = uses monitors ∷ unlock map_mutex ∷ [] }) monitors
      monitors _ _ (moves one_inside-Move one_in-Reached) refl refl refl refl refl refl refl

Reached-ends_example :
    (1 + left one_inside ≡ left one_in)
    × (((e : List Thread) × Move one_inside e) ⊎ ((1 ≡ left one_in) × AllIdle one_inside))
Reached-ends_example = Reached-ends everything one_in-Reached (goes_on rests one_inside-Move)
