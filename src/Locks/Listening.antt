-- ===== src/Locks/Listening.antt =====
-- The methods of a listener follow the order of the mutexes: its own, libutp's, and that of the maps.
use gen_utp.Base.{ℕ, ap, Bool, false, ◌||◌, List, [], ◌∷◌, arith}
use gen_utp.Locks.{Mutex, queue_mutex, utp_mutex, Shared, acceptor_queue, Act, uses, locked}
use gen_utp.Locks.Methods.{
  add_monitor, del_monitor, del_monitors, set_port, call_libutp, accept, cancel_accept,
  process_exited, Arrival, no_datagram, no_acceptor, connect_fails, incoming, not_utp,
  listener_input_ready,
}
use gen_utp.Locks.Order.{
  Below, Keeps, nil-Keeps, append-Keeps, uses-Keeps, locked-Keeps, when-Keeps, is_same_self,
}
use gen_utp.Locks.Parts.{
  add_monitor-Keeps, del_monitor-Keeps, del_monitors-Keeps, set_port-Keeps, calling-Keeps,
}

module _ (watched : Shared → Bool) (main : Bool) where
  module _ (n : ℕ) where
    abbrev queue : List Mutex
    queue = queue_mutex n ∷ []

    pub acceptors-Keeps :
        (xs : List Act)
        → Keeps watched queue xs
        → Keeps watched queue (uses (acceptor_queue n) ∷ xs)
    acceptors-Keeps xs k =
        uses-Keeps watched queue (acceptor_queue n) xs
          (λ w. ap (λ b. b || false) (is_same_self (queue_mutex n))) k

    pub queue-Keeps :
        (body : List Act)
        → Keeps watched queue body
        → Keeps watched [] (locked (queue_mutex n) body)
    queue-Keeps body k = locked-Keeps watched [] (queue_mutex n) body tt k

    pub only_acceptors-Keeps : Keeps watched queue (uses (acceptor_queue n) ∷ [])
    only_acceptors-Keeps = acceptors-Keeps [] (nil-Keeps watched queue)

    low : Below 1 queue
    low = (omega arith, tt)

    low_maps : Below 2 queue
    low_maps = (omega arith, tt)

    pub listener_input_ready-Keeps :
        (a : Arrival) → Keeps watched [] (listener_input_ready n main a)
    unfolding listener_input_ready
    listener_input_ready-Keeps no_datagram = nil-Keeps watched []
    listener_input_ready-Keeps no_acceptor = queue-Keeps _ only_acceptors-Keeps
    listener_input_ready-Keeps connect_fails = queue-Keeps _ (
        acceptors-Keeps _ (
          acceptors-Keeps _ (
            append-Keeps watched queue (del_monitor main) _
              (del_monitor-Keeps watched main queue low_maps) only_acceptors-Keeps)))
    listener_input_ready-Keeps (incoming cs selected) = queue-Keeps _ (
        acceptors-Keeps _ (
          append-Keeps watched queue (locked utp_mutex (call_libutp main cs)) _
            (calling-Keeps watched main queue low cs)
            (acceptors-Keeps _ (
              append-Keeps watched queue (del_monitor main) _
                (del_monitor-Keeps watched main queue low_maps)
                (append-Keeps watched queue (set_port main selected) _
                  (set_port-Keeps watched main queue low_maps selected) only_acceptors-Keeps)))))
    listener_input_ready-Keeps (not_utp cs) = queue-Keeps _ (
        acceptors-Keeps _ (
          append-Keeps watched queue (locked utp_mutex (call_libutp main cs)) _
            (calling-Keeps watched main queue low cs)
            (append-Keeps watched queue (del_monitors main) _
              (del_monitors-Keeps watched main queue low_maps)
              (del_monitors-Keeps watched main queue low_maps))))

    pub accept-Keeps : (added : Bool) → Keeps watched [] (accept n main added)
    unfolding accept
    accept-Keeps added =
        append-Keeps watched [] (add_monitor main) _ (add_monitor-Keeps watched main [] tt)
          (when-Keeps watched [] added _ (queue-Keeps _ only_acceptors-Keeps))

    pub cancel_accept-Keeps : (found : Bool) → Keeps watched [] (cancel_accept n main found)
    unfolding cancel_accept
    cancel_accept-Keeps found = queue-Keeps _ (
        acceptors-Keeps _ (
          when-Keeps watched queue found _ (
            append-Keeps watched queue (del_monitor main) _
              (del_monitor-Keeps watched main queue low_maps) only_acceptors-Keeps)))

    pub process_exited-Keeps : Keeps watched [] (process_exited n)
    unfolding process_exited
    process_exited-Keeps = queue-Keeps _ only_acceptors-Keeps
