-- ===== src/Locks/Parts.antt =====
-- The parts that the methods of the driver share follow the order of the mutexes: what is done with the maps,
-- a call of libutp with its calls back, and a block under the mutex of libutp.
use gen_utp.Base.{◌≡◌, refl, ap, Bool, true, false, List, [], ◌∷◌, arith}
use gen_utp.Locks.{
  Mutex, utp_mutex, map_mutex, Shared, monitors, fdmap, libutp, Act, uses, locked, holds,
}
use gen_utp.Locks.Methods.{
  when, start_input, stop_input, add_monitor, del_monitor, del_monitors, set_port, Callback,
  call_back, call_libutp, close_utp,
}
use gen_utp.Locks.Order.{
  Below, IsGuarded, Keeps, nil-Keeps, append-Keeps, uses-Keeps, locked-Keeps, when-Keeps, guard,
}

module _ (watched : Shared → Bool) (main : Bool) where
  module _ (held : List Mutex) (b : Below 2 held) where
    pub guarded_map-Keeps :
        (s : Shared) → guard s ≡ map_mutex → Keeps watched held (locked map_mutex (uses s ∷ []))
    guarded_map-Keeps s g = locked-Keeps watched held map_mutex (uses s ∷ []) b (
        uses-Keeps watched (map_mutex ∷ held) s [] (λ w. ap (λ m. holds m (map_mutex ∷ held)) g)
          (nil-Keeps watched (map_mutex ∷ held)))

    one_map-Keeps :
        (s : Shared)
        → guard s ≡ map_mutex
        → Keeps watched held (when main (locked map_mutex (uses s ∷ [])))
    one_map-Keeps s g = when-Keeps watched held main _ (guarded_map-Keeps s g)

    pub start_input-Keeps : Keeps watched held (start_input main)
    unfolding start_input
    start_input-Keeps = one_map-Keeps fdmap refl

    pub stop_input-Keeps : (valid : Bool) → Keeps watched held (stop_input main valid)
    unfolding stop_input
    stop_input-Keeps true = one_map-Keeps fdmap refl
    stop_input-Keeps false = when-Keeps watched held main [] (nil-Keeps watched held)

    pub add_monitor-Keeps : Keeps watched held (add_monitor main)
    unfolding add_monitor
    add_monitor-Keeps = one_map-Keeps monitors refl

    pub del_monitor-Keeps : Keeps watched held (del_monitor main)
    unfolding del_monitor
    del_monitor-Keeps = one_map-Keeps monitors refl

    pub del_monitors-Keeps : Keeps watched held (del_monitors main)
    unfolding del_monitors
    del_monitors-Keeps = one_map-Keeps monitors refl

    pub set_port-Keeps : (selected : Bool) → Keeps watched held (set_port main selected)
    unfolding set_port
    set_port-Keeps true = nil-Keeps watched held
    set_port-Keeps false = start_input-Keeps

    module _ (g : IsGuarded watched libutp held) where
      pub libutp-Keeps :
          (xs : List Act) → Keeps watched held xs → Keeps watched held (uses libutp ∷ xs)
      libutp-Keeps xs k = uses-Keeps watched held libutp xs g k

      pub call_back-Keeps : (c : Callback) → Keeps watched held (call_back main c)
      unfolding call_back
      call_back-Keeps c =
          append-Keeps watched held (when c.deselects (stop_input main c.is_valid)) _
            (when-Keeps watched held c.deselects _ (stop_input-Keeps c.is_valid))
            (append-Keeps watched held (when c.calls_libutp (uses libutp ∷ [])) _
              (when-Keeps watched held c.calls_libutp _ (libutp-Keeps [] (nil-Keeps watched held)))
              (when-Keeps watched held c.deletes _ del_monitors-Keeps))

      pub call_libutp-Keeps : (cs : List Callback) → Keeps watched held (call_libutp main cs)
      unfolding call_libutp
      call_libutp-Keeps [] = libutp-Keeps [] (nil-Keeps watched held)
      call_libutp-Keeps (c ∷ cs) = libutp-Keeps _ (
          append-Keeps watched held (call_back main c) _ (call_back-Keeps c) (call_libutp-Keeps cs))

      pub close_utp-Keeps :
          (closes : Bool) (cs : List Callback) → Keeps watched held (close_utp main closes cs)
      unfolding close_utp
      close_utp-Keeps closes cs = when-Keeps watched held closes _ (call_libutp-Keeps cs)

  -- What a call does with the mutex of libutp, of which the thread may hold a listener's.
  module _ (held : List Mutex) (b : Below 1 held) where
    pub Below-two : (ms : List Mutex) → Below 1 ms → Below 2 ms
    Below-two [] h = tt
    Below-two (m ∷ ms) h = (omega (arith, h.0), Below-two ms h.1)

    pub utp-Keeps :
        (body : List Act)
        → Keeps watched (utp_mutex ∷ held) body
        → Keeps watched held (locked utp_mutex body)
    utp-Keeps body k = locked-Keeps watched held utp_mutex body b k

    pub nothing-Keeps : Keeps watched held (locked utp_mutex [])
    nothing-Keeps = utp-Keeps [] (nil-Keeps watched (utp_mutex ∷ held))

    pub calling-Keeps :
        (cs : List Callback) → Keeps watched held (locked utp_mutex (call_libutp main cs))
    calling-Keeps cs =
        utp-Keeps (call_libutp main cs)
          (call_libutp-Keeps (utp_mutex ∷ held) (omega arith, Below-two held b) (λ w. refl) cs)
