-- ===== src/Locks/Followed.antt =====
-- Every method of the driver follows the order of the mutexes and uses what is watched under its mutex.
use gen_utp.Base.{ℕ, ◌≡◌, refl, Bool, true, false, List, [], ◌∷◌, arith}
use gen_utp.Locks.{
  Mutex, utp_mutex, map_mutex, Shared, monitors, fdmap, acceptor_queue, libutp, Act, uses, locked,
}
use gen_utp.Locks.Methods.{
  when, Callback, check_utp_timeouts, start, stop, ready_input, process_exit, stop_listener,
  del_monitors, peername, cancel_send, cancel_recv, socket_setopts, setopts, listen,
}
use gen_utp.Locks.Calls.{
  Delegatee, no_delegatee, a_listener, a_connection, Ready, nobody, at_listener, at_connection,
  Exit, no_listener, of_listener, Call, starting, stopping, timing_out, reading, exiting, writing,
  listening, connecting, accepting, cancelling_accept, asking_peer, closing, receiving,
  cancelling_send, cancelling_recv, setting_listener, setting_connection, answering, delegatee_stop,
  handler_input_ready, handler_process_exited, acts, Destroys, IsAllowed,
}
use gen_utp.Locks.Order.{
  Follows, Keeps, nil-Keeps, append-Keeps, uses-Keeps, when-Keeps, Keeps-Follows, guard,
}
use gen_utp.Locks.Parts.{
  guarded_map-Keeps, stop_input-Keeps, del_monitors-Keeps, set_port-Keeps, libutp-Keeps, utp-Keeps,
  nothing-Keeps, calling-Keeps,
}
use gen_utp.Locks.Listening.{
  listener_input_ready-Keeps, accept-Keeps, cancel_accept-Keeps, process_exited-Keeps,
}
use gen_utp.Locks.Connecting.{
  input_ready-Keeps, outputv-Keeps, stop_connection-Keeps, close-Keeps, recv-Keeps,
  connect_start-Keeps,
}

module _ (watched : Shared → Bool) (main : Bool) where
  handled-Keeps : (r : Ready) → Keeps watched [] (handler_input_ready main r)
  unfolding handler_input_ready
  handled-Keeps nobody = nil-Keeps watched []
  handled-Keeps (at_listener n a) = listener_input_ready-Keeps watched main n a
  handled-Keeps (at_connection received cs) = input_ready-Keeps watched main received cs

  -- The search of `ready_input` and `process_exit`.
  lookup-Keeps :
      (s : Shared) → guard s ≡ map_mutex → Keeps watched [] (locked map_mutex (uses s ∷ []))
  lookup-Keeps s g = guarded_map-Keeps watched main [] tt s g

  ready_input-Keeps : (r : Ready) → Keeps watched [] (ready_input (handler_input_ready main r))
  unfolding ready_input
  ready_input-Keeps r = append-Keeps watched [] _ _ (lookup-Keeps fdmap refl) (handled-Keeps r)

  process_exit-Keeps : (e : Exit) → Keeps watched [] (process_exit (handler_process_exited main e))
  unfolding process_exit handler_process_exited
  process_exit-Keeps no_listener =
      append-Keeps watched [] _ _ (lookup-Keeps monitors refl) (nil-Keeps watched [])
  process_exit-Keeps (of_listener n) =
      append-Keeps watched [] _ _ (lookup-Keeps monitors refl) (process_exited-Keeps watched main n)

  -- Under the mutex of libutp, and where a call uses what is not watched.
  unwatched-Keeps :
      (held : List Mutex) (s : Shared) (b : Bool)
      → (b ≡ true → watched s ≡ false)
      → Keeps watched held (when b (uses s ∷ []))
  unwatched-Keeps held s true n =
      uses-Keeps watched held s [] (λ w. absurd (let e = n refl in cc)) (nil-Keeps watched held)
  unwatched-Keeps held s false n = nil-Keeps watched held

  -- What is not watched may be used with no mutex.
  destroyed-Keeps :
      (s : Shared) (xs : List Act)
      → watched s ≡ false
      → Keeps watched [] xs
      → Keeps watched [] (uses s ∷ xs)
  destroyed-Keeps s xs n k = uses-Keeps watched [] s xs (λ w. absurd cc) k

  delegatee_stop-Keeps :
      (d : Delegatee) → Destroys watched d → Keeps watched [] (delegatee_stop main d)
  unfolding delegatee_stop stop_listener
  delegatee_stop-Keeps no_delegatee n = nil-Keeps watched []
  delegatee_stop-Keeps (a_listener k selected valid) n =
      append-Keeps watched [] _ _
        (when-Keeps watched [] selected _ (stop_input-Keeps watched main [] tt valid))
        (destroyed-Keeps (acceptor_queue k) (del_monitors main) n
          (del_monitors-Keeps watched main [] tt))
  delegatee_stop-Keeps (a_connection has_utp closes destroying cs) n =
      stop_connection-Keeps watched main has_utp closes destroying cs

  stop-Keeps :
      (d : Delegatee) (walks : Bool)
      → (walks ≡ true → watched fdmap ≡ false)
      → Destroys watched d
      → Keeps watched [] (stop (delegatee_stop main d) walks)
  unfolding stop
  stop-Keeps d walks n q =
      append-Keeps watched [] _ _ (delegatee_stop-Keeps d q)
        (utp-Keeps watched main [] tt _ (unwatched-Keeps (utp_mutex ∷ []) fdmap walks n))

  socket_setopts-Keeps : (valid : Bool) → Keeps watched [] (socket_setopts valid)
  unfolding socket_setopts
  socket_setopts-Keeps valid = when-Keeps watched [] valid _ (nothing-Keeps watched main [] tt)

  setopts-Keeps :
      (valid sndbuf recbuf : Bool)
      → (sndbuf ≡ true → watched libutp ≡ false)
      → (recbuf ≡ true → watched libutp ≡ false)
      → Keeps watched [] (setopts valid sndbuf recbuf)
  unfolding setopts
  setopts-Keeps valid sndbuf recbuf n k = append-Keeps watched [] _ _ (socket_setopts-Keeps valid) (
      append-Keeps watched [] _ _ (unwatched-Keeps [] libutp sndbuf n)
        (unwatched-Keeps [] libutp recbuf k))

  peername-Keeps : (is_connected : Bool) → Keeps watched [] (peername is_connected)
  unfolding peername
  peername-Keeps is_connected = when-Keeps watched [] is_connected _ (
      utp-Keeps watched main [] tt _ (
        libutp-Keeps watched main (utp_mutex ∷ []) (omega arith, tt) (λ w. refl) []
          (nil-Keeps watched (utp_mutex ∷ []))))

  timeouts-Keeps : (cs : List Callback) → Keeps watched [] (check_utp_timeouts main cs)
  unfolding check_utp_timeouts
  timeouts-Keeps cs = when-Keeps watched [] main _ (calling-Keeps watched main [] tt cs)

  listen-Keeps : (opened : Bool) → Keeps watched [] (listen main opened)
  unfolding listen
  listen-Keeps opened = when-Keeps watched [] opened _ (set_port-Keeps watched main [] tt false)

  setting-Keeps :
      (valid sndbuf recbuf : Bool)
      → IsAllowed watched (setting_connection valid sndbuf recbuf)
      → Keeps watched [] (setopts valid sndbuf recbuf)
  unfolding IsAllowed
  setting-Keeps valid true recbuf n = setopts-Keeps valid true recbuf (λ e. n) (λ e. n)
  setting-Keeps valid false true n = setopts-Keeps valid false true (λ e. n) (λ e. n)
  setting-Keeps valid false false n = setopts-Keeps valid false false (λ e. cc) (λ e. cc)

  stopping-Keeps :
      (d : Delegatee) (walks : Bool)
      → IsAllowed watched (stopping d walks)
      → Keeps watched [] (stop (delegatee_stop main d) walks)
  unfolding IsAllowed
  stopping-Keeps d true (n, q) = stop-Keeps d true (λ e. n) q
  stopping-Keeps d false q = stop-Keeps d false (λ e. cc) q

  acts-Keeps : (c : Call) → IsAllowed watched c → Keeps watched [] (acts main c)
  unfolding acts start cancel_send cancel_recv
  acts-Keeps starting n = nothing-Keeps watched main [] tt
  acts-Keeps (stopping d walks) n = stopping-Keeps d walks n
  acts-Keeps (timing_out cs) n = timeouts-Keeps cs
  acts-Keeps (reading r) n = ready_input-Keeps r
  acts-Keeps (exiting e) n = process_exit-Keeps e
  acts-Keeps (writing o) n = outputv-Keeps watched main o
  acts-Keeps (listening opened) n = listen-Keeps opened
  acts-Keeps (connecting opened cs) n = connect_start-Keeps watched main opened cs
  acts-Keeps (accepting k added) n = accept-Keeps watched main k added
  acts-Keeps (cancelling_accept k found) n = cancel_accept-Keeps watched main k found
  acts-Keeps (asking_peer is_connected) n = peername-Keeps is_connected
  acts-Keeps (closing may_close decoded closes cs) n =
      close-Keeps watched main may_close decoded closes cs
  acts-Keeps (receiving sent drained cs) n = recv-Keeps watched main sent drained cs
  acts-Keeps cancelling_send n = nothing-Keeps watched main [] tt
  acts-Keeps cancelling_recv n = nothing-Keeps watched main [] tt
  acts-Keeps (setting_listener valid) n = socket_setopts-Keeps valid
  acts-Keeps (setting_connection valid sndbuf recbuf) n = setting-Keeps valid sndbuf recbuf n
  acts-Keeps answering n = nil-Keeps watched []

  -- Every call takes the mutexes in the order listener, libutp, maps, gives back the last taken first and all
  -- of them by its end, and uses what is watched under its mutex. Where a listener's acceptors are watched,
  -- the stop of its port is left out; where the map of descriptors is, the stop of the main handler with
  -- descriptors in it; and where libutp is, setopts with a new size.
  pub acts-Follows : (c : Call) → IsAllowed watched c → Follows watched [] (acts main c)
  acts-Follows c n = Keeps-Follows watched (acts main c) (acts-Keeps c n)

-- Where neither the map of descriptors nor libutp nor any queue of acceptors is watched, every call is allowed.
pub every-IsAllowed :
    (watched : Shared → Bool) (c : Call)
    → watched fdmap ≡ false
    → watched libutp ≡ false
    → ((n : ℕ) → watched (acceptor_queue n) ≡ false)
    → IsAllowed watched c
unfolding IsAllowed
every-IsAllowed watched (stopping (a_listener n selected valid) true) f l q = (f, q n)
every-IsAllowed watched (stopping (a_listener n selected valid) false) f l q = q n
every-IsAllowed watched c f l q = grind arith
