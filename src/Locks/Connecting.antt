-- ===== src/Locks/Connecting.antt =====
-- The methods of a connection follow the order of the mutexes.
use gen_utp.Base.{refl, Bool, true, false, List, [], ◌∷◌, arith}
use gen_utp.Locks.{Mutex, utp_mutex, Shared}
use gen_utp.Locks.Methods.{
  Callback, input_ready, Output, not_connected, times_out, waits, writes, outputv, close_utp,
  stop_connection, close, recv, connect_to, connect_start,
}
use gen_utp.Locks.Order.{Below, Keeps, nil-Keeps, append-Keeps, when-Keeps}
use gen_utp.Locks.Parts.{
  del_monitors-Keeps, set_port-Keeps, libutp-Keeps, call_libutp-Keeps, close_utp-Keeps, utp-Keeps,
  nothing-Keeps, calling-Keeps,
}

module _ (watched : Shared → Bool) (main : Bool) where
  pub input_ready-Keeps :
      (received : Bool) (cs : List Callback) → Keeps watched [] (input_ready main received cs)
  unfolding input_ready
  input_ready-Keeps received cs =
      when-Keeps watched [] received _ (calling-Keeps watched main [] tt cs)

  pub outputv-Keeps : (o : Output) → Keeps watched [] (outputv main o)
  unfolding outputv
  outputv-Keeps not_connected = nil-Keeps watched []
  outputv-Keeps times_out = nil-Keeps watched []
  outputv-Keeps waits = nothing-Keeps watched main [] tt
  outputv-Keeps (writes cs) = calling-Keeps watched main [] tt cs

  pub closing-Keeps :
      (closes : Bool) (cs : List Callback)
      → Keeps watched (utp_mutex ∷ []) (close_utp main closes cs)
  closing-Keeps closes cs =
      close_utp-Keeps watched main (utp_mutex ∷ []) (omega arith, tt) (λ w. refl) closes cs

  pub stop_connection-Keeps :
      (has_utp closes destroying : Bool) (cs : List Callback)
      → Keeps watched [] (stop_connection main has_utp closes destroying cs)
  unfolding stop_connection
  stop_connection-Keeps has_utp closes destroying cs =
      append-Keeps watched [] _ _
        (when-Keeps watched [] has_utp _ (utp-Keeps watched main [] tt _ (closing-Keeps closes cs)))
        (when-Keeps watched [] destroying _ (del_monitors-Keeps watched main [] tt))

  pub close-Keeps :
      (may_close decoded closes : Bool) (cs : List Callback)
      → Keeps watched [] (close main may_close decoded closes cs)
  unfolding close
  close-Keeps may_close decoded closes cs = when-Keeps watched [] may_close _ (
      utp-Keeps watched main [] tt _
        (when-Keeps watched (utp_mutex ∷ []) decoded _ (closing-Keeps closes cs)))

  pub recv-Keeps :
      (sent drained : Bool) (cs : List Callback) → Keeps watched [] (recv main sent drained cs)
  unfolding recv
  recv-Keeps true drained cs = when-Keeps watched [] drained _ (calling-Keeps watched main [] tt cs)
  recv-Keeps false drained cs = nothing-Keeps watched main [] tt

  pub connect_to-Keeps : (cs : List Callback) → Keeps watched [] (connect_to main cs)
  unfolding connect_to
  connect_to-Keeps cs =
      let inner : List Mutex = utp_mutex ∷ [] in
      let low : Below 2 inner = (omega arith, tt) in
      let again = libutp-Keeps watched main inner low (λ w. refl) in
      utp-Keeps watched main [] tt _ (
        again _
          (again _ (again _ (again _ (call_libutp-Keeps watched main inner low (λ w. refl) cs)))))

  pub connect_start-Keeps :
      (opened : Bool) (cs : List Callback) → Keeps watched [] (connect_start main opened cs)
  unfolding connect_start
  connect_start-Keeps opened cs =
      when-Keeps watched [] opened _ (
        append-Keeps watched [] _ _ (set_port-Keeps watched main [] tt false) (connect_to-Keeps cs))
