-- ===== src/Main/Ending.antt =====
-- From `listen` to the end of the port, and requests that end badly.
use gen_utp.Base.{
  if◌then◌else◌, ◌==◌, ℕ, ◌≡◌, ◌≢◌, refl, sym, ap, ◌∙◌, false, Option, some, List, ne→==, ℤ,
  is_minus_one, ok, err, bad_sock_addr,
}
use gen_utp.Address.{SockAddr, from_addrport}
use gen_utp.Coder.Defs.{Ei}
use gen_utp.Coder.Arguments.{binary_argument}
use gen_utp.Driver.Queue.{DrvQueue}
use gen_utp.Options.Defs.{SockOpts, default_opts, decode}
use gen_utp.Sockets.Defs.{set_port}
use gen_utp.Monitors.Linked.{IsLinked}
use gen_utp.Main.Registry.{Registry, ready_input, start_input, give_port, select, stop_main}
use gen_utp.Main.Requests.{
  MainHandler, Outside, listen, listen_with, attach_listener, connect_start, connect_with,
  connect_argument,
}
use gen_utp.Main.Dispatch.{stop}
use gen_utp.Listener.Defs.{Listener, new_listener}
use gen_utp.Listener.Stopping.{Forgets, set_port-IsRegistered, stop-Forgets}

stop_main-other : (this : ℕ) (m : Registry) → m.this ≢ this → (stop_main this (some m)).0 ≡ some m
unfolding stop_main
stop_main-other this m ne = rw (ne→== m.this this ne) refl

module _ (d : DrvQueue) where
  open d use {Queue}

  -- A port that is not the main one listens on a socket, and is closed: from then on the main handler, which
  -- stays, tells the listener, which is deleted, neither of input nor of an exit. The listener is given a
  -- number that nothing leads to, and the monitors are linked.
  pub attach_listener-stop :
      (owner : ℕ → ℕ) (this : ℕ) (w : Outside Queue) (fd : ℤ) (opts : SockOpts) (addr : SockAddr)
      (h : MainHandler Queue) (m : Registry)
      → m.this ≢ this
      → w.number ≢ m.this
      → IsLinked owner m.monitors
      → ((x : ℤ) → ready_input x m ≢ some w.number)
      → is_minus_one fd ≡ false
      → let r = attach_listener w fd opts addr h (some m) in
        (m' : Registry) × ((stop d this r.handler r.main).main ≡ some m') × Forgets w.number m'
  unfolding attach_listener stop stop_main set_port start_input give_port new_listener select
      ready_input
  attach_listener-stop owner this w fd opts addr h m other ne v silent valid =
      let l = new_listener w.queue fd opts addr in
      let l' : Listener Queue = record l { sock = (set_port h.port l.sock).0 } in
      let x = (select fd w.number m).0 in
      let (m', left, same, forgets) =
        stop-Forgets w.number owner l' (record x { port = if x.this == w.this then 0 else x.port })
          ne v (set_port-IsRegistered w.number h.port l.sock m refl silent) valid in
      (
        m',
        ap (λ x. (stop_main this x).0) left ∙ stop_main-other this m' (λ e. other (sym same ∙ e)),
        forgets,
      )

  -- Options with an address that cannot be made into a `SockAddr` let the exception out of the driver, from
  -- `listen` and, where its own address can be made, from `connect_start`.
  pub listen-uncaught :
      (ei : Ei) (w : Outside Queue) (buf buf' bin addrstr : List ℕ) (len len' addrport : ℕ)
      (addr : SockAddr) (h : MainHandler Queue) (main : Option Registry)
      → binary_argument ei buf len ≡ ok bin
      → connect_argument ei buf' len' ≡ ok (addrstr, addrport, bin)
      → from_addrport w.getaddrinfo addrstr addrport ≡ ok addr
      → decode w.getaddrinfo bin default_opts ≡ err bad_sock_addr
      → (listen w ei buf len h main ≡ err bad_sock_addr)
        × (connect_start w ei buf' len' h main ≡ err bad_sock_addr)
  unfolding listen listen_with connect_start connect_with
  listen-uncaught ei w buf buf' bin addrstr len len' addrport addr h main e e' a f =
      (rw (e, f) refl, rw (e', a, f) refl)
