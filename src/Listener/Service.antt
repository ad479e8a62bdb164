-- ===== src/Listener/Service.antt =====
-- What `input_ready` does for the first process that waits, and what it closes.
use gen_utp.Base.{
  ℕ, zero, suc, ◌≡◌, ◌≢◌, refl, Bool, true, false, ◌&&◌, Option, some, none, List, [], ◌∷◌, ◌++◌,
  ne→==, ℤ,
}
use gen_utp.Driver.Defs.{lit, errno_id, DrvTerm, port, tuple, Message, process}
use gen_utp.Driver.Shape.{IsMessage, entries}
use gen_utp.Sockets.Opening.{Opened, open_udp_socket, open_udp_socket-failed}
use gen_utp.Connection.Defs.{UtpHandler, new_handler}
use gen_utp.Main.Registry.{Registry}
use gen_utp.Listener.Defs.{Acceptor, Listener}
use gen_utp.Listener.Incoming.{
  Arrival, Served, eintr, input_ready, connect_loop, refused, is_negative, delete_both,
  incoming_loop,
}

-- The answer is not EINTR.
abbrev pub Final : Option ℕ → Type 0
Final none = Unit {0}
Final (some errno) = errno ≢ eintr

-- Some calls of `connect` that a signal interrupts, and then an answer.
abbrev pub interrupted : ℕ → List (Option ℕ) → List (Option ℕ)
interrupted zero answers = answers
interrupted (suc n) answers = some eintr ∷ interrupted n answers

connect_loop-interrupted :
    (n : ℕ) (answer : Option ℕ) (more : List (Option ℕ))
    → Final answer
    → connect_loop (interrupted n (answer ∷ more)) ≡ some answer
unfolding connect_loop
connect_loop-interrupted zero none more f = refl
connect_loop-interrupted zero (some errno) more f = rw (ne→== errno eintr f) refl
connect_loop-interrupted (suc n) answer more f = connect_loop-interrupted n answer more f

-- Who a message goes to, and the terms that it carries as they are.
abbrev pub GoesTo : ℕ → Message → Type 0
GoesTo p (Message.output ts) = ⊥
GoesTo p (Message.send to ts) = to ≡ process p

-- The references in a specification.
unfoldable pub refs_in : List DrvTerm → List (List ℕ)
refs_in [] = []
refs_in (DrvTerm.ext2term ref ∷ ts) = ref ∷ refs_in ts
refs_in (t ∷ ts) = refs_in ts

-- What follows the reference.
unfoldable pub after_ref : List DrvTerm → List DrvTerm
after_ref [] = []
after_ref (DrvTerm.ext2term ref ∷ ts) = ts
after_ref (t ∷ ts) = after_ref ts

-- Nobody is told, no port is made and the queue stays.
abbrev pub Idles : {Q : Type 0} → Listener Q → Served Q → Type 0
Idles l r = (r.listener.acceptor_queue ≡ l.acceptor_queue) × (r.messages ≡ []) × (r.started ≡ none)

-- The acceptor leaves the queue, and the one message goes to its caller, makes one term, carries its
-- reference and says what follows it.
abbrev pub Tells : {Q : Type 0} → Acceptor → List Acceptor → List DrvTerm → Served Q → Type 0
Tells acc rest said r =
    (m : Message) × (r.listener.acceptor_queue ≡ rest)
    × (r.messages ≡ m ∷ [])
    × IsMessage m
    × GoesTo acc.caller m
    × (refs_in (entries m) ≡ acc.ref ∷ [])
    × (after_ref (entries m) ≡ said ++ tuple 2 ∷ tuple 4 ∷ [])

-- What is due to the first acceptor, from the last answer of `connect` and from whether libutp takes the
-- datagram: the errno; the new port, with a server that has it; or nothing, when what was made is deleted and
-- the socket closed.
abbrev pub Answered :
    {Q : Type 0}
    → Option ℕ
    → Bool
    → Arrival Q
    → Acceptor
    → List Acceptor
    → Listener Q
    → Served Q
    → Type 0
Answered (some errno) is_utp a acc rest l r =
    Tells acc rest (DrvTerm.atom (lit "error") ∷ DrvTerm.atom (errno_id errno) ∷ []) r
    × (r.started ≡ none)
Answered {Q} none true a acc rest l r =
    Tells acc rest (DrvTerm.atom (lit "ok") ∷ port a.new_port ∷ []) r
    × ((sv : UtpHandler Q) × (r.started ≡ some sv) × (sv.drv_port ≡ a.new_port))
Answered none false a acc rest l r =
    Idles l r
    × (r.deleted ≡ delete_both a.server a.handler)
    × ((fds : List ℤ) × (r.closed ≡ fds ++ (open_udp_socket true a.calls).udp_sock ∷ []))

-- Nothing happens without a datagram of some bytes or without an acceptor.
abbrev pub Serves :
    {Q : Type 0}
    → Option (List ℕ)
    → List Acceptor
    → Option ℕ
    → Arrival Q
    → Listener Q
    → Served Q
    → Type 0
Serves none queue answer a l r = Idles l r
Serves (some []) queue answer a l r = Idles l r
Serves (some (b ∷ bytes)) [] answer a l r = Idles l r
Serves (some (b ∷ bytes)) (acc ∷ rest) answer a l r = Answered answer a.is_utp a acc rest l r

module _ {Q : Type 0} (a : Arrival Q) where
  -- The server that is made, after libutp has handed it what it opened.
  abbrev made : Listener Q → UtpHandler Q
  made l =
      (incoming_loop a.incoming
        (new_handler a.queue (open_udp_socket true a.calls).udp_sock l.sock.sockopts)).after

  -- If the socket is opened but cannot be set up, `open_udp_socket` closes it and returns a positive errno,
  -- which `input_ready` does not see: when `connect` fails as well, the descriptor is closed a second time.
  pub input_ready-closed :
      (fd b errno : ℕ) (bytes : List ℕ) (more : List (Option ℕ)) (acc : Acceptor)
      (rest : List Acceptor) (l : Listener Q) (main : Option Registry)
      → a.datagram ≡ some (b ∷ bytes)
      → l.acceptor_queue ≡ acc ∷ rest
      → a.calls.socket ≡ some fd
      → (a.calls.fcntl_ok && a.calls.setsockopt_ok && a.calls.bind_ok) ≡ false
      → errno ≢ eintr
      → a.connects ≡ some errno ∷ more
      → (r : Served Q) × (input_ready a l main ≡ some r) × (r.closed ≡ ℤ.pos fd ∷ ℤ.pos fd ∷ [])
  unfolding input_ready open_udp_socket is_negative refused
  input_ready-closed fd b errno bytes more acc rest l main e1 e2 e3 e4 ne e5 =
      let o = open_udp_socket-failed a.calls fd e3 e4 in
      let failed : Opened = record {
        result = ℤ.pos a.calls.errno;
        udp_sock = ℤ.pos fd;
        closed = fd ∷ [];
      } in
      (
        refused errno failed acc rest l main,
        rw (e1, e2, o) (rw (e5, connect_loop-interrupted 0 (some errno) more ne) refl),
        refl,
      )
