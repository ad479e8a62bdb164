-- ===== src/Sockets/Opening.antt =====
-- socket_handler.cc, `open_udp_socket`: the system calls that open, set up and bind a UDP socket.
-- What each of them answers is an argument.
use gen_utp.Base.{
  Bool-cases, ◌≡◌, refl, sym, ap, ◌⊎◌, inl, inr, ℕ, Bool, true, false, not, ◌&&◌, ◌||◌, Option,
  some, none, List, [], ◌∷◌, if◌then◌else◌, ℤ, minus_one,
}

-- The answers: a descriptor from `socket` or none, whether `fcntl`, `setsockopt` and `bind`
-- succeed, and the `errno` that is read after a failure, and after `::close` where that is called.
pub record Calls : Type 0 where
  pub socket : Option ℕ
  pub fcntl_ok : Bool
  pub setsockopt_ok : Bool
  pub bind_ok : Bool
  pub errno : ℕ

-- The returned `int`, the value of `udp_sock` and the descriptors closed.
pub record Opened : Type 0 where
  pub result : ℤ
  pub udp_sock : ℤ
  pub closed : List ℕ

abbrev gave_up : ℕ → ℕ → Opened
gave_up fd errno = record { result = ℤ.pos errno; udp_sock = ℤ.pos fd; closed = fd ∷ [] }

abbrev open_fd : ℕ → Bool → Calls → Opened
open_fd fd reuseaddr c =
    if not c.fcntl_ok
    then gave_up fd c.errno
    else (if reuseaddr && not c.setsockopt_ok
        then gave_up fd c.errno
        else (if not c.bind_ok
            then gave_up fd c.errno
            else record { result = ℤ.pos 0; udp_sock = ℤ.pos fd; closed = [] }))

abbrev open_socket : Option ℕ → Bool → Calls → Opened
open_socket none reuseaddr c = record { result = ℤ.pos c.errno; udp_sock = minus_one; closed = [] }
open_socket (some fd) reuseaddr c = open_fd fd reuseaddr c

unfoldable pub open_udp_socket : Bool → Calls → Opened
open_udp_socket reuseaddr c = open_socket c.socket reuseaddr c

-- The descriptors that `socket` opened.
abbrev pub opened : Option ℕ → List ℕ
opened none = []
opened (some fd) = fd ∷ []

-- Whether what is done with a descriptor worked; `setsockopt` is called for `reuseaddr` alone.
abbrev pub all_worked : Bool → Calls → Bool
all_worked reuseaddr c = c.fcntl_ok && (not reuseaddr || c.setsockopt_ok) && c.bind_ok

-- Either every call worked, and the socket is open and returned, or there was no descriptor or a call on it
-- failed, the returned value is the errno, and no descriptor is left open.
abbrev pub Settled : Bool → Calls → Opened → Type 0
Settled reuseaddr c o =
    ((fd : ℕ) × (c.socket ≡ some fd)
      × (all_worked reuseaddr c ≡ true)
      × (o.result ≡ ℤ.pos 0)
      × (o.udp_sock ≡ ℤ.pos fd)
      × (o.closed ≡ []))
    ⊎ (((c.socket ≡ none) ⊎ (all_worked reuseaddr c ≡ false))
        × (o.result ≡ ℤ.pos c.errno)
        × (o.closed ≡ opened c.socket))

-- The checks of `open_udp_socket`, one after another, are `all_worked`.
checks :
    {A : Type 0} (reuseaddr f s b : Bool) (x y : A)
    → (if not f then x else (if reuseaddr && not s then x else (if not b then x else y)))
      ≡ (if f && (not reuseaddr || s) && b then y else x)
checks reuseaddr false s b x y = refl
checks false true s false x y = refl
checks false true s true x y = refl
checks true true false b x y = refl
checks true true true false x y = refl
checks true true true true x y = refl

open_fd-Settled :
    (fd : ℕ) (reuseaddr : Bool) (c : Calls)
    → c.socket ≡ some fd
    → Settled reuseaddr c (open_fd fd reuseaddr c)
open_fd-Settled fd reuseaddr c e =
    rw
      (checks reuseaddr c.fcntl_ok c.setsockopt_ok c.bind_ok (gave_up fd c.errno)
        (record { result = ℤ.pos 0; udp_sock = ℤ.pos fd; closed = [] }))
      (elim (Bool-cases (all_worked reuseaddr c)) [
        | inl worked ↦ rw worked (inl (fd, e, refl, refl, refl, refl))
        | inr failed ↦ rw failed (inr (inr refl, refl, sym (ap opened e)))
      ])

open_socket-Settled :
    (socket : Option ℕ) (reuseaddr : Bool) (c : Calls)
    → c.socket ≡ socket
    → Settled reuseaddr c (open_socket socket reuseaddr c)
open_socket-Settled none reuseaddr c e = inr (inl e, refl, sym (ap opened e))
open_socket-Settled (some fd) reuseaddr c e = open_fd-Settled fd reuseaddr c e

-- Whatever the system calls answer, `open_udp_socket` either returns 0 and an open socket, and then `socket`,
-- `fcntl`, `bind` and, for `reuseaddr`, `setsockopt` all worked; or one of them failed, and it returns the
-- errno and has closed the descriptor if it had opened one.
pub open_udp_socket-Settled :
    (reuseaddr : Bool) (c : Calls) → Settled reuseaddr c (open_udp_socket reuseaddr c)
unfolding open_udp_socket
open_udp_socket-Settled reuseaddr c = open_socket-Settled c.socket reuseaddr c refl

-- The returned value is not negative, so that the test of `Listener::input_ready` never sees a failure.
pub open_udp_socket-positive :
    (reuseaddr : Bool) (c : Calls) → (n : ℕ) × ((open_udp_socket reuseaddr c).result ≡ ℤ.pos n)
open_udp_socket-positive reuseaddr c = elim (open_udp_socket-Settled reuseaddr c) [
  | inl (fd, e, w, zero_result, sock, closed) ↦ (0, zero_result)
  | inr (e, failed, more) ↦ (c.errno, failed)
]

-- A socket that is opened and cannot be set up, or bound.
pub open_udp_socket-failed :
    (c : Calls) (fd : ℕ)
    → c.socket ≡ some fd
    → (c.fcntl_ok && c.setsockopt_ok && c.bind_ok) ≡ false
    → open_udp_socket true c
      ≡ record { result = ℤ.pos c.errno; udp_sock = ℤ.pos fd; closed = fd ∷ [] }
unfolding open_udp_socket
open_udp_socket-failed c fd e f = elim (Bool-cases c.fcntl_ok) [
  | inr x ↦ rw (e, x) refl
  | inl x ↦ elim (Bool-cases c.setsockopt_ok) [
    | inr y ↦ rw (e, x, y) refl
    | inl y ↦ let z : c.bind_ok ≡ false = rw (x, y) at f in rw (e, x, y, z) refl
  ]
]
