-- ===== src/Address.antt =====
-- c_src/socket_handler.cc, `SockAddr`: socket addresses. `getaddrinfo` and `getnameinfo` are
-- parameters. A `sockaddr_storage` is read as its family, port and address bytes; the values of
-- AF_INET and AF_INET6 and the sizes are those of Linux.
use gen_utp.Base.{
  ℕ, ◌%◌, ◌^◌, ◌||◌, Option, List, [], ◌∷◌, ◌==◌, if◌then◌else◌, Result, ok, err, bad_sock_addr,
  ◌>>=◌, or_throw,
}
use gen_utp.Driver.Defs.{lit, Token, Reply, encode_errno}

abbrev pub af_inet : ℕ
af_inet = 2

abbrev pub af_inet6 : ℕ
af_inet6 = 10

-- `sizeof(sockaddr_in)`, `sizeof(sockaddr_in6)` and `sizeof(sockaddr_storage)`
abbrev pub sockaddr_in_size : ℕ
sockaddr_in_size = 16

abbrev pub sockaddr_in6_size : ℕ
sockaddr_in6_size = 28

abbrev pub sockaddr_storage_size : ℕ
sockaddr_storage_size = 128

pub record SockAddr : Type 0 where
  pub sa_family : ℕ
  pub sin_port : ℕ
  pub sin_addr : List ℕ
  pub slen : ℕ

-- `SockAddr()`
unfoldable pub zero_addr : SockAddr
zero_addr = record { sa_family = 0; sin_port = 0; sin_addr = []; slen = sockaddr_storage_size }

-- What `getaddrinfo` puts in `ai_addr` and `ai_addrlen`; `none` where it fails.
abbrev pub GetAddrInfo : Type 0
GetAddrInfo = List ℕ → Option SockAddr

-- `from_addrport` of a text. The port is an `unsigned short`.
unfoldable pub from_addrport : GetAddrInfo → List ℕ → ℕ → Result SockAddr
from_addrport getaddrinfo addrstr port = do
  ai ← or_throw bad_sock_addr (getaddrinfo addrstr)
  if ai.sa_family == af_inet || ai.sa_family == af_inet6
      then ok (record ai { sin_port = port % 2 ^ 16 })
      else err bad_sock_addr

unfoldable pub from_in_addr : List ℕ → ℕ → SockAddr
from_in_addr inaddr port = record {
  sa_family = af_inet;
  sin_port = port % 2 ^ 16;
  sin_addr = inaddr;
  slen = sockaddr_in_size;
}

unfoldable pub from_in6_addr : List ℕ → ℕ → SockAddr
from_in6_addr inaddr6 port = record {
  sa_family = af_inet6;
  sin_port = port % 2 ^ 16;
  sin_addr = inaddr6;
  slen = sockaddr_in_size;
}

-- What `getnameinfo` writes for an address; `none` where it fails.
abbrev pub GetNameInfo : Type 0
GetNameInfo = SockAddr → Option (List ℕ)

unfoldable pub to_addrport : GetNameInfo → SockAddr → Result (List ℕ × ℕ)
to_addrport getnameinfo sa = do
  addrstr ← or_throw bad_sock_addr (getnameinfo sa)
  if sa.sa_family == af_inet || sa.sa_family == af_inet6
      then ok (addrstr, sa.sin_port)
      else err bad_sock_addr

unfoldable pub family : SockAddr → ℕ
family sa = sa.sa_family

abbrev pub encode_result : ℕ → Result (List ℕ × ℕ) → Reply
encode_result errno (ok (addrstr, port)) = Reply.term (
    Token.tuple_header 2
    ∷ Token.atom (lit "ok")
    ∷ Token.tuple_header 2
    ∷ Token.string addrstr
    ∷ Token.ulongval port
    ∷ [])
encode_result errno (err e) = encode_errno errno

-- `encode`, with the `errno` that it finds if the conversion fails.
unfoldable pub encode : GetNameInfo → ℕ → SockAddr → Reply
unfolding encode_errno
encode getnameinfo errno sa = encode_result errno (to_addrport getnameinfo sa)
