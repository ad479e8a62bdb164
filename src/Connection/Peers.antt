-- ===== src/Connection/Peers.antt =====
-- client.cc and server.cc: how the two kinds of connection begin, and `set_utp_callbacks`.
use gen_utp.Base.{ℕ, true, Option, some, none, List, [], ◌∷◌}
use gen_utp.Options.Defs.{bufsize_default}
use gen_utp.Connection.Defs.{
  connect_pending, connected, UtpHandler, Event, set_sndbuf, set_recbuf, Stepped,
}

module _ {Q : Type 0} where
  -- The options that `set_utp_callbacks` sets, if there is a socket; the table of callbacks is fixed.
  unfoldable pub set_utp_callbacks : UtpHandler Q → List Event
  set_utp_callbacks h = elim h.utp [
    | none ↦ []
    | some u ↦ set_sndbuf (some u) bufsize_default ∷ set_recbuf (some u) bufsize_default ∷ []
  ]

  -- `Client::connect_to`, with the socket that `UTP_Create` returns. `UTP_Connect` follows.
  unfoldable pub connect_to : Option ℕ → UtpHandler Q → Stepped Q
  unfolding set_utp_callbacks
  connect_to created h =
      let h' = record h { status = connect_pending; utp = created } in
      record { after = h'; events = set_utp_callbacks h' }

  -- `Server::do_incoming`: the first socket is taken, and later ones are not.
  unfoldable pub do_incoming : ℕ → UtpHandler Q → Stepped Q
  unfolding set_utp_callbacks
  do_incoming utp_sock h = elim h.utp [
    | none ↦
        let h' = record h { utp = some utp_sock } in
        record {
          after = record h' { is_writable = true; status = connected };
          events = set_utp_callbacks h';
        }
    | some u ↦ record { after = h; events = [] }
  ]
