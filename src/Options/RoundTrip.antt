-- ===== src/Options/RoundTrip.antt =====
-- `SockOpts::decode` reads back what `options_to_binary` writes, field by field and whole.
use gen_utp.Base.{
  ℕ, ◌/◌, ◌%◌, ◌^◌, ◌<◌, ◌≡◌, refl, ap, Option, some, none, List, [], ◌∷◌, ◌++◌, length, lt→ltb,
  append-nil, append_assoc, arith,
}
use gen_utp.Address.{GetAddrInfo}
use gen_utp.Options.Defs.{
  SockOpts, Opt, ip_opt, port_opt, active_opt, packet_opt, header_opt, sndbuf_opt, recbuf_opt,
  split_text, decode_one, decode_byte, set_addr, decode, be16, be32, DeliveryMode, data_list,
  data_binary, inet6_addrstrlen,
}
use gen_utp.Options.Scan.{decode_from, decode_from-cons}
use gen_utp.Options.Encoding.{
  UtpOptions, Family, inet, inet6, infinity, millis, passive, once, always, mode_bytes,
  family_bytes, ip_bytes, port_bytes, send_tmout_bytes, active_bytes, packet_bytes, header_bytes,
  sndbuf_bytes, recbuf_bytes, options_to_binary, Each, NoZero, Fits, FitsTimeout, with_mode,
  with_family, with_ip, with_port, with_send_tmout, with_active, with_packet, with_header,
  with_sndbuf, with_recbuf, requested, mode_tag, family_tag, timeout_tag, tag, tags, Timeout,
  UtpActive,
}

be16_lem : (n : ℕ) → n < 2 ^ 16 → be16 (n / 256 % 256) (n % 256) ≡ n
be16_lem n h = omega arith

be32_lem :
    (n : ℕ) → n < 2 ^ 32 → be32 (n / 2 ^ 24 % 256) (n / 2 ^ 16 % 256) (n / 256 % 256) (n % 256) ≡ n
be32_lem n h = omega arith

split_text-append :
    (s rest : List ℕ) → NoZero s → split_text ((s ++ 0 ∷ []) ++ rest) ≡ some (s, rest)
unfolding split_text
split_text-append [] rest h = refl
split_text-append (c ∷ s) rest h = ground (arith, h.0, split_text-append s rest h.1)

-- One field of the record: its bytes are read in one round at most.
record Reads (bytes : List ℕ) (change : SockOpts → SockOpts) (seen' : List Opt) : Type 0 where
  run :
      (rest : List ℕ) (so : SockOpts) (seen : List Opt)
      → decode_from (bytes ++ rest) so seen ≡ decode_from rest (change so) (seen ++ seen')

absent : Reads [] (λ so. so) []
absent = record { run = λ rest so seen. rw (append-nil seen) }

mode-Reads : (v : Option DeliveryMode) → Reads (mode_bytes v) (with_mode v) (mode_tag v)
unfolding decode_byte decode_one
mode-Reads none = absent
mode-Reads (some data_list) = record {
  run = λ rest so seen. decode_from-cons 3 rest so seen _ refl;
}
mode-Reads (some data_binary) = record {
  run = λ rest so seen. decode_from-cons 4 rest so seen _ refl;
}

family-Reads : (v : Option Family) → Reads (family_bytes v) (with_family v) (family_tag v)
unfolding decode_byte decode_one
family-Reads none = absent
family-Reads (some inet) = absent
family-Reads (some inet6) = record { run = λ rest so seen. decode_from-cons 7 rest so seen _ refl }

ip-Reads :
    (v : Option (List ℕ))
    → Each (λ s. NoZero s × (length s < inet6_addrstrlen)) v
    → Reads (ip_bytes v) (with_ip v) (tag ip_opt v)
unfolding decode_byte decode_one
ip-Reads none h = absent
ip-Reads (some s) h = record {
  run = λ rest so seen.
      decode_from-cons 1 ((s ++ 0 ∷ []) ++ rest) so seen _
        (rw (split_text-append s rest h.0, lt→ltb _ _ h.1));
}

port-Reads :
    (v : Option ℕ) → Each (λ n. n < 2 ^ 16) v → Reads (port_bytes v) (with_port v) (tag port_opt v)
unfolding decode_byte decode_one
port-Reads none h = absent
port-Reads (some n) h = record {
  run = λ rest so seen. decode_from-cons 2 _ so seen _ (rw (be16_lem n h));
}

timeout-Reads :
    (v : Option Timeout)
    → Each FitsTimeout v
    → Reads (send_tmout_bytes v) (with_send_tmout v) (timeout_tag v)
unfolding decode_byte decode_one
timeout-Reads none h = absent
timeout-Reads (some infinity) h = record {
  run = λ rest so seen. decode_from-cons 9 rest so seen _ refl;
}
timeout-Reads (some (millis n)) h = record {
  run = λ rest so seen. decode_from-cons 8 _ so seen _ (rw (be32_lem n h));
}

active-Reads : (v : Option UtpActive) → Reads (active_bytes v) (with_active v) (tag active_opt v)
unfolding decode_byte decode_one
active-Reads none = absent
active-Reads (some passive) = record { run = λ rest so seen. decode_from-cons 10 _ so seen _ refl }
active-Reads (some once) = record { run = λ rest so seen. decode_from-cons 10 _ so seen _ refl }
active-Reads (some always) = record { run = λ rest so seen. decode_from-cons 10 _ so seen _ refl }

packet-Reads :
    (v : Option ℕ)
    → Each (λ n. n < 256) v
    → Reads (packet_bytes v) (with_packet v) (tag packet_opt v)
unfolding decode_byte decode_one
packet-Reads none h = absent
packet-Reads (some n) h = record {
  run = λ rest so seen. let e : n % 256 ≡ n = omega arith in decode_from-cons 11 _ so seen _ (rw e);
}

header-Reads :
    (v : Option ℕ)
    → Each (λ n. n < 2 ^ 16) v
    → Reads (header_bytes v) (with_header v) (tag header_opt v)
unfolding decode_byte decode_one
header-Reads none h = absent
header-Reads (some n) h = record {
  run = λ rest so seen. decode_from-cons 12 _ so seen _ (rw (be16_lem n h));
}

sndbuf-Reads :
    (v : Option ℕ)
    → Each (λ n. n < 2 ^ 32) v
    → Reads (sndbuf_bytes v) (with_sndbuf v) (tag sndbuf_opt v)
unfolding decode_byte decode_one
sndbuf-Reads none h = absent
sndbuf-Reads (some n) h = record {
  run = λ rest so seen. decode_from-cons 13 _ so seen _ (rw (be32_lem n h));
}

recbuf-Reads :
    (v : Option ℕ)
    → Each (λ n. n < 2 ^ 32) v
    → Reads (recbuf_bytes v) (with_recbuf v) (tag recbuf_opt v)
unfolding decode_byte decode_one
recbuf-Reads none h = absent
recbuf-Reads (some n) h = record {
  run = λ rest so seen. decode_from-cons 14 _ so seen _ (rw (be32_lem n h));
}

-- Two fields one after the other.
infixr 20 ◌followed_by◌
◌followed_by◌ :
    {xs ys : List ℕ} {f g : SockOpts → SockOpts} {ts us : List Opt}
    → Reads xs f ts
    → Reads ys g us
    → Reads (xs ++ ys) (λ so. g (f so)) (ts ++ us)
◌followed_by◌ {xs} {ys} {f} {g} {ts} {us} p q = record {
  run = λ rest so seen.
      rw (append_assoc xs ys rest, p.run (ys ++ rest) so seen, q.run rest (f so) (seen ++ ts))
        (ap (decode_from rest (g (f so))) (append_assoc seen ts us));
}

options-Reads : (o : UtpOptions) → Fits o → Reads (options_to_binary o) (requested o) (tags o)
unfolding options_to_binary
options-Reads o h =
    mode-Reads o.mode
    followed_by family-Reads o.family
    followed_by ip-Reads o.ip h.ip
    followed_by port-Reads o.port h.port
    followed_by timeout-Reads o.send_tmout h.send_tmout
    followed_by active-Reads o.active
    followed_by packet-Reads o.packet h.packet
    followed_by header-Reads o.header h.header
    followed_by sndbuf-Reads o.sndbuf h.sndbuf
    followed_by recbuf-Reads o.recbuf h.recbuf
    followed_by absent

-- The binary that gen_utp.erl makes of options within their widths sets exactly those options in
-- the driver, leaves the others as they stood, and lists those that were given; what is left is to
-- resolve the address, which is done if and only if one was given or stood.
pub decode-options_to_binary :
    (getaddrinfo : GetAddrInfo) (o : UtpOptions) (so : SockOpts)
    → Fits o
    → decode getaddrinfo (options_to_binary o) so ≡ set_addr getaddrinfo (requested o so, tags o)
unfolding decode
decode-options_to_binary getaddrinfo o so h =
    rw (← append-nil (options_to_binary o), (options-Reads o h).run [] so []) refl
