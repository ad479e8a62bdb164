-- ===== src/Options/Merging.antt =====
-- `SockOpts::decode_and_merge`: what `setopts` may change.
use gen_utp.Base.{
  ℕ, ◌≡◌, refl, sym, ap, ◌∙◌, inl, inr, Bool, true, false, ◌||◌, Bool-cases, Option, some, none,
  List, [], ◌∷◌, ◌++◌, ℤ, to_int32, ok, err, invalid_argument,
}
use gen_utp.Address.{GetAddrInfo}
use gen_utp.Options.Defs.{
  Active, DeliveryMode, data_list, data_binary, SockOpts, Opt, ip_opt, port_opt, inet_opt,
  inet6_opt, active_opt, packet_opt, header_opt, sndbuf_opt, recbuf_opt, merge_one, merge_loop,
  decode_and_merge, default_opts, set_addr, decode,
}
use gen_utp.Options.Encoding.{
  UtpOptions, Timeout, infinity, millis, UtpActive, Fits, given, timeout_of, active_of, with_mode,
  with_send_tmout, with_active, with_packet, with_header, with_sndbuf, with_recbuf, requested,
  mode_tag, timeout_tag, tag, tags, options_to_binary,
}
use gen_utp.Options.RoundTrip.{decode-options_to_binary}

-- The options that `setopts` refuses.
abbrev pub forbidden : Opt → Bool
forbidden ip_opt = true
forbidden port_opt = true
forbidden inet_opt = true
forbidden inet6_opt = true
forbidden _ = false

abbrev pub any_forbidden : List Opt → Bool
any_forbidden [] = false
any_forbidden (x ∷ xs) = forbidden x || any_forbidden xs

merge_one-forbidden :
    (x : Opt) (so o : SockOpts) → forbidden x ≡ true → merge_one x so o ≡ err invalid_argument
unfolding merge_one
merge_one-forbidden ip_opt so o h = refl
merge_one-forbidden port_opt so o h = refl
merge_one-forbidden inet_opt so o h = refl
merge_one-forbidden inet6_opt so o h = refl
merge_one-forbidden _ so o h = cc

merge_one-allowed :
    (x : Opt) (so o : SockOpts) → forbidden x ≡ false → (o' : SockOpts) × (merge_one x so o ≡ ok o')
unfolding merge_one
merge_one-allowed ip_opt so o h = cc
merge_one-allowed port_opt so o h = cc
merge_one-allowed inet_opt so o h = cc
merge_one-allowed inet6_opt so o h = cc
merge_one-allowed _ so o h = (_, refl)

merge_loop-forbidden :
    (xs : List Opt) (so o : SockOpts)
    → any_forbidden xs ≡ true
    → merge_loop xs so o ≡ err invalid_argument
unfolding merge_loop
merge_loop-forbidden [] so o h = cc
merge_loop-forbidden (x ∷ xs) so o h = elim (Bool-cases (forbidden x)) [
  | inl bad ↦ rw (merge_one-forbidden x so o bad)
  | inr good ↦
      let (o', e) = merge_one-allowed x so o good in
      rw e (merge_loop-forbidden xs so o' (rw good at h))
]

-- `setopts` with an address, a port or a family among the options throws `invalid_argument`, after
-- any other options that stand before it, if the binary itself is read without an exception.
pub decode_and_merge-forbidden :
    (getaddrinfo : GetAddrInfo) (bin : List ℕ) (o so : SockOpts) (seen : List Opt)
    → decode getaddrinfo bin default_opts ≡ ok (so, seen)
    → any_forbidden seen ≡ true
    → decode_and_merge getaddrinfo bin o ≡ err invalid_argument
unfolding decode_and_merge
decode_and_merge-forbidden getaddrinfo bin o so seen e h = rw e (merge_loop-forbidden seen so o h)

-- One field: the options read into `so` carry over, if they were given.
module _ (so : SockOpts) where
  mode-merge :
      (v : Option DeliveryMode) (d : DeliveryMode) (rest : List Opt) (o : SockOpts)
      → so.delivery_mode ≡ given (λ m. m) v d
      → merge_loop (mode_tag v ++ rest) so o ≡ merge_loop rest so (with_mode v o)
  unfolding merge_loop merge_one
  mode-merge none d rest o e = refl
  mode-merge (some data_list) d rest o e =
      ap (λ m. merge_loop rest so (record o { delivery_mode = m })) e
  mode-merge (some data_binary) d rest o e =
      ap (λ m. merge_loop rest so (record o { delivery_mode = m })) e

  timeout-merge :
      (v : Option Timeout) (d : ℤ) (rest : List Opt) (o : SockOpts)
      → so.send_tmout ≡ given timeout_of v d
      → merge_loop (timeout_tag v ++ rest) so o ≡ merge_loop rest so (with_send_tmout v o)
  unfolding merge_loop merge_one
  timeout-merge none d rest o e = refl
  timeout-merge (some infinity) d rest o e =
      ap (λ m. merge_loop rest so (record o { send_tmout = m })) e
  timeout-merge (some (millis n)) d rest o e =
      ap (λ m. merge_loop rest so (record o { send_tmout = m })) e

  active-merge :
      (v : Option UtpActive) (d : Active) (rest : List Opt) (o : SockOpts)
      → so.active ≡ given active_of v d
      → merge_loop (tag active_opt v ++ rest) so o ≡ merge_loop rest so (with_active v o)
  unfolding merge_loop merge_one
  active-merge none d rest o e = refl
  active-merge (some a) d rest o e = ap (λ m. merge_loop rest so (record o { active = m })) e

  packet-merge :
      (v : Option ℕ) (d : ℕ) (rest : List Opt) (o : SockOpts)
      → so.packet ≡ given (λ n. n) v d
      → merge_loop (tag packet_opt v ++ rest) so o ≡ merge_loop rest so (with_packet v o)
  unfolding merge_loop merge_one
  packet-merge none d rest o e = refl
  packet-merge (some n) d rest o e = ap (λ m. merge_loop rest so (record o { packet = m })) e

  header-merge :
      (v : Option ℕ) (d : ℕ) (rest : List Opt) (o : SockOpts)
      → so.header ≡ given (λ n. n) v d
      → merge_loop (tag header_opt v ++ rest) so o ≡ merge_loop rest so (with_header v o)
  unfolding merge_loop merge_one
  header-merge none d rest o e = refl
  header-merge (some n) d rest o e = ap (λ m. merge_loop rest so (record o { header = m })) e

  sndbuf-merge :
      (v : Option ℕ) (d : ℤ) (rest : List Opt) (o : SockOpts)
      → so.sndbuf ≡ given to_int32 v d
      → merge_loop (tag sndbuf_opt v ++ rest) so o ≡ merge_loop rest so (with_sndbuf v o)
  unfolding merge_loop merge_one
  sndbuf-merge none d rest o e = refl
  sndbuf-merge (some n) d rest o e = ap (λ m. merge_loop rest so (record o { sndbuf = m })) e

  recbuf-merge :
      (v : Option ℕ) (d : ℤ) (rest : List Opt) (o : SockOpts)
      → so.recbuf ≡ given to_int32 v d
      → merge_loop (tag recbuf_opt v ++ rest) so o ≡ merge_loop rest so (with_recbuf v o)
  unfolding merge_loop merge_one
  recbuf-merge none d rest o e = refl
  recbuf-merge (some n) d rest o e = ap (λ m. merge_loop rest so (record o { recbuf = m })) e

-- What gen_utp.erl's `setopts` lets through: no address, no port and no family.
abbrev pub settable : UtpOptions → UtpOptions
settable v = record v { ip = none; port = none; family = none }

merge-tags :
    (v : UtpOptions) (d o : SockOpts)
    → merge_loop (tags (settable v)) (requested (settable v) d) o ≡ ok (requested (settable v) o)
unfolding merge_loop
merge-tags v d o =
    let so = requested (settable v) d in
    mode-merge so v.mode d.delivery_mode _ o refl
    ∙ (timeout-merge so v.send_tmout d.send_tmout _ _ refl
        ∙ (active-merge so v.active d.active _ _ refl
            ∙ (packet-merge so v.packet d.packet _ _ refl
                ∙ (header-merge so v.header d.header _ _ refl
                    ∙ (sndbuf-merge so v.sndbuf d.sndbuf _ _ refl
                        ∙ recbuf-merge so v.recbuf d.recbuf [] _ refl)))))

settable_lem : (v : UtpOptions) → v.ip ≡ none → v.port ≡ none → v.family ≡ none → settable v ≡ v
settable_lem v i p f = λ j. record v { ip = sym i j; port = sym p j; family = sym f j }

-- `setopts` with the binary that gen_utp.erl makes of options without an address, a port and a
-- family sets exactly the options that were given, and leaves every other as it stood.
pub merge-options_to_binary :
    (getaddrinfo : GetAddrInfo) (v : UtpOptions) (o : SockOpts)
    → Fits v
    → v.ip ≡ none
    → v.port ≡ none
    → v.family ≡ none
    → decode_and_merge getaddrinfo (options_to_binary v) o ≡ ok (requested v o)
unfolding decode_and_merge set_addr
merge-options_to_binary getaddrinfo v o h i p f =
    rw (decode-options_to_binary getaddrinfo v default_opts h, ← settable_lem v i p f)
      (merge-tags v default_opts o)
