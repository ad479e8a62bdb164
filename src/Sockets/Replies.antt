-- ===== src/Sockets/Replies.antt =====
-- socket_handler.cc, `getopts`: the replies.
use gen_utp.Base.{
  ℕ, suc, ◌+◌, ◌≡◌, refl, ap, ◌∙◌, inl, inr, Option, Option-cases, some, none, List, [], ◌∷◌, ◌++◌,
  length, Bool-cases, is_minus_one, to_ulong, arith,
}
use gen_utp.Driver.Defs.{Text, lit, errno_id, Token, Reply}
use gen_utp.Driver.Shape.{pending, IsReply}
use gen_utp.Options.Defs.{
  Active, active_false, active_once, active_true, active_other, DeliveryMode, data_list,
  data_binary, SockOpts, Opt, opt_of, ip_opt, port_opt, list_opt, binary_opt, mode_opt, inet_opt,
  inet6_opt, send_tmout_opt, send_tmout_infinite_opt, active_opt, packet_opt, header_opt,
  sndbuf_opt, recbuf_opt,
}
use gen_utp.Sockets.Defs.{
  active_name, mode_name, listed, option_tokens, getopts_loop, getopts_of, einval,
}

-- Tokens that make one term take one from the count.
abbrev One : Option (List Token) → Type 0
One none = Unit {0}
One (some ts) = (n : ℕ) (rest : List Token) → pending (suc n) (ts ++ rest) ≡ pending n rest

two : (n : ℕ) → 2 + n ≡ suc (suc n)
two n = omega arith

two_items : (n : ℕ) (ts : List Token) → pending (2 + n) ts ≡ pending (suc (suc n)) ts
two_items n ts = ap (λ k. pending k ts) (two n)

active_name-One :
    (a : Active) (n : ℕ) (rest : List Token)
    → pending (suc n) (active_name a ∷ rest) ≡ pending n rest
unfolding pending
active_name-One active_false n rest = refl
active_name-One active_once n rest = refl
active_name-One active_true n rest = refl
active_name-One (active_other k) n rest = refl

mode_name-One :
    (m : DeliveryMode) (n : ℕ) (rest : List Token)
    → pending (suc n) (mode_name m ∷ rest) ≡ pending n rest
unfolding pending
mode_name-One data_list n rest = refl
mode_name-One data_binary n rest = refl

-- `{name, value}` is one term when the value is.
pair :
    (name : Text) (v : Token)
    → ((n : ℕ) (rest : List Token) → pending (suc n) (v ∷ rest) ≡ pending n rest)
    → One (some (Token.tuple_header 2 ∷ Token.atom name ∷ v ∷ []))
unfolding pending
pair name v one n rest = two_items n (Token.atom name ∷ v ∷ rest) ∙ one n rest

option_tokens-One : (o : Option Opt) (so : SockOpts) → One (option_tokens o so)
unfolding option_tokens pending
option_tokens-One none so = tt
option_tokens-One (some active_opt) so = pair (lit "active") _ (active_name-One so.active)
option_tokens-One (some mode_opt) so = pair (lit "mode") _ (mode_name-One so.delivery_mode)
option_tokens-One (some send_tmout_opt) so = elim (Bool-cases (is_minus_one so.send_tmout)) [
  | inl e ↦ rw e (pair (lit "send_timeout") (Token.atom (lit "infinity")) (λ n rest. refl))
  | inr e ↦ rw e (pair (lit "send_timeout") (Token.longval so.send_tmout) (λ n rest. refl))
]
option_tokens-One (some packet_opt) so =
    pair (lit "packet") (Token.ulongval so.packet) (λ n rest. refl)
option_tokens-One (some sndbuf_opt) so =
    pair (lit "sndbuf") (Token.ulongval (to_ulong so.sndbuf)) (λ n rest. refl)
option_tokens-One (some recbuf_opt) so =
    pair (lit "recbuf") (Token.ulongval (to_ulong so.recbuf)) (λ n rest. refl)
option_tokens-One (some ip_opt) so = tt
option_tokens-One (some port_opt) so = tt
option_tokens-One (some list_opt) so = tt
option_tokens-One (some binary_opt) so = tt
option_tokens-One (some inet_opt) so = tt
option_tokens-One (some inet6_opt) so = tt
option_tokens-One (some send_tmout_infinite_opt) so = tt
option_tokens-One (some header_opt) so = tt

-- The loop's tokens after the header of a list are its elements and its tail.
abbrev Loop : ℕ → Option (List Token) → Type 0
Loop n none = Unit {0}
Loop n (some ts) = pending (suc n) ts ≡ some 0

getopts_loop-Loop : (names : List ℕ) (so : SockOpts) → Loop (length names) (getopts_loop names so)
unfolding getopts_loop pending
getopts_loop-Loop [] so = refl
getopts_loop-Loop (op ∷ names) so =
    loop (option_tokens (opt_of op) so) (getopts_loop names so) (option_tokens-One (opt_of op) so)
      (getopts_loop-Loop names so)
  where
    loop :
        (o : Option (List Token)) (l : Option (List Token))
        → One o
        → Loop (length names) l
        → Loop (suc (length names)) (elim o [
          | none ↦ none
          | some ts ↦ elim l [ none ↦ none | some rest ↦ some (ts ++ rest) ]
        ])
    loop none l one more = tt
    loop (some ts) none one more = tt
    loop (some ts) (some rest) one more = one (suc (length names)) rest ∙ more

listed-IsReply : (n : ℕ) (l : Option (List Token)) → Loop n l → IsReply (listed n l)
unfolding pending
listed-IsReply n none more = refl
listed-IsReply n (some ts) more =
    let e : suc n + 0 ≡ suc n = omega arith in ap (λ k. pending k ts) e ∙ more

-- `getopts` replies with one well-formed term for every list of names and all options: the list in it
-- has as many elements as its header says.
pub getopts_of-IsReply : (names : List ℕ) (so : SockOpts) → IsReply (getopts_of names so)
unfolding getopts_of pending
getopts_of-IsReply [] so = refl
getopts_of-IsReply (op ∷ names) so = listed-IsReply _ _ (getopts_loop-Loop (op ∷ names) so)

getopts_loop-none :
    (before : List ℕ) (op : ℕ) (after : List ℕ) (so : SockOpts)
    → option_tokens (opt_of op) so ≡ none
    → getopts_loop (before ++ op ∷ after) so ≡ none
unfolding getopts_loop
getopts_loop-none [] op after so e = rw e
getopts_loop-none (b ∷ before) op after so e =
    let ih = getopts_loop-none before op after so e in
    elim (Option-cases (option_tokens (opt_of b) so)) [
      | inl no_case ↦ rw no_case
      | inr (ts, found) ↦ rw (found, ih)
    ]

-- One name that the `switch` has no case for, at any place, makes `getopts` reply {error, einval}
-- and drops what it has of the others.
pub getopts_of-einval :
    (before : List ℕ) (op : ℕ) (after : List ℕ) (so : SockOpts)
    → option_tokens (opt_of op) so ≡ none
    → getopts_of (before ++ op ∷ after) so
      ≡ Reply.term
          (Token.tuple_header 2 ∷ Token.atom (lit "error") ∷ Token.atom (errno_id einval) ∷ [])
unfolding getopts_of
getopts_of-einval [] op after so e = ap (listed _) (getopts_loop-none [] op after so e)
getopts_of-einval (b ∷ before) op after so e =
    ap (listed _) (getopts_loop-none (b ∷ before) op after so e)
