-- ===== src/Options/Scan.antt =====
-- The loop of `SockOpts::decode` ends: each round takes a byte, so the length of the binary is fuel
-- enough.
use gen_utp.Base.{
  ℕ, zero, suc, ◌≤◌, ◌≡◌, refl, inl, inr, Option-cases, some, List, [], ◌∷◌, ◌++◌, length, Result,
  Result-cases, ok, arith,
}
use gen_utp.Options.Defs.{
  Opt, opt_of, SockOpts, Scanned, set_ip, split_text, decode_one, decode_byte, decode_loop, ip_opt,
  port_opt, list_opt, binary_opt, mode_opt, inet_opt, inet6_opt, send_tmout_opt,
  send_tmout_infinite_opt, active_opt, packet_opt, header_opt, sndbuf_opt, recbuf_opt,
}

length-split_text :
    (xs s after : List ℕ) → split_text xs ≡ some (s, after) → length after ≤ length xs
unfolding split_text
length-split_text [] s after e = cc
length-split_text (c ∷ xs) s after e = elim (Option-cases (split_text xs)) [
  | inl failed ↦ ground (arith, failed)
  | inr ((t, rest), found) ↦ ground (arith, found, length-split_text xs t rest found)
]

length-set_ip :
    (so : SockOpts) (xs : List ℕ) (s : Scanned)
    → set_ip so (split_text xs) ≡ ok s
    → length s.rest ≤ length xs
length-set_ip so xs s e = elim (Option-cases (split_text xs)) [
  | inl failed ↦ ground (arith, failed)
  | inr ((t, rest), found) ↦ ground (arith, found, length-split_text xs t rest found)
]

length-decode_one :
    (o : Opt) (xs : List ℕ) (so : SockOpts) (s : Scanned)
    → decode_one o xs so ≡ ok s
    → length s.rest ≤ length xs
unfolding decode_one
length-decode_one ip_opt xs so s e = length-set_ip so xs s e
length-decode_one port_opt [] so s e = cc
length-decode_one port_opt (a ∷ []) so s e = cc
length-decode_one port_opt (a ∷ b ∷ xs) so s e = ground arith
length-decode_one list_opt xs so s e = ground arith
length-decode_one binary_opt xs so s e = ground arith
length-decode_one mode_opt xs so s e = ground arith
length-decode_one inet_opt xs so s e = ground arith
length-decode_one inet6_opt xs so s e = ground arith
length-decode_one send_tmout_opt (a ∷ b ∷ c ∷ d ∷ xs) so s e = ground arith
length-decode_one send_tmout_opt _ so s e = cc
length-decode_one send_tmout_infinite_opt xs so s e = ground arith
length-decode_one active_opt [] so s e = cc
length-decode_one active_opt (a ∷ xs) so s e = ground arith
length-decode_one packet_opt [] so s e = cc
length-decode_one packet_opt (a ∷ xs) so s e = ground arith
length-decode_one header_opt (a ∷ b ∷ xs) so s e = ground arith
length-decode_one header_opt _ so s e = cc
length-decode_one sndbuf_opt (a ∷ b ∷ c ∷ d ∷ xs) so s e = ground arith
length-decode_one sndbuf_opt _ so s e = cc
length-decode_one recbuf_opt (a ∷ b ∷ c ∷ d ∷ xs) so s e = ground arith
length-decode_one recbuf_opt _ so s e = cc

pub length-decode_byte :
    (op : ℕ) (xs : List ℕ) (so : SockOpts) (s : Scanned)
    → decode_byte op xs so ≡ ok s
    → length s.rest ≤ length xs
unfolding decode_byte
length-decode_byte op xs so s e = elim (Option-cases (opt_of op)) [
  | inl skipped ↦ ground (arith, skipped)
  | inr (o, found) ↦ ground (arith, found, length-decode_one o xs so s)
]

-- Any two amounts of fuel that cover the binary give the same result: the rounds never run out.
pub decode_loop-fuel :
    (f g : ℕ) (xs : List ℕ) (so : SockOpts) (seen : List Opt)
    → length xs ≤ f
    → length xs ≤ g
    → decode_loop f xs so seen ≡ decode_loop g xs so seen
unfolding decode_loop
decode_loop-fuel f g [] so seen h k = refl
decode_loop-fuel zero g (op ∷ xs) so seen h k = absurd (omega arith)
decode_loop-fuel (suc f) zero (op ∷ xs) so seen h k = absurd (omega arith)
decode_loop-fuel (suc f) (suc g) (op ∷ xs) so seen h k =
    elim (Result-cases (decode_byte op xs so)) [
      | inl (s, found) ↦ rw found (
          decode_loop-fuel f g s.rest s.so (seen ++ s.seen)
            (omega (arith, length-decode_byte op xs so s found))
            (omega (arith, length-decode_byte op xs so s found)))
      | inr (x, failed) ↦ rw failed
    ]

-- The loop with fuel enough.
abbrev pub decode_from : List ℕ → SockOpts → List Opt → Result (SockOpts × List Opt)
decode_from xs so seen = decode_loop (length xs) xs so seen

-- One round.
pub decode_from-cons :
    (op : ℕ) (xs : List ℕ) (so : SockOpts) (seen : List Opt) (s : Scanned)
    → decode_byte op xs so ≡ ok s
    → decode_from (op ∷ xs) so seen ≡ decode_from s.rest s.so (seen ++ s.seen)
unfolding decode_loop
decode_from-cons op xs so seen s e = rw e (
    decode_loop-fuel (length xs) (length s.rest) s.rest s.so (seen ++ s.seen)
      (length-decode_byte op xs so s e) (omega arith))
