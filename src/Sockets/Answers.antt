-- ===== src/Sockets/Answers.antt =====
-- socket_handler.cc: the replies of `setopts`, `getopts` and `sockname`, and of the texts that utils.cc makes.
use gen_utp.Base.{
  ℕ, refl, Option, none, some, List, [], length, ltb, Result, ok, err, invalid_argument,
  bad_sock_addr, socket_failure, ei_error, fault, Leaves, bind-Leaves, either-Leaves,
}
use gen_utp.Address.{SockAddr, GetAddrInfo, GetNameInfo, encode, encode_result, to_addrport}
use gen_utp.Coder.Defs.{Ei}
use gen_utp.Coder.Arguments.{binary_argument}
use gen_utp.Driver.Defs.{Text, Reply, encode_atom, encode_error, encode_errno}
use gen_utp.Driver.Queue.{DrvQueue}
use gen_utp.Driver.Shape.{pending, IsReply}
use gen_utp.Options.Defs.{SockOpts, decode_and_merge}
use gen_utp.Reading.Defs.{Socket, connected_receiver, emit_read_buffer}
use gen_utp.Sockets.Defs.{
  Answer, sockname, getopts, getopts_of, sends_after, apply_opts, merged, setopts,
}
use gen_utp.Sockets.Replies.{getopts_of-IsReply}

pub encode_error-IsReply : (t : Text) → IsReply (encode_error t)
unfolding encode_error pending
encode_error-IsReply t = refl

pub encode_errno-IsReply : (e : ℕ) → IsReply (encode_errno e)
unfolding encode_errno encode_error pending
encode_errno-IsReply e = refl

encode_result-IsReply : (errno : ℕ) (r : Result (List ℕ × ℕ)) → IsReply (encode_result errno r)
unfolding pending
encode_result-IsReply errno (ok (addrstr, port)) = refl
encode_result-IsReply errno (err e) = encode_errno-IsReply errno

pub encode-IsReply : (g : GetNameInfo) (errno : ℕ) (sa : SockAddr) → IsReply (encode g errno sa)
unfolding encode
encode-IsReply g errno sa = encode_result-IsReply errno (to_addrport g sa)

pub sockname-IsReply :
    (g : GetNameInfo) (errno : ℕ) (sa : Option SockAddr) (failed : ℕ)
    → IsReply (sockname g errno sa failed)
unfolding sockname
sockname-IsReply g errno none failed = encode_errno-IsReply failed
sockname-IsReply g errno (some sa) failed = encode-IsReply g errno sa

pub getopts-IsReply :
    (ei : Ei) (buf : List ℕ) (len : ℕ) (so : SockOpts) → IsReply (getopts ei buf len so)
unfolding getopts
getopts-IsReply ei buf len so =
    elim (binary_argument ei buf len)
      as (λ r. IsReply (elim r [ ok names ↦ getopts_of names so | err e ↦ Reply.error_badarg ])) [
        | ok names ↦ getopts_of-IsReply names so
        | err e ↦ tt
      ]

module _ (d : DrvQueue) where
  open d use {Queue}

  abbrev pub Answers : Answer Queue → Type 0
  Answers a = IsReply a.reply

  apply_opts-Answers : (so : SockOpts) (s : Socket Queue) → Leaves Answers (apply_opts d so s)
  unfolding apply_opts encode_atom pending
  apply_opts-Answers so s =
      either-Leaves Answers (sends_after s.sockopts.active so.active (ltb 0 (length s.read_count)))
        _ _
        (bind-Leaves Answers
          (emit_read_buffer d 0 connected_receiver 0 (record s { sockopts = so })) _ (λ e q. refl))
        refl

  merged-Answers : (r : Result SockOpts) (s : Socket Queue) → Leaves Answers (merged d r s)
  unfolding merged
  merged-Answers (ok so) s = apply_opts-Answers so s
  merged-Answers (err invalid_argument) s = tt
  merged-Answers (err bad_sock_addr) s = tt
  merged-Answers (err socket_failure) s = tt
  merged-Answers (err ei_error) s = tt
  merged-Answers (err fault) s = tt

  pub setopts-Answers :
      (ei : Ei) (g : GetAddrInfo) (buf : List ℕ) (len : ℕ) (s : Socket Queue)
      → Leaves Answers (setopts d ei g buf len s)
  unfolding setopts
  setopts-Answers ei g buf len s =
      elim (binary_argument ei buf len)
        as (λ r. Leaves Answers (elim r [
          | ok bin ↦ merged d (decode_and_merge g bin s.sockopts) s
          | err e ↦ ok (record { sock = s; messages = []; reply = Reply.error_badarg })
        ])) [ ok bin ↦ merged-Answers (decode_and_merge g bin s.sockopts) s | err e ↦ tt ]
