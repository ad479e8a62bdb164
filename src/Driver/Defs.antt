-- ===== src/Driver/Defs.antt =====
-- Replies of `control` and messages, as handler.h, utils.cc and the handlers write them.
use Prim.Native.String.{String}
use gen_utp.Base.{ℕ, List, [], ◌∷◌, ℤ}

-- A text is written out in the source or comes from `erl_errno_id`.
pub data Text : Type 0 where
  lit : String → Text
  errno_id : ℕ → Text

-- One call of a method of `EiEncoder`. `illegal_state` is the text that `sprintf` makes of a status.
pub data Token : Type 0 where
  tuple_header : ℕ → Token
  list_header : ℕ → Token
  empty_list : Token
  atom : Text → Token
  string : List ℕ → Token
  illegal_state : ℕ → Token
  longval : ℤ → Token
  ulongval : ℕ → Token
  binary : List ℕ → Token

-- What `control` returns: the term that `copy_to_binary` passes on, one of the two error codes, or
-- a size of zero.
pub data Reply : Type 0 where
  term : List Token → Reply
  error_badarg : Reply
  error_general : Reply
  nothing : Reply

unfoldable pub encode_atom : String → Reply
encode_atom a = Reply.term (Token.atom (lit a) ∷ [])

abbrev error_term : Text → Reply
error_term t = Reply.term (Token.tuple_header 2 ∷ Token.atom (lit "error") ∷ Token.atom t ∷ [])

-- `encode_error` of a text, and of an errno.
unfoldable pub encode_error : Text → Reply
encode_error t = error_term t

unfoldable pub encode_errno : ℕ → Reply
unfolding encode_error
encode_errno error = encode_error (errno_id error)

-- One entry of an `ErlDrvTermData` array with its operands.
pub data DrvTerm : Type 0 where
  atom : Text → DrvTerm
  port : ℕ → DrvTerm
  ext2term : List ℕ → DrvTerm
  uint : ℕ → DrvTerm
  text : List ℕ → DrvTerm
  buf2binary : List ℕ → DrvTerm
  list : ℕ → DrvTerm
  tuple : ℕ → DrvTerm

-- An `ErlDrvTermData` that names a process, or `driver_term_nil`.
pub data Process : Type 0 where
  nil : Process
  process : ℕ → Process

-- Who a message goes to: `utp_output_term` to the connected process, `utp_send_term` to a process.
pub data Message : Type 0 where
  output : List DrvTerm → Message
  send : Process → List DrvTerm → Message

unfoldable pub not_connected_message : Process → ℕ → ℕ → Message
not_connected_message caller p enotconn = send caller (
    DrvTerm.atom (lit "utp_reply")
    ∷ port p
    ∷ DrvTerm.atom (lit "error")
    ∷ DrvTerm.atom (errno_id enotconn)
    ∷ tuple 2
    ∷ tuple 3
    ∷ [])
