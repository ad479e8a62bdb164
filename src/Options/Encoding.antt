-- ===== src/Options/Encoding.antt =====
-- src/gen_utp.erl, `options_to_binary`, and the record `utp_options` of gen_utp_opts.hrl: the other
-- end of `SockOpts::decode`.
use gen_utp.Base.{
  ℕ, ◌/◌, ◌%◌, ◌^◌, ◌<◌, ◌≢◌, Bool, true, Option, some, none, List, [], ◌∷◌, ◌++◌, length, ℤ,
  minus_one, to_int32,
}
use gen_utp.Options.Defs.{
  Active, active_false, active_once, active_true, DeliveryMode, data_list, data_binary, SockOpts,
  inet6_addrstrlen, Opt, ip_opt, port_opt, list_opt, binary_opt, inet6_opt, send_tmout_opt,
  send_tmout_infinite_opt, active_opt, packet_opt, header_opt, sndbuf_opt, recbuf_opt,
}

pub data Family : Type 0 where
  inet inet6 : Family

pub data Timeout : Type 0 where
  infinity : Timeout
  millis : ℕ → Timeout

-- The values `false`, `once` and `true` of the option.
pub data UtpActive : Type 0 where
  passive once always : UtpActive

-- `none` for `undefined`.
pub record UtpOptions : Type 0 where
  pub mode : Option DeliveryMode
  pub ip : Option (List ℕ)
  pub port : Option ℕ
  pub family : Option Family
  pub send_tmout : Option Timeout
  pub active : Option UtpActive
  pub packet : Option ℕ
  pub header : Option ℕ
  pub sndbuf : Option ℕ
  pub recbuf : Option ℕ

-- `N:16/big` and `N:32/big`
abbrev pub big16 : ℕ → List ℕ → List ℕ
big16 n rest = (n / 256 % 256) ∷ n % 256 ∷ rest

abbrev pub big32 : ℕ → List ℕ → List ℕ
big32 n rest = (n / 2 ^ 24 % 256) ∷ (n / 2 ^ 16 % 256) ∷ (n / 256 % 256) ∷ n % 256 ∷ rest

abbrev pub mode_bytes : Option DeliveryMode → List ℕ
mode_bytes none = []
mode_bytes (some data_list) = 3 ∷ []
mode_bytes (some data_binary) = 4 ∷ []

abbrev pub family_bytes : Option Family → List ℕ
family_bytes none = []
family_bytes (some inet) = []
family_bytes (some inet6) = 7 ∷ []

abbrev pub ip_bytes : Option (List ℕ) → List ℕ
ip_bytes none = []
ip_bytes (some addr_str) = 1 ∷ addr_str ++ 0 ∷ []

abbrev pub port_bytes : Option ℕ → List ℕ
port_bytes none = []
port_bytes (some n) = 2 ∷ big16 n []

abbrev pub send_tmout_bytes : Option Timeout → List ℕ
send_tmout_bytes none = []
send_tmout_bytes (some infinity) = 9 ∷ []
send_tmout_bytes (some (millis tm)) = 8 ∷ big32 tm []

abbrev pub active_bytes : Option UtpActive → List ℕ
active_bytes none = []
active_bytes (some passive) = 10 ∷ 0 ∷ []
active_bytes (some once) = 10 ∷ 1 ∷ []
active_bytes (some always) = 10 ∷ 2 ∷ []

abbrev pub packet_bytes : Option ℕ → List ℕ
packet_bytes none = []
packet_bytes (some val) = 11 ∷ val % 256 ∷ []

abbrev pub header_bytes : Option ℕ → List ℕ
header_bytes none = []
header_bytes (some hdr_size) = 12 ∷ big16 hdr_size []

abbrev pub sndbuf_bytes : Option ℕ → List ℕ
sndbuf_bytes none = []
sndbuf_bytes (some n) = 13 ∷ big32 n []

abbrev pub recbuf_bytes : Option ℕ → List ℕ
recbuf_bytes none = []
recbuf_bytes (some n) = 14 ∷ big32 n []

unfoldable pub options_to_binary : UtpOptions → List ℕ
options_to_binary o =
    mode_bytes o.mode
    ++ (family_bytes o.family
        ++ (ip_bytes o.ip
            ++ (port_bytes o.port
                ++ (send_tmout_bytes o.send_tmout
                    ++ (active_bytes o.active
                        ++ (packet_bytes o.packet
                            ++ (header_bytes o.header
                                ++ (sndbuf_bytes o.sndbuf ++ (recbuf_bytes o.recbuf ++ [])))))))))

-- What `gen_utp_opts:validate` and the widths of the fields allow.
abbrev pub Each {ℓ κ} : {A : Type ℓ} → (A → Type κ) → Option A → Type κ
Each P none = Unit
Each P (some a) = P a

abbrev pub NoZero : List ℕ → Type 0
NoZero [] = Unit {0}
NoZero (c ∷ s) = (c ≢ 0) × NoZero s

abbrev pub FitsTimeout : Timeout → Type 0
FitsTimeout infinity = Unit {0}
FitsTimeout (millis tm) = tm < 2 ^ 32

pub record Fits (o : UtpOptions) : Type 0 where
  pub ip : Each (λ s. NoZero s × (length s < inet6_addrstrlen)) o.ip
  pub port : Each (λ n. n < 2 ^ 16) o.port
  pub send_tmout : Each FitsTimeout o.send_tmout
  pub packet : Each (λ n. n < 256) o.packet
  pub header : Each (λ n. n < 2 ^ 16) o.header
  pub sndbuf : Each (λ n. n < 2 ^ 32) o.sndbuf
  pub recbuf : Each (λ n. n < 2 ^ 32) o.recbuf

-- The value of an option that is given, or the one that stood.
abbrev pub given {ℓ κ} : {A : Type ℓ} {B : Type κ} → (A → B) → Option A → B → B
given f none b = b
given f (some a) b = f a

abbrev pub is_given {ℓ} : {A : Type ℓ} → Option A → Bool → Bool
is_given none b = b
is_given (some a) b = true

abbrev pub is_inet6 : Family → Bool → Bool
is_inet6 inet b = b
is_inet6 inet6 b = true

abbrev pub timeout_of : Timeout → ℤ
timeout_of infinity = minus_one
timeout_of (millis tm) = ℤ.pos tm

abbrev pub active_of : UtpActive → Active
active_of passive = active_false
active_of once = active_once
active_of always = active_true

-- The options that the record asks for, over those that stood.
abbrev pub with_mode : Option DeliveryMode → SockOpts → SockOpts
with_mode v so = record so { delivery_mode = given (λ m. m) v so.delivery_mode }

abbrev pub with_family : Option Family → SockOpts → SockOpts
with_family v so = record so { inet6 = given (λ f. is_inet6 f so.inet6) v so.inet6 }

abbrev pub with_ip : Option (List ℕ) → SockOpts → SockOpts
with_ip v so = record so {
  addrstr = given (λ s. s) v so.addrstr;
  addr_set = is_given v so.addr_set;
}

abbrev pub with_port : Option ℕ → SockOpts → SockOpts
with_port v so = record so { port = given (λ n. n) v so.port }

abbrev pub with_send_tmout : Option Timeout → SockOpts → SockOpts
with_send_tmout v so = record so { send_tmout = given timeout_of v so.send_tmout }

abbrev pub with_active : Option UtpActive → SockOpts → SockOpts
with_active v so = record so { active = given active_of v so.active }

abbrev pub with_packet : Option ℕ → SockOpts → SockOpts
with_packet v so = record so { packet = given (λ n. n) v so.packet }

abbrev pub with_header : Option ℕ → SockOpts → SockOpts
with_header v so = record so { header = given (λ n. n) v so.header }

abbrev pub with_sndbuf : Option ℕ → SockOpts → SockOpts
with_sndbuf v so = record so { sndbuf = given to_int32 v so.sndbuf }

abbrev pub with_recbuf : Option ℕ → SockOpts → SockOpts
with_recbuf v so = record so { recbuf = given to_int32 v so.recbuf }

abbrev pub requested : UtpOptions → SockOpts → SockOpts
requested o so = record {
  addr = so.addr;
  addrstr = given (λ s. s) o.ip so.addrstr;
  send_tmout = given timeout_of o.send_tmout so.send_tmout;
  active = given active_of o.active so.active;
  fd = so.fd;
  header = given (λ n. n) o.header so.header;
  sndbuf = given to_int32 o.sndbuf so.sndbuf;
  recbuf = given to_int32 o.recbuf so.recbuf;
  port = given (λ n. n) o.port so.port;
  delivery_mode = given (λ m. m) o.mode so.delivery_mode;
  packet = given (λ n. n) o.packet so.packet;
  inet6 = given (λ f. is_inet6 f so.inet6) o.family so.inet6;
  addr_set = is_given o.ip so.addr_set;
}

abbrev pub mode_tag : Option DeliveryMode → List Opt
mode_tag none = []
mode_tag (some data_list) = list_opt ∷ []
mode_tag (some data_binary) = binary_opt ∷ []

abbrev pub family_tag : Option Family → List Opt
family_tag none = []
family_tag (some inet) = []
family_tag (some inet6) = inet6_opt ∷ []

abbrev pub timeout_tag : Option Timeout → List Opt
timeout_tag none = []
timeout_tag (some infinity) = send_tmout_infinite_opt ∷ []
timeout_tag (some (millis tm)) = send_tmout_opt ∷ []

abbrev pub tag {ℓ} : {A : Type ℓ} → Opt → Option A → List Opt
tag t none = []
tag t (some a) = t ∷ []

-- The options that the driver sees, in the order of the binary.
abbrev pub tags : UtpOptions → List Opt
tags o =
    mode_tag o.mode
    ++ (family_tag o.family
        ++ (tag ip_opt o.ip
            ++ (tag port_opt o.port
                ++ (timeout_tag o.send_tmout
                    ++ (tag active_opt o.active
                        ++ (tag packet_opt o.packet
                            ++ (tag header_opt o.header
                                ++ (tag sndbuf_opt o.sndbuf
                                    ++ (tag recbuf_opt o.recbuf ++ [])))))))))
