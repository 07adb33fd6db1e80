-- ===== src/Address.antt =====
-- address.h and address.cpp: an address of IPv4. `inet_pton` gives the bytes of an address in the
-- order of the network, `host_by_name` is `SockUtil::getHostByName`, `none` for its -1, and
-- `inet_ntop` writes a text that is shorter than 32 bytes. The order of the machine is little-endian.
use libtnet.Base.{
  ℕ, ◌+◌, ◌-◌, ◌*◌, ◌/◌, ◌%◌, ◌<◌, ◌≡◌, Option, none, some, ◌++◌, length, replicate, arith,
}
use libtnet.Base.Bytes.{Bytes}

-- The fields of a `sockaddr_in`, in the order of the network.
pub record Address : Type 0 where
  pub sin_addr : ℕ
  pub sin_port : ℕ

-- `htonl` and `ntohl`, and `htons` and `ntohs`
pub swap_long : ℕ → ℕ
swap_long x =
    x % 256 * 16777216 + x / 256 % 256 * 65536 + x / 65536 % 256 * 256 + x / 16777216 % 256

pub swap_short : ℕ → ℕ
swap_short x = x % 256 * 256 + x / 256 % 256

-- `INADDR_ANY`
abbrev pub inaddr_any : ℕ
inaddr_any = 0

pub make_any : ℕ → Address
unfolding swap_long swap_short
make_any port = record { sin_addr = swap_long inaddr_any; sin_port = swap_short port }

module _ (inet_pton host_by_name : Bytes → Option ℕ) where
  pub make : Bytes → ℕ → Address
  unfolding swap_long swap_short
  make ip port = elim (inet_pton ip) [
    | some addr ↦ record { sin_addr = addr; sin_port = swap_short port }
    | none ↦ elim (host_by_name ip) [
      | some addr ↦ record { sin_addr = addr; sin_port = swap_short port }
      | none ↦ record { sin_addr = swap_long inaddr_any; sin_port = swap_short port }
    ]
  ]

pub ip : Address → ℕ
unfolding swap_long
ip a = swap_long a.sin_addr

pub port : Address → ℕ
unfolding swap_short
port a = swap_short a.sin_port

-- The text has 32 bytes, those behind the address are 0.
pub ipstr : (ℕ → Bytes) → Address → Bytes
ipstr inet_ntop a = let text = inet_ntop a.sin_addr in text ++ replicate (32 - length text) 0

swap_short-swap_short : (x : ℕ) → x < 65536 → swap_short (swap_short x) ≡ x
unfolding swap_short
swap_short-swap_short x h = omega arith

swap_long-swap_long : (x : ℕ) → x < 4294967296 → swap_long (swap_long x) ≡ x
unfolding swap_long
swap_long-swap_long x h = omega arith
