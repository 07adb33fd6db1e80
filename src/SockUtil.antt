-- ===== src/SockUtil.antt =====
-- sockutil.h and sockutil.cpp, on Linux: sockets. What the system answers is an argument, and `log`
-- is what is asked of it, in order. A number of the system that is `none` stands for success, and
-- `some e` for the error e, which is not 0.
pub mod Examples
pub mod Tries
use libtnet.Base.{
  ℕ, zero, suc, ◌+◌, ◌-◌, ◌^◌, Bool, true, false, not, List, [], ◌∷◌, ◌++◌, Option, none, some, leb,
  ◌==◌, if◌then◌else◌,
}
use libtnet.Base.Bytes.{Bytes}
use libtnet.Base.Int.{ℤ, pos, negsuc}
use libtnet.Base.Outcome.{Outcome, ret, fault, unfinished}
use libtnet.Address.{Address}
use libtnet.Address

pub data Asked : Type 0 where
  -- the options, by whether they are switched on
  no_delay_set : ℕ → Bool → Asked
  reuseable_set : ℕ → Bool → Asked
  keep_alive_set : ℕ → Bool → Asked
  bound : ℕ → Asked
  listened : ℕ → Asked
  closed : ℕ → Asked
  slept : Asked

-- What `socket` gives is what `create` returns.
pub create : ℤ → ℤ
create fd = fd

pub set_no_delay : ℕ → Bool → List Asked
set_no_delay fd on = no_delay_set fd on ∷ []

pub set_reuseable : ℕ → Bool → List Asked
set_reuseable fd on = reuseable_set fd on ∷ []

pub set_keep_alive : ℕ → Bool → List Asked
set_keep_alive fd on = keep_alive_set fd on ∷ []

-- With what `socket`, `bind` and `listen` answer.
unfoldable pub bind_and_listen : ℤ → Option ℕ → Option ℕ → ℤ × List Asked
unfolding create set_reuseable
bind_and_listen socket bind_error listen_error = elim (create socket) [
  | negsuc n ↦ (negsuc n, [])
  | pos fd ↦
      let asked = set_reuseable fd true ++ bound fd ∷ [] in
      elim bind_error [
        | some e ↦ (pos e, asked ++ closed fd ∷ [])
        | none ↦ elim listen_error [
          | some e ↦ (pos e, asked ++ listened fd ∷ closed fd ∷ [])
          | none ↦ (pos fd, asked ++ listened fd ∷ [])
        ]
      ]
]

-- What one call of `::connect` answers: it has connected, or is connected, or is under way
-- (`EINPROGRESS`, `EWOULDBLOCK` or `EALREADY`), or fails.
pub data Answer : Type 0 where
  connected is_connected under_way connect_failed : Answer

-- The loop of `connect`, in which `answers` gives what the calls answer; the result is whether the
-- code returns 0.
pub connect_rounds : (ℕ → Answer) → ℕ → ℕ → ℕ → List Asked → Outcome (Bool × List Asked)
unfolding set_no_delay
connect_rounds answers fd zero tries log = fault unfinished
connect_rounds answers fd (suc fuel) tries log =
    let again = connect_rounds answers fd fuel (suc tries) (log ++ slept ∷ []) in
    elim (answers tries) [
      | connected ↦ ret (true, log ++ set_no_delay fd true)
      | is_connected ↦ ret (true, log)
      | under_way ↦ if leb (suc tries) 5 then again else ret (false, log)
      | connect_failed ↦ ret (false, log)
    ]

pub connect : (ℕ → Answer) → ℕ → Outcome (Bool × List Asked)
unfolding connect_rounds
connect answers fd = connect_rounds answers fd 6 0 []

-- `getsockname` and `getpeername` give an address or an error; the number is what the code returns.
pub get_local_addr : ℕ × Address → Address → ℕ × Address
get_local_addr (zero, found) addr = (0, found)
get_local_addr (suc e, found) addr = (suc e, addr)

pub get_remote_addr : ℕ × Address → Address → ℕ × Address
get_remote_addr (zero, found) addr = (0, found)
get_remote_addr (suc e, found) addr = (suc e, addr)

-- `getsockopt` fails with an error, or gives the one of the socket.
pub get_sock_error : Option ℕ → ℕ → ℕ
get_sock_error none opt = opt
get_sock_error (some e) opt = e

-- What `getaddrinfo` answers is an error, or the addresses.
pub get_host_by_name : Option (List ℕ) → ℕ
get_host_by_name none = 2 ^ 32 - 1
get_host_by_name (some []) = 2 ^ 32 - 1
get_host_by_name (some (addr ∷ addrs)) = addr

-- What the constructor of `Address` takes it for.
abbrev known : ℕ → Option ℕ
known addr = if addr == 2 ^ 32 - 1 then none else some addr

pub address_of : (Bytes → Option ℕ) → (Bytes → Option (List ℕ)) → Bytes → ℕ → Address
unfolding get_host_by_name
address_of inet_pton getaddrinfo host =
    Address.make inet_pton (λ name. known (get_host_by_name (getaddrinfo name))) host

-- Whether the code returns 0; the arguments are whether `ioctl` and `bind` succeed.
pub bind_device : Bool → Bool → Bool
bind_device found bound_to_it = if not found then false else bound_to_it
