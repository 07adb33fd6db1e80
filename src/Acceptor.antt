-- ===== src/Acceptor.antt =====
-- acceptor.h and acceptor.cpp, on Linux: what takes new connections. What the system answers is an
-- argument; a descriptor that is `none` is negative. What is asked of the system, the loop and the
-- program is `log`, in order.
pub mod Examples
pub mod Descriptors
pub mod Listening
use libtnet.Base.{
  ℕ, ◌+◌, Bool, true, false, not, List, [], ◌∷◌, ◌++◌, Option, none, some, ltb, if◌then◌else◌,
}
use libtnet.Base.Outcome.{Outcome, ret, fault, assertion_failed}

pub data Asked : Type 0 where
  -- `open("/dev/null")` and `bindAndListen`, with what they give
  dummy_opened : Option ℕ → Asked
  listened : Option ℕ → Asked
  -- `accept`, with what it gives
  accepted : Option ℕ → Asked
  -- `close`; `none` for a number that is negative
  closed : Option ℕ → Asked
  no_delay_set : ℕ → Asked
  -- `m_callback(loop, fd)`
  given : ℕ → Asked
  watch : ℕ → Asked
  unwatch : ℕ → Asked

pub record Acceptor : Type 0 where
  pub sock_fd : ℕ
  pub dummy_fd : Option ℕ
  pub running : Bool
  pub log : List Asked

abbrev pub ask : Asked → Acceptor → Acceptor
ask a s = record s { log = s.log ++ a ∷ [] }

abbrev pub is_open : Option ℕ → Bool
is_open none = false
is_open (some fd) = ltb 0 fd

-- The argument is what `createDummyFd` gives.
pub make : Option ℕ → Acceptor
make dummy = record {
  sock_fd = 0;
  dummy_fd = dummy;
  running = false;
  log = dummy_opened dummy ∷ [];
}

abbrev pub close_if : Bool → Option ℕ → Acceptor → Acceptor
close_if open_fd fd s = if open_fd then ask (closed fd) s else s

pub destroy : Acceptor → Acceptor
destroy s =
    let sock_closed = close_if (ltb 0 s.sock_fd) (some s.sock_fd) s in
    close_if (is_open s.dummy_fd) s.dummy_fd sock_closed

-- The argument is what `bindAndListen` gives, and the result what the code returns.
pub listen : Option ℕ → Acceptor → Acceptor × Option ℕ
listen none s = (ask (listened none) s, none)
listen (some fd) s = (record (ask (listened (some fd)) s) { sock_fd = fd }, some fd)

pub start : Acceptor → Outcome Acceptor
start s =
    if not (ltb 0 s.sock_fd)
    then fault assertion_failed
    else if s.running
    then ret s
    else ret (ask (watch s.sock_fd) (record s { running = true }))

pub stop : Acceptor → Acceptor
stop s = if not s.running then s else ask (unwatch s.sock_fd) (record s { running = false })

-- What `accept4` gives: a descriptor, `EMFILE` or `ENFILE`, or another error.
pub data Accepted : Type 0 where
  got_fd : ℕ → Accepted
  too_many : Accepted
  failed : Accepted

-- The second and third arguments are what the second `accept` and `open("/dev/null")` give, if the
-- code comes there.
pub on_accept : Accepted → Option ℕ → Option ℕ → Acceptor → Acceptor
on_accept (got_fd fd) second dummy s =
    ask (given fd) (ask (no_delay_set fd) (ask (accepted (some fd)) s))
on_accept too_many second dummy s =
    let freed = close_if (is_open s.dummy_fd) s.dummy_fd s in
    let refused = ask (closed second) (ask (accepted second) freed) in
    record (ask (dummy_opened dummy) refused) { dummy_fd = dummy }
on_accept failed second dummy s = s
