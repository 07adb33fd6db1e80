-- ===== src/Poller.antt =====
-- poller.h and poller.cpp: what waits for descriptors, on Linux. What `epoll_ctl` and `epoll_wait`
-- answer are arguments; what is asked of `epoll_ctl` is `log`, in order. The handlers of the program
-- are numbers: the parameter `script` says what each does to the loop, with what is ready. `called`
-- is which were called, in order.
pub mod Examples
pub mod Rounds
use libtnet.Base.{
  ℕ, suc, ◌+◌, ◌*◌, bit_and, Bool, true, false, not, ◌&&◌, ◌||◌, List, [], ◌∷◌, ◌++◌, Option, none,
  some, ltb, ◌==◌, if◌then◌else◌, length,
}
use libtnet.Base.Outcome.{Outcome, ret, fault, assertion_failed}
use libtnet.IoLoop.{IoLoop, IoEvent, entry}

-- `TNET_READ` and `TNET_WRITE`
abbrev pub tnet_read : ℕ
tnet_read = 1

abbrev pub tnet_write : ℕ
tnet_write = 2

-- `EPOLLIN` and `EPOLLOUT` of what is asked for, and the flags of what is ready.
pub record Interest : Type 0 where
  pub wants_in : Bool
  pub wants_out : Bool

pub record Ready : Type 0 where
  pub is_in : Bool
  pub is_out : Bool
  pub is_err : Bool
  pub is_hup : Bool
  pub is_rdhup : Bool

pub data Asked : Type 0 where
  ctl_added : ℕ → Interest → Asked
  ctl_modified : ℕ → Interest → Asked
  ctl_deleted : ℕ → Asked
  -- `close(m_fd)`
  fd_closed : Asked

pub record Poller : Type 0 where
  pub fd : ℕ
  pub event_size : ℕ
  pub log : List Asked

abbrev pub default_event_size : ℕ
default_event_size = 1024

abbrev pub max_event_size : ℕ
max_event_size = 10240

-- On the descriptor that `epoll_create1` gives.
pub make : ℕ → Poller
make fd = record { fd = fd; event_size = default_event_size; log = [] }

abbrev pub ask : Asked → Poller → Poller
ask a p = record p { log = p.log ++ a ∷ [] }

pub destroy : Poller → Poller
destroy p = if ltb 0 p.fd then ask fd_closed p else p

abbrev pub has : ℕ → ℕ → Bool
has events bit = not (bit_and events bit == 0)

pub interest : ℕ → Interest
interest events = record { wants_in = has events tnet_read; wants_out = has events tnet_write }

-- The result is whether the code returns 0; the first arguments are the answers of `epoll_ctl`.
pub add : Bool → Bool → ℕ → ℕ → Poller → Poller × Bool
unfolding interest
add added modified fd events p =
    let asked = ask (ctl_added fd (interest events)) p in
    if added then (asked, true) else (ask (ctl_modified fd (interest events)) asked, modified)

pub update : Bool → ℕ → ℕ → Poller → Outcome (Poller × Bool)
unfolding interest
update modified fd events p =
    if not (ltb 0 p.fd)
    then fault assertion_failed
    else ret (ask (ctl_modified fd (interest events)) p, modified)

pub remove : ℕ → Poller → Poller
remove fd p = if ltb 0 p.fd then ask (ctl_deleted fd) p else p

-- `got`, of what is ready.
pub got_read : Ready → Bool
got_read r = r.is_in || r.is_err || r.is_hup || r.is_rdhup

pub got_write : Ready → Bool
got_write r = r.is_out || r.is_err || r.is_hup

pub got : Ready → ℕ
unfolding got_read got_write
got r = (if got_write r then tnet_write else 0) + (if got_read r then tnet_read else 0)

-- `got & ~want`
pub unwanted : Ready → ℕ → Bool
unfolding got_read got_write
unwanted r want =
    (got_write r && not (has want tnet_write)) || (got_read r && not (has want tnet_read))

pub adjusted : ℕ → ℕ → Poller → Poller
unfolding interest
adjusted fd want p =
    if want == 0 then ask (ctl_deleted fd) p else ask (ctl_modified fd (interest want)) p

-- The call of a handler, with what it is given.
pub record Called : Type 0 where
  pub fd : ℕ
  pub handler : ℕ
  pub events : ℕ

pub record Round : Type 0 where
  pub poller : Poller
  pub loop : IoLoop
  pub called : List Called

module _ (script : ℕ → ℕ → IoLoop → IoLoop) where
  pub call_handler : ℕ → IoEvent → Ready → Round → Round
  unfolding got
  call_handler fd io r s = record s {
    loop = script io.handler (got r) s.loop;
    called = s.called ++ record { fd = fd; handler = io.handler; events = got r } ∷ [];
  }

  -- One event; `accepted` is what `epoll_ctl` answers, if it is asked.
  pub on_ready : ℕ → Ready → Bool → Round → Round
  unfolding call_handler unwanted adjusted
  on_ready fd r accepted s = elim (entry s.loop.events fd) [
    | none ↦ s
    | some io ↦
        let changed = record s { poller = adjusted fd io.events s.poller } in
        let called = call_handler fd io r s in
        let after_change = call_handler fd io r changed in
        if unwanted r io.events then (if accepted then after_change else changed) else called
  ]

  pub on_all : List (ℕ × (Ready × Bool)) → Round → Round
  unfolding on_ready
  on_all [] s = s
  on_all ((fd, (r, accepted)) ∷ rs) s = on_all rs (on_ready fd r accepted s)

  -- The buffer doubles when it was full.
  pub grown : ℕ → ℕ → ℕ
  grown ready size =
      if (ready == size) && not (size == max_event_size)
      then (if ltb max_event_size (size * 2) then max_event_size else size * 2)
      else size

  -- `none` is a failure of `epoll_wait`; the result is what the code returns, `none` for -1.
  pub poll : Option (List (ℕ × (Ready × Bool))) → Round → Round × Option ℕ
  unfolding on_all grown
  poll none s = (s, none)
  poll (some rs) s =
      let t = on_all rs s in
      let size = grown (length rs) t.poller.event_size in
      (record t { poller = record t.poller { event_size = size } }, some (length rs))
