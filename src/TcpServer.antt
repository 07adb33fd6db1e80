-- ===== src/TcpServer.antt =====
-- tcpserver.h and tcpserver.cpp: the connections of a server, and the check of those that are idle.
-- `callback` is the callback of the program's connections, `now` what the clock says, and `drawn` what
-- `random` gives. Acceptors are numbers; what is asked of them, of the loop, the signaler and the
-- process, and the start and the stop of the wheel, is `log`, in order. The wheel itself is an
-- argument of what adds to it. A loop is there when the server runs.
pub mod Examples
pub mod Idle
use libtnet.Base.{
  ℕ, ◌+◌, ◌-◌, ◌*◌, ◌/◌, ◌%◌, ◌^◌, Bool, true, false, not, ◌||◌, ◌&&◌, leb, List, [], ◌∷◌, ◌++◌,
  Option, none, some, ltb, ◌==◌, if◌then◌else◌,
}
use libtnet.Base.Bytes.{Bytes}
use libtnet.Base.Outcome.{Outcome, ret, fault, divided_by_zero, out_of_bounds, ◌>>=◌}
use libtnet.Connection as Connection
use libtnet.Connection.{Connection, ConnEvent, is_close, on_established}
use libtnet.TimingWheel as Wheel
use libtnet.TimingWheel.{TimingWheel, push_at}

pub data Asked : Type 0 where
  acceptor_started : ℕ → Asked
  acceptor_stopped : ℕ → Asked
  signaler_started : Asked
  signaler_stopped : Asked
  wheel_started : Asked
  wheel_stopped : Asked
  process_waits : ℕ → Asked
  process_stopped : Asked
  -- `addCallback(onRun)`, `start` and `stop` of the loop
  run_added : Asked
  loop_started : Asked
  loop_stopped : Asked
  run_callback_called : Asked

pub record TcpServer : Type 0 where
  pub running : Bool
  pub has_process : Bool
  pub has_run_callback : Bool
  pub acceptors : List ℕ
  pub max_idle_timeout : ℕ
  pub log : List Asked

abbrev pub default_idle_timeout : ℕ
default_idle_timeout = 30

pub make : TcpServer
make = record {
  running = false;
  has_process = false;
  has_run_callback = false;
  acceptors = [];
  max_idle_timeout = default_idle_timeout;
  log = [];
}

abbrev pub ask : Asked → TcpServer → TcpServer
ask a s = record s { log = s.log ++ a ∷ [] }

abbrev pub ask_all : List Asked → TcpServer → TcpServer
ask_all asked s = record s { log = s.log ++ asked }

-- The first argument is whether the acceptor listens.
pub listen : Bool → ℕ → TcpServer → TcpServer × Bool
listen listens acceptor s =
    if listens then (record s { acceptors = s.acceptors ++ acceptor ∷ [] }, true) else (s, false)

pub set_max_idle_timeout : ℕ → TcpServer → TcpServer
set_max_idle_timeout timeout s = record s { max_idle_timeout = timeout }

pub set_run_callback : TcpServer → TcpServer
set_run_callback s = record s { has_run_callback = true }

pub run : TcpServer → TcpServer
run s =
    if s.running then s else ask_all (run_added ∷ loop_started ∷ []) (record s { running = true })

abbrev pub start_acceptors : List ℕ → List Asked
start_acceptors [] = []
start_acceptors (a ∷ rest) = acceptor_started a ∷ start_acceptors rest

abbrev pub stop_acceptors : List ℕ → List Asked
stop_acceptors [] = []
stop_acceptors (a ∷ rest) = acceptor_stopped a ∷ stop_acceptors rest

pub on_run : TcpServer → TcpServer
on_run s =
    let started =
      ask_all (signaler_started ∷ wheel_started ∷ []) (ask_all (start_acceptors s.acceptors) s) in
    if s.has_run_callback then ask run_callback_called started else started

pub start : ℕ → TcpServer → TcpServer
unfolding run
start max_process s =
    if ltb 1 max_process
    then ask (process_waits max_process) (record s { has_process = true })
    else run s

pub on_stop : TcpServer → TcpServer
on_stop s =
    if s.running
    then ask loop_stopped (
        ask_all (stop_acceptors s.acceptors)
          (ask_all (wheel_stopped ∷ signaler_stopped ∷ []) (record s { running = false })))
    else s

pub stop : TcpServer → TcpServer
unfolding on_stop
stop s = on_stop (if s.has_process then ask process_stopped s else s)

-- `SIGINT` and `SIGTERM`
pub on_signal : ℕ → TcpServer → TcpServer
unfolding on_stop
on_signal signum s = if signum == 2 || signum == 15 then on_stop s else s

-- `m_idleWheel`, as `onRun` makes it. Its handlers are numbers of connections, as the weak pointers
-- are that the functions are bound to. The flag is what `m_running` is found as.
pub idle_wheel : Bool → TimingWheel ℕ
unfolding Wheel.make Wheel.start
idle_wheel running = Wheel.start (Wheel.make running 1000 3600)

-- `(int)(timeout * 1000)`, before its sign is read: 2^31 and more is negative.
pub wheel_timeout : ℕ → ℕ
wheel_timeout seconds = seconds * 1000 % 2 ^ 32

-- The end of `TimingWheel::add`, with the bucket that is found.
pub put_in : ℕ → ℕ → TimingWheel ℕ → TimingWheel ℕ
put_in bucket conn w =
    if w.ontimer && bucket == w.next_bucket
    then record w { curbucket = w.curbucket ++ some conn ∷ [] }
    else record w { buckets = push_at w.buckets bucket (some conn) }

-- `TimingWheel::add` with the timeout `- before`: the remainder of a negative number is not
-- positive, and is no bucket unless it is 0.
pub add_before : ℕ → ℕ → TimingWheel ℕ → Outcome (TimingWheel ℕ)
unfolding put_in
add_before before conn w =
    let back = before / w.interval in
    if leb back w.next_bucket
    then ret (put_in ((w.next_bucket - back) % w.max_buckets) conn w)
    else if (back - w.next_bucket) % w.max_buckets == 0
    then ret (put_in 0 conn w)
    else fault out_of_bounds

pub add_idle_conn_check : ℕ → ℕ → TimingWheel ℕ → Outcome (TimingWheel ℕ)
unfolding wheel_timeout add_before Wheel.add
add_idle_conn_check conn seconds w =
    let timeout = wheel_timeout seconds in
    if ltb timeout (2 ^ 31)
    then ret (Wheel.add (some conn) timeout w).0
    else add_before (2 ^ 32 - timeout) conn w

-- The seconds until the first check of a new connection.
pub first_check : ℕ → ℕ → Outcome ℕ
first_check drawn max_idle_timeout =
    if max_idle_timeout / 2 == 0
    then fault divided_by_zero
    else ret (max_idle_timeout / 2 + drawn % (max_idle_timeout / 2))

abbrev pub idle_timeout_of : ℕ → Connection → ℕ
idle_timeout_of max_idle_timeout c =
    if c.idle_timeout == 0 then max_idle_timeout else c.idle_timeout

-- `conn` is the number of the connection.
module _ (callback : ConnEvent → Bytes → Connection → Connection) (conn : ℕ) where
  pub on_new_connection :
      ℕ → ℕ → TcpServer → TimingWheel ℕ → Connection → Connection × Outcome (TimingWheel ℕ)
  unfolding first_check add_idle_conn_check
  on_new_connection now drawn s w c = (
    on_established callback now c,
    do seconds ← first_check drawn s.max_idle_timeout; add_idle_conn_check conn seconds w,
  )

  -- On a connection that is still there; the difference is of 64 bits.
  pub check_idle : ℕ → TcpServer → TimingWheel ℕ → Connection → Connection × Outcome (TimingWheel ℕ)
  unfolding add_idle_conn_check
  check_idle now s w c =
      let idle = idle_timeout_of s.max_idle_timeout c in
      let diff = (now + 2 ^ 64 - c.last_active_time) % 2 ^ 64 in
      if is_close c.status
      then (c, ret w)
      else if ltb idle diff
      then (Connection.shut_down callback 0 c, ret w)
      else (c, add_idle_conn_check conn (idle - diff) w)

  -- `none` is a connection that is no more.
  pub on_idle_conn_check :
      ℕ
      → TcpServer
      → TimingWheel ℕ
      → Option Connection
      → Option Connection × Outcome (TimingWheel ℕ)
  unfolding check_idle
  on_idle_conn_check now s w none = (none, ret w)
  on_idle_conn_check now s w (some c) = let (d, v) = check_idle now s w c in (some d, v)
