-- ===== src/Connection.antt =====
-- connection.h and connection.cpp: one TCP connection.
-- The parameter `callback` is the program's event callback, which may use the connection. What the
-- system and the clock answer are arguments; what is asked of the loop and the socket is `log`, in
-- order. Allocation is taken to succeed, and the sizes of buffers to fit an `int`.
pub mod Examples
pub mod Closes
pub mod Closing
pub mod Stream
use libtnet.Base.{
  ℕ, ◌+◌, ◌-◌, Bool, true, false, not, ◌&&◌, List, [], ◌∷◌, ◌++◌, ltb, ◌==◌, if◌then◌else◌, length,
  take, drop, Option, none, some,
}
use libtnet.Base.Bytes.{Bytes}

pub data Status : Type 0 where
  not_open connecting connected disconnecting disconnected : Status

pub data ConnEvent : Type 0 where
  listen_event connect_event conn_fail_event read_event : ConnEvent
  write_complete_event error_event close_event : ConnEvent

-- `TNET_READ`, and `TNET_READ | TNET_WRITE`
pub data Interest : Type 0 where
  for_read for_read_write : Interest

pub data Outside : Type 0 where
  -- `m_loop->addHandler`, `updateHandler` and `removeHandler`
  watch : Interest → Outside
  rewatch : Interest → Outside
  unwatch : Outside
  -- `close(m_fd)`
  closed : Outside
  -- the bytes that `writev` took
  written : Bytes → Outside
  -- `m_loop->runInWheel(after, handleClose)`
  close_after : ℕ → Outside

pub record Connection : Type 0 where
  pub has_callback : Bool
  pub fd : ℕ
  pub status : Status
  pub last_active_time : ℕ
  pub idle_timeout : ℕ
  pub send_buffer : Bytes
  pub log : List Outside

-- What `writev` and `recv` answer; `again` is `EAGAIN` or `EWOULDBLOCK`.
pub data Wrote : Type 0 where
  wrote : ℕ → Wrote
  write_again write_failed : Wrote

pub data Got : Type 0 where
  got : Bytes → Got
  ended read_again read_failed : Got

abbrev pub is_not_open : Status → Bool
is_not_open not_open = true
is_not_open _ = false

abbrev pub is_connected : Status → Bool
is_connected connected = true
is_connected _ = false

abbrev pub is_connecting : Status → Bool
is_connecting connecting = true
is_connecting _ = false

abbrev pub is_disconnected : Status → Bool
is_disconnected disconnected = true
is_disconnected _ = false

-- `isClose`
abbrev pub is_close : Status → Bool
is_close disconnecting = true
is_close disconnected = true
is_close _ = false

abbrev pub is_empty : Bytes → Bool
is_empty [] = true
is_empty (b ∷ bs) = false

pub make : Bool → ℕ → Connection
make has_callback fd = record {
  has_callback = has_callback;
  fd = fd;
  status = not_open;
  last_active_time = 0;
  idle_timeout = 0;
  send_buffer = [];
  log = [];
}

abbrev pub ask : Outside → Connection → Connection
ask o s = record s { log = s.log ++ o ∷ [] }

abbrev pub update_active_time : ℕ → Connection → Connection
update_active_time now s = record s { last_active_time = now }

-- What is left to send after a `writev` that took some of the bytes.
pub left_over : ℕ → Bytes → Bytes → Bytes
left_over n buffer bytes =
    if ltb (length buffer) n then drop (n - length buffer) bytes else drop n buffer ++ bytes

pub disconnect : Connection → Connection × Bool
disconnect s =
    if is_disconnected s.status
    then (s, false)
    else (ask closed (ask unwatch (record s { status = disconnected })), true)

-- The events that the loop reports, each with what the system answers.
pub record Events : Type 0 where
  pub now : ℕ
  pub readable : Option Got
  pub writable : Option (Bool × Wrote)
  pub in_error : Bool

-- All that can happen to a connection.
pub data Input : Type 0 where
  established : ℕ → Input
  connects : ℕ → Bool → Input
  reported : Events → Input
  sends : ℕ → Bytes → Wrote → Input
  shuts_down : ℕ → Input
  wheel_closes : Input

module _ (callback : ConnEvent → Bytes → Connection → Connection) where
  pub notify : ConnEvent → Bytes → Connection → Connection
  notify event bytes s = if s.has_callback then callback event bytes s else s

  pub handle_error : Connection → Connection
  unfolding disconnect notify
  handle_error s = notify error_event [] (disconnect s).0

  pub handle_close : Connection → Connection
  unfolding disconnect notify
  handle_close s = elim (disconnect s).1 [
    | true ↦ notify close_event [] (disconnect s).0
    | false ↦ (disconnect s).0
  ]

  pub shut_down : ℕ → Connection → Connection
  unfolding handle_close
  shut_down after s =
      let s' = record s { status = disconnecting } in
      if is_close s.status
      then s
      else if after == 0
      then handle_close s'
      else ask (close_after after) s'

  -- The end of `handleWrite`, after `writev`.
  pub after_write : ℕ → Bytes → Wrote → Connection → Connection
  unfolding handle_error notify left_over
  after_write now bytes write_failed s = handle_error (record s { send_buffer = [] })
  after_write now bytes write_again s =
      ask (rewatch for_read_write) (record s { send_buffer = s.send_buffer ++ bytes })
  after_write now bytes (wrote n) s =
      let took = ask (written (take n (s.send_buffer ++ bytes))) s in
      if n == length s.send_buffer + length bytes
      then update_active_time now (
          ask (rewatch for_read)
            (notify write_complete_event [] (record took { send_buffer = [] })))
      else ask (rewatch for_read_write)
          (update_active_time now (record took { send_buffer = left_over n s.send_buffer bytes }))

  pub handle_write : ℕ → Bytes → Wrote → Connection → Connection
  unfolding after_write
  handle_write now bytes answer s =
      if not (is_connected s.status)
      then s
      else if is_empty s.send_buffer && is_empty bytes
      then ask (rewatch for_read) s
      else after_write now bytes answer s

  -- `send`; false is its -1.
  pub send : ℕ → Bytes → Wrote → Connection → Connection × Bool
  unfolding handle_write
  send now bytes answer s =
      if not (is_connected s.status) then (s, false) else (handle_write now bytes answer s, true)

  -- The end of `handleRead`, after `recv`.
  pub after_read : ℕ → Got → Connection → Connection
  unfolding handle_error handle_close notify
  after_read now (got bytes) s = notify read_event bytes (update_active_time now s)
  after_read now ended s = handle_close s
  after_read now read_again s = s
  after_read now read_failed s = handle_error s

  pub handle_read : ℕ → Got → Connection → Connection
  unfolding after_read
  handle_read now answer s = if not (is_connected s.status) then s else after_read now answer s

  -- `failed` is whether `getSockError` gives an error.
  pub handle_connect : ℕ → Bool → Connection → Connection
  unfolding handle_error notify
  handle_connect now failed s =
      if not (is_connected s.status)
      then s
      else if failed
      then handle_error s
      else notify connect_event []
          (record (update_active_time now (ask (rewatch for_read) s)) { status = connected })

  abbrev pub watch_fd : Connection → Connection
  watch_fd s = if ltb 0 s.fd then ask (watch for_read) s else s

  pub on_established : ℕ → Connection → Connection
  unfolding notify
  on_established now s =
      if not (is_not_open s.status)
      then s
      else notify listen_event []
          (watch_fd (update_active_time now (record s { status = connected })))

  -- `failed` is whether `SockUtil::connect` is negative.
  pub connect : ℕ → Bool → Connection → Connection
  unfolding notify
  connect now failed s =
      if not (is_not_open s.status)
      then s
      else if failed
      then notify conn_fail_event [] s
      else notify connect_event []
          (watch_fd (update_active_time now (record s { status = connected })))

  pub on_readable : ℕ → Option Got → Connection → Connection
  unfolding handle_read
  on_readable now none s = s
  on_readable now (some answer) s = handle_read now answer s

  pub on_writable : ℕ → Option (Bool × Wrote) → Connection → Connection
  unfolding handle_connect handle_write
  on_writable now none s = s
  on_writable now (some (failed, answer)) s =
      if is_connecting s.status then handle_connect now failed s else handle_write now [] answer s

  pub on_handler : Events → Connection → Connection
  unfolding on_readable on_writable handle_error
  on_handler e s =
      let s' = on_writable e.now e.writable (on_readable e.now e.readable s) in
      if e.in_error then handle_error s' else s'

  pub step : Input → Connection → Connection
  unfolding on_established connect on_handler send shut_down handle_close
  step (established now) s = on_established now s
  step (connects now failed) s = connect now failed s
  step (reported e) s = on_handler e s
  step (sends now bytes answer) s = (send now bytes answer s).0
  step (shuts_down after) s = shut_down after s
  step wheel_closes s = handle_close s

  pub run : List Input → Connection → Connection
  unfolding step
  run [] s = s
  run (i ∷ is) s = run is (step i s)
