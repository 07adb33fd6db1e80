-- ===== src/Connector.antt =====
-- connector.h and connector.inl: what connects, and passes the events of its connection on. The
-- derived object is `D`, with its handlers as a record; the parameter `told` is the program's
-- `ConnectCallback_t`. Whether the `Connection` is alive is the field `conn_alive`.
pub mod Examples
use libtnet.Base.{Bool, true, false, not, List, [], ◌∷◌, ◌++◌, if◌then◌else◌}
use libtnet.Base.Bytes.{Bytes}
use libtnet.Base.Outcome.{Outcome, ret, ◌>>=◌}
use libtnet.Connection.{
  ConnEvent, connect_event, conn_fail_event, read_event, write_complete_event, error_event,
  close_event,
}

-- `handleRead` and its kin.
pub record Handlers (D : Type 0) : Type 0 where
  pub handle_read : Bytes → D → Outcome D
  pub handle_write_complete : D → Outcome D
  pub handle_error : D → Outcome D
  pub handle_close : D → Outcome D

-- What is set as the callback of the connection: none, `onConnConnectEvent` or `onConnEvent`.
pub data Bound : Type 0 where
  unbound bound_connect bound_events : Bound

-- What is asked of the socket and of the connection.
pub data Asked : Type 0 where
  bound_to_device : Bytes → Asked
  sent : Bytes → Asked
  shut_down_now : Asked

pub record Connector (D : Type 0) : Type 0 where
  pub bound : Bound
  pub conn_alive : Bool
  pub derived : D
  pub log : List Asked

pub make : {D : Type 0} → D → Connector D
make d = record { bound = unbound; conn_alive = false; derived = d; log = [] }

abbrev pub ask : {D : Type 0} → Asked → Connector D → Connector D
ask a c = record c { log = c.log ++ a ∷ [] }

module _ {D : Type 0} where
  pub send : Bytes → Connector D → Connector D
  send bytes c = if c.conn_alive then ask (sent bytes) c else c

  pub shut_down : Connector D → Connector D
  shut_down c = if c.conn_alive then ask shut_down_now c else c

  pub device_bound : Bytes → Connector D → Connector D
  device_bound [] c = c
  device_bound (b ∷ bs) c = ask (bound_to_device (b ∷ bs)) c

  module _ (handlers : Handlers D) (told : Bool → Connector D → Outcome (Connector D)) where
    abbrev with_derived : Connector D → D → Connector D
    with_derived c d = record c { derived = d }

    pub on_conn_connect_event : ConnEvent → Connector D → Outcome (Connector D)
    on_conn_connect_event connect_event c = told true (record c { bound = bound_events })
    on_conn_connect_event _ c = told false c

    pub on_conn_event : ConnEvent → Bytes → Connector D → Outcome (Connector D)
    on_conn_event read_event bytes c = do
      d ← handlers.handle_read bytes c.derived
      ret (with_derived c d)
    on_conn_event write_complete_event bytes c = do
      d ← handlers.handle_write_complete c.derived
      ret (with_derived c d)
    on_conn_event error_event bytes c = do
      d ← handlers.handle_error c.derived
      ret (with_derived c d)
    on_conn_event close_event bytes c = do
      d ← handlers.handle_close c.derived
      ret (with_derived c d)
    on_conn_event _ bytes c = ret c

    -- The call of the callback that is set.
    pub on_event : ConnEvent × Bytes → Connector D → Outcome (Connector D)
    unfolding on_conn_connect_event on_conn_event
    on_event (event, bytes) c = elim c.bound [
      | unbound ↦ ret c
      | bound_connect ↦ on_conn_connect_event event c
      | bound_events ↦ on_conn_event event bytes c
    ]

    pub on_events : List (ConnEvent × Bytes) → Connector D → Outcome (Connector D)
    unfolding on_event
    on_events [] c = ret c
    on_events (e ∷ es) c = do d ← on_event e c; on_events es d

    -- What a `Connection` that is new tells when it connects; `failed` is as in its `connect`.
    pub notice : Bool → ConnEvent
    notice failed = if failed then conn_fail_event else connect_event

    -- The result is whether the code returns 0; `created` is whether there is a socket. Nobody but
    -- the loop keeps the `Connection`, so one that has failed is gone at the end.
    pub connect : Bool → Bool → Bytes → Connector D → Outcome (Connector D × Bool)
    unfolding on_event device_bound notice
    connect created failed device c =
        let begun = record (device_bound device c) { conn_alive = true; bound = bound_connect } in
        if not created then ret (c, false) else (do
          d ← on_event (notice failed, []) begun
          ret (if failed then record d { conn_alive = false } else d, true))
