-- ===== src/WsConnection/Send.antt =====
-- http/wsconnection.cpp: what is sent, and the connection's own events. `mask` is the constant 0 in
-- `sendFrame`, so that no frame is masked and its second branch never runs.
use libtnet.Base.{
  ℕ, zero, suc, ◌+◌, ◌/◌, ◌%◌, ◌^◌, Bool, true, not, [], ◌∷◌, ◌++◌, none, some, ltb, leb,
  if◌then◌else◌, length,
}
use libtnet.Base.Bytes.{Bytes}
use libtnet.WsConnection.{
  WsConnection, FrameStatus, frame_start, open_event, error_event, notified, sent, shut_down,
  send_done, is_text_frame, call,
}

-- The `n` lowest bytes of a number in network order.
unfoldable pub to_be : ℕ → ℕ → Bytes
to_be zero x = []
to_be (suc n) x = x / 256 ^ n % 256 ∷ to_be n x

-- The bytes between the first byte of a frame and its payload.
unfoldable pub length_bytes : ℕ → Bytes
unfolding to_be
length_bytes n =
    if ltb n 126 then n ∷ [] else if leb n 0xFFFF then 126 ∷ to_be 2 n else 127 ∷ to_be 8 n

-- `opcode |= (finalFrame ? 0x80 : 0x00)`
unfoldable pub first_byte : Bool → ℕ → ℕ
first_byte final opcode = if final then opcode % 128 + 128 else opcode

unfoldable pub frame_of : Bool → ℕ → Bytes → Bytes
frame_of final opcode message = first_byte final opcode ∷ (length_bytes (length message) ++ message)

unfoldable pub send_frame : Bool → ℕ → Bytes → WsConnection → WsConnection
unfolding frame_of
send_frame final opcode message s =
    if s.conn_alive then call (sent (frame_of final opcode message)) s else s

unfoldable pub ping : Bytes → WsConnection → WsConnection
unfolding send_frame
ping message s = send_frame true 0x9 message s

unfoldable pub send : Bytes → Bool → WsConnection → WsConnection
unfolding send_frame
send message binary s = send_frame true (if binary then 0x2 else 0x1) message s

pub send_plain : Bytes → WsConnection → WsConnection
unfolding send
send_plain message s = send message (not (is_text_frame s)) s

pub send_with_callback : Bytes → Bool → ℕ → WsConnection → WsConnection
unfolding send
send_with_callback message binary callback s =
    send message binary (record s { send_callback = some callback })

pub send_plain_with_callback : Bytes → ℕ → WsConnection → WsConnection
unfolding send_plain
send_plain_with_callback message callback s =
    send_plain message (record s { send_callback = some callback })

unfoldable pub close : WsConnection → WsConnection
unfolding send_frame
close s = send_frame true 0x8 [] s

pub shut_down_connection : WsConnection → WsConnection
shut_down_connection s = if s.conn_alive then call (shut_down 0) s else s

-- The constructor; `m_status` is not set before `onOpen`, and is an argument here.
unfoldable pub make : FrameStatus → ℕ → ℕ → WsConnection
make status max_payload_len max_reserve = record {
  payload_len = 0;
  status = status;
  masking_key = [];
  final = 0;
  opcode = 0;
  mask = 0;
  last_opcode = 0;
  cache = [];
  app_data = [];
  send_callback = none;
  conn_alive = true;
  max_payload_len = max_payload_len;
  max_reserve = max_reserve;
  log = [];
}

unfoldable pub on_open : WsConnection → WsConnection
on_open s = call (notified open_event []) (record s { status = frame_start })

pub on_error : WsConnection → WsConnection
on_error s = call (notified error_event []) s

-- `Conn_WriteCompleteEvent`: the callback is called once.
unfoldable pub on_write_complete : WsConnection → WsConnection
on_write_complete s = elim s.send_callback [
  | none ↦ s
  | some callback ↦ record (call (send_done callback) s) { send_callback = none }
]
