-- ===== src/WsConnection.antt =====
-- http/wsconnection.h and http/wsconnection.cpp: the websocket framing of one connection.
-- A buffer `data, count` is the list of its bytes; a read behind it is a fault. The callback of the
-- program and the TCP connection stand outside: `log` holds the calls made on them, in order. They
-- do not write the fields below. `reserve` throws for more bytes than `max_reserve`.
pub mod Examples
pub mod Receive
pub mod Send
use libtnet.Base.{
  ℕ, zero, suc, ◌+◌, ◌-◌, ◌*◌, ◌/◌, ◌%◌, ◌^◌, bit_xor, Bool, true, false, not, ◌&&◌, List, [], ◌∷◌,
  ◌++◌, Option, none, some, ltb, leb, ◌==◌, if◌then◌else◌, length, take, drop, get_elem?,
}
use libtnet.Base.Bytes.{Bytes}
use libtnet.Base.Outcome.{
  Outcome, ret, fault, out_of_bounds, assertion_failed, length_error, unfinished, ◌>>=◌,
}

pub data FrameStatus : Type 0 where
  frame_start frame_payload_len frame_payload_len16 frame_payload_len64 : FrameStatus
  frame_masking_key frame_data frame_final frame_error : FrameStatus

pub data WsEvent : Type 0 where
  open_event close_event message_event pong_event error_event : WsEvent

-- A call on the outside.
pub data Effect : Type 0 where
  -- `m_callback(wconn, event, &data)`; no data is `[]`
  notified : WsEvent → Bytes → Effect
  -- `conn->send(buf)`
  sent : Bytes → Effect
  -- `conn->shutDown(after)`
  shut_down : ℕ → Effect
  -- `m_sendCallback()`
  send_done : ℕ → Effect

pub record WsConnection : Type 0 where
  pub payload_len : ℕ
  pub status : FrameStatus
  pub masking_key : Bytes
  pub final : ℕ
  pub opcode : ℕ
  pub mask : ℕ
  pub last_opcode : ℕ
  pub cache : Bytes
  pub app_data : Bytes
  -- `none` is `dummyCallback`
  pub send_callback : Option ℕ
  -- whether `m_conn.lock()` gives a connection
  pub conn_alive : Bool
  -- `ms_maxPayloadLen`
  pub max_payload_len : ℕ
  -- how many bytes `m_cache.reserve` can give
  pub max_reserve : ℕ
  pub log : List Effect

-- `-1`, or a count of bytes
pub data Ret : Type 0 where
  failed : Ret
  took : ℕ → Ret

-- `c & 0x80`, `c & 0x70`, `c & 0x0f`, `c & 0x7f` of a byte (Base.Bytes.bit_and_byte)
abbrev pub high_bit : ℕ → ℕ
high_bit c = c / 128 * 128

abbrev pub reserved_bits : ℕ → ℕ
reserved_bits c = c / 16 % 8 * 16

abbrev pub low_nibble : ℕ → ℕ
low_nibble c = c % 16

abbrev pub low_bits : ℕ → ℕ
low_bits c = c % 128

abbrev pub is_final_frame : WsConnection → Bool
is_final_frame s = ltb 0 s.final

abbrev pub is_mask_frame : WsConnection → Bool
is_mask_frame s = ltb 0 s.mask

-- `(m_opcode & 0x08) > 0`
abbrev pub is_control_frame : WsConnection → Bool
is_control_frame s = ltb 0 (s.opcode / 8 % 2 * 8)

abbrev pub is_text_frame : WsConnection → Bool
is_text_frame s = if s.opcode == 0 then s.last_opcode == 1 else s.opcode == 1

abbrev pub is_binary_frame : WsConnection → Bool
is_binary_frame s = if s.opcode == 0 then s.last_opcode == 2 else s.opcode == 2

abbrev pub call : Effect → WsConnection → WsConnection
call e s = record s { log = s.log ++ e ∷ [] }

-- A number read from memory on a little-endian machine.
pub from_le : Bytes → ℕ
from_le [] = 0
from_le (b ∷ bs) = b + 256 * from_le bs

-- `ntohs` is `byte_swap 2` and `be64toh` is `byte_swap 8`: the bytes of the number in reverse.
pub byte_swap : ℕ → ℕ → ℕ
byte_swap zero x = 0
byte_swap (suc n) x = x % 256 * 256 ^ n + byte_swap n (x / 256)

-- `onFrameStart` and `onFramePayloadLen` on `data[0]`.
pub start_byte : WsConnection → ℕ → WsConnection × Ret
start_byte s header =
    let s' = record s { cache = [] } in
    if not (reserved_bits header == 0) then (s', failed) else (
      record s' { final = high_bit header; opcode = low_nibble header; status = frame_payload_len },
      took 1,
    )

pub on_frame_start : WsConnection → Bytes → Outcome (WsConnection × Ret)
unfolding start_byte
on_frame_start s [] = fault out_of_bounds
on_frame_start s (header ∷ _) = ret (start_byte s header)

-- The fields that `handleFramePayloadLen` writes.
pub expect_payload : ℕ → WsConnection → WsConnection
expect_payload n s = record s {
  payload_len = n;
  cache = [];
  status =
      if n == 0 then frame_final else if is_mask_frame s then frame_masking_key else frame_data;
}

pub handle_frame_payload_len : ℕ → WsConnection → Outcome WsConnection
unfolding expect_payload
handle_frame_payload_len n s =
    if ltb s.max_reserve n then fault length_error else ret (expect_payload n s)

pub payload_len_byte : WsConnection → ℕ → Outcome (WsConnection × Ret)
unfolding handle_frame_payload_len
payload_len_byte s c =
    let s' = record s { mask = high_bit c } in
    let n = low_bits c in
    if is_control_frame s' && leb 126 n
    then ret (s', failed)
    else if ltb n 126
    then (do t ← handle_frame_payload_len n s'; ret (t, took 1))
    else if n == 126
    then ret (record s' { status = frame_payload_len16 }, took 1)
    else if n == 127
    then ret (record s' { status = frame_payload_len64 }, took 1)
    else ret (s', failed)

pub on_frame_payload_len : WsConnection → Bytes → Outcome (WsConnection × Ret)
unfolding payload_len_byte
on_frame_payload_len s [] = fault out_of_bounds
on_frame_payload_len s (c ∷ _) = payload_len_byte s c

pub try_read : ℕ → WsConnection → Bytes → Outcome (WsConnection × Ret)
try_read n s buf =
    let pending = length s.cache in
    if ltb pending n
    then if ltb (pending + length buf) n
      then ret (record s { cache = s.cache ++ buf }, took 0)
      else ret (record s { cache = s.cache ++ take (n - pending) buf }, took (n - pending))
    else fault assertion_failed

-- What `onFramePayloadLen16` and `onFramePayloadLen64` do with what `tryRead` gave: the length is
-- compared with the limit before its bytes are put in order.
pub take_payload_len : ℕ → WsConnection × Ret → Outcome (WsConnection × Ret)
unfolding from_le byte_swap handle_frame_payload_len
take_payload_len width (s, failed) = ret (s, failed)
take_payload_len width (s, took zero) = ret (s, took zero)
take_payload_len width (s, took (suc n)) =
    let raw = from_le s.cache in
    if ltb s.max_payload_len raw
    then ret (s, failed)
    else (do t ← handle_frame_payload_len (byte_swap width raw) s; ret (t, took (suc n)))

pub on_frame_payload_len16 : WsConnection → Bytes → Outcome (WsConnection × Ret)
unfolding try_read take_payload_len
on_frame_payload_len16 s buf = do r ← try_read 2 s buf; take_payload_len 2 r

pub on_frame_payload_len64 : WsConnection → Bytes → Outcome (WsConnection × Ret)
unfolding try_read take_payload_len
on_frame_payload_len64 s buf = do r ← try_read 8 s buf; take_payload_len 8 r

pub take_masking_key : WsConnection × Ret → WsConnection × Ret
take_masking_key (s, failed) = (s, failed)
take_masking_key (s, took zero) = (s, took zero)
take_masking_key (s, took (suc n)) =
    (record s { masking_key = s.cache; cache = []; status = frame_data }, took (suc n))

pub on_frame_masking_key : WsConnection → Bytes → Outcome (WsConnection × Ret)
unfolding try_read take_masking_key
on_frame_masking_key s buf = do r ← try_read 4 s buf; ret (take_masking_key r)
