-- ===== src/WsConnection/Receive.antt =====
-- http/wsconnection.cpp: the payload, the messages made of frames, and the loop of `onRead`.
pub mod Masking
pub mod Handlers
pub mod Turn
pub mod Loop
pub mod Frames
pub mod Heads
pub mod RoundTrip
pub mod LongFrames
pub mod Messages
use libtnet.Base.{
  ℕ, zero, suc, ◌+◌, ◌%◌, bit_xor, Bool, true, false, not, ◌&&◌, List, [], ◌∷◌, ◌++◌, Option, none,
  some, ltb, ◌==◌, if◌then◌else◌, length, drop, get_elem?,
}
use libtnet.Base.Bytes.{Bytes}
use libtnet.Base.Outcome.{Outcome, ret, fault, unfinished, ◌>>=◌}
use libtnet.WsConnection.{
  WsConnection, FrameStatus, frame_start, frame_payload_len, frame_payload_len16,
  frame_payload_len64, frame_masking_key, frame_data, frame_final, frame_error, WsEvent, open_event,
  close_event, message_event, pong_event, error_event, Effect, notified, sent, shut_down, send_done,
  Ret, failed, took, is_final_frame, is_mask_frame, is_control_frame, call, on_frame_start,
  on_frame_payload_len, on_frame_payload_len16, on_frame_payload_len64, try_read,
  on_frame_masking_key,
}
use libtnet.WsConnection.Send.{send_frame}

-- `key[i]`
pub key_at : Bytes → ℕ → ℕ
key_at [] i = 0
key_at (k ∷ ks) zero = k
key_at (k ∷ ks) (suc i) = key_at ks i

-- The loop over the payload from the index `i` on.
pub unmask : Bytes → ℕ → Bytes → Bytes
unfolding key_at
unmask key i [] = []
unmask key i (b ∷ bs) = bit_xor b (key_at key (i % 4)) ∷ unmask key (i + 1) bs

pub take_data : WsConnection × Ret → WsConnection × Ret
unfolding unmask
take_data (s, failed) = (s, failed)
take_data (s, took zero) = (s, took zero)
take_data (s, took (suc n)) = (
  record s {
    cache = if is_mask_frame s then unmask s.masking_key 0 s.cache else s.cache;
    status = frame_final;
  },
  took (suc n),
)

pub on_frame_data : WsConnection → Bytes → Outcome (WsConnection × Ret)
unfolding try_read take_data
on_frame_data s buf = do r ← try_read s.payload_len s buf; ret (take_data r)

pub handle_message : ℕ → Bytes → WsConnection → WsConnection × Ret
unfolding send_frame
handle_message opcode message s =
    if opcode == 1
    then (call (notified message_event message) s, took 0)
    else if opcode == 2
    then (call (notified message_event message) s, took 0)
    else if opcode == 8
    then (call (shut_down 500) (call (notified close_event []) s), took 0)
    else if opcode == 9
    then (send_frame true 0xA message s, took 0)
    else if opcode == 0xA
    then (call (notified pong_event message) s, took 0)
    else (s, failed)

-- What `handleFrameData` makes of the frame: the state, the opcode and the data of the message.
pub data Assembled : Type 0 where
  refused : Assembled
  message : WsConnection → ℕ → Bytes → Assembled

abbrev pub is_empty : Bytes → Bool
is_empty [] = true
is_empty (b ∷ bs) = false

pub assemble : WsConnection → Assembled
assemble s =
    if is_control_frame s
    then if not (is_final_frame s) then refused else message s s.opcode s.cache
    else if s.opcode == 0
    then if is_empty s.app_data
      then refused
      else if is_final_frame s
      then message (record s { app_data = [] }) s.last_opcode (s.app_data ++ s.cache)
      else message (record s { app_data = s.app_data ++ s.cache }) s.opcode s.cache
    else if not (is_empty s.app_data)
    then refused
    else if is_final_frame s
    then message s s.opcode s.cache
    else message (record s { last_opcode = s.opcode; app_data = s.cache }) s.opcode s.cache

-- The end of `handleFrameData`.
pub conclude : WsConnection × Ret → WsConnection × Ret
conclude (s, failed) = (s, failed)
conclude (s, took n) = (record s { status = frame_start }, took 0)

pub finish_frame : WsConnection → Assembled → WsConnection × Ret
unfolding handle_message conclude
finish_frame s refused = (s, failed)
finish_frame s (message s' opcode bytes) =
    let cleared = record s' { cache = [] } in
    if is_final_frame s'
    then conclude (handle_message opcode bytes cleared)
    else conclude (cleared, took 0)

pub handle_frame_data : WsConnection → WsConnection × Ret
unfolding assemble finish_frame
handle_frame_data s = finish_frame s (assemble s)

-- The state, the last `ret`, and the bytes from `data + readLen` on.
pub record Progress : Type 0 where
  pub state : WsConnection
  pub last : Ret
  pub rest : Bytes

-- `readLen += (ret > 0 ? ret : 0)`
abbrev pub advance : Bytes → WsConnection × Ret → Progress
advance buf (s, failed) = record { state = s; last = failed; rest = buf }
advance buf (s, took n) = record { state = s; last = took n; rest = drop n buf }

-- The macro `HANDLE`.
abbrev pub handle :
    (WsConnection → Bytes → Outcome (WsConnection × Ret)) → WsConnection → Bytes → Outcome Progress
handle on s buf = do r ← on s buf; ret (advance buf r)

-- One turn of the `switch`; `none` is its `return -1`. The first case falls through into the
-- second, whatever `onFrameStart` returned.
pub turn : FrameStatus → WsConnection → Bytes → Option (Outcome Progress)
unfolding on_frame_start on_frame_payload_len on_frame_payload_len16 on_frame_payload_len64
    on_frame_masking_key on_frame_data
turn frame_start s buf =
    some (do p ← handle on_frame_start s buf; handle on_frame_payload_len p.state p.rest)
turn frame_payload_len s buf = some (handle on_frame_payload_len s buf)
turn frame_payload_len16 s buf = some (handle on_frame_payload_len16 s buf)
turn frame_payload_len64 s buf = some (handle on_frame_payload_len64 s buf)
turn frame_masking_key s buf = some (handle on_frame_masking_key s buf)
turn frame_data s buf = some (handle on_frame_data s buf)
turn frame_final s buf = some (ret (advance buf (handle_frame_data s)))
turn frame_error s buf = none

-- `readLen < count && ret > 0`
abbrev pub goes_on : Ret → Bytes → Bool
goes_on (took (suc n)) (b ∷ bs) = true
goes_on _ _ = false

-- The `while` loop; the second component is true if it ended in `return -1`.
pub read_loop : ℕ → Progress → Outcome (Progress × Bool)
unfolding turn
read_loop zero p = if goes_on p.last p.rest then fault unfinished else ret (p, false)
read_loop (suc fuel) p = elim (goes_on p.last p.rest) [
  | false ↦ ret (p, false)
  | true ↦ elim (turn p.state.status p.state p.rest) [
    | none ↦ ret (p, true)
    | some next ↦ next >>= read_loop fuel
  ]
]

abbrev pub is_final_status : FrameStatus → Bool
is_final_status frame_final = true
is_final_status _ = false

-- `if (ret > 0 && m_status == FrameFinal)`
pub handle_last : Ret → WsConnection → WsConnection × Ret
handle_last failed s = (s, failed)
handle_last (took n) s =
    if ltb 0 n && is_final_status s.status then handle_frame_data s else (s, took n)

-- `if (ret < 0)`
pub close_on_error : WsConnection × Ret → WsConnection × Ret
close_on_error (s, took n) = (s, took n)
close_on_error (s, failed) = (
  call (shut_down 0) (call (notified error_event []) (record s { status = frame_error })),
  failed,
)

pub finish_read : Progress × Bool → WsConnection × Ret
unfolding handle_last close_on_error
finish_read (p, true) = (p.state, failed)
finish_read (p, false) = close_on_error (handle_last p.last p.state)

-- Six turns are enough: see Receive/Loop.
unfoldable pub on_read : WsConnection → Bytes → Outcome (WsConnection × Ret)
unfolding read_loop finish_read
on_read s buf = do
  end ← read_loop 6 (record { state = s; last = took 1; rest = buf })
  ret (finish_read end)
