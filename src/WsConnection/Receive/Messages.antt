-- ===== src/WsConnection/Receive/Messages.antt =====
-- http/wsconnection.cpp, `handleFrameData`: the messages that frames make.
use libtnet.Base.{
  ℕ, ◌≤◌, ◌<◌, ◌≡◌, refl, sym, ap, ◌∙◌, ◌⊎◌, Bool, true, false, ◌==◌, if◌then◌else◌, List, [], ◌∷◌,
  ◌++◌, append-nil, append_assoc, arith,
}
use libtnet.Base.Bytes.{Bytes}
use libtnet.WsConnection.{
  WsConnection, frame_start, frame_error, Effect, notified, sent, shut_down, message_event,
  pong_event, close_event, Ret, failed, took,
}
use libtnet.WsConnection.Receive.{
  handle_message, assemble, conclude, finish_frame, handle_frame_data, close_on_error,
}
use libtnet.WsConnection.Receive.Heads.{received}
use libtnet.WsConnection.Send.{frame_of, send_frame}

-- What a connection in which no message is under way does with a whole frame: the calls that it
-- makes on the outside.
abbrev pub answer : WsConnection → ℕ → Bytes → List Effect
answer s opcode m =
    if opcode == 8
    then notified close_event [] ∷ shut_down 500 ∷ []
    else if opcode == 9
    then (if s.conn_alive then sent (frame_of true 0xA m) ∷ [] else [])
    else if opcode == 0xA
    then notified pong_event m ∷ []
    else notified message_event m ∷ []

abbrev pub IsKnown : ℕ → Type 0
IsKnown opcode = (opcode ≡ 1) ⊎ ((opcode ≡ 2) ⊎ ((opcode ≡ 8) ⊎ ((opcode ≡ 9) ⊎ (opcode ≡ 10))))

-- A final frame with an opcode of RFC 6455 other than 0, where no message is under way or the frame
-- is a control frame: its one answer is given, the message under way stays as it is, and the
-- connection is ready for the next frame.
pub handle_final :
    (s : WsConnection) (opcode mask : ℕ) (key m : Bytes)
    → IsKnown opcode
    → (s.app_data ≡ []) ⊎ (8 ≤ opcode)
    → let r = close_on_error (handle_frame_data (received s true opcode mask key m)) in
      (r.0.log ≡ s.log ++ answer s opcode m)
      × (r.0.status ≡ frame_start)
      × (r.0.app_data ≡ s.app_data)
      × (r.1 ≡ took 0)
unfolding handle_frame_data assemble finish_frame handle_message conclude close_on_error send_frame
handle_final s opcode mask key m known free = ground (
  arith,
  append-nil s.log,
  append_assoc s.log (notified close_event [] ∷ []) (shut_down 500 ∷ []),
)

-- A whole frame comes in; its mask does not matter here.
abbrev pub process : Bool → ℕ → Bytes → WsConnection → WsConnection × Ret
process final opcode m s =
    close_on_error (handle_frame_data (received s final opcode 0 s.masking_key m))

-- Continuation frames that are not the last.
abbrev pub continue_with : List Bytes → WsConnection → WsConnection
continue_with [] s = s
continue_with (m ∷ ms) s = continue_with ms (process false 0 m s).0

abbrev pub concat : List Bytes → Bytes
concat [] = []
concat (m ∷ ms) = m ++ concat ms

-- What a continuation frame that is not the last does to a message under way.
record Continued (s t : WsConnection) (m : Bytes) : Type 0 where
  log_same : t.log ≡ s.log
  opcode_same : t.last_opcode ≡ s.last_opcode
  grown : t.app_data ≡ s.app_data ++ m

continue_one :
    (s : WsConnection) (b : ℕ) (bs m : Bytes)
    → s.app_data ≡ b ∷ bs
    → Continued s (process false 0 m s).0 m
unfolding handle_frame_data assemble finish_frame conclude close_on_error
continue_one s b bs m e = ground arith

continue_all :
    (s : WsConnection) (ms : List Bytes) (b : ℕ) (bs : Bytes)
    → s.app_data ≡ b ∷ bs
    → Continued s (continue_with ms s) (concat ms)
continue_all s [] b bs e = record {
  log_same = refl;
  opcode_same = refl;
  grown = sym (append-nil s.app_data);
}
continue_all s (m ∷ ms) b bs e =
    let one = continue_one s b bs m e in
    let rest =
      continue_all (process false 0 m s).0 ms b (bs ++ m) (one.grown ∙ ap (λ a. a ++ m) e) in
    record {
      log_same = rest.log_same ∙ one.log_same;
      opcode_same = rest.opcode_same ∙ one.opcode_same;
      grown =
          rest.grown ∙ ap (λ a. a ++ concat ms) one.grown ∙ append_assoc s.app_data m (concat ms);
    }

begin_message :
    (s : WsConnection) (opcode : ℕ) (m : Bytes)
    → 0 < opcode
    → opcode < 8
    → s.app_data ≡ []
    → let t = (process false opcode m s).0 in
      (t.log ≡ s.log) × (t.last_opcode ≡ opcode) × (t.app_data ≡ m)
unfolding handle_frame_data assemble finish_frame conclude close_on_error
begin_message s opcode m p q e = ground arith

end_message :
    (s : WsConnection) (b : ℕ) (bs m : Bytes)
    → (s.last_opcode ≡ 1) ⊎ (s.last_opcode ≡ 2)
    → s.app_data ≡ b ∷ bs
    → let r = process true 0 m s in
      (r.0.log ≡ s.log ++ notified message_event (s.app_data ++ m) ∷ [])
      × (r.0.app_data ≡ [])
      × (r.0.status ≡ frame_start)
unfolding handle_frame_data assemble finish_frame handle_message conclude close_on_error
end_message s b bs m op e = ground arith

-- A text or binary message in fragments: a first frame with a payload that is not empty, any
-- number of continuations, and a final one. The program is told of one message, the payloads in
-- order, at the final frame and not before, and no message is under way then.
pub fragments :
    (s : WsConnection) (opcode b : ℕ) (bs : Bytes) (ms : List Bytes) (last : Bytes)
    → (opcode ≡ 1) ⊎ (opcode ≡ 2)
    → s.app_data ≡ []
    → let t = continue_with ms (process false opcode (b ∷ bs) s).0 in
      let r = process true 0 last t in
      (t.log ≡ s.log)
      × (r.0.log ≡ s.log ++ notified message_event ((b ∷ bs) ++ (concat ms ++ last)) ∷ [])
      × (r.0.app_data ≡ [])
      × (r.0.status ≡ frame_start)
fragments s opcode b bs ms last op e =
    let first = (process false opcode (b ∷ bs) s).0 in
    let (log, op', held) = begin_message s opcode (b ∷ bs) (ground arith) (ground arith) e in
    let c = continue_all first ms b bs held in
    let t = continue_with ms first in
    let all : t.app_data ≡ b ∷ (bs ++ concat ms) = c.grown ∙ ap (λ a. a ++ concat ms) held in
    let same : t.log ≡ s.log = c.log_same ∙ log in
    let (told, done, ready) = end_message t b (bs ++ concat ms) last (ground (arith, c, op')) all in
    (
      same,
      told
          ∙ ap (λ l. l ++ notified message_event (t.app_data ++ last) ∷ []) same
          ∙ ap (λ a. s.log ++ notified message_event (a ++ last) ∷ []) all
          ∙ ap (λ a. s.log ++ notified message_event (b ∷ a) ∷ [])
              (append_assoc bs (concat ms) last),
      done,
      ready,
    )

-- If the first fragment is empty, the connection forgets that a message is under way: every
-- continuation frame is then refused, and the connection shut down.
pub empty_first_fragment :
    (s : WsConnection) (opcode : ℕ) (final : Bool) (m : Bytes)
    → 0 < opcode
    → opcode < 8
    → s.app_data ≡ []
    → let t = (process false opcode [] s).0 in
      let r = process final 0 m t in
      (t.status ≡ frame_start) × (r.1 ≡ failed) × (r.0.status ≡ frame_error)
unfolding handle_frame_data assemble finish_frame conclude close_on_error
empty_first_fragment s opcode final m p q e = ground arith
