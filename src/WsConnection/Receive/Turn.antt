-- ===== src/WsConnection/Receive/Turn.antt =====
-- http/wsconnection.cpp, `onRead`: one turn of the loop.
use libtnet.Base.{
  ℕ, ◌<◌, ◌≡◌, ◌≢◌, refl, ◌∙◌, ◌⊎◌, inl, true, false, [], ◌∷◌, some, Option, if◌then◌else◌, sym,
  arith, ℕ_discrete, ◌==◌, ap,
}
use libtnet.Base.Bytes.{Bytes}
use libtnet.Base.Outcome.{Outcome, ret, fault, length_error, ◌>>=◌}
use libtnet.WsConnection.{
  WsConnection, FrameStatus, frame_start, frame_payload_len, frame_payload_len16,
  frame_payload_len64, frame_masking_key, frame_data, frame_final, frame_error, Ret, failed, took,
  reserved_bits, high_bit, low_nibble, low_bits, start_byte, on_frame_start, on_frame_payload_len,
  on_frame_payload_len16, on_frame_payload_len64, on_frame_masking_key,
}
use libtnet.WsConnection.Receive.{on_frame_data, handle_frame_data, Progress, turn, advance, handle}
use libtnet.WsConnection.Receive.Handlers.{
  ReadyIn, rank, Fine, FineHandle, handled_fine, throws, HasRoom, payload_len_byte-Fine,
  payload_len16-Fine, payload_len64-Fine, masking_key-Fine, data-Fine, frame_data-Fine,
}

-- A first byte that comes alone, with no reserved bit set.
abbrev pub Lone : WsConnection → Bytes → Type 0
Lone s (b ∷ []) = (s.status ≡ frame_start) × (reserved_bits b ≡ 0)
Lone s _ = ⊥

-- The byte that is taken for the length at the start of a frame: the second, or the first when
-- `onFrameStart` has refused it.
abbrev pub length_byte : Bytes → ℕ
length_byte [] = 0
length_byte (b ∷ []) = b
length_byte (b ∷ c ∷ buf) = if reserved_bits b == 0 then c else b

-- The bytes are read as a length of eight bytes.
abbrev pub Wide : WsConnection → Bytes → Type 0
Wide s buf =
    (s.status ≡ frame_payload_len64)
    ⊎ ((s.status ≡ frame_start) × (low_bits (length_byte buf) ≡ 127))

-- One turn: it leaves something fine, or throws.
pub data Turned (r : ℕ) (s : WsConnection) (buf : Bytes) (o : Option (Outcome Progress))
    : Type 0 where
  turned_fine :
      (p : Progress)
      → o ≡ some (ret p)
      → Fine r (p.state, p.last)
      → (s.status ≡ frame_start
          → p.state.status ≡ frame_payload_len64
          → low_bits (length_byte buf) ≡ 127)
      → (s.status ≡ frame_start → HasRoom p.state)
      → Turned r s buf o
  turn_throws : Wide s buf → o ≡ some (fault length_error) → Turned r s buf o

advance-Fine :
    (r : ℕ) (buf : Bytes) (x : WsConnection × Ret)
    → Fine r x
    → Fine r ((advance buf x).state, (advance buf x).last)
advance-Fine r buf (s, failed) f = f
advance-Fine r buf (s, took n) f = f

advance-state : (buf : Bytes) (x : WsConnection × Ret) → (advance buf x).state ≡ x.0
advance-state buf (s, failed) = refl
advance-state buf (s, took n) = refl

-- A turn that is one handler, not at the start of a frame.
handled :
    (may : Type 0) (r : ℕ) (on : WsConnection → Bytes → Outcome (WsConnection × Ret))
    (s : WsConnection) (buf : Bytes)
    → s.status ≢ frame_start
    → (may → Wide s buf)
    → FineHandle may r (on s buf)
    → Turned r s buf (some (handle on s buf))
handled may r on s buf later wide f = elim f [
  | handled_fine x e fine ↦
      turned_fine (advance buf x) (ap (λ o. some (o >>= λ y. ret (advance buf y))) e)
        (advance-Fine r buf x fine) (λ start. absurd (later start)) (λ start. absurd (later start))
  | throws m e ↦ turn_throws (wide m) (ap (λ o. some (o >>= λ y. ret (advance buf y))) e)
]

-- The second case of the `switch`, reached from the first in a state `t`: the byte `c` is the
-- length.
length_turn :
    (s t : WsConnection) (buf more : Bytes) (c : ℕ)
    → t.cache ≡ []
    → t.status ≢ frame_payload_len64
    → HasRoom t
    → length_byte buf ≡ c
    → Turned 5 s buf (some (handle on_frame_payload_len t (c ∷ more)))
unfolding on_frame_payload_len
length_turn s t buf more c e not_wide has is =
    let (x, returns, fine, marks, same) = payload_len_byte-Fine t c e not_wide has in
    let st = advance-state (c ∷ more) x in
    turned_fine (advance (c ∷ more) x)
      (ap (λ o. some (o >>= λ y. ret (advance (c ∷ more) y))) returns)
      (advance-Fine 5 (c ∷ more) x fine)
      (λ start wide. rw is (marks (sym (ap (λ (u : WsConnection). u.status) st) ∙ wide)))
      (λ start. rw (st, same) has)

-- The first case of the `switch`, when `onFrameStart` fails: the same byte is read as a length.
start_refused :
    (s : WsConnection) (b : ℕ) (buf : Bytes)
    → s.status ≡ frame_start
    → HasRoom s
    → reserved_bits b ≢ 0
    → Turned 5 s (b ∷ buf) (turn frame_start s (b ∷ buf))
unfolding turn on_frame_start start_byte
start_refused s b buf is has bad =
    let no_zero : (reserved_bits b == 0) ≡ false = ground arith in
    rw no_zero
      (length_turn s (record s { cache = [] }) (b ∷ buf) buf b refl (λ h. cc) has (first_byte buf))
  where
    first_byte : (buf : Bytes) → length_byte (b ∷ buf) ≡ b
    first_byte [] = refl
    first_byte (c ∷ buf) = ground arith

-- The same, when `onFrameStart` succeeds and a second byte is there.
start_accepted :
    (s : WsConnection) (b c : ℕ) (buf : Bytes)
    → HasRoom s
    → reserved_bits b ≡ 0
    → Turned 5 s (b ∷ c ∷ buf) (turn frame_start s (b ∷ c ∷ buf))
unfolding turn on_frame_start start_byte
start_accepted s b c buf has good =
    let t = record s {
      cache = [];
      final = high_bit b;
      opcode = low_nibble b;
      status = frame_payload_len;
    } in
    let zero_bits : (reserved_bits b == 0) ≡ true = ground arith in
    rw zero_bits (length_turn s t (b ∷ c ∷ buf) buf c refl (λ h. cc) has (rw zero_bits refl))

pub turn-Fine :
    (st : FrameStatus) (s : WsConnection) (b : ℕ) (buf : Bytes)
    → s.status ≡ st
    → ReadyIn st s
    → st ≢ frame_error
    → ¬ Lone s (b ∷ buf)
    → (3 < rank st → HasRoom s)
    → Turned (rank st) s (b ∷ buf) (turn st s (b ∷ buf))
unfolding turn
turn-Fine frame_start s b [] is r e alone has =
    start_refused s b [] is (has (omega arith)) (λ z. alone (is, z))
turn-Fine frame_start s b (c ∷ buf) is r e alone has = elim (ℕ_discrete (reserved_bits b) 0) [
  | yes good ↦ start_accepted s b c buf (has (omega arith)) good
  | no bad ↦ start_refused s b (c ∷ buf) is (has (omega arith)) bad
]
turn-Fine frame_payload_len s b buf is r e alone has = absurd r
turn-Fine frame_payload_len16 s b buf is r e alone has =
    handled ⊥ 4 on_frame_payload_len16 s (b ∷ buf) (λ h. cc) (λ m. absurd m)
      (payload_len16-Fine s (b ∷ buf) is r (has (omega arith)))
turn-Fine frame_payload_len64 s b buf is r e alone has =
    handled Unit 4 on_frame_payload_len64 s (b ∷ buf) (λ h. cc) (λ m. inl is)
      (payload_len64-Fine s (b ∷ buf) is r)
turn-Fine frame_masking_key s b buf is r e alone has =
    handled ⊥ 3 on_frame_masking_key s (b ∷ buf) (λ h. cc) (λ m. absurd m)
      (masking_key-Fine s (b ∷ buf) is r.0 r.1)
turn-Fine frame_data s b buf is r e alone has =
    handled ⊥ 2 on_frame_data s (b ∷ buf) (λ h. cc) (λ m. absurd m) (data-Fine s (b ∷ buf) is r)
turn-Fine frame_final s b buf is r e alone has =
    turned_fine (advance (b ∷ buf) (handle_frame_data s)) refl
      (advance-Fine 1 (b ∷ buf) (handle_frame_data s) (frame_data-Fine s)) (λ h. cc) (λ h. cc)
turn-Fine frame_error s b buf is r e alone has = absurd (e refl)
