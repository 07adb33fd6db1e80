-- ===== src/WsConnection/Receive/LongFrames.antt =====
-- http/wsconnection.cpp, `onFramePayloadLen64`: what becomes of a length in eight bytes.
use libtnet.Base.{
  ℕ, zero, suc, ◌+◌, ◌*◌, ◌/◌, ◌%◌, ◌^◌, ◌≤◌, ◌<◌, ◌≡◌, ◌≢◌, refl, ap, ◌∙◌, Bool, false, ltb, leb,
  le→ltb, lt→ltb, [], ◌∷◌, ◌++◌, append_assoc, some, arith,
}
use libtnet.Base.Bytes.{Bytes}
use libtnet.Base.Outcome.{Outcome, ret}
use libtnet.WsConnection.{
  WsConnection, frame_start, frame_payload_len64, frame_error, notified, error_event, shut_down,
  Ret, failed, took, is_control_frame, from_le, payload_len_byte, take_payload_len,
  on_frame_payload_len64,
}
use libtnet.WsConnection.Receive.{
  turn, read_loop, handle_last, close_on_error, finish_read, on_read,
}
use libtnet.WsConnection.Receive.Frames.{run, at_loop, headed, run_first, try_read_whole}
use libtnet.WsConnection.Receive.Heads.{first_byte_parts}
use libtnet.WsConnection.Send.{to_be, length_bytes, first_byte}

low_bytes :
    (b3 b4 b5 b6 b7 : ℕ)
    → b3 + 256 * (b4 + 256 * (b5 + 256 * (b6 + 256 * b7))) < 1
    → b3 * 2 ^ 32 + b4 * 2 ^ 24 + b5 * 2 ^ 16 + b6 * 2 ^ 8 + b7 ≡ 0
low_bytes b3 b4 b5 b6 b7 h = omega arith

-- The length in the wrong byte order is 2^24 or more, unless the length is a multiple of 2^40.
swapped_large : (n : ℕ) → n % 2 ^ 40 ≢ 0 → 2 ^ 24 ≤ from_le (to_be 8 n)
unfolding from_le to_be
swapped_large n h = omega arith

length_bytes_64 : (n : ℕ) → 65536 ≤ n → length_bytes n ≡ 127 ∷ to_be 8 n
unfolding length_bytes
length_bytes_64 n l =
    let no_short : ltb n 126 ≡ false = le→ltb n 126 (omega arith) in
    let no_16 : leb n 0xFFFF ≡ false = ground arith in rw no_short (rw no_16)

-- The mark of a length in eight bytes.
mark_64 :
    (s : WsConnection)
    → is_control_frame s ≡ false
    → payload_len_byte s 127 ≡ ret (record s { mask = 0; status = frame_payload_len64 }, took 1)
unfolding payload_len_byte
mark_64 s plain = rw plain

run_failed :
    (fuel : ℕ) (t : WsConnection) (buf : Bytes)
    → run fuel (record { state = t; last = failed; rest = buf }) ≡ ret (close_on_error (t, failed))
unfolding read_loop finish_read handle_last
run_failed zero t buf = refl
run_failed (suc fuel) t buf = refl

-- A turn that fails ends the read.
run_failing_turn :
    (fuel : ℕ) (s : WsConnection) (n b : ℕ) (buf rest : Bytes) (t : WsConnection)
    → turn s.status s (b ∷ buf) ≡ some (ret (record { state = t; last = failed; rest = rest }))
    → run (suc fuel) (at_loop s n (b ∷ buf)) ≡ ret (close_on_error (t, failed))
unfolding read_loop
run_failing_turn fuel s n b buf rest t e = rw (e, read_loop) (run_failed fuel t rest)

refuse_64 :
    (s : WsConnection) (cache : Bytes)
    → s.max_payload_len < from_le cache
    → take_payload_len 8 (record s { cache = cache }, took 8)
      ≡ ret (record s { cache = cache }, failed)
unfolding take_payload_len
refuse_64 s cache l = rw (lt→ltb s.max_payload_len (from_le cache) l)

run_len64_refused :
    (fuel : ℕ) (s : WsConnection) (m n : ℕ) (body : Bytes)
    → s.status ≡ frame_payload_len64
    → s.cache ≡ []
    → s.max_payload_len < from_le (to_be 8 n)
    → run (suc fuel) (at_loop s m (to_be 8 n ++ body))
      ≡ ret (close_on_error (record s { cache = to_be 8 n }, failed))
unfolding turn on_frame_payload_len64 to_be
run_len64_refused fuel s m n body is no_cache l =
    let bytes = to_be 8 n in
    let t = record s { cache = bytes } in
    let went : turn frame_payload_len64 s (bytes ++ body)
        ≡ some (ret (record { state = t; last = failed; rest = bytes ++ body })) =
      rw (try_read_whole s 7 bytes body no_cache refl) (rw (refuse_64 s bytes l)) in
    run_failing_turn fuel s m (n / 256 ^ 7 % 256) _ (bytes ++ body) t
      (ap (λ st. turn st s (bytes ++ body)) is ∙ went)

-- What the two ends see of a failed read.
pub record Failed (s : WsConnection) (o : Outcome (WsConnection × Ret)) : Type 0 where
  pub after : WsConnection
  pub returns : o ≡ ret (after, failed)
  pub in_error : after.status ≡ frame_error
  pub told : after.log ≡ s.log ++ (notified error_event [] ∷ shut_down 0 ∷ [])

-- The head of a data frame as `sendFrame` sends it, for a payload of `n` bytes, 65536 or more, is
-- refused by `onRead` at the start of a frame, when all of the head is in one call, whatever comes
-- behind it: the length is compared with the limit in the wrong byte order. This holds for every
-- limit below 2^24, as the default of 10485760 is, and every length that is not a multiple of 2^40,
-- however small it is against the limit. The connection is shut down.
pub on_read_refuses_long :
    (s : WsConnection) (final : Bool) (opcode n : ℕ) (rest : Bytes)
    → s.status ≡ frame_start
    → opcode < 8
    → 65536 ≤ n
    → n % 2 ^ 40 ≢ 0
    → s.max_payload_len < 2 ^ 24
    → Failed s (on_read s (first_byte final opcode ∷ (length_bytes n ++ rest)))
unfolding on_read close_on_error
on_read_refuses_long s final opcode n rest is op long odd max =
    let b = first_byte final opcode in
    let (good, bit, low) = first_byte_parts final opcode (omega arith) in
    let t = record (headed s b 127) { status = frame_payload_len64; mask = 0 } in
    let plain : is_control_frame (headed s b 127) ≡ false = ground (arith, low) in
    let first =
      run_first 5 s 0 b 127 (to_be 8 n ++ rest) t is good
        (mark_64 (record (headed s b 127) { mask = s.mask }) plain) in
    let second = run_len64_refused 4 t 0 n rest refl refl (omega (arith, swapped_large n odd)) in
    record {
      after = (close_on_error (record t { cache = to_be 8 n }, failed)).0;
      returns = rw (length_bytes_64 n long) (first ∙ second);
      in_error = refl;
      told = append_assoc s.log (notified error_event [] ∷ []) (shut_down 0 ∷ []);
    }
