-- ===== src/WsConnection/Receive/RoundTrip.antt =====
-- http/wsconnection.cpp: `onRead` on what `sendFrame` sends, and on the masked frames of a client.
use libtnet.Base.{
  ℕ, zero, suc, ◌+◌, ◌%◌, ◌≤◌, ◌<◌, ◌≡◌, refl, sym, ap, ◌∙◌, inl, inr, Bool, [], ◌∷◌, ◌++◌,
  append_assoc, arith, length,
}
use libtnet.Base.Bytes.{Bytes, IsByte, AreBytes, bit_xor_cancel}
use libtnet.Base.Outcome.{ret}
use libtnet.WsConnection.{WsConnection, frame_start, frame_data, expect_payload}
use libtnet.WsConnection.Receive.{key_at, unmask, handle_frame_data, close_on_error, on_read}
use libtnet.WsConnection.Receive.Frames.{run, at_loop, run_final, run_data, run_key}
use libtnet.WsConnection.Receive.Masking.{masked, unmask-eq-masked}
use libtnet.WsConnection.Send.{length_bytes, first_byte, frame_of}
use libtnet.WsConnection.Receive.Heads.{
  flag, flag_zero, AllowedLength, body_state, head_read, received,
}

key_at-IsByte : (key : Bytes) (i : ℕ) → AreBytes key → IsByte (key_at key i)
unfolding key_at
key_at-IsByte [] i h = omega arith
key_at-IsByte (k ∷ ks) zero h = h.0
key_at-IsByte (k ∷ ks) (suc i) h = key_at-IsByte ks i h.1

-- Unmasking is masking again.
pub unmask-unmask :
    (key : Bytes) (i : ℕ) (bs : Bytes)
    → AreBytes key
    → AreBytes bs
    → unmask key i (unmask key i bs) ≡ bs
unfolding unmask
unmask-unmask key i [] hk hb = refl
unmask-unmask key i (b ∷ bs) hk hb =
    rw (bit_xor_cancel b (key_at key (i % 4)) hb.0 (key_at-IsByte key (i % 4) hk))
      (ap (◌∷◌ b) (unmask-unmask key (i + 1) bs hk hb.1))

pub length-unmask : (key : Bytes) (i : ℕ) (bs : Bytes) → length (unmask key i bs) ≡ length bs
unfolding unmask
length-unmask key i [] = refl
length-unmask key i (b ∷ bs) = ap suc (length-unmask key (i + 1) bs)

-- The frame that a client sends: masked under the four bytes of `key`.
pub client_frame : Bool → ℕ → Bytes → Bytes → Bytes
client_frame final opcode key message =
    first_byte final opcode
    ∷ (flag 128 (length_bytes (length message)) ++ (key ++ masked key message))

plain_body :
    (fuel j : ℕ) (s : WsConnection) (final : Bool) (opcode : ℕ) (payload rest : Bytes)
    → run
        (suc (suc (suc (suc fuel))))
        (at_loop (body_state s final opcode 0 (length payload)) j (payload ++ rest))
      ≡ ret (close_on_error (handle_frame_data (received s final opcode 0 s.masking_key payload)))
unfolding expect_payload
plain_body fuel j s final opcode [] rest =
    run_final (suc (suc (suc fuel))) (body_state s final opcode 0 0) j rest refl
plain_body fuel j s final opcode (b ∷ bs) rest =
    run_data (suc (suc fuel)) (body_state s final opcode 0 (length (b ∷ bs))) j (length bs) (b ∷ bs)
      rest (ground arith) refl refl refl

masked_body :
    (fuel j : ℕ) (s : WsConnection) (final : Bool) (opcode : ℕ) (key payload rest : Bytes)
    → length key ≡ 4
    → AreBytes key
    → AreBytes payload
    → 0 < length payload
    → run (suc (suc (suc (suc fuel)))) (
        at_loop
          (body_state s final opcode 128 (length payload))
          j
          (key ++ (unmask key 0 payload ++ rest)))
      ≡ ret (close_on_error (handle_frame_data (received s final opcode 128 key payload)))
unfolding expect_payload
masked_body fuel j s final opcode key [] rest four hk hb some_data = elim some_data [ ]
masked_body fuel j s final opcode key (b ∷ bs) rest four hk hb some_data =
    let payload = b ∷ bs in
    let t = body_state s final opcode 128 (length payload) in
    let u = record t { masking_key = key; cache = []; status = frame_data } in
    run_key (suc (suc (suc fuel))) t j key (unmask key 0 payload ++ rest) (ground arith) refl four
    ∙ run_data (suc fuel) u 3 (length bs) (unmask key 0 payload) rest refl refl refl
        (length-unmask key 0 payload)
    ∙ ap
        (λ m. ret (
          close_on_error
            (handle_frame_data (record (received s final opcode 128 key payload) { cache = m }))))
        (unmask-unmask key 0 payload hk hb)

module _ (s : WsConnection) (final : Bool) (opcode : ℕ) (message rest : Bytes)
    (is : s.status ≡ frame_start) (op : opcode < 16)
    (allowed : AllowedLength opcode (length message)) (max : 65535 ≤ s.max_payload_len)
    (has : 65535 ≤ s.max_reserve) where
  -- A frame as `sendFrame` sends it, of at most 65535 bytes, and below 126 for a control opcode, at
  -- the start of a frame, whose bytes are all in one call of `onRead`: it is handled with its final
  -- bit, its opcode and its payload as they were sent. The limit on payloads is 65535 or more, and
  -- `reserve` can give 65535 bytes. The bytes that came with it, `rest`, are dropped.
  pub on_read-frame_of :
      on_read s (frame_of final opcode message ++ rest)
      ≡ ret (close_on_error (handle_frame_data (received s final opcode 0 s.masking_key message)))
  unfolding on_read frame_of
  on_read-frame_of =
      let h =
        head_read s final opcode 0 (length message) (message ++ rest) is op (inl refl) allowed max
          has in
      rw (append_assoc (length_bytes (length message)) message rest) (
        rw (← flag_zero (length_bytes (length message)))
          (h.goes ∙ plain_body h.fuel h.took_more s final opcode message rest))

  -- A masked frame as a client sends it, of at most 65535 bytes, and below 126 for a control opcode,
  -- with a payload that is not empty, masked with a key of four bytes, at the start of a frame, whose
  -- bytes are all in one call of `onRead`: it is handled with its final bit, its opcode and its
  -- payload unmasked. The limit on payloads is 65535 or more, and `reserve` can give 65535 bytes. The
  -- bytes that came with it, `rest`, are dropped.
  pub on_read-client_frame :
      (key : Bytes)
      → length key ≡ 4
      → AreBytes key
      → AreBytes message
      → 0 < length message
      → on_read s (client_frame final opcode key message ++ rest)
        ≡ ret (close_on_error (handle_frame_data (received s final opcode 128 key message)))
  unfolding on_read client_frame
  on_read-client_frame key four hk hb some_data =
      let body = unmask key 0 message in
      let same : masked key message ≡ body = sym (unmask-eq-masked key message four) in
      let h =
        head_read s final opcode 128 (length message) (key ++ (body ++ rest)) is op (inr refl)
          allowed max has in
      rw same (
        rw (append_assoc (flag 128 (length_bytes (length message))) (key ++ body) rest) (
          rw (append_assoc key body rest) (
            h.goes
            ∙ masked_body h.fuel h.took_more s final opcode key message rest four hk hb some_data)))
