-- ===== src/WsConnection/Receive/Frames.antt =====
-- http/wsconnection.cpp, `onRead` on the bytes of whole frames.
use libtnet.Base.{
  ltb, ℕ, zero, suc, ◌+◌, ◌*◌, ◌≤◌, ◌<◌, ◌≡◌, refl, ap, ◌∙◌, ◌⊎◌, inl, inr, false, le→ltb,
  if◌then◌else◌, [], ◌∷◌, ◌++◌, some, arith, Bool-cases, length, take, drop, length-append,
  take-append_left, drop-append_left,
}
use libtnet.Base.Bytes.{Bytes, IsByte}
use libtnet.Base.Outcome.{Outcome, ret, ◌>>=◌}
use libtnet.WsConnection.{
  WsConnection, FrameStatus, frame_start, frame_payload_len, frame_payload_len16, frame_masking_key,
  frame_data, frame_final, Ret, failed, took, is_final_frame, is_mask_frame, is_control_frame,
  handle_frame_payload_len, reserved_bits, high_bit, low_nibble, low_bits, start_byte,
  on_frame_start, payload_len_byte, expect_payload, on_frame_payload_len, try_read,
  take_payload_len, on_frame_payload_len16, take_masking_key, on_frame_masking_key, from_le,
  byte_swap,
}
use libtnet.WsConnection.Receive.{
  unmask, take_data, on_frame_data, handle_message, assemble, conclude, finish_frame,
  handle_frame_data, Progress, turn, read_loop, handle_last, close_on_error, finish_read, message,
  refused, Assembled, advance,
}

-- The rest of `onRead` from within its loop.
abbrev pub run : ℕ → Progress → Outcome (WsConnection × Ret)
run fuel p = do e ← read_loop fuel p; ret (finish_read e)

abbrev pub at_loop : WsConnection → ℕ → Bytes → Progress
at_loop s n buf = record { state = s; last = took (suc n); rest = buf }

-- `tryRead` on a buffer that begins with all that is wanted.
pub try_read_whole :
    (s : WsConnection) (k : ℕ) (bs rest : Bytes)
    → s.cache ≡ []
    → length bs ≡ suc k
    → try_read (suc k) s (bs ++ rest) ≡ ret (record s { cache = bs }, took (suc k))
unfolding try_read
try_read_whole s k bs rest e l =
    ground (arith, length-append bs rest, take-append_left bs rest, ap (λ n. take n (bs ++ rest)) l)

drop_whole : (k : ℕ) (bs rest : Bytes) → length bs ≡ suc k → drop (suc k) (bs ++ rest) ≡ rest
drop_whole k bs rest l = rw (← l) (drop-append_left bs rest)

-- What `handleFrameData` returns is -1 or 0.
conclude_zero : (x : WsConnection × Ret) → ((conclude x).1 ≡ failed) ⊎ ((conclude x).1 ≡ took 0)
unfolding conclude
conclude_zero (s, failed) = inl refl
conclude_zero (s, took n) = inr refl

pub frame_data_zero :
    (s : WsConnection) → ((handle_frame_data s).1 ≡ failed) ⊎ ((handle_frame_data s).1 ≡ took 0)
unfolding handle_frame_data finish_frame
frame_data_zero s = go (assemble s)
  where
    go : (a : Assembled) → ((finish_frame s a).1 ≡ failed) ⊎ ((finish_frame s a).1 ≡ took 0)
    go refused = inl refl
    go (message t opcode bytes) = elim (Bool-cases (is_final_frame t)) [
      | inl last ↦ rw last (conclude_zero (handle_message opcode bytes (record t { cache = [] })))
      | inr more ↦ rw more (inr refl)
    ]

-- A frame whose last byte has been read is handled, and the loop then ends: no byte behind the
-- frame is looked at.
pub run_stop :
    (fuel : ℕ) (x : WsConnection × Ret) (buf : Bytes)
    → (x.1 ≡ failed) ⊎ (x.1 ≡ took 0)
    → run fuel (advance buf x) ≡ ret (close_on_error x)
unfolding read_loop finish_read handle_last
run_stop zero (s, failed) buf h = refl
run_stop zero (s, took zero) buf h = refl
run_stop zero (s, took (suc n)) buf h = ground arith
run_stop (suc fuel) (s, failed) buf h = refl
run_stop (suc fuel) (s, took zero) buf h = refl
run_stop (suc fuel) (s, took (suc n)) buf h = ground arith

pub run_final :
    (fuel : ℕ) (s : WsConnection) (n : ℕ) (buf : Bytes)
    → s.status ≡ frame_final
    → run (suc fuel) (at_loop s n buf) ≡ ret (close_on_error (handle_frame_data s))
unfolding read_loop turn finish_read handle_last
run_final fuel s n [] e = ground arith
run_final fuel s n (b ∷ buf) e =
    let t : turn s.status s (b ∷ buf) ≡ some (ret (advance (b ∷ buf) (handle_frame_data s))) =
      ap (λ st. turn st s (b ∷ buf)) e in
    rw (t, read_loop) (run_stop fuel (handle_frame_data s) (b ∷ buf) (frame_data_zero s))

-- A turn that takes bytes and goes on.
pub run-turn :
    (fuel : ℕ) (s : WsConnection) (n : ℕ) (buf rest : Bytes) (st : FrameStatus) (t : WsConnection)
    (k : ℕ)
    → s.status ≡ st
    → 0 < length buf
    → turn st s buf ≡ some (ret (at_loop t k rest))
    → run (suc fuel) (at_loop s n buf) ≡ run fuel (at_loop t k rest)
unfolding read_loop
run-turn fuel s n [] rest st t k e l went = elim l [ ]
run-turn fuel s n (b ∷ buf) rest st t k e l went =
    let w : turn s.status s (b ∷ buf) ≡ some (ret (at_loop t k rest)) =
      ap (λ st. turn st s (b ∷ buf)) e ∙ went in
    rw (w, read_loop)

-- The payload, when it is there as a whole.
pub run_data :
    (fuel : ℕ) (s : WsConnection) (n k : ℕ) (payload rest : Bytes)
    → s.status ≡ frame_data
    → s.cache ≡ []
    → s.payload_len ≡ suc k
    → length payload ≡ suc k
    → run (suc (suc fuel)) (at_loop s n (payload ++ rest))
      ≡ ret (
          close_on_error (
            handle_frame_data (record s {
              cache = if is_mask_frame s then unmask s.masking_key 0 payload else payload;
              status = frame_final;
            })))
unfolding turn on_frame_data take_data
run_data fuel s n k payload rest is no_cache len there =
    let t : WsConnection = record s {
      cache = if is_mask_frame s then unmask s.masking_key 0 payload else payload;
      status = frame_final;
    } in
    let read : try_read s.payload_len s (payload ++ rest)
        ≡ ret (record s { cache = payload }, took (suc k)) =
      ap (λ m. try_read m s (payload ++ rest)) len
      ∙ try_read_whole s k payload rest no_cache there in
    run-turn (suc fuel) s n (payload ++ rest) rest frame_data t k is
      (omega (arith, length-append payload rest))
      (rw (read) (ap (λ r. some (ret (at_loop t k r))) (drop_whole k payload rest there)))
    ∙ run_final fuel t k rest refl

-- The masking key.
pub run_key :
    (fuel : ℕ) (s : WsConnection) (n : ℕ) (key rest : Bytes)
    → s.status ≡ frame_masking_key
    → s.cache ≡ []
    → length key ≡ 4
    → run (suc fuel) (at_loop s n (key ++ rest))
      ≡ run fuel (at_loop (record s { masking_key = key; cache = []; status = frame_data }) 3 rest)
unfolding turn on_frame_masking_key take_masking_key
run_key fuel s n key rest is no_cache four =
    let t = record s { masking_key = key; cache = []; status = frame_data } in
    run-turn fuel s n (key ++ rest) rest frame_masking_key t 3 is
      (omega (arith, length-append key rest))
      (rw (try_read_whole s 3 key rest no_cache four)
        (ap (λ r. some (ret (at_loop t 3 r))) (drop_whole 3 key rest four)))

-- The state after the first byte, and after the mask bit of the second.
abbrev pub headed : WsConnection → ℕ → ℕ → WsConnection
headed s b c = record s {
  cache = [];
  final = high_bit b;
  opcode = low_nibble b;
  mask = high_bit c;
  status = frame_payload_len;
}

-- The first two bytes.
pub run_first :
    (fuel : ℕ) (s : WsConnection) (n b c : ℕ) (rest : Bytes) (t : WsConnection)
    → s.status ≡ frame_start
    → reserved_bits b ≡ 0
    → payload_len_byte (record (headed s b c) { mask = s.mask }) c ≡ ret (t, took 1)
    → run (suc fuel) (at_loop s n (b ∷ c ∷ rest)) ≡ run fuel (at_loop t 0 rest)
unfolding turn on_frame_start start_byte on_frame_payload_len
run_first fuel s n b c rest t is good e =
    run-turn fuel s n (b ∷ c ∷ rest) rest frame_start t 0 is (omega arith) (rw good (rw e))

-- A length below 126.
pub short_byte :
    (s : WsConnection) (c n : ℕ)
    → low_bits c ≡ n
    → n < 126
    → 65535 ≤ s.max_reserve
    → payload_len_byte s c ≡ ret (expect_payload n (record s { mask = high_bit c }), took 1)
unfolding payload_len_byte handle_frame_payload_len
short_byte s c n e l has =
    let fits : ltb s.max_reserve n ≡ false = le→ltb s.max_reserve n (omega arith) in
    rw e (rw fits (ground arith))

-- The mark of a length in two bytes.
pub long_byte :
    (s : WsConnection) (c : ℕ)
    → low_bits c ≡ 126
    → is_control_frame s ≡ false
    → payload_len_byte s c
      ≡ ret (record s { mask = high_bit c; status = frame_payload_len16 }, took 1)
unfolding payload_len_byte
long_byte s c e plain = rw e (ground arith)

swap_two :
    (hi lo : ℕ) → IsByte hi → IsByte lo → byte_swap 2 (from_le (hi ∷ lo ∷ [])) ≡ hi * 256 + lo
unfolding byte_swap from_le
swap_two hi lo p q = omega arith

-- A length in two bytes.
take16 :
    (s : WsConnection) (hi lo : ℕ)
    → IsByte hi
    → IsByte lo
    → 65535 ≤ s.max_payload_len
    → 65535 ≤ s.max_reserve
    → take_payload_len 2 (record s { cache = hi ∷ lo ∷ [] }, took 2)
      ≡ ret (expect_payload (hi * 256 + lo) s, took 2)
unfolding take_payload_len handle_frame_payload_len expect_payload
take16 s hi lo p q max has =
    let n = hi * 256 + lo in
    let fits : ltb s.max_reserve n ≡ false = le→ltb s.max_reserve n (omega arith) in
    let allowed =
      le→ltb s.max_payload_len (from_le (hi ∷ lo ∷ [])) (unfold from_le in omega arith) in
    rw (swap_two hi lo p q) (rw allowed (rw fits refl))

pub run_len16 :
    (fuel : ℕ) (s : WsConnection) (n hi lo : ℕ) (rest : Bytes)
    → s.status ≡ frame_payload_len16
    → s.cache ≡ []
    → IsByte hi
    → IsByte lo
    → 65535 ≤ s.max_payload_len
    → 65535 ≤ s.max_reserve
    → run (suc fuel) (at_loop s n (hi ∷ lo ∷ rest))
      ≡ run fuel (at_loop (expect_payload (hi * 256 + lo) s) 1 rest)
unfolding turn on_frame_payload_len16
run_len16 fuel s n hi lo rest is no_cache p q max has =
    let t = expect_payload (hi * 256 + lo) s in
    run-turn fuel s n (hi ∷ lo ∷ rest) rest frame_payload_len16 t 1 is (omega arith)
      (rw (try_read_whole s 1 (hi ∷ lo ∷ []) rest no_cache refl) (rw (take16 s hi lo p q max has)))
