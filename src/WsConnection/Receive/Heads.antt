-- ===== src/WsConnection/Receive/Heads.antt =====
-- http/wsconnection.cpp: `onRead` on the head of a frame that `sendFrame` or a client sends.
use libtnet.Base.{
  ℕ, suc, ◌+◌, ◌*◌, ◌/◌, ◌%◌, ◌≤◌, ◌<◌, ◌≡◌, refl, ap, ◌∙◌, ◌⊎◌, Bool, true, false, le→ltb, le→leb,
  if◌then◌else◌, [], ◌∷◌, ◌++◌, arith, length, dec_lt,
}
use libtnet.Base.Bytes.{Bytes}
use libtnet.Base.Outcome.{ret}
use libtnet.WsConnection.{
  WsConnection, frame_start, frame_payload_len16, frame_final, took, is_control_frame,
  reserved_bits, high_bit, low_nibble, expect_payload,
}
use libtnet.WsConnection.Receive.Frames.{
  run, at_loop, headed, run_first, short_byte, long_byte, run_len16,
}
use libtnet.WsConnection.Send.{to_be, length_bytes, first_byte}

-- The length with the mask bit in its first byte.
abbrev pub flag : ℕ → Bytes → Bytes
flag mask [] = []
flag mask (b ∷ bs) = (b + mask) ∷ bs

pub flag_zero : (bs : Bytes) → flag 0 bs ≡ bs
flag_zero [] = refl
flag_zero (b ∷ bs) = let e : b + 0 ≡ b = omega arith in rw e

abbrev pub final_bit : Bool → ℕ
final_bit final = if final then 128 else 0

pub first_byte_parts :
    (final : Bool) (opcode : ℕ)
    → opcode < 16
    → let b = first_byte final opcode in
      (reserved_bits b ≡ 0) × (high_bit b ≡ final_bit final) × (low_nibble b ≡ opcode)
unfolding first_byte
first_byte_parts true opcode l = omega arith
first_byte_parts false opcode l = omega arith

-- The head of a frame has been read: what is left is its body, in state `t`.
pub record Headed (s : WsConnection) (buf body : Bytes) (t : WsConnection) : Type 0 where
  pub fuel : ℕ
  pub took_more : ℕ
  pub goes : run 6 (at_loop s 0 buf) ≡ run (suc (suc (suc (suc fuel)))) (at_loop t took_more body)

-- A control frame is short.
abbrev pub AllowedLength : ℕ → ℕ → Type 0
AllowedLength opcode n = ((opcode < 8) × (n ≤ 65535)) ⊎ (n < 126)

-- The state in which the body is read.
abbrev pub body_state : WsConnection → Bool → ℕ → ℕ → ℕ → WsConnection
body_state s final opcode mask n =
    expect_payload n (record s { final = final_bit final; opcode = opcode; mask = mask })

length_bytes_short : (n : ℕ) → n < 126 → length_bytes n ≡ n ∷ []
unfolding length_bytes
length_bytes_short n l = ground arith

length_bytes_long :
    (n : ℕ) → ¬ (n < 126) → n ≤ 65535 → length_bytes n ≡ 126 ∷ n / 256 ∷ n % 256 ∷ []
unfolding length_bytes to_be
length_bytes_long n l m =
    let hi : n / 256 % 256 ≡ n / 256 = omega arith in
    let lo : n / 1 % 256 ≡ n % 256 = omega arith in
    rw (le→ltb n 126 (omega arith)) (rw (le→leb n 65535 m) (rw (hi, lo)))

headed_state :
    (s : WsConnection) (final : Bool) (opcode mask c n : ℕ)
    → opcode < 16
    → high_bit c ≡ mask
    → expect_payload n (headed s (first_byte final opcode) c) ≡ body_state s final opcode mask n
unfolding expect_payload
headed_state s final opcode mask c n op high =
    let (good, bit, low) = first_byte_parts final opcode op in rw (high) (rw (bit) (rw (low)))

short_head :
    (s : WsConnection) (final : Bool) (opcode mask n : ℕ) (body : Bytes)
    → s.status ≡ frame_start
    → opcode < 16
    → (mask ≡ 0) ⊎ (mask ≡ 128)
    → n < 126
    → 65535 ≤ s.max_reserve
    → Headed s
        (first_byte final opcode ∷ (flag mask (length_bytes n) ++ body))
        body
        (body_state s final opcode mask n)
short_head s final opcode mask n body is op m short has =
    let b = first_byte final opcode in
    let c = n + mask in
    let (good, bit, low) = first_byte_parts final opcode op in
    record {
      fuel = 1;
      took_more = 0;
      goes = rw (length_bytes_short n short) (
          run_first 5 s 0 b c body (body_state s final opcode mask n) is good (
            short_byte (record (headed s b c) { mask = s.mask }) c n (omega arith) short has
            ∙ ap (λ t. ret (t, took 1)) (headed_state s final opcode mask c n op (omega arith))));
    }

long_state :
    (s : WsConnection) (final : Bool) (opcode mask c n : ℕ)
    → opcode < 16
    → high_bit c ≡ mask
    → expect_payload
        (n / 256 * 256 + n % 256)
        (record (headed s (first_byte final opcode) c) { status = frame_payload_len16 })
      ≡ body_state s final opcode mask n
unfolding expect_payload
long_state s final opcode mask c n op high =
    let (good, bit, low) = first_byte_parts final opcode op in
    let all : n / 256 * 256 + n % 256 ≡ n = omega arith in
    rw (all) (rw (high) (rw (bit) (rw (low))))

long_head :
    (s : WsConnection) (final : Bool) (opcode mask n : ℕ) (body : Bytes)
    → s.status ≡ frame_start
    → opcode < 8
    → (mask ≡ 0) ⊎ (mask ≡ 128)
    → ¬ (n < 126)
    → n ≤ 65535
    → 65535 ≤ s.max_payload_len
    → 65535 ≤ s.max_reserve
    → Headed s
        (first_byte final opcode ∷ (flag mask (length_bytes n) ++ body))
        body
        (body_state s final opcode mask n)
long_head s final opcode mask n body is op m long fits max has =
    let b = first_byte final opcode in
    let c = 126 + mask in
    let (good, bit, low) = first_byte_parts final opcode (omega arith) in
    let t = record (headed s b c) { status = frame_payload_len16 } in
    let plain : is_control_frame (headed s b c) ≡ false = ground (arith, low) in
    let first =
      run_first 5 s 0 b c (n / 256 ∷ n % 256 ∷ body) t is good
        (long_byte (record (headed s b c) { mask = s.mask }) c (omega arith) plain) in
    let second =
      run_len16 4 t 0 (n / 256) (n % 256) body refl refl (omega arith) (omega arith) max has in
    record {
      fuel = 0;
      took_more = 1;
      goes = rw (length_bytes_long n long fits) (
          first
          ∙ second
          ∙ ap (λ u. run 4 (at_loop u 1 body))
              (long_state s final opcode mask c n (omega arith) (omega arith)));
    }

pub head_read :
    (s : WsConnection) (final : Bool) (opcode mask n : ℕ) (body : Bytes)
    → s.status ≡ frame_start
    → opcode < 16
    → (mask ≡ 0) ⊎ (mask ≡ 128)
    → AllowedLength opcode n
    → 65535 ≤ s.max_payload_len
    → 65535 ≤ s.max_reserve
    → Headed s
        (first_byte final opcode ∷ (flag mask (length_bytes n) ++ body))
        body
        (body_state s final opcode mask n)
head_read s final opcode mask n body is op m allowed max has = elim (dec_lt n 126) [
  | yes short ↦ short_head s final opcode mask n body is op m short has
  | no long ↦ long_head s final opcode mask n body is (ground arith) m long (ground arith) max has
]

-- A frame as `onRead` sees it when its last byte has been read.
abbrev pub received : WsConnection → Bool → ℕ → ℕ → Bytes → Bytes → WsConnection
received s final opcode mask key message = record s {
  payload_len = length message;
  status = frame_final;
  masking_key = key;
  final = final_bit final;
  opcode = opcode;
  mask = mask;
  cache = message;
}
