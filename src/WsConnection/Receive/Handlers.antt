-- ===== src/WsConnection/Receive/Handlers.antt =====
-- http/wsconnection.cpp: what each handler of `onRead` keeps true between two reads, and how it
-- brings its frame nearer to the end.
use libtnet.Base.{
  ℕ, suc, ◌+◌, ◌-◌, ◌≤◌, ◌<◌, ◌≡◌, ◌≢◌, refl, ap, ◌∙◌, sym, subst, ◌⊎◌, Bool, false, ltb, leb, ◌==◌,
  ◌&&◌, if◌then◌else◌, on_branches, le→ltb, inl, inr, [], ◌++◌, arith, Bool-cases, length, take,
  length-append, dec_lt,
}
use libtnet.Base.Bytes.{Bytes}
use libtnet.Base.Outcome.{Outcome, ret, fault, length_error, ◌>>=◌}
use libtnet.WsConnection.{
  WsConnection, FrameStatus, frame_start, frame_payload_len, frame_payload_len16,
  frame_payload_len64, frame_masking_key, frame_data, frame_final, frame_error, Ret, failed, took,
  is_final_frame, is_control_frame, high_bit, low_bits, from_le, payload_len_byte, expect_payload,
  handle_frame_payload_len, byte_swap, try_read, take_payload_len, on_frame_payload_len16,
  on_frame_payload_len64, take_masking_key, on_frame_masking_key,
}
use libtnet.WsConnection.Receive.{
  take_data, on_frame_data, handle_message, assemble, conclude, finish_frame, handle_frame_data,
  message, refused, Assembled,
}

-- What the state holds between two reads.
abbrev pub ReadyIn : FrameStatus → WsConnection → Type 0
ReadyIn frame_payload_len s = ⊥
ReadyIn frame_payload_len16 s = length s.cache < 2
ReadyIn frame_payload_len64 s = length s.cache < 8
ReadyIn frame_masking_key s = (length s.cache < 4) × (0 < s.payload_len)
ReadyIn frame_data s = length s.cache < s.payload_len
ReadyIn _ s = Unit {0}

abbrev pub Ready : WsConnection → Type 0
Ready s = ReadyIn s.status s

-- How far a status is from the end of its frame.
abbrev pub rank : FrameStatus → ℕ
rank frame_start = 5
rank frame_payload_len = 5
rank frame_payload_len16 = 4
rank frame_payload_len64 = 4
rank frame_masking_key = 3
rank frame_data = 2
rank frame_final = 1
rank frame_error = 0

-- What `tryRead` does while less than `n` bytes are there: it takes all of the buffer and waits,
-- or takes what is missing.
pub data Tried (n : ℕ) (s : WsConnection) (buf : Bytes) : Type 0 where
  waits :
      length s.cache + length buf < n
      → try_read n s buf ≡ ret (record s { cache = s.cache ++ buf }, took 0)
      → Tried n s buf
  fills :
      (k : ℕ)
      → length s.cache + suc k ≡ n
      → suc k ≤ length buf
      → try_read n s buf ≡ ret (record s { cache = s.cache ++ take (suc k) buf }, took (suc k))
      → Tried n s buf

pub try_read-Tried : (n : ℕ) (s : WsConnection) (buf : Bytes) → length s.cache < n → Tried n s buf
unfolding try_read
try_read-Tried n s buf l = elim (dec_lt (length s.cache + length buf) n) [
  | yes less ↦ waits less (ground arith)
  | no enough ↦
      let k = n - length s.cache - 1 in
      let is : n - length s.cache ≡ suc k = omega arith in
      fills k (omega arith) (omega arith) (ground (arith, is))
]

-- What a handler returned: it failed, or left the state ready and, if it took something, nearer to
-- the end of the frame.
abbrev pub Fine : ℕ → WsConnection × Ret → Type 0
Fine r (s, failed) = Unit {0}
Fine r (s, took n) = Ready s × (0 < n → rank s.status < r)

-- A handler that returns something fine, or throws where it `may`.
pub data FineHandle (may : Type 0) (r : ℕ) (o : Outcome (WsConnection × Ret)) : Type 0 where
  handled_fine : (x : WsConnection × Ret) → o ≡ ret x → Fine r x → FineHandle may r o
  throws : may → o ≡ fault length_error → FineHandle may r o

-- What is returned on the byte with the length: eight bytes follow only if it says so.
abbrev pub FineByte : ℕ → ℕ → Outcome (WsConnection × Ret) → Type 0
FineByte c reserve o =
    (x : WsConnection × Ret) × (o ≡ ret x)
    × Fine 5 x
    × (x.0.status ≡ frame_payload_len64 → low_bits c ≡ 127)
    × (x.0.max_reserve ≡ reserve)

-- There is room for a payload whose length has two bytes.
abbrev pub HasRoom : WsConnection → Type 0
HasRoom s = 65535 ≤ s.max_reserve

expect_payload-Fine : (r k n : ℕ) (s : WsConnection) → 3 < r → Fine r (expect_payload n s, took k)
unfolding expect_payload
expect_payload-Fine r k n s l = ground arith

expect_payload-status :
    (n : ℕ) (s : WsConnection) → (expect_payload n s).status ≢ frame_payload_len64
unfolding expect_payload
expect_payload-status n s h = ground arith

expect_payload-reserve :
    (n : ℕ) (s : WsConnection) → (expect_payload n s).max_reserve ≡ s.max_reserve
unfolding expect_payload
expect_payload-reserve n s = refl

room : (n : ℕ) (s : WsConnection) → HasRoom s → n ≤ 65535 → ltb s.max_reserve n ≡ false
room n s has l = le→ltb s.max_reserve n (omega arith)

pub payload_len_byte-Fine :
    (s : WsConnection) (c : ℕ)
    → s.cache ≡ []
    → s.status ≢ frame_payload_len64
    → HasRoom s
    → FineByte c s.max_reserve (payload_len_byte s c)
unfolding payload_len_byte handle_frame_payload_len
payload_len_byte-Fine s c e not_wide has =
    let s' = record s { mask = high_bit c } in
    let n = low_bits c in
    on_branches (FineByte c s.max_reserve) (is_control_frame s' && leb 126 n)
      (λ b. ((s', failed), refl, tt, λ h. absurd (not_wide h), refl))
      (λ b.
        on_branches (FineByte c s.max_reserve) (ltb n 126)
          (λ short. (
            (expect_payload n s', took 1),
            ap
                (λ b. (if b then fault length_error else ret (expect_payload n s')) >>= λ t.
                  ret (t, took 1))
                (room n s has (omega arith)),
            expect_payload-Fine 5 1 n s' (omega arith),
            λ h. absurd (expect_payload-status n s' h),
            expect_payload-reserve n s',
          ))
          (λ more.
            on_branches (FineByte c s.max_reserve) (n == 126)
              (λ two. (
                (record s' { status = frame_payload_len16 }, took 1),
                refl,
                ground arith,
                λ h. cc,
                refl,
              ))
              (λ other.
                on_branches (FineByte c s.max_reserve) (n == 127)
                  (λ eight. (
                    (record s' { status = frame_payload_len64 }, took 1),
                    refl,
                    ground arith,
                    λ h. ground arith,
                    refl,
                  ))
                  (λ none_of_these. ((s', failed), refl, tt, λ h. absurd (not_wide h), refl)))))

-- A length of two bytes is one that `reserve` can give.
swapped_two : (raw : ℕ) → byte_swap 2 raw ≤ 65535
unfolding byte_swap
swapped_two raw = omega arith

take_payload_len-Fine :
    (may : Type 0) (width : ℕ) (s : WsConnection) (k : ℕ)
    → may ⊎ (HasRoom s × ((raw : ℕ) → byte_swap width raw ≤ 65535))
    → FineHandle may 4 (take_payload_len width (s, took (suc k)))
unfolding take_payload_len handle_frame_payload_len
take_payload_len-Fine may width s k why =
    let n = byte_swap width (from_le s.cache) in
    let Handles = FineHandle may 4 in
    on_branches Handles (ltb s.max_payload_len (from_le s.cache))
      (λ b. handled_fine (s, failed) refl tt)
      (λ b. elim (Bool-cases (ltb s.max_reserve n)) [
        | inr fits ↦
            handled_fine (expect_payload n s, took (suc k)) (ap (reserved n) fits)
              (expect_payload-Fine 4 (suc k) n s (omega arith))
        | inl beyond ↦ elim why [
          | inl allowed ↦ throws allowed (ap (reserved n) beyond)
          | inr (has, short) ↦ absurd (cc (sym beyond ∙ room n s has (short (from_le s.cache))))
        ]
      ])
  where
    reserved : ℕ → Bool → Outcome (WsConnection × Ret)
    reserved n b =
        (if b then fault length_error else ret (expect_payload n s)) >>= λ t. ret (t, took (suc k))

take_masking_key-Fine :
    (s : WsConnection) (k : ℕ) → 0 < s.payload_len → Fine 3 (take_masking_key (s, took (suc k)))
unfolding take_masking_key
take_masking_key-Fine s k p = ground arith

take_data-Fine : (s : WsConnection) (k : ℕ) → Fine 2 (take_data (s, took (suc k)))
unfolding take_data
take_data-Fine s k = ground arith

-- The four handlers that start with `tryRead`: `take` leaves the state alone while bytes are missing.
tried-Fine :
    (may : Type 0) (n r : ℕ) (on : WsConnection × Ret → Outcome (WsConnection × Ret))
    (s : WsConnection) (buf : Bytes)
    → length s.cache < n
    → ((t : WsConnection) → on (t, took 0) ≡ ret (t, took 0))
    → (length (s.cache ++ buf) < n → Ready (record s { cache = s.cache ++ buf }))
    → ((k : ℕ)
        → FineHandle may r (on (record s { cache = s.cache ++ take (suc k) buf }, took (suc k))))
    → FineHandle may r (try_read n s buf >>= on)
tried-Fine may n r on s buf l idle waiting filled = elim (try_read-Tried n s buf l) [
  | waits less e ↦
      handled_fine (record s { cache = s.cache ++ buf }, took 0)
        (ap (λ o. o >>= on) e ∙ idle (record s { cache = s.cache ++ buf }))
        (waiting (omega (arith, length-append s.cache buf)), λ h. absurd (omega arith))
  | fills k sum fits e ↦ subst (FineHandle may r) (sym (ap (λ o. o >>= on) e)) (filled k)
]

pub payload_len16-Fine :
    (s : WsConnection) (buf : Bytes)
    → s.status ≡ frame_payload_len16
    → length s.cache < 2
    → HasRoom s
    → FineHandle ⊥ 4 (on_frame_payload_len16 s buf)
unfolding on_frame_payload_len16 take_payload_len
payload_len16-Fine s buf is l has =
    tried-Fine ⊥ 2 4 (take_payload_len 2) s buf l (λ t. refl) (λ h. rw is h)
      λ k.
        take_payload_len-Fine ⊥ 2 (record s { cache = s.cache ++ take (suc k) buf }) k
          (inr (has, swapped_two))

pub payload_len64-Fine :
    (s : WsConnection) (buf : Bytes)
    → s.status ≡ frame_payload_len64
    → length s.cache < 8
    → FineHandle Unit 4 (on_frame_payload_len64 s buf)
unfolding on_frame_payload_len64 take_payload_len
payload_len64-Fine s buf is l =
    tried-Fine Unit 8 4 (take_payload_len 8) s buf l (λ t. refl) (λ h. rw is h)
      λ k.
        take_payload_len-Fine Unit 8 (record s { cache = s.cache ++ take (suc k) buf }) k (inl tt)

pub masking_key-Fine :
    (s : WsConnection) (buf : Bytes)
    → s.status ≡ frame_masking_key
    → length s.cache < 4
    → 0 < s.payload_len
    → FineHandle ⊥ 3 (on_frame_masking_key s buf)
unfolding on_frame_masking_key take_masking_key
masking_key-Fine s buf is l p =
    tried-Fine ⊥ 4 3 (λ x. ret (take_masking_key x)) s buf l (λ t. refl) (λ h. rw is (h, p))
      λ k.
        handled_fine _ refl
          (take_masking_key-Fine (record s { cache = s.cache ++ take (suc k) buf }) k p)

pub data-Fine :
    (s : WsConnection) (buf : Bytes)
    → s.status ≡ frame_data
    → length s.cache < s.payload_len
    → FineHandle ⊥ 2 (on_frame_data s buf)
unfolding on_frame_data take_data
data-Fine s buf is l =
    tried-Fine ⊥ s.payload_len 2 (λ x. ret (take_data x)) s buf l (λ t. refl) (λ h. rw is h)
      λ k. handled_fine _ refl (take_data-Fine (record s { cache = s.cache ++ take (suc k) buf }) k)

conclude-Fine : (r : ℕ) (x : WsConnection × Ret) → Fine r (conclude x)
unfolding conclude
conclude-Fine r (s, failed) = tt
conclude-Fine r (s, took n) = ground arith

pub frame_data-Fine : (s : WsConnection) → Fine 1 (handle_frame_data s)
unfolding handle_frame_data finish_frame
frame_data-Fine s = go (assemble s)
  where
    go : (a : Assembled) → Fine 1 (finish_frame s a)
    go refused = tt
    go (message s' opcode bytes) = elim (Bool-cases (is_final_frame s')) [
      | inl last ↦
          rw last (conclude-Fine 1 (handle_message opcode bytes (record s' { cache = [] })))
      | inr more ↦ rw more (conclude-Fine 1 (record s' { cache = [] }, took 0))
    ]
