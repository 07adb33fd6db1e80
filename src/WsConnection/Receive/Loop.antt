-- ===== src/WsConnection/Receive/Loop.antt =====
-- http/wsconnection.cpp, `onRead`: the loop ends within six turns, no assertion fails, and the one
-- read out of bounds is that of a first byte that comes alone.
use libtnet.Base.{
  ℕ, zero, suc, ◌<◌, ◌≡◌, ◌≢◌, refl, ◌∙◌, ◌⊎◌, inl, inr, Bool, true, false, [], ◌∷◌, none, some,
  arith, Bool-cases, ℕ_discrete, ltb, ◌&&◌, ap,
}
use libtnet.Base.Bytes.{Bytes}
use libtnet.Base.Outcome.{ret, fault, out_of_bounds, length_error}
use libtnet.WsConnection.{
  WsConnection, FrameStatus, frame_start, frame_payload_len, frame_payload_len16,
  frame_payload_len64, frame_masking_key, frame_data, frame_final, low_bits, frame_error, Ret,
  failed, took, reserved_bits, start_byte, on_frame_start, on_frame_payload_len,
}
use libtnet.WsConnection.Receive.{
  handle_frame_data, Progress, turn, goes_on, read_loop, handle_last, close_on_error, finish_read,
  on_read, is_final_status,
}
use libtnet.WsConnection.Receive.Handlers.{Ready, ReadyIn, HasRoom, rank, Fine, frame_data-Fine}
use libtnet.WsConnection.Receive.Turn.{Lone, Wide, length_byte, turned_fine, turn_throws, turn-Fine}

-- The loop from a state on which it goes on: it comes to its end with the fuel left.
data FineLoop (fuel : ℕ) (p : Progress) : Type 0 where
  loop_fine :
      (end : Progress × Bool)
      → read_loop fuel p ≡ ret end
      → Ready end.0.state ⊎ (end.0.last ≡ failed)
      → (end.1 ≡ true → Ready end.0.state)
      → FineLoop fuel p
  loop_throws : Wide p.state p.rest → read_loop fuel p ≡ fault length_error → FineLoop fuel p

not-Lone : (s : WsConnection) (buf : Bytes) → s.status ≢ frame_start → ¬ Lone s buf
not-Lone s [] ne a = a
not-Lone s (b ∷ []) ne a = ne a.0
not-Lone s (b ∷ c ∷ buf) ne a = a

error_or_not : (st : FrameStatus) → (st ≡ frame_error) ⊎ (st ≢ frame_error)
error_or_not frame_error = inl refl
error_or_not _ = inr (λ e. cc)

start_or_not : (st : FrameStatus) → (st ≡ frame_start) ⊎ (st ≢ frame_start)
start_or_not frame_start = inl refl
start_or_not _ = inr (λ e. cc)

rank_lt : (st : FrameStatus) → rank st < 6
rank_lt frame_start = omega arith
rank_lt _ = omega arith

-- No status ranks above `frame_start`.
not_start : (st t : FrameStatus) → rank t < rank st → t ≢ frame_start
not_start st t l e = absurd (omega (arith, rank_lt st, rw e at l))

loop_ended :
    (fuel : ℕ) (p : Progress) → goes_on p.last p.rest ≡ false → read_loop fuel p ≡ ret (p, false)
unfolding read_loop
loop_ended zero p e = rw e
loop_ended (suc fuel) p e = rw (e, read_loop)

loop_turn :
    (fuel : ℕ) (s : WsConnection) (m b : ℕ) (buf : Bytes) (q : Progress)
    → turn s.status s (b ∷ buf) ≡ some (ret q)
    → read_loop (suc fuel) (record { state = s; last = took (suc m); rest = b ∷ buf })
      ≡ read_loop fuel q
unfolding read_loop
loop_turn fuel s m b buf q e = rw (e, read_loop)

loop_throws_turn :
    (fuel : ℕ) (s : WsConnection) (m b : ℕ) (buf : Bytes)
    → turn s.status s (b ∷ buf) ≡ some (fault length_error)
    → read_loop (suc fuel) (record { state = s; last = took (suc m); rest = b ∷ buf })
      ≡ fault length_error
unfolding read_loop
loop_throws_turn fuel s m b buf e = rw (e, read_loop)

FineLoop-ended :
    (fuel : ℕ) (p : Progress)
    → goes_on p.last p.rest ≡ false
    → Ready p.state ⊎ (p.last ≡ failed)
    → FineLoop fuel p
FineLoop-ended fuel p e f = loop_fine (p, false) (loop_ended fuel p e) f (λ q. cc)

-- From `frame_start` on, eight bytes of a length are the only way to the status of that name.
start_before_wide :
    (st : FrameStatus) (s : WsConnection)
    → s.status ≡ st
    → ReadyIn st s
    → 4 < rank st
    → s.status ≡ frame_start
start_before_wide frame_start s is r l = is
start_before_wide frame_payload_len s is r l = absurd r
start_before_wide frame_payload_len16 s is r l = absurd (omega arith)
start_before_wide frame_payload_len64 s is r l = absurd (omega arith)
start_before_wide frame_masking_key s is r l = absurd (omega arith)
start_before_wide frame_data s is r l = absurd (omega arith)
start_before_wide frame_final s is r l = absurd (omega arith)
start_before_wide frame_error s is r l = absurd (omega arith)

-- What a turn leaves behind it, if the loop goes on.
record Passed (s : WsConnection) (buf : Bytes) (t : WsConnection) : Type 0 where
  marks : s.status ≡ frame_start → t.status ≡ frame_payload_len64 → low_bits (length_byte buf) ≡ 127
  room : s.status ≡ frame_start → HasRoom t

loop_quits :
    (fuel : ℕ) (s : WsConnection) (n b : ℕ) (buf : Bytes)
    → s.status ≡ frame_error
    → read_loop (suc fuel) (record { state = s; last = took (suc n); rest = b ∷ buf })
      ≡ ret (record { state = s; last = took (suc n); rest = b ∷ buf }, true)
unfolding read_loop turn
loop_quits fuel s n b buf bad =
    let e : turn s.status s (b ∷ buf) ≡ none = ap (λ st. turn st s (b ∷ buf)) bad in
    rw (e, read_loop)

loop-Fine :
    (fuel : ℕ) (s : WsConnection) (n : ℕ) (buf : Bytes)
    → Ready s
    → ¬ Lone s buf
    → rank s.status < fuel
    → (3 < rank s.status → HasRoom s)
    → FineLoop fuel (record { state = s; last = took n; rest = buf })
loop-Fine zero s n buf r alone l has = elim l [ ]
loop-Fine (suc fuel) s zero buf r alone l has = FineLoop-ended (suc fuel) _ refl (inl r)
loop-Fine (suc fuel) s (suc n) [] r alone l has = FineLoop-ended (suc fuel) _ refl (inl r)
loop-Fine (suc fuel) s (suc n) (b ∷ buf) r alone l has = elim (error_or_not s.status) [
  | inl bad ↦
      loop_fine (record { state = s; last = took (suc n); rest = b ∷ buf }, true)
        (loop_quits fuel s n b buf bad) (inl r) (λ q. r)
  | inr good ↦ elim (turn-Fine s.status s b buf refl r good alone has) [
    | turn_throws wide e ↦ loop_throws wide (loop_throws_turn fuel s n b buf e)
    | turned_fine q e f marks room ↦
        after (loop-Fine fuel) q.state q.last q.rest e f (record { marks = marks; room = room })
  ]
]
  where
    on :
        (t : WsConnection)
        → rank t.status < rank s.status
        → 3 < rank t.status
        → s.status ≡ frame_start
    on t nearer l = start_before_wide s.status s refl r (omega arith)

    wider :
        (t : WsConnection) (more : Bytes)
        → rank t.status < rank s.status
        → Passed s (b ∷ buf) t
        → Wide t more
        → Wide s (b ∷ buf)
    wider t more nearer p (inl is) =
        let four : 3 < rank t.status = rw is (omega arith) in
        let start = on t nearer four in inr (start, p.marks start is)
    wider t more nearer p (inr (start, mark)) = absurd (not_start s.status t.status nearer start)

    after :
        ((t : WsConnection) (m : ℕ) (more : Bytes)
          → Ready t
          → ¬ Lone t more
          → rank t.status < fuel
          → (3 < rank t.status → HasRoom t)
          → FineLoop fuel (record { state = t; last = took m; rest = more }))
        → (t : WsConnection) (x : Ret) (more : Bytes)
        → turn s.status s (b ∷ buf) ≡ some (ret (record { state = t; last = x; rest = more }))
        → Fine (rank s.status) (t, x)
        → Passed s (b ∷ buf) t
        → FineLoop (suc fuel) (record { state = s; last = took (suc n); rest = b ∷ buf })
    after ih t failed more e f p =
        loop_fine (record { state = t; last = failed; rest = more }, false)
          (loop_turn fuel s n b buf _ e ∙ loop_ended fuel _ refl) (inr refl) (λ q. cc)
    after ih t (took zero) more e f p =
        loop_fine (record { state = t; last = took 0; rest = more }, false)
          (loop_turn fuel s n b buf _ e ∙ loop_ended fuel _ refl) (inl f.0) (λ q. cc)
    after ih t (took (suc m)) more e f p =
        let nearer = f.1 (omega arith) in
        elim (ih t (suc m) more f.0 (not-Lone t more (not_start s.status t.status nearer))
          (omega (arith, nearer)) (λ l. p.room (on t nearer l))) [
            | loop_fine end returns fine quits ↦
                loop_fine end (loop_turn fuel s n b buf _ e ∙ returns) fine quits
            | loop_throws wide throws ↦
                loop_throws (wider t more nearer p wide) (loop_turn fuel s n b buf _ e ∙ throws)
          ]

-- After the loop.
close_on_error-Ready : (x : WsConnection × Ret) → Fine 6 x → Ready (close_on_error x).0
unfolding close_on_error
close_on_error-Ready (s, failed) f = tt
close_on_error-Ready (s, took n) f = f.0

weaken-Fine : (x : WsConnection × Ret) → Fine 1 x → Fine 6 x
weaken-Fine (s, failed) f = tt
weaken-Fine (s, took n) f = (f.0, λ h. omega (arith, f.1 h))

handle_last-Fine : (x : Ret) (s : WsConnection) → Ready s ⊎ (x ≡ failed) → Fine 6 (handle_last x s)
unfolding handle_last
handle_last-Fine failed s f = tt
handle_last-Fine (took n) s (inr e) = cc
handle_last-Fine (took n) s (inl r) = elim (Bool-cases (ltb 0 n && is_final_status s.status)) [
  | inl last ↦ rw last (weaken-Fine (handle_frame_data s) (frame_data-Fine s))
  | inr more ↦ rw more (r, λ h. rank_lt s.status)
]

Lone-fault : (s : WsConnection) (buf : Bytes) → Lone s buf → on_read s buf ≡ fault out_of_bounds
unfolding on_read read_loop turn on_frame_start start_byte on_frame_payload_len
Lone-fault s [] a = absurd a
Lone-fault s (b ∷ []) a = rw (a.0) (rw (a.1))
Lone-fault s (b ∷ c ∷ buf) a = absurd a

Lone-or_not : (s : WsConnection) (buf : Bytes) → Lone s buf ⊎ (¬ Lone s buf)
Lone-or_not s [] = inr (λ a. a)
Lone-or_not s (b ∷ []) = elim (start_or_not s.status) [
  | inr other ↦ inr (λ a. other a.0)
  | inl start ↦ elim (ℕ_discrete (reserved_bits b) 0) [
    | yes good ↦ inl (start, good)
    | no bad ↦ inr (λ a. bad a.1)
  ]
]
Lone-or_not s (b ∷ c ∷ buf) = inr (λ a. a)

finish_read-Ready :
    (e : Progress × Bool)
    → Ready e.0.state ⊎ (e.0.last ≡ failed)
    → ((e.1 ≡ true) → Ready e.0.state)
    → Ready (finish_read e).0
unfolding finish_read
finish_read-Ready (p, true) f g = g refl
finish_read-Ready (p, false) f g =
    close_on_error-Ready (handle_last p.last p.state) (handle_last-Fine p.last p.state f)

-- From a state that is ready, where `reserve` can give 65535 bytes, `onRead` returns in a state that
-- is ready, or one of two things happens. The first byte of a frame is alone with no reserved bit
-- set, and `onRead` reads behind its buffer. Or a length of eight bytes is read, or marked by the
-- byte that is taken for the length at the start of a frame, and `reserve` throws. No `assert` of
-- `tryRead` fails, and six turns of the loop are enough.
pub on_read-Ready :
    (s : WsConnection) (buf : Bytes)
    → Ready s
    → HasRoom s
    → (Lone s buf × (on_read s buf ≡ fault out_of_bounds))
      ⊎ ((Wide s buf × (on_read s buf ≡ fault length_error))
          ⊎ ((r : WsConnection × Ret) × (¬ Lone s buf) × (on_read s buf ≡ ret r) × Ready r.0))
unfolding on_read
on_read-Ready s buf ready has = elim (Lone-or_not s buf) [
  | inl a ↦ inl (a, Lone-fault s buf a)
  | inr alone ↦ elim (loop-Fine 6 s 1 buf ready alone (rank_lt s.status) (λ l. has)) [
    | loop_throws wide e ↦ inr (inl (wide, rw e))
    | loop_fine end returns fine quits ↦
        inr (inr (finish_read end, alone, rw returns, finish_read-Ready end fine quits))
  ]
]
