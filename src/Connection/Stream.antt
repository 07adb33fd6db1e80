-- ===== src/Connection/Stream.antt =====
-- connection.cpp, `send` and `handleWrite`: the bytes that a connection takes.
use libtnet.Base.{
  ℕ, zero, suc, ◌+◌, ◌-◌, ◌≤◌, ◌<◌, ◌≡◌, refl, sym, ap, ◌∙◌, inl, inr, Bool, true, false, not, ◌&&◌,
  List, [], ◌∷◌, ◌++◌, append-nil, append_assoc, arith, Bool-cases, on_branches, ltb, ◌==◌, length,
  take, drop, take_all, length-append,
}
use libtnet.Base.Bytes.{Bytes}
use libtnet.Connection.{
  Connection, connected, ConnEvent, write_complete_event, Outside, Interest, closed, watch, rewatch,
  unwatch, written, close_after, for_read, for_read_write, Wrote, wrote, write_again, write_failed,
  ask, is_connected, is_empty, update_active_time, left_over, notify, after_write, handle_write,
  send,
}

pub sent_bytes : List Outside → Bytes
sent_bytes [] = []
sent_bytes (written b ∷ os) = b ++ sent_bytes os
sent_bytes (closed ∷ os) = sent_bytes os
sent_bytes (watch i ∷ os) = sent_bytes os
sent_bytes (rewatch i ∷ os) = sent_bytes os
sent_bytes (unwatch ∷ os) = sent_bytes os
sent_bytes (close_after t ∷ os) = sent_bytes os

-- The bytes that the socket has taken, and those that wait.
pub stream : Connection → Bytes
unfolding sent_bytes
stream s = sent_bytes s.log ++ s.send_buffer

sent_bytes-append : (xs ys : List Outside) → sent_bytes (xs ++ ys) ≡ sent_bytes xs ++ sent_bytes ys
unfolding sent_bytes
sent_bytes-append [] ys = refl
sent_bytes-append (written b ∷ xs) ys =
    ap (λ r. b ++ r) (sent_bytes-append xs ys)
    ∙ sym (append_assoc b (sent_bytes xs) (sent_bytes ys))
sent_bytes-append (closed ∷ xs) ys = sent_bytes-append xs ys
sent_bytes-append (watch i ∷ xs) ys = sent_bytes-append xs ys
sent_bytes-append (rewatch i ∷ xs) ys = sent_bytes-append xs ys
sent_bytes-append (unwatch ∷ xs) ys = sent_bytes-append xs ys
sent_bytes-append (close_after t ∷ xs) ys = sent_bytes-append xs ys

take-drop : (n : ℕ) (xs : Bytes) → take n xs ++ drop n xs ≡ xs
take-drop zero xs = refl
take-drop (suc n) [] = refl
take-drop (suc n) (x ∷ xs) = ap (λ r. x ∷ r) (take-drop n xs)

drop-append_lt : (n : ℕ) (a b : Bytes) → length a < n → drop n (a ++ b) ≡ drop (n - length a) b
drop-append_lt n [] b l = let e : n - 0 ≡ n = omega arith in rw e refl
drop-append_lt zero (x ∷ a) b l = absurd (omega arith)
drop-append_lt (suc n) (x ∷ a) b l =
    let e : suc n - suc (length a) ≡ n - length a = omega arith in
    rw e (drop-append_lt n a b (omega arith))

drop-append_le : (n : ℕ) (a b : Bytes) → n ≤ length a → drop n (a ++ b) ≡ drop n a ++ b
drop-append_le zero a b l = refl
drop-append_le (suc n) [] b l = absurd (omega arith)
drop-append_le (suc n) (x ∷ a) b l = drop-append_le n a b (omega arith)

-- Whatever the buffer and the new bytes are, what was not taken waits, in order.
left_over-eq-drop : (n : ℕ) (a b : Bytes) → left_over n a b ≡ drop n (a ++ b)
unfolding left_over
left_over-eq-drop n a b = elim (Bool-cases (ltb (length a) n)) [
  | inl past ↦ rw past (sym (drop-append_lt n a b (ground (arith, past))))
  | inr within ↦ rw within (sym (drop-append_le n a b (ground (arith, within))))
]

rewatch-stream : (i : Interest) (s : Connection) → stream (ask (rewatch i) s) ≡ stream s
unfolding stream sent_bytes
rewatch-stream i s =
    ap (λ r. r ++ s.send_buffer)
      (sent_bytes-append s.log (rewatch i ∷ []) ∙ append-nil (sent_bytes s.log))

-- A write that took bytes: nothing is lost, and nothing changes its place.
wrote-stream :
    (s : Connection) (taken left bytes : Bytes)
    → taken ++ left ≡ s.send_buffer ++ bytes
    → stream (record (ask (written taken) s) { send_buffer = left }) ≡ stream s ++ bytes
unfolding stream sent_bytes
wrote-stream s taken left bytes e = rw (sent_bytes-append s.log (written taken ∷ [])) (
    rw (append-nil taken) (
      append_assoc (sent_bytes s.log) taken left
      ∙ ap (λ r. sent_bytes s.log ++ r) e
      ∙ sym (append_assoc (sent_bytes s.log) s.send_buffer bytes)))

again-stream :
    (s : Connection) (bytes : Bytes)
    → stream (record s { send_buffer = s.send_buffer ++ bytes }) ≡ stream s ++ bytes
unfolding stream
again-stream s bytes = sym (append_assoc (sent_bytes s.log) s.send_buffer bytes)

-- What the program adds in its callback goes behind what there is.
abbrev pub Follows : Connection → Connection → Type 0
Follows s t = (more : Bytes) × (stream t ≡ stream s ++ more)

abbrev pub AddsOnly : (ConnEvent → Bytes → Connection → Connection) → Type 0
AddsOnly callback =
    (event : ConnEvent) (bytes : Bytes) (s : Connection) → Follows s (callback event bytes s)

-- An answer of `writev` that is not a failure; it takes no more than it is given.
abbrev pub Takes : Wrote → ℕ → Type 0
Takes (wrote n) total = n ≤ total
Takes write_again total = Unit
Takes write_failed total = ⊥

module _ (callback : ConnEvent → Bytes → Connection → Connection) (adds : AddsOnly callback) where
  notify-stream :
      (event : ConnEvent) (bytes : Bytes) (s : Connection)
      → Follows s (notify callback event bytes s)
  unfolding notify
  notify-stream event bytes s =
      on_branches (Follows s) s.has_callback (λ e. adds event bytes s)
        (λ e. ([], sym (append-nil (stream s))))

  after_write-stream :
      (now : ℕ) (bytes : Bytes) (answer : Wrote) (s : Connection)
      → Takes answer (length s.send_buffer + length bytes)
      → (more : Bytes) × (stream (after_write callback now bytes answer s)
          ≡ (stream s ++ bytes) ++ more)
  unfolding after_write stream
  after_write-stream now bytes write_failed s ok = elim ok [ ]
  after_write-stream now bytes write_again s ok = (
    [],
    rewatch-stream for_read_write (record s { send_buffer = s.send_buffer ++ bytes })
        ∙ again-stream s bytes
        ∙ sym (append-nil (stream s ++ bytes)),
  )
  after_write-stream now bytes (wrote n) s ok =
      let all = s.send_buffer ++ bytes in
      let taken = take n all in
      let left = left_over n s.send_buffer bytes in
      let took = ask (written taken) s in
      on_branches (λ t. (more : Bytes) × (stream t ≡ (stream s ++ bytes) ++ more))
        (n == length s.send_buffer + length bytes)
        (λ e.
          let whole : take n all ≡ all =
            take_all all n (ground (arith, e, length-append s.send_buffer bytes)) in
          let told = record took { send_buffer = [] } in
          let (more, added) = notify-stream write_complete_event [] told in
          (
            more,
            rewatch-stream for_read (notify callback write_complete_event [] told)
                ∙ added
                ∙ ap (λ r. r ++ more) (wrote-stream s taken [] bytes (append-nil taken ∙ whole)),
          ))
        (λ e. (
          [],
          rewatch-stream for_read_write
                (update_active_time now (record took { send_buffer = left }))
              ∙ wrote-stream s taken left bytes
                  (ap (λ l. taken ++ l) (left_over-eq-drop n s.send_buffer bytes) ∙ take-drop n all)
              ∙ sym (append-nil (stream s ++ bytes)),
        ))

  idle_bytes : (a b : Bytes) → (is_empty a && is_empty b) ≡ true → b ≡ []
  idle_bytes [] [] e = refl
  idle_bytes [] (x ∷ b) e = cc
  idle_bytes (x ∷ a) b e = cc

  -- A connected connection that is asked to send bytes, where `writev` does not fail: the bytes that
  -- the socket has taken, with those that wait in the buffer, grow by these bytes, and behind them
  -- by what the program's callback adds, if it only adds. No byte is lost, sent twice or out of its
  -- place.
  pub send-stream :
      (now : ℕ) (bytes : Bytes) (answer : Wrote) (s : Connection)
      → s.status ≡ connected
      → Takes answer (length s.send_buffer + length bytes)
      → let r = send callback now bytes answer s in
        (r.1 ≡ true) × ((more : Bytes) × (stream r.0 ≡ (stream s ++ bytes) ++ more))
  unfolding send handle_write
  send-stream now bytes answer s is ok =
      let on : not (is_connected s.status) ≡ false = ap (λ st. not (is_connected st)) is in
      let Grown : Connection → Type 0 =
        λ t. (more : Bytes) × (stream t ≡ (stream s ++ bytes) ++ more) in
      let handled : Grown (handle_write callback now bytes answer s) =
        on_branches Grown (not (is_connected s.status)) (λ e. cc)
          (λ e.
            on_branches Grown (is_empty s.send_buffer && is_empty bytes)
              (λ idle. (
                [],
                rewatch-stream for_read s
                    ∙ sym (append-nil (stream s))
                    ∙ ap (λ b. stream s ++ b) (sym (idle_bytes s.send_buffer bytes idle))
                    ∙ sym (append-nil (stream s ++ bytes)),
              ))
              (λ busy. after_write-stream now bytes answer s ok)) in
      on_branches (λ (r : Connection × Bool). (r.1 ≡ true) × Grown r.0)
        (not (is_connected s.status)) (λ e. cc) (λ e. (refl, handled))
