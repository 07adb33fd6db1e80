-- ===== src/Connection/Closes.antt =====
-- connection.cpp: how often the descriptor of a connection is closed, and what `disconnect` adds.
use libtnet.Base.{
  sym, ℕ, suc, ◌+◌, ◌≡◌, refl, ◌∙◌, inl, inr, true, false, List, [], ◌∷◌, ◌++◌, arith, Bool-cases,
}
use libtnet.Base.Bytes.{Bytes}
use libtnet.Connection.{
  Connection, Status, not_open, connecting, connected, disconnecting, disconnected, ConnEvent,
  Outside, closed, watch, rewatch, unwatch, written, close_after, ask, is_disconnected,
  is_connected, is_close, is_not_open, disconnect,
}

-- How often `close(m_fd)` is called.
unfoldable pub closes : List Outside → ℕ
closes [] = 0
closes (closed ∷ os) = suc (closes os)
closes (watch i ∷ os) = closes os
closes (rewatch i ∷ os) = closes os
closes (unwatch ∷ os) = closes os
closes (written b ∷ os) = closes os
closes (close_after t ∷ os) = closes os

abbrev pub times_closed : Status → ℕ
times_closed disconnected = 1
times_closed _ = 0

-- The descriptor is closed once if the connection is disconnected, and not at all before.
pub record ClosedOnce (s : Connection) : Type 0 where
  pub close_count : closes s.log ≡ times_closed s.status

pub closes-append : (xs ys : List Outside) → closes (xs ++ ys) ≡ closes xs + closes ys
unfolding closes
closes-append [] ys = omega arith
closes-append (closed ∷ xs) ys = omega (arith, closes-append xs ys)
closes-append (watch i ∷ xs) ys = closes-append xs ys
closes-append (rewatch i ∷ xs) ys = closes-append xs ys
closes-append (unwatch ∷ xs) ys = closes-append xs ys
closes-append (written b ∷ xs) ys = closes-append xs ys
closes-append (close_after t ∷ xs) ys = closes-append xs ys

-- What the program does to the connection in its callback keeps to this.
abbrev pub KeepsClosed : (ConnEvent → Bytes → Connection → Connection) → Type 0
KeepsClosed callback =
    (event : ConnEvent) (bytes : Bytes) (s : Connection)
    → ClosedOnce s
    → ClosedOnce (callback event bytes s)

-- A request to the loop or the socket that is not `close`.
pub ask-ClosedOnce :
    (o : Outside) (s : Connection) → closes (o ∷ []) ≡ 0 → ClosedOnce s → ClosedOnce (ask o s)
ask-ClosedOnce o s e c = record {
  close_count = omega (arith, closes-append s.log (o ∷ []), c.close_count);
}

open_times : (st : Status) → is_disconnected st ≡ false → times_closed st ≡ 0
open_times disconnected e = cc
open_times not_open e = refl
open_times connecting e = refl
open_times connected e = refl
open_times disconnecting e = refl

-- A new status that is not `disconnected`, in place of another such.
pub move-ClosedOnce :
    (st : Status) (s : Connection)
    → is_disconnected s.status ≡ false
    → is_disconnected st ≡ false
    → ClosedOnce s
    → ClosedOnce (record s { status = st })
move-ClosedOnce st s e f c = record {
  close_count = c.close_count ∙ open_times s.status e ∙ sym (open_times st f);
}

pub disconnect-ClosedOnce : (s : Connection) → ClosedOnce s → ClosedOnce (disconnect s).0
unfolding disconnect closes
disconnect-ClosedOnce s c = elim (Bool-cases (is_disconnected s.status)) [
  | inl done ↦ rw done c
  | inr before ↦ rw before (record {
    close_count = omega (
      arith,
      closes-append (s.log ++ unwatch ∷ []) (closed ∷ []),
      closes-append s.log (unwatch ∷ []),
      c.close_count,
      open_times s.status before,
    );
  })
]

pub open_of_connected : (st : Status) → is_connected st ≡ true → is_disconnected st ≡ false
open_of_connected connected e = refl
open_of_connected not_open e = refl
open_of_connected connecting e = refl
open_of_connected disconnecting e = refl
open_of_connected disconnected e = cc

pub open_of_not_open : (st : Status) → is_not_open st ≡ true → is_disconnected st ≡ false
open_of_not_open not_open e = refl
open_of_not_open connected e = refl
open_of_not_open connecting e = refl
open_of_not_open disconnecting e = refl
open_of_not_open disconnected e = cc

pub open_of_not_close : (st : Status) → is_close st ≡ false → is_disconnected st ≡ false
open_of_not_close not_open e = refl
open_of_not_close connected e = refl
open_of_not_close connecting e = refl
open_of_not_close disconnecting e = refl
open_of_not_close disconnected e = cc
