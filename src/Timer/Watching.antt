-- ===== src/Timer/Watching.antt =====
-- timer.cpp: when the loop watches a timer.
use libtnet.Base.{
  ℕ, ◌+◌, ◌≡◌, Bool, true, false, not, List, [], ◌∷◌, ◌++◌, Option, none, some, on_branches, arith,
}
use libtnet.Base.Int.{ℤ}
use libtnet.Timer.{
  Timer, Timespec, Asked, watch, unwatch, handler_called, time_set, closed, ask, is_open, reset,
  make, start, stop, on_timer,
}

-- What a program does with a timer.
pub data Use : Type 0 where
  starts stops : Use
  resets : Timespec → ℤ → ℕ → Use

unfoldable pub use_timer : Use → Timer → Timer
unfolding start stop reset
use_timer starts t = start t
use_timer stops t = stop t
use_timer (resets now repeat after) t = reset now repeat after t

unfoldable pub use_all : List Use → Timer → Timer
unfolding use_timer
use_all [] t = t
use_all (u ∷ us) t = use_all us (use_timer u t)

-- The loop reports the timer, and the handler does some of these; or the program does one.
pub data Event : Type 0 where
  fires : Bool → List Use → Event
  used : Use → Event

unfoldable pub run : List Event → Timer → Timer
unfolding use_all on_timer
run [] t = t
run (fires complete us ∷ es) t = run es (on_timer (use_all us) complete t)
run (used u ∷ es) t = run es (use_timer u t)

abbrev pub watches : List Asked → ℕ
watches [] = 0
watches (watch ∷ l) = watches l + 1
watches (_ ∷ l) = watches l

abbrev pub unwatches : List Asked → ℕ
unwatches [] = 0
unwatches (unwatch ∷ l) = unwatches l + 1
unwatches (_ ∷ l) = unwatches l

abbrev pub one_if : Bool → ℕ
one_if true = 1
one_if false = 0

-- The loop watches the timer while it runs, and only then.
abbrev pub Watched : Timer → Type 0
Watched t = watches t.log ≡ unwatches t.log + one_if t.running

watches-append : (l : List Asked) (a : Asked) → watches (l ++ a ∷ []) ≡ watches l + watches (a ∷ [])
watches-append [] a = omega arith
watches-append (watch ∷ l) a = omega (arith, watches-append l a)
watches-append (unwatch ∷ l) a = watches-append l a
watches-append (handler_called ∷ l) a = watches-append l a
watches-append (time_set i ∷ l) a = watches-append l a
watches-append (closed ∷ l) a = watches-append l a

unwatches-append :
    (l : List Asked) (a : Asked) → unwatches (l ++ a ∷ []) ≡ unwatches l + unwatches (a ∷ [])
unwatches-append [] a = omega arith
unwatches-append (unwatch ∷ l) a = omega (arith, unwatches-append l a)
unwatches-append (watch ∷ l) a = unwatches-append l a
unwatches-append (handler_called ∷ l) a = unwatches-append l a
unwatches-append (time_set i ∷ l) a = unwatches-append l a
unwatches-append (closed ∷ l) a = unwatches-append l a

stop-Watched : (t : Timer) → Watched t → Watched (stop t)
unfolding stop
stop-Watched t w = ground (arith, watches-append t.log unwatch, unwatches-append t.log unwatch)

use_timer-Watched : (u : Use) (t : Timer) → Watched t → Watched (use_timer u t)
unfolding use_timer start reset
use_timer-Watched starts t w =
    ground (arith, watches-append t.log watch, unwatches-append t.log watch)
use_timer-Watched stops t w = stop-Watched t w
use_timer-Watched (resets now repeat after) t w =
    on_branches Watched (not (is_open t.fd)) (λ b. w)
      (λ b. omega (arith, watches-append t.log (time_set _), unwatches-append t.log (time_set _)))

use_all-Watched : (us : List Use) (t : Timer) → Watched t → Watched (use_all us t)
unfolding use_all
use_all-Watched [] t w = w
use_all-Watched (u ∷ us) t w = use_all-Watched us (use_timer u t) (use_timer-Watched u t w)

on_timer-Watched :
    (complete : Bool) (us : List Use) (t : Timer)
    → Watched t
    → Watched (on_timer (use_all us) complete t)
unfolding on_timer
on_timer-Watched complete us t w =
    let called = use_all us (ask handler_called t) in
    let still =
      use_all-Watched us (ask handler_called t) (
        omega
          (arith, watches-append t.log handler_called, unwatches-append t.log handler_called)) in
    on_branches Watched (not complete) (λ b. w)
      (λ b. on_branches Watched (not called.repeated) (λ c. stop-Watched called still) (λ c. still))

run-Watched : (es : List Event) (t : Timer) → Watched t → Watched (run es t)
unfolding run
run-Watched [] t w = w
run-Watched (fires complete us ∷ es) t w =
    run-Watched es (on_timer (use_all us) complete t) (on_timer-Watched complete us t w)
run-Watched (used u ∷ es) t w = run-Watched es (use_timer u t) (use_timer-Watched u t w)

-- Whatever the program and the handler do with a timer, and however often it fires: the loop has
-- been asked to watch its descriptor as often as to forget it, and once more exactly while the timer
-- runs.
pub run-watches :
    (fd : Option ℕ) (now : Timespec) (repeat : ℤ) (after : ℕ) (es : List Event)
    → let t = run es (make fd now repeat after) in
      watches t.log ≡ unwatches t.log + one_if t.running
unfolding make reset
run-watches fd now repeat after es = run-Watched es (make fd now repeat after) (new fd)
  where
    new : (fd : Option ℕ) → Watched (make fd now repeat after)
    new none = omega arith
    new (some n) =
        on_branches Watched (not (is_open (some n))) (λ b. omega arith) (λ b. omega arith)
