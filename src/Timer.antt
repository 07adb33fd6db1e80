-- ===== src/Timer.antt =====
-- timer.h and timer.cpp, on Linux: a timer of the loop. What the clock, `timerfd_create` and `read`
-- answer are arguments; what is asked of the system, the loop and the program is `log`, in order. The
-- time to wait is not negative, and there is a handler: the parameter `script` is what it does.
pub mod Examples
pub mod Deadline
pub mod Watching
use libtnet.Base.{
  ℕ, ◌+◌, ◌*◌, ◌/◌, ◌%◌, Bool, true, false, not, List, [], ◌∷◌, ◌++◌, Option, none, some, ltb,
  if◌then◌else◌,
}
use libtnet.Base.Int.{ℤ, pos, negsuc}

abbrev pub milli_per_seconds : ℕ
milli_per_seconds = 1000

abbrev pub nano_per_seconds : ℕ
nano_per_seconds = 1000000000

abbrev pub nano_per_milli : ℕ
nano_per_milli = 1000000

pub record Timespec : Type 0 where
  pub tv_sec : ℕ
  pub tv_nsec : ℕ

-- `struct itimerspec`; an interval that is `none` is not initialised.
pub record Itimerspec : Type 0 where
  pub it_interval : Option Timespec
  pub it_value : Timespec

pub data Asked : Type 0 where
  time_set : Itimerspec → Asked
  -- `m_loop->addHandler` and `removeHandler`
  watch : Asked
  unwatch : Asked
  handler_called : Asked
  closed : Asked

-- A descriptor that is `none` is -1.
pub record Timer : Type 0 where
  pub fd : Option ℕ
  pub running : Bool
  pub repeated : Bool
  pub log : List Asked

abbrev pub ask : Asked → Timer → Timer
ask a t = record t { log = t.log ++ a ∷ [] }

abbrev pub is_open : Option ℕ → Bool
is_open none = false
is_open (some fd) = ltb 0 fd

abbrev pub repeats : ℤ → Bool
repeats (pos n) = ltb 0 n
repeats (negsuc n) = false

pub interval_of : ℤ → Option Timespec
interval_of (pos n) =
    if ltb 0 n
    then some (record {
      tv_sec = n / milli_per_seconds;
      tv_nsec = n % milli_per_seconds * nano_per_milli;
    })
    else none
interval_of (negsuc n) = none

-- When the timer fires, in so many milliseconds.
pub deadline : Timespec → ℕ → Timespec
deadline now after = record {
  tv_sec = now.tv_sec + after / milli_per_seconds;
  tv_nsec = now.tv_nsec + after % milli_per_seconds * nano_per_milli;
}

pub reset : Timespec → ℤ → ℕ → Timer → Timer
unfolding interval_of deadline
reset now repeat after t =
    let time : Itimerspec = record {
      it_interval = interval_of repeat;
      it_value = deadline now after;
    } in
    if not (is_open t.fd) then t else record (ask (time_set time) t) { repeated = repeats repeat }

-- The constructor; the first argument is what `timerfd_create` answers.
pub make : Option ℕ → Timespec → ℤ → ℕ → Timer
unfolding reset
make none now repeat after = record { fd = none; running = false; repeated = false; log = [] }
make (some fd) now repeat after =
    reset now repeat after (record { fd = some fd; running = false; repeated = false; log = [] })

pub destroy : Timer → Timer
destroy t = if is_open t.fd then ask closed t else t

pub start : Timer → Timer
start t = if t.running then t else ask watch (record t { running = true })

pub stop : Timer → Timer
stop t = if not t.running then t else ask unwatch (record t { running = false })

module _ (script : Timer → Timer) where
  -- `complete` is whether `read` gives the number of expirations.
  pub on_timer : Bool → Timer → Timer
  unfolding stop
  on_timer complete t =
      let called = script (ask handler_called t) in
      if not complete then t else if not called.repeated then stop called else called
