-- ===== src/Timer/Deadline.antt =====
-- timer.cpp: the time that a timer is set to.
use libtnet.Base.{ℕ, ◌+◌, ◌*◌, ◌%◌, ◌<◌, ◌≡◌, ◌↔◌, arith}
use libtnet.Timer.{Timespec, deadline, nano_per_seconds, nano_per_milli, milli_per_seconds}

-- A time in nanoseconds.
abbrev pub nanoseconds : Timespec → ℕ
nanoseconds t = t.tv_sec * nano_per_seconds + t.tv_nsec

-- A time that the system takes.
abbrev pub IsTime : Timespec → Type 0
IsTime t = t.tv_nsec < nano_per_seconds

-- A timer is set to the time that is asked for, so many milliseconds from now, but in a form that
-- the system takes exactly when the nanoseconds of now and of the milliseconds beyond whole seconds
-- make less than a second.
pub deadline-nanoseconds :
    (now : Timespec) (after : ℕ)
    → (nanoseconds (deadline now after) ≡ nanoseconds now + after * nano_per_milli)
      × (IsTime (deadline now after)
          ↔ (now.tv_nsec + after % milli_per_seconds * nano_per_milli < nano_per_seconds))
unfolding deadline
deadline-nanoseconds now after = (omega arith, (λ h. h, λ h. h))
