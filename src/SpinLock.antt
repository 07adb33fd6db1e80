-- ===== src/SpinLock.antt =====
-- spinlock.h. Threads are numbers, and a schedule says which of them does what next: the atomic
-- exchange of the loop in `lock` is one step.
pub mod Examples
pub mod Exclusion
use libtnet.Base.{ℕ, zero, suc, Bool, true, false, List, [], ◌∷◌, ◌==◌, if◌then◌else◌}

-- Where a thread is: outside, in the loop of `lock`, or behind it.
pub data Place : Type 0 where
  outside locking inside : Place

pub record SpinLock : Type 0 where
  pub lock : ℕ
  pub places : ℕ → Place

unfoldable pub make : SpinLock
make = record { lock = 0; places = λ t. outside }

abbrev pub is_zero : ℕ → Bool
is_zero zero = true
is_zero (suc n) = false

abbrev pub is_outside : Place → Bool
is_outside outside = true
is_outside _ = false

abbrev pub is_locking : Place → Bool
is_locking locking = true
is_locking _ = false

abbrev pub is_inside : Place → Bool
is_inside inside = true
is_inside _ = false

abbrev pub put : ℕ → Place → (ℕ → Place) → ℕ → Place
put t p places i = if i == t then p else places i

-- A thread calls `lock`, exchanges once, or calls `unlock`.
pub data Move : Type 0 where
  calls_lock exchanges unlocks : Move

-- The loop of `lock` ends when the exchange gives 0.
abbrev pub after_exchange : ℕ → Place
after_exchange old = if is_zero old then inside else locking

-- A move that does not fit where the thread is does nothing.
pub step : ℕ → Move → SpinLock → SpinLock
step t calls_lock s =
    if is_outside (s.places t) then record s { places = put t locking s.places } else s
step t exchanges s =
    if is_locking (s.places t)
    then record { lock = 1; places = put t (after_exchange s.lock) s.places }
    else s
step t unlocks s =
    if is_inside (s.places t) then record { lock = 0; places = put t outside s.places } else s

pub run : List (ℕ × Move) → SpinLock → SpinLock
unfolding step
run [] s = s
run ((t, m) ∷ ms) s = run ms (step t m s)
