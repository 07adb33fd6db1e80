-- ===== src/Signaler/Served.antt =====
-- signaler.cpp: which signals reach the program.
use libtnet.Base.{
  ℕ, zero, suc, ◌<◌, ◌≡◌, refl, Bool, true, false, not, List, Option, some, if◌then◌else◌,
  replicate, arith,
}
use libtnet.Signaler.{Signaler, handler_called, ask, contains, on_signal, make, make_for}

contains-replicate : (n signum : ℕ) → 0 < signum → contains signum (replicate n 0) ≡ false
unfolding contains
contains-replicate zero signum positive = refl
contains-replicate (suc n) signum positive = ground (arith, contains-replicate n signum positive)

-- A signaler for a list of signals gives the program those of the list and drops others; one that
-- is made for a single signal gives it none at all, not even that one.
pub on_signal-make :
    (masked : Bool) (fd : Option ℕ) (signum : ℕ)
    → 0 < signum
    → ((signums : List ℕ)
        → on_signal (some signum) (make_for masked fd signums) ≡ (
            if contains signum signums
            then ask (handler_called signum) (make_for masked fd signums)
            else make_for masked fd signums))
      × ((only : ℕ) → on_signal (some signum) (make masked fd only) ≡ make masked fd only)
unfolding on_signal make make_for
on_signal-make masked fd signum positive = (
  λ signums. swapped _ _ (contains signum signums),
  λ only. rw (contains-replicate only signum positive) refl,
)
  where
    swapped : (x y : Signaler) (b : Bool) → (if not b then x else y) ≡ (if b then y else x)
    swapped x y true = refl
    swapped x y false = refl
