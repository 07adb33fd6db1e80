-- ===== src/SpinLock/Examples.antt =====
-- Two threads that want the lock.
use libtnet.Base.{ℕ, ◌≡◌, refl, List, [], ◌∷◌, false}
use libtnet.SpinLock.{Move, calls_lock, exchanges, unlocks, inside, make, is_zero, step, run}
use libtnet.SpinLock.Exclusion

abbrev schedule : List (ℕ × Move)
schedule =
    (1, calls_lock)
    ∷ (2, calls_lock)
    ∷ (2, exchanges)
    ∷ (1, exchanges)
    ∷ (2, unlocks)
    ∷ (1, exchanges)
    ∷ (2, calls_lock)
    ∷ (2, exchanges)
    ∷ []

first_inside : (run schedule make).places 1 ≡ inside
unfolding run step make
first_inside = refl

abbrev first : ℕ
first = 1

run-exclusion_example : (first ≡ first) × (is_zero (run schedule make).lock ≡ false)
run-exclusion_example = Exclusion.run-exclusion schedule first first first_inside first_inside
