-- ===== src/TimingWheel/Examples.antt =====
-- Runs of a wheel with three buckets. A handler is a number, and handlers ask for nothing.
use libtnet.Base.{
  ℕ, zero, suc, ◌≡◌, ◌≢◌, ◌↔◌, ◌⊎◌, refl, false, List, [], ◌∷◌, none, some, arith, length,
  get_elem?,
}
use libtnet.Base.Outcome.{ret, fault, out_of_bounds, unfinished}
use libtnet.TimingWheel.{
  TimingWheel, Call, make, add, update, remove, on_timer, chan_at, due_bucket, slot_bucket,
}
use libtnet.TimingWheel.Invariant.{IsWheel}
use libtnet.TimingWheel.Invariant
use libtnet.TimingWheel.Slots.{FitsSlots, handler_at}
use libtnet.TimingWheel.Slots
use libtnet.TimingWheel.Firing
use libtnet.TimingWheel.Firing.Adds.{AllFull}
use libtnet.TimingWheel.Firing.Adds
use libtnet.TimingWheel.Firing.Promise.{ticks}
use libtnet.TimingWheel.Firing.Promise

abbrev wheel : TimingWheel ℕ
unfolding make
wheel = make false 10 3

abbrev script : ℕ → TimingWheel ℕ → List (Call ℕ)
script h w = []

-- The wheel with the handler 7 in its second bucket.
abbrev busy : TimingWheel ℕ
unfolding add
busy = (add (some 7) 15 wheel).0

-- The wheel with an empty entry in the bucket that comes due.
abbrev holed : TimingWheel ℕ
holed = record wheel { buckets = (none ∷ []) ∷ [] ∷ [] ∷ [] }

wheel-IsWheel : IsWheel wheel
unfolding make
wheel-IsWheel = Invariant.make-IsWheel false 10 3 (omega arith) (omega arith) (omega arith)

wheel-FitsSlots : FitsSlots wheel
unfolding make chan_at
wheel-FitsSlots zero = omega arith
wheel-FitsSlots (suc zero) = omega arith
wheel-FitsSlots (suc (suc zero)) = omega arith
wheel-FitsSlots (suc (suc (suc i))) = omega arith

wheel-AllFull : AllFull wheel
unfolding make chan_at
wheel-AllFull = record { full_buckets = full; full_current = tt }
  where
    full : (i : ℕ) → Adds.IsFull (chan_at wheel.buckets i)
    full zero = tt
    full (suc zero) = tt
    full (suc (suc zero)) = tt
    full (suc (suc (suc i))) = tt

busy-IsWheel : IsWheel busy
unfolding make add
busy-IsWheel = Invariant.SameFrame-IsWheel (Invariant.add-SameFrame (some 7) 15 wheel) wheel-IsWheel

busy-FitsSlots : FitsSlots busy
unfolding make add chan_at
busy-FitsSlots zero = omega arith
busy-FitsSlots (suc zero) = omega arith
busy-FitsSlots (suc (suc zero)) = omega arith
busy-FitsSlots (suc (suc (suc i))) = omega arith

add_promise_example :
    (u : TimingWheel ℕ) × (q : TimingWheel ℕ × List ℕ) × (ticks script 2 (add (some 5) 25 wheel).0
      ≡ ret u)
    × (on_timer script u ≡ ret q)
    × (get_elem? q.1 (length (chan_at wheel.buckets (due_bucket wheel 25))) ≡ some 5)
unfolding wheel
add_promise_example =
    Promise.add_promise script wheel 5 25 (λ h w. tt) wheel-IsWheel wheel-AllFull wheel-FitsSlots
      refl (omega arith)

on_timer_ends_example : on_timer script holed ≢ fault unfinished
on_timer_ends_example = Firing.on_timer_ends script holed

update-remove_out_of_bounds_example :
    ((remove 3 wheel ≡ fault out_of_bounds) ↔ (slot_bucket 3 ≡ 3))
    × ((update 3 10 wheel ≡ fault out_of_bounds) ↔ (slot_bucket 3 ≡ 3))
unfolding wheel
update-remove_out_of_bounds_example =
    Slots.update-remove_out_of_bounds wheel 3 10 wheel-IsWheel wheel-FitsSlots

handler_at-add_example :
    let r = add (some 7) 15 busy in
    (handler_at r.0 r.1 ≡ some (some 7))
    × ((handler_at busy 1 ≡ none) ⊎ (handler_at r.0 1 ≡ handler_at busy 1))
unfolding make add wheel busy
handler_at-add_example =
    Slots.handler_at-add busy (some 7) 15 1 busy-IsWheel busy-FitsSlots refl (omega arith)
