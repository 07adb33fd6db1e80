-- ===== src/SpinLock/Exclusion.antt =====
-- spinlock.h: at most one thread is behind `lock`.
use libtnet.Base.{
  ℕ, ◌≡◌, refl, sym, ap, ◌∙◌, true, false, List, [], ◌∷◌, ◌==◌, ==_iff, if◌then◌else◌, on_branches,
  Bool-cases, inl, inr,
}
use libtnet.SpinLock.{
  SpinLock, Place, outside, locking, inside, make, is_zero, is_outside, is_locking, is_inside, put,
  Move, calls_lock, exchanges, unlocks, after_exchange, step, run,
}

abbrev Inside : SpinLock → ℕ → Type 0
Inside s t = is_inside (s.places t) ≡ true

-- While a thread is inside, the lock is not free, and no other thread is.
record Safe (s : SpinLock) : Type 0 where
  held : (t : ℕ) → Inside s t → is_zero s.lock ≡ false
  alone : (t u : ℕ) → Inside s t → Inside s u → t ≡ u

-- After a thread has gone to a place that is not inside, those inside are the others.
others :
    (t i : ℕ) (p : Place) (places : ℕ → Place)
    → is_inside p ≡ false
    → is_inside (put t p places i) ≡ true
    → (is_inside (places i) ≡ true) × ((i == t) ≡ false)
others t i p places not_inside h = elim (Bool-cases (i == t)) [
  | inl same ↦
      let there = ap (λ b. is_inside (if b then p else places i)) same in
      absurd (cc (sym not_inside ∙ sym there ∙ h))
  | inr other ↦ (sym (ap (λ b. is_inside (if b then p else places i)) other) ∙ h, other)
]

moved_away :
    (t : ℕ) (p : Place) (lock : ℕ) (s : SpinLock)
    → is_inside p ≡ false
    → is_zero lock ≡ is_zero s.lock
    → Safe s
    → Safe (record { lock = lock; places = put t p s.places })
moved_away t p lock s not_inside same safe = record {
  held = λ i h. same ∙ safe.held i (others t i p s.places not_inside h).0;
  alone = λ i j h k.
      safe.alone i j (others t i p s.places not_inside h).0 (others t j p s.places not_inside k).0;
}

entered :
    (t : ℕ) (s : SpinLock)
    → is_zero s.lock ≡ true
    → Safe s
    → Safe (record { lock = 1; places = put t inside s.places })
entered t s free safe = record {
  held = λ i h. refl;
  alone = λ i j h k. (is_t i h) ∙ sym (is_t j k);
}
  where
    is_t : (i : ℕ) → is_inside (put t inside s.places i) ≡ true → i ≡ t
    is_t i h = elim (Bool-cases (i == t)) [
      | inl same ↦ (==_iff i t).0 same
      | inr other ↦
          let was = sym (ap (λ b. is_inside (if b then inside else s.places i)) other) ∙ h in
          absurd (cc (sym (safe.held i was) ∙ free))
    ]

left :
    (t : ℕ) (s : SpinLock)
    → Inside s t
    → Safe s
    → Safe (record { lock = 0; places = put t outside s.places })
left t s was safe = record {
  held = λ i h. absurd (nobody i h);
  alone = λ i j h k. absurd (nobody i h);
}
  where
    nobody : (i : ℕ) → is_inside (put t outside s.places i) ≡ true → ⊥
    nobody i h =
        let (still, other) = others t i outside s.places refl h in
        let same = (==_iff i t).1 (safe.alone i t still was) in cc

step-Safe : (t : ℕ) (m : Move) (s : SpinLock) → Safe s → Safe (step t m s)
unfolding step
step-Safe t calls_lock s safe =
    on_branches Safe (is_outside (s.places t)) (λ b. moved_away t locking s.lock s refl refl safe)
      (λ b. safe)
step-Safe t exchanges s safe =
    on_branches Safe (is_locking (s.places t)) (λ b. exchanged) (λ b. safe)
  where
    exchanged : Safe (record { lock = 1; places = put t (after_exchange s.lock) s.places })
    exchanged =
        on_branches (λ p. Safe (record { lock = 1; places = put t p s.places })) (is_zero s.lock)
          (λ free. entered t s free safe) (λ taken. moved_away t locking 1 s refl (sym taken) safe)
step-Safe t unlocks s safe =
    on_branches Safe (is_inside (s.places t)) (λ was. left t s was safe) (λ b. safe)

run-Safe : (ms : List (ℕ × Move)) (s : SpinLock) → Safe s → Safe (run ms s)
unfolding run
run-Safe [] s safe = safe
run-Safe ((t, m) ∷ ms) s safe = run-Safe ms (step t m s) (step-Safe t m s safe)

-- Whatever the schedule, two threads that are behind `lock` at once are the same thread, and while
-- one is there the lock is taken.
pub run-exclusion :
    (ms : List (ℕ × Move)) (t u : ℕ)
    → (run ms make).places t ≡ inside
    → (run ms make).places u ≡ inside
    → (t ≡ u) × (is_zero (run ms make).lock ≡ false)
unfolding make
run-exclusion ms t u h k =
    let safe = run-Safe ms make free in
    (safe.alone t u (ap is_inside h) (ap is_inside k), safe.held t (ap is_inside h))
  where
    free : Safe make
    free = record { held = λ t h. cc; alone = λ t u h k. cc }
