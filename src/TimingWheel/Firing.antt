-- ===== src/TimingWheel/Firing.antt =====
-- A tick while its handlers call the wheel: the bucket in hand keeps its size, so the iterators of
-- `onTimer` stay valid, and an entry that is empty makes the tick throw.
pub mod Adds
pub mod Delivery
pub mod Promise
use libtnet.Base.{
  ℕ, zero, suc, ◌+◌, ◌≤◌, ◌<◌, ◌≡◌, ◌≢◌, refl, ap, ◌∙◌, inl, inr, Bool, true, false, List, [], ◌∷◌,
  Option, none, some, arith, ==_iff, ◌==◌, Bool-cases, Option-cases, ℕ_discrete, length, get_elem?,
  set, length-set, get_elem?-set_self, get_elem?-set_ne,
}
use libtnet.Base.Outcome.{
  Outcome, Fault, Outcome-cases, ret, fault, out_of_bounds, unfinished, ◌>>=◌, >>=-eq-ret,
  >>=-eq-fault,
}
use libtnet.TimingWheel.{
  TimingWheel, Chan, Call, adds, updates, removes, stops, stop, push_at, chan_at, due_bucket, add,
  clear_at, begin, update, remove, run_call, run_calls, fire, on_timer, slot_bucket, slot_id,
}
use libtnet.TimingWheel.Buckets.{
  chan_at-push_at_ne, chan_at-set_self, chan_at-set_ne, get_elem?-chan_at, get_elem?-past,
  get_elem?-lt, get_elem?-within, chan_at-get_elem?, get_elem?-set-none,
}
use libtnet.TimingWheel.Invariant.{
  IsWheel, SameFrame, run_calls-SameFrame, run_call-SameFrame, clear_at-SameFrame, Entry-cases,
  past, empty, full, fire-eq-ret, on_timer-eq-ret,
}

-- What a call made during a tick does to the bucket in hand.
pub record KeepsDue {H : Type 0} (n : ℕ) (w v : TimingWheel H) : Type 0 where
  pub same_length : length (chan_at v.buckets n) ≡ length (chan_at w.buckets n)
  pub empty_stays :
      (i : ℕ)
      → get_elem? (chan_at w.buckets n) i ≡ some none
      → get_elem? (chan_at v.buckets n) i ≡ some none

module _ {H : Type 0} where
  KeepsDue-refl : (n : ℕ) (w : TimingWheel H) → KeepsDue n w w
  KeepsDue-refl n w = record { same_length = refl; empty_stays = λ i e. e }

  KeepsDue-trans :
      {n : ℕ} {u v w : TimingWheel H} → KeepsDue n u v → KeepsDue n v w → KeepsDue n u w
  KeepsDue-trans p q = record {
    same_length = q.same_length ∙ p.same_length;
    empty_stays = λ i e. q.empty_stays i (p.empty_stays i e);
  }

  pub add-due :
      (h : Option H) (timeout : ℕ) (w : TimingWheel H)
      → w.ontimer ≡ true
      → chan_at (add h timeout w).0.buckets w.next_bucket ≡ chan_at w.buckets w.next_bucket
  unfolding add
  add-due h timeout w on =
      ground (arith, chan_at-push_at_ne w.buckets (due_bucket w timeout) w.next_bucket h)

  pub add-KeepsDue :
      (h : Option H) (timeout : ℕ) (w : TimingWheel H)
      → w.ontimer ≡ true
      → KeepsDue w.next_bucket w (add h timeout w).0
  add-KeepsDue h timeout w on =
      let same = add-due h timeout w on in
      record { same_length = rw same; empty_stays = λ i e. rw same e }

  clear_at-KeepsDue :
      (n bucket id : ℕ) (w : TimingWheel H) (chans : Chan H)
      → get_elem? w.buckets bucket ≡ some chans
      → KeepsDue n w (clear_at w bucket chans id)
  clear_at-KeepsDue n bucket id w chans here =
      let (l, is) = chan_at-get_elem? w.buckets bucket chans here in
      elim (ℕ_discrete bucket n) [
        | yes same ↦
            let now = chan_at-set_self w.buckets bucket (set chans id none) l in
            rw (← same) (record {
              same_length = rw (now, is) (length-set chans id none);
              empty_stays = λ i e. rw now (get_elem?-set-none chans i id (rw is at e));
            })
        | no other ↦
            let now = chan_at-set_ne w.buckets bucket n (set chans id none) other in
            record { same_length = rw now; empty_stays = λ i e. rw now e }
      ]

  remove-KeepsDue : (n slot : ℕ) (w v : TimingWheel H) → remove slot w ≡ ret v → KeepsDue n w v
  unfolding remove
  remove-KeepsDue n slot w v e = elim (Option-cases (get_elem? w.buckets (slot_bucket slot))) [
    | inl gone ↦ ground (arith, gone, KeepsDue-refl n w)
    | inr (chans, here) ↦ ground (
      arith,
      here,
      KeepsDue-refl n w,
      clear_at-KeepsDue n (slot_bucket slot) (slot_id slot) w chans here,
    )
  ]

  update-KeepsDue :
      (slot timeout : ℕ) (w : TimingWheel H) (r : TimingWheel H × ℕ)
      → w.ontimer ≡ true
      → update slot timeout w ≡ ret r
      → KeepsDue w.next_bucket w r.0
  unfolding update
  update-KeepsDue slot timeout w r on e =
      elim (Option-cases (get_elem? w.buckets (slot_bucket slot))) [
        | inl gone ↦ ground (arith, gone, KeepsDue-refl w.next_bucket w)
        | inr (chans, here) ↦
            let cleared = clear_at w (slot_bucket slot) chans (slot_id slot) in
            ground (
              arith,
              here,
              KeepsDue-refl w.next_bucket w,
              KeepsDue-trans
                  (clear_at-KeepsDue w.next_bucket (slot_bucket slot) (slot_id slot) w chans here)
                  (add-KeepsDue none timeout cleared on),
            )
      ]

  run_call-KeepsDue :
      (c : Call H) (w v : TimingWheel H)
      → w.ontimer ≡ true
      → run_call c w ≡ ret v
      → KeepsDue w.next_bucket w v
  unfolding run_call stop
  run_call-KeepsDue (adds h timeout) w v on e = ground (arith, add-KeepsDue (some h) timeout w on)
  run_call-KeepsDue (updates slot timeout) w v on e =
      let (r, ran, is) = >>=-eq-ret (update slot timeout w) (λ r. ret r.0) e in
      ground (arith, update-KeepsDue slot timeout w r on ran)
  run_call-KeepsDue (removes slot) w v on e = remove-KeepsDue w.next_bucket slot w v e
  run_call-KeepsDue stops w v on e = record {
    same_length = ground arith;
    empty_stays = λ i q. ground arith;
  }

  -- Whatever a handler asks of the wheel during a tick, the bucket in hand keeps its size, and an
  -- entry of it that is empty stays so.
  pub run_calls-KeepsDue :
      (cs : List (Call H)) (w v : TimingWheel H)
      → w.ontimer ≡ true
      → run_calls cs w ≡ ret v
      → KeepsDue w.next_bucket w v
  unfolding run_calls
  run_calls-KeepsDue [] w v on e = ground (arith, KeepsDue-refl w.next_bucket w)
  run_calls-KeepsDue (c ∷ cs) w v on e =
      let (u, ran, later) = >>=-eq-ret (run_call c w) (λ u. run_calls cs u) e in
      let frame = run_call-SameFrame c w u ran in
      KeepsDue-trans (run_call-KeepsDue c w u on ran)
        (rw (frame.same_next) at (run_calls-KeepsDue cs u v (ground arith) later))

  run_call-ne-unfinished : (c : Call H) (w : TimingWheel H) → run_call c w ≢ fault unfinished
  unfolding run_call update remove
  run_call-ne-unfinished (adds h timeout) w e = ground arith
  run_call-ne-unfinished (updates slot timeout) w e = ground arith
  run_call-ne-unfinished (removes slot) w e = ground arith
  run_call-ne-unfinished stops w e = ground arith

  run_calls-ne-unfinished :
      (cs : List (Call H)) (w : TimingWheel H) → run_calls cs w ≢ fault unfinished
  unfolding run_calls
  run_calls-ne-unfinished [] w e = cc
  run_calls-ne-unfinished (c ∷ cs) w e =
      elim (>>=-eq-fault (run_call c w) (λ u. run_calls cs u) e) [
        | inl first ↦ run_call-ne-unfinished c w first
        | inr (u, ran, later) ↦ run_calls-ne-unfinished cs u later
      ]

  -- What is known after a handler of the bucket in hand has run.
  record AfterRun (w v : TimingWheel H) : Type 0 where
    frame : SameFrame w v
    due : KeepsDue w.next_bucket w v

  run_calls-AfterRun :
      (cs : List (Call H)) (w v : TimingWheel H)
      → w.ontimer ≡ true
      → run_calls cs w ≡ ret v
      → AfterRun w v
  run_calls-AfterRun cs w v on e = record {
    frame = run_calls-SameFrame cs w v e;
    due = run_calls-KeepsDue cs w v on e;
  }

  module _ (script : H → TimingWheel H → List (Call H)) where
    -- The loop comes to an end within as many rounds as the bucket has entries left.
    fire-ne-unfinished :
        (fuel i : ℕ) (w : TimingWheel H)
        → w.ontimer ≡ true
        → length (chan_at w.buckets w.next_bucket) ≤ i + fuel
        → fire script fuel i w ≢ fault unfinished
    unfolding fire
    fire-ne-unfinished zero i w on l e =
        ground (arith, get_elem?-past (chan_at w.buckets w.next_bucket) i (omega arith))
    fire-ne-unfinished (suc fuel) i w on l e =
        elim (Entry-cases (get_elem? (chan_at w.buckets w.next_bucket) i)) [
          | past p ↦ ground (arith, p)
          | empty p ↦ ground (arith, p)
          | full h p ↦ elim (>>=-eq-fault (run_calls (script h w) w) _ (rw (p, fire) at e)) [
            | inl first ↦ run_calls-ne-unfinished (script h w) w first
            | inr (v, ran, on_with) ↦
                let a = run_calls-AfterRun (script h w) w v on ran in
                elim (>>=-eq-fault (fire script fuel (i + 1) v) _ on_with) [
                  | inl rest ↦
                      fire-ne-unfinished fuel (i + 1) v (ground (arith, a.frame))
                        (rw (a.frame.same_next) (omega (arith, a.due.same_length))) rest
                  | inr (q, went, is) ↦ ground arith
                ]
          ]
        ]

    -- Reaching an empty entry, the loop throws.
    fire_empty :
        (fuel i j : ℕ) (w : TimingWheel H) (r : TimingWheel H × List H)
        → w.ontimer ≡ true
        → i ≤ j
        → get_elem? (chan_at w.buckets w.next_bucket) j ≡ some none
        → fire script fuel i w ≢ ret r
    unfolding fire
    fire_empty zero i j w r on l hole e =
        let chans = chan_at w.buckets w.next_bucket in
        let (x, at) = get_elem?-within chans i (omega (arith, get_elem?-lt chans j hole)) in
        ground (arith, at)
    fire_empty (suc fuel) i j w r on l hole e =
        let chans = chan_at w.buckets w.next_bucket in
        let (x, at) = get_elem?-within chans i (omega (arith, get_elem?-lt chans j hole)) in
        elim (fire-eq-ret script fuel i w r e) [
          | inl (p, is) ↦ ground (arith, at)
          | inr (h, v, q, p, ran, went, is) ↦
              let a = run_calls-AfterRun (script h w) w v on ran in
              fire_empty fuel (i + 1) j v q (ground (arith, a.frame))
                (elim (ℕ_discrete i j) [
                  | yes same ↦ ground (arith, ap (get_elem? chans) same)
                  | no other ↦ omega arith
                ])
                (rw (a.frame.same_next) (a.due.empty_stays j hole)) went
        ]

    begin_unfinished :
        (w : TimingWheel H) (chans : Chan H)
        → chan_at w.buckets w.next_bucket ≡ chans
        → on_timer script w ≢ fault unfinished
    unfolding on_timer
    begin_unfinished w [] p e = ground (arith, p)
    begin_unfinished w (c ∷ cs) p e =
        elim (>>=-eq-fault (fire script (suc (length cs)) 0 (begin w)) _ (rw (p, on_timer) at e)) [
          | inl first ↦
              fire-ne-unfinished (suc (length cs)) 0 (begin w) refl (rw p (omega arith)) first
          | inr (q, went, is) ↦ ground arith
        ]

    -- Whatever the handlers do, the loop of a tick ends within the size that its bucket has at the
    -- start of the tick.
    pub on_timer_ends : (w : TimingWheel H) → on_timer script w ≢ fault unfinished
    on_timer_ends w = begin_unfinished w (chan_at w.buckets w.next_bucket) refl

    -- If an entry of the bucket that comes due is empty, as `remove` leaves it, the tick ends with a
    -- fault, whatever the handlers do.
    pub on_timer_hole :
        (w : TimingWheel H) (j : ℕ)
        → get_elem? (chan_at w.buckets w.next_bucket) j ≡ some none
        → (f : Fault) × (on_timer script w ≡ fault f) × (f ≢ unfinished)
    on_timer_hole w j hole = elim (Outcome-cases (on_timer script w)) [
      | inr (f, e) ↦ (f, e, λ u. on_timer_ends w (e ∙ ap fault u))
      | inl (r, e) ↦ absurd (elim (on_timer-eq-ret script w r e) [
        | inl (p, is) ↦ ground (arith, ap (λ c. get_elem? c j) p)
        | inr (q, went, is) ↦ fire_empty _ 0 j (begin w) q refl (omega arith) hole went
      ])
    ]
