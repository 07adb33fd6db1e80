-- ===== src/TimingWheel/Invariant.antt =====
-- What holds of every wheel: the shape of `m_buckets` and the range of `m_nextBucket`.
use libtnet.Base.{
  ℕ, zero, suc, ◌+◌, ◌*◌, ◌^◌, ◌<◌, ◌≡◌, refl, ◌⊎◌, inl, inr, Bool, List, [], ◌∷◌, Option, none,
  some, arith, Option-cases, length, get_elem?, set, length-set, length-replicate,
}
use libtnet.Base.Outcome.{ret, >>=-eq-ret}
use libtnet.TimingWheel.{
  TimingWheel, Chan, Call, adds, updates, removes, stops, make, stop, chan_at, due_bucket, add,
  clear_at, update, remove, run_call, run_calls, begin, settle, advance, fire, on_timer,
  slot_bucket, slot_id,
}
use libtnet.TimingWheel.Buckets.{length-push_at}

pub record IsWheel {H : Type 0} (w : TimingWheel H) : Type 0 where
  pub interval_pos : 0 < w.interval
  pub next_in_range : w.next_bucket < w.max_buckets
  pub bucket_count : length w.buckets ≡ w.max_buckets
  pub max_is : w.max_timeout ≡ w.interval * w.max_buckets
  pub fits_int : w.max_buckets < 2 ^ 31

-- What a call leaves alone, whoever makes it.
pub record SameFrame {H : Type 0} (w v : TimingWheel H) : Type 0 where
  pub same_interval : v.interval ≡ w.interval
  pub same_max : v.max_buckets ≡ w.max_buckets
  pub same_timeout : v.max_timeout ≡ w.max_timeout
  pub same_next : v.next_bucket ≡ w.next_bucket
  pub same_ontimer : v.ontimer ≡ w.ontimer
  pub same_count : length v.buckets ≡ length w.buckets

module _ {H : Type 0} where
  pub SameFrame-refl : (w : TimingWheel H) → SameFrame w w
  SameFrame-refl w = ground arith

  pub SameFrame-trans : {u v w : TimingWheel H} → SameFrame u v → SameFrame v w → SameFrame u w
  SameFrame-trans p q = ground arith

  pub SameFrame-IsWheel : {w v : TimingWheel H} → SameFrame w v → IsWheel w → IsWheel v
  SameFrame-IsWheel f v = ground arith

  pub add-SameFrame :
      (h : Option H) (timeout : ℕ) (w : TimingWheel H) → SameFrame w (add h timeout w).0
  unfolding add
  add-SameFrame h timeout w = ground (arith, length-push_at w.buckets (due_bucket w timeout) h)

  pub clear_at-SameFrame :
      (w : TimingWheel H) (bucket id : ℕ) (chans : Chan H)
      → SameFrame w (clear_at w bucket chans id)
  clear_at-SameFrame w bucket id chans =
      ground (arith, length-set w.buckets bucket (set chans id none))

  pub remove-SameFrame : (slot : ℕ) (w v : TimingWheel H) → remove slot w ≡ ret v → SameFrame w v
  unfolding remove
  remove-SameFrame slot w v e = elim (Option-cases (get_elem? w.buckets (slot_bucket slot))) [
    | inl gone ↦ ground (arith, gone)
    | inr (chans, here) ↦
        ground (arith, here, clear_at-SameFrame w (slot_bucket slot) (slot_id slot) chans)
  ]

  pub update-SameFrame :
      (slot timeout : ℕ) (w : TimingWheel H) (r : TimingWheel H × ℕ)
      → update slot timeout w ≡ ret r
      → SameFrame w r.0
  unfolding update
  update-SameFrame slot timeout w r e =
      elim (Option-cases (get_elem? w.buckets (slot_bucket slot))) [
        | inl gone ↦ ground (arith, gone)
        | inr (chans, here) ↦
            let cleared = clear_at w (slot_bucket slot) chans (slot_id slot) in
            ground (
              arith,
              here,
              clear_at-SameFrame w (slot_bucket slot) (slot_id slot) chans,
              add-SameFrame none timeout cleared,
            )
      ]

  pub run_call-SameFrame : (c : Call H) (w v : TimingWheel H) → run_call c w ≡ ret v → SameFrame w v
  unfolding run_call stop
  run_call-SameFrame (adds h timeout) w v e = ground (arith, add-SameFrame (some h) timeout w)
  run_call-SameFrame (updates slot timeout) w v e =
      let (r, ran, is) = >>=-eq-ret (update slot timeout w) (λ r. ret r.0) e in
      ground (arith, update-SameFrame slot timeout w r ran)
  run_call-SameFrame (removes slot) w v e = remove-SameFrame slot w v e
  run_call-SameFrame stops w v e = ground arith

  pub run_calls-SameFrame :
      (cs : List (Call H)) (w v : TimingWheel H) → run_calls cs w ≡ ret v → SameFrame w v
  unfolding run_calls
  run_calls-SameFrame [] w v e = ground arith
  run_calls-SameFrame (c ∷ cs) w v e =
      let (u, ran, later) = >>=-eq-ret (run_call c w) (λ u. run_calls cs u) e in
      SameFrame-trans (run_call-SameFrame c w u ran) (run_calls-SameFrame cs u v later)

-- What stands at an index of a bucket.
pub data Entry {H : Type 0} (o : Option (Option H)) : Type 0 where
  past : o ≡ none → Entry o
  empty : o ≡ some none → Entry o
  full : (h : H) → o ≡ some (some h) → Entry o

module _ {H : Type 0} where
  pub Entry-cases : (o : Option (Option H)) → Entry o
  Entry-cases none = past refl
  Entry-cases (some none) = empty refl
  Entry-cases (some (some h)) = full h refl

  pub make-IsWheel :
      (running : Bool) (interval max_buckets : ℕ)
      → 0 < interval
      → 0 < max_buckets
      → max_buckets < 2 ^ 31
      → IsWheel (make {H = H} running interval max_buckets)
  unfolding make
  make-IsWheel running interval max_buckets p q r = record {
    interval_pos = p;
    next_in_range = q;
    bucket_count = length-replicate max_buckets [];
    max_is = refl;
    fits_int = r;
  }

  pub settle-IsWheel : (w : TimingWheel H) → IsWheel w → IsWheel (settle w)
  unfolding settle
  settle-IsWheel w v = ground (arith, length-set w.buckets w.next_bucket w.curbucket)

  pub advance-IsWheel : (w : TimingWheel H) → IsWheel w → IsWheel (advance w)
  unfolding advance
  advance-IsWheel w v = record {
    interval_pos = v.interval_pos;
    next_in_range = omega arith;
    bucket_count = v.bucket_count;
    max_is = v.max_is;
    fits_int = v.fits_int;
  }

  module _ (script : H → TimingWheel H → List (Call H)) where
    -- A round of the loop that returns: it found the end, or ran a handler and went on.
    pub fire-eq-ret :
        (fuel i : ℕ) (w : TimingWheel H) (r : TimingWheel H × List H)
        → fire script (suc fuel) i w ≡ ret r
        → ((get_elem? (chan_at w.buckets w.next_bucket) i ≡ none) × (r ≡ (w, [])))
          ⊎ ((h : H) × (v : TimingWheel H) × (q : TimingWheel H × List H) × (get_elem?
                  (chan_at w.buckets w.next_bucket)
                  i
                ≡ some (some h))
              × (run_calls (script h w) w ≡ ret v)
              × (fire script fuel (i + 1) v ≡ ret q)
              × (r ≡ (q.0, h ∷ q.1)))
    unfolding fire
    fire-eq-ret fuel i w r e = elim (Entry-cases (get_elem? (chan_at w.buckets w.next_bucket) i)) [
      | past p ↦ inl (p, ground (arith, p))
      | empty p ↦ ground (arith, p)
      | full h p ↦
          let (v, ran, on) = >>=-eq-ret (run_calls (script h w) w) _ (rw (p, fire) at e) in
          let (q, went, is) = >>=-eq-ret (fire script fuel (i + 1) v) _ on in
          inr (h, v, q, p, ran, went, ground arith)
    ]

    pub fire-SameFrame :
        (fuel i : ℕ) (w : TimingWheel H) (r : TimingWheel H × List H)
        → fire script fuel i w ≡ ret r
        → SameFrame w r.0
    unfolding fire
    fire-SameFrame zero i w r e =
        elim (Entry-cases (get_elem? (chan_at w.buckets w.next_bucket) i)) [
          | past p ↦ ground (arith, p)
          | empty p ↦ ground (arith, p)
          | full h p ↦ ground (arith, p)
        ]
    fire-SameFrame (suc fuel) i w r e = elim (fire-eq-ret fuel i w r e) [
      | inl (p, is) ↦ ground arith
      | inr (h, v, q, p, ran, went, is) ↦
          let before = run_calls-SameFrame (script h w) w v ran in
          let after = fire-SameFrame fuel (i + 1) v q went in ground (arith, before, after)
    ]

    -- A tick that returns: the due bucket was empty, or its loop returned.
    pub on_timer-eq-ret :
        (w : TimingWheel H) (r : TimingWheel H × List H)
        → on_timer script w ≡ ret r
        → ((chan_at w.buckets w.next_bucket ≡ []) × (r ≡ (advance w, [])))
          ⊎ ((q : TimingWheel H × List H) × (fire script
                  (length (chan_at w.buckets w.next_bucket))
                  0
                  (begin w)
                ≡ ret q)
              × (r ≡ (advance (settle q.0), q.1)))
    unfolding on_timer
    on_timer-eq-ret w r e = go (chan_at w.buckets w.next_bucket) refl
      where
        go :
            (chans : Chan H)
            → chan_at w.buckets w.next_bucket ≡ chans
            → ((chan_at w.buckets w.next_bucket ≡ []) × (r ≡ (advance w, [])))
              ⊎ ((q : TimingWheel H × List H) × (fire script
                      (length (chan_at w.buckets w.next_bucket))
                      0
                      (begin w)
                    ≡ ret q)
                  × (r ≡ (advance (settle q.0), q.1)))
        go [] p = inl (p, ground (arith, p))
        go (c ∷ cs) p =
            let (q, went, is) =
              >>=-eq-ret (fire script (suc (length cs)) 0 (begin w)) _ (rw (p, on_timer) at e) in
            inr (q, rw p went, ground arith)

    -- A tick that returns keeps the shape of the wheel, whatever the handlers ask of it.
    pub on_timer-IsWheel :
        (w : TimingWheel H) (r : TimingWheel H × List H)
        → IsWheel w
        → on_timer script w ≡ ret r
        → IsWheel r.0
    on_timer-IsWheel w r v e = elim (on_timer-eq-ret w r e) [
      | inl (p, is) ↦ rw is (advance-IsWheel w v)
      | inr (q, went, is) ↦ rw is (
          advance-IsWheel _
            (settle-IsWheel _ (SameFrame-IsWheel (fire-SameFrame _ 0 _ q went) (ground arith))))
    ]
