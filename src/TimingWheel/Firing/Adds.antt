-- ===== src/TimingWheel/Firing/Adds.antt =====
-- What calls of `add` do to a wheel that is in the middle of a tick, or not.
use libtnet.Base.{
  ℕ, zero, suc, ◌≤◌, ◌<◌, ◌≡◌, ◌≢◌, refl, ◌∙◌, inl, inr, true, List, [], ◌∷◌, ◌++◌, Option, none,
  some, arith, Bool-cases, dec_lt, ℕ_discrete, length, get_elem?, drop,
}
use libtnet.Base.Outcome.{ret}
use libtnet.TimingWheel.{
  TimingWheel, Chan, Call, adds, updates, removes, stops, push_at, chan_at, due_bucket, add,
  run_call, run_calls,
}
use libtnet.TimingWheel.Buckets.{chan_at-push_at_self, chan_at-push_at_ne}
use libtnet.TimingWheel.Invariant.{
  IsWheel, SameFrame, SameFrame-refl, SameFrame-trans, SameFrame-IsWheel, add-SameFrame,
}
use libtnet.TimingWheel.Firing.{add-due}
use libtnet.TimingWheel.Slots.{due_bucket-lt, push_at-keeps}

module _ {H : Type 0} where
  abbrev pub AreAdds : List (Call H) → Type 0
  AreAdds [] = Unit
  AreAdds (adds h timeout ∷ cs) = AreAdds cs
  AreAdds (updates slot timeout ∷ cs) = ⊥
  AreAdds (removes slot ∷ cs) = ⊥
  AreAdds (stops ∷ cs) = ⊥

  abbrev pub IsFull : Chan H → Type 0
  IsFull [] = Unit
  IsFull (some h ∷ c) = IsFull c
  IsFull (none ∷ c) = ⊥

  -- No entry is empty.
  pub record AllFull (w : TimingWheel H) : Type 0 where
    pub full_buckets : (i : ℕ) → IsFull (chan_at w.buckets i)
    pub full_current : IsFull w.curbucket

  IsFull-concat : (c : Chan H) (h : H) → IsFull c → IsFull (c ++ some h ∷ [])
  IsFull-concat [] h f = tt
  IsFull-concat (some x ∷ c) h f = IsFull-concat c h f
  IsFull-concat (none ∷ c) h f = f

  -- What calls of `add` do to the wheel.
  pub record Grows (w v : TimingWheel H) : Type 0 where
    pub frame : SameFrame w v
    pub entries_stay :
        (j k : ℕ) (e : Option H)
        → get_elem? (chan_at w.buckets j) k ≡ some e
        → get_elem? (chan_at v.buckets j) k ≡ some e
    pub stays_full : AllFull w → AllFull v

  pub Grows-refl : (w : TimingWheel H) → Grows w w
  Grows-refl w = record {
    frame = SameFrame-refl w;
    entries_stay = λ j k e p. p;
    stays_full = λ f. f;
  }

  pub Grows-trans : {u v w : TimingWheel H} → Grows u v → Grows v w → Grows u w
  Grows-trans p q = record {
    frame = SameFrame-trans p.frame q.frame;
    entries_stay = λ j k e at. q.entries_stay j k e (p.entries_stay j k e at);
    stays_full = λ f. q.stays_full (p.stays_full f);
  }

  -- The three things that `add` can do.
  data Added (h : Option H) (timeout : ℕ) (w : TimingWheel H) : Type 0 where
    refused : (add h timeout w).0 ≡ w → Added h timeout w
    held :
        w.ontimer ≡ true
        → (add h timeout w).0 ≡ record w { curbucket = w.curbucket ++ h ∷ [] }
        → Added h timeout w
    pushed :
        ((w.ontimer ≡ true) → due_bucket w timeout ≢ w.next_bucket)
        → (add h timeout w).0 ≡ record w { buckets = push_at w.buckets (due_bucket w timeout) h }
        → Added h timeout w

  add_cases : (h : Option H) (timeout : ℕ) (w : TimingWheel H) → Added h timeout w
  unfolding add
  add_cases h timeout w = elim (dec_lt timeout w.max_timeout) [
    | no late ↦ refused (ground arith)
    | yes inside ↦ elim (Bool-cases w.ontimer) [
      | inr idle ↦ pushed (λ on. ground arith) (ground arith)
      | inl on ↦ elim (ℕ_discrete (due_bucket w timeout) w.next_bucket) [
        | yes due ↦ held on (ground arith)
        | no other ↦ pushed (λ _. other) (ground arith)
      ]
    ]
  ]

  push_at-IsFull :
      (bs : List (Chan H)) (i j : ℕ) (h : H)
      → i < length bs
      → IsFull (chan_at bs j)
      → IsFull (chan_at (push_at bs i (some h)) j)
  push_at-IsFull bs i j h l f = elim (ℕ_discrete i j) [
    | yes same ↦
        rw (← same)
          (rw (chan_at-push_at_self bs i (some h) l) (IsFull-concat (chan_at bs i) h (rw same f)))
    | no other ↦ rw (chan_at-push_at_ne bs i j (some h) other) f
  ]

  pub add-Grows :
      (h : H) (timeout : ℕ) (w : TimingWheel H) → IsWheel w → Grows w (add (some h) timeout w).0
  add-Grows h timeout w v = elim (add_cases (some h) timeout w) [
    | refused is ↦ rw is (Grows-refl w)
    | held on is ↦ record {
      frame = add-SameFrame (some h) timeout w;
      entries_stay = rw is (λ j k e at. at);
      stays_full = rw is (λ f. record {
        full_buckets = f.full_buckets;
        full_current = IsFull-concat w.curbucket h f.full_current;
      });
    }
    | pushed other is ↦
        let l : due_bucket w timeout < length w.buckets =
          omega (arith, due_bucket-lt w timeout v) in
        record {
          frame = add-SameFrame (some h) timeout w;
          entries_stay =
              rw is (λ j k e at. push_at-keeps w.buckets (due_bucket w timeout) j k (some h) l at);
          stays_full = rw is (λ f. record {
            full_buckets =
                λ j. push_at-IsFull w.buckets (due_bucket w timeout) j h l (f.full_buckets j);
            full_current = f.full_current;
          });
        }
  ]

  -- Handlers that only add return, and leave the bucket in hand as it is.
  pub record RunsAdds (cs : List (Call H)) (w : TimingWheel H) : Type 0 where
    pub after : TimingWheel H
    pub returns : run_calls cs w ≡ ret after
    pub grows : Grows w after
    pub due_same : chan_at after.buckets w.next_bucket ≡ chan_at w.buckets w.next_bucket

  pub run_calls_adds :
      (cs : List (Call H)) (w : TimingWheel H)
      → AreAdds cs
      → IsWheel w
      → w.ontimer ≡ true
      → RunsAdds cs w
  unfolding run_calls run_call
  run_calls_adds [] w a v on = record {
    after = w;
    returns = refl;
    grows = Grows-refl w;
    due_same = refl;
  }
  run_calls_adds (adds h timeout ∷ cs) w a v on =
      let first = add-Grows h timeout w v in
      let u = (add (some h) timeout w).0 in
      let rest =
        run_calls_adds cs u a (SameFrame-IsWheel first.frame v) (ground (arith, first.frame)) in
      record {
        after = rest.after;
        returns = rest.returns;
        grows = Grows-trans first rest.grows;
        due_same = rw (first.frame.same_next) at (rest.due_same) ∙ add-due (some h) timeout w on;
      }
  run_calls_adds (updates slot timeout ∷ cs) w a v on = elim a [ ]
  run_calls_adds (removes slot ∷ cs) w a v on = elim a [ ]
  run_calls_adds (stops ∷ cs) w a v on = elim a [ ]

  pub full_entry :
      (c : Chan H) (i : ℕ)
      → IsFull c
      → i < length c
      → (h : H) × (get_elem? c i ≡ some (some h)) × (drop i c ≡ some h ∷ drop (suc i) c)
  full_entry [] i f l = elim l [ ]
  full_entry (some h ∷ c) zero f l = (h, refl, refl)
  full_entry (some x ∷ c) (suc i) f l = full_entry c i f (omega arith)
  full_entry (none ∷ c) i f l = elim f [ ]

  pub drop_end : (c : Chan H) (i : ℕ) → length c ≤ i → drop i c ≡ []
  drop_end [] zero l = refl
  drop_end [] (suc i) l = refl
  drop_end (x ∷ c) zero l = elim l [ ]
  drop_end (x ∷ c) (suc i) l = drop_end c i (omega arith)
