-- ===== src/TimingWheel/Firing/Delivery.antt =====
-- A tick of `onTimer` whose handlers only add: it calls each handler of the due bucket once, in
-- order, and keeps the entries of the other buckets.
use libtnet.Base.{
  ℕ, zero, suc, ◌+◌, ◌%◌, ◌≡◌, ◌≢◌, refl, ap, sym, ◌∙◌, true, false, List, [], ◌∷◌, map, Option,
  some, arith, ℕ_discrete, length, get_elem?, drop,
}
use libtnet.Base.Outcome.{ret}
use libtnet.TimingWheel.{TimingWheel, Chan, Call, chan_at, begin, settle, advance, fire, on_timer}
use libtnet.TimingWheel.Buckets.{chan_at-set_self, chan_at-set_ne, get_elem?-past}
use libtnet.TimingWheel.Invariant.{IsWheel, SameFrame-IsWheel, settle-IsWheel, advance-IsWheel}
use libtnet.TimingWheel.Firing.Adds.{
  AreAdds, IsFull, AllFull, Grows, Grows-refl, Grows-trans, run_calls_adds, full_entry, drop_end,
}

module _ {H : Type 0} (script : H → TimingWheel H → List (Call H)) where
  -- Handlers only ever add.
  abbrev pub OnlyAdds : Type 0
  OnlyAdds = (h : H) (w : TimingWheel H) → AreAdds (script h w)

  pub record Fired (i : ℕ) (w : TimingWheel H) (fuel : ℕ) : Type 0 where
    pub result : TimingWheel H × List H
    pub returns : fire script fuel i w ≡ ret result
    pub called : map some result.1 ≡ drop i (chan_at w.buckets w.next_bucket)
    pub grows : Grows w result.0

  fire_adds :
      (fuel i : ℕ) (w : TimingWheel H)
      → OnlyAdds
      → IsWheel w
      → w.ontimer ≡ true
      → IsFull (chan_at w.buckets w.next_bucket)
      → i + fuel ≡ length (chan_at w.buckets w.next_bucket)
      → Fired i w fuel
  unfolding fire
  fire_adds zero i w only v on f l =
      let c = chan_at w.buckets w.next_bucket in
      record {
        result = (w, []);
        returns = ground (arith, get_elem?-past c i (omega arith));
        called = sym (drop_end c i (omega arith));
        grows = Grows-refl w;
      }
  fire_adds (suc fuel) i w only v on f l =
      let c = chan_at w.buckets w.next_bucket in
      let (h, at, split) = full_entry c i f (omega arith) in
      let ran = run_calls_adds (script h w) w (only h w) v on in
      let u = ran.after in
      let same : chan_at u.buckets u.next_bucket ≡ c =
        rw (ran.grows.frame.same_next) ran.due_same in
      let one : i + 1 ≡ suc i = omega arith in
      let rest =
        fire_adds fuel (i + 1) u only (SameFrame-IsWheel ran.grows.frame v)
          (ground (arith, ran.grows.frame)) (rw same f) (rw same (omega arith)) in
      record {
        result = (rest.result.0, h ∷ rest.result.1);
        returns = rw (at, fire) (rw (ran.returns) (rw (rest.returns)));
        called =
            ap (◌∷◌ (some h)) (rest.called ∙ ap (drop (i + 1)) same ∙ ap (λ k. drop k c) one)
            ∙ sym split;
        grows = Grows-trans ran.grows rest.grows;
      }

  -- A tick of a wheel that has no empty entry, with handlers that only add: it calls the handlers
  -- of the due bucket, each once and in order, and the entries of the other buckets stay.
  pub record Ticked (w : TimingWheel H) : Type 0 where
    pub result : TimingWheel H × List H
    pub returns : on_timer script w ≡ ret result
    pub called : map some result.1 ≡ chan_at w.buckets w.next_bucket
    pub valid : IsWheel result.0
    pub full : AllFull result.0
    pub idle : result.0.ontimer ≡ false
    pub moved : result.0.next_bucket ≡ (w.next_bucket + 1) % w.max_buckets
    pub same_max : result.0.max_buckets ≡ w.max_buckets
    pub others_stay :
        (j k : ℕ) (e : Option H)
        → j ≢ w.next_bucket
        → get_elem? (chan_at w.buckets j) k ≡ some e
        → get_elem? (chan_at result.0.buckets j) k ≡ some e

  settle-AllFull : (w : TimingWheel H) → IsWheel w → AllFull w → AllFull (advance (settle w))
  unfolding settle advance
  settle-AllFull w v f = record {
    full_buckets = λ j. elim (ℕ_discrete w.next_bucket j) [
      | yes same ↦
          rw (← same)
            (rw (chan_at-set_self w.buckets w.next_bucket w.curbucket (omega arith)) f.full_current)
      | no other ↦
          rw (chan_at-set_ne w.buckets w.next_bucket j w.curbucket other) (f.full_buckets j)
    ];
    full_current = tt;
  }

  settle-stays :
      (w : TimingWheel H) (j k : ℕ) (e : Option H)
      → j ≢ w.next_bucket
      → get_elem? (chan_at w.buckets j) k ≡ some e
      → get_elem? (chan_at (advance (settle w)).buckets j) k ≡ some e
  unfolding settle advance
  settle-stays w j k e ne at =
      rw (chan_at-set_ne w.buckets w.next_bucket j w.curbucket (λ q. ne (sym q))) at

  settle-next :
      (w : TimingWheel H)
      → ((advance (settle w)).next_bucket ≡ (w.next_bucket + 1) % w.max_buckets)
        × ((advance (settle w)).max_buckets ≡ w.max_buckets)
        × ((advance (settle w)).ontimer ≡ false)
  unfolding settle advance
  settle-next w = (refl, refl, refl)

  on_timer_empty :
      (w : TimingWheel H)
      → IsWheel w
      → AllFull w
      → w.ontimer ≡ false
      → chan_at w.buckets w.next_bucket ≡ []
      → Ticked w
  unfolding on_timer advance
  on_timer_empty w v f idle p = record {
    result = (advance w, []);
    returns = ground (arith, p);
    called = sym p;
    valid = advance-IsWheel w v;
    full = record { full_buckets = f.full_buckets; full_current = f.full_current };
    idle = idle;
    moved = refl;
    same_max = refl;
    others_stay = λ j k e ne at. at;
  }

  on_timer_full :
      (w : TimingWheel H) (c : Option H) (cs : Chan H)
      → OnlyAdds
      → IsWheel w
      → AllFull w
      → chan_at w.buckets w.next_bucket ≡ c ∷ cs
      → Ticked w
  unfolding on_timer
  on_timer_full w c cs only v f p =
      let b = begin w in
      let fired =
        fire_adds (suc (length cs)) 0 b only (ground arith) refl (f.full_buckets w.next_bucket)
          (rw p (omega arith)) in
      let u = fired.result.0 in
      let g = fired.grows in
      let u_valid = SameFrame-IsWheel g.frame (ground arith) in
      let (next, max, idle) = settle-next u in
      record {
        result = (advance (settle u), fired.result.1);
        returns = rw (p, on_timer) (rw (fired.returns));
        called = fired.called;
        valid = advance-IsWheel (settle u) (settle-IsWheel u u_valid);
        full =
            settle-AllFull u u_valid
              (g.stays_full (record { full_buckets = f.full_buckets; full_current = tt }));
        idle = idle;
        moved = ground (arith, next, g.frame);
        same_max = ground (arith, max, g.frame);
        others_stay = λ j k e ne at.
            settle-stays u j k e (rw (g.frame.same_next) ne) (g.entries_stay j k e at);
      }

  pub on_timer-Ticked :
      (w : TimingWheel H) → OnlyAdds → IsWheel w → AllFull w → w.ontimer ≡ false → Ticked w
  on_timer-Ticked w only v f idle = go (chan_at w.buckets w.next_bucket) refl
    where
      go : (c : Chan H) → chan_at w.buckets w.next_bucket ≡ c → Ticked w
      go [] p = on_timer_empty w v f idle p
      go (c ∷ cs) p = on_timer_full w c cs only v f p
