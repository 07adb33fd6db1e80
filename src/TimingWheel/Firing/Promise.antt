-- ===== src/TimingWheel/Firing/Promise.antt =====
-- The promise of the wheel: a handler that was added is called at its tick, provided that nobody
-- takes entries out, which is what `update` and `remove` do.
use native.Mathlib.Nat.{mod-add-mod, mod-eq_of_lt, mod-eq-sub-mod}
use libtnet.Base.{
  ℕ, zero, suc, ◌+◌, ◌*◌, ◌/◌, ◌%◌, ◌<◌, ◌≡◌, ◌≢◌, refl, ap, ◌∙◌, false, List, [], ◌∷◌, map, some,
  arith, length, get_elem?,
}
use libtnet.Base.Outcome.{Outcome, ret, ◌>>=◌}
use libtnet.TimingWheel.{TimingWheel, Call, chan_at, due_bucket, add, on_timer}
use libtnet.TimingWheel.Buckets.{chan_at-push_at_self, get_elem?-last}
use libtnet.TimingWheel.Invariant.{IsWheel, SameFrame-IsWheel}
use libtnet.TimingWheel.Slots.{FitsSlots, due_bucket-lt, add_idle}
use libtnet.TimingWheel.Firing.Adds.{AllFull, add-Grows}
use libtnet.TimingWheel.Firing.Delivery.{OnlyAdds, on_timer-Ticked}

-- The handler at an index of a list of handlers was the entry at that index.
get_elem?-map-some {ℓ} :
    {A : Type ℓ} (xs : List A) (k : ℕ) {a : A}
    → get_elem? (map some xs) k ≡ some (some a)
    → get_elem? xs k ≡ some a
get_elem?-map-some [] k e = cc
get_elem?-map-some (x ∷ xs) zero e = ground arith
get_elem?-map-some (x ∷ xs) (suc k) e = get_elem?-map-some xs k e

next_step : (n d m : ℕ) → 0 < m → (n + suc d) % m ≡ ((n + 1) % m + d) % m
next_step n d m p =
    let e : n + suc d ≡ n + 1 + d = omega arith in rw (mod-add-mod (n + 1) m d) (ap (λ k. k % m) e)

no_step : (n m : ℕ) → n < m → (n + 0) % m ≡ n
no_step n m p = let e : n + 0 ≡ n = omega arith in rw e (mod-eq_of_lt p)

div_below : (t i m : ℕ) → t < i * m → t / i < m
div_below t i m h = grind arith

not_yet : (n d m : ℕ) → n < m → suc d < m → (n + suc d) % m ≢ n
not_yet n d m p q = grind (arith, mod-eq_of_lt, mod-eq-sub-mod)

module _ {H : Type 0} (script : H → TimingWheel H → List (Call H)) where
  -- The timer goes off `n` times.
  abbrev pub ticks : ℕ → TimingWheel H → Outcome (TimingWheel H)
  ticks zero w = ret w
  ticks (suc n) w = do r ← on_timer script w; ticks n r.0

  pub ticks_deliver :
      (d k : ℕ) (w : TimingWheel H) (h : H)
      → OnlyAdds script
      → IsWheel w
      → AllFull w
      → w.ontimer ≡ false
      → d < w.max_buckets
      → get_elem? (chan_at w.buckets ((w.next_bucket + d) % w.max_buckets)) k ≡ some (some h)
      → (u : TimingWheel H) × (q : TimingWheel H × List H) × (ticks d w ≡ ret u)
        × (on_timer script u ≡ ret q)
        × (get_elem? q.1 k ≡ some h)
  ticks_deliver zero k w h only v f idle l at =
      let t = on_timer-Ticked script w only v f idle in
      let here : (w.next_bucket + 0) % w.max_buckets ≡ w.next_bucket =
        no_step w.next_bucket w.max_buckets (omega arith) in
      (
        w,
        t.result,
        refl,
        t.returns,
        get_elem?-map-some t.result.1 k (ap (λ c. get_elem? c k) t.called ∙ (rw here at at)),
      )
  ticks_deliver (suc d) k w h only v f idle l at =
      let t = on_timer-Ticked script w only v f idle in
      let same = next_step w.next_bucket d w.max_buckets (omega arith) in
      let w' = t.result.0 in
      let place : (w.next_bucket + suc d) % w.max_buckets ≡ (w'.next_bucket + d) % w'.max_buckets =
        rw (t.moved, t.same_max) same in
      let (u, q, ran, last, called) =
        ticks_deliver d k w' h only t.valid t.full t.idle (rw (t.same_max) (omega arith)) (
          rw place at (
            t.others_stay _ k (some h) (not_yet w.next_bucket d w.max_buckets (omega arith) l)
              at)) in
      (u, q, rw (t.returns) ran, last, called)

  -- With handlers that only add, on a wheel with no empty entry and outside of a tick, a handler
  -- added with a timeout below the limit is called by the tick that follows
  -- `timeout / interval` others, at its place in the order of its bucket. All these ticks return.
  pub add_promise :
      (w : TimingWheel H) (h : H) (timeout : ℕ)
      → OnlyAdds script
      → IsWheel w
      → AllFull w
      → FitsSlots w
      → w.ontimer ≡ false
      → timeout < w.max_timeout
      → (u : TimingWheel H) × (q : TimingWheel H × List H) × (ticks
            (timeout / w.interval)
            (add (some h) timeout w).0
          ≡ ret u)
        × (on_timer script u ≡ ret q)
        × (get_elem? q.1 (length (chan_at w.buckets (due_bucket w timeout))) ≡ some h)
  unfolding due_bucket
  add_promise w h timeout only v f fits idle inside =
      let g = add-Grows h timeout w v in
      let due = due_bucket w timeout in
      let pushed = add_idle w (some h) timeout fits idle inside in
      let l : due < length w.buckets = omega (arith, due_bucket-lt w timeout v) in
      ticks_deliver (timeout / w.interval) (length (chan_at w.buckets due))
        (add (some h) timeout w).0 h only (SameFrame-IsWheel g.frame v) (g.stays_full f)
        (ground (arith, g.frame))
        (rw (g.frame.same_max)
          (div_below timeout w.interval w.max_buckets (rw (← v.max_is) inside)))
        (rw (g.frame.same_next, g.frame.same_max)
          (rw pushed (
            rw (chan_at-push_at_self w.buckets due (some h) l)
              (get_elem?-last (chan_at w.buckets due) (some h)))))
