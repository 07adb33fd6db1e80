-- ===== src/Poller/Rounds.antt =====
-- poller.cpp and ioloop.cpp together: the handlers that a round calls.
use Prim.Native.Nat.{min}
use libtnet.Base.{
  ℕ, ◌*◌, ◌≤◌, ◌≡◌, refl, sym, ap, ◌∙◌, Bool, true, List, [], ◌∷◌, ◌++◌, Option, none, some, ◌==◌,
  ==_iff, length, All, append-nil, append_assoc, subst, on_branches, on_option, arith,
}
use libtnet.IoLoop.{IoLoop, IoEvent, entry}
use libtnet.IoLoop.Watched.{Watched, put}
use libtnet.IoLoop.Refine.{
  Call, adds, updates, removes, round_ends, call, specified, calls, Refines, mem, call-specified,
}
use libtnet.Poller.{
  Ready, Called, Round, Poller, call_handler, on_ready, on_all, poll, grown, got, unwanted,
  adjusted, default_event_size, max_event_size,
}

-- A call that a handler may make.
abbrev pub IsUse : Call → Type 0
IsUse round_ends = ⊥
IsUse _ = Unit

-- Whoever has a handler keeps it.
abbrev pub Keeps : IoLoop → IoLoop → Type 0
Keeps l m =
    (fd : ℕ) (e : IoEvent)
    → entry l.events fd ≡ some e
    → (d : IoEvent) × (entry m.events fd ≡ some d) × (d.handler ≡ e.handler)

abbrev TableKeeps : Watched → Watched → Type 0
TableKeeps w x =
    (fd : ℕ) (e : IoEvent)
    → w.table fd ≡ some e
    → (d : IoEvent) × (x.table fd ≡ some d) × (d.handler ≡ e.handler)

-- The handler of an entry, if it has one.
abbrev pub handler_of : Option IoEvent → ℕ
handler_of none = 0
handler_of (some e) = e.handler

abbrev as_table : IoLoop → Watched
as_table l = record { table = entry l.events; doomed = λ fd. mem fd l.del_events }

as_table-Refines : (l : IoLoop) → Refines l (as_table l)
as_table-Refines l = record { entries = λ fd. refl; pending = λ fd. refl }

put-TableKeeps :
    (w : Watched) (fd : ℕ) (e : IoEvent)
    → ((old : IoEvent) → w.table fd ≡ some old → e.handler ≡ old.handler)
    → TableKeeps w (record w { table = put fd (some e) w.table })
put-TableKeeps w fd e same i d there =
    on_branches (λ o. (x : IoEvent) × (o ≡ some x) × (x.handler ≡ d.handler)) (i == fd)
      (λ b. (e, refl, same d (ap w.table (sym ((==_iff i fd).0 b)) ∙ there)))
      (λ b. (d, there, refl))

specified-TableKeeps : (c : Call) (w : Watched) → IsUse c → TableKeeps w (specified c w).0
specified-TableKeeps (adds accepts fd events handler) w use_ =
    on_option (λ (r : Watched × Bool). TableKeeps w r.0) (w.table fd)
      (λ free.
        on_branches (λ (r : Watched × Bool). TableKeeps w r.0) accepts
          (λ b. put-TableKeeps w fd _ (λ old there. absurd (cc (sym free ∙ there))))
          (λ b fd' e there. (e, there, refl)))
      (λ e taken fd' d there. (d, there, refl))
specified-TableKeeps (updates accepts fd events) w use_ =
    on_option (λ (r : Watched × Bool). TableKeeps w r.0) (w.table fd)
      (λ free fd' e there. (e, there, refl))
      (λ e taken.
        on_branches (λ (r : Watched × Bool). TableKeeps w r.0) (e.events == events)
          (λ b fd' d there. (d, there, refl))
          (λ b.
            on_branches (λ (r : Watched × Bool). TableKeeps w r.0) accepts
              (λ c. put-TableKeeps w fd _ (λ old there. ap handler_of (sym taken ∙ there)))
              (λ c fd' d there. (d, there, refl))))
specified-TableKeeps (removes fd) w use_ =
    on_option (λ (r : Watched × Bool). TableKeeps w r.0) (w.table fd)
      (λ free fd' e there. (e, there, refl)) (λ e taken fd' d there. (d, there, refl))
specified-TableKeeps round_ends w use_ = elim use_ [ ]

call-Keeps : (c : Call) (l : IoLoop) → IsUse c → Keeps l (call c l).0
call-Keeps c l use_ fd e there =
    let (kept, same) = call-specified c l (as_table l) (as_table-Refines l) in
    let (d, stays, handler) = specified-TableKeeps c (as_table l) use_ fd e there in
    (d, kept.entries fd ∙ stays, handler)

Keeps-trans : (l m n : IoLoop) → Keeps l m → Keeps m n → Keeps l n
Keeps-trans l m n first_half second_half fd e there =
    let (d, in_m, same) = first_half fd e there in
    let (c, in_n, same') = second_half fd d in_m in (c, in_n, same' ∙ same)

calls-Keeps : (cs : List Call) (l : IoLoop) → All IsUse cs → Keeps l (calls cs l).1
calls-Keeps [] l uses = λ fd e there. (e, there, refl)
calls-Keeps (c ∷ cs) l (use_, uses) =
    Keeps-trans l (call c l).0 (calls cs (call c l).0).1 (call-Keeps c l use_)
      (calls-Keeps cs (call c l).0 uses)

-- The calls of a round, of the handlers that the loop has at its start.
abbrev pub expected : IoLoop → List (ℕ × (Ready × Bool)) → List Called
expected l [] = []
expected l ((fd, (r, accepted)) ∷ rs) =
    record { fd = fd; handler = handler_of (entry l.events fd); events = got r } ∷ expected l rs

-- The descriptor has a handler, and `epoll_ctl` does not fail for it.
abbrev pub IsServed : IoLoop → ℕ × (Ready × Bool) → Type 0
IsServed l (fd, (r, accepted)) = (accepted ≡ true) × ((e : IoEvent) × (entry l.events fd ≡ some e))

module _ (uses : ℕ → ℕ → IoLoop → List Call)
    (only_uses : (handler events : ℕ) (l : IoLoop) → All IsUse (uses handler events l)) where
  abbrev pub script : ℕ → ℕ → IoLoop → IoLoop
  script handler events l = (calls (uses handler events l) l).1

  on_ready-called :
      (fd : ℕ) (r : Ready) (accepted : Bool) (s : Round) (d : IoEvent)
      → accepted ≡ true
      → entry s.loop.events fd ≡ some d
      → ((on_ready script fd r accepted s).called
          ≡ s.called ++ record { fd = fd; handler = d.handler; events = got r } ∷ [])
        × ((on_ready script fd r accepted s).loop ≡ script d.handler (got r) s.loop)
  unfolding on_ready call_handler
  on_ready-called fd r accepted s d ok there =
      rw (on_ready, there)
        (on_branches Done (unwanted r d.events)
          (λ b. on_branches Done accepted (λ c. (refl, refl)) (λ c. absurd (cc (sym ok ∙ c))))
          (λ b. (refl, refl)))
    where
      Done : Round → Type 0
      Done t =
          (t.called ≡ s.called ++ record { fd = fd; handler = d.handler; events = got r } ∷ [])
          × (t.loop ≡ script d.handler (got r) s.loop)

  on_all-expected :
      (l : IoLoop) (rs : List (ℕ × (Ready × Bool))) (s : Round)
      → All (IsServed l) rs
      → Keeps l s.loop
      → ((on_all script rs s).called ≡ s.called ++ expected l rs)
        × Keeps l (on_all script rs s).loop
  unfolding on_all
  on_all-expected l [] s served kept = (sym (append-nil s.called), kept)
  on_all-expected l ((fd, (r, accepted)) ∷ rs) s ((ok, (e, there)), served) kept =
      let (d, now, same) = kept fd e there in
      let (called, looped) = on_ready-called fd r accepted s d ok now in
      let t = on_ready script fd r accepted s in
      let keeps = calls-Keeps (uses d.handler (got r) s.loop) s.loop (only_uses _ _ _) in
      let (all, still) =
        on_all-expected l rs t served
          (Keeps-trans l s.loop t.loop kept (subst (Keeps s.loop) (sym looped) keeps)) in
      (
        all
            ∙ ap (λ c. c ++ expected l rs) called
            ∙ append_assoc s.called _ (expected l rs)
            ∙ ap (λ h. s.called ++ record { fd = fd; handler = h; events = got r } ∷ expected l rs)
                (same ∙ sym (ap handler_of there)),
        still,
      )

  -- Whatever the handlers do to the loop in a round, by adding, updating and removing descriptors:
  -- if each descriptor that is ready has a handler at its start, and `epoll_ctl` does not fail, each
  -- is given to the handler that it had then, once and in order, with what is ready, and whoever has a
  -- handler has it still when the round ends.
  pub poll-expected :
      (rs : List (ℕ × (Ready × Bool))) (s : Round)
      → All (IsServed s.loop) rs
      → ((poll script (some rs) s).0.called ≡ s.called ++ expected s.loop rs)
        × Keeps s.loop (poll script (some rs) s).0.loop
        × ((poll script (some rs) s).1 ≡ some (length rs))
  unfolding poll
  poll-expected rs s served =
      let (called, kept) = on_all-expected s.loop rs s served (λ fd e there. (e, there, refl)) in
      (called, kept, refl)

abbrev size_of : Round → ℕ
size_of s = s.poller.event_size

module _ (script : ℕ → ℕ → IoLoop → IoLoop) where
  on_ready-event_size :
      (fd : ℕ) (r : Ready) (accepted : Bool) (s : Round)
      → size_of (on_ready script fd r accepted s) ≡ size_of s
  unfolding on_ready call_handler adjusted
  on_ready-event_size fd r accepted s =
      on_option SameSize (entry s.loop.events fd) (λ e. refl)
        (λ io e.
          on_branches SameSize (unwanted r io.events)
            (λ b. on_branches SameSize accepted (λ c. unasked io) (λ c. unasked io)) (λ b. refl))
    where
      SameSize : Round → Type 0
      SameSize t = size_of t ≡ size_of s

      unasked : (io : IoEvent) → (adjusted fd io.events s.poller).event_size ≡ size_of s
      unasked io =
          on_branches (λ (p : Poller). p.event_size ≡ size_of s) (io.events == 0) (λ b. refl)
            (λ b. refl)

  on_all-event_size :
      (rs : List (ℕ × (Ready × Bool))) (s : Round) → size_of (on_all script rs s) ≡ size_of s
  unfolding on_all
  on_all-event_size [] s = refl
  on_all-event_size ((fd, (r, accepted)) ∷ rs) s =
      on_all-event_size rs (on_ready script fd r accepted s) ∙ on_ready-event_size fd r accepted s

  abbrev Fits : ℕ → Type 0
  Fits n = (default_event_size ≤ n) × (n ≤ max_event_size)

  grown-Fits :
      (ready size : ℕ)
      → Fits size
      → Fits (grown script ready size)
        × (ready ≡ size → grown script ready size ≡ min (size * 2) max_event_size)
  unfolding grown
  grown-Fits ready size (low, high) = (ground arith, λ e. ground arith)

  -- The buffer of events keeps its size between 1024 and 10240, whatever is ready and whatever the
  -- handlers do; when a poll has filled it, it is larger afterwards, or has the largest size, so that
  -- four such polls are enough for the largest.
  pub poll-event_size :
      (answer : Option (List (ℕ × (Ready × Bool)))) (s : Round)
      → (default_event_size ≤ s.poller.event_size)
      → s.poller.event_size ≤ max_event_size
      → (default_event_size ≤ (poll script answer s).0.poller.event_size)
        × ((poll script answer s).0.poller.event_size ≤ max_event_size)
        × ((poll script answer s).1 ≡ some s.poller.event_size
            → (poll script answer s).0.poller.event_size
              ≡ min (s.poller.event_size * 2) max_event_size)
  unfolding poll grown
  poll-event_size none s low high = (low, high, λ e. absurd (cc e))
  poll-event_size (some rs) s low high =
      let same = on_all-event_size rs s in
      let (fits, doubled) = grown-Fits (length rs) (size_of s) (low, high) in
      subst
        (λ n.
          (default_event_size ≤ grown script (length rs) n)
          × (grown script (length rs) n ≤ max_event_size)
          × (some (length rs) ≡ some s.poller.event_size
              → grown script (length rs) n ≡ min (s.poller.event_size * 2) max_event_size))
        (sym same) (fits.0, fits.1, λ full. doubled (ap count full))
    where
      count : Option ℕ → ℕ
      count none = 0
      count (some n) = n
