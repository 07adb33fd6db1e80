-- ===== src/IoLoop/Reuse.antt =====
-- ioloop.cpp: a descriptor that loses its handler and gets another.
use libtnet.Base.{
  ℕ, ◌≡◌, refl, ap, ◌∙◌, subst, Bool, true, false, ◌||◌, Option, none, some, ◌==◌, ==_iff,
  if◌then◌else◌,
}
use libtnet.IoLoop.{IoLoop, IoEvent, entry, add_handler, remove_handler, check_del_events}
use libtnet.IoLoop.Refine.{
  Refines, Agree, mem, add_handler-watch, remove_handler-doom, check_del_events-sweep,
}
use libtnet.IoLoop.Watched.{Watched, sweep}

abbrev view : IoLoop → Watched
view l = record { table = entry l.events; doomed = λ fd. mem fd l.del_events }

view-Refines : (l : IoLoop) → Refines l (view l)
view-Refines l = record { entries = λ fd. refl; pending = λ fd. refl }

abbrev with_doomed : ℕ → Watched → Watched
with_doomed fd w = record w { doomed = λ i. w.doomed i || i == fd }

removed :
    (fd : ℕ) (e : IoEvent) (l : IoLoop)
    → entry l.events fd ≡ some e
    → Agree (remove_handler fd l) (with_doomed fd (view l), true)
removed fd e l has =
    subst (Agree (remove_handler fd l))
      (ap
        (λ o. elim o as (λ _. Watched × Bool) [
          | none ↦ (view l, false)
          | some old ↦ (with_doomed fd (view l), true)
        ])
        has)
      (remove_handler-doom fd l (view l) (view-Refines l))

-- A handler that is removed stands in the way of another one for its descriptor until the round
-- ends: `addHandler` fails before, whatever the poller says, and succeeds after, if the poller does.
pub add_handler-remove_handler :
    (fd events handler : ℕ) (accepts : Bool) (e : IoEvent) (l : IoLoop)
    → entry l.events fd ≡ some e
    → ((remove_handler fd l).1 ≡ true)
      × ((add_handler accepts fd events handler (remove_handler fd l).0).1 ≡ false)
      × ((add_handler accepts fd events handler (check_del_events (remove_handler fd l).0)).1
          ≡ accepts)
add_handler-remove_handler fd events handler accepts e l has =
    let (waits, done) = removed fd e l has in
    let w = with_doomed fd (view l) in
    let early = add_handler-watch accepts fd events handler (remove_handler fd l).0 w waits in
    let swept = check_del_events-sweep (remove_handler fd l).0 w waits in
    let late =
      add_handler-watch accepts fd events handler (check_del_events (remove_handler fd l).0)
        (sweep w) swept in
    (
      done,
      early.1 ∙ ap (outcome w) has,
      late.1 ∙ ap (outcome (sweep w)) (gone (mem fd l.del_events)) ∙ by_poller accepts _ _,
    )
  where
    outcome : Watched → Option IoEvent → Bool
    outcome w o =
        (elim o as (λ _. Watched × Bool) [
          | some old ↦ (w, false)
          | none ↦
              if accepts
              then (
                record w {
                  table = λ i.
                      if i == fd
                      then some (record { events = events; handler = handler })
                      else w.table i;
                },
                true,
              )
              else (w, false)
        ]).1

    gone : (b : Bool) → (if b || fd == fd then none else entry l.events fd) ≡ none
    gone true = refl
    gone false = ap (λ c. if c then none else entry l.events fd) ((==_iff fd fd).1 refl)

    by_poller :
        (b : Bool) (x y : Watched)
        → (if◌then◌else◌ {A = Watched × Bool} b (x, true) (y, false)).1 ≡ b
    by_poller true x y = refl
    by_poller false x y = refl
