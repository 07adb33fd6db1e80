-- ===== src/IoLoop.antt =====
-- ioloop.h and ioloop.cpp, and ioevent.h: the table of handlers, and the rounds of the loop. What
-- the poller answers is an argument, and the functions of the program are numbers. A descriptor is
-- not negative. What is asked of the poller, the notifier, the wheel and of timers is `log`, in order.
pub mod Examples
pub mod Table
pub mod Watched
pub mod Refine
pub mod Reuse
use libtnet.Base.{
  ℕ, zero, suc, ◌+◌, ◌-◌, Bool, true, false, not, List, [], ◌∷◌, ◌++◌, Option, none, some, leb,
  ◌==◌, if◌then◌else◌, length, set, replicate,
}

-- `IOEvent`, but for the descriptor, which is its place.
pub record IoEvent : Type 0 where
  pub events : ℕ
  pub handler : ℕ

pub data Asked : Type 0 where
  -- `m_poller->add`, `update` and `remove`
  poller_added : ℕ → ℕ → Asked
  poller_updated : ℕ → ℕ → Asked
  poller_removed : ℕ → Asked
  -- `m_notifier`
  notifier_started : Asked
  notified : Asked
  notifier_stopped : Asked
  -- `m_wheel`
  wheel_started : Asked
  wheel_added : ℕ → ℕ → Asked
  -- a `Timer` that runs a function once
  timer_started : ℕ → ℕ → Asked

pub record IoLoop : Type 0 where
  pub running : Bool
  pub events : List (Option IoEvent)
  pub del_events : List ℕ
  pub callbacks : List ℕ
  pub log : List Asked

abbrev pub default_events_capacity : ℕ
default_events_capacity = 1024

pub make : IoLoop
make = record {
  running = false;
  events = replicate default_events_capacity none;
  del_events = [];
  callbacks = [];
  log = [];
}

abbrev pub ask : Asked → IoLoop → IoLoop
ask a l = record l { log = l.log ++ a ∷ [] }

-- `m_events[fd]`, of a descriptor in range
unfoldable pub entry : List (Option IoEvent) → ℕ → Option IoEvent
entry [] fd = none
entry (e ∷ es) zero = e
entry (e ∷ es) (suc fd) = entry es fd

-- `m_events.resize(n, 0)`, to a size that is not less
pub resize : ℕ → List (Option IoEvent) → List (Option IoEvent)
resize n es = es ++ replicate (n - length es) none

abbrev pub grown : ℕ → List (Option IoEvent) → List (Option IoEvent)
grown fd es = if leb (length es) fd then resize (fd + 1) es else es

-- The result is whether the code returns 0. The first argument is the poller's answer.
pub add_handler : Bool → ℕ → ℕ → ℕ → IoLoop → IoLoop × Bool
unfolding entry resize
add_handler accepts fd events handler l =
    let es = grown fd l.events in
    let large = record l { events = es } in
    let asked = ask (poller_added fd events) large in
    let added = record asked {
      events = set es fd (some (record { events = events; handler = handler }));
    } in
    elim (entry es fd) [
      | some old ↦ (large, false)
      | none ↦ if accepts then (added, true) else (asked, false)
    ]

pub update_handler : Bool → ℕ → ℕ → IoLoop → IoLoop × Bool
unfolding entry
update_handler accepts fd events l =
    if leb (length l.events) fd then (l, false) else elim (entry l.events fd) [
      | none ↦ (l, false)
      | some e ↦
          let asked = ask (poller_updated fd events) l in
          let updated = record asked {
            events = set l.events fd (some (record e { events = events }));
          } in
          if e.events == events
          then (l, true)
          else if accepts
          then (updated, true)
          else (asked, false)
    ]

-- The handler stays until the end of the round.
pub remove_handler : ℕ → IoLoop → IoLoop × Bool
unfolding entry
remove_handler fd l = if leb (length l.events) fd then (l, false) else elim (entry l.events fd) [
  | none ↦ (l, false)
  | some e ↦ (record l { del_events = l.del_events ++ fd ∷ [] }, true)
]

pub true_remove_handler : ℕ → IoLoop → IoLoop
unfolding entry
true_remove_handler fd l = if leb (length l.events) fd then l else elim (entry l.events fd) [
  | none ↦ l
  | some e ↦ record (ask (poller_removed fd) l) { events = set l.events fd none }
]

pub remove_all : List ℕ → IoLoop → IoLoop
unfolding true_remove_handler
remove_all [] l = l
remove_all (fd ∷ fds) l = remove_all fds (true_remove_handler fd l)

pub check_del_events : IoLoop → IoLoop
unfolding remove_all
check_del_events l = record (remove_all l.del_events l) { del_events = [] }

pub add_callback : ℕ → IoLoop → IoLoop
add_callback callback l = ask notified (record l { callbacks = l.callbacks ++ callback ∷ [] })

pub run_after : ℕ → ℕ → IoLoop → IoLoop
run_after after callback l = ask (timer_started after callback) l

pub run_in_wheel : ℕ → ℕ → IoLoop → IoLoop
run_in_wheel timeout handler l = ask (wheel_added timeout handler) l

pub stop : IoLoop → IoLoop
stop l = if l.running then ask notified (record l { running = false }) else l

-- What the functions of the program do to the loop.
module _ (script : ℕ → IoLoop → IoLoop) where
  pub run_callbacks : List ℕ → IoLoop → IoLoop
  run_callbacks [] l = l
  run_callbacks (c ∷ cs) l = run_callbacks cs (script c l)

  -- The callbacks that are there at the start; those that come in meanwhile wait.
  pub handle_callbacks : IoLoop → IoLoop
  unfolding run_callbacks
  handle_callbacks l = run_callbacks l.callbacks (record l { callbacks = [] })

  -- `run`, round by round, with what each `poll` does.
  pub run : List (IoLoop → IoLoop) → IoLoop → IoLoop
  unfolding handle_callbacks check_del_events
  run [] l = l
  run (poll ∷ polls) l =
      let rest = run polls (check_del_events (handle_callbacks (poll l))) in
      if l.running then rest else ask notifier_stopped l

  pub start : List (IoLoop → IoLoop) → IoLoop → IoLoop
  unfolding run
  start polls l =
      if l.running
      then l
      else run polls (ask wheel_started (ask notifier_started (record l { running = true })))
