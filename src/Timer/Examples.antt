-- ===== src/Timer/Examples.antt =====
-- A timer that fires once, and one that is set late in a second.
use libtnet.Base.{◌≡◌, refl, true, false, List, [], ◌∷◌, some, none}
use libtnet.Base.Int.{pos}
use libtnet.Timer.{Timespec, Itimerspec, time_set, watch, handler_called, unwatch, make, deadline}
use libtnet.Timer.Watching.{Event, fires, used, starts, run, use_all, use_timer}

abbrev late : Timespec
late = record { tv_sec = 5; tv_nsec = 900000000 }

abbrev once : List Event
once = used starts ∷ fires true [] ∷ []

abbrev set_to : Itimerspec
set_to = record { it_interval = none; it_value = record { tv_sec = 6; tv_nsec = 1100000000 } }

fires_once : run once (make (some 4) late (pos 0) 1200) ≡ record {
  fd = some 4;
  running = false;
  repeated = false;
  log = time_set set_to ∷ watch ∷ handler_called ∷ unwatch ∷ [];
}
unfolding run make use_timer use_all
fires_once = refl

-- The nanoseconds are more than a second.
set_late : deadline late 1200 ≡ record { tv_sec = 6; tv_nsec = 1100000000 }
unfolding deadline
set_late = refl
