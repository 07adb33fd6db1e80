-- ===== src/Poller/Examples.antt =====
-- Two descriptors are ready; the handler of the first removes the second, which is called all the same.
use libtnet.Base.{ℕ, ◌≡◌, refl, Bool, true, false, List, [], ◌∷◌, ◌++◌, some, All}
use libtnet.IoLoop.{IoLoop, entry}
use libtnet.IoLoop.Refine.{Call, removes}
use libtnet.Poller.{Ready, Round, poll}
use libtnet.Poller.Rounds.{IsUse, IsServed, Keeps, expected, script}
use libtnet.Poller.Rounds

abbrev readable : Ready
readable = record { is_in = true; is_out = false; is_err = false; is_hup = false; is_rdhup = false }

abbrev removing : ℕ → ℕ → IoLoop → List Call
removing handler events l = removes 1 ∷ []

removing-IsUse : (handler events : ℕ) (l : IoLoop) → All IsUse (removing handler events l)
removing-IsUse handler events l = (tt, tt)

abbrev two : IoLoop
two = record {
  running = true;
  events =
      some (record { events = 1; handler = 10 }) ∷ some (record { events = 1; handler = 11 }) ∷ [];
  del_events = [];
  callbacks = [];
  log = [];
}

abbrev start : Round
start = record { poller = record { fd = 3; event_size = 1024; log = [] }; loop = two; called = [] }

abbrev ready_fds : List (ℕ × (Ready × Bool))
ready_fds = (0, (readable, true)) ∷ (1, (readable, true)) ∷ []

ready_fds-IsServed : All (IsServed two) ready_fds
unfolding entry
ready_fds-IsServed = ((refl, (_, refl)), ((refl, (_, refl)), tt))

poll-expected_example :
    ((poll (script removing removing-IsUse) (some ready_fds) start).0.called
      ≡ [] ++ expected two ready_fds)
    × Keeps two (poll (script removing removing-IsUse) (some ready_fds) start).0.loop
    × ((poll (script removing removing-IsUse) (some ready_fds) start).1 ≡ some 2)
poll-expected_example =
    Rounds.poll-expected removing removing-IsUse ready_fds start ready_fds-IsServed

abbrev quiet : ℕ → ℕ → IoLoop → IoLoop
quiet handler events l = l
