-- ===== src/Process/Examples.antt =====
-- Two workers, of which one dies and is replaced, and the end of both.
use libtnet.Base.{◌≡◌, refl, true, false, List, [], ◌∷◌, ◌++◌, none, some, arith, length}
use libtnet.Process.{
  Process, in_parent, in_child, fork_failed, Turn, child_dead, nobody_dead, waits, returns, slept,
  sigterm, make, wait, wait_loop, insert, erase, fd_closed, called_back,
}
use libtnet.Process.Workers.{AllNew, Replaces, Buries, started, forks, kills, pauses}
use libtnet.Process.Workers

abbrev one_dies : List Turn
one_dies = nobody_dead none ∷ child_dead 11 (in_parent 13) ∷ nobody_dead (some 1) ∷ []

two-AllNew : AllNew (11 ∷ 12 ∷ []) []
unfolding AllNew insert
two-AllNew = (refl, (refl, tt))

one_dies-Replaces : Replaces one_dies (started (11 ∷ 12 ∷ []) [])
unfolding Replaces insert erase
one_dies-Replaces = (refl, (refl, (13, refl, refl, (refl, tt))))

wait-Serves_example :
    (q : Process) × (wait (forks (11 ∷ 12 ∷ [])) one_dies make ≡ waits q)
    × (length q.children ≡ 2)
    × (q.running ≡ true)
unfolding make
wait-Serves_example =
    Workers.wait-Serves 11 (12 ∷ []) one_dies make refl two-AllNew one_dies-Replaces

abbrev two : Process
two = record { running = true; children = 12 ∷ 13 ∷ []; log = [] }

abbrev both_die : List Turn
both_die =
    nobody_dead none
    ∷ child_dead 13 (in_parent 14)
    ∷ nobody_dead (some sigterm)
    ∷ child_dead 12 fork_failed
    ∷ []

both-Buries : Buries both_die (12 ∷ 13 ∷ [])
unfolding Buries erase
both-Buries = (refl, (refl, (refl, (refl, refl))))

wait_loop-stops_example :
    wait_loop (nobody_dead (some sigterm) ∷ both_die ++ nobody_dead none ∷ []) two
    ≡ returns (record two {
      running = false;
      children = [];
      log = (([] ++ kills (12 ∷ 13 ∷ [])) ++ slept ∷ []) ++ pauses both_die;
    })
wait_loop-stops_example =
    Workers.wait_loop-stops both_die [] (nobody_dead none) two refl (omega arith) both-Buries

child_calls_back :
    wait (in_parent 11 ∷ in_child 12 ∷ in_parent 13 ∷ []) [] make
    ≡ returns (record { running = true; children = []; log = fd_closed ∷ called_back ∷ [] })
unfolding wait make
child_calls_back = refl
