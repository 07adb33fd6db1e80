-- ===== src/IoLoop/Examples.antt =====
-- Calls on a new loop, and what the table says to them.
use libtnet.Base.{ℕ, ◌≡◌, refl, true, false, List, [], ◌∷◌}
use libtnet.IoLoop.{make, entry}
use libtnet.IoLoop.Refine.{Call, adds, updates, removes, round_ends, calls, specified_calls, mem}
use libtnet.IoLoop.Watched.{nobody}
use libtnet.IoLoop.Refine

abbrev some_calls : List Call
some_calls =
    adds true 5 1 7
    ∷ removes 5
    ∷ adds true 5 1 8
    ∷ round_ends
    ∷ updates true 5 3
    ∷ adds true 2000 1 8
    ∷ []

-- What the table says to these calls.
some_results :
    (specified_calls some_calls nobody).0 ≡ true ∷ true ∷ false ∷ true ∷ false ∷ true ∷ []
some_results = refl

calls-refine_table_example :
    ((calls some_calls make).0 ≡ (specified_calls some_calls nobody).0)
    × ((fd : ℕ)
        → entry (calls some_calls make).1.events fd
          ≡ (specified_calls some_calls nobody).1.table fd)
    × ((fd : ℕ)
        → mem fd (calls some_calls make).1.del_events
          ≡ (specified_calls some_calls nobody).1.doomed fd)
calls-refine_table_example = Refine.calls-refine_table some_calls
