-- ===== src/IoLoop/Watched.antt =====
-- ioloop.cpp, as a table of descriptors: which have a handler, and which lose it when the round ends.
use libtnet.Base.{ℕ, Bool, true, false, ◌||◌, Option, none, some, ◌==◌, if◌then◌else◌}
use libtnet.IoLoop.{IoEvent}

-- The table as its users see it.
pub record Watched : Type 0 where
  pub table : ℕ → Option IoEvent
  pub doomed : ℕ → Bool

abbrev pub nobody : Watched
nobody = record { table = λ fd. none; doomed = λ fd. false }

abbrev pub put : ℕ → Option IoEvent → (ℕ → Option IoEvent) → ℕ → Option IoEvent
put fd v t i = if i == fd then v else t i

abbrev pub watch : Bool → ℕ → ℕ → ℕ → Watched → Watched × Bool
watch accepts fd events handler w = elim (w.table fd) [
  | some old ↦ (w, false)
  | none ↦
      if accepts
      then (
        record w { table = put fd (some (record { events = events; handler = handler })) w.table },
        true,
      )
      else (w, false)
]

abbrev pub change : Bool → ℕ → ℕ → Watched → Watched × Bool
change accepts fd events w = elim (w.table fd) [
  | none ↦ (w, false)
  | some e ↦
      if e.events == events
      then (w, true)
      else if accepts
      then (record w { table = put fd (some (record e { events = events })) w.table }, true)
      else (w, false)
]

abbrev pub doom : ℕ → Watched → Watched × Bool
doom fd w = elim (w.table fd) [
  | none ↦ (w, false)
  | some e ↦ (record w { doomed = λ i. w.doomed i || i == fd }, true)
]

abbrev pub sweep : Watched → Watched
sweep w = record { table = λ i. if w.doomed i then none else w.table i; doomed = λ i. false }
