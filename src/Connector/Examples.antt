-- ===== src/Connector/Examples.antt =====
-- A connector that is told of a failure, and one that reads.
use libtnet.Base.{◌≡◌, refl, Bool, true, false, List, [], ◌∷◌, ◌++◌}
use libtnet.Base.Bytes.{Bytes, codes}
use libtnet.Base.Outcome.{Outcome, ret}
use libtnet.Connection.{read_event, close_event}
use libtnet.Connector.{Handlers, Connector, bound_connect, bound_events, make, connect, on_events}

abbrev Seen : Type 0
Seen = List Bytes

abbrev note : Bytes → Seen → Outcome Seen
note bytes s = ret (s ++ bytes ∷ [])

abbrev handlers : Handlers Seen
handlers = record {
  handle_read = note;
  handle_write_complete = λ s. ret s;
  handle_error = λ s. ret s;
  handle_close = note (codes "closed");
}

abbrev word : Bool → Bytes
word true = codes "connected"
word false = codes "failed"

abbrev told : Bool → Connector Seen → Outcome (Connector Seen)
told connected c = ret (record c { derived = c.derived ++ word connected ∷ [] })

failed_is_told :
    connect handlers told true true [] (make [])
    ≡ ret (record (make []) { bound = bound_connect; derived = codes "failed" ∷ [] }, true)
unfolding connect make
failed_is_told = refl

abbrev open_one : Connector Seen
open_one = record {
  bound = bound_events;
  conn_alive = true;
  derived = codes "connected" ∷ [];
  log = [];
}

connects : connect handlers told true false [] (make []) ≡ ret (open_one, true)
unfolding connect make
connects = refl

reads :
    on_events handlers told ((read_event, codes "a") ∷ (close_event, []) ∷ []) open_one
    ≡ ret (record open_one { derived = codes "connected" ∷ codes "a" ∷ codes "closed" ∷ [] })
unfolding on_events
reads = refl
