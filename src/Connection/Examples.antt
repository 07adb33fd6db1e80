-- ===== src/Connection/Examples.antt =====
-- Runs of a connection whose program does nothing in its callback.
use libtnet.Base.{◌≡◌, refl, true, [], ◌∷◌, ◌++◌, append-nil, sym, arith}
use libtnet.Base.Bytes.{Bytes, codes}
use libtnet.Connection.{
  Connection, ConnEvent, connected, established, sends, shuts_down, wheel_closes, wrote, make, send,
  run,
}
use libtnet.Connection.Closes.{ClosedOnce}
use libtnet.Connection.Closing
use libtnet.Connection.Stream.{stream}
use libtnet.Connection.Stream

abbrev quiet : ConnEvent → Bytes → Connection → Connection
quiet event bytes s = s

abbrev opened : Connection
opened = record {
  has_callback = true;
  fd = 5;
  status = connected;
  last_active_time = 0;
  idle_timeout = 0;
  send_buffer = codes "ab";
  log = [];
}

run-ClosedOnce_example : ClosedOnce (
    run quiet
      (established 1
        ∷ sends 2 (codes "hi") (wrote 1)
        ∷ shuts_down 500
        ∷ wheel_closes
        ∷ wheel_closes
        ∷ [])
      (make true 5))
run-ClosedOnce_example =
    Closing.run-ClosedOnce quiet (λ event bytes s c. c)
      (established 1
        ∷ sends 2 (codes "hi") (wrote 1)
        ∷ shuts_down 500
        ∷ wheel_closes
        ∷ wheel_closes
        ∷ [])
      true 5

send-stream_example :
    let r = send quiet 7 (codes "cd") (wrote 3) opened in
    (r.1 ≡ true) × ((more : Bytes) × (stream r.0 ≡ (stream opened ++ codes "cd") ++ more))
send-stream_example =
    Stream.send-stream quiet (λ event bytes s. ([], sym (append-nil (stream s)))) 7 (codes "cd")
      (wrote 3) opened refl (omega arith)
