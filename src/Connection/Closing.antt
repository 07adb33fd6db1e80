-- ===== src/Connection/Closing.antt =====
-- connection.cpp: the descriptor of a connection is closed once.
use libtnet.Base.{
  ◌==◌, ℕ, ◌+◌, ◌≡◌, refl, Bool, true, false, not, ◌&&◌, List, [], ◌∷◌, ◌++◌, Option, none, some,
  arith, on_branches, ltb, length, take,
}
use libtnet.Base.Bytes.{Bytes}
use libtnet.Connection.{
  Connection, connected, disconnecting, ConnEvent, listen_event, connect_event, conn_fail_event,
  read_event, write_complete_event, error_event, close_event, watch, rewatch, written, close_after,
  for_read, for_read_write, Wrote, wrote, write_again, write_failed, Got, got, ended, read_again,
  read_failed, Events, Input, established, connects, reported, sends, shuts_down, wheel_closes,
  make, ask, is_empty, is_disconnected, is_connected, is_connecting, is_close, is_not_open,
  disconnect, notify, handle_error, handle_close, shut_down, handle_write, after_write, after_read,
  send, handle_read, handle_connect, on_established, connect, on_readable, on_writable, on_handler,
  step, run, watch_fd, update_active_time,
}
use libtnet.Connection.Closes.{
  closes, ClosedOnce, KeepsClosed, ask-ClosedOnce, move-ClosedOnce, disconnect-ClosedOnce,
  open_of_connected, open_of_not_open, open_of_not_close,
}

module _ (callback : ConnEvent → Bytes → Connection → Connection)
    (keeps : KeepsClosed callback) where
  notify-ClosedOnce :
      (event : ConnEvent) (bytes : Bytes) (s : Connection)
      → ClosedOnce s
      → ClosedOnce (notify callback event bytes s)
  unfolding notify
  notify-ClosedOnce event bytes s c =
      on_branches ClosedOnce s.has_callback (λ e. keeps event bytes s c) (λ e. c)

  handle_error-ClosedOnce : (s : Connection) → ClosedOnce s → ClosedOnce (handle_error callback s)
  unfolding handle_error
  handle_error-ClosedOnce s c =
      notify-ClosedOnce error_event [] (disconnect s).0 (disconnect-ClosedOnce s c)

  handle_close-ClosedOnce : (s : Connection) → ClosedOnce s → ClosedOnce (handle_close callback s)
  unfolding handle_close
  handle_close-ClosedOnce s c = by_flag (disconnect s).1
    where
      by_flag :
          (b : Bool)
          → ClosedOnce (elim b [
            | true ↦ notify callback close_event [] (disconnect s).0
            | false ↦ (disconnect s).0
          ])
      by_flag true = notify-ClosedOnce close_event [] (disconnect s).0 (disconnect-ClosedOnce s c)
      by_flag false = disconnect-ClosedOnce s c

  shut_down-ClosedOnce :
      (after : ℕ) (s : Connection) → ClosedOnce s → ClosedOnce (shut_down callback after s)
  unfolding shut_down closes
  shut_down-ClosedOnce after s c =
      on_branches ClosedOnce (is_close s.status) (λ e. c)
        (λ before.
          let moved = move-ClosedOnce disconnecting s (open_of_not_close s.status before) refl c in
          on_branches ClosedOnce (after == 0) (λ e. handle_close-ClosedOnce _ moved)
            (λ e. ask-ClosedOnce (close_after after) _ refl moved))

  after_write-ClosedOnce :
      (now : ℕ) (bytes : Bytes) (answer : Wrote) (s : Connection)
      → ClosedOnce s
      → ClosedOnce (after_write callback now bytes answer s)
  unfolding after_write closes
  after_write-ClosedOnce now bytes write_failed s c =
      handle_error-ClosedOnce _ (record { close_count = c.close_count })
  after_write-ClosedOnce now bytes write_again s c =
      ask-ClosedOnce (rewatch for_read_write) (record s { send_buffer = s.send_buffer ++ bytes })
        refl (record { close_count = c.close_count })
  after_write-ClosedOnce now bytes (wrote n) s c =
      let took = ask-ClosedOnce (written (take n (s.send_buffer ++ bytes))) s refl c in
      on_branches ClosedOnce (n == length s.send_buffer + length bytes)
        (λ e. record {
          close_count =
              (ask-ClosedOnce (rewatch for_read) _ refl (
                notify-ClosedOnce write_complete_event [] _
                  (record { close_count = took.close_count }))).close_count;
        })
        (λ e.
          ask-ClosedOnce (rewatch for_read_write) _ refl
            (record { close_count = took.close_count }))

  handle_write-ClosedOnce :
      (now : ℕ) (bytes : Bytes) (answer : Wrote) (s : Connection)
      → ClosedOnce s
      → ClosedOnce (handle_write callback now bytes answer s)
  unfolding handle_write closes
  handle_write-ClosedOnce now bytes answer s c =
      on_branches ClosedOnce (not (is_connected s.status)) (λ e. c)
        (λ e.
          on_branches ClosedOnce (is_empty s.send_buffer && is_empty bytes)
            (λ e. ask-ClosedOnce (rewatch for_read) s refl c)
            (λ e. after_write-ClosedOnce now bytes answer s c))

  handle_read-ClosedOnce :
      (now : ℕ) (answer : Got) (s : Connection)
      → ClosedOnce s
      → ClosedOnce (handle_read callback now answer s)
  unfolding handle_read after_read
  handle_read-ClosedOnce now answer s c =
      on_branches ClosedOnce (not (is_connected s.status)) (λ e. c) (λ e. by_answer answer)
    where
      by_answer : (a : Got) → ClosedOnce (after_read callback now a s)
      by_answer (got bytes) =
          notify-ClosedOnce read_event bytes (update_active_time now s)
            (record { close_count = c.close_count })
      by_answer ended = handle_close-ClosedOnce s c
      by_answer read_again = c
      by_answer read_failed = handle_error-ClosedOnce s c

  -- The end of the three ways into `connected`.
  opened-ClosedOnce :
      (now : ℕ) (event : ConnEvent) (s : Connection)
      → is_disconnected s.status ≡ false
      → ClosedOnce s
      → ClosedOnce (
          notify callback event []
            (watch_fd callback (update_active_time now (record s { status = connected }))))
  unfolding closes
  opened-ClosedOnce now event s before c =
      let moved = move-ClosedOnce connected s before refl c in
      let timed : ClosedOnce (update_active_time now (record s { status = connected })) = record {
        close_count = moved.close_count;
      } in
      notify-ClosedOnce event [] _ (
        on_branches ClosedOnce (ltb 0 s.fd) (λ e. ask-ClosedOnce (watch for_read) _ refl timed)
          (λ e. timed))

  handle_connect-ClosedOnce :
      (now : ℕ) (failed : Bool) (s : Connection)
      → ClosedOnce s
      → ClosedOnce (handle_connect callback now failed s)
  unfolding handle_connect closes
  handle_connect-ClosedOnce now failed s c =
      on_branches ClosedOnce (not (is_connected s.status)) (λ e. c)
        (λ on.
          let before = open_of_connected s.status (ground (arith, on)) in
          let asked = ask-ClosedOnce (rewatch for_read) s refl c in
          on_branches ClosedOnce failed (λ e. handle_error-ClosedOnce s c)
            (λ e.
              notify-ClosedOnce connect_event []
                (record (update_active_time now (ask (rewatch for_read) s)) { status = connected })
                (record {
                  close_count = (move-ClosedOnce connected _ before refl asked).close_count;
                })))

  on_handler-ClosedOnce :
      (e : Events) (s : Connection) → ClosedOnce s → ClosedOnce (on_handler callback e s)
  unfolding on_handler on_readable on_writable
  on_handler-ClosedOnce e s c =
      let after = written_part e.writable _ (read_part e.readable) in
      on_branches ClosedOnce e.in_error (λ b. handle_error-ClosedOnce _ after) (λ b. after)
    where
      read_part : (a : Option Got) → ClosedOnce (on_readable callback e.now a s)
      read_part none = c
      read_part (some answer) = handle_read-ClosedOnce e.now answer s c

      written_part :
          (a : Option (Bool × Wrote)) (t : Connection)
          → ClosedOnce t
          → ClosedOnce (on_writable callback e.now a t)
      written_part none t d = d
      written_part (some (failed, answer)) t d =
          on_branches ClosedOnce (is_connecting t.status)
            (λ b. handle_connect-ClosedOnce e.now failed t d)
            (λ b. handle_write-ClosedOnce e.now [] answer t d)

  step-ClosedOnce : (i : Input) (s : Connection) → ClosedOnce s → ClosedOnce (step callback i s)
  unfolding step on_established connect send
  step-ClosedOnce (established now) s c =
      on_branches ClosedOnce (not (is_not_open s.status)) (λ e. c)
        (λ e.
          opened-ClosedOnce now listen_event s (open_of_not_open s.status (ground (arith, e))) c)
  step-ClosedOnce (connects now failed) s c =
      on_branches ClosedOnce (not (is_not_open s.status)) (λ e. c)
        (λ e.
          on_branches ClosedOnce failed (λ b. notify-ClosedOnce conn_fail_event [] s c)
            (λ b.
              opened-ClosedOnce now connect_event s (open_of_not_open s.status (ground (arith, e)))
                c))
  step-ClosedOnce (reported e) s c = on_handler-ClosedOnce e s c
  step-ClosedOnce (sends now bytes answer) s c =
      on_branches (λ (r : Connection × Bool). ClosedOnce r.0) (not (is_connected s.status)) (λ e. c)
        (λ e. handle_write-ClosedOnce now bytes answer s c)
  step-ClosedOnce (shuts_down after) s c = shut_down-ClosedOnce after s c
  step-ClosedOnce wheel_closes s c = handle_close-ClosedOnce s c

  steps-ClosedOnce :
      (is : List Input) (s : Connection) → ClosedOnce s → ClosedOnce (run callback is s)
  unfolding run
  steps-ClosedOnce [] s c = c
  steps-ClosedOnce (i ∷ is) s c = steps-ClosedOnce is (step callback i s) (step-ClosedOnce i s c)

  -- Whatever happens to a connection and whatever the system answers, if the program's callback
  -- keeps to it, the descriptor has been closed once when the connection is disconnected, and not
  -- at all when it is not.
  pub run-ClosedOnce :
      (inputs : List Input) (has_callback : Bool) (fd : ℕ)
      → ClosedOnce (run callback inputs (make has_callback fd))
  unfolding make closes
  run-ClosedOnce inputs has_callback fd =
      steps-ClosedOnce inputs (make has_callback fd) (record { close_count = refl })
