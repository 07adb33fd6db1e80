-- ===== src/Notifier.antt =====
-- notifier.h and notifier.cpp, on Linux: what wakes the loop. What the system answers is an argument;
-- a descriptor that is `none` is negative, and `log` is what is asked of the system, the loop and the
-- program, in order.
use libtnet.Base.{
  ℕ, Bool, true, false, not, List, [], ◌∷◌, ◌++◌, Option, none, some, ltb, if◌then◌else◌,
}

pub data Asked : Type 0 where
  watch : Asked
  unwatch : Asked
  -- `eventfd_write`
  written : Asked
  handler_called : Asked
  closed : Asked

pub record Notifier : Type 0 where
  pub fd : Option ℕ
  pub running : Bool
  pub log : List Asked

-- The argument is what `eventfd` gives.
pub make : Option ℕ → Notifier
make fd = record { fd = fd; running = false; log = [] }

abbrev pub ask : Asked → Notifier → Notifier
ask a s = record s { log = s.log ++ a ∷ [] }

abbrev pub is_open : Option ℕ → Bool
is_open none = false
is_open (some fd) = ltb 0 fd

pub destroy : Notifier → Notifier
destroy s = if is_open s.fd then ask closed s else s

pub start : Notifier → Notifier
start s =
    let begun = record s { running = true } in
    if s.running then s else if is_open s.fd then ask watch begun else begun

pub stop : Notifier → Notifier
stop s =
    let ended = record s { running = false } in
    if not s.running then s else if is_open s.fd then ask unwatch ended else ended

pub notify : Notifier → Notifier
notify s = ask written s

-- `readable` is whether `eventfd_read` succeeds.
pub on_event : Bool → Notifier → Notifier
on_event readable s = if not readable then s else ask handler_called s
