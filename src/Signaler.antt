-- ===== src/Signaler.antt =====
-- signaler.h and signaler.cpp, on Linux: signals as events of the loop. What the system answers is an
-- argument; a descriptor that is `none` is -1, and `log` is what is asked of the system, the loop and
-- the program, in order.
pub mod Examples
pub mod Served
use libtnet.Base.{
  ℕ, Bool, true, false, not, ◌||◌, List, [], ◌∷◌, ◌++◌, Option, none, some, ltb, ◌==◌,
  if◌then◌else◌, replicate,
}

pub data Asked : Type 0 where
  -- `sigaddset`, `sigprocmask` and `signalfd`
  signal_added : ℕ → Asked
  mask_set : Asked
  signal_fd_made : Asked
  watch : Asked
  unwatch : Asked
  -- the program's function, with the signal
  handler_called : ℕ → Asked
  closed : Asked

pub record Signaler : Type 0 where
  pub fd : Option ℕ
  pub running : Bool
  pub signums : List ℕ
  pub log : List Asked

abbrev pub ask : Asked → Signaler → Signaler
ask a s = record s { log = s.log ++ a ∷ [] }

abbrev pub is_open : Option ℕ → Bool
is_open none = false
is_open (some fd) = ltb 0 fd

-- What is asked of the system: the mask, and a descriptor if it was taken.
pub added : List ℕ → List Asked
added [] = []
added (signum ∷ signums) = signal_added signum ∷ added signums

-- `masked` is whether `sigprocmask` succeeds, and `fd` what `signalfd` gives.
pub create_signal_fd : Bool → Option ℕ → List ℕ → Option ℕ × List Asked
unfolding added
create_signal_fd masked fd signums =
    if not masked
    then (none, added signums ++ mask_set ∷ [])
    else (fd, added signums ++ mask_set ∷ signal_fd_made ∷ [])

pub make_for : Bool → Option ℕ → List ℕ → Signaler
unfolding create_signal_fd
make_for masked fd signums =
    let made = create_signal_fd masked fd signums in
    record { fd = made.0; running = false; signums = signums; log = made.1 }

-- The constructor for one signal: `m_signums.resize(signum)`.
pub make : Bool → Option ℕ → ℕ → Signaler
unfolding make_for
make masked fd signum = make_for masked fd (replicate signum 0)

pub destroy : Signaler → Signaler
destroy s = if is_open s.fd then ask closed s else s

pub start : Signaler → Signaler
start s =
    if is_open s.fd then (if s.running then s else ask watch (record s { running = true })) else s

pub stop : Signaler → Signaler
stop s =
    if is_open s.fd
    then (if not s.running then s else ask unwatch (record s { running = false }))
    else s

pub contains : ℕ → List ℕ → Bool
contains signum [] = false
contains signum (x ∷ xs) = x == signum || contains signum xs

-- What `read` gives: a signal, or too little.
pub on_signal : Option ℕ → Signaler → Signaler
unfolding contains
on_signal none s = s
on_signal (some signum) s =
    if not (contains signum s.signums) then s else ask (handler_called signum) s
