-- ===== src/Process.antt =====
-- tprocess.h and tprocess.cpp: the process that starts others, on Linux. What `fork`, `waitpid` and
-- `read` answer are arguments; what is asked of the system and of the program is `log`, in order.
pub mod Examples
pub mod Workers
use libtnet.Base.{
  ℕ, zero, suc, ◌+◌, Bool, true, false, not, List, [], ◌∷◌, ◌++◌, Option, none, some, ◌==◌,
  if◌then◌else◌,
}

-- `SIGTERM`
abbrev pub sigterm : ℕ
sigterm = 15

-- What `fork` answers: in the child, its own number.
pub data Fork : Type 0 where
  fork_failed : Fork
  in_child : ℕ → Fork
  in_parent : ℕ → Fork

pub data Asked : Type 0 where
  -- `close(m_fd)`
  fd_closed : Asked
  killed : ℕ → ℕ → Asked
  slept : Asked
  -- `callback()`
  called_back : Asked

-- `children` is the set `m_children`.
pub record Process : Type 0 where
  pub running : Bool
  pub children : List ℕ
  pub log : List Asked

pub make : Process
make = record { running = false; children = []; log = [] }

abbrev pub ask : Asked → Process → Process
ask a p = record p { log = p.log ++ a ∷ [] }

-- `insert` and `erase` of the set
pub insert : ℕ → List ℕ → List ℕ
insert pid [] = pid ∷ []
insert pid (x ∷ xs) = let rest = x ∷ insert pid xs in if x == pid then x ∷ xs else rest

pub erase : ℕ → List ℕ → List ℕ
erase pid [] = []
erase pid (x ∷ xs) = let rest = x ∷ erase pid xs in if x == pid then xs else rest

-- The result is whether it is not 0: the code runs in a child.
pub create : Fork → Process → Process × Bool
unfolding insert
create fork_failed p = (p, false)
create (in_child pid) p = (ask fd_closed (record p { children = [] }), not (pid == 0))
create (in_parent pid) p = (record p { children = insert pid p.children }, false)

pub kill_all : List ℕ → Process → Process
kill_all [] p = p
kill_all (pid ∷ pids) p = kill_all pids (ask (killed pid sigterm) p)

pub stop : Process → Process
unfolding kill_all
stop p = if not p.running then p else kill_all p.children (record p { running = false })

-- The signal that is read, if there is one.
pub check_stop : Option ℕ → Process → Process
unfolding stop
check_stop none p = p
check_stop (some signum) p = if signum == sigterm then stop p else p

-- What a process does next: go on waiting, or return from `wait`, as it does in a child.
pub data Next : Type 0 where
  waits returns : Process → Next

abbrev pub process_of : Next → Process
process_of (waits p) = p
process_of (returns p) = p

-- In a child the callback runs.
pub go_on : Process × Bool → Next
go_on (p, true) = returns (ask called_back p)
go_on (p, false) = waits p

-- The first loop of `wait`, with an answer for each of the `num` calls of `fork`.
pub start_children : List Fork → Process → Next
unfolding create go_on
start_children [] p = waits p
start_children (f ∷ fs) p = elim (go_on (create f p)) [
  | returns q ↦ returns q
  | waits q ↦ start_children fs q
]

-- One turn of the second loop: what `waitpid` gives, with the answer of `fork`, or the signal that
-- `checkStop` reads.
pub data Turn : Type 0 where
  child_dead : ℕ → Fork → Turn
  nobody_dead : Option ℕ → Turn

abbrev pub is_empty : List ℕ → Bool
is_empty [] = true
is_empty (x ∷ xs) = false

pub has_child : Process → Bool
has_child p = not (is_empty p.children)

pub turn : Turn → Process → Next
unfolding erase create go_on check_stop
turn (child_dead pid f) p =
    let buried = record p { children = erase pid p.children } in
    if not p.running then waits buried else go_on (create f buried)
turn (nobody_dead signum) p = waits (ask slept (check_stop signum p))

-- The second loop, over as many turns as are given.
pub wait_loop : List Turn → Process → Next
unfolding turn
wait_loop [] p = waits p
wait_loop (t ∷ ts) p =
    if is_empty p.children
    then returns p
    else elim (turn t p) [ returns q ↦ returns q | waits q ↦ wait_loop ts q ]

pub wait : List Fork → List Turn → Process → Next
unfolding start_children wait_loop
wait fs ts p = elim (start_children fs (record p { running = true })) [
  | returns q ↦ returns q
  | waits q ↦ wait_loop ts q
]
