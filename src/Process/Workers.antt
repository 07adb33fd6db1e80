-- ===== src/Process/Workers.antt =====
-- tprocess.cpp: how many children there are, and how they end.
use libtnet.Base.{
  ℕ, suc, ◌+◌, ◌<◌, ◌≡◌, refl, sym, ap, ap₂, ◌∙◌, append-nil, append_assoc, Bool, true, false, not,
  ◌||◌, List, [], ◌∷◌, ◌++◌, Option, none, some, ◌==◌, length, on_branches, arith,
}
use libtnet.Process.{
  Process, Fork, in_parent, Turn, child_dead, nobody_dead, Next, waits, returns, Asked, slept,
  killed, sigterm, insert, erase, is_empty, kill_all, stop, check_stop, turn, create, go_on,
  wait_loop, wait, start_children, ask,
}

abbrev pub mem : ℕ → List ℕ → Bool
mem i [] = false
mem i (x ∷ xs) = x == i || mem i xs

length-erase : (i : ℕ) (xs : List ℕ) → mem i xs ≡ true → suc (length (erase i xs)) ≡ length xs
unfolding erase
length-erase i [] there = cc
length-erase i (x ∷ xs) there = ground (arith, length-erase i xs)

length-insert : (i : ℕ) (xs : List ℕ) → mem i xs ≡ false → length (insert i xs) ≡ suc (length xs)
unfolding insert
length-insert i [] away = refl
length-insert i (x ∷ xs) away = ground (arith, length-insert i xs)

not_empty : (i : ℕ) (xs : List ℕ) → mem i xs ≡ true → is_empty xs ≡ false
not_empty i [] there = sym there
not_empty i (x ∷ xs) there = refl

abbrev pub is_term : Option ℕ → Bool
is_term none = false
is_term (some signum) = signum == sigterm

-- Whoever dies is a child, the `fork` after it succeeds with a number that no child has, and no
-- signal asks to stop.
unfoldable pub Replaces : List Turn → List ℕ → Type 0
Replaces [] xs = Unit
Replaces (child_dead pid f ∷ ts) xs =
    (mem pid xs ≡ true)
    × ((new : ℕ) × (f ≡ in_parent new)
        × (mem new (erase pid xs) ≡ false)
        × Replaces ts (insert new (erase pid xs)))
Replaces (nobody_dead signal ∷ ts) xs = (is_term signal ≡ false) × Replaces ts xs

-- There are that many children, and they are replaced.
pub record Serves (n : ℕ) (p : Process) : Type 0 where
  pub alive : p.running ≡ true
  pub workers : length p.children ≡ n

abbrev StillServes : ℕ → Next → Type 0
StillServes n r = (q : Process) × (r ≡ waits q) × Serves n q

check_stop_other :
    (signal : Option ℕ) (p : Process) → is_term signal ≡ false → check_stop signal p ≡ p
unfolding check_stop
check_stop_other none p other = refl
check_stop_other (some signum) p other = rw other refl

one_turn :
    (t : Turn) (ts : List Turn) (p q : Process)
    → is_empty p.children ≡ false
    → turn t p ≡ waits q
    → wait_loop (t ∷ ts) p ≡ wait_loop ts q
unfolding wait_loop
one_turn t ts p q some_child e = rw (some_child, e) refl

turn_replaced :
    (pid new : ℕ) (f : Fork) (p : Process)
    → p.running ≡ true
    → f ≡ in_parent new
    → turn (child_dead pid f) p ≡ waits (record p { children = insert new (erase pid p.children) })
unfolding turn create go_on
turn_replaced pid new f p alive made = rw (alive, made) refl

turn_buried :
    (pid : ℕ) (f : Fork) (p : Process)
    → p.running ≡ false
    → turn (child_dead pid f) p ≡ waits (record p { children = erase pid p.children })
unfolding turn
turn_buried pid f p stopped = rw stopped refl

wait_loop-Serves :
    (n : ℕ) (ts : List Turn) (p : Process)
    → Serves (suc n) p
    → Replaces ts p.children
    → (q : Process) × (wait_loop ts p ≡ waits q) × Serves (suc n) q
unfolding wait_loop turn Replaces create go_on
wait_loop-Serves n [] p s orderly = (p, refl, s)
wait_loop-Serves n (child_dead pid f ∷ ts) p s (there, (new, made, fresh, orderly)) =
    let fewer = length-erase pid p.children there in
    let again = length-insert new (erase pid p.children) fresh in
    let sizes = s.workers in
    let (q, goes, serves) =
      wait_loop-Serves n ts (record p { children = insert new (erase pid p.children) })
        (record { alive = s.alive; workers = omega arith }) orderly in
    (
      q,
      one_turn (child_dead pid f) ts p _ (not_empty pid p.children there)
            (turn_replaced pid new f p s.alive made)
          ∙ goes,
      serves,
    )
wait_loop-Serves n (nobody_dead signal ∷ ts) p s (other, orderly) =
    let (q, goes, serves) =
      wait_loop-Serves n ts (ask slept p) (record { alive = s.alive; workers = s.workers })
        orderly in
    (q, rw (some_left p.children s.workers, check_stop_other signal p other) goes, serves)
  where
    some_left : (xs : List ℕ) → length xs ≡ suc n → is_empty xs ≡ false
    some_left [] e = absurd (omega arith)
    some_left (x ∷ xs) e = refl

-- The calls of `fork` that succeed, and the children that they leave.
abbrev pub forks : List ℕ → List Fork
forks [] = []
forks (pid ∷ pids) = in_parent pid ∷ forks pids

abbrev pub started : List ℕ → List ℕ → List ℕ
started [] xs = xs
started (pid ∷ pids) xs = started pids (insert pid xs)

-- The numbers are new.
unfoldable pub AllNew : List ℕ → List ℕ → Type 0
AllNew [] xs = Unit
AllNew (pid ∷ pids) xs = (mem pid xs ≡ false) × AllNew pids (insert pid xs)

start_children-started :
    (pids : List ℕ) (p : Process)
    → start_children (forks pids) p ≡ waits (record p { children = started pids p.children })
unfolding start_children create go_on
start_children-started [] p = refl
start_children-started (pid ∷ pids) p =
    start_children-started pids (record p { children = insert pid p.children })

length-started :
    (pids xs : List ℕ) → AllNew pids xs → length (started pids xs) ≡ length pids + length xs
unfolding AllNew
length-started [] xs new = omega arith
length-started (pid ∷ pids) xs (fresh, new) =
    omega (arith, length-started pids (insert pid xs) new, length-insert pid xs fresh)

-- `wait`, in a process without children: it starts as many as it is asked for, and while nobody
-- asks it to stop whoever dies is replaced, so that there are as many children after any number of
-- turns, and it does not return; if `fork` succeeds, each time with a number that no child has.
pub wait-Serves :
    (pid : ℕ) (pids : List ℕ) (ts : List Turn) (p : Process)
    → p.children ≡ []
    → AllNew (pid ∷ pids) []
    → Replaces ts (started (pid ∷ pids) [])
    → (q : Process) × (wait (forks (pid ∷ pids)) ts p ≡ waits q)
      × (length q.children ≡ length (pid ∷ pids))
      × (q.running ≡ true)
unfolding wait
wait-Serves pid pids ts p alone new orderly =
    let sizes = length-started (pid ∷ pids) [] new in
    let begun : Process = record {
      running = true;
      children = started (pid ∷ pids) [];
      log = p.log;
    } in
    let (q, goes, serves) =
      wait_loop-Serves (length pids) ts begun (record { alive = refl; workers = omega arith })
        orderly in
    (
      q,
      ap (second_loop ts) (
            start_children-started (pid ∷ pids) (record p { running = true })
            ∙ ap
                (λ l.
                  waits (record { running = true; children = started (pid ∷ pids) l; log = p.log }))
                alone)
          ∙ goes,
      serves.workers,
      serves.alive,
    )
  where
    second_loop : List Turn → Next → Next
    second_loop ts r = elim r [ returns q ↦ returns q | waits q ↦ wait_loop ts q ]

abbrev pub kills : List ℕ → List Asked
kills [] = []
kills (pid ∷ pids) = killed pid sigterm ∷ kills pids

kill_all-kills :
    (pids : List ℕ) (p : Process) → kill_all pids p ≡ record p { log = p.log ++ kills pids }
unfolding kill_all
kill_all-kills [] p = ap (λ l. record p { log = l }) (sym (append-nil p.log))
kill_all-kills (pid ∷ pids) p =
    kill_all-kills pids (ask (killed pid sigterm) p)
    ∙ ap (λ l. record p { log = l }) (append_assoc p.log _ (kills pids))

-- All of the children die, each with whatever `fork` would answer. In between there are turns in
-- which nobody has died, with any signal, or none.
unfoldable pub Buries : List Turn → List ℕ → Type 0
Buries [] xs = xs ≡ []
Buries (child_dead pid f ∷ ts) xs = (mem pid xs ≡ true) × Buries ts (erase pid xs)
Buries (nobody_dead signal ∷ ts) xs = (is_empty xs ≡ false) × Buries ts xs

-- The pauses of the turns in which nobody has died.
abbrev pub pauses : List Turn → List Asked
pauses [] = []
pauses (child_dead pid f ∷ ts) = pauses ts
pauses (nobody_dead signal ∷ ts) = slept ∷ pauses ts

check_stop-stopped : (signal : Option ℕ) (p : Process) → p.running ≡ false → check_stop signal p ≡ p
unfolding check_stop stop
check_stop-stopped none p stopped = refl
check_stop-stopped (some signum) p stopped =
    on_branches (λ q. q ≡ p) (signum == sigterm) (λ b. rw stopped refl) (λ b. refl)

turn_idle :
    (signal : Option ℕ) (p : Process)
    → p.running ≡ false
    → turn (nobody_dead signal) p ≡ waits (ask slept p)
unfolding turn
turn_idle signal p stopped = ap (λ q. waits (ask slept q)) (check_stop-stopped signal p stopped)

wait_loop-Buries :
    (ts more : List Turn) (p : Process)
    → p.running ≡ false
    → Buries ts p.children
    → wait_loop (ts ++ more) p
      ≡ wait_loop more (record p { children = []; log = p.log ++ pauses ts })
unfolding Buries
wait_loop-Buries [] more p stopped gone =
    ap₂ (λ l o. wait_loop more (record p { children = l; log = o })) gone (sym (append-nil p.log))
wait_loop-Buries (child_dead pid f ∷ ts) more p stopped (there, gone) =
    one_turn (child_dead pid f) (ts ++ more) p _ (not_empty pid p.children there)
      (turn_buried pid f p stopped)
    ∙ wait_loop-Buries ts more (record p { children = erase pid p.children }) stopped gone
wait_loop-Buries (nobody_dead signal ∷ ts) more p stopped (some_child, gone) =
    one_turn (nobody_dead signal) (ts ++ more) p _ some_child (turn_idle signal p stopped)
    ∙ wait_loop-Buries ts more (ask slept p) stopped gone
    ∙ ap (λ o. wait_loop more (record p { children = []; log = o }))
        (append_assoc p.log (slept ∷ []) (pauses ts))

abbrev stopped : Process → Process
stopped p = ask slept (record p { running = false; log = p.log ++ kills p.children })

turn-stopped :
    (p : Process) → p.running ≡ true → turn (nobody_dead (some sigterm)) p ≡ waits (stopped p)
unfolding turn check_stop stop
turn-stopped p alive =
    ap (λ q. waits (ask slept q))
      (on_branches (λ q. q ≡ record p { running = false; log = p.log ++ kills p.children })
        (not p.running) (λ b. absurd (cc (sym (ap not alive) ∙ b)))
        (λ b. kill_all-kills p.children (record p { running = false })))

-- After `SIGTERM` no process is started: each child is told to end, once, and when all have died, in
-- whatever order and whatever `fork` would answer, the loop returns. In the turns between, in which
-- nobody has died, whatever signal comes, another `SIGTERM` too, it only pauses.
pub wait_loop-stops :
    (ts more : List Turn) (t : Turn) (p : Process)
    → p.running ≡ true
    → 0 < length p.children
    → Buries ts p.children
    → wait_loop (nobody_dead (some sigterm) ∷ ts ++ t ∷ more) p
      ≡ returns (record p {
        running = false;
        children = [];
        log = ((p.log ++ kills p.children) ++ slept ∷ []) ++ pauses ts;
      })
unfolding wait_loop
wait_loop-stops ts more t p alive some_child gone =
    one_turn (nobody_dead (some sigterm)) (ts ++ t ∷ more) p _ (some_left p.children some_child)
      (turn-stopped p alive)
    ∙ wait_loop-Buries ts (t ∷ more) (stopped p) refl gone
  where
    some_left : (xs : List ℕ) → 0 < length xs → is_empty xs ≡ false
    some_left [] e = absurd (omega arith)
    some_left (x ∷ xs) e = refl
