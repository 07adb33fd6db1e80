-- ===== src/IoLoop/Refine.antt =====
-- ioloop.cpp: the vector of handlers and the descriptors to remove implement the table of Watched.
use libtnet.Base.{
  ℕ, ◌<◌, ◌≡◌, refl, sym, ap, ◌∙◌, Bool, true, false, ◌||◌, List, [], ◌∷◌, ◌++◌, Option, none,
  arith, length, set, leb, leb→le, ◌==◌, ==_iff, if◌then◌else◌, ap₂, on_branches, on_option,
  on_guarded, on_both, Bool-cases, inl, inr,
}
use libtnet.IoLoop.{
  IoLoop, IoEvent, make, default_events_capacity, entry, grown, add_handler, update_handler,
  remove_handler, true_remove_handler, remove_all, check_del_events,
}
use libtnet.IoLoop.Watched.{Watched, nobody, put, watch, change, doom, sweep}
use libtnet.IoLoop.Table.{
  entry-replicate, entry-grown, length-grown, entry-set_self, entry-set_ne, entry_out,
}

-- A call of the loop, with what the poller answers, and the end of a round.
pub data Call : Type 0 where
  adds : Bool → ℕ → ℕ → ℕ → Call
  updates : Bool → ℕ → ℕ → Call
  removes : ℕ → Call
  round_ends : Call

abbrev pub call : Call → IoLoop → IoLoop × Bool
call (adds accepts fd events handler) l = add_handler accepts fd events handler l
call (updates accepts fd events) l = update_handler accepts fd events l
call (removes fd) l = remove_handler fd l
call round_ends l = (check_del_events l, true)

abbrev pub specified : Call → Watched → Watched × Bool
specified (adds accepts fd events handler) w = watch accepts fd events handler w
specified (updates accepts fd events) w = change accepts fd events w
specified (removes fd) w = doom fd w
specified round_ends w = (sweep w, true)

abbrev pub mem : ℕ → List ℕ → Bool
mem i [] = false
mem i (x ∷ xs) = i == x || mem i xs

pub record Refines (l : IoLoop) (w : Watched) : Type 0 where
  pub entries : (fd : ℕ) → entry l.events fd ≡ w.table fd
  pub pending : (fd : ℕ) → mem fd l.del_events ≡ w.doomed fd

abbrev pub Agree : IoLoop × Bool → Watched × Bool → Type 0
Agree (l, r) (w, s) = Refines l w × (r ≡ s)

mem-append : (i x : ℕ) (xs : List ℕ) → mem i (xs ++ x ∷ []) ≡ (mem i xs || i == x)
mem-append i x [] = or_false (i == x)
  where
    or_false : (b : Bool) → (b || false) ≡ b
    or_false true = refl
    or_false false = refl
mem-append i x (y ∷ xs) = ap (λ b. i == y || b) (mem-append i x xs) ∙ or_assoc (i == y)
  where
    or_assoc : (b : Bool) → (b || (mem i xs || i == x)) ≡ ((b || mem i xs) || i == x)
    or_assoc true = refl
    or_assoc false = refl

entry-set :
    (es : List (Option IoEvent)) (fd i : ℕ) (v : Option IoEvent)
    → fd < length es
    → entry (set es fd v) i ≡ (if i == fd then v else entry es i)
entry-set es fd i v l = elim (Bool-cases (i == fd)) [
  | inl same ↦
      ap (entry (set es fd v)) ((==_iff i fd).0 same)
      ∙ entry-set_self es fd v l
      ∙ sym (ap (λ b. if b then v else entry es i) same)
  | inr other ↦
      entry-set_ne es fd i v (λ p. let same = (==_iff i fd).1 p in cc)
      ∙ sym (ap (λ b. if b then v else entry es i) other)
]

stored :
    (es : List (Option IoEvent)) (fd : ℕ) (v : Option IoEvent) (t : ℕ → Option IoEvent)
    → fd < length es
    → ((i : ℕ) → entry es i ≡ t i)
    → (i : ℕ) → entry (set es fd v) i ≡ put fd v t i
stored es fd v t l same i = entry-set es fd i v l ∙ ap (λ o. if i == fd then v else o) (same i)

pub add_handler-watch :
    (accepts : Bool) (fd events handler : ℕ) (l : IoLoop) (w : Watched)
    → Refines l w
    → Agree (add_handler accepts fd events handler l) (watch accepts fd events handler w)
unfolding add_handler
add_handler-watch accepts fd events handler l w r =
    on_guarded (λ a b. Agree b a) false (w.table fd) (entry (grown fd l.events) fd)
      (λ e. absurd (cc e)) (sym (kept fd))
      (on_both Agree accepts
        (
          record {
            entries = stored (grown fd l.events) fd _ w.table (length-grown fd l.events) kept;
            pending = r.pending;
          },
          refl,
        )
        (record { entries = kept; pending = r.pending }, refl))
      (λ v b e. (record { entries = kept; pending = r.pending }, refl))
  where
    kept : (i : ℕ) → entry (grown fd l.events) i ≡ w.table i
    kept i = entry-grown fd i l.events ∙ r.entries i

-- A descriptor that has a handler is in range.
in_range : (es : List (Option IoEvent)) (fd : ℕ) → leb (length es) fd ≡ false → fd < length es
in_range es fd e = ground arith

update_handler-change :
    (accepts : Bool) (fd events : ℕ) (l : IoLoop) (w : Watched)
    → Refines l w
    → Agree (update_handler accepts fd events l) (change accepts fd events w)
unfolding update_handler
update_handler-change accepts fd events l w r =
    on_guarded Agree (leb (length l.events) fd) (entry l.events fd) (w.table fd)
      (λ b. entry_out l.events fd (leb→le _ _ b)) (r.entries fd) (r, refl)
      (λ v b e.
        on_both Agree (v.events == events) (r, refl)
          (on_both Agree accepts
            (
              record {
                entries = stored l.events fd _ w.table (in_range l.events fd b) r.entries;
                pending = r.pending;
              },
              refl,
            )
            (record { entries = r.entries; pending = r.pending }, refl)))

pub remove_handler-doom :
    (fd : ℕ) (l : IoLoop) (w : Watched) → Refines l w → Agree (remove_handler fd l) (doom fd w)
unfolding remove_handler
remove_handler-doom fd l w r =
    on_guarded Agree (leb (length l.events) fd) (entry l.events fd) (w.table fd)
      (λ b. entry_out l.events fd (leb→le _ _ b)) (r.entries fd) (r, refl)
      (λ v b e. (
        record {
          entries = r.entries;
          pending = λ i. mem-append i fd l.del_events ∙ ap (λ d. d || i == fd) (r.pending i);
        },
        refl,
      ))

true_remove_handler-entry :
    (fd i : ℕ) (l : IoLoop)
    → entry (true_remove_handler fd l).events i ≡ put fd none (entry l.events) i
unfolding true_remove_handler
true_remove_handler-entry fd i l =
    on_branches Gone (leb (length l.events) fd)
      (λ b. nothing_there (entry_out l.events fd (leb→le _ _ b)))
      (λ b.
        on_option Gone (entry l.events fd) nothing_there
          (λ v e. entry-set l.events fd i none (in_range l.events fd b)))
  where
    Gone : IoLoop → Type 0
    Gone m = entry m.events i ≡ put fd none (entry l.events) i

    nothing_there : entry l.events fd ≡ none → entry l.events i ≡ put fd none (entry l.events) i
    nothing_there e =
        on_branches (λ o. entry l.events i ≡ o) (i == fd)
          (λ same. ap (entry l.events) ((==_iff i fd).0 same) ∙ e) (λ other. refl)

remove_all-entry :
    (fds : List ℕ) (l : IoLoop) (i : ℕ)
    → entry (remove_all fds l).events i ≡ (if mem i fds then none else entry l.events i)
unfolding remove_all
remove_all-entry [] l i = refl
remove_all-entry (fd ∷ fds) l i =
    remove_all-entry fds (true_remove_handler fd l) i
    ∙ ap (λ o. if mem i fds then none else o) (true_remove_handler-entry fd i l)
    ∙ either (i == fd) (mem i fds)
  where
    either :
        (b c : Bool)
        → (if c then none else (if b then none else entry l.events i))
          ≡ (if (b || c) then none else entry l.events i)
    either true true = refl
    either true false = refl
    either false c = refl

pub check_del_events-sweep :
    (l : IoLoop) (w : Watched) → Refines l w → Refines (check_del_events l) (sweep w)
unfolding check_del_events
check_del_events-sweep l w r = record {
  entries = λ i.
      remove_all-entry l.del_events l i
      ∙ ap₂ (λ b o. if b then none else o) (r.pending i) (r.entries i);
  pending = λ i. refl;
}

pub call-specified :
    (c : Call) (l : IoLoop) (w : Watched) → Refines l w → Agree (call c l) (specified c w)
call-specified (adds accepts fd events handler) l w r =
    add_handler-watch accepts fd events handler l w r
call-specified (updates accepts fd events) l w r = update_handler-change accepts fd events l w r
call-specified (removes fd) l w r = remove_handler-doom fd l w r
call-specified round_ends l w r = (check_del_events-sweep l w r, refl)

-- What the calls return, and the loop that is left.
abbrev pub calls : List Call → IoLoop → List Bool × IoLoop
calls [] l = ([], l)
calls (c ∷ cs) l = ((call c l).1 ∷ (calls cs (call c l).0).0, (calls cs (call c l).0).1)

abbrev pub specified_calls : List Call → Watched → List Bool × Watched
specified_calls [] w = ([], w)
specified_calls (c ∷ cs) w =
    let next = specified c w in let rest = specified_calls cs next.0 in (next.1 ∷ rest.0, rest.1)

calls-specified :
    (cs : List Call) (l : IoLoop) (w : Watched)
    → Refines l w
    → ((calls cs l).0 ≡ (specified_calls cs w).0) × Refines (calls cs l).1 (specified_calls cs w).1
calls-specified [] l w r = (refl, r)
calls-specified (c ∷ cs) l w r =
    let (kept, same) = call-specified c l w r in
    let (results, last) = calls-specified cs (call c l).0 (specified c w).0 kept in
    (ap₂ (λ b bs. b ∷ bs) same results, last)

-- Whatever is asked of a new loop, in any order, and whatever the poller answers: the calls return
-- what the table says, a descriptor has the handler that it has in the table, and those that wait
-- for the end of the round are the ones of the table.
pub calls-refine_table :
    (cs : List Call)
    → ((calls cs make).0 ≡ (specified_calls cs nobody).0)
      × ((fd : ℕ) → entry (calls cs make).1.events fd ≡ (specified_calls cs nobody).1.table fd)
      × ((fd : ℕ) → mem fd (calls cs make).1.del_events ≡ (specified_calls cs nobody).1.doomed fd)
unfolding make
calls-refine_table cs =
    let (results, last) = calls-specified cs make nobody empty in
    (results, last.entries, last.pending)
  where
    empty : Refines make nobody
    empty = record { entries = entry-replicate default_events_capacity; pending = λ fd. refl }
