-- ===== src/TimingWheel.antt =====
-- timingwheel.h and timingwheel.cpp: a wheel of `max_buckets` vectors of handlers, one of which
-- comes due at each tick of the timer.
-- A handler is a value of the type `H`, `none` is the empty `std::function`. What a handler does to
-- the wheel while it runs is a list of calls, given by the parameter `script`. The timer and the
-- loop stand outside: a tick is a call of `on_timer`. Timeouts are not negative, and the interval
-- is not 0.
pub mod Examples
pub mod Buckets
pub mod Invariant
pub mod Slots
pub mod Firing
use libtnet.Base.{
  ℕ, zero, suc, ◌+◌, ◌*◌, ◌/◌, ◌%◌, ◌^◌, Bool, true, false, ◌&&◌, List, [], ◌∷◌, ◌++◌, Option, none,
  some, ltb, leb, ◌==◌, if◌then◌else◌, length, get_elem?, set, replicate,
}
use libtnet.Base.Outcome.{Outcome, ret, fault, out_of_bounds, bad_function_call, unfinished, ◌>>=◌}

abbrev pub Chan : Type 0 → Type 0
Chan H = List (Option H)

pub record TimingWheel (H : Type 0) : Type 0 where
  pub running : Bool
  pub interval : ℕ
  pub max_buckets : ℕ
  pub max_timeout : ℕ
  pub next_bucket : ℕ
  pub curbucket : Chan H
  pub ontimer : Bool
  pub buckets : List (Chan H)

-- `(uint64_t)(-1)`
abbrev pub no_slot : ℕ
no_slot = 18446744073709551615

-- The union `Slot`: `p[0]` is the bucket and `p[1]` the index, on a little-endian machine.
abbrev pub slot_of : ℕ → ℕ → ℕ
slot_of bucket id = bucket + id * 2 ^ 32

abbrev pub slot_bucket : ℕ → ℕ
slot_bucket slot = slot % 2 ^ 32

abbrev pub slot_id : ℕ → ℕ
slot_id slot = slot / 2 ^ 32 % 2 ^ 32

-- What a handler may ask of the wheel.
pub data Call (H : Type 0) : Type 0 where
  adds : H → ℕ → Call H
  updates : ℕ → ℕ → Call H
  removes : ℕ → Call H
  stops : Call H

module _ {H : Type 0} where
  -- The constructor. It leaves `m_running` as it finds it: the flag is an argument.
  unfoldable pub make : Bool → ℕ → ℕ → TimingWheel H
  make running interval max_buckets = record {
    running = running;
    interval = interval;
    max_buckets = max_buckets;
    max_timeout = interval * max_buckets;
    next_bucket = 0;
    curbucket = [];
    ontimer = false;
    buckets = replicate max_buckets [];
  }

  unfoldable pub start : TimingWheel H → TimingWheel H
  start w = if w.running then w else record w { running = true }

  pub stop : TimingWheel H → TimingWheel H
  stop w = if w.running then record w { running = false } else w

  -- `buckets[i].push_back(handler)`, for an `i` in range
  pub push_at : List (Chan H) → ℕ → Option H → List (Chan H)
  push_at [] i handler = []
  push_at (b ∷ bs) zero handler = (b ++ handler ∷ []) ∷ bs
  push_at (b ∷ bs) (suc i) handler = b ∷ push_at bs i handler

  -- `m_buckets[i]`, for an `i` in range
  pub chan_at : List (Chan H) → ℕ → Chan H
  chan_at [] i = []
  chan_at (b ∷ bs) zero = b
  chan_at (b ∷ bs) (suc i) = chan_at bs i

  unfoldable pub due_bucket : TimingWheel H → ℕ → ℕ
  due_bucket w timeout = (w.next_bucket + timeout / w.interval) % w.max_buckets

  unfoldable pub add : Option H → ℕ → TimingWheel H → TimingWheel H × ℕ
  unfolding due_bucket push_at chan_at
  add handler timeout w =
      let bucket = due_bucket w timeout in
      if leb w.max_timeout timeout
      then (w, no_slot)
      else if w.ontimer && bucket == w.next_bucket
      then (
        record w { curbucket = w.curbucket ++ handler ∷ [] },
        slot_of bucket (length w.curbucket % 2 ^ 32),
      )
      else (
        record w { buckets = push_at w.buckets bucket handler },
        slot_of bucket (length (chan_at w.buckets bucket) % 2 ^ 32),
      )

  -- `chans[id] = nullptr`
  abbrev pub clear_at : TimingWheel H → ℕ → Chan H → ℕ → TimingWheel H
  clear_at w bucket chans id = record w { buckets = set w.buckets bucket (set chans id none) }

  -- `cb` is a reference to `chans[id]`, so it is empty when `add` copies it.
  pub update : ℕ → ℕ → TimingWheel H → Outcome (TimingWheel H × ℕ)
  unfolding add
  update slot timeout w =
      let bucket = slot_bucket slot in
      let id = slot_id slot in
      if ltb w.max_buckets bucket then ret (w, no_slot) else elim (get_elem? w.buckets bucket) [
        | none ↦ fault out_of_bounds
        | some chans ↦
            if leb (length chans % 2 ^ 32) id then ret (w, no_slot) else elim (get_elem? chans id) [
              | none ↦ fault out_of_bounds
              | some none ↦ ret (w, no_slot)
              | some (some cb) ↦ ret (add none timeout (clear_at w bucket chans id))
            ]
      ]

  pub remove : ℕ → TimingWheel H → Outcome (TimingWheel H)
  remove slot w =
      let bucket = slot_bucket slot in
      let id = slot_id slot in
      if ltb w.max_buckets bucket then ret w else elim (get_elem? w.buckets bucket) [
        | none ↦ fault out_of_bounds
        | some chans ↦
            if leb (length chans % 2 ^ 32) id then ret w else ret (clear_at w bucket chans id)
      ]

  pub run_call : Call H → TimingWheel H → Outcome (TimingWheel H)
  unfolding add update remove stop
  run_call (adds h timeout) w = ret (add (some h) timeout w).0
  run_call (updates slot timeout) w = do r ← update slot timeout w; ret r.0
  run_call (removes slot) w = remove slot w
  run_call stops w = ret (stop w)

  pub run_calls : List (Call H) → TimingWheel H → Outcome (TimingWheel H)
  unfolding run_call
  run_calls [] w = ret w
  run_calls (c ∷ cs) w = do w' ← run_call c w; run_calls cs w'

  -- The start of `onTimer` on a bucket that is not empty.
  abbrev pub begin : TimingWheel H → TimingWheel H
  begin w = record w { curbucket = []; ontimer = true }

  -- The end of `onTimer`, after its loop.
  unfoldable pub settle : TimingWheel H → TimingWheel H
  settle w = record w {
    buckets = set w.buckets w.next_bucket w.curbucket;
    curbucket = [];
    ontimer = false;
  }

  unfoldable pub advance : TimingWheel H → TimingWheel H
  advance w = record w { next_bucket = (w.next_bucket + 1) % w.max_buckets }

  module _ (script : H → TimingWheel H → List (Call H)) where
    -- The loop of `onTimer` from the index `i` on; `chans.end()` is read anew in each round. The
    -- result also holds the handlers called, in order.
    pub fire : ℕ → ℕ → TimingWheel H → Outcome (TimingWheel H × List H)
    unfolding run_calls chan_at
    fire zero i w = elim (get_elem? (chan_at w.buckets w.next_bucket) i) [
      | none ↦ ret (w, [])
      | some _ ↦ fault unfinished
    ]
    fire (suc fuel) i w = elim (get_elem? (chan_at w.buckets w.next_bucket) i) [
      | none ↦ ret (w, [])
      | some none ↦ fault bad_function_call
      | some (some h) ↦ do
        w' ← run_calls (script h w) w
        (w'', log) ← fire fuel (i + 1) w'
        ret (w'', h ∷ log)
    ]

    pub on_timer : TimingWheel H → Outcome (TimingWheel H × List H)
    unfolding fire settle advance
    on_timer w = elim (chan_at w.buckets w.next_bucket) [
      | [] ↦ ret (advance w, [])
      | h ∷ chans ↦ do
        (w', log) ← fire (suc (length chans)) 0 (begin w)
        ret (advance (settle w'), log)
    ]
