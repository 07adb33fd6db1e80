-- ===== src/TimingWheel/Slots.antt =====
-- Slots: what the number that `add` returns leads `update` and `remove` to.
use native.Mathlib.Nat.{mod-lt}
use libtnet.Base.{
  ℕ, ◌+◌, ◌/◌, ◌^◌, ◌<◌, ◌≤◌, ◌≡◌, ◌∙◌, sym, ◌↔◌, ◌⊎◌, inl, inr, false, List, [], ◌∷◌, Option, none,
  some, arith, ◌==◌, Bool-cases, ==_iff, dec_lt, ℕ_discrete, Option-cases, length, get_elem?, set,
  length-set, get_elem?-set_self,
}
use libtnet.Base.Outcome.{ret, fault, out_of_bounds}
use libtnet.TimingWheel.{
  TimingWheel, Chan, push_at, chan_at, due_bucket, add, clear_at, update, remove, slot_of,
  slot_bucket, slot_id,
}
use libtnet.TimingWheel.Buckets.{
  chan_at-push_at_self, chan_at-push_at_ne, chan_at-set_self, chan_at-set_ne, get_elem?-chan_at,
  get_elem?-past, get_elem?-lt, get_elem?-within, get_elem?-last, get_elem?-append_left,
}
use libtnet.TimingWheel.Invariant.{IsWheel}

pub slot_parts :
    (bucket id : ℕ)
    → bucket < 2 ^ 32
    → id < 2 ^ 32
    → (slot_bucket (slot_of bucket id) ≡ bucket) × (slot_id (slot_of bucket id) ≡ id)
slot_parts bucket id p q = omega arith

module _ {H : Type 0} where
  -- The entry that a slot names: nothing, an empty function, or a handler.
  abbrev pub handler_at : TimingWheel H → ℕ → Option (Option H)
  handler_at w slot = get_elem? (chan_at w.buckets (slot_bucket slot)) (slot_id slot)

  -- No bucket has reached 2^32 entries, so that an index fits its half of the slot.
  abbrev pub FitsSlots : TimingWheel H → Type 0
  FitsSlots w = (i : ℕ) → length (chan_at w.buckets i) < 2 ^ 32

  pub due_bucket-lt :
      (w : TimingWheel H) (timeout : ℕ) → IsWheel w → due_bucket w timeout < w.max_buckets
  unfolding due_bucket
  due_bucket-lt w timeout v = mod-lt (w.next_bucket + timeout / w.interval) (omega arith)

  -- `add` outside of a tick, below the limit.
  pub add_idle :
      (w : TimingWheel H) (h : Option H) (timeout : ℕ)
      → FitsSlots w
      → w.ontimer ≡ false
      → timeout < w.max_timeout
      → add h timeout w ≡ (
        record w { buckets = push_at w.buckets (due_bucket w timeout) h },
        slot_of (due_bucket w timeout) (length (chan_at w.buckets (due_bucket w timeout))),
      )
  unfolding add
  add_idle w h timeout fits idle inside = ground (arith, fits (due_bucket w timeout))

  -- An entry stays where it is when another is pushed to any bucket.
  pub push_at-keeps :
      (bs : List (Chan H)) (i j k : ℕ) (h : Option H) {e : Option H}
      → i < length bs
      → get_elem? (chan_at bs j) k ≡ some e
      → get_elem? (chan_at (push_at bs i h) j) k ≡ some e
  push_at-keeps bs i j k h {e} l at_j = elim (Bool-cases (i == j)) [
    | inl same ↦
        let is : i ≡ j = (==_iff i j).0 same in
        let e' : get_elem? (chan_at bs i) k ≡ some e = rw is at_j in
        rw (← is) (
          rw (chan_at-push_at_self bs i h l) (
            get_elem?-append_left (chan_at bs i) (h ∷ []) k (get_elem?-lt (chan_at bs i) k e')
            ∙ e'))
    | inr other ↦ rw (chan_at-push_at_ne bs i j h (ground (arith, other))) at_j
  ]

  -- The entries that stand in the wheel stay where they are.
  add-keeps :
      (w : TimingWheel H) (h : Option H) (timeout slot : ℕ) {e : Option H}
      → IsWheel w
      → FitsSlots w
      → w.ontimer ≡ false
      → timeout < w.max_timeout
      → handler_at w slot ≡ some e
      → handler_at (add h timeout w).0 slot ≡ some e
  add-keeps w h timeout slot v fits idle inside at = rw (add_idle w h timeout fits idle inside) (
      push_at-keeps w.buckets (due_bucket w timeout) (slot_bucket slot) (slot_id slot) h
        (omega (arith, due_bucket-lt w timeout v)) at)

  -- Outside of a tick the slot that `add` returns leads to the handler that was added, and what any
  -- slot leads to in the wheel stays there.
  pub handler_at-add :
      (w : TimingWheel H) (h : Option H) (timeout slot : ℕ)
      → IsWheel w
      → FitsSlots w
      → w.ontimer ≡ false
      → timeout < w.max_timeout
      → let r = add h timeout w in
        (handler_at r.0 r.1 ≡ some h)
        × ((handler_at w slot ≡ none) ⊎ (handler_at r.0 slot ≡ handler_at w slot))
  handler_at-add w h timeout slot v fits idle inside =
      let due = due_bucket w timeout in
      let id = length (chan_at w.buckets due) in
      let l : due < length w.buckets = omega (arith, due_bucket-lt w timeout v) in
      let parts = slot_parts due id (omega arith) (fits due) in
      (
        rw (add_idle w h timeout fits idle inside) (
            rw (parts.0, parts.1)
              (rw (chan_at-push_at_self w.buckets due h l)
                (get_elem?-last (chan_at w.buckets due) h))),
        elim (Option-cases (handler_at w slot)) [
          | inl nothing ↦ inl nothing
          | inr (e, at) ↦ inr (add-keeps w h timeout slot v fits idle inside at ∙ sym at)
        ],
      )

  -- Where a slot leads: past the buckets, to the element behind the last, past a bucket's entries,
  -- or to an entry.
  pub data Target (w : TimingWheel H) (slot : ℕ) : Type 0 where
    beyond : w.max_buckets < slot_bucket slot → Target w slot
    behind_last :
        slot_bucket slot ≡ w.max_buckets
        → get_elem? w.buckets (slot_bucket slot) ≡ none
        → Target w slot
    no_entry :
        slot_bucket slot < w.max_buckets
        → get_elem? w.buckets (slot_bucket slot) ≡ some (chan_at w.buckets (slot_bucket slot))
        → length (chan_at w.buckets (slot_bucket slot)) ≤ slot_id slot
        → Target w slot
    entry :
        (e : Option H)
        → slot_bucket slot < w.max_buckets
        → get_elem? w.buckets (slot_bucket slot) ≡ some (chan_at w.buckets (slot_bucket slot))
        → handler_at w slot ≡ some e
        → Target w slot

  pub Target-of : (w : TimingWheel H) (slot : ℕ) → IsWheel w → Target w slot
  Target-of w slot v = elim (dec_lt w.max_buckets (slot_bucket slot)) [
    | yes past ↦ beyond past
    | no within ↦ elim (dec_lt (slot_bucket slot) w.max_buckets) [
      | no last ↦
          behind_last (omega arith) (get_elem?-past w.buckets (slot_bucket slot) (omega arith))
      | yes inside ↦
          let here = get_elem?-chan_at w.buckets (slot_bucket slot) (omega arith) in
          elim (dec_lt (slot_id slot) (length (chan_at w.buckets (slot_bucket slot)))) [
            | no none_there ↦ no_entry inside here (omega arith)
            | yes there ↦
                let (e, at) =
                  get_elem?-within (chan_at w.buckets (slot_bucket slot)) (slot_id slot) there in
                entry e inside here at
          ]
    ]
  ]

  -- `update` and `remove` read past the end of `m_buckets` exactly on a slot whose bucket is
  -- `m_maxBuckets`; with any other slot they return.
  pub update-remove_out_of_bounds :
      (w : TimingWheel H) (slot timeout : ℕ)
      → IsWheel w
      → FitsSlots w
      → ((remove slot w ≡ fault out_of_bounds) ↔ (slot_bucket slot ≡ w.max_buckets))
        × ((update slot timeout w ≡ fault out_of_bounds) ↔ (slot_bucket slot ≡ w.max_buckets))
  unfolding remove update
  update-remove_out_of_bounds w slot timeout v fits = elim (Target-of w slot v) [
    | beyond past ↦ ground arith
    | behind_last is gone ↦ ground (arith, gone)
    | no_entry inside here off ↦ ground (arith, here, fits (slot_bucket slot))
    | entry e inside here at ↦ ground (
      arith,
      here,
      at,
      fits (slot_bucket slot),
      get_elem?-lt (chan_at w.buckets (slot_bucket slot)) (slot_id slot) at,
    )
  ]

  clear_at-entry :
      (w : TimingWheel H) (slot : ℕ) {e : Option H}
      → IsWheel w
      → slot_bucket slot < w.max_buckets
      → handler_at w slot ≡ some e
      → let chans = chan_at w.buckets (slot_bucket slot) in
        handler_at (clear_at w (slot_bucket slot) chans (slot_id slot)) slot ≡ some none
  clear_at-entry w slot v low at =
      let chans = chan_at w.buckets (slot_bucket slot) in
      rw
        (chan_at-set_self w.buckets (slot_bucket slot) (set chans (slot_id slot) none)
          (omega arith))
        (get_elem?-set_self chans (slot_id slot) none (get_elem?-lt chans (slot_id slot) at))

  clear_at-IsWheel :
      (w : TimingWheel H) (bucket id : ℕ) (chans : Chan H)
      → IsWheel w
      → IsWheel (clear_at w bucket chans id)
  clear_at-IsWheel w bucket id chans v =
      ground (arith, length-set w.buckets bucket (set chans id none))

  clear_at-FitsSlots :
      (w : TimingWheel H) (bucket id : ℕ)
      → bucket < length w.buckets
      → FitsSlots w
      → FitsSlots (clear_at w bucket (chan_at w.buckets bucket) id)
  clear_at-FitsSlots w bucket id l fits i =
      let chans = chan_at w.buckets bucket in
      elim (ℕ_discrete bucket i) [
        | yes is ↦ rw (← is) (
            rw (chan_at-set_self w.buckets bucket (set chans id none) l, length-set chans id)
              (fits bucket))
        | no other ↦ rw (chan_at-set_ne w.buckets bucket i (set chans id none) other) (fits i)
      ]

  -- Outside of a tick, `update` on the slot of a handler leaves an empty function under the old
  -- slot and puts an empty function, not the handler, under the slot that it returns.
  pub update_empties :
      (w : TimingWheel H) (slot timeout : ℕ) (cb : H)
      → IsWheel w
      → FitsSlots w
      → w.ontimer ≡ false
      → timeout < w.max_timeout
      → slot_bucket slot < w.max_buckets
      → handler_at w slot ≡ some (some cb)
      → (r : TimingWheel H × ℕ) × (update slot timeout w ≡ ret r)
        × (handler_at r.0 slot ≡ some none)
        × (handler_at r.0 r.1 ≡ some none)
  unfolding update
  update_empties w slot timeout cb v fits idle inside low at =
      let chans = chan_at w.buckets (slot_bucket slot) in
      let here = get_elem?-chan_at w.buckets (slot_bucket slot) (omega arith) in
      let cleared = clear_at w (slot_bucket slot) chans (slot_id slot) in
      let valid = clear_at-IsWheel w (slot_bucket slot) (slot_id slot) chans v in
      let fits' = clear_at-FitsSlots w (slot_bucket slot) (slot_id slot) (omega arith) fits in
      (
        add none timeout cleared,
        ground (arith, here, at, fits (slot_bucket slot), get_elem?-lt chans (slot_id slot) at),
        add-keeps cleared none timeout slot valid fits' idle inside
            (clear_at-entry w slot v low at),
        (handler_at-add cleared none timeout slot valid fits' idle inside).0,
      )
