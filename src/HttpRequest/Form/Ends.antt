-- ===== src/HttpRequest/Form/Ends.antt =====
-- http/httprequest.cpp, `parseFormData`: the loop ends.
use libtnet.Base.{
  ℕ, zero, suc, ◌+◌, ◌-◌, ◌≤◌, ◌≡◌, subst, Bool, true, false, ◌&&◌, [], ◌∷◌, Option, none, some,
  arith, ltb, ltb→le, on_branches, on_option, ◌==◌, length, drop, length-drop,
}
use libtnet.Base.Bytes.{Bytes, codes}
use libtnet.Base.Multimap.{Multimap}
use libtnet.Base.Outcome.{Outcome, Fault, ret, fault, unfinished, out_of_bounds, ◌>>=◌}
use libtnet.HttpUtil.{unescape, hex2dec, in_table, decoded, cons_to}
use libtnet.HttpRequest.Form.{
  starts_with, index_of, strstr, to_break, breaks, value_end, slice, form_turn, form_loop,
  parse_form_data,
}

abbrev Other : Fault → Type 0
Other unfinished = ⊥
Other _ = Unit

-- The code ends, and what holds of its value if it returns.
abbrev Ends {ℓ} : {A : Type ℓ} → (A → Type 0) → Outcome A → Type 0
Ends P (ret a) = P a
Ends P (fault e) = Other e

Ends->>= {ℓ κ} :
    {A : Type ℓ} {B : Type κ} (P : A → Type 0) (Q : B → Type 0) (m : Outcome A) (f : A → Outcome B)
    → Ends P m
    → ((a : A) → P a → Ends Q (f a))
    → Ends Q (m >>= f)
Ends->>= P Q (ret a) f h next = next a h
Ends->>= P Q (fault e) f h next = h

abbrev Any {ℓ} : {A : Type ℓ} → A → Type 0
Any a = Unit

-- What holds on both branches of a case on a test.
on_cases {ℓ κ} :
    {A : Type ℓ} (P : A → Type κ) (b : Bool) {x y : A}
    → P x
    → P y
    → P (elim b as (λ _. A) [ true ↦ x | false ↦ y ])
on_cases P true p q = p
on_cases P false p q = q

cons_to-Ends : (a : ℕ) (m : Outcome Bytes) → Ends Any m → Ends Any (cons_to a m)
cons_to-Ends a (ret bs) h = tt
cons_to-Ends a (fault e) h = h

unescape-Ends : (s : Bytes) → Ends Any (unescape s)
unfolding unescape
unescape-Ends [] = tt
unescape-Ends (a ∷ []) = tt
unescape-Ends (a ∷ b ∷ []) = tt
unescape-Ends (a ∷ b ∷ c ∷ rest) =
    let kept = cons_to-Ends a (unescape (b ∷ c ∷ rest)) (unescape-Ends (b ∷ c ∷ rest)) in
    let later = unescape-Ends rest in
    on_cases (Ends Any) (a == b'%')
      (on_cases (Ends Any) (in_table b && in_table c)
        (on_option (Ends Any) (decoded (hex2dec b) (hex2dec c)) (λ g. kept)
          (λ d g. cons_to-Ends d (unescape rest) later))
        tt)
      kept

Ends-Any {ℓ} : {A : Type ℓ} (P : A → Type 0) (m : Outcome A) → Ends P m → Ends Any m
Ends-Any P (ret a) h = tt
Ends-Any P (fault e) h = h

-- Where something is found, if it is: between two bounds.
abbrev Between : ℕ → ℕ → Option ℕ → Type 0
Between low high none = Unit
Between low high (some i) = (low ≤ i) × (i ≤ high)

index_of-Between : (needle s : Bytes) → Between 0 (length s) (index_of needle s)
unfolding index_of
index_of-Between needle [] =
    on_branches (Between 0 0) (starts_with needle []) (λ e. (omega arith, omega arith)) (λ e. tt)
index_of-Between needle (c ∷ s) =
    on_cases (Between 0 (suc (length s))) (starts_with needle (c ∷ s)) (omega arith, omega arith)
      (on_cases (Between 0 (suc (length s))) (c == 0) tt
        (shifted (index_of needle s) (index_of-Between needle s)))
  where
    shifted :
        (o : Option ℕ)
        → Between 0 (length s) o
        → Between 0
            (suc (length s))
            (elim o as (λ _. Option ℕ) [ none ↦ none | some i ↦ some (suc i) ])
    shifted none h = tt
    shifted (some i) (low, high) = (omega arith, omega arith)

strstr-Ends :
    (str : Bytes) (from : ℕ) (needle : Bytes)
    → Ends (λ o. (from ≤ length str) × Between from (length str) o) (strstr str from needle)
unfolding strstr
strstr-Ends str from needle =
    on_branches (Ends (λ o. (from ≤ length str) × Between from (length str) o))
      (ltb (length str) from) (λ e. tt)
      (λ e.
        let le = ltb→le (length str) from e in
        (le, moved le (index_of needle (drop from str)) (index_of-Between needle (drop from str))))
  where
    moved :
        from ≤ length str
        → (o : Option ℕ) → Between 0 (length (drop from str)) o
        → Between from
            (length str)
            (elim o as (λ _. Option ℕ) [ none ↦ none | some i ↦ some (from + i) ])
    moved le none h = tt
    moved le (some i) (low, high) = let d = length-drop from str in (omega arith, omega arith)

slice-Ends : (str : Bytes) (ptr p : ℕ) → Ends (λ _. ptr ≤ p) (slice str ptr p)
unfolding slice
slice-Ends str ptr p = on_branches (Ends (λ _. ptr ≤ p)) (ltb p ptr) (λ e. tt) (λ e. ltb→le p ptr e)

value_end-Ends :
    (str boundary : Bytes) (quote ptr : ℕ) → Ends Any (value_end str boundary quote ptr)
unfolding value_end
value_end-Ends str [] quote ptr =
    on_option (Ends Any) (to_break (drop quote str)) (λ e. tt) (λ i e. tt)
value_end-Ends str (b ∷ bs) quote ptr =
    Ends->>= (λ o. (ptr ≤ length str) × Between ptr (length str) o) Any (strstr str ptr (b ∷ bs)) _
      (strstr-Ends str ptr (b ∷ bs)) (λ found h. tt)

abbrev Next : Bytes → ℕ → Multimap × Option ℕ → Type 0
Next str at r = Between (at + 7) (length str) r.1

form_turn-Ends :
    (str boundary : Bytes) (at : ℕ) (params : Multimap)
    → Ends (Next str at) (form_turn str boundary at params)
unfolding form_turn
form_turn-Ends str boundary at params =
    Ends->>= (λ o. (at + 6 ≤ length str) × Between (at + 6) (length str) o) (Next str at)
      (strstr str (at + 6) (b'"' ∷ [])) _ (strstr-Ends str (at + 6) (b'"' ∷ []))
      (λ found in_text.
        Ends->>= (λ q. at + 6 ≤ q) (Next str at)
          (elim found as (λ _. Outcome ℕ) [ none ↦ fault out_of_bounds | some p ↦ ret p ]) _
          (quoted found in_text.1)
          (λ quote after.
            Ends->>= Any (Next str at) (slice str (at + 6) quote) _ (sliced str (at + 6) quote)
              (λ key h.
                let start = quote + 1 + breaks (drop (quote + 1) str) in
                Ends->>= Any (Next str at) (value_end str boundary quote start) _
                  (value_end-Ends str boundary quote start)
                  (λ p h.
                    Ends->>= (λ _. start ≤ p) (Next str at) (slice str start p) _
                      (slice-Ends str start p)
                      (λ value ordered.
                        Ends->>= Any (Next str at) (unescape key) _ (unescape-Ends key) (λ key' h.
                          Ends->>= Any (Next str at) (unescape value) _ (unescape-Ends value)
                            (λ value' h.
                              Ends->>= (λ o. (p ≤ length str) × Between p (length str) o)
                                (Next str at) (strstr str p (codes "name=")) _
                                (strstr-Ends str p (codes "name="))
                                (λ next h. later p (omega arith) next h.1))))))))
  where
    quoted :
        (o : Option ℕ)
        → Between (at + 6) (length str) o
        → Ends
            (λ q. at + 6 ≤ q)
            (elim o as (λ _. Outcome ℕ) [ none ↦ fault out_of_bounds | some p ↦ ret p ])
    quoted none h = tt
    quoted (some p) (low, high) = low

    sliced : (s : Bytes) (ptr p : ℕ) → Ends Any (slice s ptr p)
    sliced s ptr p = Ends-Any (λ _. ptr ≤ p) (slice s ptr p) (slice-Ends s ptr p)

    later :
        (p : ℕ)
        → at + 7 ≤ p
        → (o : Option ℕ) → Between p (length str) o
        → Between (at + 7) (length str) o
    later p le none h = tt
    later p le (some i) (low, high) = (omega arith, high)

form_loop-Ends :
    (fuel : ℕ) (str boundary : Bytes) (at : Option ℕ) (params : Multimap)
    → Between (suc (length str) - fuel) (length str) at
    → Ends Any (form_loop fuel str boundary at params)
unfolding form_loop
form_loop-Ends fuel str boundary none params h = tt
form_loop-Ends zero str boundary (some at) params (low, high) = absurd (omega arith)
form_loop-Ends (suc fuel) str boundary (some at) params (low, high) =
    Ends->>= (Next str at) Any (form_turn str boundary at params) _
      (form_turn-Ends str boundary at params)
      (λ r h. form_loop-Ends fuel str boundary r.1 r.0 (enough r.1 h))
  where
    enough :
        (o : Option ℕ)
        → Between (at + 7) (length str) o
        → Between (suc (length str) - fuel) (length str) o
    enough none h = tt
    enough (some i) (l, k) = (omega arith, k)

parse_form_data-Ends :
    (str boundary : Bytes) (params : Multimap) → Ends Any (parse_form_data str boundary params)
unfolding parse_form_data
parse_form_data-Ends str boundary params =
    Ends->>= (λ o. (0 ≤ length str) × Between 0 (length str) o) Any (strstr str 0 (codes "name=")) _
      (strstr-Ends str 0 (codes "name="))
      (λ at h. form_loop-Ends (suc (length str)) str boundary at params (all_of at h.1))
  where
    all_of :
        (o : Option ℕ)
        → Between 0 (length str) o
        → Between (suc (length str) - suc (length str)) (length str) o
    all_of none h = tt
    all_of (some i) (l, k) = (omega arith, k)

-- Whatever the text and the boundary, the loop of `parseFormData` ends within one turn more than
-- the text has bytes: with the parameters, or with a fault of the code.
pub parse_form_data_ends :
    (str boundary : Bytes) (params : Multimap)
    → ¬ (parse_form_data str boundary params ≡ fault unfinished)
parse_form_data_ends str boundary params e =
    subst (Ends Any) e (parse_form_data-Ends str boundary params)
