-- ===== src/HttpRequest/Form.antt =====
-- http/httprequest.cpp, `parseFormData`. A pointer into the text is an index; the text ends with a
-- byte 0, and a search of the C library stops at the first of these.
pub mod Ends
use libtnet.Base.{
  ℕ, zero, suc, ◌+◌, ◌-◌, Bool, true, false, ◌&&◌, ◌||◌, [], ◌∷◌, Option, none, some, ltb, ◌==◌,
  if◌then◌else◌, length, take, drop, get_elem?,
}
use libtnet.Base.Bytes.{Bytes, codes}
use libtnet.Base.Multimap.{Multimap, less, insert}
use libtnet.Base.Outcome.{Outcome, ret, fault, out_of_bounds, invalid_argument, unfinished, ◌>>=◌}
use libtnet.HttpUtil.{unescape}

unfoldable pub starts_with : Bytes → Bytes → Bool
starts_with [] s = true
starts_with (n ∷ needle) [] = false
starts_with (n ∷ needle) (c ∷ s) = n == c && starts_with needle s

-- `strstr`, as a distance from where it starts
pub index_of : Bytes → Bytes → Option ℕ
unfolding starts_with
index_of needle [] = if starts_with needle [] then some 0 else none
index_of needle (c ∷ s) = elim (starts_with needle (c ∷ s)) [
  | true ↦ some 0
  | false ↦ elim (c == 0) [
    | true ↦ none
    | false ↦ elim (index_of needle s) [ none ↦ none | some i ↦ some (suc i) ]
  ]
]

-- `strstr(str + from, needle)`
pub strstr : Bytes → ℕ → Bytes → Outcome (Option ℕ)
unfolding index_of
strstr str from needle =
    if ltb (length str) from
    then fault out_of_bounds
    else ret (elim (index_of needle (drop from str)) [ none ↦ none | some i ↦ some (from + i) ])

abbrev pub is_break : ℕ → Bool
is_break c = c == 13 || c == 10

-- The line breaks at the start of a text.
pub breaks : Bytes → ℕ
breaks [] = 0
breaks (c ∷ s) = let more = suc (breaks s) in if is_break c then more else 0

-- The bytes before the first line break.
pub to_break : Bytes → Option ℕ
to_break [] = none
to_break (c ∷ s) = elim (is_break c) [
  | true ↦ some 0
  | false ↦ elim (to_break s) [ none ↦ none | some i ↦ some (suc i) ]
]

abbrev pub is_trimmed : Option ℕ → Bool
is_trimmed none = false
is_trimmed (some c) = c == b'-' || is_break c

-- `while (p > ptr && ...) p--`
pub back_up : Bytes → ℕ → ℕ → ℕ
back_up str ptr zero = zero
back_up str ptr (suc q) =
    let before = back_up str ptr q in
    if ltb ptr (suc q) && is_trimmed (get_elem? str (suc q)) then before else suc q

-- Where the value ends that starts at `ptr`; `quote` is where the name ended.
pub value_end : Bytes → Bytes → ℕ → ℕ → Outcome ℕ
unfolding to_break strstr back_up
value_end str boundary quote ptr = elim boundary [
  | [] ↦ elim (to_break (drop quote str)) [ none ↦ fault out_of_bounds | some i ↦ ret (quote + i) ]
  | b ∷ bs ↦ do
    found ← strstr str ptr (b ∷ bs)
    ret (elim found [ none ↦ length str | some p ↦ back_up str ptr p ])
]

-- `std::string(ptr, p)`
pub slice : Bytes → ℕ → ℕ → Outcome Bytes
slice str ptr p = if ltb p ptr then fault invalid_argument else ret (take (p - ptr) (drop ptr str))

-- One turn of the loop, at the text `name=`: the parameters, and where the next turn starts.
pub form_turn : Bytes → Bytes → ℕ → Multimap → Outcome (Multimap × Option ℕ)
unfolding value_end slice strstr breaks
form_turn str boundary at params = do
  let ptr = at + 6
  found ← strstr str ptr (b'"' ∷ [])
  quote ← (elim found [ none ↦ fault out_of_bounds | some p ↦ ret p ])
  key ← slice str ptr quote
  let start = quote + 1 + breaks (drop (quote + 1) str)
  p ← value_end str boundary quote start
  value ← slice str start p
  key' ← unescape key
  value' ← unescape value
  next ← strstr str p (codes "name=")
  ret (insert less key' value' params, next)

pub form_loop : ℕ → Bytes → Bytes → Option ℕ → Multimap → Outcome Multimap
unfolding form_turn
form_loop fuel str boundary none params = ret params
form_loop zero str boundary (some at) params = fault unfinished
form_loop (suc fuel) str boundary (some at) params = do
  (params', next) ← form_turn str boundary at params
  form_loop fuel str boundary next params'

-- A turn takes the six bytes `name="`: one turn more than there are bytes is enough.
pub parse_form_data : Bytes → Bytes → Multimap → Outcome Multimap
unfolding form_loop
parse_form_data str boundary params = do
  at ← strstr str 0 (codes "name=")
  form_loop (suc (length str)) str boundary at params
