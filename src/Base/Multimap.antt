-- ===== src/Base/Multimap.antt =====
-- What the program uses of `std::multimap` with texts for keys and values, under an order `less`:
-- the entries in order, those with equivalent keys in the order in which they came in.
use mathlib.Core.Path.{◌≡◌, refl, sym, ap, ◌∙◌}
use mathlib.Core.Logic.{inl, inr}
use mathlib.Core.Bool.{Bool, true, false, not, ◌&&◌}
use mathlib.Core.List.{List, [], ◌∷◌}
use mathlib.Core.Option.{Option, none, some}
use libtnet.Base.Tests.{if◌then◌else◌, on_branches, Bool-cases, ltb}
use libtnet.Base.Bytes.{Bytes}

abbrev pub Multimap : Type 0
Multimap = List (Bytes × Bytes)

-- The order of `std::string`, byte by byte.
unfoldable pub less : Bytes → Bytes → Bool
less [] [] = false
less [] (y ∷ ys) = true
less (x ∷ xs) [] = false
less (x ∷ xs) (y ∷ ys) =
    let rest = less xs ys in if ltb x y then true else if ltb y x then false else rest

module _ (lt : Bytes → Bytes → Bool) where
  abbrev pub equivalent : Bytes → Bytes → Bool
  equivalent a b = not (lt a b) && not (lt b a)

  unfoldable pub insert : Bytes → Bytes → Multimap → Multimap
  insert key value [] = (key, value) ∷ []
  insert key value ((k, v) ∷ m) =
      let later = (k, v) ∷ insert key value m in
      if lt key k then (key, value) ∷ (k, v) ∷ m else later

  unfoldable pub find : Bytes → Multimap → Option Bytes
  find key [] = none
  find key ((k, v) ∷ m) = let later = find key m in if equivalent key k then some v else later

  unfoldable pub erase : Bytes → Multimap → Multimap
  erase key [] = []
  erase key ((k, v) ∷ m) =
      let kept = (k, v) ∷ erase key m in
      let gone = erase key m in if equivalent key k then gone else kept

  -- The values from the first entry of the key on, as many as the key has.
  unfoldable pub find_all : Bytes → Multimap → List Bytes
  find_all key [] = []
  find_all key ((k, v) ∷ m) =
      let more = v ∷ find_all key m in
      let later = find_all key m in if equivalent key k then more else later

  -- Another key is found as before.
  pub find-insert_ne :
      (j k v : Bytes) (m : Multimap) → equivalent j k ≡ false → find j (insert k v m) ≡ find j m
  unfolding find insert
  find-insert_ne j k v [] e = rw e refl
  find-insert_ne j k v ((i, w) ∷ m) e =
      on_branches (λ t. find j t ≡ find j ((i, w) ∷ m)) (lt k i)
        (λ b. ap (λ c. if c then some v else find j ((i, w) ∷ m)) e)
        (λ b. ap (λ o. if equivalent j i then some w else o) (find-insert_ne j k v m e))

  pub find-erase_self : (k : Bytes) (m : Multimap) → find k (erase k m) ≡ none
  unfolding find erase
  find-erase_self k [] = refl
  find-erase_self k ((i, w) ∷ m) =
      on_branches (λ t. find k t ≡ none) (equivalent k i) (λ b. find-erase_self k m)
        (λ b. ap (λ c. if c then some w else find k (erase k m)) b ∙ find-erase_self k m)

  -- A key that was not there is found with its value.
  pub find-insert_self :
      (k v : Bytes) (m : Multimap)
      → equivalent k k ≡ true
      → find k m ≡ none
      → find k (insert k v m) ≡ some v
  unfolding find insert
  find-insert_self k v [] e none_there = ap (λ c. if c then some v else none) e
  find-insert_self k v ((i, w) ∷ m) e none_there =
      on_branches (λ t. find k t ≡ some v) (lt k i)
        (λ b. ap (λ c. if c then some v else find k ((i, w) ∷ m)) e)
        (λ b. elim (Bool-cases (equivalent k i)) [
          | inl here ↦
              absurd (cc (sym (ap (λ c. if c then some w else find k m) here) ∙ none_there))
          | inr there ↦
              ap (λ c. if c then some w else find k (insert k v m)) there
              ∙ find-insert_self k v m e
                  (sym (ap (λ c. if c then some w else find k m) there) ∙ none_there)
        ])
