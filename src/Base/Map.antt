-- ===== src/Base/Map.antt =====
-- `std::map` with texts for keys, as far as the program looks up and assigns.
use mathlib.Core.Path.{◌≡◌, sym, ap, ◌∙◌}
use mathlib.Core.Bool.{false}
use mathlib.Core.List.{List, [], ◌∷◌}
use mathlib.Core.Option.{Option, none, some}
use libtnet.Base.Tests.{if◌then◌else◌, on_branches}
use libtnet.Base.Bytes.{Bytes, same, same_refl, same_sound}

abbrev pub Map {ℓ} : Type ℓ → Type ℓ
Map A = List (Bytes × A)

unfoldable pub lookup {ℓ} : {A : Type ℓ} → Bytes → Map A → Option A
lookup k [] = none
lookup k ((j, a) ∷ m) = let later = lookup k m in if same k j then some a else later

-- `m[k] = a`
unfoldable pub assign {ℓ} : {A : Type ℓ} → Bytes → A → Map A → Map A
assign k a [] = (k, a) ∷ []
assign k a ((j, b) ∷ m) =
    let later = (j, b) ∷ assign k a m in if same k j then (j, a) ∷ m else later

pub lookup-assign_self {ℓ} :
    {A : Type ℓ} (k : Bytes) (a : A) (m : Map A) → lookup k (assign k a m) ≡ some a
unfolding lookup assign
lookup-assign_self k a [] = ap (λ b. if b then some a else none) (same_refl k)
lookup-assign_self k a ((j, b) ∷ m) =
    on_branches (λ l. lookup k l ≡ some a) (same k j)
      (λ e. ap (λ c. if c then some a else lookup k m) e)
      (λ e. ap (λ c. if c then some b else lookup k (assign k a m)) e ∙ lookup-assign_self k a m)

pub lookup-assign_ne {ℓ} :
    {A : Type ℓ} (i k : Bytes) (a : A) (m : Map A)
    → same i k ≡ false
    → lookup i (assign k a m) ≡ lookup i m
unfolding lookup assign
lookup-assign_ne i k a [] ne = ap (λ b. if b then some a else none) ne
lookup-assign_ne i k a ((j, b) ∷ m) ne =
    on_branches (λ l. lookup i l ≡ lookup i ((j, b) ∷ m)) (same k j)
      (λ e.
        let other = ap (same i) (sym (same_sound k j e)) ∙ ne in
        ap (λ c. if c then some a else lookup i m) other
        ∙ sym (ap (λ c. if c then some b else lookup i m) other))
      (λ e. ap (λ o. if same i j then some b else o) (lookup-assign_ne i k a m ne))
