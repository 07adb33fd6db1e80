-- ===== src/Base/Tests.antt =====
-- Boolean tests on the native numbers, the conditional, and the case splits on computed values.
use Prim.Native.Nat.{ℕ, ◌≤◌, ◌<◌, compare, Ordering}
use mathlib.Core.Path.{◌≡◌, refl, sym, subst}
use mathlib.Core.Logic.{◌↔◌, ◌⊎◌, inl, inr}
use mathlib.Core.Bool.{Bool, true, false}
use mathlib.Core.Option.{Option, none, some}
use native.Mathlib.Omega.{arith}

abbrev pub ltb : ℕ → ℕ → Bool
ltb a b = elim (compare a b) [ Ordering.lt ↦ true | _ ↦ false ]

abbrev pub leb : ℕ → ℕ → Bool
leb a b = elim (compare a b) [ Ordering.gt ↦ false | _ ↦ true ]

infix 50 ◌==◌
abbrev pub ◌==◌ : ℕ → ℕ → Bool
a == b = elim (compare a b) [ Ordering.eq ↦ true | _ ↦ false ]

infix 1 if◌then◌else◌
abbrev pub if◌then◌else◌ {ℓ} : {A : Type ℓ} → Bool → A → A → A
if true then x else y = x
if false then x else y = y

pub ltb→lt : (a b : ℕ) → ltb a b ≡ true → a < b
ltb→lt a b h = ground arith

pub lt→ltb : (a b : ℕ) → a < b → ltb a b ≡ true
lt→ltb a b h = ground arith

pub le→ltb : (a b : ℕ) → b ≤ a → ltb a b ≡ false
le→ltb a b h = ground arith

pub ltb→le : (a b : ℕ) → ltb a b ≡ false → b ≤ a
ltb→le a b h = ground arith

pub leb→le : (a b : ℕ) → leb a b ≡ true → a ≤ b
leb→le a b h = ground arith

pub le→leb : (a b : ℕ) → a ≤ b → leb a b ≡ true
le→leb a b h = ground arith

pub ==_iff : (a b : ℕ) → ((a == b) ≡ true) ↔ (a ≡ b)
==_iff a b = ground arith

pub ruleset tests = (arith, ltb→lt, lt→ltb, leb→le)

pub Bool-cases : (b : Bool) → (b ≡ true) ⊎ (b ≡ false)
Bool-cases true = inl refl
Bool-cases false = inr refl

pub Option-cases {ℓ} : {A : Type ℓ} (o : Option A) → (o ≡ none) ⊎ ((a : A) × (o ≡ some a))
Option-cases none = inl refl
Option-cases (some a) = inr (a, refl)

-- What holds on both branches of a test.
pub on_branches {ℓ κ} :
    {A : Type ℓ} (P : A → Type κ) (b : Bool) {x y : A}
    → ((b ≡ true) → P x)
    → ((b ≡ false) → P y)
    → P (if b then x else y)
on_branches P true f g = f refl
on_branches P false f g = g refl

-- What holds whether there is a value or not.
pub on_option {ℓ κ μ} :
    {A : Type ℓ} {B : Type μ} (P : A → Type κ) (o : Option B) {x : A} {f : B → A}
    → (o ≡ none → P x)
    → ((b : B) → o ≡ some b → P (f b))
    → P (elim o as (λ _. A) [ none ↦ x | some b ↦ f b ])
on_option P none p q = p refl
on_option P (some b) p q = q b refl

-- Two computations that go by the same value, the first behind a test that says when there is none.
pub on_guarded {ℓ κ μ ν} :
    {A : Type ℓ} {B : Type μ} {C : Type ν} (P : A → C → Type κ) (b : Bool) (o o' : Option B) {x : A}
    {f : B → A} {x' : C} {f' : B → C}
    → (b ≡ true → o ≡ none)
    → o ≡ o'
    → P x x'
    → ((v : B) → b ≡ false → o ≡ some v → P (f v) (f' v))
    → P
        (if b then x else elim o as (λ _. A) [ none ↦ x | some v ↦ f v ])
        (elim o' as (λ _. C) [ none ↦ x' | some v ↦ f' v ])
on_guarded {A = A} {B = B} {C = C} P b o o' {x = x} {f = f} {x' = x'} {f' = f'} nothing e p q =
    subst
      (λ t.
        P (if b then x else elim o as (λ _. A) [ none ↦ x | some v ↦ f v ])
          (elim t as (λ _. C) [ none ↦ x' | some v ↦ f' v ]))
      e (go b o nothing q)
  where
    go :
        (b : Bool) (o : Option B)
        → (b ≡ true → o ≡ none)
        → ((v : B) → b ≡ false → o ≡ some v → P (f v) (f' v))
        → P
            (if b then x else elim o as (λ _. A) [ none ↦ x | some v ↦ f v ])
            (elim o as (λ _. C) [ none ↦ x' | some v ↦ f' v ])
    go true o nothing q =
        subst (λ t. P x (elim t as (λ _. C) [ none ↦ x' | some v ↦ f' v ])) (sym (nothing refl)) p
    go false none nothing q = p
    go false (some v) nothing q = q v refl refl

-- What holds of two computations that make the same test.
pub on_both {ℓ κ ν} :
    {A : Type ℓ} {C : Type ν} (P : A → C → Type κ) (b : Bool) {x y : A} {x' y' : C}
    → P x x'
    → P y y'
    → P (if b then x else y) (if b then x' else y')
on_both P true p q = p
on_both P false p q = q
