-- ===== src/Base/Outcome.antt =====
-- Code that returns, or leaves what C++ defines: a read past the end of an array, a call of an
-- empty `std::function`, an `assert` that fails, an exception for a bad argument or for
-- a text that is too long, a division by zero.
-- `unfinished` is a model's loop that used up its fuel.
use mathlib.Core.Path.{◌≡◌, refl, subst}
use mathlib.Core.Logic.{◌⊎◌, inl, inr}

pub data Fault : Type 0 where
  out_of_bounds bad_function_call assertion_failed invalid_argument : Fault
  divided_by_zero length_error unfinished : Fault

pub data Outcome {ℓ} (A : Type ℓ) : Type ℓ where
  ret : A → Outcome A
  fault : Fault → Outcome A

infixl 5 ◌>>=◌
abbrev pub ◌>>=◌ {ℓ κ} : {A : Type ℓ} {B : Type κ} → Outcome A → (A → Outcome B) → Outcome B
ret a >>= f = f a
fault e >>= f = fault e

pub >>=-eq-ret {ℓ κ} :
    {A : Type ℓ} {B : Type κ} (m : Outcome A) (f : A → Outcome B) {b : B}
    → (m >>= f) ≡ ret b
    → (a : A) × (m ≡ ret a) × (f a ≡ ret b)
>>=-eq-ret (ret a) f h = (a, refl, h)
>>=-eq-ret (fault e) f h = cc

pub Outcome-cases {ℓ} :
    {A : Type ℓ} (m : Outcome A) → ((a : A) × (m ≡ ret a)) ⊎ ((e : Fault) × (m ≡ fault e))
Outcome-cases (ret a) = inl (a, refl)
Outcome-cases (fault e) = inr (e, refl)

pub >>=-eq-fault {ℓ κ} :
    {A : Type ℓ} {B : Type κ} (m : Outcome A) (f : A → Outcome B) {e : Fault}
    → (m >>= f) ≡ fault e
    → (m ≡ fault e) ⊎ ((a : A) × (m ≡ ret a) × (f a ≡ fault e))
>>=-eq-fault (ret a) f h = inr (a, refl, h)
>>=-eq-fault (fault d) f h = inl cc

-- What holds of the value, if the code returns.
abbrev pub Always {ℓ} : {A : Type ℓ} → (A → Type 0) → Outcome A → Type 0
Always P (ret a) = P a
Always P (fault e) = Unit

pub Always->>= {ℓ κ} :
    {A : Type ℓ} {B : Type κ} (P : A → Type 0) (Q : B → Type 0) (m : Outcome A) (f : A → Outcome B)
    → Always P m
    → ((a : A) → P a → Always Q (f a))
    → Always Q (m >>= f)
Always->>= P Q (ret a) f h next = next a h
Always->>= P Q (fault e) f h next = tt

-- Whatever the first value is.
pub Always->>=_any {ℓ κ} :
    {A : Type ℓ} {B : Type κ} (Q : B → Type 0) (m : Outcome A) (f : A → Outcome B)
    → ((a : A) → Always Q (f a))
    → Always Q (m >>= f)
Always->>=_any Q (ret a) f next = next a
Always->>=_any Q (fault e) f next = tt

pub Always_eq {ℓ} :
    {A : Type ℓ} (P : A → Type 0) (m : Outcome A) {a : A} → Always P m → m ≡ ret a → P a
Always_eq P m h e = subst (Always P) e h

pub Always-Always {ℓ} :
    {A : Type ℓ} (P Q : A → Type 0) (m : Outcome A)
    → ((a : A) → P a → Q a)
    → Always P m
    → Always Q m
Always-Always P Q (ret a) weaker h = weaker a h
Always-Always P Q (fault e) weaker h = tt
