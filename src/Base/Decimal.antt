-- ===== src/Base/Decimal.antt =====
-- `%d` of a number that is not negative, and the numbers at the start of a text.
use Prim.Native.Nat.{ℕ, zero, suc, ◌+◌, ◌-◌, ◌*◌, ◌/◌, ◌%◌, ◌≤◌, ◌<◌}
use mathlib.Core.Path.{◌≡◌, refl, ap, ◌∙◌}
use mathlib.Core.Logic.{inl, inr}
use mathlib.Core.Bool.{Bool, true, false, ◌&&◌}
use mathlib.Core.List.{[], ◌∷◌, ◌++◌, append_assoc}
use native.Mathlib.Omega.{arith}
use libtnet.Base.Tests.{ltb, leb, if◌then◌else◌, Bool-cases, on_branches}
use libtnet.Base.Lists.{All, All-append}
use libtnet.Base.Bytes.{Bytes}

abbrev pub is_digit : ℕ → Bool
is_digit c = leb b'0' c && leb c b'9'

-- The digits of a number, with fuel.
digits : ℕ → ℕ → Bytes
digits zero n = []
digits (suc fuel) n =
    let more = digits fuel (n / 10) ++ (b'0' + n % 10) ∷ [] in
    if ltb n 10 then (b'0' + n) ∷ [] else more

-- `snprintf(buf, size, "%d", n)`
unfoldable pub show : ℕ → Bytes
unfolding digits
show n = digits (suc n) n

-- The number that the digits at the start of a text make, behind `acc`, and the text after them.
unfoldable pub number : ℕ → Bytes → ℕ × Bytes
number acc [] = (acc, [])
number acc (c ∷ cs) = elim (is_digit c) [
  | true ↦ number (acc * 10 + (c - b'0')) cs
  | false ↦ (acc, c ∷ cs)
]

number_digit :
    (acc d : ℕ) (rest : Bytes)
    → d < 10
    → number acc ((b'0' + d) ∷ rest) ≡ number (acc * 10 + d) rest
unfolding number
number_digit acc d rest l =
    let yes_digit : is_digit (b'0' + d) ≡ true = ground arith in
    let back : b'0' + d - b'0' ≡ d = omega arith in rw (yes_digit, number) (rw back refl)

number-digits :
    (fuel n : ℕ) (rest : Bytes) → n < fuel → number 0 (digits fuel n ++ rest) ≡ number n rest
unfolding digits
number-digits zero n rest l = absurd (omega arith)
number-digits (suc fuel) n rest l = elim (Bool-cases (ltb n 10)) [
  | inl short ↦
      let low : n < 10 = ground (arith, short) in
      let e : 0 * 10 + n ≡ n = omega arith in
      rw short (number_digit 0 n rest low ∙ ap (λ k. number k rest) e)
  | inr long ↦
      let high : 10 ≤ n = ground (arith, long) in
      let whole : n / 10 * 10 + n % 10 ≡ n = omega arith in
      rw long (
        ap (number 0) (append_assoc (digits fuel (n / 10)) ((b'0' + n % 10) ∷ []) rest)
        ∙ number-digits fuel (n / 10) ((b'0' + n % 10) ∷ rest) (omega arith)
        ∙ number_digit (n / 10) (n % 10) rest (omega arith)
        ∙ ap (λ k. number k rest) whole)
]

-- A number is read back from its digits.
pub number-show : (n : ℕ) (rest : Bytes) → number 0 (show n ++ rest) ≡ number n rest
unfolding show
number-show n rest = number-digits (suc n) n rest (omega arith)

pub number_stop :
    (n c : ℕ) (rest : Bytes) → is_digit c ≡ false → number n (c ∷ rest) ≡ (n, c ∷ rest)
unfolding number
number_stop n c rest e = rw (e, number) refl

-- What the text of a number is made of.
module _ (P : ℕ → Type 0) (all_digits : (d : ℕ) → d < 10 → P (b'0' + d)) where
  All-digits : (fuel n : ℕ) → All P (digits fuel n)
  unfolding digits
  All-digits zero n = tt
  All-digits (suc fuel) n =
      on_branches (All P) (ltb n 10) (λ e. (all_digits n (ground (arith, e)), tt))
        (λ e.
          All-append P (digits fuel (n / 10)) ((b'0' + n % 10) ∷ []) (All-digits fuel (n / 10))
            (all_digits (n % 10) (omega arith), tt))

  pub All-show : (n : ℕ) → All P (show n)
  unfolding show
  All-show n = All-digits (suc n) n
