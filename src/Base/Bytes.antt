-- ===== src/Base/Bytes.antt =====
-- Bytes as numbers below 256, texts as lists of them, and the masks of a byte as arithmetic.
use Prim.Native.Nat.{ℕ, zero, suc, ◌*◌, ◌/◌, ◌%◌, ◌<◌, bit_and, bit_xor}
use Prim.Native.Char.{code}
use Prim.Native.String.{String}
use mathlib.Core.Path.{◌≡◌, refl, sym, ap, ◌∙◌}
use mathlib.Core.Logic.{inl, inr}
use mathlib.Core.Bool.{Bool, true, false, ◌&&◌}
use mathlib.Core.List.{List, [], ◌∷◌}
use native.Mathlib.Omega.{arith}
use libtnet.Base.Tests.{◌==◌, ==_iff, Bool-cases}
use libtnet.Base.Lists.{All}

-- The contents of a `std::string`.
abbrev pub Bytes : Type 0
Bytes = List ℕ

abbrev pub IsByte : ℕ → Type 0
IsByte c = c < 256

abbrev pub AreBytes : Bytes → Type 0
AreBytes = All IsByte

-- The code points of a literal: its bytes, since every literal here is ASCII.
abbrev pub codes : String → Bytes
codes String.[] = []
codes (String.◌∷◌ c s) = code c ∷ codes s

-- A test that is true of every byte, tried on the numbers below a bound from the top.
passes : (ℕ → Bool) → ℕ → Bool
passes test zero = true
passes test (suc k) = passes test k && test k

passes-lt : (test : ℕ → Bool) {k : ℕ} (c : ℕ) → c < k → passes test k ≡ true → test c ≡ true
unfolding passes
passes-lt test {k = zero} c below e = absurd (omega arith)
passes-lt test {k = suc k} c below e = ground (arith, passes-lt test {k = k} c)

abbrev byte_masks : ℕ → Bool
byte_masks c =
    bit_and c 0x80 == c / 128 * 128
    && bit_and c 0x70 == c / 16 % 8 * 16
    && bit_and c 0x0f == c % 16
    && bit_and c 0x7f == c % 128
    && bit_and c 0x08 == c / 8 % 2 * 8

byte_masks_table : passes byte_masks 256 ≡ true
unfolding passes
byte_masks_table = refl

-- The masks that the frame parser takes of a byte, read as quotients and remainders.
pub bit_and_byte :
    (c : ℕ)
    → IsByte c
    → (bit_and c 0x80 ≡ c / 128 * 128)
      × (bit_and c 0x70 ≡ c / 16 % 8 * 16)
      × (bit_and c 0x0f ≡ c % 16)
      × (bit_and c 0x7f ≡ c % 128)
      × (bit_and c 0x08 ≡ c / 8 % 2 * 8)
bit_and_byte c h = ground (arith, passes-lt byte_masks c h byte_masks_table)

abbrev cancels : ℕ → ℕ → Bool
cancels a b = bit_xor (bit_xor a b) b == a

xor_table : passes (λ a. passes (cancels a) 256) 256 ≡ true
unfolding passes
xor_table = refl

-- Masking a byte twice gives it back.
pub bit_xor_cancel : (a b : ℕ) → IsByte a → IsByte b → bit_xor (bit_xor a b) b ≡ a
bit_xor_cancel a b p q =
    let row = passes-lt (λ x. passes (cancels x) 256) a p xor_table in
    (==_iff _ a).0 (passes-lt (cancels a) b q row)

-- `==` of two texts.
unfoldable pub same : Bytes → Bytes → Bool
same [] [] = true
same [] (y ∷ ys) = false
same (x ∷ xs) [] = false
same (x ∷ xs) (y ∷ ys) = x == y && same xs ys

pub same_refl : (s : Bytes) → same s s ≡ true
unfolding same
same_refl [] = refl
same_refl (x ∷ xs) = rw ((==_iff x x).1 refl, same_refl xs) refl

pub same_sound : (s t : Bytes) → same s t ≡ true → s ≡ t
unfolding same
same_sound [] [] e = refl
same_sound [] (y ∷ ys) e = cc
same_sound (x ∷ xs) [] e = cc
same_sound (x ∷ xs) (y ∷ ys) e = ground (arith, same_sound xs ys)

pub same_sym : (s t : Bytes) → same s t ≡ false → same t s ≡ false
unfolding same
same_sym s t e = elim (Bool-cases (same t s)) [
  | inl is ↦
      let p = same_sound t s is in let q = same_refl s in absurd (cc (sym e ∙ ap (same s) p ∙ q))
  | inr isnt ↦ isnt
]
