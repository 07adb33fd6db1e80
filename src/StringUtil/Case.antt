-- ===== src/StringUtil/Case.antt =====
-- Letters and their case.
use libtnet.Base.{ℕ, ◌≡◌, refl, ap₂, [], ◌∷◌, arith}
use libtnet.Base.Bytes.{Bytes}
use libtnet.StringUtil.{to_lower, to_upper, lower, upper}

pub to_lower-to_upper : (c : ℕ) → to_lower (to_upper c) ≡ to_lower c
unfolding to_lower to_upper
to_lower-to_upper c = ground arith

pub to_upper-to_lower : (c : ℕ) → to_upper (to_lower c) ≡ to_upper c
unfolding to_lower to_upper
to_upper-to_lower c = ground arith

pub to_lower-to_lower : (c : ℕ) → to_lower (to_lower c) ≡ to_lower c
unfolding to_lower
to_lower-to_lower c = ground arith

pub lower-upper : (s : Bytes) → lower (upper s) ≡ lower s
unfolding lower upper
lower-upper [] = refl
lower-upper (c ∷ cs) = ap₂ ◌∷◌ (to_lower-to_upper c) (lower-upper cs)

pub lower-lower : (s : Bytes) → lower (lower s) ≡ lower s
unfolding lower
lower-lower [] = refl
lower-lower (c ∷ cs) = ap₂ ◌∷◌ (to_lower-to_lower c) (lower-lower cs)
