-- ===== src/HttpRequest/Number.antt =====
-- `std::stoi`, as http/httprequest.cpp calls it, of numbers that an `int` holds.
use libtnet.Base.{ℕ, zero, suc, ◌&&◌, ◌||◌, [], ◌∷◌, leb, ◌==◌, if◌then◌else◌}
use libtnet.Base.Bytes.{Bytes}
use libtnet.Base.Decimal.{number, is_digit}
use libtnet.Base.Int.{ℤ, pos, negsuc}
use libtnet.Base.Outcome.{Outcome, ret, fault, invalid_argument, ◌>>=◌}

-- `std::stoi` of a text: spaces are skipped, then digits are wanted, after a sign if there is one.
unfoldable pub unsigned_of : Bytes → Outcome ℕ
unsigned_of [] = fault invalid_argument
unsigned_of (c ∷ s) = if is_digit c then ret (number 0 (c ∷ s)).0 else fault invalid_argument

unfoldable pub negated : ℕ → ℤ
negated zero = pos 0
negated (suc n) = negsuc n

unfoldable pub signed_of : Bytes → Outcome ℤ
unfolding unsigned_of negated
signed_of [] = fault invalid_argument
signed_of (c ∷ s) =
    if c == b'-'
    then (do n ← unsigned_of s; ret (negated n))
    else if c == b'+'
    then (do n ← unsigned_of s; ret (pos n))
    else (do n ← unsigned_of (c ∷ s); ret (pos n))

unfoldable pub stoi : Bytes → Outcome ℤ
unfolding signed_of
stoi [] = fault invalid_argument
stoi (c ∷ s) =
    let rest = stoi s in if c == 32 || leb 9 c && leb c 13 then rest else signed_of (c ∷ s)
