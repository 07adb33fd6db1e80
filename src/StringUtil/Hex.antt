-- ===== src/StringUtil/Hex.antt =====
-- stringutil.cpp, `hex`: what its text is.
use libtnet.Base.{
  ℕ, zero, suc, ◌+◌, ◌*◌, ◌/◌, ◌%◌, ◌≤◌, ◌≡◌, refl, sym, ap, ◌∙◌, [], ◌∷◌, ◌++◌, map, append_assoc,
  arith, length, length-append, set, replicate, drop, length-replicate,
}
use libtnet.Base.Bytes.{Bytes}
use libtnet.StringUtil.{hex_digit, head_or, hex_loop, hex}

abbrev pub high_digit : ℕ → ℕ
high_digit b = hex_digit (b / 16)

set-append : (pre rest : Bytes) (x y : ℕ) → set (pre ++ x ∷ rest) (length pre) y ≡ pre ++ y ∷ rest
set-append [] rest x y = refl
set-append (p ∷ pre) rest x y = ap (λ s. p ∷ s) (set-append pre rest x y)

drop-replicate : (n m : ℕ) → drop n (replicate {A = ℕ} (n + m) 0) ≡ replicate m 0
drop-replicate zero m = let e : 0 + m ≡ m = omega arith in rw e refl
drop-replicate (suc n) m =
    let e : suc n + m ≡ suc (n + m) = omega arith in rw e (drop-replicate n m)

-- One round: two bytes are written.
written :
    (pre rest : Bytes) (x y hi lo : ℕ)
    → set (set (pre ++ x ∷ y ∷ rest) (length pre) hi) (length pre + 1) lo
      ≡ (pre ++ hi ∷ []) ++ lo ∷ rest
written pre rest x y hi lo =
    let one : length pre + 1 ≡ length (pre ++ hi ∷ []) = sym (length-append pre (hi ∷ [])) in
    rw (set-append pre (y ∷ rest) x hi) (
      rw one (rw (← append_assoc pre (hi ∷ []) (y ∷ rest)) (set-append (pre ++ hi ∷ []) rest y lo)))

hex_loop_lem :
    (behind : ℕ) (cs pre rest : Bytes) (c x : ℕ)
    → suc (length cs) ≤ length rest
    → hex_loop behind (length pre) (c ∷ cs) (pre ++ x ∷ rest)
      ≡ pre ++ (map high_digit (c ∷ cs) ++ hex_digit (behind % 16) ∷ drop (suc (length cs)) rest)
unfolding hex_loop head_or
hex_loop_lem behind cs pre [] c x l = absurd (omega arith)
hex_loop_lem behind [] pre (y ∷ rest) c x l =
    rw (written pre rest x y (high_digit c) (hex_digit (behind % 16)))
      (append_assoc pre (high_digit c ∷ []) (hex_digit (behind % 16) ∷ rest))
hex_loop_lem behind (d ∷ cs) pre (y ∷ rest) c x l =
    let hi = high_digit c in
    let one : length pre + 1 ≡ length (pre ++ hi ∷ []) = sym (length-append pre (hi ∷ [])) in
    rw (written pre rest x y hi (hex_digit (d % 16))) (
      rw one (
        hex_loop_lem behind cs (pre ++ hi ∷ []) rest d (hex_digit (d % 16)) (omega arith)
        ∙ append_assoc pre (hi ∷ []) _))

-- The text of `hex` is not the text in hexadecimal: it holds the high digit of each byte only, then
-- the low digit of the byte behind the buffer, and is filled with bytes 0.
pub hex_high_digits :
    (behind c : ℕ) (cs : Bytes)
    → hex behind (c ∷ cs)
      ≡ map high_digit (c ∷ cs) ++ hex_digit (behind % 16) ∷ replicate (length cs) 0
unfolding hex
hex_high_digits behind c cs =
    let n = length cs in
    let twice : 2 * suc n ≡ suc (suc (n + n)) = omega arith in
    rw twice (
      hex_loop_lem behind cs [] (replicate (suc (n + n)) 0) c 0
        (omega (arith, length-replicate {A = ℕ} (suc (n + n)) 0))
      ∙ ap (λ r. map high_digit (c ∷ cs) ++ hex_digit (behind % 16) ∷ r) (drop-replicate n n))
