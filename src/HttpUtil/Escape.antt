-- ===== src/HttpUtil/Escape.antt =====
-- `HttpUtil::escape` and `HttpUtil::unescape`.
use libtnet.Base.{
  ℕ, ◌+◌, ◌*◌, ◌/◌, ◌%◌, ◌<◌, ◌≡◌, ◌≢◌, refl, ap, ◌∙◌, ◌⊎◌, inl, inr, true, ◌&&◌, [], ◌∷◌, ◌++◌,
  some, lt→ltb, le→ltb, arith, dec_lt, Bool-cases, All, All-append,
}
use libtnet.Base.Bytes.{Bytes}
use libtnet.Base.Outcome.{ret, fault, out_of_bounds}
use libtnet.HttpUtil.{
  hex2dec, in_table, decoded, unescape, cons_to, safe, dec2hex, escape_byte, escape,
}

abbrev pub IsAscii : ℕ → Type 0
IsAscii c = c < 128

-- A byte that may stand in an escaped text.
abbrev pub IsPlain : ℕ → Type 0
IsPlain c = (safe c ≡ true) ⊎ (c ≡ b'%')

-- A byte other than `%` is copied, whatever follows it.
unescape_copy : (c : ℕ) (s : Bytes) → c ≢ b'%' → unescape (c ∷ s) ≡ cons_to c (unescape s)
unfolding unescape
unescape_copy c [] ne = refl
unescape_copy c (x ∷ []) ne = refl
unescape_copy c (x ∷ y ∷ s) ne = ground arith

digit_back : (n : ℕ) → n < 16 → (hex2dec (dec2hex n) ≡ some n) × (dec2hex n < 128)
unfolding hex2dec dec2hex
digit_back n l = ground arith

unescape_escaped :
    (c : ℕ) (s : Bytes)
    → c < 128
    → unescape (b'%' ∷ dec2hex (c / 16) ∷ dec2hex (c % 16) ∷ s) ≡ cons_to c (unescape s)
unfolding unescape decoded in_table
unescape_escaped c s l =
    let (hi, a) = digit_back (c / 16) (omega arith) in
    let (lo, b) = digit_back (c % 16) (omega arith) in
    let whole : c / 16 * 16 + c % 16 ≡ c = omega arith in
    let inside : (in_table (dec2hex (c / 16)) && in_table (dec2hex (c % 16))) ≡ true =
      rw (lt→ltb _ _ a, lt→ltb _ _ b) refl in
    rw (inside, unescape) (rw (hi, lo, unescape) (rw whole refl))

safe-ne-percent : (c : ℕ) → safe c ≡ true → c ≢ b'%'
unfolding safe
safe-ne-percent c h e = ground arith

unescape-escape_byte :
    (c : ℕ) (s : Bytes) → c < 128 → unescape (escape_byte c ++ s) ≡ cons_to c (unescape s)
unfolding escape_byte
unescape-escape_byte c s l = elim (Bool-cases (safe c)) [
  | inl plain ↦ rw plain (unescape_copy c s (safe-ne-percent c plain))
  | inr other ↦ rw other (unescape_escaped c s l)
]

dec2hex-safe : (n : ℕ) → n < 16 → safe (dec2hex n) ≡ true
unfolding safe dec2hex
dec2hex-safe n l = ground arith

escape_byte-IsPlain : (c : ℕ) → c < 128 → All IsPlain (escape_byte c)
unfolding escape_byte
escape_byte-IsPlain c l = elim (Bool-cases (safe c)) [
  | inl plain ↦ rw plain (inl plain, tt)
  | inr other ↦
      let hi = dec2hex-safe (c / 16) (omega arith) in
      let lo = dec2hex-safe (c % 16) (omega arith) in rw other (inr refl, (inl hi, (inl lo, tt)))
]

-- An escaped text of ASCII bytes holds letters, digits and `%` only, and unescaping it gives the
-- text back; neither reads a table out of bounds.
pub unescape-escape :
    (src : Bytes)
    → All IsAscii src
    → (e : Bytes) × (escape src ≡ ret e) × All IsPlain e × (unescape e ≡ ret src)
unfolding escape unescape in_table
unescape-escape [] ascii = ([], refl, tt, refl)
unescape-escape (c ∷ cs) (l, ascii) =
    let (e, escaped, plain, back) = unescape-escape cs ascii in
    (
      escape_byte c ++ e,
      rw (lt→ltb c 128 l, escape) (rw escaped refl),
      All-append IsPlain (escape_byte c) e (escape_byte-IsPlain c l) plain,
      unescape-escape_byte c e l ∙ ap (cons_to c) back,
    )

-- The text can be escaped exactly when all its bytes are ASCII: with any other byte `escape` reads
-- its table at a negative index.
pub escape_out_of_bounds : (src : Bytes) → (escape src ≡ fault out_of_bounds) ⊎ All IsAscii src
unfolding escape in_table
escape_out_of_bounds [] = inr tt
escape_out_of_bounds (c ∷ cs) = elim (dec_lt c 128) [
  | no high ↦ inl (rw (le→ltb c 128 (omega arith), escape) refl)
  | yes l ↦ elim (escape_out_of_bounds cs) [
    | inl bad ↦ inl (rw (lt→ltb c 128 l, escape) (rw bad refl))
    | inr ascii ↦ inr (l, ascii)
  ]
]
