-- ===== src/StringUtil.antt =====
-- stringutil.h and stringutil.cpp: `split`, `hash`, the case of letters, `strip` and `hex`, on bytes in
-- the "C" locale, with a signed `char`. The digests and base64 of polarssl are parameters.
pub mod Case
pub mod Split
pub mod Examples
pub mod Hex
use libtnet.Base.{
  ℕ, zero, suc, ◌+◌, ◌-◌, ◌*◌, ◌/◌, ◌%◌, ◌^◌, Bool, true, false, not, ◌&&◌, ◌||◌, List, [], ◌∷◌,
  ◌++◌, map, leb, ltb, ◌==◌, if◌then◌else◌, length, set, replicate, Option, none, some, bit_and,
  bit_xor,
}
use libtnet.Base.Bytes.{Bytes}
use libtnet.Base.Outcome.{Outcome, ret, fault, unfinished, ◌>>=◌}
use mathlib.Core.List.{reverse}

-- `::tolower` and `::toupper`
unfoldable pub to_lower : ℕ → ℕ
to_lower c = if leb b'A' c && leb c b'Z' then c + 32 else c

unfoldable pub to_upper : ℕ → ℕ
to_upper c = if leb b'a' c && leb c b'z' then c - 32 else c

unfoldable pub lower : Bytes → Bytes
unfolding to_lower
lower [] = []
lower (c ∷ cs) = to_lower c ∷ lower cs

unfoldable pub upper : Bytes → Bytes
unfolding to_upper
upper [] = []
upper (c ∷ cs) = to_upper c ∷ upper cs

-- `isspace`
pub is_space : ℕ → Bool
is_space c = c == 32 || leb 9 c && leb c 13

unfoldable pub lstrip : Bytes → Bytes
unfolding is_space
lstrip [] = []
lstrip (c ∷ cs) = let rest = lstrip cs in if is_space c then rest else c ∷ cs

-- The search of `rstrip` runs over the text in reverse.
unfoldable pub rstrip : Bytes → Bytes
unfolding lstrip
rstrip s = reverse (lstrip (reverse s))

unfoldable pub strip : Bytes → Bytes
unfolding rstrip lstrip
strip s = lstrip (rstrip s)

-- `delim.find_first_of(c) != npos`
pub contains : Bytes → ℕ → Bool
contains [] c = false
contains (d ∷ ds) c = d == c || contains ds c

-- The inner loop of `split`: the text from `lastPos` up to `pos`, and the text from `pos` on.
pub token : Bytes → Bytes → Bytes × Bytes
unfolding contains
token delim [] = ([], [])
token delim (c ∷ cs) =
    let (word, rest) = token delim cs in if contains delim c then ([], c ∷ cs) else (c ∷ word, rest)

abbrev pub snoc {ℓ} : {A : Type ℓ} → List A → A → List A
snoc xs a = xs ++ a ∷ []

-- The outer loop: `src` is the text from `lastPos` on and `limit` is `maxParts`.
pub split_loop : ℕ → ℕ → Bytes → List Bytes → Bytes → Outcome (List Bytes)
unfolding token
split_loop zero limit delim tokens src = fault unfinished
split_loop (suc fuel) limit delim tokens src =
    let next : List Bytes → Outcome (List Bytes) = λ ts. elim (token delim src).1 [
      | [] ↦ ret ts
      | d ∷ rest ↦ split_loop fuel limit delim ts rest
    ] in
    elim (token delim src).0 [
      | [] ↦ next tokens
      | c ∷ word ↦ elim (length tokens == limit - 1) [
        | true ↦ ret (snoc tokens src)
        | false ↦ next (snoc tokens (c ∷ word))
      ]
    ]

-- A limit of 0 is `size_t(-1)`. Each round but the last takes a byte: one round more than there are bytes is enough.
unfoldable pub split : Bytes → Bytes → ℕ → Outcome (List Bytes)
unfolding split_loop
split src delim max_parts = elim src [
  | [] ↦ ret []
  | c ∷ cs ↦
      split_loop (suc (suc (length cs))) (if max_parts == 0 then 2 ^ 64 - 1 else max_parts) delim []
        (c ∷ cs)
]

-- `h[n]`
pub hex_digit : ℕ → ℕ
hex_digit n = if ltb n 10 then b'0' + n else b'a' + (n - 10)

-- `src[i + 1]`: the next byte, or the one behind the buffer
pub head_or : ℕ → Bytes → ℕ
head_or behind [] = behind
head_or behind (c ∷ cs) = c

-- The loop of `hex` from the index `i` on; `src` is the rest of the buffer.
pub hex_loop : ℕ → ℕ → Bytes → Bytes → Bytes
unfolding hex_digit head_or
hex_loop behind i [] dest = dest
hex_loop behind i (c ∷ cs) dest =
    hex_loop behind (i + 1) cs
      (set (set dest i (hex_digit (c / 16))) (i + 1) (hex_digit (head_or behind cs % 16)))

-- `hex`; `behind` is the byte in memory behind the buffer, which its last round reads.
pub hex : ℕ → Bytes → Bytes
unfolding hex_loop
hex behind src = hex_loop behind 0 src (replicate (2 * length src) 0)

-- A byte as an `unsigned int`, through a signed `char`.
abbrev pub widened : ℕ → ℕ
widened c = if ltb c 128 then c else c + (2 ^ 32 - 256)

-- One round of `hash`, on 32 bits.
pub hash_step : ℕ → ℕ → ℕ
hash_step h c =
    let h' = (h * 16 + widened c) % 2 ^ 32 in
    let x = bit_and h' 0xf0000000 in
    if x == 0 then h' else bit_and (bit_xor h' (x / 2 ^ 24)) (2 ^ 32 - 1 - x)

pub hash_loop : ℕ → Bytes → ℕ
unfolding hash_step
hash_loop h [] = h
hash_loop h (c ∷ cs) = hash_loop (hash_step h c) cs

pub hash : Bytes → ℕ
unfolding hash_loop
hash str = bit_and (hash_loop 0 str) 0x7fffffff

abbrev pub or_empty : Option Bytes → Bytes
or_empty none = []
or_empty (some out) = out

-- The parameter is given the size of the buffer, and may fail.
pub base64_encode : (ℕ → Bytes → Option Bytes) → Bytes → Bytes
base64_encode encode src = or_empty (encode (length src * 4 / 3 + 4) src)

pub base64_decode : (ℕ → Bytes → Option Bytes) → Bytes → Bytes
base64_decode decode src = or_empty (decode (length src * 3 / 4 + 4) src)

-- The first argument is the byte behind the digest, as in `hex`.
pub md5_hex : ℕ → (Bytes → Bytes) → Bytes → Bytes
unfolding hex
md5_hex behind md5 src = hex behind (md5 src)

pub sha1_hex : ℕ → (Bytes → Bytes) → Bytes → Bytes
unfolding hex
sha1_hex behind sha1 src = hex behind (sha1 src)
