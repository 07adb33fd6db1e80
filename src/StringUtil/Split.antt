-- ===== src/StringUtil/Split.antt =====
-- stringutil.cpp, `split`: what the parts are.
use libtnet.Base.{
  ℕ, zero, suc, ◌+◌, ◌-◌, ◌^◌, ◌≤◌, ◌<◌, ◌≡◌, refl, sym, ap, ◌∙◌, ◌⊎◌, inl, inr, false, List, [],
  ◌∷◌, ◌++◌, append-nil, append_assoc, arith, ◌==◌, Bool-cases, All, if◌then◌else◌, length,
  length-append,
}
use libtnet.Base.Bytes.{Bytes}
use libtnet.Base.Outcome.{Outcome, ret}
use libtnet.StringUtil.{contains, token, snoc, split_loop, split}

-- The bytes that are not delimiters.
pub text_of : Bytes → Bytes → Bytes
text_of delim [] = []
text_of delim (c ∷ cs) = let rest = text_of delim cs in if contains delim c then rest else c ∷ rest

abbrev pub concat : List Bytes → Bytes
concat [] = []
concat (t ∷ ts) = t ++ concat ts

abbrev pub HasBytes : Bytes → Type 0
HasBytes t = 0 < length t

-- No delimiter is in the part.
abbrev pub IsWord : Bytes → Bytes → Type 0
IsWord delim = All (λ c. contains delim c ≡ false)

-- The limit that `split` works with.
abbrev pub limit_of : ℕ → ℕ
limit_of max_parts = if max_parts == 0 then 2 ^ 64 - 1 else max_parts

text_of-append : (delim s t : Bytes) → text_of delim (s ++ t) ≡ text_of delim s ++ text_of delim t
unfolding text_of
text_of-append delim [] t = refl
text_of-append delim (c ∷ s) t = elim (Bool-cases (contains delim c)) [
  | inl d ↦ rw d (text_of-append delim s t)
  | inr n ↦ rw n (ap (λ r. c ∷ r) (text_of-append delim s t))
]

text_of-IsWord : (delim w : Bytes) → IsWord delim w → text_of delim w ≡ w
unfolding text_of
text_of-IsWord delim [] h = refl
text_of-IsWord delim (c ∷ w) (n, h) = rw n (ap (λ r. c ∷ r) (text_of-IsWord delim w h))

-- The text behind the delimiter that ends a part.
abbrev after : Bytes → Bytes
after [] = []
after (d ∷ rest) = rest

record TokenOf (delim src word rest : Bytes) : Type 0 where
  is : token delim src ≡ (word, rest)
  clean : IsWord delim word
  text : text_of delim src ≡ word ++ text_of delim (after rest)
  size : length word + length rest ≤ length src

token_of : (delim src : Bytes) → (word : Bytes) × (rest : Bytes) × TokenOf delim src word rest
unfolding token text_of
token_of delim [] = ([], [], record { is = refl; clean = tt; text = refl; size = omega arith })
token_of delim (c ∷ cs) = elim (Bool-cases (contains delim c)) [
  | inl d ↦
      ([], c ∷ cs, record { is = rw d refl; clean = tt; text = rw d refl; size = omega arith })
  | inr n ↦
      let (word, rest, t) = token_of delim cs in
      (
        c ∷ word,
        rest,
        record {
          is = rw n (rw (t.is) refl);
          clean = (n, t.clean);
          text = rw n (ap (λ r. c ∷ r) t.text);
          size = omega (arith, t.size);
        },
      )
]

-- What the loop adds to the parts that it has.
record Found (limit : ℕ) (delim : Bytes) (tokens : List Bytes) (src : Bytes)
    (o : Outcome (List Bytes)) : Type 0 where
  found : List Bytes
  returns : o ≡ ret (tokens ++ found)
  full : All HasBytes found
  inside : length tokens + length found ≤ limit
  words : (length tokens + length found ≡ limit) ⊎ All (IsWord delim) found
  text : text_of delim (concat found) ≡ text_of delim src

Found-none :
    (limit : ℕ) (delim : Bytes) (tokens : List Bytes) (src : Bytes)
    → length tokens ≤ limit
    → text_of delim src ≡ []
    → Found limit delim tokens src (ret tokens)
unfolding text_of
Found-none limit delim tokens src l e = record {
  found = [];
  returns = ap ret (sym (append-nil tokens));
  full = tt;
  inside = omega arith;
  words = inr tt;
  text = sym e;
}

-- The last part of the limit is all the text that is left.
Found-last :
    (limit : ℕ) (delim : Bytes) (tokens : List Bytes) (src : Bytes)
    → length tokens + 1 ≡ limit
    → 0 < length src
    → Found limit delim tokens src (ret (snoc tokens src))
Found-last limit delim tokens src l some_text = record {
  found = src ∷ [];
  returns = refl;
  full = (some_text, tt);
  inside = omega arith;
  words = inl (omega arith);
  text = ap (text_of delim) (append-nil src);
}

Found-skip :
    (limit : ℕ) (delim : Bytes) (tokens : List Bytes) (src rest : Bytes) (o : Outcome (List Bytes))
    → text_of delim src ≡ text_of delim rest
    → Found limit delim tokens rest o
    → Found limit delim tokens src o
Found-skip limit delim tokens src rest o e f = record {
  found = f.found;
  returns = f.returns;
  full = f.full;
  inside = f.inside;
  words = f.words;
  text = f.text ∙ sym e;
}

Found-more :
    (limit : ℕ) (delim : Bytes) (tokens : List Bytes) (src word rest : Bytes)
    (o : Outcome (List Bytes))
    → 0 < length word
    → IsWord delim word
    → text_of delim src ≡ word ++ text_of delim rest
    → Found limit delim (snoc tokens word) rest o
    → Found limit delim tokens src o
Found-more limit delim tokens src word rest o some_text clean e f =
    let longer = length-append tokens (word ∷ []) in
    record {
      found = word ∷ f.found;
      returns = f.returns ∙ ap ret (append_assoc tokens (word ∷ []) f.found);
      full = (some_text, f.full);
      inside = omega (arith, longer, f.inside);
      words = elim f.words [
        | inl last ↦ inl (omega (arith, longer, last))
        | inr all ↦ inr (clean, all)
      ];
      text =
          text_of-append delim word (concat f.found)
          ∙ ap (λ w. w ++ text_of delim (concat f.found)) (text_of-IsWord delim word clean)
          ∙ ap (λ r. word ++ r) f.text
          ∙ sym e;
    }

abbrev LoopFound : ℕ → ℕ → Bytes → Type 0
LoopFound fuel limit delim =
    (tokens : List Bytes) (src : Bytes)
    → length src < fuel
    → length tokens < limit
    → Found limit delim tokens src (split_loop fuel limit delim tokens src)

-- A round whose part is not the last of the limit.
round_more :
    (fuel limit : ℕ) (delim : Bytes) (tokens : List Bytes) (src : Bytes) (c : ℕ) (word rest : Bytes)
    → LoopFound fuel limit delim
    → length src < suc fuel
    → length tokens < limit
    → TokenOf delim src (c ∷ word) rest
    → (length tokens == limit - 1) ≡ false
    → Found limit delim tokens src (split_loop (suc fuel) limit delim tokens src)
unfolding split_loop
round_more fuel limit delim tokens src c word [] ih l m t more =
    let longer = length-append tokens ((c ∷ word) ∷ []) in
    rw (t.is, split_loop)
      (rw (more, t.is, split_loop)
        (Found-more limit delim tokens src (c ∷ word) [] _ (omega arith) t.clean t.text (
          Found-none limit delim (snoc tokens (c ∷ word)) [] (omega (arith, longer))
            (unfold text_of in refl))))
round_more fuel limit delim tokens src c word (d ∷ rest) ih l m t more =
    let longer = length-append tokens ((c ∷ word) ∷ []) in
    rw (t.is, split_loop)
      (rw (more, t.is, split_loop)
        (Found-more limit delim tokens src (c ∷ word) rest _ (omega arith) t.clean t.text (
          ih (snoc tokens (c ∷ word)) rest (omega (arith, t.size)) (ground (arith, longer, more)))))

round :
    (fuel limit : ℕ) (delim : Bytes) (tokens : List Bytes) (src word rest : Bytes)
    → LoopFound fuel limit delim
    → length src < suc fuel
    → length tokens < limit
    → TokenOf delim src word rest
    → Found limit delim tokens src (split_loop (suc fuel) limit delim tokens src)
unfolding split_loop text_of
round fuel limit delim tokens src [] [] ih l m t =
    rw (t.is, t.is, split_loop) (Found-none limit delim tokens src (omega arith) t.text)
round fuel limit delim tokens src [] (d ∷ rest) ih l m t =
    rw (t.is, t.is, split_loop)
      (Found-skip limit delim tokens src rest _ t.text (ih tokens rest (omega (arith, t.size)) m))
round fuel limit delim tokens src (c ∷ word) rest ih l m t =
    elim (Bool-cases (length tokens == limit - 1)) [
      | inl last ↦
          rw (t.is, split_loop)
            (rw (last, split_loop)
              (Found-last limit delim tokens src (ground (arith, last)) (omega (arith, t.size))))
      | inr more ↦ round_more fuel limit delim tokens src c word rest ih l m t more
    ]

loop_found : (fuel limit : ℕ) (delim : Bytes) → LoopFound fuel limit delim
loop_found zero limit delim tokens src l m = absurd (omega arith)
loop_found (suc fuel) limit delim tokens src l m =
    let (word, rest, t) = token_of delim src in
    round fuel limit delim tokens src word rest (loop_found fuel limit delim) l m t

-- Whatever the text, the delimiters and the limit are, `split` returns: no part is empty, there
-- are no more parts than the limit, without their delimiters the parts are the text without its
-- delimiters, and there are as many parts as the limit or no part holds a delimiter.
pub split_parts :
    (src delim : Bytes) (max_parts : ℕ)
    → (ts : List Bytes) × (split src delim max_parts ≡ ret ts)
      × All HasBytes ts
      × (length ts ≤ limit_of max_parts)
      × ((length ts ≡ limit_of max_parts) ⊎ All (IsWord delim) ts)
      × (text_of delim (concat ts) ≡ text_of delim src)
unfolding split
split_parts [] delim max_parts = ([], refl, tt, omega arith, inr tt, refl)
split_parts (c ∷ cs) delim max_parts =
    let f =
      loop_found (suc (suc (length cs))) (limit_of max_parts) delim [] (c ∷ cs) (omega arith)
        (ground arith) in
    let none_before : 0 + length f.found ≡ length f.found = omega arith in
    (
      f.found,
      f.returns,
      f.full,
      omega (arith, f.inside),
      elim f.words [ inl last ↦ inl (sym none_before ∙ last) | inr all ↦ inr all ],
      f.text,
    )
