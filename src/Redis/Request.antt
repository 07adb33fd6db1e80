-- ===== src/Redis/Request.antt =====
-- redis/redisconnection.cpp, `buildRequest`, and the protocol that the server reads. The numbers of
-- arguments and of bytes fit an `int`.
use libtnet.Base.{
  ℕ, suc, zero, ◌≡◌, refl, ap, ◌∙◌, List, [], ◌∷◌, ◌++◌, append_assoc, Option, none, some, ==_iff,
  ◌==◌, if◌then◌else◌, length, take, drop, take-append_left, drop-append_left,
}
use libtnet.Base.Bytes.{Bytes}
use libtnet.Base.Decimal.{show, number, number-show, number_stop}

abbrev pub line_end : Bytes
line_end = 13 ∷ 10 ∷ []

-- One argument.
pub bulk : Bytes → Bytes
bulk arg = b'$' ∷ (show (length arg) ++ (line_end ++ (arg ++ line_end)))

pub bulks : List Bytes → Bytes
unfolding bulk
bulks [] = []
bulks (arg ∷ args) = bulk arg ++ bulks args

unfoldable pub build_request : List Bytes → Bytes
unfolding bulks
build_request args = b'*' ∷ (show (length args) ++ (line_end ++ bulks args))

-- What a server reads: a byte that says what comes, a number, and the end of the line.
abbrev pub read_end : Bytes → Option Bytes
read_end (c ∷ d ∷ s) = if c == 13 then (if d == 10 then some s else none) else none
read_end _ = none

pub read_number : ℕ → Bytes → Option (ℕ × Bytes)
read_number mark [] = none
read_number mark (c ∷ s) =
    if c == mark
    then elim (read_end (number 0 s).1) [ none ↦ none | some rest ↦ some ((number 0 s).0, rest) ]
    else none

pub read_bulk : Bytes → Option (Bytes × Bytes)
unfolding read_number
read_bulk s = elim (read_number b'$' s) [
  | none ↦ none
  | some (n, rest) ↦ elim (read_end (drop n rest)) [
    | none ↦ none
    | some rest' ↦ some (take n rest, rest')
  ]
]

pub read_bulks : ℕ → Bytes → Option (List Bytes × Bytes)
unfolding read_bulk
read_bulks zero s = some ([], s)
read_bulks (suc n) s = elim (read_bulk s) [
  | none ↦ none
  | some (arg, rest) ↦ elim (read_bulks n rest) [
    | none ↦ none
    | some (args, rest') ↦ some (arg ∷ args, rest')
  ]
]

pub read_request : Bytes → Option (List Bytes × Bytes)
unfolding read_number read_bulks
read_request s = elim (read_number b'*' s) [ none ↦ none | some (n, rest) ↦ read_bulks n rest ]

read_number-show :
    (mark n : ℕ) (s : Bytes) → read_number mark (mark ∷ (show n ++ (line_end ++ s))) ≡ some (n, s)
unfolding read_number
read_number-show mark n s =
    ap
      (λ c.
        if c
        then elim (read_end (number 0 (show n ++ (line_end ++ s))).1) as (λ _. Option (ℕ × Bytes)) [
          | none ↦ none
          | some rest ↦ some ((number 0 (show n ++ (line_end ++ s))).0, rest)
        ]
        else none)
      ((==_iff mark mark).1 refl)
    ∙ ap
        (λ (r : ℕ × Bytes). elim (read_end r.1) as (λ _. Option (ℕ × Bytes)) [
          | none ↦ none
          | some rest ↦ some (r.0, rest)
        ])
        (number-show n (line_end ++ s) ∙ number_stop n 13 (10 ∷ s) refl)

bulk_append :
    (arg s : Bytes)
    → bulk arg ++ s ≡ b'$' ∷ (show (length arg) ++ (line_end ++ (arg ++ (line_end ++ s))))
unfolding bulk
bulk_append arg s =
    ap (λ l. b'$' ∷ l)
      (append_assoc (show (length arg)) (line_end ++ (arg ++ line_end)) s
        ∙ ap (λ l. show (length arg) ++ (line_end ++ l)) (append_assoc arg line_end s))

read_bulk-bulk : (arg s : Bytes) → read_bulk (bulk arg ++ s) ≡ some (arg, s)
unfolding read_bulk
read_bulk-bulk arg s =
    rw
      (
        bulk_append arg s,
        read_bulk,
        read_number-show b'$' (length arg) (arg ++ (line_end ++ s)),
        drop-append_left arg (line_end ++ s),
        take-append_left arg (line_end ++ s),
      )
      refl

read_bulks-bulks :
    (args : List Bytes) (s : Bytes) → read_bulks (length args) (bulks args ++ s) ≡ some (args, s)
unfolding read_bulks bulks
read_bulks-bulks [] s = refl
read_bulks-bulks (arg ∷ args) s =
    ap (read_bulks (suc (length args))) (append_assoc (bulk arg) (bulks args) s)
    ∙ ap
        (λ o. elim o as (λ _. Option (List Bytes × Bytes)) [
          | none ↦ none
          | some (a, rest) ↦
              elim (read_bulks (length args) rest) as (λ _. Option (List Bytes × Bytes)) [
                | none ↦ none
                | some (rest_args, rest') ↦ some (a ∷ rest_args, rest')
              ]
        ])
        (read_bulk-bulk arg (bulks args ++ s))
    ∙ ap
        (λ o. elim o as (λ _. Option (List Bytes × Bytes)) [
          | none ↦ none
          | some (rest_args, rest') ↦ some (arg ∷ rest_args, rest')
        ])
        (read_bulks-bulks args s)

-- What `buildRequest` writes, read by a server, is the arguments, whatever bytes they hold, and
-- whatever comes behind the request is left for the next.
pub read_request-build_request :
    (args : List Bytes) (s : Bytes) → read_request (build_request args ++ s) ≡ some (args, s)
unfolding read_request build_request
read_request-build_request args s =
    ap (λ l. read_request (b'*' ∷ l)) (append_assoc (show (length args)) (line_end ++ bulks args) s)
    ∙ ap
        (λ o. elim o as (λ _. Option (List Bytes × Bytes)) [
          | none ↦ none
          | some (n, rest) ↦ read_bulks n rest
        ])
        (read_number-show b'*' (length args) (bulks args ++ s))
    ∙ read_bulks-bulks args s
