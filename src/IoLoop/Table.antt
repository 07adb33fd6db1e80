-- ===== src/IoLoop/Table.antt =====
-- ioloop.cpp: the vector of handlers as a function of the descriptor.
use libtnet.Base.{
  ℕ, zero, suc, ◌+◌, ◌-◌, ◌≤◌, ◌<◌, ◌≡◌, ◌≢◌, refl, ap, List, [], ◌∷◌, ◌++◌, Option, none, arith,
  length, set, replicate, leb, leb→le, on_branches, length-append, length-replicate,
}
use libtnet.IoLoop.{IoEvent, entry, resize, grown}

pub entry-replicate : (n fd : ℕ) → entry (replicate n none) fd ≡ none
unfolding entry
entry-replicate zero fd = refl
entry-replicate (suc n) zero = refl
entry-replicate (suc n) (suc fd) = entry-replicate n fd

entry-append_none :
    (es : List (Option IoEvent)) (n fd : ℕ) → entry (es ++ replicate n none) fd ≡ entry es fd
unfolding entry
entry-append_none [] n fd = entry-replicate n fd
entry-append_none (e ∷ es) n zero = refl
entry-append_none (e ∷ es) n (suc fd) = entry-append_none es n fd

pub entry-grown : (at fd : ℕ) (es : List (Option IoEvent)) → entry (grown at es) fd ≡ entry es fd
unfolding resize
entry-grown at fd es =
    on_branches (λ r. entry r fd ≡ entry es fd) (leb (length es) at)
      (λ b. entry-append_none es (at + 1 - length es) fd) (λ b. refl)

pub length-grown : (at : ℕ) (es : List (Option IoEvent)) → at < length (grown at es)
unfolding resize
length-grown at es =
    on_branches (λ r. at < length r) (leb (length es) at)
      {x = es ++ replicate (at + 1 - length es) none} {y = es}
      (λ b.
        let le = leb→le (length es) at b in
        let l = length-append es (replicate (at + 1 - length es) none) in
        let k : length (replicate {A = Option IoEvent} (at + 1 - length es) none)
            ≡ at + 1 - length es =
          length-replicate (at + 1 - length es) none in
        omega arith)
      (λ b. ground arith)

pub entry-set_self :
    (es : List (Option IoEvent)) (fd : ℕ) (v : Option IoEvent)
    → fd < length es
    → entry (set es fd v) fd ≡ v
unfolding entry
entry-set_self [] fd v l = absurd (omega arith)
entry-set_self (e ∷ es) zero v l = refl
entry-set_self (e ∷ es) (suc fd) v l = entry-set_self es fd v (omega arith)

pub entry-set_ne :
    (es : List (Option IoEvent)) (i fd : ℕ) (v : Option IoEvent)
    → fd ≢ i
    → entry (set es i v) fd ≡ entry es fd
unfolding entry
entry-set_ne [] i fd v ne = refl
entry-set_ne (e ∷ es) zero zero v ne = absurd (ne refl)
entry-set_ne (e ∷ es) zero (suc fd) v ne = refl
entry-set_ne (e ∷ es) (suc i) zero v ne = refl
entry-set_ne (e ∷ es) (suc i) (suc fd) v ne = entry-set_ne es i fd v (λ p. ne (ap suc p))

-- A descriptor past the end has no handler.
pub entry_out : (es : List (Option IoEvent)) (fd : ℕ) → length es ≤ fd → entry es fd ≡ none
unfolding entry
entry_out [] fd l = refl
entry_out (e ∷ es) zero l = absurd (omega arith)
entry_out (e ∷ es) (suc fd) l = entry_out es fd (omega arith)
