-- ===== src/Acceptor/Descriptors.antt =====
-- acceptor.cpp: what becomes of the descriptors that it is given.
use libtnet.Base.{
  ℕ, ◌+◌, ◌<◌, ◌≡◌, Bool, true, false, List, [], ◌∷◌, ◌++◌, Option, none, some, ltb, ◌==◌,
  on_branches, arith,
}
use libtnet.Acceptor.{
  Acceptor, Accepted, got_fd, too_many, failed, Asked, dummy_opened, listened, accepted, closed,
  no_delay_set, given, watch, unwatch, is_open, make, on_accept, close_if,
}

abbrev one_if : Bool → ℕ
one_if true = 1
one_if false = 0

abbrev pub is_fd : ℕ → Option ℕ → ℕ
is_fd n none = 0
is_fd n (some fd) = one_if (fd == n)

-- How often the system gave a descriptor, and how often it was closed or given to the program.
abbrev pub obtained : ℕ → List Asked → ℕ
obtained n [] = 0
obtained n (dummy_opened fd ∷ l) = is_fd n fd + obtained n l
obtained n (accepted fd ∷ l) = is_fd n fd + obtained n l
obtained n (_ ∷ l) = obtained n l

abbrev pub disposed : ℕ → List Asked → ℕ
disposed n [] = 0
disposed n (closed fd ∷ l) = is_fd n fd + disposed n l
disposed n (given fd ∷ l) = one_if (fd == n) + disposed n l
disposed n (_ ∷ l) = disposed n l

obtained-append :
    (n : ℕ) (l : List Asked) (a : Asked)
    → obtained n (l ++ a ∷ []) ≡ obtained n l + obtained n (a ∷ [])
obtained-append n [] a = omega arith
obtained-append n (dummy_opened fd ∷ l) a = omega (arith, obtained-append n l a)
obtained-append n (accepted fd ∷ l) a = omega (arith, obtained-append n l a)
obtained-append n (listened fd ∷ l) a = obtained-append n l a
obtained-append n (closed fd ∷ l) a = obtained-append n l a
obtained-append n (no_delay_set fd ∷ l) a = obtained-append n l a
obtained-append n (given fd ∷ l) a = obtained-append n l a
obtained-append n (watch fd ∷ l) a = obtained-append n l a
obtained-append n (unwatch fd ∷ l) a = obtained-append n l a

disposed-append :
    (n : ℕ) (l : List Asked) (a : Asked)
    → disposed n (l ++ a ∷ []) ≡ disposed n l + disposed n (a ∷ [])
disposed-append n [] a = omega arith
disposed-append n (closed fd ∷ l) a = omega (arith, disposed-append n l a)
disposed-append n (given fd ∷ l) a = omega (arith, disposed-append n l a)
disposed-append n (dummy_opened fd ∷ l) a = disposed-append n l a
disposed-append n (accepted fd ∷ l) a = disposed-append n l a
disposed-append n (listened fd ∷ l) a = disposed-append n l a
disposed-append n (no_delay_set fd ∷ l) a = disposed-append n l a
disposed-append n (watch fd ∷ l) a = disposed-append n l a
disposed-append n (unwatch fd ∷ l) a = disposed-append n l a

-- What the acceptor still has is the descriptor in reserve.
abbrev Accounted : ℕ → Acceptor → Type 0
Accounted n s = obtained n s.log ≡ disposed n s.log + is_fd n s.dummy_fd

obtained-three :
    (n : ℕ) (l : List Asked) (a b c : Asked)
    → obtained n (((l ++ a ∷ []) ++ b ∷ []) ++ c ∷ [])
      ≡ obtained n l + obtained n (a ∷ []) + obtained n (b ∷ []) + obtained n (c ∷ [])
obtained-three n l a b c = omega (
  arith,
  obtained-append n l a,
  obtained-append n (l ++ a ∷ []) b,
  obtained-append n ((l ++ a ∷ []) ++ b ∷ []) c,
)

disposed-three :
    (n : ℕ) (l : List Asked) (a b c : Asked)
    → disposed n (((l ++ a ∷ []) ++ b ∷ []) ++ c ∷ [])
      ≡ disposed n l + disposed n (a ∷ []) + disposed n (b ∷ []) + disposed n (c ∷ [])
disposed-three n l a b c = omega (
  arith,
  disposed-append n l a,
  disposed-append n (l ++ a ∷ []) b,
  disposed-append n ((l ++ a ∷ []) ++ b ∷ []) c,
)

-- A descriptor that is not open is 0 or none.
freed :
    (n : ℕ) (fd : Option ℕ) (s : Acceptor)
    → 0 < n
    → obtained n s.log ≡ disposed n s.log + is_fd n fd
    → obtained n (close_if (is_open fd) fd s).log ≡ disposed n (close_if (is_open fd) fd s).log
freed n none s positive e = omega arith
freed n (some fd) s positive e =
    on_branches (λ (t : Acceptor). obtained n t.log ≡ disposed n t.log) (ltb 0 fd)
      (λ b. omega (
        arith,
        obtained-append n s.log (closed (some fd)),
        disposed-append n s.log (closed (some fd)),
      ))
      (λ b. ground arith)

on_accept-Accounted :
    (n : ℕ) (first : Accepted) (second dummy : Option ℕ) (s : Acceptor)
    → 0 < n
    → Accounted n s
    → Accounted n (on_accept first second dummy s)
unfolding on_accept
on_accept-Accounted n (got_fd fd) second dummy s positive e = omega (
  arith,
  obtained-three n s.log (accepted (some fd)) (no_delay_set fd) (given fd),
  disposed-three n s.log (accepted (some fd)) (no_delay_set fd) (given fd),
)
on_accept-Accounted n too_many second dummy s positive e =
    let before = freed n s.dummy_fd s positive e in
    let l = (close_if (is_open s.dummy_fd) s.dummy_fd s).log in
    omega (
      arith,
      obtained-three n l (accepted second) (closed second) (dummy_opened dummy),
      disposed-three n l (accepted second) (closed second) (dummy_opened dummy),
    )
on_accept-Accounted n failed second dummy s positive e = e

unfoldable pub accept_all : List (Accepted × (Option ℕ × Option ℕ)) → Acceptor → Acceptor
unfolding on_accept
accept_all [] s = s
accept_all ((first, (second, dummy)) ∷ rs) s = accept_all rs (on_accept first second dummy s)

accept_all-Accounted :
    (n : ℕ) (rs : List (Accepted × (Option ℕ × Option ℕ))) (s : Acceptor)
    → 0 < n
    → Accounted n s
    → Accounted n (accept_all rs s)
unfolding accept_all
accept_all-Accounted n [] s positive e = e
accept_all-Accounted n ((first, (second, dummy)) ∷ rs) s positive e =
    accept_all-Accounted n rs (on_accept first second dummy s) positive
      (on_accept-Accounted n first second dummy s positive e)

-- Whatever the system answers, also when it has too many descriptors, none that is not 0 is lost:
-- each has been closed or given to the program as often as it was obtained, but for the one that the
-- acceptor holds in reserve.
pub accept_all-accounts :
    (n : ℕ) (dummy : Option ℕ) (rs : List (Accepted × (Option ℕ × Option ℕ)))
    → 0 < n
    → obtained n (accept_all rs (make dummy)).log
      ≡ disposed n (accept_all rs (make dummy)).log + is_fd n (accept_all rs (make dummy)).dummy_fd
unfolding make
accept_all-accounts n dummy rs positive =
    accept_all-Accounted n rs (make dummy) positive (omega arith)
