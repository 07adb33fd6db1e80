-- ===== src/Acceptor/Listening.antt =====
-- acceptor.cpp and sockutil.cpp together: an acceptor whose address cannot be bound.
use libtnet.Base.{
  ℕ, suc, ◌≡◌, refl, ap, ◌∙◌, lt→ltb, arith, ◌⊎◌, inl, inr, true, false, [], ◌∷◌, ◌++◌, Option,
  none, some,
}
use libtnet.Base.Int.{ℤ, pos, negsuc}
use libtnet.Base.Outcome.{ret}
use libtnet.Acceptor.{Acceptor, watch, listened, listen, start}
use libtnet.SockUtil.{bind_and_listen}

-- What `listen` is given: a descriptor, or nothing for a number below 0.
abbrev pub as_fd : ℤ → Option ℕ
as_fd (pos n) = some n
as_fd (negsuc n) = none

-- `listen`, with what `socket`, `bind` and `listen` of the system answer.
abbrev pub listen_on : ℤ → Option ℕ → Option ℕ → Acceptor → Acceptor × Option ℕ
listen_on socket bind_error listen_error s =
    listen (as_fd (bind_and_listen socket bind_error listen_error).0) s

-- The number of the error is what `bindAndListen` returns.
bound_error :
    (fd e : ℕ) (bind_error listen_error : Option ℕ)
    → (bind_error ≡ some (suc e)) ⊎ ((bind_error ≡ none) × (listen_error ≡ some (suc e)))
    → (bind_and_listen (pos fd) bind_error listen_error).0 ≡ pos (suc e)
unfolding bind_and_listen
bound_error fd e bind_error listen_error (inl bound) = rw bound refl
bound_error fd e bind_error listen_error (inr (bound, listened_to)) = rw (bound, listened_to) refl

started :
    (n : ℕ) (s : Acceptor)
    → s.running ≡ false
    → start (listen (some (suc n)) s).0
      ≡ ret (record s {
        sock_fd = suc n;
        running = true;
        log = (s.log ++ listened (some (suc n)) ∷ []) ++ watch (suc n) ∷ [];
      })
unfolding listen start
started n s idle = rw (lt→ltb 0 (suc n) (omega arith), idle) refl

-- When the address cannot be bound, or the socket cannot listen, `listen` takes the number of the
-- error, which is not 0, for its socket and returns it as if it had succeeded, and `start` makes the
-- loop watch the descriptor of that number.
pub start-listen_on :
    (fd e : ℕ) (bind_error listen_error : Option ℕ) (s : Acceptor)
    → s.running ≡ false
    → (bind_error ≡ some (suc e)) ⊎ ((bind_error ≡ none) × (listen_error ≡ some (suc e)))
    → ((listen_on (pos fd) bind_error listen_error s).1 ≡ some (suc e))
      × (start (listen_on (pos fd) bind_error listen_error s).0
          ≡ ret (record s {
            sock_fd = suc e;
            running = true;
            log = (s.log ++ listened (some (suc e)) ∷ []) ++ watch (suc e) ∷ [];
          }))
unfolding listen
start-listen_on fd e bind_error listen_error s idle fails =
    let error = bound_error fd e bind_error listen_error fails in
    (
      ap (λ z. (listen (as_fd z) s).1) error,
      ap (λ z. start (listen (as_fd z) s).0) error ∙ started e s idle,
    )
