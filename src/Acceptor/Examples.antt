-- ===== src/Acceptor/Examples.antt =====
-- A connection that is taken, and one that is refused when there are too many descriptors.
use libtnet.Base.{true, inl, ℕ, ◌+◌, ◌≡◌, refl, List, [], ◌∷◌, ◌++◌, Option, some, none, arith}
use libtnet.Acceptor.{Accepted, got_fd, too_many, failed, make, start, listened, watch}
use libtnet.Acceptor.Descriptors.{obtained, disposed, is_fd, accept_all}
use libtnet.Acceptor.Descriptors
use libtnet.Acceptor.Listening.{listen_on}
use libtnet.Acceptor.Listening
use libtnet.Base.Int.{pos}
use libtnet.Base.Outcome.{ret}

abbrev answers : List (Accepted × (Option ℕ × Option ℕ))
answers =
    (got_fd 7, (none, none))
    ∷ (too_many, (some 5, some 5))
    ∷ (failed, (none, none))
    ∷ (too_many, (none, none))
    ∷ []

accept_all-accounts_example :
    obtained 5 (accept_all answers (make (some 5))).log
    ≡ disposed 5 (accept_all answers (make (some 5))).log
      + is_fd 5 (accept_all answers (make (some 5))).dummy_fd
accept_all-accounts_example = Descriptors.accept_all-accounts 5 (some 5) answers (omega arith)

three_times : obtained 5 (accept_all answers (make (some 5))).log ≡ 3
unfolding accept_all make
three_times = refl

-- `EADDRINUSE` is 98.
start-listen_on_example :
    ((listen_on (pos 4) (some 98) none (make (some 5))).1 ≡ some 98)
    × (start (listen_on (pos 4) (some 98) none (make (some 5))).0
        ≡ ret (record (make (some 5)) {
          sock_fd = 98;
          running = true;
          log = ((make (some 5)).log ++ listened (some 98) ∷ []) ++ watch 98 ∷ [];
        }))
unfolding make
start-listen_on_example =
    Listening.start-listen_on 4 97 (some 98) none (make (some 5)) refl (inl refl)
