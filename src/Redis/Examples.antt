-- ===== src/Redis/Examples.antt =====
-- A request to redis, a transaction, and a client that is full.
use libtnet.Base.{ℕ, ◌+◌, ◌≤◌, ◌≡◌, refl, true, List, [], ◌∷◌, ◌++◌, some, length, arith, Bool}
use libtnet.Base.Bytes.{Bytes, codes}
use libtnet.Base.Outcome.{ret, fault, assertion_failed}
use libtnet.Redis.Conn.{reply_error}
use libtnet.Redis.Pool.{Use, run, pushes, replies, starts_trans, pushes_of}
use libtnet.Redis.Pool
use libtnet.Redis.Request.{read_request, build_request}
use libtnet.Redis.Request
use libtnet.Redis.Trans.{
  RedisTrans, make, commit, Between, sends, answered, sent_by, run_between, Awaits, on_replies,
  on_commit,
}
use libtnet.Redis.Trans

read_request-build_request_example :
    read_request (build_request (codes "SET" ∷ codes "k" ∷ [] ∷ []) ++ codes "*1")
    ≡ some (codes "SET" ∷ codes "k" ∷ [] ∷ [], codes "*1")
read_request-build_request_example =
    Request.read_request-build_request (codes "SET" ∷ codes "k" ∷ [] ∷ []) (codes "*1")

abbrev get : List Bytes
get = codes "GET" ∷ codes "k" ∷ []

-- A second command; the replies to `MULTI` and to the first command come before `commit`.
abbrev early_replies : List Between
early_replies = answered (reply_error 1) ∷ sends get ∷ answered (reply_error 2) ∷ []

early_replies-Awaits : Awaits 2 early_replies 1
unfolding Awaits
early_replies-Awaits = refl

commit_answers_example :
    (t : RedisTrans) × (run_between (sends get ∷ early_replies) make ≡ ret t)
    × ((commit t).commands
        ≡ ((codes "MULTI" ∷ []) ∷ get ∷ sent_by early_replies) ++ (codes "EXEC" ∷ []) ∷ [])
    × ((waiting : RedisTrans) × (on_replies (reply_error 3 ∷ []) (commit t) ≡ ret waiting)
        × (waiting.answers ≡ []))
    × ((done : RedisTrans) × (on_replies (reply_error 3 ∷ [] ++ reply_error 4 ∷ []) (commit t)
          ≡ ret done)
        × (done.answers ≡ (on_commit, reply_error 4) ∷ []))
    × (on_replies (reply_error 3 ∷ [] ++ reply_error 4 ∷ reply_error 5 ∷ []) (commit t)
        ≡ fault assertion_failed)
commit_answers_example =
    Trans.commit_answers get early_replies 0 (reply_error 3 ∷ []) (reply_error 4) (reply_error 5)
      early_replies-Awaits (omega arith)

abbrev alive : ℕ → Bool
alive conn = true

run-conns_bound_example :
    (length (run alive (replies 4 ∷ starts_trans ∷ pushes (some 5) ∷ []) (Pool.make 1)).conns
      ≤ 1 + 1)
    × (length (run alive (pushes_of alive (1 + 1)) (Pool.make 1)).conns ≡ 1 + 1)
run-conns_bound_example =
    Pool.run-conns_bound alive 1 (replies 4 ∷ starts_trans ∷ pushes (some 5) ∷ [])
