-- ===== src/Redis/Trans.antt =====
-- redis/redistrans.cpp: a transaction, which counts the replies that it waits for. The commands that
-- it sends, and the functions of the program that it calls, are lists, the first first.
use libtnet.Base.{
  ℕ, suc, zero, ◌+◌, ◌≡◌, refl, sym, ap, ◌∙◌, Bool, true, false, List, [], ◌∷◌, ◌++◌, append-nil,
  append_assoc, ap₂, ltb, if◌then◌else◌, arith, length,
}
use libtnet.Base.Bytes.{Bytes, codes}
use libtnet.Base.Int.{ℤ, pos}
use libtnet.Base.Outcome.{Outcome, ret, fault, assertion_failed, ◌>>=◌}
use libtnet.Redis.Conn.{RedisReply}

-- `m_callback`: it does nothing, or waits for the last reply to `EXEC` or `DISCARD`.
pub data Waiting : Type 0 where
  dummy on_commit on_cancel : Waiting

-- `m_transNum` is never below 0 where the code goes on. `m_inTrans` is not set at first, nor read.
pub record RedisTrans : Type 0 where
  pub conn_alive : Bool
  pub trans_num : ℕ
  pub in_trans : Bool
  pub callback : Waiting
  pub commands : List (List Bytes)
  pub answers : List (Waiting × RedisReply)

abbrev pub is_zero : ℕ → Bool
is_zero zero = true
is_zero (suc n) = false

unfoldable pub make : RedisTrans
make = record {
  conn_alive = true;
  trans_num = 0;
  in_trans = false;
  callback = dummy;
  commands = [];
  answers = [];
}

pub request : List Bytes → RedisTrans → RedisTrans
request cmd t =
    if t.conn_alive
    then record t { trans_num = suc t.trans_num; commands = t.commands ++ cmd ∷ [] }
    else t

pub begin : RedisTrans → RedisTrans
unfolding request
begin t =
    if ltb 0 t.trans_num then t else request (codes "MULTI" ∷ []) (record t { in_trans = true })

pub exec : List Bytes → RedisTrans → RedisTrans
unfolding begin request
exec cmd t = request cmd (if is_zero t.trans_num then begin t else t)

-- `commit` and `cancel`, by the command and by the function that waits for its reply.
abbrev pub end_with : Bytes → Waiting → RedisTrans → RedisTrans
end_with word callback t =
    if is_zero t.trans_num then t else request (word ∷ []) (record t { callback = callback })

pub commit : RedisTrans → RedisTrans
unfolding request
commit t = end_with (codes "EXEC") on_commit t

pub cancel : RedisTrans → RedisTrans
unfolding request
cancel t = end_with (codes "DISCARD") on_cancel t

-- `m_callback(reply)`
pub answer : RedisReply → RedisTrans → RedisTrans
answer reply t = elim t.callback [
  | dummy ↦ t
  | on_commit ↦
      if is_zero t.trans_num
      then record t { callback = dummy; answers = t.answers ++ (on_commit, reply) ∷ [] }
      else t
  | on_cancel ↦
      if is_zero t.trans_num
      then record t { callback = dummy; answers = t.answers ++ (on_cancel, reply) ∷ [] }
      else t
]

pub on_reply : RedisReply → RedisTrans → Outcome RedisTrans
unfolding answer
on_reply reply t = elim t.trans_num [
  | zero ↦ fault assertion_failed
  | suc n ↦ ret (answer reply (record t { trans_num = n }))
]

-- `onConnect`, with the status that the connection gives: whether `onReply` becomes the function for
-- replies, and the status that the program's function is told.
pub on_connect : ℤ → Bool × ℤ
on_connect (pos zero) = (true, pos 0)
on_connect status = (false, status)

abbrev pub on_replies : List RedisReply → RedisTrans → Outcome RedisTrans
on_replies [] t = ret t
on_replies (r ∷ rs) t = do t' ← on_reply r t; on_replies rs t'

-- A transaction under way.
abbrev at : ℕ → Waiting → List (List Bytes) → List (Waiting × RedisReply) → RedisTrans
at n callback commands answers = record {
  conn_alive = true;
  trans_num = n;
  in_trans = true;
  callback = callback;
  commands = commands;
  answers = answers;
}

-- What happens between the first command and `commit`.
pub data Between : Type 0 where
  sends : List Bytes → Between
  answered : RedisReply → Between

pub run_between : List Between → RedisTrans → Outcome RedisTrans
unfolding exec on_reply
run_between [] t = ret t
run_between (sends cmd ∷ us) t = run_between us (exec cmd t)
run_between (answered r ∷ us) t = do t' ← on_reply r t; run_between us t'

-- The commands among them.
abbrev pub sent_by : List Between → List (List Bytes)
sent_by [] = []
sent_by (sends cmd ∷ us) = cmd ∷ sent_by us
sent_by (answered r ∷ us) = sent_by us

-- From `n` replies that are awaited, `m` are awaited at the end, and at least one always.
unfoldable pub Awaits : ℕ → List Between → ℕ → Type 0
Awaits n [] m = n ≡ m
Awaits n (sends cmd ∷ us) m = Awaits (suc n) us m
Awaits zero (answered r ∷ us) m = ⊥
Awaits (suc zero) (answered r ∷ us) m = ⊥
Awaits (suc (suc n)) (answered r ∷ us) m = Awaits (suc n) us m

run_between-at :
    (us : List Between) (n m : ℕ) (cs : List (List Bytes))
    → Awaits (suc n) us m
    → run_between us (at (suc n) dummy cs []) ≡ ret (at m dummy (cs ++ sent_by us) [])
unfolding run_between exec request on_reply answer Awaits
run_between-at [] n m cs e = ap₂ (λ k l. ret (at k dummy l [])) e (sym (append-nil cs))
run_between-at (sends cmd ∷ us) n m cs e =
    run_between-at us (suc n) m (cs ++ cmd ∷ []) e
    ∙ ap (λ l. ret (at m dummy l [])) (append_assoc cs (cmd ∷ []) (sent_by us))
run_between-at (answered r ∷ us) zero m cs e = absurd e
run_between-at (answered r ∷ us) (suc n) m cs e = run_between-at us n m cs e

-- The replies before the last.
on_replies_wait :
    (rs : List RedisReply) (n : ℕ) (cs : List (List Bytes))
    → n ≡ length rs + 1
    → on_replies rs (at n on_commit cs []) ≡ ret (at 1 on_commit cs [])
unfolding on_reply answer
on_replies_wait [] n cs e = ap (λ k. ret (at k on_commit cs [])) e
on_replies_wait (r ∷ rs) zero cs e = absurd (omega arith)
on_replies_wait (r ∷ rs) (suc zero) cs e = absurd (omega arith)
on_replies_wait (r ∷ rs) (suc (suc n)) cs e = on_replies_wait rs (suc n) cs (omega arith)

on_replies-append :
    (rs ss : List RedisReply) (t : RedisTrans)
    → on_replies (rs ++ ss) t ≡ (on_replies rs t >>= on_replies ss)
on_replies-append [] ss t = refl
on_replies-append (r ∷ rs) ss t =
    elim (on_reply r t)
      as (λ o. (o >>= on_replies (rs ++ ss)) ≡ ((o >>= on_replies rs) >>= on_replies ss)) [
        | ret u ↦ on_replies-append rs ss u
        | fault e ↦ refl
      ]

-- A transaction that is begun by a command on an open connection, and committed: what comes between,
-- commands and replies in any order, leaves `m + 1` replies awaited, and one always is, so that `MULTI`
-- goes out once. The commands go out between `MULTI` and `EXEC`, in order. The replies to all but
-- `EXEC` call nothing, the one to `EXEC` is given to the program, once, and one reply more fails the
-- assertion.
pub commit_answers :
    (cmd : List Bytes) (us : List Between) (m : ℕ) (rs : List RedisReply) (r extra : RedisReply)
    → Awaits 2 us (suc m)
    → length rs ≡ suc m
    → (t : RedisTrans) × (run_between (sends cmd ∷ us) make ≡ ret t)
      × ((commit t).commands
          ≡ ((codes "MULTI" ∷ []) ∷ cmd ∷ sent_by us) ++ (codes "EXEC" ∷ []) ∷ [])
      × ((waiting : RedisTrans) × (on_replies rs (commit t) ≡ ret waiting) × (waiting.answers ≡ []))
      × ((done : RedisTrans) × (on_replies (rs ++ r ∷ []) (commit t) ≡ ret done)
          × (done.answers ≡ (on_commit, r) ∷ []))
      × (on_replies (rs ++ r ∷ extra ∷ []) (commit t) ≡ fault assertion_failed)
unfolding run_between commit exec begin request make on_reply answer
commit_answers cmd us m rs r extra awaited count =
    let first = (codes "MULTI" ∷ []) ∷ cmd ∷ [] in
    let sent = (first ++ sent_by us) ++ (codes "EXEC" ∷ []) ∷ [] in
    let waited = on_replies_wait rs (suc (suc m)) sent (omega arith) in
    let begun = at (suc (suc m)) on_commit sent [] in
    (
      at (suc m) dummy (first ++ sent_by us) [],
      run_between-at us 1 (suc m) first awaited,
      refl,
      (at 1 on_commit sent [], waited, refl),
      (
        record (at 0 dummy sent []) { answers = (on_commit, r) ∷ [] },
        on_replies-append rs (r ∷ []) begun ∙ ap (λ o. o >>= on_replies (r ∷ [])) waited,
        refl,
      ),
      on_replies-append rs (r ∷ extra ∷ []) begun
          ∙ ap (λ o. o >>= on_replies (r ∷ extra ∷ [])) waited,
    )
