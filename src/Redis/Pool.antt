-- ===== src/Redis/Pool.antt =====
-- redis/redisclient.cpp: the connections that are kept for later. A connection is a number, and
-- `alive` says which of them still exist. The last of `m_conns` comes first in `conns`. What is asked
-- of connections is `log`, in order.
use libtnet.Base.{
  ℕ, suc, zero, ◌+◌, ◌≤◌, ◌≡◌, refl, Bool, List, [], ◌∷◌, ◌++◌, Option, none, some, ltb, ltb→le,
  ltb→lt, if◌then◌else◌, on_branches, arith, length,
}
use mathlib.Core.List.{reverse}
use libtnet.Base.Bytes.{Bytes}

-- What is set as the function for replies: none, a transaction, or one call of `exec`.
pub data Handler : Type 0 where
  dummy for_trans for_exec : Handler

pub data Asked : Type 0 where
  callback_set : ℕ → Handler → Asked
  executed : ℕ → List Bytes → Asked
  shut_down : ℕ → Asked
  -- `connect`, with what waits for the connection
  connecting : ℕ → Handler → Asked
  -- the program's function for a transaction, with its status
  trans_called : ℕ → Asked
  -- the program's function for a reply
  reply_called : Asked

pub record RedisClient : Type 0 where
  pub max_clients : ℕ
  pub conns : List ℕ
  -- the number of the next connection that is made
  pub next_conn : ℕ
  pub log : List Asked

pub make : ℕ → RedisClient
make max_clients = record { max_clients = max_clients; conns = []; next_conn = 0; log = [] }

abbrev pub ask : Asked → RedisClient → RedisClient
ask a c = record c { log = c.log ++ a ∷ [] }

pub push_conn : Option ℕ → RedisClient → RedisClient
push_conn none c = c
push_conn (some conn) c =
    let cleared = ask (callback_set conn dummy) c in
    if ltb c.max_clients (length c.conns)
    then ask (shut_down conn) cleared
    else record cleared { conns = conn ∷ c.conns }

-- The destructor of a transaction: `client_alive` is whether its client exists, and `conn` its
-- connection, if that does.
pub end_trans : Bool → Option ℕ → RedisClient → RedisClient
unfolding push_conn
end_trans client_alive conn c = if client_alive then push_conn conn c else c

module _ (alive : ℕ → Bool) where
  pub shut_down_all : List ℕ → RedisClient → RedisClient
  shut_down_all [] c = c
  shut_down_all (conn ∷ conns) c =
      shut_down_all conns (if alive conn then ask (shut_down conn) c else c)

  -- The destructor, which starts with the first of `m_conns`.
  pub destroy : RedisClient → RedisClient
  unfolding shut_down_all
  destroy c = shut_down_all (reverse c.conns) c

  -- The loop of `popConn`: the first that is alive, and those behind it.
  pub pop_loop : List ℕ → List ℕ × Option ℕ
  pop_loop [] = ([], none)
  pop_loop (conn ∷ conns) =
      let rest = pop_loop conns in if alive conn then (conns, some conn) else rest

  pub pop_conn : RedisClient → RedisClient × Option ℕ
  unfolding pop_loop
  pop_conn c = (record c { conns = (pop_loop c.conns).0 }, (pop_loop c.conns).1)

  pub on_reply : ℕ → RedisClient → RedisClient
  unfolding push_conn
  on_reply conn c = ask reply_called (push_conn (some conn) c)

  pub new_trans : RedisClient → RedisClient
  unfolding pop_conn
  new_trans c =
      let (popped, found) = pop_conn c in
      elim found [
        | some conn ↦ ask (trans_called conn) (ask (callback_set conn for_trans) popped)
        | none ↦
            ask (connecting popped.next_conn for_trans)
              (record popped { next_conn = suc popped.next_conn })
      ]

  pub exec : List Bytes → RedisClient → RedisClient
  unfolding pop_conn
  exec cmd c =
      let (popped, found) = pop_conn c in
      elim found [
        | some conn ↦ ask (executed conn cmd) (ask (callback_set conn for_exec) popped)
        | none ↦ ask (connecting popped.next_conn for_exec) (
            ask (callback_set popped.next_conn for_exec)
              (record popped { next_conn = suc popped.next_conn }))
      ]

  -- `onConnect`, with the status of a connection that was made for `cmd`.
  pub on_connect : ℕ → Bool → List Bytes → RedisClient → RedisClient
  on_connect conn connected cmd c = if connected then ask (executed conn cmd) c else c

  -- All that uses the connections that are kept.
  pub data Use : Type 0 where
    pushes : Option ℕ → Use
    replies : ℕ → Use
    starts_trans : Use
    executes : List Bytes → Use
    connects : ℕ → Bool → List Bytes → Use

  pub step : Use → RedisClient → RedisClient
  unfolding push_conn on_reply new_trans exec on_connect
  step (pushes conn) c = push_conn conn c
  step (replies conn) c = on_reply conn c
  step starts_trans c = new_trans c
  step (executes cmd) c = exec cmd c
  step (connects conn connected cmd) c = on_connect conn connected cmd c

  pub run : List Use → RedisClient → RedisClient
  unfolding step
  run [] c = c
  run (u ∷ us) c = run us (step u c)

  pop_loop-length : (conns : List ℕ) → length (pop_loop conns).0 ≤ length conns
  unfolding pop_loop
  pop_loop-length [] = omega arith
  pop_loop-length (conn ∷ conns) =
      on_branches (λ (r : List ℕ × Option ℕ). length r.0 ≤ suc (length conns)) (alive conn)
        (λ b. omega arith) (λ b. let shorter = pop_loop-length conns in omega arith)

  abbrev Fits : ℕ → RedisClient → Type 0
  Fits n c = (c.max_clients ≡ n) × (length c.conns ≤ n + 1)

  push_conn-Fits :
      (n : ℕ) (conn : Option ℕ) (c : RedisClient) → Fits n c → Fits n (push_conn conn c)
  unfolding push_conn
  push_conn-Fits n none c fits = fits
  push_conn-Fits n (some conn) c (most, short) =
      on_branches (Fits n) (ltb c.max_clients (length c.conns)) (λ b. (most, short))
        (λ b. let room = ltb→le _ _ b in (most, omega arith))

  new_trans-Fits : (n : ℕ) (c : RedisClient) → Fits n c → Fits n (new_trans c)
  unfolding new_trans pop_conn
  new_trans-Fits n c (most, short) =
      let shorter = pop_loop-length c.conns in
      elim (pop_loop c.conns).1
        as (λ o. Fits n (elim o as (λ _. RedisClient) [
          | some conn ↦ ask (trans_called conn) (ask (callback_set conn for_trans) (pop_conn c).0)
          | none ↦
              ask (connecting c.next_conn for_trans)
                (record (pop_conn c).0 { next_conn = suc c.next_conn })
        ])) [ some conn ↦ (most, omega arith) | none ↦ (most, omega arith) ]

  exec-Fits : (n : ℕ) (cmd : List Bytes) (c : RedisClient) → Fits n c → Fits n (exec cmd c)
  unfolding exec pop_conn
  exec-Fits n cmd c (most, short) =
      let shorter = pop_loop-length c.conns in
      elim (pop_loop c.conns).1
        as (λ o. Fits n (elim o as (λ _. RedisClient) [
          | some conn ↦ ask (executed conn cmd) (ask (callback_set conn for_exec) (pop_conn c).0)
          | none ↦ ask (connecting c.next_conn for_exec) (
              ask (callback_set c.next_conn for_exec)
                (record (pop_conn c).0 { next_conn = suc c.next_conn }))
        ])) [ some conn ↦ (most, omega arith) | none ↦ (most, omega arith) ]

  step-Fits : (n : ℕ) (u : Use) (c : RedisClient) → Fits n c → Fits n (step u c)
  unfolding step on_reply on_connect
  step-Fits n (pushes conn) c fits = push_conn-Fits n conn c fits
  step-Fits n (replies conn) c fits = push_conn-Fits n (some conn) c fits
  step-Fits n starts_trans c fits = new_trans-Fits n c fits
  step-Fits n (executes cmd) c fits = exec-Fits n cmd c fits
  step-Fits n (connects conn connected cmd) c fits =
      on_branches (Fits n) connected (λ b. fits) (λ b. fits)

  run-Fits : (n : ℕ) (us : List Use) (c : RedisClient) → Fits n c → Fits n (run us c)
  unfolding run
  run-Fits n [] c fits = fits
  run-Fits n (u ∷ us) c fits = run-Fits n us (step u c) (step-Fits n u c fits)

  -- So many connections are given back.
  abbrev pub pushes_of : ℕ → List Use
  pushes_of zero = []
  pushes_of (suc n) = pushes (some n) ∷ pushes_of n

  run-pushes :
      (k n : ℕ) (c : RedisClient)
      → c.max_clients ≡ n
      → length c.conns + k ≤ n + 1
      → length (run (pushes_of k) c).conns ≡ length c.conns + k
  unfolding run step push_conn
  run-pushes zero n c most room = omega arith
  run-pushes (suc k) n c most room =
      on_branches (λ d. length (run (pushes_of k) d).conns ≡ length c.conns + suc k)
        (ltb c.max_clients (length c.conns)) (λ b. let full = ltb→lt _ _ b in absurd (omega arith))
        (λ b.
          let rest =
            run-pushes k n
              (record c { conns = k ∷ c.conns; log = c.log ++ callback_set k dummy ∷ [] }) most
              (omega arith) in
          omega arith)

  -- However a client is used, it keeps at most one connection more than its limit, and it does keep
  -- that many, when so many are given back.
  pub run-conns_bound :
      (n : ℕ) (us : List Use)
      → (length (run us (make n)).conns ≤ n + 1)
        × (length (run (pushes_of (n + 1)) (make n)).conns ≡ n + 1)
  unfolding make
  run-conns_bound n us =
      let full = run-pushes (n + 1) n (make n) refl (omega arith) in
      ((run-Fits n us (make n) (refl, omega arith)).1, omega arith)
