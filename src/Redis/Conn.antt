-- ===== src/Redis/Conn.antt =====
-- redis/redisconnection.cpp. The third-party reader of replies is two parameters: `reader_feed` takes
-- bytes, and `get_reply` gives the next reply. The functions that the connection calls are kept by
-- what they are; what is asked of the socket and of the program is `log`, in order.
use libtnet.Base.{
  ℕ, suc, zero, Bool, true, false, not, ◌&&◌, List, [], ◌∷◌, ◌++◌, Option, none, some,
  if◌then◌else◌,
}
use libtnet.Base.Bytes.{Bytes, codes, same}
use libtnet.Base.Int.{ℤ, pos, negsuc}
use libtnet.Base.Outcome.{Outcome, ret, fault, unfinished}
use libtnet.Connector as Connector
use libtnet.Connector.{Connector, Handlers}
use libtnet.HttpRequest.Text.{c_str}
use libtnet.StringUtil.{lower}
use libtnet.Redis.Request.{build_request}

-- `redisReply`, as far as it is read: is it a status, and its text, which a reply to `AUTH` has.
pub record Reply : Type 0 where
  pub is_status : Bool
  pub str : Bytes

-- `RedisReply`: an error of the reader, which is not 0, or a reply.
pub data RedisReply : Type 0 where
  reply_error : ℕ → RedisReply
  replied : Reply → RedisReply

-- What is asked of the `Connection`, of the function that was set, and of the one that waits for
-- the connection.
pub data Asked : Type 0 where
  sent : Bytes → Asked
  shut_down : Asked
  called : RedisReply → Asked
  connect_called : ℤ → Asked

pub record RedisConnection : Type 0 where
  -- is `m_callback` one of the program's, and is `m_authCallback` set?
  pub has_callback : Bool
  pub has_auth_callback : Bool
  pub log : List Asked

pub make : RedisConnection
make = record { has_callback = false; has_auth_callback = false; log = [] }

abbrev pub ask : Asked → RedisConnection → RedisConnection
ask a c = record c { log = c.log ++ a ∷ [] }

pub set_callback : RedisConnection → RedisConnection
set_callback c = record c { has_callback = true }

pub clear_callback : RedisConnection → RedisConnection
clear_callback c = record c { has_callback = false }

pub exec : List Bytes → RedisConnection → RedisConnection
exec cmd c = ask (sent (build_request cmd)) c

pub on_connect : Bool → Bytes → RedisConnection → RedisConnection
on_connect false password c = ask (connect_called (negsuc 0)) c
on_connect true [] c = ask (connect_called (pos 0)) c
on_connect true (p ∷ password) c =
    ask (sent (build_request (codes "AUTH" ∷ (p ∷ password) ∷ [])))
      (record c { has_auth_callback = true })

-- Is the answer to `AUTH` a failure?
abbrev pub auth_fails : RedisReply → Bool
auth_fails (reply_error e) = true
auth_fails (replied r) = not r.is_status && not (same (lower (c_str r.str)) (codes "ok"))

pub on_auth : RedisReply → RedisConnection → RedisConnection
on_auth r c =
    let open_connection = record c { has_auth_callback = false } in
    if auth_fails r
    then ask shut_down (ask (connect_called (negsuc 1)) open_connection)
    else ask (connect_called (pos 0)) open_connection

-- The function that a reply goes to, as `handleRead` has chosen it at its start.
abbrev pub deliver : Bool → RedisReply → RedisConnection → RedisConnection
deliver true r c = on_auth r c
deliver false r c = if c.has_callback then ask (called r) c else c

pub data Next : Type 0 where
  next_reply : Reply → Next
  no_reply : Next
  bad_reply : ℕ → Next

module _ {R : Type 0} (reader_feed : R → Bytes → R × Option ℕ) (get_reply : R → R × Next) where
  pub replies : ℕ → Bool → R → RedisConnection → Outcome (R × RedisConnection)
  replies zero to_auth r c = fault unfinished
  replies (suc fuel) to_auth r c =
      let (r', next) = get_reply r in
      elim next [
        | bad_reply e ↦ ret (r', deliver to_auth (reply_error e) c)
        | no_reply ↦ ret (r', c)
        | next_reply reply ↦ replies fuel to_auth r' (deliver to_auth (replied reply) c)
      ]

  pub handle_read : ℕ → Bytes → R → RedisConnection → Outcome (R × RedisConnection)
  unfolding replies
  handle_read fuel buffer r c =
      let (r', failed) = reader_feed r buffer in
      elim failed [
        | some e ↦ ret (r', deliver c.has_auth_callback (reply_error e) c)
        | none ↦ replies fuel c.has_auth_callback r' c
      ]

-- What the `Connector` calls when it knows whether there is a connection.
pub told : Bytes → Bool → Connector RedisConnection → Outcome (Connector RedisConnection)
unfolding on_connect
told password connected c = ret (record c { derived = on_connect connected password c.derived })

-- `connect`, with the handlers of the connection; the arguments are those of `Connector.connect`.
pub connect :
    Handlers RedisConnection
    → Bytes
    → Bool
    → Bool
    → Connector RedisConnection
    → Outcome (Connector RedisConnection × Bool)
unfolding told
connect handlers password created failed c =
    Connector.connect handlers (told password) created failed [] c
