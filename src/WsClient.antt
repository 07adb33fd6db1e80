-- ===== src/WsClient.antt =====
-- http/wsclient.h and http/wsclient.cpp: the client of WebSockets. A connector is a number; `pending`
-- is what is to be sent when its connection is there, and `waiting` says whose answer it waits for.
-- A callback of the program is a number too. What is asked of others is `log`, in order.
pub mod Examples
use libtnet.Base.{
  ℕ, suc, ◌+◌, Bool, true, false, not, List, [], ◌∷◌, ◌++◌, Option, none, some, ◌==◌, if◌then◌else◌,
}
use libtnet.Base.Bytes.{Bytes}
use libtnet.Base.Multimap.{Multimap}
use libtnet.Base.Outcome.{Outcome, ret, ◌>>=◌}
use libtnet.HttpConnector.{ResponseEvent}
use libtnet.HttpRequest as Request
use libtnet.HttpRequest.{HttpRequest, UrlParts, parse_url, dump}
use libtnet.HttpResponse.{HttpResponse}
use libtnet.WsUtil.{build_request}

pub data Asked : Type 0 where
  -- `connect` of a connector, to an address and a port
  connecting : ℕ → ℕ → ℕ → Asked
  sent : ℕ → Bytes → Asked
  -- `WsConnection::onError` and `onOpen` of a new one with the callback, and `setEventCallback`
  ws_failed : ℕ → Asked
  ws_opened : ℕ → HttpResponse → Asked
  ws_takes_over : ℕ → Asked

pub record WsClient : Type 0 where
  pub next_conn : ℕ
  pub pending : ℕ → Option (Bytes × ℕ)
  pub waiting : ℕ → Option ℕ
  pub log : List Asked

pub make : WsClient
make = record { next_conn = 0; pending = λ conn. none; waiting = λ conn. none; log = [] }

abbrev pub ask : Asked → WsClient → WsClient
ask a c = record c { log = c.log ++ a ∷ [] }

abbrev pub put {ℓ} : {A : Type ℓ} → ℕ → A → (ℕ → A) → ℕ → A
put conn v f i = if i == conn then v else f i

-- What becomes of the event is not asked; `open_conn` is whether the `Connection` is alive.
pub on_response : Bool → ℕ → HttpResponse → ResponseEvent → ℕ → WsClient → WsClient
on_response open_conn conn resp event callback c =
    if not open_conn
    then c
    else if not (resp.status_code == 101)
    then ask (ws_failed callback) c
    else ask (ws_takes_over conn) (ask (ws_opened callback resp) c)

pub on_connect : ℕ → Bool → Bytes → ℕ → WsClient → WsClient
on_connect conn connected data_sent callback c =
    let waits = record c { waiting = put conn (some callback) c.waiting } in
    if not connected then c else ask (sent conn data_sent) waits

module _ (http_method_str : ℕ → Bytes) (http_parser_parse_url : Bytes → Option UrlParts)
    (address : Bytes → ℕ) (base64_encode : Bytes → Bytes) (random_bytes : Bytes) where
  pub connect : HttpRequest → ℕ → WsClient → Outcome WsClient
  connect r callback c = do
    built ← build_request base64_encode random_bytes http_parser_parse_url r
    parsed ← parse_url http_parser_parse_url built
    text ← dump http_method_str http_parser_parse_url parsed
    let made = record c {
      next_conn = suc c.next_conn;
      pending = put c.next_conn (some (text.1, callback)) c.pending;
    }
    ret (ask (connecting c.next_conn (address parsed.host) parsed.port) made)

  -- The overloads that the program calls; `port` is what the constructor of the request leaves.
  pub connect_url : ℕ → Bytes → ℕ → WsClient → Outcome WsClient
  unfolding connect
  connect_url port url callback = connect (record (Request.make port) { url = url }) callback

  pub connect_headers : ℕ → Bytes → Multimap → ℕ → WsClient → Outcome WsClient
  unfolding connect
  connect_headers port url headers callback =
      connect (record (Request.make port) { url = url; headers = headers }) callback
