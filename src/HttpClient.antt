-- ===== src/HttpClient.antt =====
-- http/httpclient.h and http/httpclient.cpp: the client and the connectors that it keeps. A connector
-- is a number. `callbacks` says whose response it waits for, `none` for nobody's, and `pending` what
-- is to be sent when its connection is there. What is asked of connectors and of the program is
-- `log`, in order. The limit is not negative.
pub mod Examples
pub mod Kept
pub mod Counted
pub mod Places
use libtnet.Base.{
  ℕ, zero, suc, ◌+◌, Bool, true, false, List, [], ◌∷◌, ◌++◌, Option, none, some, ltb, leb, ◌==◌,
  not, if◌then◌else◌, length,
}
use libtnet.Base.Bytes.{Bytes}
use libtnet.Base.Multimap.{Multimap}
use libtnet.Base.Outcome.{Outcome, ret, fault, ◌>>=◌, unfinished}
use libtnet.HttpConnector.{ResponseEvent, response_complete, response_error}
use libtnet.HttpRequest as Request
use libtnet.HttpRequest.{HttpRequest, UrlParts, parse_url, dump}
use libtnet.HttpResponse.{HttpResponse}

-- `IpConn_t`: the connectors by the address of their peer, in the order of addresses.
abbrev pub IpConn : Type 0
IpConn = List (ℕ × ℕ)

-- What is asked of connectors, and the calls of the program's functions, which are numbers.
pub data Asked : Type 0 where
  shut_down : ℕ → Asked
  sent : ℕ → Bytes → Asked
  -- `connect`, to an address and a port, on a device
  connecting : ℕ → ℕ → ℕ → Bytes → Asked
  called : ℕ → HttpResponse → Asked

pub record HttpClient : Type 0 where
  pub max_clients : ℕ
  pub conns : IpConn
  pub device : Bytes
  pub callbacks : ℕ → Option ℕ
  pub pending : ℕ → Option (Bytes × ℕ)
  -- the number of the next connector that is made
  pub next_conn : ℕ
  pub log : List Asked

pub make : ℕ → HttpClient
make max_clients = record {
  max_clients = max_clients;
  conns = [];
  device = [];
  callbacks = λ conn. none;
  pending = λ conn. none;
  next_conn = 0;
  log = [];
}

abbrev pub ask : Asked → HttpClient → HttpClient
ask a c = record c { log = c.log ++ a ∷ [] }

abbrev pub put {ℓ} : {A : Type ℓ} → ℕ → A → (ℕ → A) → ℕ → A
put conn v f i = if i == conn then v else f i

abbrev pub set_callback : ℕ → Option ℕ → HttpClient → HttpClient
set_callback conn name c = record c { callbacks = put conn name c.callbacks }

abbrev pub set_pending : ℕ → Option (Bytes × ℕ) → HttpClient → HttpClient
set_pending conn data_sent c = record c { pending = put conn data_sent c.pending }

-- `std::multimap`: behind the entries that are not greater; the first with the key; and that one out.
pub insert : ℕ → ℕ → IpConn → IpConn
insert ip conn [] = (ip, conn) ∷ []
insert ip conn ((k, v) ∷ m) =
    let later = (k, v) ∷ insert ip conn m in if ltb ip k then (ip, conn) ∷ (k, v) ∷ m else later

pub find : ℕ → IpConn → Option ℕ
find ip [] = none
find ip ((k, v) ∷ m) = let later = find ip m in if k == ip then some v else later

pub erase : ℕ → IpConn → IpConn
erase ip [] = []
erase ip ((k, v) ∷ m) = let later = (k, v) ∷ erase ip m in if k == ip then m else later

-- `pushConn`; `open` is whether its `Connection` is alive, and `remote` the address of the peer, if
-- `getRemoteAddr` finds it.
pub push_conn : Bool → Option ℕ → ℕ → HttpClient → HttpClient
unfolding insert
push_conn open_conn remote conn c =
    let cleared = set_callback conn none c in
    let dropped = ask (shut_down conn) cleared in
    if not open_conn
    then cleared
    else if leb c.max_clients (length c.conns)
    then dropped
    else elim remote [
      | none ↦ dropped
      | some ip ↦ record cleared { conns = insert ip conn c.conns }
    ]

-- The loop of `popConn`; `alive` says of which the `HttpConnector` and the `Connection` exist.
pub pop_rounds : (ℕ → Bool) → ℕ → ℕ → IpConn → Outcome (IpConn × Option ℕ)
unfolding find erase
pop_rounds alive ip zero conns = fault unfinished
pop_rounds alive ip (suc n) conns =
    let rest = erase ip conns in
    let more = pop_rounds alive ip n rest in
    elim (find ip conns) [
      | none ↦ ret (conns, none)
      | some conn ↦ if alive conn then ret (rest, some conn) else more
    ]

-- Each round takes one out.
pub pop_conn : (ℕ → Bool) → ℕ → HttpClient → Outcome (HttpClient × Option ℕ)
unfolding pop_rounds
pop_conn alive ip c = do
  r ← pop_rounds alive ip (suc (length c.conns)) c.conns
  ret (record c { conns = r.0 }, r.1)

pub on_response : Bool → Option ℕ → ℕ → HttpResponse → ResponseEvent → ℕ → HttpClient → HttpClient
unfolding push_conn
on_response open_conn remote conn resp response_complete name c =
    ask (called name resp) (push_conn open_conn remote conn c)
on_response open_conn remote conn resp response_error name c = ask (called name resp) c

-- `onConnect`, with what was bound to it.
pub on_connect : ℕ → Bool → Bytes → ℕ → HttpClient → HttpClient
on_connect conn true data_sent name c = ask (sent conn data_sent) (set_callback conn (some name) c)
on_connect conn false data_sent name c = c

-- The two ways of `request`, when it knows what to send.
pub send_request : ℕ → ℕ → Bytes → ℕ → HttpClient × Option ℕ → HttpClient
send_request ip port data_sent name (c, some conn) =
    ask (sent conn data_sent) (set_callback conn (some name) c)
send_request ip port data_sent name (c, none) =
    set_pending c.next_conn (some (data_sent, name))
      (ask (connecting c.next_conn ip port c.device) (record c { next_conn = suc c.next_conn }))

-- What happens to a client: a request, the result of a connection, and a response of a connector.
pub data Use : Type 0 where
  requests : (ℕ → Bool) → HttpRequest → ℕ → Use
  connects : ℕ → Bool → Use
  responds : Bool → Option ℕ → ℕ → HttpResponse → ResponseEvent → Use

module _ (http_method_str : ℕ → Bytes) (http_parser_parse_url : Bytes → Option UrlParts)
    (address : Bytes → ℕ) where
  pub request : (ℕ → Bool) → HttpRequest → ℕ → HttpClient → Outcome HttpClient
  unfolding pop_conn send_request
  request alive r name c = do
    parsed ← parse_url http_parser_parse_url r
    popped ← pop_conn alive (address parsed.host) c
    text ← dump http_method_str http_parser_parse_url parsed
    ret (send_request (address parsed.host) parsed.port text.1 name popped)

  -- The overloads that the program calls; `port` is what the constructor of the request leaves.
  pub request_url : ℕ → (ℕ → Bool) → Bytes → ℕ → ℕ → HttpClient → Outcome HttpClient
  unfolding request
  request_url port alive url name method =
      request alive (record (Request.make port) { url = url; method = method }) name

  pub request_headers : ℕ → (ℕ → Bool) → Bytes → Multimap → ℕ → ℕ → HttpClient → Outcome HttpClient
  unfolding request
  request_headers port alive url headers name method =
      request alive (record (Request.make port) { url = url; headers = headers; method = method })
        name

  pub request_body :
      ℕ → (ℕ → Bool) → Bytes → Multimap → Bytes → ℕ → ℕ → HttpClient → Outcome HttpClient
  unfolding request
  request_body port alive url headers text name method =
      request alive
        (record (Request.make port) { url = url; headers = headers; method = method; body = text })
        name

  -- A connector calls what is bound to it, and a connection that is there is told of once.
  pub step : Use → HttpClient → Outcome HttpClient
  unfolding request on_connect on_response
  step (requests alive r name) c = request alive r name c
  step (connects conn connected) c = elim (c.pending conn) [
    | none ↦ ret c
    | some (data_sent, name) ↦
        let kept = if connected then set_pending conn none c else c in
        ret (on_connect conn connected data_sent name kept)
  ]
  step (responds open_conn remote conn resp event) c = elim (c.callbacks conn) [
    | none ↦ ret c
    | some name ↦ ret (on_response open_conn remote conn resp event name c)
  ]

  pub run : List Use → HttpClient → Outcome HttpClient
  unfolding step
  run [] c = ret c
  run (u ∷ us) c = do d ← step u c; run us d

-- The destructor.
pub shut_down_all : (ℕ → Bool) → IpConn → HttpClient → HttpClient
shut_down_all alive [] c = c
shut_down_all alive ((ip, conn) ∷ conns) c =
    shut_down_all alive conns (if alive conn then ask (shut_down conn) c else c)

pub destroy : (ℕ → Bool) → HttpClient → HttpClient
unfolding shut_down_all
destroy alive c = record (shut_down_all alive c.conns c) { conns = [] }

pub bind_device : Bytes → HttpClient → HttpClient
bind_device device c = record c { device = device }
