-- ===== src/HttpClient/Places.antt =====
-- http/httpclient.cpp: where a connector is.
use libtnet.Base.{
  ℕ, ◌≤◌, ◌<◌, ◌≡◌, refl, Bool, true, false, not, List, [], ◌∷◌, Option, none, some, leb,
  if◌then◌else◌, on_branches, on_option, arith, length,
}
use libtnet.Base.Bytes.{Bytes}
use libtnet.Base.Outcome.{ret, Always, Always->>=, Always->>=_any, Always_eq}
use libtnet.HttpConnector.{ResponseEvent, response_complete, response_error}
use libtnet.HttpRequest.{HttpRequest, UrlParts, parse_url, dump}
use libtnet.HttpResponse.{HttpResponse}
use libtnet.HttpClient.{
  HttpClient, IpConn, Asked, shut_down, called, Use, requests, connects, responds, make, ask,
  set_callback, set_pending, insert, pop_conn, push_conn, on_connect, on_response, send_request,
  request, step, run,
}
use libtnet.HttpClient.Counted.{
  places, times-insert, length-insert, Less, pop_conn-Always, used-put, used-moved,
}

-- Connectors that are not made yet are nowhere.
pub record OnePlace (n : ℕ) (c : HttpClient) : Type 0 where
  pub limit : c.max_clients ≡ n
  pub fits : length c.conns ≤ n
  pub once : (k : ℕ) → places k c ≤ 1
  pub fresh : (k : ℕ) → c.next_conn ≤ k → places k c ≡ 0

send_request-OnePlace :
    (n ip port name : ℕ) (data_sent : Bytes) (c : HttpClient) (m : IpConn) (o : Option ℕ)
    → OnePlace n c
    → Less c.conns (m, o)
    → OnePlace n (send_request ip port data_sent name (record c { conns = m }, o))
unfolding send_request
send_request-OnePlace n ip port name data_sent c m (some conn) p (few, short) =
    let fits = p.fits in
    record {
      limit = p.limit;
      fits = omega arith;
      once = λ k. ground (arith, used-put k conn (some name) c.callbacks, p.once k, few k);
      fresh = λ k later.
          ground (arith, used-put k conn (some name) c.callbacks, p.fresh k later, few k);
    }
send_request-OnePlace n ip port name data_sent c m none p (few, short) =
    let fits = p.fits in
    record {
      limit = p.limit;
      fits = omega arith;
      once = λ k. ground (
        arith,
        used-put k c.next_conn (some (data_sent, name)) c.pending,
        p.once k,
        p.fresh k,
        few k,
      );
      fresh = λ k later. ground (
        arith,
        used-put k c.next_conn (some (data_sent, name)) c.pending,
        p.fresh k (omega arith),
        few k,
      );
    }

cleared-OnePlace :
    (n conn : ℕ) (c : HttpClient) → OnePlace n c → OnePlace n (set_callback conn none c)
cleared-OnePlace n conn c p = record {
  limit = p.limit;
  fits = p.fits;
  once = λ k. ground (arith, used-put k conn none c.callbacks, p.once k);
  fresh = λ k later. ground (arith, used-put k conn none c.callbacks, p.fresh k later);
}

ask-OnePlace : (n : ℕ) (a : Asked) (c : HttpClient) → OnePlace n c → OnePlace n (ask a c)
ask-OnePlace n a c p = record { limit = p.limit; fits = p.fits; once = p.once; fresh = p.fresh }

kept-OnePlace :
    (n ip conn name : ℕ) (c : HttpClient)
    → OnePlace n c
    → c.callbacks conn ≡ some name
    → length c.conns < n
    → OnePlace n (record (set_callback conn none c) { conns = insert ip conn c.conns })
kept-OnePlace n ip conn name c p waits room = record {
  limit = p.limit;
  fits = let longer = length-insert ip conn c.conns in omega arith;
  once = λ k.
      omega
        (arith, p.once k, times-insert k ip conn c.conns, used-moved k conn name c.callbacks waits);
  fresh = λ k later. omega (
    arith,
    p.fresh k later,
    times-insert k ip conn c.conns,
    used-moved k conn name c.callbacks waits,
  );
}

push_conn-OnePlace :
    (n conn name : ℕ) (open_conn : Bool) (remote : Option ℕ) (c : HttpClient)
    → OnePlace n c
    → c.callbacks conn ≡ some name
    → OnePlace n (push_conn open_conn remote conn c)
unfolding push_conn
push_conn-OnePlace n conn name open_conn remote c p waits =
    let cleared = cleared-OnePlace n conn c p in
    let dropped = ask-OnePlace n (shut_down conn) (set_callback conn none c) cleared in
    on_branches (OnePlace n) (not open_conn) (λ b. cleared)
      (λ b.
        on_branches (OnePlace n) (leb c.max_clients (length c.conns)) (λ b. dropped)
          (λ b.
            on_option (OnePlace n) remote (λ e. dropped)
              (λ ip e.
                let limit = p.limit in kept-OnePlace n ip conn name c p waits (ground arith))))

on_response-OnePlace :
    (n conn name : ℕ) (open_conn : Bool) (remote : Option ℕ) (resp : HttpResponse)
    (event : ResponseEvent) (c : HttpClient)
    → OnePlace n c
    → c.callbacks conn ≡ some name
    → OnePlace n (on_response open_conn remote conn resp event name c)
unfolding on_response
on_response-OnePlace n conn name open_conn remote resp response_complete c p waits =
    ask-OnePlace n (called name resp) (push_conn open_conn remote conn c)
      (push_conn-OnePlace n conn name open_conn remote c p waits)
on_response-OnePlace n conn name open_conn remote resp response_error c p waits =
    ask-OnePlace n (called name resp) c p

connected-OnePlace :
    (n conn name : ℕ) (data_sent : Bytes) (c : HttpClient)
    → OnePlace n c
    → c.pending conn ≡ some (data_sent, name)
    → OnePlace n (on_connect conn true data_sent name (set_pending conn none c))
unfolding on_connect
connected-OnePlace n conn name data_sent c p waits = record {
  limit = p.limit;
  fits = p.fits;
  once = λ k. ground (
    arith,
    p.once k,
    used-put k conn (some name) c.callbacks,
    used-moved k conn (data_sent, name) c.pending waits,
  );
  fresh = λ k later. ground (
    arith,
    p.fresh k later,
    used-put k conn (some name) c.callbacks,
    used-moved k conn (data_sent, name) c.pending waits,
  );
}

connects-OnePlace :
    (n conn name : ℕ) (data_sent : Bytes) (connected : Bool) (c : HttpClient)
    → OnePlace n c
    → c.pending conn ≡ some (data_sent, name)
    → OnePlace n (
        on_connect conn connected data_sent name (if connected then set_pending conn none c else c))
unfolding on_connect
connects-OnePlace n conn name data_sent true c p waits =
    connected-OnePlace n conn name data_sent c p waits
connects-OnePlace n conn name data_sent false c p waits = p

module _ (http_method_str : ℕ → Bytes) (find_parts : Bytes → Option UrlParts)
    (address : Bytes → ℕ) where
  request-OnePlace :
      (n name : ℕ) (alive : ℕ → Bool) (r : HttpRequest) (c : HttpClient)
      → OnePlace n c
      → Always (OnePlace n) (request http_method_str find_parts address alive r name c)
  unfolding request
  request-OnePlace n name alive r c p =
      Always->>=_any (OnePlace n) (parse_url find_parts r) _ (λ parsed.
        Always->>= Sendable (OnePlace n) (pop_conn alive (address parsed.host) c) _
          (pop_conn-Always alive (address parsed.host) c Sendable (λ m o less ip port data_sent.
            send_request-OnePlace n ip port name data_sent c m o p less))
          (λ popped sendable.
            Always->>=_any (OnePlace n) (dump http_method_str find_parts parsed) _
              (λ text. sendable (address parsed.host) parsed.port text.1)))
    where
      Sendable : HttpClient × Option ℕ → Type 0
      Sendable popped =
          (ip port : ℕ) (data_sent : Bytes)
          → OnePlace n (send_request ip port data_sent name popped)

  step-OnePlace :
      (n : ℕ) (u : Use) (c : HttpClient)
      → OnePlace n c
      → Always (OnePlace n) (step http_method_str find_parts address u c)
  unfolding step
  step-OnePlace n (requests alive r name) c p = request-OnePlace n name alive r c p
  step-OnePlace n (connects conn connected) c p =
      on_option (Always (OnePlace n)) (c.pending conn) (λ e. p)
        (λ (data_sent, name) waits. connects-OnePlace n conn name data_sent connected c p waits)
  step-OnePlace n (responds open_conn remote conn resp event) c p =
      on_option (Always (OnePlace n)) (c.callbacks conn) (λ e. p)
        (λ name waits. on_response-OnePlace n conn name open_conn remote resp event c p waits)

  run-OnePlace :
      (n : ℕ) (us : List Use) (c : HttpClient)
      → OnePlace n c
      → Always (OnePlace n) (run http_method_str find_parts address us c)
  unfolding run
  run-OnePlace n [] c p = p
  run-OnePlace n (u ∷ us) c p =
      Always->>= (OnePlace n) (OnePlace n) (step http_method_str find_parts address u c) _
        (step-OnePlace n u c p) (run-OnePlace n us)

  -- Whatever happens to a new client, as long as its calls return, each connector is in at most one
  -- place: kept, or waiting for its connection, or for the response to one request, so that no two
  -- requests share one; and no more are kept than the limit.
  pub run-places :
      (n k : ℕ) (us : List Use) (c : HttpClient)
      → run http_method_str find_parts address us (make n) ≡ ret c
      → (places k c ≤ 1) × (length c.conns ≤ n)
  unfolding make
  run-places n k us c returns =
      let p =
        Always_eq (OnePlace n) (run http_method_str find_parts address us (make n))
          (run-OnePlace n us (make n) (record {
            limit = refl;
            fits = omega arith;
            once = λ i. omega arith;
            fresh = λ i later. refl;
          }))
          returns in
      (p.once k, p.fits)
