-- ===== src/HttpClient/Examples.antt =====
-- A client with one connector: a request, its connection, its response, and the next request on it.
use libtnet.Base.{
  ℕ, ◌≤◌, ◌≡◌, refl, Bool, true, false, List, [], ◌∷◌, Option, none, some, arith, length, ◌==◌,
}
use libtnet.Base.Bytes.{Bytes, codes}
use libtnet.Base.Decimal.{show}
use libtnet.Base.Multimap.{insert, erase}
use libtnet.Base.Outcome.{ret}
use libtnet.HttpConnector.{response_complete}
use libtnet.HttpRequest as Request
use libtnet.HttpRequest.{HttpRequest, UrlParts, parse_url, dump}
use libtnet.HttpResponse.{HttpResponse}
use libtnet.HttpClient.{
  HttpClient, Use, requests, connects, responds, make, set_callback, ask, sent, on_response,
  pop_conn, request, run,
}
use libtnet.HttpClient.Kept.{under, first, behind}
use libtnet.HttpClient.Kept
use libtnet.HttpClient.Counted.{places}
use libtnet.HttpClient.Places

abbrev get_str : ℕ → Bytes
get_str method = codes "GET"

abbrev no_url : Bytes → Option UrlParts
no_url url = none

abbrev the_address : Bytes → ℕ
the_address host = 7

abbrev all_alive : ℕ → Bool
all_alive conn = true

abbrev second_alive : ℕ → Bool
second_alive conn = conn == 1

abbrev ok_response : HttpResponse
ok_response = record { status_code = 200; body = codes "ok"; headers = [] }

abbrev three_kept : HttpClient
three_kept = record {
  max_clients = 10;
  conns = (7, 0) ∷ (7, 1) ∷ (7, 2) ∷ (8, 3) ∷ [];
  device = [];
  callbacks = λ conn. none;
  pending = λ conn. none;
  next_conn = 4;
  log = [];
}

pop_conn-first_example :
    (m : List (ℕ × ℕ)) × (pop_conn second_alive 7 three_kept
      ≡ ret (record three_kept { conns = m }, first second_alive (under 7 three_kept.conns)))
    × (under 7 m ≡ behind second_alive (under 7 three_kept.conns))
    × ((i : ℕ) → (i == 7) ≡ false → under i m ≡ under i three_kept.conns)
pop_conn-first_example = Kept.pop_conn-first second_alive 7 three_kept

second_popped :
    pop_conn second_alive 7 three_kept
    ≡ ret (record three_kept { conns = (7, 2) ∷ (8, 3) ∷ [] }, some 1)
unfolding pop_conn
second_popped = refl

abbrev asked : HttpRequest
asked = record (Request.make 80) {
  url = codes "http://h/a";
  schema = codes "http";
  host = codes "h";
  path = codes "/a";
  method = 1;
}

written : (q : HttpRequest × Bytes) × (dump get_str no_url asked ≡ ret q)
unfolding Request.make parse_url dump show insert erase
written = (_, refl)

as_it_is : parse_url no_url asked ≡ ret asked
unfolding Request.make parse_url
as_it_is = refl

one_open : HttpClient
unfolding make
one_open = record (set_callback 0 (some 5) (make 10)) { next_conn = 1 }

request-reuses_example :
    (m : List (ℕ × ℕ)) × (request get_str no_url the_address all_alive asked 6
        (on_response true (some 7) 0 ok_response response_complete 5 one_open)
      ≡ ret (
          ask (sent 0 written.0.1) (
            set_callback 0
              (some 6)
              (record (on_response true (some 7) 0 ok_response response_complete 5 one_open) {
                conns = m;
              }))))
    × (under 7 m ≡ [])
    × ((i : ℕ) → (i == 7) ≡ false → under i m ≡ under i one_open.conns)
unfolding one_open Request.make
request-reuses_example =
    Kept.request-reuses get_str no_url the_address all_alive 0 5 6 ok_response asked asked
      written.0.0 written.0.1 one_open (omega arith) refl refl as_it_is written.1

abbrev uses : List Use
uses =
    requests all_alive asked 5
    ∷ connects 0 true
    ∷ responds true (some 7) 0 ok_response response_complete
    ∷ requests all_alive asked 6
    ∷ []

ran : (c : HttpClient) × (run get_str no_url the_address uses (make 10) ≡ ret c)
unfolding run make Request.make parse_url dump show insert erase
ran = (_, refl)

run-places_example : (places 0 ran.0 ≤ 1) × (length ran.0.conns ≤ 10)
run-places_example = Places.run-places get_str no_url the_address 10 0 uses ran.0 ran.1
