-- ===== src/HttpConnection/Examples.antt =====
-- A request in pieces, and a body.
use libtnet.Base.{ℕ, ◌≤◌, ◌≡◌, refl, true, false, List, [], ◌∷◌, ◌++◌, Option, none, arith, length}
use libtnet.Base.Bytes.{Bytes, codes}
use libtnet.Base.Outcome.{Outcome, ret, ◌>>=◌}
use libtnet.HttpParser.{
  HttpParser, ParserView, ParserEvent, message_begin, body, headers_complete, goes, and_then,
  handle_message_begin, on_parser, feed,
}
use libtnet.HttpParser.Headers.{Pieces, header_events, joined}
use libtnet.HttpRequest as Request
use libtnet.HttpRequest.{HttpRequest, UrlParts}
use libtnet.HttpRequest.Json.{JsonNode}
use libtnet.HttpConnection.{
  Session, Wire, Notice, virtual, on_message_begin, on_body, on_headers_complete,
}
use libtnet.HttpConnection.Limits.{pieces}
use libtnet.HttpConnection.Limits
use libtnet.HttpConnection.Requests.{url_events, inserted}
use libtnet.HttpConnection.Requests

abbrev no_url : Bytes → Option UrlParts
no_url url = none

abbrev no_document : Bytes → Option JsonNode
no_document text = none

abbrev quiet : Notice → HttpRequest → Wire → Outcome Wire
quiet n r w = ret w

abbrev at : ℕ → ParserView
at n = record {
  nread = n;
  http_major = 1;
  http_minor = 1;
  method = 1;
  upgrade = false;
  status_code = 0;
}

abbrev fresh : HttpParser Session
fresh = record {
  cur_field = [];
  cur_value = [];
  last_was_value = true;
  error_code = 0;
  derived = record {
    request = Request.make 80;
    wire = record { conn_alive = true; send_callback = false; log = [] };
  };
}

abbrev with_body : Bytes → HttpParser Session
with_body text = record fresh {
  derived = record fresh.derived { request = record (Request.make 80) { body = text } };
}

abbrev body_events : List (ParserView × ParserEvent)
body_events = (at 0, message_begin) ∷ (at 60, body (codes "ab")) ∷ (at 62, body (codes "c")) ∷ []

body_ran :
    feed (virtual 100 3 no_url no_document quiet) body_events fresh
    ≡ ret (with_body (codes "abc"), goes)
unfolding feed on_parser handle_message_begin virtual on_message_begin on_body Request.clear
    Request.make
body_ran = refl

no_body : length fresh.derived.request.body ≤ 3
unfolding Request.make
no_body = omega arith

feed-body_bound_example : length (with_body (codes "abc")).derived.request.body ≤ 3
feed-body_bound_example =
    Limits.feed-body_bound (100, 3) no_url no_document quiet body_events fresh
      (with_body (codes "abc")) goes no_body body_ran

abbrev host_header : Pieces
host_header = record {
  names = (at 20, codes "ho") ∷ (at 22, codes "st") ∷ [];
  values = (at 25, codes "a") ∷ [];
}

feed-request_head_example :
    (q : HttpParser Session) × (q.derived.request ≡ record (Request.make 80) {
      url = joined ((at 4, codes "/a") ∷ (at 6, codes "b") ∷ []);
      headers = inserted (host_header ∷ []) [];
    })
    × (q.derived.wire ≡ fresh.derived.wire)
    × (q.error_code ≡ 0)
    × (feed
          (virtual 100 3 no_url no_document quiet)
          ((at 0, message_begin) ∷ url_events ((at 4, codes "/a") ∷ (at 6, codes "b") ∷ [])
            ++ (header_events (host_header ∷ []) ++ (at 30, headers_complete) ∷ []))
          fresh
        ≡ (on_headers_complete 100 3 no_url no_document quiet (at 30) q
            >>= and_then (feed (virtual 100 3 no_url no_document quiet) [])))
feed-request_head_example =
    Requests.feed-request_head 100 3 no_url no_document quiet
      ((at 4, codes "/a") ∷ (at 6, codes "b") ∷ []) (host_header ∷ []) (at 0) (at 30) [] fresh
      ((omega arith, omega arith, (omega arith, (omega arith, tt))), tt) (omega arith)
