-- ===== src/HttpConnector/Examples.antt =====
-- A response in pieces, whose function keeps the body.
use libtnet.Base.{ℕ, ◌≡◌, true, false, List, [], ◌∷◌, ◌++◌, some, arith}
use libtnet.Base.Bytes.{Bytes, codes}
use libtnet.HttpParser.{
  HttpParser, ParserView, message_begin, message_complete, headers_complete, feed,
}
use libtnet.HttpParser.Headers.{Pieces, header_events, joined}
use libtnet.HttpResponse as Response
use libtnet.HttpResponse.{HttpResponse}
use libtnet.HttpConnection.Requests.{inserted}
use libtnet.HttpConnector.{Exchange, ResponseEvent, response_complete, call_back, virtual}
use libtnet.HttpConnector.Responses.{body_events}
use libtnet.HttpConnector.Responses

abbrev at : ℕ → ParserView
at n = record {
  nread = n;
  http_major = 1;
  http_minor = 1;
  method = 0;
  upgrade = false;
  status_code = 404;
}

abbrev keep : ℕ → HttpResponse → ResponseEvent → Exchange (List Bytes) → Exchange (List Bytes)
keep name resp event s = record s { world = s.world ++ resp.body ∷ [] }

abbrev fresh : HttpParser (Exchange (List Bytes))
fresh = record {
  cur_field = [];
  cur_value = [];
  last_was_value = true;
  error_code = 0;
  derived = record { response = Response.make; callback = some 0; world = [] };
}

abbrev type_header : Pieces
type_header = record {
  names = (at 20, codes "content-") ∷ (at 28, codes "type") ∷ [];
  values = (at 35, codes "text") ∷ [];
}

abbrev two_parts : List (ParserView × Bytes)
two_parts = (at 50, codes "no") ∷ (at 50, codes "thing") ∷ []

abbrev not_there : HttpResponse
not_there = record {
  status_code = 404;
  body = joined two_parts;
  headers = inserted (type_header ∷ []) [];
}

feed-response_example :
    (q : HttpParser (Exchange (List Bytes))) × (q.derived
      ≡ call_back 100 8 keep not_there response_complete
          (record fresh.derived { response = not_there }))
    × (q.error_code ≡ 0)
    × (feed
          (virtual 100 8 keep)
          ((at 0, message_begin) ∷ header_events (type_header ∷ [])
            ++ ((at 50, headers_complete)
                ∷ (body_events two_parts ++ (at 60, message_complete) ∷ [])))
          fresh
        ≡ feed (virtual 100 8 keep) [] q)
feed-response_example =
    Responses.feed-response 100 8 keep (type_header ∷ []) two_parts (at 0) (at 50) (at 60) [] fresh
      ((omega arith, omega arith, (omega arith, (omega arith, tt))), tt) (omega arith) (omega arith)
