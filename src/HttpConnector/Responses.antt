-- ===== src/HttpConnector/Responses.antt =====
-- http/httpparser.cpp and http/httpconnector.cpp together: the response that reaches the function.
use libtnet.Base.{
  ℕ, ◌+◌, ◌<◌, ◌≡◌, refl, sym, ap, append-nil, append_assoc, ◌∙◌, true, List, [], ◌∷◌, ◌++◌, All,
  arith, on_branches, leb, leb→le, length, length-append,
}
use libtnet.Base.Bytes.{Bytes}
use libtnet.Base.Multimap.{Multimap, insert}
use libtnet.HttpParser.{
  Virtual, HttpParser, ParserView, ParserEvent, message_begin, body, headers_complete,
  message_complete, handle_message_begin, on_parser, feed, and_then,
}
use libtnet.HttpParser.Headers.{
  Pieces, joined, header_events, IsHeader, note_all, feed-header_events,
}
use libtnet.HttpRequest.Text.{case_less}
use libtnet.HttpResponse as Response
use libtnet.HttpResponse.{HttpResponse}
use libtnet.HttpUtil.{normalize_header}
use libtnet.HttpConnection.Requests.{inserted}
use libtnet.HttpConnector.{
  Exchange, ResponseEvent, response_complete, virtual, call_back, on_header, on_body,
  on_message_begin, on_headers_complete, on_message_complete,
}

abbrev pub body_events : List (ParserView × Bytes) → List (ParserView × ParserEvent)
body_events [] = []
body_events ((v, b) ∷ bs) = (v, body b) ∷ body_events bs

module _ {W : Type 0} (max_header_size max_body_size : ℕ)
    (callback : ℕ → HttpResponse → ResponseEvent → Exchange W → Exchange W) where
  abbrev with_header : Bytes → Bytes → Exchange W → Exchange W
  with_header field value s = record s {
    response = record s.response { headers = insert case_less field value s.response.headers };
  }

  abbrev v : Virtual (Exchange W)
  v = virtual max_header_size max_body_size callback

  abbrev Small : ParserView → Type 0
  Small w = w.nread < max_header_size

  plain :
      (w : ParserView) (f x : Bytes) (p : HttpParser (Exchange W))
      → Small w
      → v.on_header w f x p ≡ record p { derived = with_header f x p.derived }
  unfolding virtual on_header
  plain w f x p small =
      on_branches (λ q. q ≡ record p { derived = with_header f x p.derived })
        (leb max_header_size w.nread) (λ b. let le = leb→le _ _ b in absurd (omega arith))
        (λ b. refl)

  abbrev set_headers : Multimap → Exchange W → Exchange W
  set_headers m s = record s { response = record s.response { headers = m } }

  note_all-inserted :
      (hs : List Pieces) (s : Exchange W)
      → note_all v with_header Small plain hs s ≡ set_headers (inserted hs s.response.headers) s
  note_all-inserted [] s = refl
  note_all-inserted (h ∷ hs) s =
      note_all-inserted hs (with_header (normalize_header (joined h.names)) (joined h.values) s)

  abbrev set_body : Bytes → HttpParser (Exchange W) → HttpParser (Exchange W)
  set_body text p = record p {
    derived = record p.derived { response = record p.derived.response { body = text } };
  }

  on_body-plain :
      (bytes : Bytes) (p : HttpParser (Exchange W)) (es : List (ParserView × ParserEvent))
      → length p.derived.response.body + length bytes < max_body_size
      → and_then (feed v es) (on_body max_header_size max_body_size callback bytes p)
        ≡ feed v es (set_body (p.derived.response.body ++ bytes) p)
  unfolding on_body
  on_body-plain bytes p es small =
      on_branches
        (λ q. and_then (feed v es) q ≡ feed v es (set_body (p.derived.response.body ++ bytes) p))
        (leb max_body_size (length p.derived.response.body + length bytes))
        (λ b. let le = leb→le _ _ b in absurd (omega arith)) (λ b. refl)

  feed_bodies :
      (bs : List (ParserView × Bytes)) (es : List (ParserView × ParserEvent))
      (p : HttpParser (Exchange W))
      → length p.derived.response.body + length (joined bs) < max_body_size
      → feed v (body_events bs ++ es) p
        ≡ feed v es (set_body (p.derived.response.body ++ joined bs) p)
  unfolding feed on_parser virtual
  feed_bodies [] es p small =
      ap (λ b. feed v es (set_body b p)) (sym (append-nil p.derived.response.body))
  feed_bodies ((w, b) ∷ bs) es p small =
      let text = p.derived.response.body in
      let sizes = length-append b (joined bs) in
      let begun = length-append text b in
      on_body-plain b p (body_events bs ++ es) (omega arith)
      ∙ feed_bodies bs es (set_body (text ++ b) p) (omega arith)
      ∙ ap (λ t. feed v es (set_body t p)) (append_assoc text b (joined bs))

  abbrev status_set : ℕ → Exchange W → Exchange W
  status_set code s = record s { response = record s.response { status_code = code } }

  abbrev with_status : ParserView → HttpParser (Exchange W) → HttpParser (Exchange W)
  with_status w p = record p { derived = status_set w.status_code p.derived }

  -- The object when the message is complete, with what came in of its body.
  abbrev answered : Bytes → Exchange W → Exchange W
  answered text s =
      let r = record s.response { body = s.response.body ++ text } in
      call_back max_header_size max_body_size callback r response_complete
        (record s { response = r })

  abbrev completed : ParserView → Bytes → HttpParser (Exchange W) → HttpParser (Exchange W)
  completed w text p = record p { derived = answered text p.derived }

  -- A response, however the library cuts its names, values and body, as long as fewer bytes than the
  -- limit on headers are read, no name is empty and the body is shorter than its limit: the function
  -- that is set is called with it when it is complete, with the status, each header once under its
  -- normalized name, in order, and the whole body, and nothing of the response before.
  pub feed-response :
      (hs : List Pieces) (bs : List (ParserView × Bytes)) (u w x : ParserView)
      (es : List (ParserView × ParserEvent)) (p : HttpParser (Exchange W))
      → All (IsHeader (λ y. y.nread < max_header_size)) hs
      → w.nread < max_header_size
      → length (joined bs) < max_body_size
      → let answer : HttpResponse = record {
        status_code = w.status_code;
        body = joined bs;
        headers = inserted hs [];
      } in
        (q : HttpParser (Exchange W)) × (q.derived
          ≡ call_back max_header_size max_body_size callback answer response_complete
              (record p.derived { response = answer }))
        × (q.error_code ≡ 0)
        × (feed
              (virtual max_header_size max_body_size callback)
              ((u, message_begin) ∷ header_events hs
                ++ ((w, headers_complete) ∷ (body_events bs ++ (x, message_complete) ∷ es)))
              p
            ≡ feed (virtual max_header_size max_body_size callback) es q)
  unfolding feed on_parser handle_message_begin virtual on_message_begin on_headers_complete
      on_message_complete Response.clear Response.make
  feed-response hs bs u w x es p ok small short =
      let begun : HttpParser (Exchange W) = record p {
        cur_field = [];
        cur_value = [];
        last_was_value = true;
        error_code = 0;
        derived = record p.derived { response = Response.make };
      } in
      let rest = body_events bs ++ (x, message_complete) ∷ es in
      let (q, derived, code, fed) =
        feed-header_events v with_header Small plain hs w rest begun ok refl refl small in
      let noted = derived ∙ note_all-inserted hs begun.derived in
      let no_body = ap (λ (s : Exchange W). length s.response.body) noted in
      (
        completed x (joined bs) (with_status w q),
        ap (λ s. answered (joined bs) (status_set w.status_code s)) noted,
        code,
        fed ∙ feed_bodies bs ((x, message_complete) ∷ es) (with_status w q) (omega arith),
      )
