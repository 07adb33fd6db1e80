-- ===== src/HttpConnection/Requests.antt =====
-- http/httpparser.cpp and http/httpconnection.cpp together: the headers that reach a request.
use libtnet.Base.{
  ℕ, ◌<◌, ◌≡◌, refl, sym, ap, append-nil, append_assoc, ◌∙◌, true, List, [], ◌∷◌, ◌++◌, Option, All,
  arith, on_branches, leb, leb→le,
}
use libtnet.Base.Bytes.{Bytes}
use libtnet.Base.Multimap.{Multimap, insert}
use libtnet.Base.Outcome.{Outcome, ◌>>=◌}
use libtnet.HttpParser.{
  Virtual, HttpParser, ParserView, ParserEvent, message_begin, url, headers_complete, and_then,
  handle_message_begin, on_parser, feed,
}
use libtnet.HttpParser.Headers.{
  Pieces, joined, header_events, IsHeader, note_all, feed-header_events,
}
use libtnet.HttpRequest.{HttpRequest, UrlParts, make, clear}
use libtnet.HttpRequest.Text.{case_less}
use libtnet.HttpRequest.Json.{JsonNode}
use libtnet.HttpUtil.{normalize_header}
use libtnet.HttpConnection.{
  Session, Wire, Notice, virtual, on_header, on_message_begin, on_url, on_headers_complete,
}

-- The headers of a request after some have come in, in order.
abbrev pub inserted : List Pieces → Multimap → Multimap
inserted [] m = m
inserted (h ∷ hs) m =
    inserted hs (insert case_less (normalize_header (joined h.names)) (joined h.values) m)

abbrev with_header : Bytes → Bytes → Session → Session
with_header field value s = record s {
  request = record s.request { headers = insert case_less field value s.request.headers };
}

abbrev pub url_events : List (ParserView × Bytes) → List (ParserView × ParserEvent)
url_events [] = []
url_events ((v, b) ∷ us) = (v, url b) ∷ url_events us

module _ (max_header_size max_body_size : ℕ) (find_parts : Bytes → Option UrlParts)
    (parse_document : Bytes → Option JsonNode)
    (callback : Notice → HttpRequest → Wire → Outcome Wire) where
  on_header-plain :
      (w : ParserView) (f x : Bytes) (p : HttpParser Session)
      → w.nread < max_header_size
      → on_header max_header_size max_body_size w f x p
        ≡ record p { derived = with_header f x p.derived }
  unfolding on_header
  on_header-plain w f x p small =
      on_branches (λ q. q ≡ record p { derived = with_header f x p.derived })
        (leb max_header_size w.nread) (λ b. let le = leb→le _ _ b in absurd (omega arith))
        (λ b. refl)

  abbrev v : Virtual Session
  v = virtual max_header_size max_body_size find_parts parse_document callback

  abbrev Small : ParserView → Type 0
  Small w = w.nread < max_header_size

  plain :
      (w : ParserView) (f x : Bytes) (p : HttpParser Session)
      → Small w
      → v.on_header w f x p ≡ record p { derived = with_header f x p.derived }
  unfolding virtual
  plain = on_header-plain

  abbrev set_headers : Multimap → Session → Session
  set_headers m s = record s { request = record s.request { headers = m } }

  note_all-inserted :
      (hs : List Pieces) (s : Session)
      → note_all v with_header Small plain hs s ≡ set_headers (inserted hs s.request.headers) s
  note_all-inserted [] s = refl
  note_all-inserted (h ∷ hs) s =
      note_all-inserted hs (with_header (normalize_header (joined h.names)) (joined h.values) s)

  abbrev add_url : Bytes → HttpParser Session → HttpParser Session
  add_url b p = record p {
    derived = record p.derived {
      request = record p.derived.request { url = p.derived.request.url ++ b };
    };
  }

  feed_urls :
      (us : List (ParserView × Bytes)) (es : List (ParserView × ParserEvent))
      (p : HttpParser Session)
      → feed v (url_events us ++ es) p ≡ feed v es (add_url (joined us) p)
  unfolding feed on_parser virtual on_url
  feed_urls [] es p =
      ap
        (λ u. feed v es (record p {
          derived = record p.derived { request = record p.derived.request { url = u } };
        }))
        (sym (append-nil p.derived.request.url))
  feed_urls ((w, b) ∷ us) es p =
      feed_urls us es (add_url b p)
      ∙ ap
          (λ u. feed v es (record p {
            derived = record p.derived { request = record p.derived.request { url = u } };
          }))
          (append_assoc p.derived.request.url b (joined us))

  -- A message, however the library cuts its target, names and values, as long as fewer than
  -- `ms_maxHeaderSize` bytes are read and no name is empty: when the headers are complete, the request
  -- holds nothing of the one before, its target is whole, each header has been inserted once under its
  -- normalized name, in order, and the way out has not been used.
  pub feed-request_head :
      (us : List (ParserView × Bytes)) (hs : List Pieces) (u w : ParserView)
      (es : List (ParserView × ParserEvent)) (p : HttpParser Session)
      → All (IsHeader (λ x. x.nread < max_header_size)) hs
      → w.nread < max_header_size
      → (q : HttpParser Session) × (q.derived.request
          ≡ record (make 80) { url = joined us; headers = inserted hs [] })
        × (q.derived.wire ≡ p.derived.wire)
        × (q.error_code ≡ 0)
        × (feed
              (virtual max_header_size max_body_size find_parts parse_document callback)
              ((u, message_begin) ∷ url_events us
                ++ (header_events hs ++ (w, headers_complete) ∷ es))
              p
            ≡ (on_headers_complete max_header_size max_body_size find_parts parse_document callback
                  w q
                >>= and_then (
                    feed
                      (virtual max_header_size max_body_size find_parts parse_document callback)
                      es)))
  unfolding feed on_parser handle_message_begin virtual on_message_begin clear make
  feed-request_head us hs u w es p ok small =
      let begun : HttpParser Session = record p {
        cur_field = [];
        cur_value = [];
        last_was_value = true;
        error_code = 0;
        derived = record p.derived { request = make 80 };
      } in
      let (q, derived, code, fed) =
        feed-header_events v with_header Small plain hs w es (add_url (joined us) begun) ok refl
          refl small in
      let noted = derived ∙ note_all-inserted hs (add_url (joined us) begun).derived in
      (
        q,
        ap (λ (s : Session). s.request) noted,
        ap (λ (s : Session). s.wire) noted,
        code,
        feed_urls us (header_events hs ++ (w, headers_complete) ∷ es) begun ∙ fed,
      )
