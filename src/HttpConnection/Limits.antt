-- ===== src/HttpConnection/Limits.antt =====
-- http/httpconnection.cpp: what the limits on headers and bodies are worth.
use libtnet.Base.{
  ℕ, ◌+◌, ◌≤◌, ◌≡◌, refl, sym, ap, ◌∙◌, Bool, true, false, not, List, [], ◌∷◌, Option, leb, ltb,
  arith, on_branches, subst, length, length-append, ltb→le, le→leb, All,
}
use libtnet.Base.Bytes.{Bytes, same}
use libtnet.Base.Outcome.{Outcome, ret, ◌>>=◌, Always, Always->>=, Always->>=_any, Always_eq}
use libtnet.HttpParser as Parser
use libtnet.HttpRequest as Request
use libtnet.HttpParser.{
  message_begin, url, status_complete, headers_complete, body, message_complete,
  handle_message_begin, handle_header_field, handle_header_value, handle_headers_complete,
  HttpParser, ParserView, ParserEvent, header_field, header_value, Go, goes, stops, and_then,
  flush_header, on_parser, feed,
}
use libtnet.HttpRequest.{
  HttpRequest, UrlParts, is_empty, part, add_args, content_type_parts, parse_url, parse_body,
  parse_key_val, parse_query, parse_host, parse_as, parse_json, parse_content_type,
  parse_content_types, parse_keep_alive,
}
use libtnet.HttpRequest.Json.{JsonNode}
use libtnet.HttpRequest.Body.{SameBody, parse_url-body, parse_body-body}
use libtnet.HttpConnection.{
  Session, Wire, Notice, completed, set_idle, unless_upgraded, virtual, on_header, on_message_begin,
  on_url, on_body, on_headers_complete, on_message_complete,
}

module _ (at_most : ℕ × ℕ) (find_parts : Bytes → Option UrlParts)
    (parse_document : Bytes → Option JsonNode)
    (callback : Notice → HttpRequest → Wire → Outcome Wire) where
  abbrev fed :
      List (ParserView × ParserEvent) → HttpParser Session → Outcome (HttpParser Session × Go)
  fed = feed (virtual at_most.0 at_most.1 find_parts parse_document callback)

  abbrev Bounded : HttpParser Session × Go → Type 0
  Bounded r = length r.0.derived.request.body ≤ at_most.1

  abbrev step : ParserView → ParserEvent → HttpParser Session → Outcome (HttpParser Session × Go)
  step = on_parser (virtual at_most.0 at_most.1 find_parts parse_document callback)

  abbrev part_of : HttpParser Session → Bytes
  part_of p = p.derived.request.body

  flush_header-body :
      (v : ParserView) (p : HttpParser Session)
      → part_of (flush_header (virtual at_most.0 at_most.1 find_parts parse_document callback) v p)
        ≡ part_of p
  unfolding virtual flush_header on_header
  flush_header-body v p =
      on_branches (λ q. part_of q ≡ part_of p) (not (Parser.is_empty p.cur_field))
        (λ b.
          on_branches (λ q. part_of q ≡ part_of p) (leb at_most.0 v.nread) (λ c. refl) (λ c. refl))
        (λ b. refl)

  flush_header-fits :
      (v : ParserView) (p : HttpParser Session)
      → length (part_of p) ≤ at_most.1
      → length (
          part_of
            (flush_header (virtual at_most.0 at_most.1 find_parts parse_document callback) v p))
        ≤ at_most.1
  flush_header-fits v p fits = subst (λ b. length b ≤ at_most.1) (sym (flush_header-body v p)) fits

  on_parser-body :
      (v : ParserView) (e : ParserEvent) (p : HttpParser Session)
      → length (part_of p) ≤ at_most.1
      → Always Bounded (step v e p)
  unfolding virtual on_parser handle_message_begin handle_header_field handle_header_value
      handle_headers_complete on_message_begin on_url on_body on_headers_complete
      on_message_complete Request.clear Request.make
  on_parser-body v message_begin p fits = omega arith
  on_parser-body v (url bytes) p fits = fits
  on_parser-body v status_complete p fits = fits
  on_parser-body v (header_field bytes) p fits =
      on_branches (λ q. length (part_of q) ≤ at_most.1) p.last_was_value
        (λ b. flush_header-fits v p fits) (λ b. fits)
  on_parser-body v (header_value bytes) p fits = fits
  on_parser-body v headers_complete p fits =
      let q = flush_header (virtual at_most.0 at_most.1 find_parts parse_document callback) v p in
      let r = record q.derived.request {
        major_version = v.http_major;
        minor_version = v.http_minor;
        method = v.method;
      } in
      Always->>= (SameBody r.body) Bounded (parse_url find_parts r) _ (parse_url-body find_parts r)
        (λ r' same_body.
          subst (λ b. length b ≤ at_most.1) (sym same_body) (flush_header-fits v p fits))
  on_parser-body v (body bytes) p fits =
      on_branches Bounded (ltb at_most.1 (length (part_of p) + length bytes)) (λ b. fits)
        (λ b. subst (λ n. n ≤ at_most.1) (sym (length-append (part_of p) bytes)) (ltb→le _ _ b))
  on_parser-body v message_complete p fits =
      let r = p.derived.request in
      Always->>= (SameBody r.body) Bounded (parse_body parse_document r) _
        (parse_body-body parse_document r)
        (λ r' same_body.
          Always->>=_any Bounded
            (unless_upgraded v.upgrade (callback completed r')
              (set_idle r'.keep_alive p.derived.wire))
            _ (λ w. subst (λ b. length b ≤ at_most.1) (sym same_body) fits))

  and_then-Bounded :
      (next : HttpParser Session → Outcome (HttpParser Session × Go))
      → ((p : HttpParser Session) → length (part_of p) ≤ at_most.1 → Always Bounded (next p))
      → (r : HttpParser Session × Go) → Bounded r
      → Always Bounded (and_then next r)
  and_then-Bounded next h (p, goes) fits = h p fits
  and_then-Bounded next h (p, stops) fits = fits

  feed-Bounded :
      (es : List (ParserView × ParserEvent)) (p : HttpParser Session)
      → length (part_of p) ≤ at_most.1
      → Always Bounded (fed es p)
  unfolding feed
  feed-Bounded [] p fits = fits
  feed-Bounded ((v, e) ∷ es) p fits =
      Always->>= Bounded Bounded (step v e p) _ (on_parser-body v e p fits)
        (and_then-Bounded (fed es) (feed-Bounded es))

  -- Whatever the library calls, in any order and any number of times, and whatever the program's
  -- functions do to the way out: if the body of the request is within `ms_maxBodySize` before, it
  -- is after, when the calls return.
  pub feed-body_bound :
      (es : List (ParserView × ParserEvent)) (p q : HttpParser Session) (g : Go)
      → length p.derived.request.body ≤ at_most.1
      → feed (virtual at_most.0 at_most.1 find_parts parse_document callback) es p ≡ ret (q, g)
      → length q.derived.request.body ≤ at_most.1
  feed-body_bound es p q g fits returns =
      Always_eq Bounded (fed es p) (feed-Bounded es p fits) returns

  -- A call for a piece of a name, or of a value.
  abbrev pub piece : Bool → Bytes → ParserEvent
  piece true bytes = header_field bytes
  piece false bytes = header_value bytes

  abbrev pub pieces : List (ParserView × (Bool × Bytes)) → List (ParserView × ParserEvent)
  pieces [] = []
  pieces ((v, (b, bytes)) ∷ es) = (v, piece b bytes) ∷ pieces es

  abbrev GoesOn : HttpParser Session → Outcome (HttpParser Session × Go) → Type 0
  GoesOn p r = (q : HttpParser Session) × (r ≡ ret (q, goes)) × (q.derived ≡ p.derived)

  flush_header-too_long :
      (v : ParserView) (p : HttpParser Session)
      → at_most.0 ≤ v.nread
      → (flush_header (virtual at_most.0 at_most.1 find_parts parse_document callback) v p).derived
        ≡ p.derived
  unfolding virtual flush_header on_header
  flush_header-too_long v p over =
      on_branches (λ (q : HttpParser Session). q.derived ≡ p.derived)
        (not (Parser.is_empty p.cur_field))
        (λ b.
          on_branches (λ (q : HttpParser Session). q.derived ≡ p.derived) (leb at_most.0 v.nread)
            (λ c. refl) (λ c. let over_limit = le→leb at_most.0 v.nread over in cc))
        (λ b. refl)

  on_parser-too_long :
      (v : ParserView) (b : Bool) (bytes : Bytes) (p : HttpParser Session)
      → at_most.0 ≤ v.nread
      → GoesOn p (step v (piece b bytes) p)
  unfolding on_parser handle_header_field handle_header_value
  on_parser-too_long v false bytes p over = (_, refl, refl)
  on_parser-too_long v true bytes p over = (
    _,
    refl,
    on_branches (λ (q : HttpParser Session). q.derived ≡ p.derived) p.last_was_value
        (λ b. flush_header-too_long v p over) (λ b. refl),
  )

  -- Once the parser has read `ms_maxHeaderSize` bytes, no piece of a header stops it, and nothing
  -- of what comes is kept: the calls return, and leave the request and the connection as they were.
  pub feed-too_long :
      (es : List (ParserView × (Bool × Bytes))) (p : HttpParser Session)
      → All (λ e. at_most.0 ≤ e.0.nread) es
      → (q : HttpParser Session) × (feed
            (virtual at_most.0 at_most.1 find_parts parse_document callback)
            (pieces es)
            p
          ≡ ret (q, goes))
        × (q.derived ≡ p.derived)
  unfolding feed
  feed-too_long [] p over = (p, refl, refl)
  feed-too_long ((v, (b, bytes)) ∷ es) p (o, over) =
      let (q, stepped, kept) = on_parser-too_long v b bytes p o in
      let (r, returns, same) = feed-too_long es q over in
      (r, ap (λ m. m >>= and_then (fed (pieces es))) stepped ∙ returns, same ∙ kept)
