-- ===== src/HttpParser.antt =====
-- http/httpparser.h and http/httpparser.cpp: the callbacks of the parser of HTTP, which joins the
-- pieces of names and values of headers.
-- The third-party `http_parser_execute` is a parameter: it is given the callback
-- `onParser`, and calls it in the course of a buffer. The virtual functions are a record.
pub mod Headers
use libtnet.Base.{ℕ, Bool, true, false, not, List, [], ◌∷◌, ◌++◌, ◌==◌, if◌then◌else◌, length, drop}
use libtnet.Base.Bytes.{Bytes}
use libtnet.Base.Outcome.{Outcome, ret, ◌>>=◌}
use libtnet.HttpUtil.{normalize_header}

-- What the callbacks read of the `struct http_parser`.
pub record ParserView : Type 0 where
  pub nread : ℕ
  pub http_major : ℕ
  pub http_minor : ℕ
  pub method : ℕ
  pub upgrade : Bool
  pub status_code : ℕ

-- `Parser_MessageBegin` and its kin, with the bytes of those that have some.
pub data ParserEvent : Type 0 where
  message_begin : ParserEvent
  url : Bytes → ParserEvent
  status_complete : ParserEvent
  header_field : Bytes → ParserEvent
  header_value : Bytes → ParserEvent
  headers_complete : ParserEvent
  body : Bytes → ParserEvent
  message_complete : ParserEvent

-- What a callback returns: 0, or another number, which stops the parser.
pub data Go : Type 0 where
  goes stops : Go

-- The fields of the base class, and the derived object.
pub record HttpParser (S : Type 0) : Type 0 where
  pub cur_field : Bytes
  pub cur_value : Bytes
  pub last_was_value : Bool
  pub error_code : ℕ
  pub derived : S

-- The virtual functions, on the whole object; what they return is read where the code reads it.
-- The last four may throw.
pub record Virtual (S : Type 0) : Type 0 where
  pub on_message_begin : HttpParser S → HttpParser S × Go
  pub on_url : Bytes → HttpParser S → HttpParser S × Go
  pub on_header : ParserView → Bytes → Bytes → HttpParser S → HttpParser S
  pub on_body : Bytes → HttpParser S → HttpParser S × Go
  pub on_upgrade : Bytes → HttpParser S → Outcome (HttpParser S)
  pub on_error : ℕ → Bytes → HttpParser S → Outcome (HttpParser S)
  pub on_headers_complete : ParserView → HttpParser S → Outcome (HttpParser S × Go)
  pub on_message_complete : ParserView → HttpParser S → Outcome (HttpParser S × Go)

-- What `http_parser_execute` leaves: the object after the callbacks, the bytes consumed, `upgrade`,
-- and the text of `http_errno`.
pub record Executed (S : Type 0) : Type 0 where
  pub object : HttpParser S
  pub consumed : ℕ
  pub upgraded : Bool
  pub errno_description : Bytes

abbrev pub is_empty : Bytes → Bool
is_empty [] = true
is_empty (b ∷ bs) = false

abbrev pub and_then :
    {S : Type 0}
    → (HttpParser S → Outcome (HttpParser S × Go))
    → HttpParser S × Go
    → Outcome (HttpParser S × Go)
and_then next (p, goes) = next p
and_then next (p, stops) = ret (p, stops)

-- The code that `execute` returns when the parser has stopped.
unfoldable pub failure_code : {S : Type 0} → HttpParser S → ℕ
failure_code p = if not (p.error_code == 0) then p.error_code else 400

module _ {S : Type 0} (v : Virtual S) where
  unfoldable pub handle_message_begin : HttpParser S → HttpParser S × Go
  handle_message_begin p =
      v.on_message_begin
        (record p { cur_field = []; cur_value = []; last_was_value = true; error_code = 0 })

  -- The header that has been read, if there is one.
  unfoldable pub flush_header : ParserView → HttpParser S → HttpParser S
  flush_header view p =
      if not (is_empty p.cur_field)
      then v.on_header view (normalize_header p.cur_field) p.cur_value p
      else p

  unfoldable pub handle_header_field : ParserView → Bytes → HttpParser S → HttpParser S × Go
  unfolding flush_header
  handle_header_field view bytes p =
      let begun =
        if p.last_was_value
        then record (flush_header view p) { cur_field = []; cur_value = [] }
        else p in
      (record begun { cur_field = begun.cur_field ++ bytes; last_was_value = false }, goes)

  unfoldable pub handle_header_value : Bytes → HttpParser S → HttpParser S × Go
  handle_header_value bytes p =
      (record p { cur_value = p.cur_value ++ bytes; last_was_value = true }, goes)

  unfoldable pub handle_headers_complete : ParserView → HttpParser S → Outcome (HttpParser S × Go)
  unfolding flush_header
  handle_headers_complete view p = v.on_headers_complete view (flush_header view p)

  unfoldable pub on_parser : ParserView → ParserEvent → HttpParser S → Outcome (HttpParser S × Go)
  unfolding handle_message_begin handle_header_field handle_header_value handle_headers_complete
  on_parser view message_begin p = ret (handle_message_begin p)
  on_parser view (url bytes) p = ret (v.on_url bytes p)
  on_parser view status_complete p = ret (p, goes)
  on_parser view (header_field bytes) p = ret (handle_header_field view bytes p)
  on_parser view (header_value bytes) p = ret (handle_header_value bytes p)
  on_parser view headers_complete p = handle_headers_complete view p
  on_parser view (body bytes) p = ret (v.on_body bytes p)
  on_parser view message_complete p = v.on_message_complete view p

  -- The end of `execute`: the object, and the code that it returns.
  pub finish : Bytes → Executed S → Outcome (HttpParser S × ℕ)
  unfolding failure_code
  finish buffer done =
      if done.upgraded
      then (do p ← v.on_upgrade (drop done.consumed buffer) done.object; ret (p, 0))
      else if done.consumed == length buffer
      then ret (done.object, 0)
      else (do
        p ← v.on_error (failure_code done.object) done.errno_description done.object
        ret (p, failure_code done.object))

  module _
      (http_parser_execute : (ParserView → ParserEvent → HttpParser S → Outcome (HttpParser S × Go))
        → Bytes
        → HttpParser S
        → Outcome (Executed S)) where
    pub execute : Bytes → HttpParser S → Outcome (HttpParser S × ℕ)
    unfolding on_parser finish
    execute buffer p = do done ← http_parser_execute on_parser buffer p; finish buffer done

  -- The calls of the library, in order, up to the first that stops it.
  unfoldable pub feed : List (ParserView × ParserEvent) → HttpParser S → Outcome (HttpParser S × Go)
  unfolding on_parser
  feed [] p = ret (p, goes)
  feed ((view, e) ∷ es) p = do r ← on_parser view e p; and_then (feed es) r
