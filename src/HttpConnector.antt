-- ===== src/HttpConnector.antt =====
-- http/httpconnector.h and http/httpconnector.cpp: the parser of responses of a client. The function
-- that is set for responses is a name, `none` for `dummyCallback`; the parameter `callback` says what
-- the functions of that name do, to the object and to the `world` around it.
pub mod Examples
pub mod Responses
use libtnet.Base.{
  ℕ, ◌+◌, ◌*◌, Bool, true, List, [], ◌∷◌, ◌++◌, Option, none, some, leb, if◌then◌else◌, length,
}
use libtnet.Base.Bytes.{Bytes}
use libtnet.Base.Multimap.{insert}
use libtnet.Base.Outcome.{Outcome, ret, ◌>>=◌}
use libtnet.HttpParser.{
  HttpParser, Virtual, ParserView, ParserEvent, Executed, Go, goes, stops, execute,
}
use libtnet.HttpRequest.Text.{case_less}
use libtnet.HttpResponse as Response
use libtnet.HttpResponse.{HttpResponse, make_with}

-- `ResponseEvent`
pub data ResponseEvent : Type 0 where
  response_complete response_error : ResponseEvent

-- What the derived object adds to the parser, and what is around it.
pub record Exchange (W : Type 0) : Type 0 where
  pub response : HttpResponse
  pub callback : Option ℕ
  pub world : W

-- `ms_maxHeaderSize` and `ms_maxBodySize`, as they are set at the start.
abbrev pub default_max_header_size : ℕ
default_max_header_size = 80 * 1024

abbrev pub default_max_body_size : ℕ
default_max_body_size = 10 * 1024 * 1024

-- `HttpConnector::HttpConnector`
pub make : {W : Type 0} → W → HttpParser (Exchange W)
unfolding Response.make
make world = record {
  cur_field = [];
  cur_value = [];
  last_was_value = true;
  error_code = 0;
  derived = record { response = Response.make; callback = none; world = world };
}

abbrev pub set_callback : {W : Type 0} → ℕ → Exchange W → Exchange W
set_callback name s = record s { callback = some name }

abbrev pub clear_callback : {W : Type 0} → Exchange W → Exchange W
clear_callback s = record s { callback = none }

module _ {W : Type 0} (max_header_size max_body_size : ℕ)
    (callback : ℕ → HttpResponse → ResponseEvent → Exchange W → Exchange W) where
  -- `m_callback(...)`
  pub call_back : HttpResponse → ResponseEvent → Exchange W → Exchange W
  call_back resp event s = elim s.callback [ none ↦ s | some name ↦ callback name resp event s ]

  pub on_message_begin : HttpParser (Exchange W) → HttpParser (Exchange W) × Go
  unfolding Response.clear Response.make
  on_message_begin p = (
    record p { derived = record p.derived { response = Response.clear p.derived.response } },
    goes,
  )

  -- What it returns is read by nobody.
  pub on_header : ParserView → Bytes → Bytes → HttpParser (Exchange W) → HttpParser (Exchange W)
  on_header view field value p =
      let r = p.derived.response in
      if leb max_header_size view.nread then record p { error_code = 413 } else record p {
        derived = record p.derived {
          response = record r { headers = insert case_less field value r.headers };
        };
      }

  pub on_headers_complete :
      ParserView → HttpParser (Exchange W) → Outcome (HttpParser (Exchange W) × Go)
  on_headers_complete view p =
      let r = record p.derived.response { status_code = view.status_code } in
      ret (record p { derived = record p.derived { response = r } }, goes)

  pub on_body : Bytes → HttpParser (Exchange W) → HttpParser (Exchange W) × Go
  on_body bytes p =
      let r = p.derived.response in
      let longer = record r { body = r.body ++ bytes } in
      if leb max_body_size (length r.body + length bytes)
      then (record p { error_code = 413 }, stops)
      else (record p { derived = record p.derived { response = longer } }, goes)

  pub on_message_complete :
      ParserView → HttpParser (Exchange W) → Outcome (HttpParser (Exchange W) × Go)
  unfolding call_back
  on_message_complete view p =
      let s = p.derived in
      ret (record p { derived = call_back s.response response_complete s }, goes)

  pub on_error : ℕ → Bytes → HttpParser (Exchange W) → Outcome (HttpParser (Exchange W))
  unfolding call_back make_with
  on_error code message p =
      ret (record p { derived = call_back (make_with code [] message) response_error p.derived })

  -- `onUrl` and `onUpgrade` are those of the base class.
  unfoldable pub virtual : Virtual (Exchange W)
  virtual = record {
    on_message_begin = on_message_begin;
    on_url = λ bytes p. (p, goes);
    on_header = on_header;
    on_body = on_body;
    on_upgrade = λ bytes p. ret p;
    on_error = on_error;
    on_headers_complete = on_headers_complete;
    on_message_complete = on_message_complete;
  }

  module _
      (http_parser_execute : (ParserView
          → ParserEvent
          → HttpParser (Exchange W)
          → Outcome (HttpParser (Exchange W) × Go))
        → Bytes
        → HttpParser (Exchange W)
        → Outcome (Executed (Exchange W))) where
    pub handle_read : Bytes → HttpParser (Exchange W) → Outcome (HttpParser (Exchange W))
    handle_read bytes p = do r ← execute virtual http_parser_execute bytes p; ret r.0
