-- ===== src/HttpConnection.antt =====
-- http/httpconnection.h and http/httpconnection.cpp: what the server keeps of a connection.
-- The parameter `callback` is the server's `RequestCallback_t`. What is asked of the `Connection`
-- and of the program's functions is the `log` of `Wire`, in order. `send` of the `Connection` may
-- write everything at once, and the event that says so comes before `send` returns: the parameter
-- `at_once` says when.
pub mod Examples
pub mod Limits
pub mod Requests
use libtnet.Base.{
  ℕ, ◌+◌, ◌*◌, Bool, true, false, List, [], ◌∷◌, ◌++◌, Option, none, some, ltb, leb, if◌then◌else◌,
  length,
}
use libtnet.Base.Bytes.{Bytes}
use libtnet.Base.Int.{is_positive, ℤ, pos, negsuc}
use libtnet.Base.Multimap.{Multimap, insert}
use libtnet.Base.Outcome.{Outcome, ret, ◌>>=◌}
use libtnet.HttpParser.{
  HttpParser, Virtual, ParserView, ParserEvent, Executed, Go, goes, stops, execute, feed,
}
use libtnet.HttpRequest as Request
use libtnet.HttpRequest.{HttpRequest, UrlParts, parse_url, parse_body}
use libtnet.HttpRequest.Text.{case_less}
use libtnet.HttpRequest.Json.{JsonNode}
use libtnet.HttpResponse as Response
use libtnet.HttpResponse.{HttpResponse, dump}

-- What is asked of other objects.
pub data Effect : Type 0 where
  -- `Connection::send`, `shutDown` and `setIdleTimeout`
  sent : Bytes → Effect
  shut_down_after : ℕ → Effect
  idle_timeout_set : ℕ → Effect
  -- `m_sendCallback()`
  send_done : Effect
  -- `WsConnection::onOpen`, for a callback by its name, `onRead`, and `setEventCallback`
  ws_opened : Bytes → Effect
  ws_read : Bytes → Effect
  ws_takes_over : Effect

-- The way out: is there a `Connection` still, and is `m_sendCallback` set?
pub record Wire : Type 0 where
  pub conn_alive : Bool
  pub send_callback : Bool
  pub log : List Effect

-- What the derived object adds to the parser.
pub record Session : Type 0 where
  pub request : HttpRequest
  pub wire : Wire

-- `RequestEvent`, and its context.
pub data Notice : Type 0 where
  upgraded : Bytes → Notice
  completed : Notice
  in_error : ℕ → Bytes → Notice

-- `ms_maxHeaderSize` and `ms_maxBodySize`, as they are set at the start.
abbrev pub default_max_header_size : ℕ
default_max_header_size = 80 * 1024

abbrev pub default_max_body_size : ℕ
default_max_body_size = 10 * 1024 * 1024

abbrev pub note : Effect → Wire → Wire
note e w = record w { log = w.log ++ e ∷ [] }

-- `Conn_WriteCompleteEvent`
pub write_complete : Wire → Wire
write_complete w =
    if w.send_callback then record (note send_done w) { send_callback = false } else w

pub shut_down : ℕ → Wire → Wire
shut_down after w = if w.conn_alive then note (shut_down_after after) w else w

-- `setIdleTimeout`, for a request that asks to keep the connection so long.
pub set_idle : ℤ → Wire → Wire
set_idle (pos n) w =
    if ltb 0 n then (if w.conn_alive then note (idle_timeout_set n) w else w) else w
set_idle (negsuc n) w = w

abbrev pub unless_upgraded : Bool → (Wire → Outcome Wire) → Wire → Outcome Wire
unless_upgraded upgrade f w = if upgrade then ret w else f w

-- `HttpConnection::HttpConnection`, on a request as it is made.
pub make : ℕ → HttpParser Session
unfolding Request.make
make port = record {
  cur_field = [];
  cur_value = [];
  last_was_value = true;
  error_code = 0;
  derived = record {
    request = Request.make port;
    wire = record { conn_alive = true; send_callback = false; log = [] };
  };
}

module _ (at_once : Wire → Bytes → Bool) where
  pub conn_send : Bytes → Wire → Wire
  unfolding write_complete
  conn_send data_sent w =
      if at_once w data_sent
      then write_complete (note (sent data_sent) w)
      else note (sent data_sent) w

  -- `send(resp)`, which closes the connection if the request does not ask to keep it.
  pub send : HttpRequest → HttpResponse → Wire → Outcome Wire
  unfolding conn_send
  send r resp w = elim w.conn_alive [
    | false ↦ ret w
    | true ↦ do
      text ← dump resp
      let after = conn_send text w
      ret (if is_positive r.keep_alive then after else note (shut_down_after 0) after)
  ]

  pub send_status : HttpRequest → ℕ → Wire → Outcome Wire
  unfolding send Response.make
  send_status r code = send r (record Response.make { status_code = code })

  pub send_body : HttpRequest → ℕ → Bytes → Wire → Outcome Wire
  unfolding send Response.make
  send_body r code text = send r (record Response.make { status_code = code; body = text })

  pub send_headers : HttpRequest → ℕ → Bytes → Multimap → Wire → Outcome Wire
  unfolding send
  send_headers r code text headers =
      send r (record { status_code = code; body = text; headers = headers })

  -- The overloads with a callback.
  pub with_callback : (Wire → Outcome Wire) → Bool → Wire → Outcome Wire
  with_callback sending callback w = sending (record w { send_callback = callback })

module _ (max_header_size max_body_size : ℕ) where
  pub on_message_begin : HttpParser Session → HttpParser Session × Go
  unfolding Request.clear Request.make
  on_message_begin p =
      let s = p.derived in
      (record p { derived = record s { request = Request.clear s.request } }, goes)

  pub on_url : Bytes → HttpParser Session → HttpParser Session × Go
  on_url bytes p =
      let s = p.derived in
      let r = s.request in
      (record p { derived = record s { request = record r { url = r.url ++ bytes } } }, goes)

  -- What it returns is read by nobody.
  pub on_header : ParserView → Bytes → Bytes → HttpParser Session → HttpParser Session
  on_header view field value p =
      let s = p.derived in
      let r = s.request in
      if leb max_header_size view.nread then record p { error_code = 413 } else record p {
        derived = record s {
          request = record r { headers = insert case_less field value r.headers };
        };
      }

  pub on_body : Bytes → HttpParser Session → HttpParser Session × Go
  on_body bytes p =
      let s = p.derived in
      let r = s.request in
      if ltb max_body_size (length r.body + length bytes)
      then (record p { error_code = 413 }, stops)
      else (record p { derived = record s { request = record r { body = r.body ++ bytes } } }, goes)

  module _ (http_parser_parse_url : Bytes → Option UrlParts)
      (parse_document : Bytes → Option JsonNode)
      (callback : Notice → HttpRequest → Wire → Outcome Wire) where
    pub on_headers_complete : ParserView → HttpParser Session → Outcome (HttpParser Session × Go)
    on_headers_complete view p =
        let s = p.derived in
        let r = record s.request {
          major_version = view.http_major;
          minor_version = view.http_minor;
          method = view.method;
        } in
        do
          r' ← parse_url http_parser_parse_url r
          ret (record p { derived = record s { request = r' } }, goes)

    pub on_message_complete : ParserView → HttpParser Session → Outcome (HttpParser Session × Go)
    on_message_complete view p = do
      r ← parse_body parse_document p.derived.request
      w' ←
          unless_upgraded view.upgrade (callback completed r) (set_idle r.keep_alive p.derived.wire)
      ret (record p { derived = record { request = r; wire = w' } }, goes)

    pub on_upgrade : Bytes → HttpParser Session → Outcome (HttpParser Session)
    on_upgrade bytes p = do
      w ← callback (upgraded bytes) p.derived.request p.derived.wire
      ret (record p { derived = record p.derived { wire = w } })

    pub on_error : ℕ → Bytes → HttpParser Session → Outcome (HttpParser Session)
    on_error code message p = do
      w ← callback (in_error code message) p.derived.request p.derived.wire
      ret (record p { derived = record p.derived { wire = w } })

    unfoldable pub virtual : Virtual Session
    virtual = record {
      on_message_begin = on_message_begin;
      on_url = on_url;
      on_header = on_header;
      on_body = on_body;
      on_upgrade = on_upgrade;
      on_error = on_error;
      on_headers_complete = on_headers_complete;
      on_message_complete = on_message_complete;
    }

    module _
        (http_parser_execute : (ParserView
            → ParserEvent
            → HttpParser Session
            → Outcome (HttpParser Session × Go))
          → Bytes
          → HttpParser Session
          → Outcome (Executed Session)) where
      -- The events of the `Connection` that the code acts on.
      pub on_read_event : Bytes → HttpParser Session → Outcome (HttpParser Session)
      on_read_event bytes p = do r ← execute virtual http_parser_execute bytes p; ret r.0

      pub on_write_complete : HttpParser Session → HttpParser Session
      unfolding write_complete
      on_write_complete p = record p {
        derived = record p.derived { wire = write_complete p.derived.wire };
      }
