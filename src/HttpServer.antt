-- ===== src/HttpServer.antt =====
-- http/httpserver.h and http/httpserver.cpp, and the table of handlers of http/httphandler.cpp.
-- A callback of the program is a function on the way out of its connection, a callback for
-- WebSockets is a name, and one that authorises a function of the request. Logging is left out.
pub mod Examples
pub mod Authorised
pub mod Registered
use libtnet.Base.{
  ℕ, ◌+◌, Bool, true, false, not, List, [], ◌∷◌, ◌++◌, Option, none, some, ◌==◌, if◌then◌else◌,
}
use mathlib.Core.List.{reverse}
use libtnet.Base.Bytes.{Bytes}
use libtnet.Base.Map.{Map, lookup, assign}
use libtnet.Base.Outcome.{Outcome, ret, ◌>>=◌}
use libtnet.Connection.{ConnEvent, listen_event}
use libtnet.HttpConnection as Connection
use libtnet.HttpParser.{HttpParser, Virtual}
use libtnet.HttpRequest.{UrlParts}
use libtnet.HttpRequest.Json.{JsonNode}
use libtnet.HttpConnection.{
  Session, virtual, Wire, Notice, upgraded, completed, in_error, note, ws_opened, ws_read,
  ws_takes_over, shut_down, conn_send, send_status, send_body,
}
use libtnet.HttpRequest.{HttpRequest}
use libtnet.HttpResponse as Response
use libtnet.HttpResponse.{HttpResponse, dump}
use libtnet.WsUtil.{HttpError, handshake}

-- `HttpCallback_t` and `AuthCallback_t`
abbrev pub HttpCallback : Type 0
HttpCallback = HttpRequest → Wire → Outcome Wire

abbrev pub AuthCallback : Type 0
AuthCallback = HttpRequest → HttpError

pub record HttpServer : Type 0 where
  pub http_callbacks : Map HttpCallback
  pub ws_callbacks : Map Bytes
  pub auth_callbacks : Map AuthCallback

pub make : HttpServer
make = record { http_callbacks = []; ws_callbacks = []; auth_callbacks = [] }

unfoldable pub set_http_callback : Bytes → HttpCallback → HttpServer → HttpServer
set_http_callback path callback s = record s {
  http_callbacks = assign path callback s.http_callbacks;
}

pub set_ws_callback : Bytes → Bytes → HttpServer → HttpServer
set_ws_callback path callback s = record s { ws_callbacks = assign path callback s.ws_callbacks }

-- The overloads with a callback that authorises.
pub guard : Bytes → AuthCallback → HttpServer → HttpServer
guard path auth s = record s { auth_callbacks = assign path auth s.auth_callbacks }

pub set_http_callback_auth : Bytes → HttpCallback → AuthCallback → HttpServer → HttpServer
unfolding guard set_http_callback
set_http_callback_auth path callback auth s = guard path auth (set_http_callback path callback s)

pub set_ws_callback_auth : Bytes → Bytes → AuthCallback → HttpServer → HttpServer
unfolding guard set_ws_callback
set_ws_callback_auth path callback auth s = guard path auth (set_ws_callback path callback s)

module _ (at_once : Wire → Bytes → Bool) where
  pub http_not_found_callback : HttpCallback
  http_not_found_callback r = send_status at_once r 404

  pub on_error : HttpRequest → HttpError → Wire → Outcome Wire
  on_error r error w = do
    w' ← send_body at_once r error.status_code error.message w
    ret (shut_down 1000 w')

  -- Is the request to be served?
  pub auth_request : HttpServer → HttpRequest → Wire → Outcome (Wire × Bool)
  unfolding on_error
  auth_request s r w = elim (lookup r.path s.auth_callbacks) [
    | none ↦ ret (w, true)
    | some auth ↦
        if not ((auth r).status_code == 200)
        then (do w' ← on_error r (auth r) w; ret (w', false))
        else ret (w, true)
  ]

  -- The call of a handler, if `auth_request` was content.
  abbrev pub if_authorised : (Wire → Outcome Wire) → Wire × Bool → Outcome Wire
  if_authorised serve (w, true) = serve w
  if_authorised serve (w, false) = ret w

  pub on_complete : HttpServer → HttpCallback
  unfolding auth_request http_not_found_callback
  on_complete s r w = elim (lookup r.path s.http_callbacks) [
    | none ↦ http_not_found_callback r w
    | some callback ↦ do a ← auth_request s r w; if_authorised (callback r) a
  ]

  module _ (base64_encode sha1_bin : Bytes → Bytes) where
    -- What follows the handshake.
    pub finish_handshake :
        Bytes → Bytes → HttpRequest → Wire → HttpError × HttpResponse → Outcome Wire
    unfolding on_error
    finish_handshake callback buffer r w (error, resp) =
        if not (error.status_code == 200) then on_error r error w else (do
          text ← dump resp
          ret (
              note ws_takes_over
                (note (ws_read buffer) (note (ws_opened callback) (conn_send at_once text w)))))

    pub open_websocket : Bytes → Bytes → HttpCallback
    unfolding finish_handshake Response.make
    open_websocket callback buffer r w = elim w.conn_alive [
      | false ↦ ret w
      | true ↦ do
        answer ← handshake base64_encode sha1_bin r Response.make
        finish_handshake callback buffer r w answer
    ]

    pub on_websocket : HttpServer → Bytes → HttpCallback
    unfolding auth_request on_error open_websocket
    on_websocket s buffer r w = elim (lookup r.path s.ws_callbacks) [
      | none ↦ on_error r (record { status_code = 404; message = [] }) w
      | some callback ↦ do
        a ← auth_request s r w
        if_authorised (open_websocket callback buffer r) a
    ]

    -- `onRequest`, which is the `callback` of an `HttpConnection`.
    pub on_request : HttpServer → Notice → HttpCallback
    unfolding on_error on_complete on_websocket
    on_request s (upgraded buffer) r w = on_websocket s buffer r w
    on_request s (in_error code message) r w =
        on_error r (record { status_code = code; message = message }) w
    on_request s completed r w = on_complete s r w

    -- The object for a new connection, with what `execute` does to it under this server.
    module _ (max_header_size max_body_size : ℕ) (http_parser_parse_url : Bytes → Option UrlParts)
        (parse_document : Bytes → Option JsonNode) where
      pub on_conn_event : ConnEvent → ℕ → Option (HttpParser Session)
      on_conn_event listen_event port = some (Connection.make port)
      on_conn_event _ port = none

      pub served : HttpServer → Virtual Session
      unfolding on_request
      served s =
          virtual max_header_size max_body_size http_parser_parse_url parse_document (on_request s)

-- `callbackNode`, by its name, and its function.
pub record CallbackNode : Type 0 where
  pub call : HttpCallback
  pub name : Bytes

abbrev pub without_quote : Bytes → Bytes
without_quote [] = []
without_quote (c ∷ s) = if c == 34 then s else c ∷ s

abbrev pub with_slash : Bytes → Bytes
with_slash [] = b'/' ∷ []
with_slash (c ∷ s) = if c == b'/' then c ∷ s else b'/' ∷ (c ∷ s)

-- The path that a key stands for: a quote at either end goes, and it starts with a slash.
pub handler_path : Bytes → Bytes
handler_path key = with_slash (reverse (without_quote (reverse (without_quote key))))

-- `_hdl_reg::_hdl_reg`; the first handler of a path stays.
pub register : Bytes → CallbackNode → Map CallbackNode → Map CallbackNode
unfolding handler_path
register [] node funcs = funcs
register (c ∷ key) node funcs = elim (lookup (handler_path (c ∷ key)) funcs) [
  | none ↦ assign (handler_path (c ∷ key)) node funcs
  | some _ ↦ funcs
]

-- `registHandl`
pub regist_handl : Map CallbackNode → HttpServer → HttpServer
regist_handl [] s = s
regist_handl ((path, node) ∷ funcs) s = regist_handl funcs (set_http_callback path node.call s)
