-- ===== src/WsUtil.antt =====
-- http/wsutil.h and http/wsutil.cpp, and `HttpError` of http/tnet_http.h: the handshake of a
-- WebSocket. `base64Encode`, `sha1Bin` and the bytes that `random` gives are parameters.
pub mod Examples
pub mod Handshake
pub mod Client
use libtnet.Base.{
  ℕ, zero, suc, ◌^◌, ◌-◌, Bool, true, false, not, ◌&&◌, ◌||◌, List, [], ◌∷◌, ◌++◌, Option, none,
  some, leb, ltb, ◌==◌, if◌then◌else◌,
}
use libtnet.Base.Bytes.{Bytes, codes, same}
use libtnet.Base.Decimal.{show, number}
use libtnet.Base.Int.{ℤ, pos}
use libtnet.Base.Multimap.{Multimap, insert, find}
use libtnet.Base.Outcome.{Outcome, ret, ◌>>=◌}
use libtnet.HttpRequest.{HttpRequest, UrlParts, http_get, parse_url}
use libtnet.HttpRequest.Text.{case_less, c_str, printed}
use libtnet.HttpRequest.Number.{negated}
use libtnet.HttpRequest.Form.{starts_with}
use libtnet.HttpResponse.{HttpResponse}
use libtnet.StringUtil.{lower, split}

-- 200 is for no error.
pub record HttpError : Type 0 where
  pub status_code : ℕ
  pub message : Bytes

abbrev pub upgrade_key : Bytes
upgrade_key = codes "Upgrade"

abbrev pub upgrade_value : Bytes
upgrade_value = codes "websocket"

abbrev pub connection_key : Bytes
connection_key = codes "Connection"

abbrev pub connection_value : Bytes
connection_value = codes "Upgrade"

abbrev pub ws_version_key : Bytes
ws_version_key = codes "Sec-Websocket-Version"

abbrev pub ws_protocol_key : Bytes
ws_protocol_key = codes "Sec-Websocket-Protocol"

abbrev pub ws_accept_key : Bytes
ws_accept_key = codes "Sec-Websocket-Accept"

abbrev pub ws_key : Bytes
ws_key = codes "Sec-Websocket-Key"

abbrev pub origin_key : Bytes
origin_key = codes "Origin"

abbrev pub ws_magic_key : Bytes
ws_magic_key = codes "258EAFA5-E914-47DA-95CA-C5AB0DC85B11"

-- A text that begins somewhere in another.
pub occurs : Bytes → Bytes → Bool
unfolding starts_with
occurs needle [] = starts_with needle []
occurs needle (c ∷ s) = starts_with needle (c ∷ s) || occurs needle s

-- `strcasestr(s.c_str(), needle.c_str()) != NULL`
pub has_text : Bytes → Bytes → Bool
unfolding occurs
has_text s needle = occurs (lower needle) (lower (c_str s))

-- `atoi`, of a number that an `int` holds
pub signed_value : Bytes → ℤ
signed_value [] = pos 0
signed_value (c ∷ s) =
    if c == b'-'
    then negated (number 0 s).0
    else if c == b'+'
    then pos (number 0 s).0
    else pos (number 0 (c ∷ s)).0

pub atoi : Bytes → ℤ
unfolding signed_value
atoi [] = pos 0
atoi (c ∷ s) =
    let rest = atoi s in if c == 32 || leb 9 c && leb c 13 then rest else signed_value (c ∷ s)

abbrev pub is_version : ℤ → Bool
is_version (pos n) = n == 13 || n == 7 || n == 8
is_version _ = false

abbrev pub has_header : Multimap → Bytes → Bytes → Bool
has_header headers key needle = elim (find case_less key headers) [
  | none ↦ false
  | some value ↦ has_text value needle
]

abbrev pub has_version : Multimap → Bool
has_version headers = elim (find case_less ws_version_key headers) [
  | none ↦ false
  | some value ↦ is_version (atoi (c_str value))
]

pub check_header : HttpRequest → HttpError
check_header r =
    if not (r.method == http_get)
    then record { status_code = 405; message = [] }
    else if not (has_header r.headers upgrade_key upgrade_value)
    then record { status_code = 400; message = codes "Can \"Upgrade\" only to \"websocket\"" }
    else if not (has_header r.headers connection_key connection_value)
    then record { status_code = 400; message = codes "\"Connection\" must be \"upgrade\"" }
    else if not (has_version r.headers)
    then record { status_code = 426; message = codes "Sec-WebSocket-Version: 13" }
    else record { status_code = 200; message = [] }

-- The first of the subprotocols, if there is one.
abbrev pub choose : List Bytes → Multimap → Multimap
choose [] headers = headers
choose (sub ∷ subs) headers = insert case_less ws_protocol_key sub headers

module _ (base64_encode sha1_bin : Bytes → Bytes) where
  pub calc_accept_key : HttpRequest → Bytes
  calc_accept_key r = elim (find case_less ws_key r.headers) [
    | none ↦ []
    | some key ↦ base64_encode (sha1_bin (key ++ ws_magic_key))
  ]

  -- The headers of the answer, but for the subprotocol.
  pub accept_headers : HttpRequest → Multimap → Multimap
  unfolding calc_accept_key
  accept_headers r headers = insert case_less ws_accept_key (calc_accept_key r) (
      insert case_less connection_key upgrade_key
        (insert case_less upgrade_key upgrade_value headers))

  pub handshake : HttpRequest → HttpResponse → Outcome (HttpError × HttpResponse)
  unfolding check_header accept_headers
  handshake r resp =
      let error = check_header r in
      if not (error.status_code == 200)
      then ret (error, resp)
      else let headers = accept_headers r resp.headers in
        elim (find case_less ws_protocol_key r.headers) [
          | none ↦ ret (error, record resp { status_code = 101; headers = headers })
          | some value ↦ do
            subs ← split value (b',' ∷ []) (2 ^ 64 - 1)
            ret (error, record resp { status_code = 101; headers = choose subs headers })
        ]

-- `getOrigin`, of a request whose target has been parsed.
pub origin : HttpRequest → Outcome Bytes
origin r = do
  let schema = lower (c_str r.schema)
  host ← printed (
      if same schema (codes "ws")
      then codes "http://" ++ c_str r.host
      else if same schema (codes "wss")
      then codes "https://" ++ c_str r.host
      else c_str r.schema ++ (codes "://" ++ c_str r.host))
  ret (if not (r.port == 80) && not (r.port == 443) then host ++ (b':' ∷ show r.port) else host)

module _ (base64_encode : Bytes → Bytes) (random_bytes : Bytes)
    (http_parser_parse_url : Bytes → Option UrlParts) where
  pub calc_key : Bytes
  calc_key = base64_encode random_bytes

  abbrev pub add : Bytes → Bytes → HttpRequest → HttpRequest
  add key value r = record r { headers = insert case_less key value r.headers }

  pub get_origin : HttpRequest → Outcome (HttpRequest × Bytes)
  unfolding origin
  get_origin r = do
    parsed ← parse_url http_parser_parse_url r
    text ← origin parsed
    ret (parsed, text)

  pub build_request : HttpRequest → Outcome HttpRequest
  unfolding get_origin calc_key
  build_request r = do
    let asked = add ws_key calc_key (
        add ws_version_key (codes "13") (
          add ws_protocol_key (codes "chat")
            (add connection_key connection_value (add upgrade_key upgrade_value r))))
    o ← get_origin asked
    ret (add origin_key o.1 o.0)
