-- ===== src/WsUtil/Examples.antt =====
-- A request for an upgrade as browsers send it.
use libtnet.Base.{◌≡◌, refl, Option, none, some, [], ◌∷◌, ◌++◌}
use libtnet.Base.Bytes.{Bytes, codes, same}
use libtnet.Base.Multimap.{find, less}
use libtnet.Base.Decimal.{number, show}
use libtnet.Base.Outcome.{ret}
use libtnet.HttpRequest as Request
use libtnet.HttpRequest.{HttpRequest, UrlParts, parse_url}
use libtnet.HttpRequest.Text.{case_less, c_str, printed}
use libtnet.HttpRequest.Form.{starts_with}
use libtnet.HttpResponse.{HttpResponse, make}
use libtnet.StringUtil.{lower, to_lower}
use libtnet.WsUtil.{
  HttpError, build_request, ws_magic_key, check_header, handshake, calc_accept_key, has_text,
  occurs, atoi, signed_value,
}
use libtnet.WsUtil.Handshake.{AsksUpgrade, IsFresh, Accepts}
use libtnet.WsUtil.Handshake
use libtnet.WsUtil.Client.{IsPlain}
use libtnet.WsUtil.Client

abbrev browser : HttpRequest
browser = record (Request.make 80) {
  headers =
      (codes "Connection", codes "keep-alive, Upgrade")
      ∷ (codes "Sec-Websocket-Key", codes "dGhlIHNhbXBsZSBub25jZQ==")
      ∷ (codes "Sec-Websocket-Version", codes "13")
      ∷ (codes "Upgrade", codes "WebSocket")
      ∷ [];
}

browser-AsksUpgrade : AsksUpgrade browser
unfolding Request.make find case_less less lower to_lower c_str has_text occurs starts_with atoi
    signed_value number
browser-AsksUpgrade = (refl, refl, refl, refl)

browser_key :
    find case_less (codes "Sec-Websocket-Key") browser.headers
    ≡ some (codes "dGhlIHNhbXBsZSBub25jZQ==")
unfolding find case_less less lower to_lower c_str
browser_key = refl

plain-IsFresh : IsFresh (make).headers
unfolding find make
plain-IsFresh = record { no_upgrade = refl; no_connection = refl; no_accept = refl }

abbrev unchanged : Bytes → Bytes
unchanged s = s

handshake-AsksUpgrade_example :
    (error : HttpError) × (answer : HttpResponse) × (handshake unchanged unchanged browser make
      ≡ ret (error, answer))
    × (error.status_code ≡ 200)
    × (answer.status_code ≡ 101)
    × Accepts
        (codes "dGhlIHNhbXBsZSBub25jZQ==" ++ codes "258EAFA5-E914-47DA-95CA-C5AB0DC85B11")
        answer.headers
handshake-AsksUpgrade_example =
    Handshake.handshake-AsksUpgrade unchanged unchanged browser make
      (codes "dGhlIHNhbXBsZSBub25jZQ==") browser-AsksUpgrade browser_key plain-IsFresh

abbrev bare_get : HttpRequest
bare_get = record (Request.make 80) {
  url = codes "ws://h/a";
  headers = (codes "Accept", codes "*") ∷ [];
}

abbrev no_url : Bytes → Option UrlParts
no_url url = none

built : (q : HttpRequest) × (build_request unchanged (codes "random bytes") no_url bare_get ≡ ret q)
unfolding Request.make build_request parse_url show printed same lower
built = (_, refl)

bare_get-IsPlain : IsPlain bare_get.headers
unfolding find case_less less lower to_lower c_str Request.make
bare_get-IsPlain = record {
  no_upgrade = refl;
  no_connection = refl;
  no_version = refl;
  no_key = refl;
}

check_header-build_request_example :
    ((check_header built.0).status_code ≡ 200)
    × (calc_accept_key unchanged unchanged built.0 ≡ codes "random bytes" ++ ws_magic_key)
unfolding Request.make
check_header-build_request_example =
    Client.check_header-build_request unchanged unchanged (codes "random bytes") no_url bare_get
      built.0 refl bare_get-IsPlain built.1
