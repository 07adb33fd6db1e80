-- ===== src/HttpServer/Examples.antt =====
-- A server with a handler and a guard for one path.
use libtnet.Base.{◌≡◌, refl, Bool, true, false, [], ◌∷◌, some}
use libtnet.Base.Bytes.{Bytes, codes, same}
use libtnet.Base.Map.{lookup}
use libtnet.Base.Outcome.{ret}
use libtnet.HttpConnection.{Wire, upgraded, completed}
use libtnet.HttpRequest as Request
use libtnet.HttpRequest.{HttpRequest}
use libtnet.HttpServer.{
  HttpServer, HttpCallback, AuthCallback, set_http_callback, set_ws_callback, on_error, on_request,
}
use libtnet.HttpServer.Authorised

abbrev asked : HttpRequest
asked = record (Request.make 80) { path = codes "/a" }

abbrev at_once : Wire → Bytes → Bool
at_once w bytes = true

abbrev unchanged : Bytes → Bytes
unchanged s = s

abbrev leaves : HttpCallback
leaves r w = ret w

abbrev refuses : AuthCallback
refuses r = record { status_code = 403; message = codes "no" }

abbrev guarded : HttpServer
guarded = record {
  http_callbacks = [];
  ws_callbacks = [];
  auth_callbacks = (codes "/a", refuses) ∷ [];
}

abbrev open_server : HttpServer
open_server = record { http_callbacks = []; ws_callbacks = []; auth_callbacks = [] }

abbrev way : Wire
way = record { conn_alive = true; send_callback = false; log = [] }

guard_found : lookup (codes "/a") guarded.auth_callbacks ≡ some refuses
unfolding lookup same
guard_found = refl

on_request-refused_example :
    (on_request at_once unchanged unchanged
        (set_http_callback (codes "/a") leaves guarded)
        completed
        asked
        way
      ≡ on_error at_once asked (refuses asked) way)
    × (on_request at_once unchanged unchanged
          (set_ws_callback (codes "/a") (codes "chat") guarded)
          (upgraded (codes "x"))
          asked
          way
        ≡ on_error at_once asked (refuses asked) way)
on_request-refused_example =
    Authorised.on_request-refused at_once unchanged unchanged guarded refuses leaves (codes "chat")
      (codes "x") asked way guard_found refl
