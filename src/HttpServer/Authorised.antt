-- ===== src/HttpServer/Authorised.antt =====
-- http/httpserver.cpp: who is served.
use libtnet.Base.{◌≡◌, refl, Bool, false, some, ◌==◌}
use libtnet.Base.Bytes.{Bytes}
use libtnet.Base.Map.{lookup, lookup-assign_self}
use libtnet.Base.Outcome.{Outcome, ret, fault, ◌>>=◌}
use libtnet.HttpConnection.{Wire, upgraded, completed}
use libtnet.HttpRequest.{HttpRequest}
use libtnet.HttpServer.{
  HttpServer, HttpCallback, AuthCallback, set_http_callback, set_ws_callback, on_error,
  auth_request, if_authorised, on_complete, on_websocket, on_request,
}

module _ (at_once : Wire → Bytes → Bool) where
  auth_request-refused :
      (s : HttpServer) (auth : AuthCallback) (r : HttpRequest) (w : Wire)
      → lookup r.path s.auth_callbacks ≡ some auth
      → ((auth r).status_code == 200) ≡ false
      → auth_request at_once s r w ≡ (on_error at_once r (auth r) w >>= λ w'. ret (w', false))
  unfolding auth_request
  auth_request-refused s auth r w found refused = rw (auth_request, found, refused) refl

  refused_stops :
      (m : Outcome Wire) (serve : Wire → Outcome Wire)
      → ((m >>= λ w. ret (w, false)) >>= if_authorised at_once serve) ≡ m
  refused_stops (ret w) serve = refl
  refused_stops (fault e) serve = refl

  module _ (base64_encode sha1_bin : Bytes → Bytes) where
    -- A request that the callback of its path refuses gets that callback's error, and neither the
    -- handler nor the callback for WebSockets that stands at the path is called, whichever they are:
    -- one callback guards the path for both.
    pub on_request-refused :
        (s : HttpServer) (auth : AuthCallback) (callback : HttpCallback) (name buffer : Bytes)
        (r : HttpRequest) (w : Wire)
        → lookup r.path s.auth_callbacks ≡ some auth
        → ((auth r).status_code == 200) ≡ false
        → (on_request at_once base64_encode sha1_bin
              (set_http_callback r.path callback s)
              completed
              r
              w
            ≡ on_error at_once r (auth r) w)
          × (on_request at_once base64_encode sha1_bin
                (set_ws_callback r.path name s)
                (upgraded buffer)
                r
                w
              ≡ on_error at_once r (auth r) w)
    unfolding on_request on_complete on_websocket set_http_callback set_ws_callback
    on_request-refused s auth callback name buffer r w found refused = (
      rw
          (
            on_complete,
            lookup-assign_self r.path callback s.http_callbacks,
            auth_request-refused (set_http_callback r.path callback s) auth r w found refused,
          )
          (refused_stops (on_error at_once r (auth r) w) _),
      rw
          (
            on_websocket,
            lookup-assign_self r.path name s.ws_callbacks,
            auth_request-refused (set_ws_callback r.path name s) auth r w found refused,
          )
          (refused_stops (on_error at_once r (auth r) w) _),
    )
