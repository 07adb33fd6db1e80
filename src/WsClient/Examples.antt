-- ===== src/WsClient/Examples.antt =====
-- The answers to a handshake: 101, another status, and none at all.
use libtnet.Base.{◌≡◌, refl, true, false, [], ◌∷◌}
use libtnet.Base.Bytes.{codes}
use libtnet.HttpConnector.{response_complete}
use libtnet.HttpResponse.{HttpResponse}
use libtnet.WsClient.{make, on_connect, on_response, ws_opened, ws_takes_over, ws_failed}

abbrev switching : HttpResponse
switching = record { status_code = 101; body = []; headers = [] }

opens :
    (on_response true 0 switching response_complete 3 make).log
    ≡ ws_opened 3 switching ∷ ws_takes_over 0 ∷ []
unfolding on_response make
opens = refl

fails :
    (on_response true 0 (record switching { status_code = 404 }) response_complete 3 make).log
    ≡ ws_failed 3 ∷ []
unfolding on_response make
fails = refl

nobody_is_told : on_connect 0 false (codes "GET") 3 make ≡ make
unfolding on_connect make
nobody_is_told = refl
