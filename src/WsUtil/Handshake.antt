-- ===== src/WsUtil/Handshake.antt =====
-- http/wsutil.cpp: which requests become WebSockets, and with what answer.
use libtnet.Base.{
  ◌≡◌, ◌↔◌, refl, inl, inr, Bool, true, false, not, List, [], ◌∷◌, ◌++◌, ◌∙◌, ◌^◌, ◌-◌, subst, sym,
  ap, on_branches, on_option, none, some, ◌==◌, if◌then◌else◌, Bool-cases,
}
use libtnet.Base.Bytes.{Bytes, codes}
use libtnet.Base.Multimap.{Multimap, find, less, find-insert_ne, find-insert_self}
use libtnet.Base.Outcome.{Outcome, ret}
use libtnet.HttpRequest.{HttpRequest, http_get}
use libtnet.HttpRequest.Text.{case_less, c_str}
use libtnet.HttpResponse.{HttpResponse}
use libtnet.StringUtil.{lower, to_lower}
use libtnet.StringUtil.Split.{split_parts}
use libtnet.WsUtil.{
  HttpError, choose, ws_key, check_header, handshake, accept_headers, calc_accept_key, has_header,
  has_version, upgrade_key, upgrade_value, connection_key, connection_value, ws_accept_key,
  ws_protocol_key,
}

-- A `GET` whose header `Upgrade` names `websocket`, whose header `Connection` names `Upgrade`, and
-- whose version of the protocol is 13, 7 or 8.
abbrev pub AsksUpgrade : HttpRequest → Type 0
AsksUpgrade r =
    ((r.method == http_get) ≡ true)
    × (has_header r.headers upgrade_key upgrade_value ≡ true)
    × (has_header r.headers connection_key connection_value ≡ true)
    × (has_version r.headers ≡ true)

fails :
    (b : Bool) (e : HttpError) (f : HttpError)
    → (e.status_code == 200) ≡ false
    → ((if not b then e else f).status_code == 200) ≡ true
    → (b ≡ true) × ((f.status_code == 200) ≡ true)
fails true e f bad ok = (refl, ok)
fails false e f bad ok = cc

-- The check passes for the requests that ask for an upgrade, and for no others.
pub check_header-AsksUpgrade :
    (r : HttpRequest) → (((check_header r).status_code == 200) ≡ true) ↔ AsksUpgrade r
unfolding check_header
check_header-AsksUpgrade r = (
  λ ok.
      let (get, ok₁) = fails (r.method == http_get) _ _ refl ok in
      let (up, ok₂) = fails (has_header r.headers upgrade_key upgrade_value) _ _ refl ok₁ in
      let (conn, ok₃) = fails (has_header r.headers connection_key connection_value) _ _ refl ok₂ in
      let (version, ok₄) = fails (has_version r.headers) _ _ refl ok₃ in (get, up, conn, version),
  λ (get, up, conn, version). rw (get, up, conn, version) refl,
)

-- None of the headers that the handshake sets is there.
pub record IsFresh (m : Multimap) : Type 0 where
  pub no_upgrade : find case_less upgrade_key m ≡ none
  pub no_connection : find case_less connection_key m ≡ none
  pub no_accept : find case_less ws_accept_key m ≡ none

-- What a client checks in the headers of the answer to its key.
pub record Accepts (accept : Bytes) (m : Multimap) : Type 0 where
  pub upgrade : find case_less (codes "Upgrade") m ≡ some (codes "websocket")
  pub connection : find case_less (codes "Connection") m ≡ some (codes "Upgrade")
  pub accepted : find case_less (codes "Sec-Websocket-Accept") m ≡ some accept

-- A subprotocol that is chosen changes none of them.
choose-Accepts :
    (accept : Bytes) (subs : List Bytes) (m : Multimap)
    → Accepts accept m
    → Accepts accept (choose subs m)
unfolding less case_less lower to_lower c_str
choose-Accepts accept [] m a = a
choose-Accepts accept (sub ∷ subs) m a = record {
  upgrade = find-insert_ne case_less upgrade_key ws_protocol_key sub m refl ∙ a.upgrade;
  connection = find-insert_ne case_less connection_key ws_protocol_key sub m refl ∙ a.connection;
  accepted = find-insert_ne case_less ws_accept_key ws_protocol_key sub m refl ∙ a.accepted;
}

check_passed :
    (r : HttpRequest) → AsksUpgrade r → check_header r ≡ record { status_code = 200; message = [] }
unfolding check_header
check_passed r (get, up, conn, version) = rw (get, up, conn, version) refl

module _ (base64_encode sha1_bin : Bytes → Bytes) where
  calc_accept_key-magic :
      (r : HttpRequest) (key : Bytes)
      → find case_less ws_key r.headers ≡ some key
      → calc_accept_key base64_encode sha1_bin r
        ≡ base64_encode (sha1_bin (key ++ codes "258EAFA5-E914-47DA-95CA-C5AB0DC85B11"))
  unfolding calc_accept_key
  calc_accept_key-magic r key has_key = rw (calc_accept_key, has_key) refl

  accept_headers-Accepts :
      (r : HttpRequest) (m : Multimap)
      → IsFresh m
      → Accepts
          (calc_accept_key base64_encode sha1_bin r)
          (accept_headers base64_encode sha1_bin r m)
  unfolding accept_headers less case_less lower to_lower c_str
  accept_headers-Accepts r m fresh = record {
    upgrade =
        find-insert_ne case_less upgrade_key ws_accept_key _ _ refl
        ∙ find-insert_ne case_less upgrade_key connection_key upgrade_key _ refl
        ∙ find-insert_self case_less upgrade_key upgrade_value m refl fresh.no_upgrade;
    connection =
        find-insert_ne case_less connection_key ws_accept_key _ _ refl
        ∙ find-insert_self case_less connection_key upgrade_key _ refl (
            find-insert_ne case_less connection_key upgrade_key upgrade_value m refl
            ∙ fresh.no_connection);
    accepted = find-insert_self case_less ws_accept_key _ _ refl (
        find-insert_ne case_less ws_accept_key connection_key upgrade_key _ refl
        ∙ find-insert_ne case_less ws_accept_key upgrade_key upgrade_value m refl
        ∙ fresh.no_accept);
  }

  -- The answer to a request that asks for an upgrade with a key, on headers that have none of the
  -- handshake's yet: it is made whatever subprotocols are named, with the status 101, `Upgrade` and
  -- `Connection`, and under `Sec-Websocket-Accept` the key and the fixed text of RFC 6455, hashed by
  -- sha1 and written in base64; no error is returned.
  pub handshake-AsksUpgrade :
      (r : HttpRequest) (resp : HttpResponse) (key : Bytes)
      → AsksUpgrade r
      → find case_less (codes "Sec-Websocket-Key") r.headers ≡ some key
      → IsFresh resp.headers
      → (error : HttpError) × (answer : HttpResponse) × (handshake base64_encode sha1_bin r resp
          ≡ ret (error, answer))
        × (error.status_code ≡ 200)
        × (answer.status_code ≡ 101)
        × Accepts
            (base64_encode (sha1_bin (key ++ codes "258EAFA5-E914-47DA-95CA-C5AB0DC85B11")))
            answer.headers
  unfolding handshake
  handshake-AsksUpgrade r resp key asks has_key fresh =
      on_branches Answers (not ((check_header r).status_code == 200))
        (λ bad. absurd (cc (sym bad ∙ ap not ((check_header-AsksUpgrade r).1 asks))))
        (λ good.
          on_option Answers (find case_less ws_protocol_key r.headers)
            (λ no_protocol. (check_header r, _, refl, passed, refl, accepts))
            (λ value named.
              let (subs, returns, some_bytes, bound, whole, same_text) =
                split_parts value (codes ",") (2 ^ 64 - 1) in
              (
                check_header r,
                record resp { status_code = 101; headers = choose subs headers },
                rw returns refl,
                passed,
                refl,
                choose-Accepts _ subs headers accepts,
              )))
    where
      headers : Multimap
      headers = accept_headers base64_encode sha1_bin r resp.headers

      accept : Bytes
      accept = base64_encode (sha1_bin (key ++ codes "258EAFA5-E914-47DA-95CA-C5AB0DC85B11"))

      passed : (check_header r).status_code ≡ 200
      passed = ap (λ (e : HttpError). e.status_code) (check_passed r asks)

      accepts : Accepts accept headers
      accepts =
          subst (λ a. Accepts a headers) (calc_accept_key-magic r key has_key)
            (accept_headers-Accepts r resp.headers fresh)

      Answers : Outcome (HttpError × HttpResponse) → Type 0
      Answers o =
          (error : HttpError) × (answer : HttpResponse) × (o ≡ ret (error, answer))
          × (error.status_code ≡ 200)
          × (answer.status_code ≡ 101)
          × Accepts accept answer.headers

  -- A request that does not ask for an upgrade leaves the answer as it was.
  pub handshake_refused :
      (r : HttpRequest) (resp : HttpResponse)
      → ¬ AsksUpgrade r
      → handshake base64_encode sha1_bin r resp ≡ ret (check_header r, resp)
  unfolding handshake
  handshake_refused r resp refuses = elim (Bool-cases ((check_header r).status_code == 200)) [
    | inl ok ↦ absurd (refuses ((check_header-AsksUpgrade r).0 ok))
    | inr bad ↦ rw bad refl
  ]
