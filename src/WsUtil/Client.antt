-- ===== src/WsUtil/Client.antt =====
-- http/wsutil.cpp: the request that a client sends for a WebSocket, as a server reads it.
use libtnet.Base.{
  ◌^◌, ◌-◌, ◌≡◌, refl, ap, ◌∙◌, true, not, [], ◌∷◌, ◌++◌, Option, none, some, ◌==◌, ==_iff,
  on_branches, on_option,
}
use libtnet.Base.Bytes.{Bytes, codes}
use libtnet.Base.Decimal.{number}
use libtnet.Base.Multimap.{Multimap, find, insert, less, find-insert_ne, find-insert_self}
use libtnet.Base.Outcome.{Always, Always->>=_any, Always->>=, Always_eq, ret}
use libtnet.HttpRequest.{
  HttpRequest, UrlParts, http_get, is_empty, part, add_args, parse_url, parse_key_val, parse_query,
}
use libtnet.HttpRequest.Text.{case_less, c_str}
use libtnet.HttpRequest.Form.{starts_with}
use libtnet.StringUtil.{lower, to_lower, split}
use libtnet.WsUtil.{
  build_request, get_origin, origin, calc_key, calc_accept_key, has_text, occurs, atoi,
  signed_value, upgrade_key, upgrade_value, connection_key, connection_value, ws_version_key,
  ws_protocol_key, ws_key, ws_magic_key, check_header, origin_key, has_header, has_version,
}
use libtnet.WsUtil.Handshake.{check_header-AsksUpgrade}

abbrev SameHead : HttpRequest → HttpRequest → Type 0
SameHead r q = (q.headers ≡ r.headers) × (q.method ≡ r.method)

parse_key_val-SameHead : (s : Bytes) (r : HttpRequest) → Always (SameHead r) (parse_key_val s r)
unfolding parse_key_val
parse_key_val-SameHead [] r = (refl, refl)
parse_key_val-SameHead (c ∷ cs) r =
    Always->>=_any (SameHead r) (split (c ∷ cs) (b'&' ∷ []) (2 ^ 64 - 1)) _
      (λ args. Always->>=_any (SameHead r) (add_args args r.params) _ (λ params. (refl, refl)))

parse_url-SameHead :
    (find_parts : Bytes → Option UrlParts) (r : HttpRequest)
    → Always (SameHead r) (parse_url find_parts r)
unfolding parse_url parse_query
parse_url-SameHead find_parts r =
    let keeps = Always (SameHead r) in
    on_branches keeps (not (is_empty r.schema)) (λ b. (refl, refl))
      (λ b.
        on_option keeps (find_parts r.url) (λ absent. (refl, refl))
          (λ u is_u. Always->>=_any (SameHead r) (part r.url r.schema u.schema_at) _ (λ schema.
            Always->>=_any (SameHead r) (part r.url r.host u.host_at) _ (λ host.
              Always->>=_any (SameHead r) (part r.url r.path u.path_at) _ (λ path.
                Always->>=_any (SameHead r) (part r.url r.query u.query_at) _ (λ query.
                  on_option keeps u.query_at (λ absent. (refl, refl))
                    (λ q is_q. parse_key_val-SameHead query _)))))))

-- The headers of the client, on those that were there.
abbrev client_headers : Bytes → Multimap → Multimap
client_headers key m = insert case_less ws_key key (
    insert case_less ws_version_key (codes "13") (
      insert case_less ws_protocol_key (codes "chat") (
        insert case_less connection_key connection_value
          (insert case_less upgrade_key upgrade_value m))))

abbrev sent : Bytes → Bytes → Multimap → Multimap
sent text key m = insert case_less origin_key text (client_headers key m)

-- None of the headers of the handshake is there.
pub record IsPlain (m : Multimap) : Type 0 where
  pub no_upgrade : find case_less upgrade_key m ≡ none
  pub no_connection : find case_less connection_key m ≡ none
  pub no_version : find case_less ws_version_key m ≡ none
  pub no_key : find case_less ws_key m ≡ none

module _ (text key : Bytes) (m : Multimap) (plain : IsPlain m) where
  sent-upgrade : find case_less upgrade_key (sent text key m) ≡ some upgrade_value
  unfolding less case_less lower to_lower c_str
  sent-upgrade =
      find-insert_ne case_less upgrade_key origin_key text _ refl
      ∙ find-insert_ne case_less upgrade_key ws_key key _ refl
      ∙ find-insert_ne case_less upgrade_key ws_version_key (codes "13") _ refl
      ∙ find-insert_ne case_less upgrade_key ws_protocol_key (codes "chat") _ refl
      ∙ find-insert_ne case_less upgrade_key connection_key connection_value _ refl
      ∙ find-insert_self case_less upgrade_key upgrade_value _ refl plain.no_upgrade

  sent-connection : find case_less connection_key (sent text key m) ≡ some connection_value
  unfolding less case_less lower to_lower c_str
  sent-connection =
      find-insert_ne case_less connection_key origin_key text _ refl
      ∙ find-insert_ne case_less connection_key ws_key key _ refl
      ∙ find-insert_ne case_less connection_key ws_version_key (codes "13") _ refl
      ∙ find-insert_ne case_less connection_key ws_protocol_key (codes "chat") _ refl
      ∙ find-insert_self case_less connection_key connection_value _ refl (
          find-insert_ne case_less connection_key upgrade_key upgrade_value _ refl
          ∙ plain.no_connection)

  sent-version : find case_less ws_version_key (sent text key m) ≡ some (codes "13")
  unfolding less case_less lower to_lower c_str
  sent-version =
      find-insert_ne case_less ws_version_key origin_key text _ refl
      ∙ find-insert_ne case_less ws_version_key ws_key key _ refl
      ∙ find-insert_self case_less ws_version_key (codes "13") _ refl (
          find-insert_ne case_less ws_version_key ws_protocol_key (codes "chat") _ refl
          ∙ find-insert_ne case_less ws_version_key connection_key connection_value _ refl
          ∙ find-insert_ne case_less ws_version_key upgrade_key upgrade_value _ refl
          ∙ plain.no_version)

  sent-key : find case_less ws_key (sent text key m) ≡ some key
  unfolding less case_less lower to_lower c_str
  sent-key =
      find-insert_ne case_less ws_key origin_key text _ refl
      ∙ find-insert_self case_less ws_key key _ refl (
          find-insert_ne case_less ws_key ws_version_key (codes "13") _ refl
          ∙ find-insert_ne case_less ws_key ws_protocol_key (codes "chat") _ refl
          ∙ find-insert_ne case_less ws_key connection_key connection_value _ refl
          ∙ find-insert_ne case_less ws_key upgrade_key upgrade_value _ refl
          ∙ plain.no_key)

module _ (base64_encode sha1_bin : Bytes → Bytes) (random_bytes : Bytes)
    (find_parts : Bytes → Option UrlParts) where
  -- What `buildRequest` leaves of the method and of the headers.
  abbrev Built : HttpRequest → HttpRequest → Type 0
  Built r q =
      (text : Bytes) × (q.headers ≡ sent text (base64_encode random_bytes) r.headers)
      × (q.method ≡ r.method)

  build_request-Built :
      (r : HttpRequest) → Always (Built r) (build_request base64_encode random_bytes find_parts r)
  unfolding build_request get_origin calc_key
  build_request-Built r =
      Always->>= (λ (o : HttpRequest × Bytes). SameHead asked o.0) (Built r)
        (get_origin base64_encode random_bytes find_parts asked) _
        (Always->>= (SameHead asked) (λ (o : HttpRequest × Bytes). SameHead asked o.0)
          (parse_url find_parts asked) _ (parse_url-SameHead find_parts asked)
          (λ parsed same.
            Always->>=_any (λ (o : HttpRequest × Bytes). SameHead asked o.0) (origin parsed) _
              (λ text. same)))
        (λ o (headers, method). (o.1, ap (insert case_less origin_key o.1) headers, method))
    where
      asked : HttpRequest
      asked = record r { headers = client_headers (base64_encode random_bytes) r.headers }

  status_200 :
      (q : HttpRequest)
      → ((check_header q).status_code == 200) ≡ true
      → (check_header q).status_code ≡ 200
  status_200 q ok = (==_iff (check_header q).status_code 200).0 ok

  -- A request that a client builds, of a `GET` that has none of the headers of the handshake yet,
  -- passes the check of a server, which answers the client's key: the random bytes in base64, with
  -- the fixed text behind them.
  pub check_header-build_request :
      (r q : HttpRequest)
      → r.method ≡ http_get
      → IsPlain r.headers
      → build_request base64_encode random_bytes find_parts r ≡ ret q
      → ((check_header q).status_code ≡ 200)
        × (calc_accept_key base64_encode sha1_bin q
            ≡ base64_encode (sha1_bin (base64_encode random_bytes ++ ws_magic_key)))
  unfolding has_text occurs starts_with lower to_lower c_str atoi signed_value number
      calc_accept_key find
  check_header-build_request r q get plain returns =
      let (text, headers, method) =
        Always_eq (Built r) (build_request base64_encode random_bytes find_parts r)
          (build_request-Built r) returns in
      let key = base64_encode random_bytes in
      let upgrade =
        ap (find case_less upgrade_key) headers ∙ sent-upgrade text key r.headers plain in
      let connection =
        ap (find case_less connection_key) headers ∙ sent-connection text key r.headers plain in
      let version =
        ap (find case_less ws_version_key) headers ∙ sent-version text key r.headers plain in
      let own_key = ap (find case_less ws_key) headers ∙ sent-key text key r.headers plain in
      (
        status_200 q (
            (check_header-AsksUpgrade q).1 (
              ap (λ n. n == http_get) (method ∙ get),
              rw (has_header, upgrade) refl,
              rw (has_header, connection) refl,
              rw (has_version, version) refl,
            )),
        rw (calc_accept_key, own_key) refl,
      )
