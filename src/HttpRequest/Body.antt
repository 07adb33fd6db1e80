-- ===== src/HttpRequest/Body.antt =====
-- http/httprequest.cpp: what is read of a request leaves its body as it is.
use libtnet.Base.{
  ◌^◌, ◌-◌, ◌≡◌, refl, ◌∙◌, not, ◌||◌, List, [], ◌∷◌, Option, on_branches, on_option, subst,
}
use libtnet.Base.Bytes.{Bytes, same, codes}
use libtnet.Base.Multimap.{find}
use libtnet.Base.Outcome.{Always, Always->>=, Always->>=_any}
use libtnet.StringUtil.{split}
use libtnet.HttpRequest.{
  HttpRequest, UrlParts, is_empty, part, add_args, content_type_parts, parse_url, parse_body,
  parse_key_val, parse_query, parse_host, parse_as, parse_json, parse_content_type,
  parse_content_types, parse_keep_alive,
}
use libtnet.HttpRequest.Text.{case_less}
use libtnet.HttpRequest.Number.{stoi}
use libtnet.HttpRequest.Form.{parse_form_data}
use libtnet.HttpRequest.Json.{JsonNode, add_json_node}
use libtnet.HttpRequest.Text.{c_str}

abbrev pub SameBody : Bytes → HttpRequest → Type 0
SameBody b r = r.body ≡ b

parse_key_val-body : (s : Bytes) (r : HttpRequest) → Always (SameBody r.body) (parse_key_val s r)
unfolding parse_key_val
parse_key_val-body [] r = refl
parse_key_val-body (c ∷ cs) r =
    Always->>=_any (SameBody r.body) (split (c ∷ cs) (b'&' ∷ []) (2 ^ 64 - 1)) _
      (λ args. Always->>=_any (SameBody r.body) (add_args args r.params) _ (λ params. refl))

pub parse_url-body :
    (find_parts : Bytes → Option UrlParts) (r : HttpRequest)
    → Always (SameBody r.body) (parse_url find_parts r)
unfolding parse_url parse_query
parse_url-body find_parts r =
    on_branches (Always (SameBody r.body)) (not (is_empty r.schema)) (λ b. refl)
      (λ b.
        on_option (Always (SameBody r.body)) (find_parts r.url) (λ absent. refl)
          (λ u is_u. Always->>=_any (SameBody r.body) (part r.url r.schema u.schema_at) _ (λ schema.
            Always->>=_any (SameBody r.body) (part r.url r.host u.host_at) _ (λ host.
              Always->>=_any (SameBody r.body) (part r.url r.path u.path_at) _ (λ path.
                Always->>=_any (SameBody r.body) (part r.url r.query u.query_at) _ (λ query.
                  on_option (Always (SameBody r.body)) u.query_at (λ absent. refl)
                    (λ q is_q. parse_key_val-body query _)))))))

parse_host-body : (r : HttpRequest) → SameBody r.body (parse_host r)
unfolding parse_host
parse_host-body r =
    on_option (SameBody r.body) (find case_less (codes "X-Real-Ip") r.headers)
      (λ no_ip.
        on_option (SameBody r.body) (find case_less (codes "host") r.headers) (λ absent. refl)
          (λ h e. refl))
      (λ h e. refl)

parse_keep_alive-body : (r : HttpRequest) → Always (SameBody r.body) (parse_keep_alive r)
unfolding parse_keep_alive
parse_keep_alive-body r =
    let keeps = Always (SameBody r.body) in
    on_option keeps (find case_less (codes "Connection") r.headers) (λ absent. refl)
      (λ value e.
        on_branches keeps (same value (codes "close")) (λ b. refl)
          (λ b.
            on_branches keeps (same value (codes "keep-alive"))
              (λ c.
                on_option keeps (find case_less (codes "Keep-Alive") r.headers) (λ absent. refl)
                  (λ w f. Always->>=_any (SameBody r.body) (stoi value) _ (λ n. refl)))
              (λ c. refl)))

module _ (parse_document : Bytes → Option JsonNode) where
  parse_json-body :
      (str : Bytes) (r : HttpRequest) → Always (SameBody r.body) (parse_json parse_document str r)
  unfolding parse_json
  parse_json-body str r =
      on_option (Always (SameBody r.body)) (parse_document (c_str str)) (λ absent. refl)
        (λ doc e.
          Always->>=_any (SameBody r.body) (add_json_node [] doc r.params) _ (λ params. refl))

  parse_as-body :
      (key boundary : Bytes) (r : HttpRequest)
      → Always (SameBody r.body) (parse_as parse_document key boundary r)
  unfolding parse_as
  parse_as-body key boundary r =
      let keeps = Always (SameBody r.body) in
      on_branches keeps
        (same key (codes "application/form-data") || same key (codes "multipart/form-data"))
        (λ b.
          Always->>=_any (SameBody r.body) (parse_form_data r.body boundary r.params) _ (λ p. refl))
        (λ b.
          on_branches keeps (same key (codes "application/x-www-form-urlencoded"))
            (λ c. parse_key_val-body r.body r)
            (λ c.
              on_branches keeps (same key (codes "application/json"))
                (λ d. parse_json-body r.body r) (λ d. refl)))

  parse_content_types-body :
      (values : List Bytes) (b : Bytes) (r : HttpRequest)
      → SameBody b r
      → Always (SameBody b) (parse_content_types parse_document values r)
  unfolding parse_content_types
  parse_content_types-body [] b r e = e
  parse_content_types-body (value ∷ values) b r e =
      Always->>= (SameBody r.body) (SameBody b)
        (parse_as parse_document (content_type_parts value).0 (content_type_parts value).1 r) _
        (parse_as-body _ _ r) (λ r' e'. parse_content_types-body values b r' (e' ∙ e))

  pub parse_body-body : (r : HttpRequest) → Always (SameBody r.body) (parse_body parse_document r)
  unfolding parse_body parse_content_type
  parse_body-body r =
      Always->>= (SameBody r.body) (SameBody r.body)
        (parse_content_type parse_document (parse_host r)) _
        (parse_content_types-body _ r.body (parse_host r) (parse_host-body r))
        (λ r' e.
          subst (λ b. Always (SameBody b) (parse_keep_alive r')) e (parse_keep_alive-body r'))
