-- ===== src/HttpRequest.antt =====
-- http/httprequest.h and http/httprequest.cpp, and `CaseKeyCmp` of http/tnet_http.h.
-- `http_parser_parse_url` and `http_method_str` are parameters. `c_str` ends at a byte 0; `snprintf`
-- writes into 1024 bytes, and a longer text is read past the buffer. The sizes of texts
-- fit an `int`.
pub mod Body
pub mod Examples
pub mod Form
pub mod Json
pub mod Number
pub mod Text
use libtnet.Base.{
  ℕ, zero, suc, ◌+◌, ◌-◌, ◌^◌, Bool, true, false, not, ◌&&◌, ◌||◌, List, [], ◌∷◌, ◌++◌, Option,
  none, some, ltb, leb, ◌==◌, if◌then◌else◌, length, take, drop,
}
use libtnet.Base.Bytes.{Bytes, codes, same}
use libtnet.Base.Decimal.{show, number, is_digit}
use libtnet.Base.Int.{ℤ, pos, negsuc}
use libtnet.Base.Multimap.{Multimap, less, insert, find, find_all, erase}
use libtnet.Base.Outcome.{Outcome, ret, fault, out_of_bounds, invalid_argument, unfinished, ◌>>=◌}
use libtnet.HttpRequest.Form.{parse_form_data}
use libtnet.HttpRequest.Json.{JsonNode, add_json_node}
use libtnet.HttpRequest.Text.{c_str, case_less, printed, line_end, colon, header_line, dump_headers}
use libtnet.HttpRequest.Number.{stoi}
use libtnet.HttpUtil.{unescape}
use libtnet.StringUtil.{lower, split}

-- `http_method`, of which the code compares these.
abbrev pub http_get : ℕ
http_get = 1

abbrev pub http_post : ℕ
http_post = 3

abbrev pub http_put : ℕ
http_put = 4

pub record HttpRequest : Type 0 where
  pub url : Bytes
  pub body : Bytes
  pub schema : Bytes
  pub host : Bytes
  pub path : Bytes
  pub query : Bytes
  pub headers : Multimap
  pub params : Multimap
  pub major_version : ℕ
  pub minor_version : ℕ
  pub method : ℕ
  pub port : ℕ
  pub keep_alive : ℤ

-- The constructor; `port` is as it is found.
unfoldable pub make : ℕ → HttpRequest
make port = record {
  url = [];
  body = [];
  schema = [];
  host = [];
  path = [];
  query = [];
  headers = [];
  params = [];
  major_version = 1;
  minor_version = 1;
  method = http_get;
  port = port;
  keep_alive = pos 0;
}

unfoldable pub clear : HttpRequest → HttpRequest
unfolding make
clear r = make 80

-- `struct http_parser_url`: where the parts stand that were found, and the port.
pub record UrlParts : Type 0 where
  pub schema_at : Option (ℕ × ℕ)
  pub host_at : Option (ℕ × ℕ)
  pub port_found : Option ℕ
  pub path_at : Option (ℕ × ℕ)
  pub query_at : Option (ℕ × ℕ)

abbrev pub is_empty : Bytes → Bool
is_empty [] = true
is_empty (b ∷ bs) = false

-- `url.substr(off, len)` in place of `old`, if the part was found
pub part : Bytes → Bytes → Option (ℕ × ℕ) → Outcome Bytes
part url old none = ret old
part url old (some (off, len)) =
    if ltb (length url) off then fault out_of_bounds else ret (take len (drop off url))

-- One argument of `parseKeyVal`, split at `=`.
unfoldable pub add_arg : List Bytes → Multimap → Outcome Multimap
add_arg (key ∷ value ∷ []) params = do
  key' ← unescape key
  value' ← unescape value
  ret (insert less key' value' params)
add_arg (key ∷ []) params = do key' ← unescape key; ret (insert less key' [] params)
add_arg _ params = ret params

unfoldable pub add_args : List Bytes → Multimap → Outcome Multimap
unfolding add_arg
add_args [] params = ret params
add_args (arg ∷ args) params = do
  p ← split arg (b'=' ∷ []) (2 ^ 64 - 1)
  params' ← add_arg p params
  add_args args params'

unfoldable pub parse_key_val : Bytes → HttpRequest → Outcome HttpRequest
unfolding add_args
parse_key_val str r = elim str [
  | [] ↦ ret r
  | c ∷ cs ↦ do
    args ← split (c ∷ cs) (b'&' ∷ []) (2 ^ 64 - 1)
    params ← add_args args r.params
    ret (record r { params = params })
]

unfoldable pub parse_query : HttpRequest → Outcome HttpRequest
unfolding parse_key_val
parse_query r = parse_key_val r.query r

-- The port that goes without saying.
pub default_port : Bytes → ℕ
unfolding c_str
default_port schema =
    let name = lower (c_str schema) in
    if same name (codes "https") || same name (codes "wss") then 443 else 80

pub port_of : Option ℕ → Bytes → ℕ
unfolding default_port
port_of none schema = default_port schema
port_of (some p) schema = p

unfoldable pub parse_host : HttpRequest → HttpRequest
unfolding case_less
parse_host r = elim (find case_less (codes "X-Real-Ip") r.headers) [
  | some host ↦ record r { host = host }
  | none ↦ elim (find case_less (codes "host") r.headers) [
    | some host ↦ record r { host = host }
    | none ↦ r
  ]
]

-- `substr(0, find(';'))`, and the text behind it
pub cut_at_semicolon : Bytes → Bytes × Option Bytes
cut_at_semicolon [] = ([], none)
cut_at_semicolon (c ∷ s) =
    let (key, rest) = cut_at_semicolon s in if c == b';' then ([], some s) else (c ∷ key, rest)

-- The text from the first `-` on.
pub from_dash : Bytes → Bytes
from_dash [] = []
from_dash (c ∷ s) = let later = from_dash s in if c == b'-' then c ∷ s else later

-- The key and the boundary of a content type.
pub content_type_parts : Bytes → Bytes × Bytes
unfolding cut_at_semicolon from_dash
content_type_parts value = elim (cut_at_semicolon value).1 [
  | none ↦ (value, [])
  | some rest ↦ ((cut_at_semicolon value).0, from_dash rest)
]

unfoldable pub parse_keep_alive : HttpRequest → Outcome HttpRequest
unfolding case_less stoi
parse_keep_alive r = elim (find case_less (codes "Connection") r.headers) [
  | none ↦ ret r
  | some value ↦
      if same value (codes "close")
      then ret (record r { keep_alive = negsuc 0 })
      else if same value (codes "keep-alive")
      then elim (find case_less (codes "Keep-Alive") r.headers) [
        | none ↦ ret (record r { keep_alive = pos 0 })
        | some _ ↦ do n ← stoi value; ret (record r { keep_alive = n })
      ]
      else ret r
]

module _ (http_parser_parse_url : Bytes → Option UrlParts) where
  unfoldable pub parse_url : HttpRequest → Outcome HttpRequest
  unfolding part port_of parse_query
  parse_url r = if not (is_empty r.schema) then ret r else elim (http_parser_parse_url r.url) [
    | none ↦ ret r
    | some u ↦ do
      schema ← part r.url r.schema u.schema_at
      host ← part r.url r.host u.host_at
      path ← part r.url r.path u.path_at
      query ← part r.url r.query u.query_at
      let parsed = record r {
        schema = schema;
        host = host;
        port = port_of u.port_found schema;
        path = path;
        query = query;
      }
      elim u.query_at [ none ↦ ret parsed | some _ ↦ parse_query parsed ]
  ]

module _ (parse_document : Bytes → Option JsonNode) where
  unfoldable pub parse_json : Bytes → HttpRequest → Outcome HttpRequest
  parse_json str r = elim (parse_document (c_str str)) [
    | none ↦ ret r
    | some doc ↦ do params ← add_json_node [] doc r.params; ret (record r { params = params })
  ]

  -- What a content type asks for.
  unfoldable pub parse_as : Bytes → Bytes → HttpRequest → Outcome HttpRequest
  unfolding parse_key_val parse_json
  parse_as key boundary r =
      if same key (codes "application/form-data") || same key (codes "multipart/form-data")
      then (do
        params ← parse_form_data r.body boundary r.params
        ret (record r { params = params }))
      else if same key (codes "application/x-www-form-urlencoded")
      then parse_key_val r.body r
      else if same key (codes "application/json")
      then parse_json r.body r
      else ret r

  unfoldable pub parse_content_types : List Bytes → HttpRequest → Outcome HttpRequest
  unfolding content_type_parts parse_as
  parse_content_types [] r = ret r
  parse_content_types (value ∷ values) r = do
    r' ← parse_as (content_type_parts value).0 (content_type_parts value).1 r
    parse_content_types values r'

  unfoldable pub parse_content_type : HttpRequest → Outcome HttpRequest
  unfolding parse_content_types case_less
  parse_content_type r = parse_content_types (find_all case_less (codes "Content-Type") r.headers) r

  unfoldable pub parse_body : HttpRequest → Outcome HttpRequest
  unfolding parse_host parse_content_type parse_keep_alive
  parse_body r = do r' ← parse_content_type (parse_host r); parse_keep_alive r'

module _ (http_method_str : ℕ → Bytes) (http_parser_parse_url : Bytes → Option UrlParts) where
  -- The first line.
  pub request_line : HttpRequest → Bytes
  request_line r =
      let version =
        codes " HTTP/" ++ (show r.major_version ++ (b'.' ∷ (show r.minor_version ++ line_end))) in
      let target =
        if is_empty r.query then c_str r.path else c_str r.path ++ (b'?' ∷ c_str r.query) in
      http_method_str r.method ++ (32 ∷ (target ++ version))

  abbrev pub with_path : HttpRequest → HttpRequest
  with_path r = if is_empty r.path then record r { path = b'/' ∷ [] } else r

  -- The value of the header `Host`.
  pub host_value : HttpRequest → Outcome Bytes
  unfolding printed c_str
  host_value r =
      if r.port == 80 || r.port == 443
      then ret r.host
      else printed (c_str r.host ++ (b':' ∷ show r.port))

  pub sent_headers : HttpRequest → Bytes → Multimap
  unfolding case_less
  sent_headers r host =
      let hosted =
        insert case_less (codes "Host") host (erase case_less (codes "Host") r.headers) in
      if r.method == http_post || r.method == http_put
      then insert case_less (codes "Content-Length") (show (length r.body))
          (erase case_less (codes "Content-Length") hosted)
      else hosted

  unfoldable pub dump : HttpRequest → Outcome (HttpRequest × Bytes)
  unfolding parse_url request_line host_value sent_headers dump_headers
  dump r = do
    parsed ← parse_url http_parser_parse_url r
    let q = with_path parsed
    first ← printed (request_line q)
    host ← host_value q
    let headers = sent_headers q host
    lines ← dump_headers headers
    ret (record q { headers = headers }, first ++ (lines ++ (line_end ++ q.body)))
