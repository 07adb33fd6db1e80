-- ===== src/HttpServer/Registered.antt =====
-- http/httpserver.cpp and http/httphandler.cpp: what setting a handler changes.
use mathlib.Core.List.{reverse}
use libtnet.Base.{
  ◌≡◌, refl, sym, ap, ◌∙◌, inl, inr, Bool, false, [], ◌∷◌, Option, none, some, ◌==◌, if◌then◌else◌,
  ==_iff, on_branches, on_option, Bool-cases,
}
use libtnet.Base.Bytes.{Bytes, same, same_sym, same_sound}
use libtnet.Base.Map.{Map, lookup, assign, lookup-assign_self, lookup-assign_ne}
use libtnet.Base.Outcome.{Outcome, ◌>>=◌}
use libtnet.HttpConnection.{Wire, Notice, upgraded, completed, in_error}
use libtnet.HttpRequest.{HttpRequest}
use libtnet.HttpServer.{
  HttpServer, HttpCallback, AuthCallback, CallbackNode, set_http_callback, set_http_callback_auth,
  guard, on_error, auth_request, if_authorised, on_complete, on_websocket, on_request,
  open_websocket, http_not_found_callback, without_quote, with_slash, handler_path, register,
  regist_handl,
}

module _ (at_once : Wire → Bytes → Bool) (base64_encode sha1_bin : Bytes → Bytes) where
  auth_request-elsewhere :
      (path : Bytes) (callback : HttpCallback) (auth : AuthCallback) (s : HttpServer)
      (r : HttpRequest) (w : Wire)
      → same r.path path ≡ false
      → auth_request at_once (set_http_callback_auth path callback auth s) r w
        ≡ auth_request at_once s r w
  unfolding auth_request set_http_callback_auth guard set_http_callback
  auth_request-elsewhere path callback auth s r w other =
      rw (auth_request, lookup-assign_ne r.path path auth s.auth_callbacks other) refl

  -- Setting a handler and what authorises for a path changes nothing for requests to other paths,
  -- whatever they ask for.
  pub on_request-elsewhere :
      (path : Bytes) (callback : HttpCallback) (auth : AuthCallback) (s : HttpServer) (n : Notice)
      (r : HttpRequest) (w : Wire)
      → same r.path path ≡ false
      → on_request at_once base64_encode sha1_bin
          (set_http_callback_auth path callback auth s)
          n
          r
          w
        ≡ on_request at_once base64_encode sha1_bin s n r w
  unfolding on_request on_complete on_websocket auth_request set_http_callback_auth guard
      set_http_callback
  on_request-elsewhere path callback auth s (upgraded buffer) r w other =
      ap
        (λ a. elim (lookup r.path s.ws_callbacks) as (λ _. Outcome Wire) [
          | none ↦ on_error at_once r (record { status_code = 404; message = [] }) w
          | some name ↦
              a
              >>= if_authorised at_once
                  (open_websocket at_once base64_encode sha1_bin name buffer r)
        ])
        (auth_request-elsewhere path callback auth s r w other)
  on_request-elsewhere path callback auth s (in_error code message) r w other = refl
  on_request-elsewhere path callback auth s completed r w other =
      rw (on_complete, lookup-assign_ne r.path path callback s.http_callbacks other)
        (ap
          (λ a. elim (lookup r.path s.http_callbacks) as (λ _. Outcome Wire) [
            | none ↦ http_not_found_callback at_once r w
            | some handler ↦ a >>= if_authorised at_once (handler r)
          ])
          (auth_request-elsewhere path callback auth s r w other))

abbrev HasSlash : Bytes → Type 0
HasSlash path = (rest : Bytes) × (path ≡ b'/' ∷ rest)

-- Every path starts with a slash, and has one entry.
abbrev pub IsTable : Map CallbackNode → Type 0
IsTable [] = Unit
IsTable ((path, node) ∷ funcs) = HasSlash path × (lookup path funcs ≡ none) × IsTable funcs

with_slash-HasSlash : (s : Bytes) → HasSlash (with_slash s)
with_slash-HasSlash [] = ([], refl)
with_slash-HasSlash (c ∷ s) =
    on_branches HasSlash (c == b'/') (λ b. (s, ap (λ x. x ∷ s) ((==_iff c b'/').0 b)))
      (λ b. (c ∷ s, refl))

assign-IsTable :
    (path : Bytes) (node : CallbackNode) (funcs : Map CallbackNode)
    → HasSlash path
    → IsTable funcs
    → IsTable (assign path node funcs)
unfolding assign lookup
assign-IsTable path node [] slash ok = (slash, refl, tt)
assign-IsTable path node ((p, n) ∷ funcs) slash (s, new, ok) =
    on_branches IsTable (same path p) (λ b. (s, new, ok))
      (λ b. (
        s,
        lookup-assign_ne p path node funcs (same_sym path p b) ∙ new,
        assign-IsTable path node funcs slash ok,
      ))

-- However handlers are registered, each path of the table starts with a slash and has one entry.
pub register-IsTable :
    (key : Bytes) (node : CallbackNode) (funcs : Map CallbackNode)
    → IsTable funcs
    → IsTable (register key node funcs)
unfolding register handler_path
register-IsTable [] node funcs ok = ok
register-IsTable (c ∷ key) node funcs ok =
    on_option IsTable (lookup (handler_path (c ∷ key)) funcs)
      (λ absent.
        assign-IsTable (handler_path (c ∷ key)) node funcs
          (with_slash-HasSlash (reverse (without_quote (reverse (without_quote (c ∷ key)))))) ok)
      (λ old e. ok)

-- What `registHandl` puts in: the handlers of the table, and what was there on other paths.
regist_handl-elsewhere :
    (path : Bytes) (funcs : Map CallbackNode) (s : HttpServer)
    → lookup path funcs ≡ none
    → lookup path (regist_handl funcs s).http_callbacks ≡ lookup path s.http_callbacks
unfolding regist_handl lookup set_http_callback
regist_handl-elsewhere path [] s absent = refl
regist_handl-elsewhere path ((p, node) ∷ funcs) s absent = elim (Bool-cases (same path p)) [
  | inl here ↦
      absurd (cc (sym (ap (λ c. if c then some node else lookup path funcs) here) ∙ absent))
  | inr there ↦
      regist_handl-elsewhere path funcs (set_http_callback p node.call s)
        (sym (ap (λ c. if c then some node else lookup path funcs) there) ∙ absent)
      ∙ lookup-assign_ne path p node.call s.http_callbacks there
]

-- A table of handlers as `_hdl_reg` makes it, given to a server by `registHandl`: each handler of
-- the table is the one that the server has for its path, and a path that is not in the table has
-- the handler that it had.
pub regist_handl-lookup :
    (path : Bytes) (funcs : Map CallbackNode) (s : HttpServer)
    → IsTable funcs
    → lookup path (regist_handl funcs s).http_callbacks
      ≡ elim (lookup path funcs) as (λ _. Option HttpCallback) [
        | none ↦ lookup path s.http_callbacks
        | some node ↦ some node.call
      ]
unfolding regist_handl lookup set_http_callback
regist_handl-lookup path [] s ok = refl
regist_handl-lookup path ((p, node) ∷ funcs) s (slash, new, ok) = elim (Bool-cases (same path p)) [
  | inl here ↦
      let is = same_sound path p here in
      ap (λ k. lookup k (regist_handl funcs (set_http_callback p node.call s)).http_callbacks) is
      ∙ regist_handl-elsewhere p funcs (set_http_callback p node.call s) new
      ∙ lookup-assign_self p node.call s.http_callbacks
      ∙ sym (ap (λ c. found (if c then some node else lookup path funcs)) here)
  | inr there ↦
      regist_handl-lookup path funcs (set_http_callback p node.call s) ok
      ∙ ap
          (λ o. elim (lookup path funcs) as (λ _. Option HttpCallback) [
            | none ↦ o
            | some n ↦ some n.call
          ])
          (lookup-assign_ne path p node.call s.http_callbacks there)
      ∙ sym (ap (λ c. found (if c then some node else lookup path funcs)) there)
]
  where
    found : Option CallbackNode → Option HttpCallback
    found o = elim o [ none ↦ lookup path s.http_callbacks | some n ↦ some n.call ]
