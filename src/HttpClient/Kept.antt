-- ===== src/HttpClient/Kept.antt =====
-- http/httpclient.cpp: which of the connectors that are kept a request gets.
use libtnet.Base.{
  ℕ, zero, suc, ◌≤◌, ◌<◌, ◌≡◌, refl, sym, ap, subst, ◌∙◌, Bool, true, false, List, [], ◌∷◌, Option,
  none, some, ◌==◌, if◌then◌else◌, on_branches, Bool-cases, inl, inr, arith, length, leb, leb→le,
}
use libtnet.Base.Bytes.{Bytes}
use libtnet.Base.Outcome.{ret, ◌>>=◌}
use libtnet.HttpRequest.{HttpRequest, UrlParts, parse_url, dump}
use libtnet.HttpResponse.{HttpResponse}
use libtnet.HttpConnector.{response_complete}
use libtnet.HttpClient.{
  HttpClient, IpConn, ask, called, sent, set_callback, insert, find, erase, pop_rounds, pop_conn,
  push_conn, on_response, request, send_request,
}

-- The connectors of an address, in order.
abbrev pub under : ℕ → IpConn → List ℕ
under ip [] = []
under ip ((k, v) ∷ m) = let later = under ip m in if k == ip then v ∷ later else later

abbrev head : List ℕ → Option ℕ
head [] = none
head (x ∷ xs) = some x

abbrev tail : List ℕ → List ℕ
tail [] = []
tail (x ∷ xs) = xs

-- The first that is alive, and those behind it.
abbrev pub first : (ℕ → Bool) → List ℕ → Option ℕ
first alive [] = none
first alive (x ∷ xs) = let later = first alive xs in if alive x then some x else later

abbrev pub behind : (ℕ → Bool) → List ℕ → List ℕ
behind alive [] = []
behind alive (x ∷ xs) = let later = behind alive xs in if alive x then xs else later

find-under : (ip : ℕ) (m : IpConn) → find ip m ≡ head (under ip m)
unfolding find
find-under ip [] = refl
find-under ip ((k, v) ∷ m) =
    on_branches (λ l. (if k == ip then some v else find ip m) ≡ head l) (k == ip)
      (λ e. ap (λ b. if b then some v else find ip m) e)
      (λ e. ap (λ b. if b then some v else find ip m) e ∙ find-under ip m)

under-erase_self : (ip : ℕ) (m : IpConn) → under ip (erase ip m) ≡ tail (under ip m)
unfolding erase
under-erase_self ip [] = refl
under-erase_self ip ((k, v) ∷ m) = elim (Bool-cases (k == ip)) [
  | inl e ↦ rw e refl
  | inr e ↦ rw (e, e) (under-erase_self ip m)
]

under-erase_ne : (i ip : ℕ) (m : IpConn) → (i == ip) ≡ false → under i (erase ip m) ≡ under i m
unfolding erase
under-erase_ne i ip [] ne = refl
under-erase_ne i ip ((k, v) ∷ m) ne = ground (arith, under-erase_ne i ip m ne)

length-erase : (ip : ℕ) (m : IpConn) → length (erase ip m) ≤ length m
unfolding erase
length-erase ip [] = omega arith
length-erase ip ((k, v) ∷ m) = ground (arith, length-erase ip m)

-- What `popConn` finds, what it leaves under the address, and under others.
record Popped (alive : ℕ → Bool) (ip : ℕ) (before : IpConn) (n : ℕ) : Type 0 where
  after : IpConn
  returns : pop_rounds alive ip n before ≡ ret (after, first alive (under ip before))
  left : under ip after ≡ behind alive (under ip before)
  others : (i : ℕ) → (i == ip) ≡ false → under i after ≡ under i before

skipped :
    (alive : ℕ → Bool) (ip n x : ℕ) (m : IpConn)
    → find ip m ≡ some x
    → alive x ≡ false
    → pop_rounds alive ip (suc n) m ≡ pop_rounds alive ip n (erase ip m)
unfolding pop_rounds
skipped alive ip n x m found gone = rw (pop_rounds, found, gone) refl

pops : (alive : ℕ → Bool) (ip n : ℕ) (m : IpConn) → length (under ip m) < n → Popped alive ip m n
unfolding pop_rounds
pops alive ip zero m enough = absurd (omega arith)
pops alive ip (suc n) m enough = by_first (pops alive ip n) (under ip m) refl
  where
    skipped_first :
        {x : ℕ} {xs : List ℕ}
        → under ip m ≡ x ∷ xs
        → alive x ≡ false
        → first alive (under ip m) ≡ first alive xs
    skipped_first e gone = rw (e, gone) refl

    by_first :
        ((l : IpConn) → length (under ip l) < n → Popped alive ip l n)
        → (l : List ℕ) → under ip m ≡ l
        → Popped alive ip m (suc n)
    by_first next [] e = record {
      after = m;
      returns = rw (pop_rounds, find-under ip m, e) refl;
      left = e ∙ ap (behind alive) (sym e);
      others = λ i ne. refl;
    }
    by_first next (x ∷ xs) e =
        let fewer = under-erase_self ip m ∙ ap tail e in
        let sizes = ap length fewer in
        let all = ap length e in
        let rest = next (erase ip m) (omega arith) in
        elim (Bool-cases (alive x)) [
          | inl lives ↦ record {
            after = erase ip m;
            returns = rw (pop_rounds, find-under ip m, e, lives) refl;
            left = fewer ∙ rw (e, lives) refl;
            others = λ i ne. under-erase_ne i ip m ne;
          }
          | inr gone ↦ record {
            after = rest.after;
            returns =
                skipped alive ip n x m (find-under ip m ∙ ap head e) gone
                ∙ rest.returns
                ∙ ap (λ o. ret (rest.after, o))
                    (ap (first alive) fewer ∙ sym (skipped_first e gone));
            left = rest.left ∙ ap (behind alive) fewer ∙ rw (e, gone) refl;
            others = λ i ne. rest.others i ne ∙ under-erase_ne i ip m ne;
          }
        ]

length-under : (ip : ℕ) (m : IpConn) → length (under ip m) ≤ length m
length-under ip [] = omega arith
length-under ip ((k, v) ∷ m) = ground (arith, length-under ip m)

-- Whatever is kept, the loop of `popConn` ends, and gives the first connector of the address that is
-- alive, or none if there is none; those before it are forgotten, those behind it are kept in order,
-- and those of other addresses stay.
pub pop_conn-first :
    (alive : ℕ → Bool) (ip : ℕ) (c : HttpClient)
    → (m : IpConn) × (pop_conn alive ip c
        ≡ ret (record c { conns = m }, first alive (under ip c.conns)))
      × (under ip m ≡ behind alive (under ip c.conns))
      × ((i : ℕ) → (i == ip) ≡ false → under i m ≡ under i c.conns)
unfolding pop_conn
pop_conn-first alive ip c =
    let fits = length-under ip c.conns in
    let p = pops alive ip (suc (length c.conns)) c.conns (omega arith) in
    (
      p.after,
      ap (λ r. r >>= λ (x : IpConn × Option ℕ). ret (record c { conns = x.0 }, x.1)) p.returns,
      p.left,
      p.others,
    )

under-insert_self :
    (ip conn : ℕ) (m : IpConn) → under ip m ≡ [] → under ip (insert ip conn m) ≡ conn ∷ []
unfolding insert
under-insert_self ip conn [] none_there = ground arith
under-insert_self ip conn ((k, v) ∷ m) none_there = ground (arith, under-insert_self ip conn m)

under-insert_ne :
    (i ip conn : ℕ) (m : IpConn) → (i == ip) ≡ false → under i (insert ip conn m) ≡ under i m
unfolding insert
under-insert_ne i ip conn [] ne = ground arith
under-insert_ne i ip conn ((k, v) ∷ m) ne = ground (arith, under-insert_ne i ip conn m ne)

kept :
    (ip conn name : ℕ) (resp : HttpResponse) (c : HttpClient)
    → length c.conns < c.max_clients
    → ask (called name resp) (record (set_callback conn none c) { conns = insert ip conn c.conns })
      ≡ on_response true (some ip) conn resp response_complete name c
unfolding on_response push_conn
kept ip conn name resp c room = ap (ask (called name resp)) (
    on_branches (λ d. record (set_callback conn none c) { conns = insert ip conn c.conns } ≡ d)
      (leb c.max_clients (length c.conns)) (λ b. let full = leb→le _ _ b in absurd (omega arith))
      (λ b. refl))

request-popped :
    (http_method_str : ℕ → Bytes) (find_parts : Bytes → Option UrlParts) (address : Bytes → ℕ)
    (alive : ℕ → Bool) (name : ℕ) (r r' q : HttpRequest) (text : Bytes) (c : HttpClient)
    (popped : HttpClient × Option ℕ)
    → parse_url find_parts r ≡ ret r'
    → dump http_method_str find_parts r' ≡ ret (q, text)
    → pop_conn alive (address r'.host) c ≡ ret popped
    → request http_method_str find_parts address alive r name c
      ≡ ret (send_request (address r'.host) r'.port text name popped)
unfolding request
request-popped ms fp address alive name r r' q text c popped parsed dumped found =
    rw (request, parsed, found, dumped) refl

-- A connector whose response is complete serves the next request to its address: if there is room
-- for it and none is kept for that address, and it is still alive, the request goes out on it, no
-- other is made, and nothing stays for that address. The target of the request is parsed and the
-- request can be written.
pub request-reuses :
    (http_method_str : ℕ → Bytes) (find_parts : Bytes → Option UrlParts) (address : Bytes → ℕ)
    (alive : ℕ → Bool) (conn name next : ℕ) (resp : HttpResponse) (r r' q : HttpRequest)
    (text : Bytes) (c : HttpClient)
    → length c.conns < c.max_clients
    → under (address r'.host) c.conns ≡ []
    → alive conn ≡ true
    → parse_url find_parts r ≡ ret r'
    → dump http_method_str find_parts r' ≡ ret (q, text)
    → let after = on_response true (some (address r'.host)) conn resp response_complete name c in
      (m : IpConn) × (request http_method_str find_parts address alive r next after
        ≡ ret (ask (sent conn text) (set_callback conn (some next) (record after { conns = m }))))
      × (under (address r'.host) m ≡ [])
      × ((i : ℕ) → (i == address r'.host) ≡ false → under i m ≡ under i c.conns)
unfolding send_request
request-reuses ms fp address alive conn name next resp r r' q text c room alone lives parsed
      dumped =
    let (m, found, left, others) = pop_conn-first alive (address r'.host) d in
    subst
      (λ (d : HttpClient).
        (m : IpConn) × (request ms fp address alive r next d
          ≡ ret (ask (sent conn text) (set_callback conn (some next) (record d { conns = m }))))
        × (under (address r'.host) m ≡ [])
        × ((i : ℕ) → (i == address r'.host) ≡ false → under i m ≡ under i c.conns))
      (kept (address r'.host) conn name resp c room)
      (
        m,
        request-popped ms fp address alive next r r' q text d (record d { conns = m }, some conn)
            parsed dumped
            (found ∙ ap (λ o. ret (record d { conns = m }, o)) (ap (first alive) only ∙ is_first)),
        left ∙ ap (behind alive) only ∙ is_last,
        λ i ne. others i ne ∙ under-insert_ne i (address r'.host) conn c.conns ne,
      )
  where
    d : HttpClient
    d =
        ask (called name resp)
          (record (set_callback conn none c) { conns = insert (address r'.host) conn c.conns })

    only : under (address r'.host) d.conns ≡ conn ∷ []
    only = under-insert_self (address r'.host) conn c.conns alone

    is_first : first alive (conn ∷ []) ≡ some conn
    is_first = rw lives refl

    is_last : behind alive (conn ∷ []) ≡ []
    is_last = rw lives refl
