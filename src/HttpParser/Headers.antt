-- ===== src/HttpParser/Headers.antt =====
-- http/httpparser.cpp: however the library cuts the names and the values of headers.
use libtnet.Base.{
  ℕ, ◌<◌, ◌≡◌, refl, sym, ap, ◌∙◌, Bool, true, false, List, [], ◌∷◌, ◌++◌, append-nil, append_assoc,
  arith, length, All,
}
use libtnet.Base.Bytes.{Bytes}
use libtnet.Base.Outcome.{◌>>=◌}
use libtnet.HttpParser.{
  HttpParser, Virtual, ParserView, ParserEvent, header_field, header_value, headers_complete,
  and_then, flush_header, handle_header_field, handle_header_value, handle_headers_complete,
  on_parser, feed,
}
use libtnet.HttpUtil.{normalize_header}

-- A header as the library hands it over, in pieces of its name and of its value.
pub record Pieces : Type 0 where
  pub names : List (ParserView × Bytes)
  pub values : List (ParserView × Bytes)

abbrev pub joined : List (ParserView × Bytes) → Bytes
joined [] = []
joined ((w, b) ∷ ps) = b ++ joined ps

abbrev pub name_events : List (ParserView × Bytes) → List (ParserView × ParserEvent)
name_events [] = []
name_events ((w, b) ∷ ps) = (w, header_field b) ∷ name_events ps

abbrev pub value_events : List (ParserView × Bytes) → List (ParserView × ParserEvent)
value_events [] = []
value_events ((w, b) ∷ ps) = (w, header_value b) ∷ value_events ps

abbrev pub header_events : List Pieces → List (ParserView × ParserEvent)
header_events [] = []
header_events (h ∷ hs) = name_events h.names ++ (value_events h.values ++ header_events hs)

-- The name is not empty, the library calls for the value at least once, and what the callbacks read
-- of the parser while the name comes in is as `Fits` says.
abbrev pub IsHeader : (ParserView → Type 0) → Pieces → Type 0
IsHeader Fits h =
    (0 < length (joined h.names)) × (0 < length h.values) × All (λ n. Fits n.0) h.names

module _ {S : Type 0} (v : Virtual S) (note : Bytes → Bytes → S → S) (Fits : ParserView → Type 0)
    (plain : (w : ParserView) (f x : Bytes) (p : HttpParser S)
      → Fits w
      → v.on_header w f x p ≡ record p { derived = note f x p.derived }) where
  -- The headers, each noted once under its normalized name.
  abbrev pub note_all : List Pieces → S → S
  note_all [] s = s
  note_all (h ∷ hs) s = note_all hs (note (normalize_header (joined h.names)) (joined h.values) s)

  abbrev state : Bytes → Bytes → Bool → ℕ → S → HttpParser S
  state f x b e s = record {
    cur_field = f;
    cur_value = x;
    last_was_value = b;
    error_code = e;
    derived = s;
  }

  feed_values :
      (ps : List (ParserView × Bytes)) (es : List (ParserView × ParserEvent)) (f x : Bytes) (e : ℕ)
      (s : S)
      → feed v (value_events ps ++ es) (state f x true e s)
        ≡ feed v es (state f (x ++ joined ps) true e s)
  unfolding feed on_parser handle_header_value
  feed_values [] es f x e s = ap (λ y. feed v es (state f y true e s)) (sym (append-nil x))
  feed_values ((w, b) ∷ ps) es f x e s =
      feed_values ps es f (x ++ b) e s
      ∙ ap (λ y. feed v es (state f y true e s)) (append_assoc x b (joined ps))

  feed_names :
      (ps : List (ParserView × Bytes)) (es : List (ParserView × ParserEvent)) (f x : Bytes) (e : ℕ)
      (s : S)
      → feed v (name_events ps ++ es) (state f x false e s)
        ≡ feed v es (state (f ++ joined ps) x false e s)
  unfolding feed on_parser handle_header_field
  feed_names [] es f x e s = ap (λ y. feed v es (state y x false e s)) (sym (append-nil f))
  feed_names ((w, b) ∷ ps) es f x e s =
      feed_names ps es (f ++ b) x e s
      ∙ ap (λ y. feed v es (state y x false e s)) (append_assoc f b (joined ps))

  -- The header in hand, noted if there is one.
  abbrev flushed : Bytes → Bytes → S → S
  flushed [] x s = s
  flushed (c ∷ f) x s = note (normalize_header (c ∷ f)) x s

  flush_header-state :
      (w : ParserView) (f x : Bytes) (b : Bool) (e : ℕ) (s : S)
      → Fits w
      → flush_header v w (state f x b e s) ≡ state f x b e (flushed f x s)
  unfolding flush_header
  flush_header-state w [] x b e s fits = refl
  flush_header-state w (c ∷ f) x b e s fits = plain w _ x (state (c ∷ f) x b e s) fits

  flushed_some :
      (f x : Bytes) (s : S) → 0 < length f → flushed f x s ≡ note (normalize_header f) x s
  flushed_some [] x s l = absurd (omega arith)
  flushed_some (c ∷ f) x s l = refl

  -- The first piece of a name ends the header before.
  feed_first :
      (w : ParserView) (b : Bytes) (es : List (ParserView × ParserEvent)) (f x : Bytes) (e : ℕ)
      (s : S)
      → Fits w
      → feed v ((w, header_field b) ∷ es) (state f x true e s)
        ≡ feed v es (state b [] false e (flushed f x s))
  unfolding feed on_parser handle_header_field
  feed_first w b es f x e s fits =
      ap (λ (p : HttpParser S). feed v es (state b [] false p.error_code p.derived))
        (flush_header-state w f x true e s fits)

  feed_header :
      (w u : ParserView) (b c : Bytes) (ns vs : List (ParserView × Bytes))
      (es : List (ParserView × ParserEvent)) (f x : Bytes) (e : ℕ) (s : S)
      → Fits w
      → feed v
          (name_events ((w, b) ∷ ns) ++ (value_events ((u, c) ∷ vs) ++ es))
          (state f x true e s)
        ≡ feed v es (state (b ++ joined ns) (c ++ joined vs) true e (flushed f x s))
  unfolding feed on_parser handle_header_value
  feed_header w u b c ns vs es f x e s fits =
      feed_first w b (name_events ns ++ (value_events ((u, c) ∷ vs) ++ es)) f x e s fits
      ∙ feed_names ns (value_events ((u, c) ∷ vs) ++ es) b [] e (flushed f x s)
      ∙ feed_values vs es (b ++ joined ns) c e (flushed f x s)

  -- What is left when the headers have been read: the last of them is still in hand.
  record Read (hs : List Pieces) (es : List (ParserView × ParserEvent)) (p : HttpParser S) (e : ℕ)
      (s : S) : Type 0 where
    name : Bytes
    value : Bytes
    noted : S
    whole : flushed name value noted ≡ note_all hs s
    fed : feed v (header_events hs ++ es) p ≡ feed v es (state name value true e noted)

  feed_headers :
      (hs : List Pieces) (es : List (ParserView × ParserEvent)) (f x : Bytes) (e : ℕ) (s : S)
      → All (IsHeader Fits) hs
      → Read hs es (state f x true e s) e (flushed f x s)
  feed_headers [] es f x e s ok = record {
    name = f;
    value = x;
    noted = s;
    whole = refl;
    fed = refl;
  }
  feed_headers (h ∷ hs) es f x e s ((some_name, some_value, fits), ok) =
      let rest = feed_headers hs es (joined h.names) (joined h.values) e (flushed f x s) ok in
      record {
        name = rest.name;
        value = rest.value;
        noted = rest.noted;
        whole =
            rest.whole
            ∙ ap (note_all hs)
                (flushed_some (joined h.names) (joined h.values) (flushed f x s) some_name);
        fed =
            ap (λ l. feed v l (state f x true e s))
              (append_assoc (name_events h.names) (value_events h.values ++ header_events hs) es
                ∙ ap (λ l. name_events h.names ++ l)
                    (append_assoc (value_events h.values) (header_events hs) es))
            ∙ cut h.names h.values (header_events hs ++ es) some_name some_value fits
            ∙ rest.fed;
      }
    where
      cut :
          (ns vs : List (ParserView × Bytes)) (es' : List (ParserView × ParserEvent))
          → 0 < length (joined ns)
          → 0 < length vs
          → All (λ n. Fits n.0) ns
          → feed v (name_events ns ++ (value_events vs ++ es')) (state f x true e s)
            ≡ feed v es' (state (joined ns) (joined vs) true e (flushed f x s))
      cut [] vs es' p q fit = absurd (omega arith)
      cut ((w, b) ∷ ns) [] es' p q fit = absurd (omega arith)
      cut ((w, b) ∷ ns) ((u, c) ∷ vs) es' p q fit = feed_header w u b c ns vs es' f x e s fit.0

  -- From the start of a message, however the library cuts names and values into pieces, and
  -- whatever it calls afterwards: when the headers are complete, each has been given to `onHeader`
  -- once, in order, under its normalized name and with its whole value, for every `onHeader` that
  -- touches the derived object only, as long as `Fits`, and names that are not empty.
  pub feed-header_events :
      (hs : List Pieces) (w : ParserView) (es : List (ParserView × ParserEvent)) (p : HttpParser S)
      → All (IsHeader Fits) hs
      → p.cur_field ≡ []
      → p.last_was_value ≡ true
      → Fits w
      → (q : HttpParser S) × (q.derived ≡ note_all hs p.derived)
        × (q.error_code ≡ p.error_code)
        × (feed v (header_events hs ++ (w, headers_complete) ∷ es) p
            ≡ (v.on_headers_complete w q >>= and_then (feed v es)))
  unfolding feed on_parser handle_headers_complete
  feed-header_events hs w es p ok no_field value_last fits =
      let r =
        feed_headers hs ((w, headers_complete) ∷ es) [] p.cur_value p.error_code p.derived ok in
      (
        state r.name r.value true p.error_code (flushed r.name r.value r.noted),
        r.whole,
        refl,
        ap (feed v (header_events hs ++ (w, headers_complete) ∷ es)) (same_state)
            ∙ r.fed
            ∙ ap (λ q. v.on_headers_complete w q >>= and_then (feed v es))
                (flush_header-state w r.name r.value true p.error_code r.noted fits),
      )
    where
      same_state : p ≡ state [] p.cur_value true p.error_code p.derived
      same_state = λ i. state (no_field i) p.cur_value (value_last i) p.error_code p.derived
