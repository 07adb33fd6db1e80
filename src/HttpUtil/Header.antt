-- ===== src/HttpUtil/Header.antt =====
-- `HttpUtil::normalizeHeader`.
use libtnet.Base.{
  ℕ, ◌≡◌, ◌↔◌, refl, sym, ap, ap₂, ◌∙◌, Bool, true, false, [], ◌∷◌, ◌==◌, if◌then◌else◌,
}
use libtnet.Base.Bytes.{Bytes}
use libtnet.HttpUtil.{capitalise, normalize_header}
use libtnet.StringUtil.{to_lower, to_upper, lower}
use libtnet.StringUtil.Case.{to_lower-to_upper, lower-lower}

step_lower : (up : Bool) (c : ℕ) → to_lower (if up then to_upper c else c) ≡ to_lower c
step_lower true c = to_lower-to_upper c
step_lower false c = refl

lower-capitalise : (s : Bytes) (up : Bool) → lower (capitalise up s) ≡ lower s
unfolding capitalise lower
lower-capitalise [] up = refl
lower-capitalise (c ∷ cs) up =
    let c' = if up then to_upper c else c in
    ap₂ (λ x xs. x ∷ xs) (step_lower up c) (lower-capitalise cs (c' == b'-'))

lower-normalize_header : (s : Bytes) → lower (normalize_header s) ≡ lower s
unfolding normalize_header
lower-normalize_header s = lower-capitalise (lower s) true ∙ lower-lower s

-- Two names of headers are normalized to the same name exactly when they differ in case only; and
-- normalizing twice is normalizing once.
pub normalize_header_canonical :
    (a b : Bytes)
    → ((normalize_header a ≡ normalize_header b) ↔ (lower a ≡ lower b))
      × (normalize_header (normalize_header a) ≡ normalize_header a)
unfolding normalize_header
normalize_header_canonical a b = (
  (
    λ e. sym (lower-normalize_header a) ∙ ap lower e ∙ lower-normalize_header b,
    λ e. ap (capitalise true) e,
  ),
  ap (capitalise true) (lower-normalize_header a),
)
