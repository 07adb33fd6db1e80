-- ===== src/Log/Names.antt =====
-- log.cpp: what is left of the name of a file.
use libtnet.Base.{
  ℕ, suc, ◌+◌, ◌<◌, ◌≡◌, refl, ap, ap₂, ◌∙◌, true, false, [], ◌∷◌, ◌++◌, ltb, lt→ltb, if◌then◌else◌,
  drop, length, All, arith,
}
use libtnet.Base.Bytes.{Bytes}
use libtnet.Log.{is_separator, scan, base_name}

-- No byte is a separator.
abbrev pub IsPlain : Bytes → Type 0
IsPlain = All (λ c. is_separator c ≡ false)

scan-plain :
    (c : ℕ) (name : Bytes) (pos fpos : ℕ)
    → IsPlain name
    → scan (c ∷ name) pos fpos ≡ (pos + suc (length name), fpos)
unfolding scan
scan-plain c [] pos fpos plain = refl
scan-plain c (d ∷ name) pos fpos (e, plain) =
    ap (λ b. scan (d ∷ name) (pos + 1) (if b then pos + 1 else fpos)) e
    ∙ scan-plain d name (pos + 1) fpos plain
    ∙ ap (λ n. (n, fpos)) (omega arith)

scan-append :
    (c s : ℕ) (dir name : Bytes) (pos fpos : ℕ)
    → is_separator s ≡ true
    → IsPlain name
    → scan (c ∷ dir ++ s ∷ name) pos fpos
      ≡ (pos + suc (length dir) + suc (length name), pos + suc (length dir))
unfolding scan
scan-append c s [] name pos fpos e plain =
    ap (λ b. scan (s ∷ name) (pos + 1) (if b then pos + 1 else fpos)) e
    ∙ scan-plain s name (pos + 1) (pos + 1) plain
scan-append c s (d ∷ dir) name pos fpos e plain =
    scan-append d s dir name (pos + 1) _ e plain ∙ ap₂ (λ m n. (m, n)) (omega arith) (omega arith)

drop-behind : (dir name : Bytes) (s : ℕ) → drop (length dir + 1) (dir ++ s ∷ name) ≡ name
drop-behind [] name s = refl
drop-behind (d ∷ dir) name s =
    ap (λ k. drop k (d ∷ dir ++ s ∷ name)) (suc_last (length dir)) ∙ drop-behind dir name s
  where
    suc_last : (n : ℕ) → suc n + 1 ≡ suc (n + 1)
    suc_last n = omega arith

-- What is left when the last separator is before the end.
cut_at :
    (file : Bytes) (pos fpos : ℕ)
    → scan file 0 0 ≡ (pos, fpos)
    → fpos < pos
    → base_name file ≡ drop (fpos + 1) file
unfolding base_name
cut_at file pos fpos e l =
    ap (λ (r : ℕ × ℕ). if ltb r.1 r.0 then drop (r.1 + 1) file else file) e
    ∙ ap (λ b. if b then drop (fpos + 1) file else file) (lt→ltb fpos pos l)

-- Of a name with a directory what stands behind the last separator is left; of a name without one
-- the first byte is lost.
pub base_name-append :
    (c s : ℕ) (dir name : Bytes)
    → is_separator s ≡ true
    → IsPlain name
    → (base_name (c ∷ dir ++ s ∷ name) ≡ name) × (base_name (c ∷ name) ≡ name)
base_name-append c s dir name e plain = (
  cut_at (c ∷ dir ++ s ∷ name) _ _ (scan-append c s dir name 0 0 e plain) (omega arith)
      ∙ ap (λ k. drop k (c ∷ dir ++ s ∷ name)) (from_zero (length dir))
      ∙ drop-behind (c ∷ dir) name s,
  cut_at (c ∷ name) _ _ (scan-plain c name 0 0 plain) (omega arith),
)
  where
    from_zero : (n : ℕ) → 0 + suc n + 1 ≡ suc n + 1
    from_zero n = omega arith
