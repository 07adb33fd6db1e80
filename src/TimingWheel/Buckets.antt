-- ===== src/TimingWheel/Buckets.antt =====
-- Lemmas on the vector of vectors `m_buckets`.
use libtnet.Base.{
  ℕ, zero, suc, ◌<◌, ◌≤◌, ◌≡◌, refl, ap, ◌≢◌, List, [], ◌∷◌, ◌++◌, Option, none, some, arith,
  length, get_elem?, set,
}
use libtnet.TimingWheel.{Chan, push_at, chan_at}

module _ {H : Type 0} where
  pub length-push_at :
      (bs : List (Chan H)) (i : ℕ) (h : Option H) → length (push_at bs i h) ≡ length bs
  unfolding push_at
  length-push_at [] i h = refl
  length-push_at (b ∷ bs) zero h = refl
  length-push_at (b ∷ bs) (suc i) h = ap suc (length-push_at bs i h)

  pub chan_at-push_at_self :
      (bs : List (Chan H)) (i : ℕ) (h : Option H)
      → i < length bs
      → chan_at (push_at bs i h) i ≡ chan_at bs i ++ h ∷ []
  unfolding push_at chan_at
  chan_at-push_at_self [] i h l = elim l [ ]
  chan_at-push_at_self (b ∷ bs) zero h l = refl
  chan_at-push_at_self (b ∷ bs) (suc i) h l = chan_at-push_at_self bs i h (omega arith)

  pub chan_at-push_at_ne :
      (bs : List (Chan H)) (i j : ℕ) (h : Option H)
      → i ≢ j
      → chan_at (push_at bs i h) j ≡ chan_at bs j
  unfolding push_at chan_at
  chan_at-push_at_ne [] i j h ne = refl
  chan_at-push_at_ne (b ∷ bs) zero zero h ne = absurd (ne refl)
  chan_at-push_at_ne (b ∷ bs) zero (suc j) h ne = refl
  chan_at-push_at_ne (b ∷ bs) (suc i) zero h ne = refl
  chan_at-push_at_ne (b ∷ bs) (suc i) (suc j) h ne =
      chan_at-push_at_ne bs i j h (λ e. ne (ap suc e))

  pub chan_at-set_self :
      (bs : List (Chan H)) (i : ℕ) (c : Chan H) → i < length bs → chan_at (set bs i c) i ≡ c
  unfolding chan_at
  chan_at-set_self [] i c l = elim l [ ]
  chan_at-set_self (b ∷ bs) zero c l = refl
  chan_at-set_self (b ∷ bs) (suc i) c l = chan_at-set_self bs i c (omega arith)

  pub chan_at-set_ne :
      (bs : List (Chan H)) (i j : ℕ) (c : Chan H) → i ≢ j → chan_at (set bs i c) j ≡ chan_at bs j
  unfolding chan_at
  chan_at-set_ne [] i j c ne = refl
  chan_at-set_ne (b ∷ bs) zero zero c ne = absurd (ne refl)
  chan_at-set_ne (b ∷ bs) zero (suc j) c ne = refl
  chan_at-set_ne (b ∷ bs) (suc i) zero c ne = refl
  chan_at-set_ne (b ∷ bs) (suc i) (suc j) c ne = chan_at-set_ne bs i j c (λ e. ne (ap suc e))

  -- Indexing is `chan_at` within the bounds, and fails beyond them.
  pub get_elem?-chan_at :
      (bs : List (Chan H)) (i : ℕ) → i < length bs → get_elem? bs i ≡ some (chan_at bs i)
  unfolding chan_at
  get_elem?-chan_at [] i l = elim l [ ]
  get_elem?-chan_at (b ∷ bs) zero l = refl
  get_elem?-chan_at (b ∷ bs) (suc i) l = get_elem?-chan_at bs i (omega arith)

  pub chan_at-get_elem? :
      (bs : List (Chan H)) (i : ℕ) (c : Chan H)
      → get_elem? bs i ≡ some c
      → (i < length bs) × (chan_at bs i ≡ c)
  unfolding chan_at
  chan_at-get_elem? [] i c e = cc
  chan_at-get_elem? (b ∷ bs) zero c e = ground arith
  chan_at-get_elem? (b ∷ bs) (suc i) c e =
      let rest = chan_at-get_elem? bs i c e in (omega arith, rest.1)

  -- An empty entry stays empty when any entry is emptied.
  pub get_elem?-set-none :
      (c : Chan H) (i j : ℕ) → get_elem? c i ≡ some none → get_elem? (set c j none) i ≡ some none
  get_elem?-set-none [] i j e = e
  get_elem?-set-none (x ∷ c) zero zero e = refl
  get_elem?-set-none (x ∷ c) zero (suc j) e = e
  get_elem?-set-none (x ∷ c) (suc i) zero e = e
  get_elem?-set-none (x ∷ c) (suc i) (suc j) e = get_elem?-set-none c i j e

module _ {ℓ} {A : Type ℓ} where
  pub get_elem?-past : (xs : List A) (i : ℕ) → length xs ≤ i → get_elem? xs i ≡ none
  get_elem?-past [] i l = refl
  get_elem?-past (x ∷ xs) zero l = elim l [ ]
  get_elem?-past (x ∷ xs) (suc i) l = get_elem?-past xs i (omega arith)

  pub get_elem?-lt : (xs : List A) (i : ℕ) {a : A} → get_elem? xs i ≡ some a → i < length xs
  get_elem?-lt [] i e = cc
  get_elem?-lt (x ∷ xs) zero e = omega arith
  get_elem?-lt (x ∷ xs) (suc i) e = omega (arith, get_elem?-lt xs i e)

  pub get_elem?-within : (xs : List A) (i : ℕ) → i < length xs → (a : A) × (get_elem? xs i ≡ some a)
  get_elem?-within [] i l = elim l [ ]
  get_elem?-within (x ∷ xs) zero l = (x, refl)
  get_elem?-within (x ∷ xs) (suc i) l = get_elem?-within xs i (omega arith)

  pub get_elem?-last : (xs : List A) (a : A) → get_elem? (xs ++ a ∷ []) (length xs) ≡ some a
  get_elem?-last [] a = refl
  get_elem?-last (x ∷ xs) a = get_elem?-last xs a

  pub get_elem?-append_left :
      (xs ys : List A) (i : ℕ) → i < length xs → get_elem? (xs ++ ys) i ≡ get_elem? xs i
  get_elem?-append_left [] ys i l = elim l [ ]
  get_elem?-append_left (x ∷ xs) ys zero l = refl
  get_elem?-append_left (x ∷ xs) ys (suc i) l = get_elem?-append_left xs ys i (omega arith)
