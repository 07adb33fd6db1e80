-- ===== src/HttpClient/Counted.antt =====
-- http/httpclient.cpp: how often a connector is kept, and what `popConn` leaves.
use libtnet.Base.{
  ℕ, zero, suc, ◌+◌, ◌≤◌, ◌≡◌, refl, sym, ap, ◌∙◌, Bool, true, false, [], ◌∷◌, Option, none, some,
  ltb, ◌==◌, ==_iff, if◌then◌else◌, on_branches, on_option, Bool-cases, inl, inr, arith, length,
}
use libtnet.Base.Outcome.{Always, Always->>=, Always-Always}
use libtnet.HttpClient.{HttpClient, IpConn, put, insert, find, erase, pop_rounds, pop_conn}

abbrev pub one_if : Bool → ℕ
one_if true = 1
one_if false = 0

-- How often a connector is kept.
abbrev pub times : ℕ → IpConn → ℕ
times k [] = 0
times k ((ip, conn) ∷ m) = one_if (k == conn) + times k m

abbrev pub used {ℓ} : {A : Type ℓ} → Option A → ℕ
used none = 0
used (some a) = 1

-- In how many places a connector is: kept, waiting for its connection, or for a response.
abbrev pub places : ℕ → HttpClient → ℕ
places k c = times k c.conns + used (c.callbacks k) + used (c.pending k)

pub times-insert :
    (k ip conn : ℕ) (m : IpConn) → times k (insert ip conn m) ≡ one_if (k == conn) + times k m
unfolding insert
times-insert k ip conn [] = refl
times-insert k ip conn ((i, v) ∷ m) =
    on_branches (λ l. times k l ≡ one_if (k == conn) + (one_if (k == v) + times k m)) (ltb ip i)
      (λ b. refl) (λ b. let rest = times-insert k ip conn m in omega arith)

pub length-insert : (ip conn : ℕ) (m : IpConn) → length (insert ip conn m) ≡ suc (length m)
unfolding insert
length-insert ip conn [] = refl
length-insert ip conn ((i, v) ∷ m) =
    on_branches (λ (l : IpConn). length l ≡ suc (suc (length m))) (ltb ip i) (λ b. refl)
      (λ b. ap suc (length-insert ip conn m))

-- What `popConn` leaves, with what it gives, is some of what was there.
abbrev hit : ℕ → Option ℕ → ℕ
hit k none = 0
hit k (some conn) = one_if (k == conn)

abbrev pub Less : IpConn → IpConn × Option ℕ → Type 0
Less m r = ((k : ℕ) → times k r.0 + hit k r.1 ≤ times k m) × (length r.0 ≤ length m)

times-erase :
    (k ip conn : ℕ) (m : IpConn)
    → find ip m ≡ some conn
    → times k (erase ip m) + one_if (k == conn) ≤ times k m
unfolding find erase
times-erase k ip conn [] e = cc
times-erase k ip conn ((i, v) ∷ m) e = ground (arith, times-erase k ip conn m)

length-erase : (ip : ℕ) (m : IpConn) → length (erase ip m) ≤ length m
unfolding erase
length-erase ip [] = omega arith
length-erase ip ((i, v) ∷ m) = ground (arith, length-erase ip m)

pop_rounds-Less :
    (alive : ℕ → Bool) (ip n : ℕ) (m : IpConn) → Always (Less m) (pop_rounds alive ip n m)
unfolding pop_rounds
pop_rounds-Less alive ip zero m = tt
pop_rounds-Less alive ip (suc n) m =
    on_option (Always (Less m)) (find ip m) (λ e. (λ k. omega arith, omega arith))
      (λ conn e.
        let shorter = length-erase ip m in
        on_branches (Always (Less m)) (alive conn) (λ b. (λ k. times-erase k ip conn m e, shorter))
          (λ b.
            Always-Always (Less (erase ip m)) (Less m) (pop_rounds alive ip n (erase ip m))
              (λ r (few, short). (
                λ k. let fewer = times-erase k ip conn m e in let f = few k in omega arith,
                omega arith,
              ))
              (pop_rounds-Less alive ip n (erase ip m))))

pub pop_conn-Always :
    (alive : ℕ → Bool) (ip : ℕ) (c : HttpClient) (Q : HttpClient × Option ℕ → Type 0)
    → ((m : IpConn) (o : Option ℕ) → Less c.conns (m, o) → Q (record c { conns = m }, o))
    → Always Q (pop_conn alive ip c)
unfolding pop_conn
pop_conn-Always alive ip c Q h =
    Always->>= (Less c.conns) Q (pop_rounds alive ip (suc (length c.conns)) c.conns) _
      (pop_rounds-Less alive ip (suc (length c.conns)) c.conns) (λ r less. h r.0 r.1 less)

pub used-put {ℓ} :
    {A : Type ℓ} (k conn : ℕ) (v : Option A) (f : ℕ → Option A)
    → used (put conn v f k) ≡ (if k == conn then used v else used (f k))
used-put k conn v f =
    on_branches (λ o. used o ≡ (if k == conn then used v else used (f k))) (k == conn)
      (λ b. rw b refl) (λ b. rw b refl)

-- A connector that waited for a response, and one that waited for its connection, are moved.
pub used-moved {ℓ} :
    {A : Type ℓ} (k conn : ℕ) (a : A) (f : ℕ → Option A)
    → f conn ≡ some a
    → one_if (k == conn) + used (put conn none f k) ≡ used (f k)
used-moved k conn a f e =
    let here = ap used e in
    elim (Bool-cases (k == conn)) [
      | inl same ↦ rw same (sym here ∙ ap (λ i. used (f i)) (sym ((==_iff k conn).0 same)))
      | inr other ↦ rw other (omega arith)
    ]
