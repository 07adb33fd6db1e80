-- ===== src/SockUtil/Tries.antt =====
-- sockutil.cpp: how often `connect` tries.
use libtnet.Base.{
  ℕ, zero, suc, ◌+◌, ◌-◌, ◌≤◌, ◌<◌, ◌≡◌, refl, sym, ap, ap₂, ◌∙◌, true, false, List, [], ◌∷◌, ◌++◌,
  leb, on_branches, arith, append_assoc, append-nil, replicate,
}
use libtnet.Base.Outcome.{ret}
use libtnet.SockUtil.{
  Asked, Answer, connected, is_connected, under_way, connect_failed, connect_rounds, connect, slept,
  no_delay_set, set_no_delay,
}

abbrev pub UnderWay : (ℕ → Answer) → ℕ → Type 0
UnderWay answers i = (j : ℕ) → j < i → answers j ≡ under_way

-- What is asked of the system in so many tries that are under way.
abbrev pub sleeps : ℕ → List Asked
sleeps n = replicate n slept

module _ (answers : ℕ → Answer) (fd : ℕ) where
  next_round :
      (fuel tries : ℕ) (log : List Asked)
      → tries < 5
      → answers tries ≡ under_way
      → connect_rounds answers fd (suc fuel) tries log
        ≡ connect_rounds answers fd fuel (suc tries) (log ++ slept ∷ [])
  unfolding connect_rounds
  next_round fuel tries log few e =
      rw (connect_rounds, e)
        (on_branches (λ r. r ≡ connect_rounds answers fd fuel (suc tries) (log ++ slept ∷ []))
          (leb (suc tries) 5) (λ b. refl) (λ b. ground arith))

  slept_again : (log : List Asked) (n : ℕ) → (log ++ slept ∷ []) ++ sleeps n ≡ log ++ sleeps (suc n)
  slept_again log n = append_assoc log (slept ∷ []) (sleeps n)

  -- So many rounds are under way.
  rounds :
      (n fuel tries : ℕ) (log : List Asked)
      → tries + n ≤ 5
      → UnderWay answers (tries + n)
      → connect_rounds answers fd (n + fuel) tries log
        ≡ connect_rounds answers fd fuel (tries + n) (log ++ sleeps n)
  rounds zero fuel tries log few e =
      ap (λ k. connect_rounds answers fd k tries log) (omega arith)
      ∙ ap₂ (λ t l. connect_rounds answers fd fuel t l) (omega arith) (sym (append-nil log))
  rounds (suc n) fuel tries log few e =
      ap (λ k. connect_rounds answers fd k tries log) (omega arith)
      ∙ next_round (n + fuel) tries log (omega arith) (e tries (omega arith))
      ∙ rounds n fuel (suc tries) (log ++ slept ∷ []) (omega arith) (λ j l. e j (omega arith))
      ∙ ap₂ (λ t l. connect_rounds answers fd fuel t l) (omega arith) (slept_again log n)

  at_try :
      (i : ℕ)
      → i ≤ 5
      → UnderWay answers i
      → connect answers fd ≡ connect_rounds answers fd (suc (5 - i)) i (sleeps i)
  unfolding connect
  at_try i few e =
      let six : 6 ≡ i + suc (5 - i) = omega arith in
      ap (λ k. connect_rounds answers fd k 0 []) six
      ∙ rounds i (suc (5 - i)) 0 [] (omega arith) (λ j l. e j (omega arith))
      ∙ ap (λ t. connect_rounds answers fd (suc (5 - i)) t (sleeps i)) (omega arith)

  -- The loop of `connect` ends, whatever the system answers: it is at most the sixth try that
  -- decides. The first answer that is not under way says what is returned, with a pause after each
  -- try before it, and no more is asked; when six tries are under way, it gives up after five pauses.
  pub connect-tries :
      (i : ℕ)
      → i ≤ 5
      → UnderWay answers i
      → (answers i ≡ connected
          → connect answers fd ≡ ret (true, sleeps i ++ no_delay_set fd true ∷ []))
        × (answers i ≡ is_connected → connect answers fd ≡ ret (true, sleeps i))
        × (answers i ≡ connect_failed → connect answers fd ≡ ret (false, sleeps i))
        × (i ≡ 5 → answers i ≡ under_way → connect answers fd ≡ ret (false, sleeps 5))
  unfolding connect_rounds set_no_delay
  connect-tries i few e = (
    λ a. at_try i few e ∙ rw (connect_rounds, a) refl,
    λ a. at_try i few e ∙ rw (connect_rounds, a) refl,
    λ a. at_try i few e ∙ rw (connect_rounds, a) refl,
    λ last a. at_try i few e ∙ rw (connect_rounds, a, last) refl,
  )
