-- ===== src/WsConnection/Receive/Masking.antt =====
-- The masking of RFC 6455, section 5.3, beside the loop of `onFrameData`.
use libtnet.Base.{
  ℕ, zero, suc, ◌+◌, ◌%◌, bit_xor, ◌≡◌, refl, sym, ap, ◌∙◌, ◌<◌, [], ◌∷◌, ◌++◌, arith, length,
}
use libtnet.Base.Bytes.{Bytes}
use libtnet.WsConnection.Receive.{key_at, unmask}

-- Each byte is masked with the next one of the key, which is used in turn.
pub masked : Bytes → Bytes → Bytes
masked key [] = []
masked [] (b ∷ bs) = b ∷ masked [] bs
masked (k ∷ ks) (b ∷ bs) = bit_xor b k ∷ masked (ks ++ k ∷ []) bs

module _ (k0 k1 k2 k3 : ℕ) where
  abbrev key : Bytes
  key = k0 ∷ k1 ∷ k2 ∷ k3 ∷ []

  -- The key from a place on.
  abbrev turned : ℕ → Bytes
  turned zero = key
  turned (suc zero) = k1 ∷ k2 ∷ k3 ∷ k0 ∷ []
  turned (suc (suc zero)) = k2 ∷ k3 ∷ k0 ∷ k1 ∷ []
  turned _ = k3 ∷ k0 ∷ k1 ∷ k2 ∷ []

  masked-turned :
      (r b : ℕ) (bs : Bytes)
      → r < 4
      → masked (turned r) (b ∷ bs) ≡ bit_xor b (key_at key r) ∷ masked (turned ((r + 1) % 4)) bs
  unfolding masked key_at
  masked-turned zero b bs l = refl
  masked-turned (suc zero) b bs l = refl
  masked-turned (suc (suc zero)) b bs l = refl
  masked-turned (suc (suc (suc zero))) b bs l = refl
  masked-turned (suc (suc (suc (suc r)))) b bs l = absurd (omega arith)

  unmask-turned : (bs : Bytes) (i : ℕ) → unmask key i bs ≡ masked (turned (i % 4)) bs
  unfolding unmask masked
  unmask-turned [] i = refl
  unmask-turned (b ∷ bs) i =
      let next : (i + 1) % 4 ≡ (i % 4 + 1) % 4 = omega arith in
      ap (λ r. bit_xor b (key_at key (i % 4)) ∷ r)
        (unmask-turned bs (i + 1) ∙ ap (λ n. masked (turned n) bs) next)
      ∙ sym (masked-turned (i % 4) b bs (omega arith))

pub unmask-eq-masked : (key bs : Bytes) → length key ≡ 4 → unmask key 0 bs ≡ masked key bs
unmask-eq-masked (a ∷ b ∷ c ∷ d ∷ []) bs l = unmask-turned a b c d bs 0
unmask-eq-masked [] bs l = absurd (omega arith)
unmask-eq-masked (a ∷ []) bs l = absurd (omega arith)
unmask-eq-masked (a ∷ b ∷ []) bs l = absurd (omega arith)
unmask-eq-masked (a ∷ b ∷ c ∷ []) bs l = absurd (omega arith)
unmask-eq-masked (a ∷ b ∷ c ∷ d ∷ e ∷ k) bs l = absurd (omega arith)
