-- ===== src/SockUtil/Examples.antt =====
-- A socket that connects at the third try, and one whose address is taken.
use libtnet.Base.{ℕ, zero, suc, ◌≡◌, refl, true, false, [], ◌∷◌, ◌++◌, none, some, arith}
use libtnet.Base.Int.{pos}
use libtnet.Base.Outcome.{ret}
use libtnet.SockUtil.{
  Answer, connected, is_connected, under_way, connect_failed, connect, no_delay_set,
  bind_and_listen, reuseable_set, bound, closed,
}
use libtnet.SockUtil.Tries.{UnderWay, sleeps}
use libtnet.SockUtil.Tries

abbrev third : ℕ → Answer
third zero = under_way
third (suc zero) = under_way
third (suc (suc j)) = connected

two-UnderWay : UnderWay third 2
two-UnderWay zero l = refl
two-UnderWay (suc zero) l = refl
two-UnderWay (suc (suc j)) l = absurd (omega arith)

connect-tries_example :
    (third 2 ≡ connected → connect third 4 ≡ ret (true, sleeps 2 ++ no_delay_set 4 true ∷ []))
    × (third 2 ≡ is_connected → connect third 4 ≡ ret (true, sleeps 2))
    × (third 2 ≡ connect_failed → connect third 4 ≡ ret (false, sleeps 2))
    × (◌≡◌ {A = ℕ} 2 5 → third 2 ≡ under_way → connect third 4 ≡ ret (false, sleeps 5))
connect-tries_example = Tries.connect-tries third 4 2 (omega arith) two-UnderWay

-- `EADDRINUSE` is 98.
address_in_use :
    bind_and_listen (pos 4) (some 98) none
    ≡ (pos 98, reuseable_set 4 true ∷ bound 4 ∷ closed 4 ∷ [])
unfolding bind_and_listen
address_in_use = refl
