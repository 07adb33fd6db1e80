-- ===== src/Signaler/Examples.antt =====
-- A signaler for `SIGINT` and `SIGTERM`, and one that is made for `SIGTERM` alone.
use libtnet.Base.{◌≡◌, refl, true, [], ◌∷◌}
use libtnet.Signaler.{contains}

both_served : contains 15 (2 ∷ 15 ∷ []) ≡ true
unfolding contains
both_served = refl
