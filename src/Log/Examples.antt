-- ===== src/Log/Examples.antt =====
-- A name with a directory, one without, and a log that is not redirected.
use libtnet.Base.{◌≡◌, refl}
use libtnet.Base.Bytes.{codes}
use libtnet.Log.{base_name, make, redirect, get_level}
use libtnet.StringUtil.{upper}
use libtnet.Base.Bytes.{same}

stays_with_stdout : redirect (codes "log.txt") make ≡ make
unfolding redirect make
stays_with_stdout = refl

warn_level : get_level (codes "warn") ≡ 3
unfolding get_level upper same
warn_level = refl

first_byte_lost : base_name (codes "ioloop.cpp") ≡ codes "oloop.cpp"
unfolding base_name
first_byte_lost = refl
