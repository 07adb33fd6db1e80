-- ===== src/TcpServer/Idle.antt =====
-- tcpserver.cpp and timingwheel.cpp together: when a connection is checked again.
use libtnet.Base.{ℕ, zero, suc, ◌+◌, ◌%◌, ◌<◌, ◌≡◌, true, some, [], ◌∷◌, ◌++◌, length}
use libtnet.Base.Bytes.{Bytes}
use libtnet.Base.Outcome.{Outcome}
use libtnet.Connection as Connection
use libtnet.Connection.{Connection}
use libtnet.TcpServer.{TcpServer}
use libtnet.TimingWheel.{TimingWheel, Chan, chan_at}

-- The server's wheel in the middle of a tick.
pub record InTick (w : TimingWheel ℕ) : Type 0 where
  pub interval_is : w.interval ≡ 1000
  pub max_is : w.max_buckets ≡ 3600
  pub limit_is : w.max_timeout ≡ 3600000
  pub in_range : w.next_bucket < 3600
  pub bucket_count : length w.buckets ≡ 3600
  pub ticking : w.ontimer ≡ true

-- How many ticks come before the one that runs a check which is asked for in the middle of a tick:
-- with no time left it waits for a whole turn.
abbrev pub ticks_before : ℕ → ℕ
ticks_before zero = 3599
ticks_before (suc left) = left

-- Where the check stands when the tick has ended.
pub Waits : ℕ → ℕ → TimingWheel ℕ → Type 0
Waits conn ticks u =
    (before : Chan ℕ) × (chan_at u.buckets ((u.next_bucket + ticks) % 3600)
      ≡ before ++ some conn ∷ [])
