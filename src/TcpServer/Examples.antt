-- ===== src/TcpServer/Examples.antt =====
-- A connection that was active at second 100, on a server with the default timeout,
-- whose wheel is in the middle of a tick.
use libtnet.Base.{ℕ, true, false, [], replicate}
use libtnet.Base.Bytes.{Bytes}
use libtnet.Connection.{Connection, ConnEvent, connected}
use libtnet.TcpServer.{TcpServer}
use libtnet.TcpServer.Idle
use libtnet.TimingWheel.{TimingWheel}

abbrev server : TcpServer
server = record {
  running = true;
  has_process = false;
  has_run_callback = false;
  acceptors = [];
  max_idle_timeout = 30;
  log = [];
}

abbrev idle_conn : Connection
idle_conn = record {
  has_callback = true;
  fd = 5;
  status = connected;
  last_active_time = 100;
  idle_timeout = 0;
  send_buffer = [];
  log = [];
}

abbrev quiet : ConnEvent → Bytes → Connection → Connection
quiet event bytes c = c

abbrev ticking : TimingWheel ℕ
ticking = record {
  running = true;
  interval = 1000;
  max_buckets = 3600;
  max_timeout = 3600000;
  next_bucket = 3590;
  curbucket = [];
  ontimer = true;
  buckets = replicate 3600 [];
}
