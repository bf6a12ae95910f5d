-- ===== src/Examples/OfMonitor.antt =====
-- src/monitor/SystemMonitor.cpp: two seeds.
use hyperion_euntime_environ.Base.{◌≢◌, arith}
use hyperion_euntime_environ.Monitor.{fast_rand}
use hyperion_euntime_environ.Monitor.Random.{fast_rand-ne}

fast_rand-ne_example : fast_rand 77 ≢ fast_rand 78
fast_rand-ne_example = fast_rand-ne 77 78 (omega arith) (omega arith) (omega arith)
