-- ===== src/Bm/Threads/Positions.antt =====
-- Where the three threads stand: what the invariant of Bm.Threads.Sound speaks of.
use tcp_1553_bus_analyzer.Prelude.{Bool, true, false}
use tcp_1553_bus_analyzer.Bm.Threads.{
  CaptureAt, at_test, dispatching, MonitorAt, testing, reading, Caller, for_stop, for_start, MainAt,
  clearing, breaking, joining_capture, closing, joining_monitor, deactivating, forgetting, opening,
  spawning_capture, activating, unrequesting, spawning_monitor,
}

-- The capture thread is in its loop; the monitor thread is.
abbrev pub captures : CaptureAt → Bool
captures at_test = true
captures dispatching = true
captures _ = false

abbrev pub monitors : MonitorAt → Bool
monitors testing = true
monitors reading = true
monitors _ = false

-- Where the main thread has joined the capture thread and not made a new one; likewise for the
-- monitor thread.
abbrev pub captureless : MainAt → Bool
captureless (closing k) = true
captureless (joining_monitor k) = true
captureless deactivating = true
captureless forgetting = true
captureless (opening o) = true
captureless spawning_capture = true
captureless _ = false

abbrev pub monitorless : MainAt → Bool
monitorless deactivating = true
monitorless forgetting = true
monitorless (opening o) = true
monitorless spawning_capture = true
monitorless activating = true
monitorless unrequesting = true
monitorless spawning_monitor = true
monitorless _ = false

-- Where `terminate` has forgotten the handle and no new one is there.
abbrev pub handleless : MainAt → Bool
handleless (joining_monitor k) = true
handleless deactivating = true
handleless forgetting = true
handleless (opening o) = true
handleless _ = false

-- In `start`, behind the new capture thread.
abbrev pub has_spawned : MainAt → Bool
has_spawned activating = true
has_spawned unrequesting = true
has_spawned spawning_monitor = true
has_spawned _ = false

abbrev pub has_activated : MainAt → Bool
has_activated unrequesting = true
has_activated spawning_monitor = true
has_activated _ = false

abbrev pub is_start : Caller → Bool
is_start for_stop = false
is_start (for_start o) = true

-- Where `m_monitoringActive` is clear.
abbrev pub is_inactive : MainAt → Bool
is_inactive (clearing k) = is_start k
is_inactive (breaking k) = is_start k
is_inactive (joining_capture k) = is_start k
is_inactive (closing k) = is_start k
is_inactive (joining_monitor k) = is_start k
is_inactive forgetting = true
is_inactive (opening o) = true
is_inactive spawning_capture = true
is_inactive activating = true
is_inactive _ = false

-- The filter works for the handle of the call of `start` that the main thread is in.
abbrev pub caller_works : Caller → Bool
caller_works for_stop = true
caller_works (for_start o) = o.filter_works

abbrev pub filter_works : MainAt → Bool
filter_works (clearing k) = caller_works k
filter_works (breaking k) = caller_works k
filter_works (joining_capture k) = caller_works k
filter_works (closing k) = caller_works k
filter_works (joining_monitor k) = caller_works k
filter_works (opening o) = o.filter_works
filter_works _ = true
