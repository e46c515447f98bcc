-- ===== src/Bm/Threads/Sound.antt =====
-- What holds of the threads under every schedule.
use tcp_1553_bus_analyzer.Prelude.{ℕ, ◌≡◌, refl, Bool, true, false, ◌&&◌, List, [], ◌∷◌, arith}
use tcp_1553_bus_analyzer.Bm.Threads.{
  CaptureAt, no_capture, at_test, dispatching, ended, MonitorAt, no_monitor, testing, reading,
  leaving, cleared, finished, Opening, Caller, for_stop, for_start, MainAt, free, requesting,
  clearing, breaking, joining_capture, closing, joining_monitor, deactivating, forgetting, opening,
  spawning_capture, activating, unrequesting, spawning_monitor, System, Move, capture_moves,
  monitor_moves, main_moves, starts, stops, dangles, is_null, capture_move, monitor_move,
  is_capturing, is_monitored, join_capture, join_monitor, open_handle, main_move, step, run,
  at_rest,
}
use tcp_1553_bus_analyzer.Bm.Threads.Positions.{
  captures, monitors, captureless, monitorless, handleless, has_spawned, has_activated, is_inactive,
  filter_works,
}

-- No handle is used that is not open, no thread is assigned to one that was not joined, and where
-- the main thread is free: if the monitor is active, both threads are in their loops, and if it is
-- not, there is no thread and no handle.
pub record IsSound (s : System) : Type 0 where
  pub used : s.misused ≡ false
  pub assigned : s.terminated ≡ false
  pub opened : dangles s.pcap_handle s.is_open ≡ false
  pub handled : captures s.capture_at ≡ true → is_null s.pcap_handle ≡ false
  pub uncaptured : captureless s.main_at ≡ true → is_capturing s.capture_at ≡ false
  pub unmonitored : monitorless s.main_at ≡ true → is_monitored s.monitor_at ≡ false
  pub spawned : has_spawned s.main_at ≡ true → s.running ≡ true
  pub looping : has_spawned s.main_at ≡ true → captures s.capture_at ≡ true
  pub unrequested : s.main_at ≡ spawning_monitor → s.shutdown_requested ≡ false
  pub inactive : is_inactive s.main_at ≡ true → s.monitoring_active ≡ false
  pub given : s.main_at ≡ spawning_capture → is_null s.pcap_handle ≡ false
  pub sure : filter_works s.main_at ≡ true
  pub runs : s.main_at ≡ free → s.monitoring_active ≡ true → s.running ≡ true
  pub wanted : s.main_at ≡ free → s.monitoring_active ≡ true → s.shutdown_requested ≡ false
  pub captured : s.main_at ≡ free → s.monitoring_active ≡ true → captures s.capture_at ≡ true
  pub monitored : s.main_at ≡ free → s.monitoring_active ≡ true → monitors s.monitor_at ≡ true
  pub activated : has_activated s.main_at ≡ true → s.monitoring_active ≡ true
  pub closed : handleless s.main_at ≡ true → is_null s.pcap_handle ≡ true
  pub let_go : s.main_at ≡ free → s.monitoring_active ≡ false → is_null s.pcap_handle ≡ true
  pub quiet : s.main_at ≡ free → s.monitoring_active ≡ false → is_capturing s.capture_at ≡ false
  pub idle : s.main_at ≡ free → s.monitoring_active ≡ false → is_monitored s.monitor_at ≡ false

capture_move-IsSound :
    (c : CaptureAt) (s : System) → s.capture_at ≡ c → IsSound s → IsSound (capture_move c s)
unfolding capture_move
capture_move-IsSound no_capture s e v = v
capture_move-IsSound at_test s e v = ground arith
capture_move-IsSound dispatching s e v = ground arith
capture_move-IsSound ended s e v = v

monitor_move-IsSound :
    (m : MonitorAt) (s : System) → s.monitor_at ≡ m → IsSound s → IsSound (monitor_move m s)
unfolding monitor_move
monitor_move-IsSound no_monitor s e v = v
monitor_move-IsSound testing s e v = ground arith
monitor_move-IsSound reading s e v = ground arith
monitor_move-IsSound leaving s e v = ground arith
monitor_move-IsSound cleared s e v = ground arith
monitor_move-IsSound finished s e v = v

join_capture-IsSound :
    (c : CaptureAt) (k : Caller) (s : System)
    → s.capture_at ≡ c
    → s.main_at ≡ joining_capture k
    → IsSound s
    → IsSound (join_capture c k s)
unfolding join_capture
join_capture-IsSound no_capture k s e f v = ground arith
join_capture-IsSound ended k s e f v = ground arith
join_capture-IsSound at_test k s e f v = v
join_capture-IsSound dispatching k s e f v = v

join_monitor-IsSound :
    (m : MonitorAt) (k : Caller) (s : System)
    → s.monitor_at ≡ m
    → s.main_at ≡ joining_monitor k
    → IsSound s
    → IsSound (join_monitor m k s)
unfolding join_monitor
join_monitor-IsSound no_monitor for_stop s e f v = ground arith
join_monitor-IsSound no_monitor (for_start o) s e f v = ground arith
join_monitor-IsSound finished for_stop s e f v = ground arith
join_monitor-IsSound finished (for_start o) s e f v = ground arith
join_monitor-IsSound testing k s e f v = v
join_monitor-IsSound reading k s e f v = v
join_monitor-IsSound leaving k s e f v = v
join_monitor-IsSound cleared k s e f v = v

open_handle-IsSound :
    (o : Opening) (s : System)
    → s.main_at ≡ opening o
    → IsSound s
    → IsSound (open_handle o.handle o.filter_works s)
unfolding open_handle
open_handle-IsSound o s e v = ground arith

main_move-IsSound : (m : MainAt) (s : System) → s.main_at ≡ m → IsSound s → IsSound (main_move m s)
unfolding main_move
main_move-IsSound free s e v = v
main_move-IsSound requesting s e v = ground arith
main_move-IsSound (clearing k) s e v = ground arith
main_move-IsSound (breaking k) s e v = ground arith
main_move-IsSound (joining_capture k) s e v = join_capture-IsSound s.capture_at k s refl e v
main_move-IsSound (closing k) s e v = ground arith
main_move-IsSound (joining_monitor k) s e v = join_monitor-IsSound s.monitor_at k s refl e v
main_move-IsSound deactivating s e v = ground arith
main_move-IsSound forgetting s e v = ground arith
main_move-IsSound (opening o) s e v = open_handle-IsSound o s e v
main_move-IsSound spawning_capture s e v = ground arith
main_move-IsSound activating s e v = ground arith
main_move-IsSound unrequesting s e v = ground arith
main_move-IsSound spawning_monitor s e v = ground arith

-- The filter works wherever libpcap gives a handle.
abbrev pub move_works : Move → Bool
move_works (starts o) = o.filter_works
move_works _ = true

abbrev pub all_work : List Move → Bool
all_work [] = true
all_work (m ∷ ms) = move_works m && all_work ms

step-IsSound : (m : Move) (s : System) → move_works m ≡ true → IsSound s → IsSound (step m s)
unfolding step
step-IsSound capture_moves s w v = capture_move-IsSound s.capture_at s refl v
step-IsSound monitor_moves s w v = monitor_move-IsSound s.monitor_at s refl v
step-IsSound main_moves s w v = main_move-IsSound s.main_at s refl v
step-IsSound (starts o) s w v = ground arith
step-IsSound stops s w v = ground arith

run-IsSound_from :
    (ms : List Move) (s : System) → all_work ms ≡ true → IsSound s → IsSound (run ms s)
unfolding run
run-IsSound_from [] s w v = v
run-IsSound_from (m ∷ ms) s w v =
    run-IsSound_from ms (step m s) (ground arith) (step-IsSound m s (ground arith) v)

-- Under every schedule of the three threads in which the filter works wherever libpcap gives a
-- handle: no call of libpcap uses a handle that is not open, no thread is assigned where the last
-- one was not joined, and wherever the main thread is free: if the monitor is active, the capture
-- thread and the monitor thread are in their loops, on an open handle, and if it is not active,
-- there is no thread and no handle.
pub run-IsSound :
    (ms : List Move) (is_open : ℕ → Bool) → all_work ms ≡ true → IsSound (run ms (at_rest is_open))
run-IsSound ms is_open w =
    let v : IsSound (at_rest is_open) = ground arith in run-IsSound_from ms (at_rest is_open) w v
