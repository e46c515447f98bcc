-- ===== src/Bm/Threads.antt =====
-- The threads of src/core/bm.cpp and src/core/tcp_proxy.cpp: `captureLoop`, `monitorThreadFunc`,
-- and the main thread in `BM::start` and `BM::stop`, with `TcpProxy::startSniffing` and `terminate`
-- inside them. Followed are the flags that the threads share, the capture handle and the two
-- `std::thread`s; a move is one access of a flag, one call, one creation or one `join`, or one
-- round of a loop's body. A schedule is a list of moves, and one that its thread cannot make where
-- it stands changes nothing.
pub mod Positions
pub mod Sound
pub mod Stopping
use tcp_1553_bus_analyzer.Prelude.{
  ℕ, Bool, true, false, not, ◌||◌, List, [], ◌∷◌, Option, none, some, ◌==◌, if◌then◌else◌,
}

-- `captureLoop`: no thread, or joined; at the test of `m_running`; in `pcap_dispatch`; at its end.
pub data CaptureAt : Type 0 where
  no_capture : CaptureAt
  at_test : CaptureAt
  dispatching : CaptureAt
  ended : CaptureAt

-- `monitorThreadFunc`: no thread, or joined; at the test of `m_shutdownRequested`; in a round;
-- behind the loop; behind `m_shutdownRequested = false`; at its end.
pub data MonitorAt : Type 0 where
  no_monitor : MonitorAt
  testing : MonitorAt
  reading : MonitorAt
  leaving : MonitorAt
  cleared : MonitorAt
  finished : MonitorAt

-- What `pcap_open_live` returns, and whether the two calls for the filter succeed then.
pub record Opening : Type 0 where
  pub handle : Option ℕ
  pub filter_works : Bool

-- Who has called `terminate`.
pub data Caller : Type 0 where
  for_stop : Caller
  for_start : Opening → Caller

-- The main thread: free; in `stop`, before `m_shutdownRequested = true`; the four steps of
-- `terminate`; at the `join` of the monitor thread; in `stop` behind it; in `startSniffing`, at
-- `pcap_open_live`, and before the capture thread is made; and in `start` behind it.
pub data MainAt : Type 0 where
  free : MainAt
  requesting : MainAt
  clearing : Caller → MainAt
  breaking : Caller → MainAt
  joining_capture : Caller → MainAt
  closing : Caller → MainAt
  joining_monitor : Caller → MainAt
  deactivating : MainAt
  forgetting : MainAt
  opening : Opening → MainAt
  spawning_capture : MainAt
  activating : MainAt
  unrequesting : MainAt
  spawning_monitor : MainAt

-- `misused` says whether a handle was used that was not open, and `terminated` whether a thread was
-- assigned to a `std::thread` that was not joined.
pub record System : Type 0 where
  pub pcap_handle : Option ℕ
  pub is_open : ℕ → Bool
  pub running : Bool
  pub shutdown_requested : Bool
  pub monitoring_active : Bool
  pub capture_at : CaptureAt
  pub monitor_at : MonitorAt
  pub main_at : MainAt
  pub misused : Bool
  pub terminated : Bool

pub data Move : Type 0 where
  capture_moves : Move
  monitor_moves : Move
  main_moves : Move
  starts : Opening → Move
  stops : Move

-- The handle is one that is not open.
abbrev pub dangles : Option ℕ → (ℕ → Bool) → Bool
dangles none is_open = false
dangles (some h) is_open = not (is_open h)

abbrev pub is_null : Option ℕ → Bool
is_null none = true
is_null (some h) = false

abbrev pub update : (ℕ → Bool) → Option ℕ → Bool → ℕ → Bool
update f none v i = f i
update f (some h) v i = if h == i then v else f i

-- `captureLoop`, whose `pcap_dispatch` uses the handle.
unfoldable pub capture_move : CaptureAt → System → System
capture_move no_capture s = s
capture_move at_test s = record s { capture_at = if s.running then dispatching else ended }
capture_move dispatching s = record s {
  capture_at = at_test;
  misused = s.misused || (is_null s.pcap_handle || dangles s.pcap_handle s.is_open);
}
capture_move ended s = s

unfoldable pub monitor_move : MonitorAt → System → System
monitor_move no_monitor s = s
monitor_move testing s = record s { monitor_at = if s.shutdown_requested then leaving else reading }
monitor_move reading s = record s { monitor_at = testing }
monitor_move leaving s = record s { shutdown_requested = false; monitor_at = cleared }
monitor_move cleared s = record s { monitoring_active = false; monitor_at = finished }
monitor_move finished s = s

-- A `std::thread` that is joinable.
abbrev pub is_capturing : CaptureAt → Bool
is_capturing no_capture = false
is_capturing _ = true

abbrev pub is_monitored : MonitorAt → Bool
is_monitored no_monitor = false
is_monitored _ = true

-- `if (m_captureThread.joinable()) m_captureThread.join();`
unfoldable pub join_capture : CaptureAt → Caller → System → System
join_capture no_capture k s = record s { main_at = closing k }
join_capture ended k s = record s { capture_at = no_capture; main_at = closing k }
join_capture _ k s = s

abbrev pub behind_join : Caller → MainAt
behind_join for_stop = deactivating
behind_join (for_start o) = opening o

unfoldable pub join_monitor : MonitorAt → Caller → System → System
join_monitor no_monitor k s = record s { main_at = behind_join k }
join_monitor finished k s = record s { monitor_at = no_monitor; main_at = behind_join k }
join_monitor _ k s = s

-- `pcap_open_live` and the filter. libpcap hands out no handle that is open; where the filter
-- fails, the handle is closed and the pointer to it stays.
unfoldable pub open_handle : Option ℕ → Bool → System → System
open_handle none works s = record s { pcap_handle = none; main_at = free }
open_handle (some h) works s =
    if s.is_open h
    then record s { pcap_handle = none; main_at = free }
    else if works
    then record s {
      pcap_handle = some h;
      is_open = update s.is_open (some h) true;
      main_at = spawning_capture;
    }
    else record s { pcap_handle = some h; main_at = free }

unfoldable pub main_move : MainAt → System → System
main_move free s = s
main_move requesting s = record s { shutdown_requested = true; main_at = clearing for_stop }
main_move (clearing k) s = record s { running = false; main_at = breaking k }
main_move (breaking k) s = record s {
  misused = s.misused || dangles s.pcap_handle s.is_open;
  main_at = joining_capture k;
}
main_move (joining_capture k) s = join_capture s.capture_at k s
main_move (closing k) s = record s {
  misused = s.misused || dangles s.pcap_handle s.is_open;
  is_open = update s.is_open s.pcap_handle false;
  pcap_handle = none;
  main_at = joining_monitor k;
}
main_move (joining_monitor k) s = join_monitor s.monitor_at k s
main_move deactivating s = record s { monitoring_active = false; main_at = forgetting }
main_move forgetting s = record s { shutdown_requested = false; main_at = free }
main_move (opening o) s = open_handle o.handle o.filter_works s
main_move spawning_capture s = record s {
  running = true;
  terminated = s.terminated || is_capturing s.capture_at;
  capture_at = at_test;
  main_at = activating;
}
main_move activating s = record s { monitoring_active = true; main_at = unrequesting }
main_move unrequesting s = record s { shutdown_requested = false; main_at = spawning_monitor }
main_move spawning_monitor s = record s {
  terminated = s.terminated || is_monitored s.monitor_at;
  monitor_at = testing;
  main_at = free;
}

-- A call of `start` or `stop`, which return at once where there is nothing to do.
abbrev call_start : MainAt → Opening → System → System
call_start free o s =
    if s.monitoring_active then s else record s { main_at = clearing (for_start o) }
call_start _ o s = s

abbrev call_stop : MainAt → System → System
call_stop free s = if s.monitoring_active then record s { main_at = requesting } else s
call_stop _ s = s

unfoldable pub step : Move → System → System
step capture_moves s = capture_move s.capture_at s
step monitor_moves s = monitor_move s.monitor_at s
step main_moves s = main_move s.main_at s
step (starts o) s = call_start s.main_at o s
step stops s = call_stop s.main_at s

unfoldable pub run : List Move → System → System
run [] s = s
run (m ∷ ms) s = run ms (step m s)

-- Nothing started, with the handles that are open elsewhere.
abbrev pub at_rest : (ℕ → Bool) → System
at_rest is_open = record {
  pcap_handle = none;
  is_open = is_open;
  running = false;
  shutdown_requested = false;
  monitoring_active = false;
  capture_at = no_capture;
  monitor_at = no_monitor;
  main_at = free;
  misused = false;
  terminated = false;
}
