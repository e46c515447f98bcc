-- ===== src/Bm/Session.antt =====
-- Starting and stopping the monitor.
use tcp_1553_bus_analyzer.Prelude.{
  List, refl, ◌+◌, ◌∷◌, ◌∙◌, if◌then◌else◌, ℕ, ◌≡◌, true, false, [], none, arith,
}
use tcp_1553_bus_analyzer.Text.{Text}
use tcp_1553_bus_analyzer.Parser.{fresh, reset, parse_stream}
use tcp_1553_bus_analyzer.TcpProxy.{PcapAnswers, start_sniffing, terminate, receive_data}
use tcp_1553_bus_analyzer.Bm.Monitor.{monitor_rounds, decoded_count}
use tcp_1553_bus_analyzer.Bm.Format.{Stamp}
use tcp_1553_bus_analyzer.Bm.{Bm, start, stop, monitor_round, buffer_size}

-- An active monitor has its thread and a running sniffer with an open handle.
pub record IsConsistent (s : Bm) : Type 0 where
  pub thread : s.monitoring_active ≡ true → s.monitor_thread ≡ true
  pub running : s.monitoring_active ≡ true → s.tcp_proxy.running ≡ true
  pub capturing : s.monitoring_active ≡ true → s.tcp_proxy.capturing ≡ true

pub start-IsConsistent :
    (a : PcapAnswers) (now : ℕ) (host : Text) (port : ℕ) (s : Bm)
    → IsConsistent s
    → IsConsistent (start a now host port s).0
unfolding start start_sniffing terminate
start-IsConsistent a now host port s v = ground arith

pub stop-IsConsistent : (s : Bm) → IsConsistent s → IsConsistent (stop s).0
unfolding stop terminate
stop-IsConsistent s v = ground arith

-- A start of a monitor that is not active. Either way the parser and what was pending are cleared,
-- and the payloads that the sniffer still holds are kept. It succeeds with the monitor active on
-- the port, or fails with it not active.
pub start_outcome :
    (a : PcapAnswers) (now : ℕ) (host : Text) (port : ℕ) (s : Bm)
    → s.monitoring_active ≡ false
    → let (r, started, _) = start a now host port s in
      (r.parser ≡ fresh)
      × (r.pending_messages ≡ [])
      × (r.pending_active_keys ≡ [])
      × (r.tcp_proxy.payload_queue ≡ s.tcp_proxy.payload_queue)
      × (r.monitoring_active ≡ started)
      × (r.tcp_proxy.running ≡ started)
      × (r.current_port ≡ (if started then port else s.current_port))
unfolding start start_sniffing terminate reset
start_outcome a now host port s h = ground arith

-- A monitor whose start returned true and that was then stopped is not active and has no handle,
-- no thread and no running sniffer.
pub stop-start :
    (a : PcapAnswers) (now : ℕ) (host : Text) (port : ℕ) (s : Bm)
    → (start a now host port s).1 ≡ true
    → let r = (stop (start a now host port s).0).0 in
      (r.monitoring_active ≡ false)
      × (r.monitor_thread ≡ false)
      × (r.tcp_proxy.pcap_handle ≡ none)
      × (r.tcp_proxy.running ≡ false)
      × (r.tcp_proxy.capturing ≡ false)
unfolding start stop start_sniffing terminate
stop-start a now host port s h = ground arith

monitor_round_idle :
    (clock : ℕ → Stamp) (now : ℕ) (s : Bm)
    → s.tcp_proxy.payload_queue ≡ []
    → let (r, calls) = monitor_round clock now s in
      (r.tcp_proxy.payload_queue ≡ []) × (r.pending_messages ≡ s.pending_messages) × (calls ≡ [])
unfolding monitor_round receive_data
monitor_round_idle clock now s e = ground arith

-- However many rounds the monitor makes while no payload is queued, and however late they are: they
-- show nothing and leave what is pending as it is.
pub monitor_rounds_idle :
    (clock : ℕ → Stamp) (n : ℕ) (nows : List ℕ) (s : Bm)
    → s.tcp_proxy.payload_queue ≡ []
    → let (r, calls) = monitor_rounds clock n nows s in
      (r.pending_messages ≡ s.pending_messages) × (calls ≡ [])
unfolding monitor_rounds
monitor_rounds_idle clock n [] s e = (refl, refl)
monitor_rounds_idle clock n (now ∷ nows) s e =
    let (queue, pending, none_shown) = monitor_round_idle (λ i. clock (n + i)) now s e in
    let k = n + decoded_count (parse_stream s.parser (receive_data buffer_size s.tcp_proxy).0).0 in
    let (later, no_calls) =
      monitor_rounds_idle clock k nows (monitor_round (λ i. clock (n + i)) now s).0 queue in
    (later ∙ pending, cc (none_shown, no_calls))
