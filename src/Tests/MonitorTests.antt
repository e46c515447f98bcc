-- ===== src/Tests/MonitorTests.antt =====
-- The monitor's theorems at concrete inputs.
use tcp_1553_bus_analyzer.Prelude.{
  ℕ, ◌≡◌, refl, true, false, List, [], ◌∷◌, ◌++◌, some, take, drop, arith,
}
use tcp_1553_bus_analyzer.Text.{codes}
use tcp_1553_bus_analyzer.Common.{FrameConfig}
use tcp_1553_bus_analyzer.Protocol.{Bytes, packet_bytes, payload_bytes}
use tcp_1553_bus_analyzer.Parser.{fresh, parse_stream, round}
use tcp_1553_bus_analyzer.Parser.Chunks.{flatten}
use tcp_1553_bus_analyzer.Bc.Send.{SendAnswers}
use tcp_1553_bus_analyzer.TcpProxy.{TcpProxy, PcapAnswers, start_sniffing}
use tcp_1553_bus_analyzer.TcpProxy
use tcp_1553_bus_analyzer.Bm.{
  Bm, passes, set_callbacks, enable_filter, set_filter_criteria, process_and_relay_data,
  monitor_round, timed, start, stop,
}
use tcp_1553_bus_analyzer.Bm
use tcp_1553_bus_analyzer.Bm.Format.{Stamp}
use tcp_1553_bus_analyzer.Bm.Keys.{RtSaKey}
use tcp_1553_bus_analyzer.Bm.Relay.{shown, report}
use tcp_1553_bus_analyzer.Bm.Monitor.{AllFit, monitor_rounds, monitor_rounds-flatten}
use tcp_1553_bus_analyzer.Tests.Samples.{sample, sample_frame, answered}

abbrev clock : ℕ → Stamp
clock n = record { time_of_day = codes "12:00:00"; full_us = n }

-- A monitor whose user interface listens, with two payloads in the queue.
abbrev waiting : List Bytes → Bm
waiting payloads = record Bm.new {
  messages_callback = true;
  tree_callback = true;
  tcp_proxy = record TcpProxy.new { payload_queue = payloads };
}

abbrev two_parts : List Bytes
unfolding packet_bytes payload_bytes
two_parts = take 30 (packet_bytes sample) ∷ drop 30 (packet_bytes sample) ∷ []

two_parts-AllFit : AllFit two_parts
unfolding two_parts packet_bytes payload_bytes take drop
two_parts-AllFit = (omega arith, omega arith, (omega arith, omega arith, tt))

abbrev one_frame : List (SendAnswers × FrameConfig)
one_frame = (answered, sample_frame) ∷ []

monitor_rounds-flatten_example :
    let (r, calls) = monitor_rounds clock 0 (100 ∷ 200 ∷ []) (waiting two_parts) in
    shown calls ++ r.pending_messages
    ≡ [] ++ report clock 0 (passes (waiting two_parts)) (parse_stream fresh (flatten two_parts)).0
unfolding two_parts
monitor_rounds-flatten_example =
    monitor_rounds-flatten clock two_parts (100 ∷ 200 ∷ []) (waiting two_parts) refl refl
      two_parts-AllFit refl (unfold round in refl)

abbrev key : RtSaKey
key = record { bus = b'A'; rt = 2; sa = 6 }

abbrev capture_answers : PcapAnswers
capture_answers = record { handle = some 7; compile_fails = false; set_filter_fails = false }

abbrev overdue : Bm
overdue = record (waiting []) { pending_messages = codes "Data: BEEF\n" }
