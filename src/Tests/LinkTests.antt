-- ===== src/Tests/LinkTests.antt =====
-- The theorems on the whole way at a concrete capture.
use tcp_1553_bus_analyzer.Prelude.{
  Bool, ◌==◌, ℕ, ◌≡◌, refl, true, map, List, [], ◌∷◌, ◌++◌, some, replicate, take, drop, get_or,
  arith,
}
use tcp_1553_bus_analyzer.Text.{codes, stoul_hex, hex4, hex_digit, hex_value}
use tcp_1553_bus_analyzer.Protocol.{Bytes, packet_bytes, payload_bytes}
use tcp_1553_bus_analyzer.Parser.{fresh, parse_stream}
use tcp_1553_bus_analyzer.Parser.Ranges.{AllBelow, AllInRange, parse_stream-ranges}
use tcp_1553_bus_analyzer.Parser.RoundTrip.{seen}
use tcp_1553_bus_analyzer.Bc.Send.{packet_of, words_from, word_of_text, send_acyclic_frame}
use tcp_1553_bus_analyzer.TcpProxy.{TcpProxy, link_offset, capture_loop}
use tcp_1553_bus_analyzer.TcpProxy
use tcp_1553_bus_analyzer.TcpProxy.Capture.{Capture, IsCapture}
use tcp_1553_bus_analyzer.TcpProxy.Dispatch.{AllCaptures}
use tcp_1553_bus_analyzer.Bm.{Bm, passes}
use tcp_1553_bus_analyzer.Bm
use tcp_1553_bus_analyzer.Bm.Format.{Stamp}
use tcp_1553_bus_analyzer.Bm.Relay.{shown, report}
use tcp_1553_bus_analyzer.Link.{Exchange, AllExchanged, exchanged, traffic}
use tcp_1553_bus_analyzer.Link.Interleaved
use tcp_1553_bus_analyzer.Link.Interleaved.{AllSmall, Move, captures, monitors, captures_of}
use tcp_1553_bus_analyzer.Link.Interleaved.Delivered.{interleaved_reported}
use tcp_1553_bus_analyzer.Link.Pass.{sends_of, pass_reported}
use tcp_1553_bus_analyzer.Panel.Round.{actives}
use tcp_1553_bus_analyzer.Panel.{
  run, step, on_send_active_frames_toggle, say, reset_toggle, start_sending_thread, sender_move,
  handle, take_frames, end_round, stop_sending_thread, join_return,
}
use tcp_1553_bus_analyzer.Tests.Samples.{sample, sample-IsPacket, sample_frame, connected, answered}

abbrev clock : ℕ → Stamp
clock n = record { time_of_day = codes "12:00:00"; full_us = n }

-- An Ethernet frame with 20-byte headers.
abbrev segment : Bytes → Capture
unfolding replicate
segment payload = record {
  link = replicate 14 0;
  ip = 0x45 ∷ replicate 19 0;
  tcp = replicate 12 0 ++ 0x50 ∷ replicate 7 0;
  behind = payload;
}

segment-IsCapture : (payload : Bytes) → IsCapture 1 (segment payload)
unfolding link_offset get_or segment
segment-IsCapture payload = record {
  known = refl;
  ip_present = omega arith;
  ip_size = refl;
  tcp_present = omega arith;
  tcp_size = refl;
}

abbrev front : Bytes
unfolding packet_bytes payload_bytes
front = take 30 (packet_bytes sample)

abbrev back : Bytes
unfolding packet_bytes payload_bytes
back = drop 30 (packet_bytes sample)

-- Part of a packet; a round of the monitor that takes it; one that finds nothing; an
-- acknowledgement, the rest, and the reply.
abbrev schedule : List Move
schedule =
    captures (segment front)
    ∷ monitors 100
    ∷ monitors 200
    ∷ captures (segment [])
    ∷ captures (segment back)
    ∷ captures (segment (packet_bytes sample))
    ∷ []

-- The last rounds.
abbrev at_last : List ℕ
at_last = 300 ∷ 400 ∷ 500 ∷ 600 ∷ []

schedule-AllCaptures : AllCaptures 1 (captures_of schedule)
schedule-AllCaptures = (
  segment-IsCapture front,
  (segment-IsCapture [], (segment-IsCapture back, (segment-IsCapture (packet_bytes sample), tt))),
)

schedule-AllSmall : AllSmall (captures_of schedule)
unfolding segment front back packet_bytes payload_bytes take drop
schedule-AllSmall = (omega arith, (omega arith, (omega arith, (omega arith, tt))))

abbrev asked : Exchange
asked = record { answers = answered; config = sample_frame; reply = some sample }

abbrev one_frame : List Exchange
one_frame = asked ∷ []

one_frame-AllExchanged : AllExchanged one_frame
unfolding packet_bytes payload_bytes take
one_frame-AllExchanged = (refl, (refl, refl, sample-IsPacket), tt)

abbrev watching : Bm
watching = record Bm.new {
  messages_callback = true;
  tcp_proxy = record TcpProxy.new { running = true };
}

interleaved_reported_example :
    let (r, calls, k) = Interleaved.run clock 1 0 (schedule ++ map monitors at_last) watching in
    (shown calls ++ r.pending_messages
      ≡ [] ++ report clock 0 (passes watching) (seen (traffic one_frame)))
    × (r.tcp_proxy.payload_queue ≡ [])
interleaved_reported_example =
    interleaved_reported one_frame [] connected clock 1 schedule at_last watching refl
      one_frame-AllExchanged schedule-AllCaptures schedule-AllSmall
      (unfold segment front back exchanged send_acyclic_frame packet_bytes payload_bytes packet_of
          words_from word_of_text stoul_hex hex4 hex_digit hex_value take drop get_or in
        refl)
      refl (omega arith) refl refl

parse_stream-ranges_example :
    let (es, q) = parse_stream fresh (0x00 ∷ 0xff ∷ []) in
    AllInRange es × AllBelow 256 q.accumulator
parse_stream-ranges_example =
    parse_stream-ranges fresh (0x00 ∷ 0xff ∷ []) tt (omega arith, (omega arith, tt))

-- A panel with two frames, of which the second is active.
abbrev only_second : ℕ → Bool
only_second f = f == 2

abbrev send_of : ℕ → Exchange
send_of f = asked

pass_reported_example :
    let (r, calls, k) = Interleaved.run clock 1 0 (schedule ++ map monitors at_last) watching in
    shown calls ++ r.pending_messages
    ≡ []
      ++ report clock 0
          (passes watching)
          (seen (traffic (sends_of send_of (actives only_second (1 ∷ 2 ∷ [])))))
unfolding run step on_send_active_frames_toggle start_sending_thread sender_move handle take_frames
    say end_round stop_sending_thread join_return reset_toggle
pass_reported_example =
    pass_reported only_second 1 (2 ∷ []) only_second send_of [] connected clock 1 schedule at_last
      watching refl one_frame-AllExchanged schedule-AllCaptures schedule-AllSmall
      (unfold segment front back exchanged send_acyclic_frame packet_bytes payload_bytes packet_of
          words_from word_of_text stoul_hex hex4 hex_digit hex_value take drop get_or in
        refl)
      refl (omega arith) refl refl
