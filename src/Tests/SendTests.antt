-- ===== src/Tests/SendTests.antt =====
-- A send's and the sniffer's theorems at concrete inputs.
use tcp_1553_bus_analyzer.Prelude.{
  ℕ, ◌+◌, length, ◌≡◌, ◌↔◌, refl, true, false, List, [], ◌∷◌, ◌++◌, some, get_or, replicate, take,
  arith, ltb, if◌then◌else◌,
}
use tcp_1553_bus_analyzer.Prelude.Int.{pos}
use tcp_1553_bus_analyzer.Text.{codes}
use tcp_1553_bus_analyzer.Protocol.{Bytes, packet_bytes, payload_bytes}
use tcp_1553_bus_analyzer.Parser.{word_count}
use tcp_1553_bus_analyzer.Bc.Send.{SendAnswers, send_acyclic_frame, packet_of, reply_word}
use tcp_1553_bus_analyzer.Bc.Payload.{packet_of-hex4}
use tcp_1553_bus_analyzer.Bc.Status.{Goes, send_status_iff}
use tcp_1553_bus_analyzer.Bc.Reply.{send_reply, send_short_reply}
use tcp_1553_bus_analyzer.TcpProxy.{
  TcpProxy, PcapAnswers, link_offset, start_sniffing, terminate, packet_handler,
}
use tcp_1553_bus_analyzer.TcpProxy
use tcp_1553_bus_analyzer.TcpProxy.Handles.{handle_closes, start_fails_closes_twice}
use tcp_1553_bus_analyzer.TcpProxy.Capture.{
  Capture, IsCapture, captured, ip_length, packet_handler-padded,
}
use tcp_1553_bus_analyzer.Tests.Samples.{
  words, sample, sample-IsPacket, sample_frame, connected, answered,
}

send_status_iff_example :
    ((send_acyclic_frame answered (some sample_frame) [] connected).status ≡ pos 0)
    ↔ ((false ≡ false) × Goes answered (some sample_frame))
send_status_iff_example = send_status_iff answered (some sample_frame) [] connected

packet_of-hex4_example : (packet_of sample_frame).data_words ≡ words
packet_of-hex4_example = packet_of-hex4 sample_frame words refl (ground arith) refl

abbrev zeros : List ℕ
unfolding replicate
zeros = replicate 32 0

send_reply_example :
    get_or (send_acyclic_frame answered (some sample_frame) zeros connected).received 1 0
    ≡ (if ltb 1 (word_count 2) then 0xbeef else 0)
unfolding zeros get_or
send_reply_example =
    send_reply answered sample_frame zeros connected sample 1
      (record { connected = refl; written = refl; asks = refl; size = refl; header = omega arith })
      sample-IsPacket refl refl (omega arith)

-- The header of a reply, whose payload does not come.
abbrev cut_short : Bytes
unfolding packet_bytes payload_bytes
cut_short = take 6 (packet_bytes sample)

abbrev short_answers : SendAnswers
short_answers = record answered {
  reply_size = pos 6;
  reply = cut_short;
  memory = packet_bytes sample;
}

send_short_reply_example :
    ((send_acyclic_frame short_answers (some sample_frame) zeros connected).status ≡ pos 0)
    × (get_or (send_acyclic_frame short_answers (some sample_frame) zeros connected).received 1 0
        ≡ reply_word (packet_bytes sample) 1)
unfolding zeros
send_short_reply_example =
    send_short_reply short_answers sample_frame zeros connected 6 1
      (record { connected = refl; written = refl; asks = refl; size = refl; header = omega arith })
      (unfold cut_short packet_bytes take in refl) refl (omega arith)
      (unfold cut_short packet_bytes take get_or in omega arith)

abbrev pcap_answers : PcapAnswers
pcap_answers = record { handle = some 7; compile_fails = false; set_filter_fails = false }

abbrev bad_filter : PcapAnswers
bad_filter = record pcap_answers { compile_fails = true }

start_fails_closes_twice_example :
    let (q, _, calls) = start_sniffing bad_filter (codes "lo") 5002 TcpProxy.new in
    handle_closes (calls ++ (terminate q).1) ≡ 7 ∷ 7 ∷ []
start_fails_closes_twice_example =
    start_fails_closes_twice bad_filter 7 (codes "lo") 5002 TcpProxy.new refl
      (unfold start_sniffing in refl)

-- An Ethernet frame with 20-byte headers and no payload, padded to 60 bytes.
abbrev segment : Capture
unfolding replicate
segment = record {
  link = replicate 14 0;
  ip = 0x45 ∷ 0 ∷ 0 ∷ 40 ∷ replicate 16 0;
  tcp = replicate 12 0 ++ 0x50 ∷ replicate 7 0;
  behind = replicate 6 0;
}

segment-IsCapture : IsCapture 1 segment
unfolding link_offset get_or segment
segment-IsCapture = record {
  known = refl;
  ip_present = omega arith;
  ip_size = refl;
  tcp_present = omega arith;
  tcp_size = refl;
}

packet_handler-padded_example :
    (packet_handler 1 (captured segment) TcpProxy.new ≡ (
      if ltb 0 (0 + 6)
      then record TcpProxy.new { payload_queue = [] ++ replicate 6 0 ∷ [] }
      else TcpProxy.new))
    × (ltb 0 6 ≡ ltb (14 + ip_length segment.ip) (length (captured segment)))
unfolding segment replicate get_or
packet_handler-padded_example =
    packet_handler-padded 1 segment [] (replicate 6 0) TcpProxy.new segment-IsCapture refl refl
