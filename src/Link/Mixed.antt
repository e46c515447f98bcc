-- ===== src/Link/Mixed.antt =====
-- Two directions in one stream: the sniffer queues the payloads of both, and the parser of
-- src/core/protocol_parser.cpp does not know where one ends.
use tcp_1553_bus_analyzer.Prelude.{ℕ, ◌+◌, ◌-◌, ◌*◌, List, [], ◌∷◌, ◌++◌, take}
use tcp_1553_bus_analyzer.Protocol.{Packet}

-- The six bytes at the head of a packet, read as data words.
abbrev pub header_words : Packet → List ℕ
header_words q = 0xaa55 ∷ (q.mode * 256 + q.rt) ∷ (q.sa * 256 + q.wc) ∷ []

-- The packet that the parser sees where packet `q` comes behind the first m words of packet `p`.
abbrev pub mixed : Packet → Packet → ℕ → Packet
mixed p q m = record p {
  data_words = take m p.data_words ++ (header_words q ++ take (29 - m) q.data_words);
}
