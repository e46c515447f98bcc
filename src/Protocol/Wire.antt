-- ===== src/Protocol/Wire.antt =====
-- The size of a packet in memory.
use tcp_1553_bus_analyzer.Prelude.{ℕ, ◌+◌, ◌*◌, ◌≡◌, List, [], ◌∷◌, arith, length}
use tcp_1553_bus_analyzer.Protocol.{Packet, payload_bytes, packet_bytes}

pub length-payload_bytes : (ws : List ℕ) → length (payload_bytes ws) ≡ 2 * length ws
unfolding payload_bytes
length-payload_bytes [] = omega arith
length-payload_bytes (w ∷ ws) = omega (arith, length-payload_bytes ws)

pub length-packet_bytes : (p : Packet) → length (packet_bytes p) ≡ 6 + 2 * length p.data_words
unfolding packet_bytes
length-packet_bytes p = omega (arith, length-payload_bytes p.data_words)
