-- ===== src/Tests/StreamTests.antt =====
-- The parser's theorems at concrete streams.
use tcp_1553_bus_analyzer.Prelude.{
  ◌<◌, ◌≡◌, refl, [], ◌∷◌, ◌++◌, some, length, take, drop, get_or, arith,
}
use tcp_1553_bus_analyzer.Protocol.{Bytes, packet_bytes, payload_bytes}
use tcp_1553_bus_analyzer.Text.{hex4, stoul_hex}
use tcp_1553_bus_analyzer.Text.Hex.{stoul_hex-hex4}
use tcp_1553_bus_analyzer.Parser.{parse_stream, fresh, packet_size, round, loop}
use tcp_1553_bus_analyzer.Parser.Chunks.{parse_stream-append, parse_stream-IsSettled, IsSettled}
use tcp_1553_bus_analyzer.Parser.Frames.{Segments, parse_stream-Segments, parse_stream-lt}
use tcp_1553_bus_analyzer.Parser.RoundTrip.{sent, seen, skipped, parse_stream-noise}
use tcp_1553_bus_analyzer.Tests.Samples.{sample, sample-IsPacket}

-- Noise, and then a packet that a read cuts in two.
abbrev stream : Bytes
unfolding packet_bytes payload_bytes
stream = 0x00 ∷ 0xab ∷ packet_bytes sample

abbrev front : Bytes
front = take 30 stream

abbrev back : Bytes
back = drop 30 stream

parse_stream-append_example :
    let (es, q) = parse_stream fresh front in
    let (fs, r) = parse_stream q back in parse_stream fresh (front ++ back) ≡ (es ++ fs, r)
parse_stream-append_example = parse_stream-append fresh front back

parse_stream-IsSettled_example : IsSettled (parse_stream fresh front).1
parse_stream-IsSettled_example = parse_stream-IsSettled fresh front

parse_stream-Segments_example :
    let (es, q) = parse_stream fresh stream in Segments stream es q.accumulator
parse_stream-Segments_example = parse_stream-Segments fresh stream

parse_stream-lt_example : length (parse_stream fresh front).1.accumulator < packet_size
parse_stream-lt_example = parse_stream-lt fresh front

parse_stream-noise_example :
    parse_stream fresh ((0x00 ∷ 0xab ∷ []) ++ sent (sample ∷ []))
    ≡ (skipped (0x00 ∷ 0xab ∷ []) ++ seen (sample ∷ []), fresh)
parse_stream-noise_example =
    parse_stream-noise (0x00 ∷ 0xab ∷ []) sample [] (omega arith, (omega arith, tt))
      (sample-IsPacket, tt)

stoul_hex-hex4_example : stoul_hex (hex4 0xbeef) ≡ some 0xbeef
stoul_hex-hex4_example = stoul_hex-hex4 0xbeef (omega arith)

-- A lone header waits for the rest of its packet.
parse_header :
    parse_stream fresh (0xaa ∷ 0x55 ∷ 1 ∷ 2 ∷ 6 ∷ 2 ∷ [])
    ≡ ([], record { accumulator = 0xaa ∷ 0x55 ∷ 1 ∷ 2 ∷ 6 ∷ 2 ∷ [] })
unfolding parse_stream loop round get_or
parse_header = refl
