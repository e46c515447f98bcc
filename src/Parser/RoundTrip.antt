-- ===== src/Parser/RoundTrip.antt =====
-- `ProtocolParser::parseStream` on streams of packets, and on noise before them.
use tcp_1553_bus_analyzer.Prelude.{
  ℕ, zero, suc, ◌*◌, ◌/◌, ◌%◌, ◌^◌, ◌≤◌, ◌≡◌, ◌≢◌, refl, true, ap, ◌∙◌, ◌⊎◌, List, [], ◌∷◌, ◌++◌,
  arith, length, take, drop, get_or, length-append, drop-length_append, bit_or, if◌then◌else◌, ◌==◌,
}
use tcp_1553_bus_analyzer.Prelude.Bits.{bit_or-aligned}
use tcp_1553_bus_analyzer.Protocol.{
  Bytes, Packet, MessageTransaction, cleared, payload_bytes, packet_bytes,
}
use tcp_1553_bus_analyzer.Protocol.Wire.{length-packet_bytes}
use tcp_1553_bus_analyzer.Parser.Rounds.{word_count_bounds}
use tcp_1553_bus_analyzer.Parser.Chunks.{feed, flatten, feed-flatten}
use tcp_1553_bus_analyzer.Parser.Scan.{Scan, ends, goes_on, Scan-parse_stream}
use tcp_1553_bus_analyzer.Parser.{
  Event, decoded, warned, again, round, decode, at, packet_size, parse_stream, fresh, command_word,
  word_count, read_words, skipping,
}

-- A packet as the protocol wants it.
pub record IsPacket (p : Packet) : Type 0 where
  pub magic0 : p.magic0 ≡ 0xaa
  pub magic1 : p.magic1 ≡ 0x55
  pub known_mode : (p.mode ≡ 0) ⊎ (p.mode ≡ 1)
  pub full : length p.data_words ≡ 32

-- The transaction that a packet stands for.
unfoldable pub transaction_of : Packet → MessageTransaction
transaction_of p = record cleared {
  cmd1 = command_word p.rt (if p.mode == 1 then 1 else 0) p.sa p.wc;
  bus1 = b'A';
  cmd1_valid = true;
  data_words = take (word_count p.wc) p.data_words;
}

-- The two bytes of a word, put together again.
join_bytes : (w : ℕ) → bit_or (w / 256 * 2 ^ 8) (w % 256) ≡ w
join_bytes w =
    omega (arith, bit_or-aligned 8 (w / 256 * 2 ^ 8) (w % 256) (omega arith) (omega arith))

read_words-payload_bytes :
    (n : ℕ) (ws : List ℕ) (rest : Bytes)
    → n ≤ length ws
    → read_words n (payload_bytes ws ++ rest) ≡ take n ws
unfolding read_words payload_bytes take drop get_or
read_words-payload_bytes zero ws rest h = refl
read_words-payload_bytes (suc n) [] rest h = elim h [ ]
read_words-payload_bytes (suc n) (w ∷ ws) rest h =
    cc (join_bytes w, read_words-payload_bytes n ws rest (omega arith))

decode-packet_bytes :
    (p : Packet) (rest : Bytes) → IsPacket p → decode (packet_bytes p ++ rest) ≡ transaction_of p
unfolding decode packet_bytes transaction_of get_or drop
decode-packet_bytes p rest v =
    rw
      (read_words-payload_bytes (word_count p.wc) p.data_words rest
        (omega (arith, v.full, word_count_bounds p.wc)))
      refl

header_bytes :
    (p : Packet) (rest : Bytes)
    → let b = packet_bytes p ++ rest in
      (at b 0 ≡ p.magic0) × (at b 1 ≡ p.magic1) × (at b 2 ≡ p.mode)
unfolding packet_bytes get_or
header_bytes p rest = (refl, refl, refl)

abbrev pub sent : List Packet → Bytes
sent [] = []
sent (p ∷ ps) = packet_bytes p ++ sent ps

abbrev pub seen : List Packet → List Event
seen [] = []
seen (p ∷ ps) = decoded (transaction_of p) ∷ seen ps

abbrev pub AllPackets : List Packet → Type 0
AllPackets [] = Unit {0}
AllPackets (p ∷ ps) = IsPacket p × AllPackets ps

round-packet_bytes :
    (p : Packet) (rest : Bytes)
    → IsPacket p
    → round (packet_bytes p ++ rest) ≡ again (decoded (transaction_of p)) rest
unfolding round
round-packet_bytes p rest v =
    let bytes = packet_bytes p in
    let size = length-packet_bytes p in
    ground (
      arith,
      v,
      size,
      header_bytes p rest,
      length-append bytes rest,
      decode-packet_bytes p rest v,
      drop-length_append packet_size bytes rest,
    )

Scan-sent : (ps : List Packet) → AllPackets ps → Scan (sent ps) (seen ps) []
unfolding round
Scan-sent [] v = ends refl
Scan-sent (p ∷ ps) v = goes_on (round-packet_bytes p (sent ps) v.0) (Scan-sent ps v.1)

-- A stream of well-formed packets is decoded to their transactions, in order, with no byte
-- dropped or left over.
pub parse_stream-sent :
    (ps : List Packet) → AllPackets ps → parse_stream fresh (sent ps) ≡ (seen ps, fresh)
parse_stream-sent ps v = Scan-parse_stream fresh (sent ps) (Scan-sent ps v)

-- A stream of well-formed packets, cut into buffers in any way, is decoded by a new parser to the
-- packets' transactions, in order, with no byte dropped or left over.
pub feed-sent :
    (ps : List Packet) (buffers : List Bytes)
    → AllPackets ps
    → flatten buffers ≡ sent ps
    → feed fresh buffers ≡ (seen ps, fresh)
feed-sent ps buffers v e =
    feed-flatten fresh buffers (unfold round in refl)
    ∙ ap (parse_stream fresh) e
    ∙ parse_stream-sent ps v

-- Bytes of which none is the first byte of the mark.
abbrev pub AllNoise : Bytes → Type 0
AllNoise [] = Unit {0}
AllNoise (x ∷ xs) = (x ≢ 0xaa) × AllNoise xs

abbrev pub skipped : Bytes → List Event
skipped [] = []
skipped (x ∷ xs) = warned (skipping x) ∷ skipped xs

round-noise :
    (x : ℕ) (rest : Bytes)
    → x ≢ 0xaa
    → 5 ≤ length rest
    → round (x ∷ rest) ≡ again (warned (skipping x)) rest
unfolding round get_or drop
round-noise x rest h long = ground arith

Scan-noise :
    (noise : Bytes) (p : Packet) (ps : List Packet)
    → AllNoise noise
    → AllPackets (p ∷ ps)
    → Scan (noise ++ sent (p ∷ ps)) (skipped noise ++ seen (p ∷ ps)) []
Scan-noise [] p ps n v = Scan-sent (p ∷ ps) v
Scan-noise (x ∷ xs) p ps n v =
    let stream = sent (p ∷ ps) in
    goes_on
      (round-noise x (xs ++ stream) n.0 (
        omega (
          arith,
          length-append xs stream,
          length-append (packet_bytes p) (sent ps),
          length-packet_bytes p,
        )))
      (Scan-noise xs p ps n.1 v)

-- A new parser that is given bytes that hold no 0xAA and then packets, one at least, skips those
-- bytes with one log line for each, and decodes every packet, in order.
pub parse_stream-noise :
    (noise : Bytes) (p : Packet) (ps : List Packet)
    → AllNoise noise
    → AllPackets (p ∷ ps)
    → parse_stream fresh (noise ++ sent (p ∷ ps)) ≡ (skipped noise ++ seen (p ∷ ps), fresh)
parse_stream-noise noise p ps n v =
    Scan-parse_stream fresh (noise ++ sent (p ∷ ps)) (Scan-noise noise p ps n v)
