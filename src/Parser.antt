-- ===== src/Parser.antt =====
-- src/core/protocol_parser.hpp and src/core/protocol_parser.cpp: `ProtocolParser`. The parser
-- keeps the bytes that it has not yet decoded. A call of `parseStream` appends to them and runs
-- the loop; the calls that the loop makes of the callback and of the logger are its events, in
-- order.
pub mod Command
pub mod Rounds
pub mod Scan
pub mod Chunks
pub mod Frames
pub mod RoundTrip
pub mod Ranges
use tcp_1553_bus_analyzer.Prelude.{
  ℕ, zero, suc, ◌+◌, ◌*◌, ◌/◌, ◌%◌, ◌^◌, bit_and, bit_or, Bool, true, false, not, ◌&&◌, ◌||◌, List,
  [], ◌∷◌, ◌++◌, Option, none, some, ltb, ◌==◌, if◌then◌else◌, length, get_or, drop,
}
use tcp_1553_bus_analyzer.Protocol.{Bytes, MessageTransaction, clear, cleared}
use tcp_1553_bus_analyzer.Text.{Text, codes, hex2}

-- `kFixedPayloadBytes` and `kTcp1553PacketBytes`.
abbrev pub fixed_payload_bytes : ℕ
fixed_payload_bytes = 64

abbrev pub packet_size : ℕ
packet_size = 6 + fixed_payload_bytes

pub record ProtocolParser : Type 0 where
  pub accumulator : Bytes

pub data Event : Type 0 where
  decoded : MessageTransaction → Event
  warned : Text → Event

abbrev pub at : Bytes → ℕ → ℕ
at bytes i = get_or bytes i 0

-- `Logger::warn` of the two branches that drop a byte.
pub skipping : ℕ → Text
skipping byte = codes "ProtocolParser: Skipping bad magic byte: 0x" ++ hex2 byte

pub invalid_mode : ℕ → Text
invalid_mode mode = codes "ProtocolParser: Invalid mode 0x" ++ hex2 mode ++ codes ", resyncing."

-- `(rt << 11) | (tr << 10) | (sa << 5) | (wc & 0x1F)`, cut to the 16 bits of `cmd1`.
unfoldable pub command_word : ℕ → ℕ → ℕ → ℕ → ℕ
command_word rt tr sa wc =
    bit_or (bit_or (bit_or (rt * 2 ^ 11) (tr * 2 ^ 10)) (sa * 2 ^ 5)) (bit_and wc 0x1f) % 2 ^ 16

-- `(wc == 0) ? 32 : wc`, at most 32.
unfoldable pub word_count : ℕ → ℕ
word_count wc = let words = if wc == 0 then 32 else wc in if ltb 32 words then 32 else words

-- The loop over the payload; each round takes the two bytes at `payloadPtr[i * 2]`.
unfoldable pub read_words : ℕ → Bytes → List ℕ
read_words zero payload = []
read_words (suc n) payload =
    bit_or (at payload 0 * 2 ^ 8) (at payload 1) ∷ read_words n (drop 2 payload)

-- The packet at the front of the accumulator.
unfoldable pub decode : Bytes → MessageTransaction
unfolding clear
decode bytes =
    let mode = at bytes 2 in
    let rt = at bytes 3 in
    let sa = at bytes 4 in
    let wc = at bytes 5 in
    let tr : ℕ = if mode == 1 then 1 else 0 in
    record (clear cleared) {
      cmd1 = command_word rt tr sa wc;
      bus1 = b'A';
      cmd1_valid = true;
      data_words = read_words (word_count wc) (drop 6 bytes);
      stat1 = 0;
      stat1_valid = false;
    }

-- One round of the `while` loop: it leaves the loop, or drops bytes and goes on.
pub data Round : Type 0 where
  stop : Round
  again : Event → Bytes → Round

unfoldable pub round : Bytes → Round
round acc =
    if ltb (length acc) 6
    then stop
    else if not (at acc 0 == 0xaa) || not (at acc 1 == 0x55)
    then again (warned (skipping (at acc 0))) (drop 1 acc)
    else if ltb (length acc) packet_size
    then stop
    else if not (at acc 2 == 0) && not (at acc 2 == 1)
    then again (warned (invalid_mode (at acc 2))) (drop 1 acc)
    else again (decoded (decode acc)) (drop packet_size acc)

abbrev pub emit : Event → List Event × Bytes → List Event × Bytes
emit e (es, rest) = (e ∷ es, rest)

-- The loop, on fuel. Each round but the last drops a byte at least.
unfoldable pub loop : ℕ → Bytes → List Event × Bytes
loop zero acc = ([], acc)
loop (suc fuel) acc = elim (round acc) [ stop ↦ ([], acc) | again e rest ↦ emit e (loop fuel rest) ]

unfoldable pub parse_stream : ProtocolParser → Bytes → List Event × ProtocolParser
parse_stream p buffer =
    let acc = p.accumulator ++ buffer in
    let (es, rest) = loop (suc (length acc)) acc in (es, record { accumulator = rest })

unfoldable pub reset : ProtocolParser → ProtocolParser
reset p = record { accumulator = [] }

abbrev pub fresh : ProtocolParser
fresh = record { accumulator = [] }

-- The calls of the callback among the events; an empty `std::function` is not called.
unfoldable pub deliver {ℓ} : {S : Type ℓ} → Option (S → MessageTransaction → S) → S → List Event → S
deliver none s es = s
deliver (some f) s [] = s
deliver (some f) s (decoded t ∷ es) = deliver (some f) (f s t) es
deliver (some f) s (warned m ∷ es) = deliver (some f) s es
