-- ===== src/Parser/Chunks.antt =====
-- `ProtocolParser::parseStream` over a stream that is cut into several calls.
use tcp_1553_bus_analyzer.Prelude.{◌≡◌, sym, List, [], ◌∷◌, ◌++◌}
use mathlib.Core.List.{append_assoc, append-nil}
use tcp_1553_bus_analyzer.Protocol.{Bytes}
use tcp_1553_bus_analyzer.Parser.Scan.{
  Scan, ends, goes_on, Scan-append, parse_stream-Scan, Scan-parse_stream,
}
use tcp_1553_bus_analyzer.Parser.{Event, stop, round, parse_stream, ProtocolParser}

-- The parser has nothing left to do before more bytes come.
abbrev pub IsSettled : ProtocolParser → Type 0
IsSettled p = round p.accumulator ≡ stop

Scan-stop : {a r : Bytes} {es : List Event} → Scan a es r → round r ≡ stop
Scan-stop (ends e) = e
Scan-stop (goes_on e s) = Scan-stop s

-- Every call leaves the parser settled: the loop ends by its own tests, never for want of fuel.
pub parse_stream-IsSettled :
    (p : ProtocolParser) (buffer : Bytes) → IsSettled (parse_stream p buffer).1
parse_stream-IsSettled p buffer = Scan-stop (parse_stream-Scan p buffer)

-- Two calls, one after the other, do what one call with all the bytes does: the same events in
-- the same order, and the same bytes kept.
pub parse_stream-append :
    (p : ProtocolParser) (first second : Bytes)
    → let (es, q) = parse_stream p first in
      let (fs, r) = parse_stream q second in parse_stream p (first ++ second) ≡ (es ++ fs, r)
parse_stream-append p first second =
    let (es, q) = parse_stream p first in
    Scan-parse_stream p (first ++ second) (
      rw (← append_assoc)
        (Scan-append second (parse_stream-Scan p first) (parse_stream-Scan q second)))

-- The calls that the monitor thread makes, one for each buffer that it is handed.
unfoldable pub feed : ProtocolParser → List Bytes → List Event × ProtocolParser
feed p [] = ([], p)
feed p (b ∷ bs) = let (es, q) = parse_stream p b in let (fs, r) = feed q bs in (es ++ fs, r)

abbrev pub flatten : List Bytes → Bytes
flatten [] = []
flatten (b ∷ bs) = b ++ flatten bs

Scan-feed :
    (p : ProtocolParser) (bs : List Bytes)
    → IsSettled p
    → Scan (p.accumulator ++ flatten bs) (feed p bs).0 (feed p bs).1.accumulator
unfolding feed
Scan-feed p [] h = rw append-nil (ends h)
Scan-feed p (b ∷ bs) h = rw (← append_assoc) (
    Scan-append (flatten bs) (parse_stream-Scan p b)
      (Scan-feed (parse_stream p b).1 bs (parse_stream-IsSettled p b)))

-- Whatever way a stream is cut into buffers, the monitor makes the same events of it.
pub feed-flatten :
    (p : ProtocolParser) (bs : List Bytes) → IsSettled p → feed p bs ≡ parse_stream p (flatten bs)
feed-flatten p bs h = sym (Scan-parse_stream p (flatten bs) (Scan-feed p bs h))
