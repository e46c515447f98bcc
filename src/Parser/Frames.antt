-- ===== src/Parser/Frames.antt =====
-- What the parser makes of any bytes at all, in terms of the stream alone.
use tcp_1553_bus_analyzer.Prelude.{
  ℕ, ◌<◌, ◌≤◌, ◌≡◌, refl, ap, sym, ◌∙◌, ◌⊎◌, List, [], ◌∷◌, ◌++◌, arith, length, take, drop,
  length-take, take-append-drop, get_or-take, inl, inr, ◌==◌, ◌&&◌, if◌then◌else◌,
}
use mathlib.Core.Path.{subst}
use tcp_1553_bus_analyzer.Protocol.{Bytes}
use tcp_1553_bus_analyzer.Text.{Text}
use tcp_1553_bus_analyzer.Parser.Scan.{Scan, ends, goes_on, parse_stream-Scan}
use tcp_1553_bus_analyzer.Parser.Rounds.{decode-append}
use tcp_1553_bus_analyzer.Parser.{
  Event, decoded, warned, stop, again, round, decode, at, skipping, invalid_mode, packet_size,
  parse_stream, ProtocolParser,
}

-- The first bytes of a packet that the protocol allows.
abbrev pub HasHeader : Bytes → Type 0
HasHeader b = (at b 0 ≡ 0xaa) × (at b 1 ≡ 0x55) × ((at b 2 ≡ 0) ⊎ (at b 2 ≡ 1))

-- Too little to go on with: less than a header, or a marked packet that is not complete.
abbrev pub Waits : Bytes → Type 0
Waits b = (length b < 6) ⊎ ((at b 0 ≡ 0xaa) × (at b 1 ≡ 0x55) × (length b < packet_size))

-- The line that is logged for a byte at which no packet starts.
abbrev pub complaint : Bytes → Text
complaint b = if at b 0 == 0xaa && at b 1 == 0x55 then invalid_mode (at b 2) else skipping (at b 0)

-- `stream` is, from front to back, packets of 70 bytes and single bytes at which no packet
-- starts, and then `rest`; there is one event for each packet and for each such byte.
pub data Segments : Bytes → List Event → Bytes → Type 0 where
  tail :
      {stream rest : Bytes} {es : List Event}
      → Waits stream
      → es ≡ []
      → rest ≡ stream
      → Segments stream es rest
  noise :
      {stream rest : Bytes} {es : List Event} (x : ℕ) (later : Bytes) (fs : List Event)
      → stream ≡ x ∷ later
      → ¬ HasHeader stream
      → es ≡ warned (complaint stream) ∷ fs
      → Segments later fs rest
      → Segments stream es rest
  packet :
      {stream rest : Bytes} {es : List Event} (frame later : Bytes) (fs : List Event)
      → stream ≡ frame ++ later
      → length frame ≡ packet_size
      → HasHeader frame
      → es ≡ decoded (decode frame) ∷ fs
      → Segments later fs rest
      → Segments stream es rest

round-Waits : (b : Bytes) → round b ≡ stop → Waits b
unfolding round
round-Waits b h = ground arith

-- A round that goes on, by what it found.
abbrev Found : Bytes → Event → Bytes → Type 0
Found b e next =
    (¬ HasHeader b × (0 < length b) × (e ≡ warned (complaint b)) × (next ≡ drop 1 b))
    ⊎ (HasHeader b
        × (packet_size ≤ length b)
        × (e ≡ decoded (decode b))
        × (next ≡ drop packet_size b))

round-Found : (b : Bytes) {e : Event} {next : Bytes} → round b ≡ again e next → Found b e next
unfolding round
round-Found b h = ground arith

cons_of_pos : (b : Bytes) → 0 < length b → (x : ℕ) × (b ≡ x ∷ drop 1 b)
unfolding drop
cons_of_pos [] h = elim h [ ]
cons_of_pos (x ∷ b) h = (x, refl)

-- The packet at the front of `b`, cut off from what follows it.
decode-take : (b : Bytes) → packet_size ≤ length b → decode (take packet_size b) ≡ decode b
decode-take b h =
    let front = take packet_size b in
    sym (decode-append front (drop packet_size b) (omega (arith, length-take packet_size b)))
    ∙ ap decode (take-append-drop packet_size b)

HasHeader-take : (b : Bytes) → packet_size ≤ length b → HasHeader b → HasHeader (take packet_size b)
HasHeader-take b long h = ground (
  arith,
  get_or-take packet_size b 0 0,
  get_or-take packet_size b 1 0,
  get_or-take packet_size b 2 0,
)

add_Found :
    {b next rest : Bytes} {e : Event} {es : List Event}
    → Found b e next
    → Segments next es rest
    → Segments b (e ∷ es) rest
add_Found {b} {rest = rest} {es = es} (inl (bad, some_byte, e, n)) s =
    let (x, split) = cons_of_pos b some_byte in
    noise x (drop 1 b) es split bad (cc) (subst (λ t. Segments t es rest) n s)
add_Found {b} {rest = rest} {es = es} (inr (good, long, e, n)) s =
    packet (take packet_size b) (drop packet_size b) es (sym (take-append-drop packet_size b))
      (omega (arith, length-take packet_size b)) (HasHeader-take b long good)
      (cc (decode-take b long)) (subst (λ t. Segments t es rest) n s)

Scan-Segments :
    {stream rest : Bytes} {es : List Event} → Scan stream es rest → Segments stream es rest
Scan-Segments (ends {acc = b} e) = tail (round-Waits b e) refl refl
Scan-Segments (goes_on {acc = b} e s) = add_Found (round-Found b e) (Scan-Segments s)

-- Whatever the bytes: a call takes the waiting bytes apart into the packets that the protocol
-- allows and the bytes at which none starts, with one event for each in the order of the stream,
-- and keeps what may yet become a packet.
pub parse_stream-Segments :
    (p : ProtocolParser) (buffer : Bytes)
    → let (es, q) = parse_stream p buffer in Segments (p.accumulator ++ buffer) es q.accumulator
parse_stream-Segments p buffer = Scan-Segments (parse_stream-Scan p buffer)

Segments-Waits : {stream rest : Bytes} {es : List Event} → Segments stream es rest → Waits rest
Segments-Waits (tail w _ r) = subst Waits (sym r) w
Segments-Waits (noise _ _ _ _ _ _ s) = Segments-Waits s
Segments-Waits (packet _ _ _ _ _ _ _ s) = Segments-Waits s

-- Between two calls fewer than 70 bytes are kept.
pub parse_stream-lt :
    (p : ProtocolParser) (buffer : Bytes)
    → length (parse_stream p buffer).1.accumulator < packet_size
parse_stream-lt p buffer = ground (arith, Segments-Waits (parse_stream-Segments p buffer))
