-- ===== src/Parser/Scan.antt =====
-- The loop as a relation without fuel: `Scan acc es rest` holds when the loop, started on `acc`,
-- makes the events `es` and ends by its own tests with `rest` left over.
use tcp_1553_bus_analyzer.Prelude.{
  ℕ, zero, suc, ◌<◌, ◌≡◌, refl, ap, sym, ◌∙◌, ◌⊎◌, inl, inr, List, [], ◌∷◌, ◌++◌, arith, length,
}
use tcp_1553_bus_analyzer.Protocol.{Bytes}
use tcp_1553_bus_analyzer.Parser.Rounds.{round-append, round-shrinks}
use tcp_1553_bus_analyzer.Parser.{
  Event, Round, stop, again, round, loop, parse_stream, ProtocolParser,
}

pub data Scan : Bytes → List Event → Bytes → Type 0 where
  ends : {acc : Bytes} → round acc ≡ stop → Scan acc [] acc
  goes_on :
      {acc next rest : Bytes} {e : Event} {es : List Event}
      → round acc ≡ again e next
      → Scan next es rest
      → Scan acc (e ∷ es) rest

Round-cases : (r : Round) → (r ≡ stop) ⊎ ((e : Event) × (b : Bytes) × (r ≡ again e b))
Round-cases stop = inl refl
Round-cases (again e b) = inr (e, b, refl)

-- With more fuel than bytes the loop ends by its own tests.
pub loop-Scan :
    (fuel : ℕ) (acc : Bytes) → length acc < fuel → Scan acc (loop fuel acc).0 (loop fuel acc).1
unfolding loop
loop-Scan zero acc h = elim h [ ]
loop-Scan (suc fuel) acc h = elim (Round-cases (round acc)) [
  | inl e ↦ rw (e, loop) (ends e)
  | inr (ev, b, e) ↦
      rw (e, loop) (goes_on e (loop-Scan fuel b (omega (arith, round-shrinks acc e))))
]

-- The relation has one outcome.
pub Scan-functional :
    {a b r s : Bytes} {es fs : List Event} → Scan a es r → Scan b fs s → a ≡ b → (es ≡ fs) × (r ≡ s)
Scan-functional (ends e) (ends f) p = (refl, p)
Scan-functional (ends e) (goes_on f t) p = cc (ap round p)
Scan-functional (goes_on e s) (ends f) p = cc (ap round p)
Scan-functional (goes_on {next = m} {e = x} e s) (goes_on {next = n} {e = y} f t) p =
    let same : again x m ≡ again y n = sym e ∙ ap round p ∙ f in
    let later = Scan-functional s t (cc) in (cc (later.0), later.1)

-- What is left over waits for the next bytes.
pub Scan-append :
    {a r s : Bytes} {es fs : List Event} (more : Bytes)
    → Scan a es r
    → Scan (r ++ more) fs s
    → Scan (a ++ more) (es ++ fs) s
Scan-append more (ends e) t = t
Scan-append more (goes_on {acc = acc} e s) t =
    goes_on (round-append acc more e) (Scan-append more s t)

-- A call of `parse_stream` runs the loop to its own end, over all that is waiting.
pub parse_stream-Scan :
    (p : ProtocolParser) (buffer : Bytes)
    → let (es, q) = parse_stream p buffer in Scan (p.accumulator ++ buffer) es q.accumulator
unfolding parse_stream
parse_stream-Scan p buffer =
    let acc = p.accumulator ++ buffer in loop-Scan (suc (length acc)) acc (omega arith)

-- So whatever the loop may do on the waiting bytes is what the call does.
pub Scan-parse_stream :
    (p : ProtocolParser) (buffer : Bytes) {es : List Event} {rest : Bytes}
    → Scan (p.accumulator ++ buffer) es rest
    → parse_stream p buffer ≡ (es, record { accumulator = rest })
Scan-parse_stream p buffer s =
    let (e, r) = Scan-functional (parse_stream-Scan p buffer) s refl in
    λ i. (e i, record { accumulator = r i })
