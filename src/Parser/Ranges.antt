-- ===== src/Parser/Ranges.antt =====
-- What the parser makes of bytes fits the types of the transaction's fields.
use tcp_1553_bus_analyzer.Prelude.{
  ℕ, zero, suc, ◌*◌, ◌^◌, ◌≤◌, ◌<◌, ◌≡◌, refl, true, if_either, ltb, not, ◌&&◌, ◌||◌, ◌==◌, List,
  [], ◌∷◌, ◌++◌, arith, length, get_or, drop,
}
use tcp_1553_bus_analyzer.Prelude.Bits.{bit_or-aligned}
use tcp_1553_bus_analyzer.Protocol.{Bytes, MessageTransaction, clear}
use tcp_1553_bus_analyzer.Parser.Command.{command_word-lt}
use tcp_1553_bus_analyzer.Parser.Rounds.{word_count_bounds, length-read_words}
use tcp_1553_bus_analyzer.Parser.{
  ProtocolParser, Event, decoded, warned, at, word_count, read_words, decode, Round, stop, again,
  round, loop, emit, parse_stream, packet_size,
}

abbrev pub AllBelow : ℕ → List ℕ → Type 0
AllBelow m [] = Unit {0}
AllBelow m (x ∷ xs) = (x < m) × AllBelow m xs

-- The command word and the data words are words of 16 bits, there are 1 to 32 data words, and the
-- command is valid and on bus A.
pub record IsInRange (t : MessageTransaction) : Type 0 where
  pub command : t.cmd1 < 2 ^ 16
  pub words : AllBelow (2 ^ 16) t.data_words
  pub some_words : 1 ≤ length t.data_words
  pub few_words : length t.data_words ≤ 32
  pub valid : t.cmd1_valid ≡ true
  pub bus : t.bus1 ≡ b'A'

abbrev pub AllInRange : List Event → Type 0
AllInRange [] = Unit {0}
AllInRange (decoded t ∷ es) = IsInRange t × AllInRange es
AllInRange (warned m ∷ es) = AllInRange es

AllBelow-append : (m : ℕ) (xs ys : List ℕ) → AllBelow m xs → AllBelow m ys → AllBelow m (xs ++ ys)
AllBelow-append m [] ys v w = w
AllBelow-append m (x ∷ xs) ys v w = (v.0, AllBelow-append m xs ys v.1 w)

AllBelow-drop : (m n : ℕ) (xs : List ℕ) → AllBelow m xs → AllBelow m (drop n xs)
unfolding drop
AllBelow-drop m zero xs v = v
AllBelow-drop m (suc n) [] v = tt
AllBelow-drop m (suc n) (x ∷ xs) v = AllBelow-drop m n xs v.1

at-lt : (bytes : Bytes) (i : ℕ) → AllBelow 256 bytes → at bytes i < 256
unfolding get_or
at-lt [] i v = omega arith
at-lt (x ∷ xs) zero v = v.0
at-lt (x ∷ xs) (suc i) v = at-lt xs i v.1

read_words-ranges :
    (n : ℕ) (payload : Bytes) → AllBelow 256 payload → AllBelow (2 ^ 16) (read_words n payload)
unfolding read_words
read_words-ranges zero payload v = tt
read_words-ranges (suc n) payload v =
    let high = at-lt payload 0 v in
    let low = at-lt payload 1 v in
    let word =
      bit_or-aligned 8 (at payload 0 * 2 ^ 8) (at payload 1) (omega arith) (omega (arith, low)) in
    (
      omega (arith, word, high, low),
      read_words-ranges n (drop 2 payload) (AllBelow-drop 256 2 payload v),
    )

decode-ranges : (bytes : Bytes) → AllBelow 256 bytes → IsInRange (decode bytes)
unfolding decode clear
decode-ranges bytes v =
    let n = word_count (at bytes 5) in
    let count = length-read_words n (drop 6 bytes) in
    let bounds = word_count_bounds (at bytes 5) in
    record {
      command = command_word-lt (at bytes 3) _ (at bytes 4) (at bytes 5);
      words = read_words-ranges n (drop 6 bytes) (AllBelow-drop 256 6 bytes v);
      some_words = omega (arith, count, bounds);
      few_words = omega (arith, count, bounds);
      valid = refl;
      bus = refl;
    }

-- One round.
abbrev RoundInRange : Round → Type 0
RoundInRange stop = Unit {0}
RoundInRange (again e rest) = AllInRange (e ∷ []) × AllBelow 256 rest

round-ranges : (acc : Bytes) → AllBelow 256 acc → RoundInRange (round acc)
unfolding round
round-ranges acc v =
    let one_less = AllBelow-drop 256 1 acc v in
    if_either RoundInRange (ltb (length acc) 6) tt (
      if_either RoundInRange (not (at acc 0 == 0xaa) || not (at acc 1 == 0x55)) (tt, one_less)
        (if_either RoundInRange (ltb (length acc) packet_size) tt (
          if_either RoundInRange (not (at acc 2 == 0) && not (at acc 2 == 1)) (tt, one_less)
            ((decode-ranges acc v, tt), AllBelow-drop 256 packet_size acc v))))

-- The loop behind a round.
abbrev go_on : ℕ → Bytes → Round → List Event × Bytes
go_on fuel acc stop = ([], acc)
go_on fuel acc (again e rest) = emit e (loop fuel rest)

after_round :
    (fuel : ℕ) (acc : Bytes) (r : Round)
    → ((rest : Bytes)
        → AllBelow 256 rest
        → AllInRange (loop fuel rest).0 × AllBelow 256 (loop fuel rest).1)
    → AllBelow 256 acc
    → RoundInRange r
    → AllInRange (go_on fuel acc r).0 × AllBelow 256 (go_on fuel acc r).1
after_round fuel acc stop later v w = (tt, v)
after_round fuel acc (again (decoded t) rest) later v w =
    let (es, bytes) = later rest w.1 in ((w.0.0, es), bytes)
after_round fuel acc (again (warned m) rest) later v w = later rest w.1

loop-ranges :
    (fuel : ℕ) (acc : Bytes)
    → AllBelow 256 acc
    → AllInRange (loop fuel acc).0 × AllBelow 256 (loop fuel acc).1
unfolding loop
loop-ranges zero acc v = (tt, v)
loop-ranges (suc fuel) acc v =
    after_round fuel acc (round acc) (loop-ranges fuel) v (round-ranges acc v)

-- Of a stream of bytes, however it is cut and whatever it holds, every transaction that is decoded
-- fits its types: a command word of 16 bits, valid and on bus A, and 1 to 32 data words of 16 bits;
-- and what is kept for the next call are bytes.
pub parse_stream-ranges :
    (p : ProtocolParser) (buffer : Bytes)
    → AllBelow 256 p.accumulator
    → AllBelow 256 buffer
    → let (es, q) = parse_stream p buffer in AllInRange es × AllBelow 256 q.accumulator
unfolding parse_stream
parse_stream-ranges p buffer v w =
    let acc = p.accumulator ++ buffer in
    loop-ranges (suc (length acc)) acc (AllBelow-append 256 p.accumulator buffer v w)
