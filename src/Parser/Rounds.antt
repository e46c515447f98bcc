-- ===== src/Parser/Rounds.antt =====
-- What one round of the loop reads and drops.
use tcp_1553_bus_analyzer.Prelude.{
  ℕ, zero, suc, ◌*◌, ◌≤◌, ◌<◌, ◌≡◌, refl, ap, ◌++◌, arith, length, drop, length-append, length-drop,
  get_or-append, drop-append,
}
use tcp_1553_bus_analyzer.Protocol.{Bytes}
use tcp_1553_bus_analyzer.Parser.{
  at, word_count, read_words, decode, Event, again, round, packet_size,
}

pub word_count_bounds : (wc : ℕ) → (0 < word_count wc) × (word_count wc ≤ 32)
unfolding word_count
word_count_bounds wc = ground arith

pub length-read_words : (n : ℕ) (payload : Bytes) → length (read_words n payload) ≡ n
unfolding read_words
length-read_words zero payload = refl
length-read_words (suc n) payload = ap suc (length-read_words n (drop 2 payload))

read_words-append :
    (n : ℕ) (payload more : Bytes)
    → n * 2 ≤ length payload
    → read_words n (payload ++ more) ≡ read_words n payload
unfolding read_words
read_words-append zero payload more h = refl
read_words-append (suc n) payload more h = ground (
  arith,
  get_or-append payload more 0 0,
  get_or-append payload more 1 0,
  drop-append 2 payload more,
  length-drop 2 payload,
  read_words-append n (drop 2 payload) more,
)

-- A packet is decoded from its own 70 bytes alone.
pub decode-append :
    (acc more : Bytes) → packet_size ≤ length acc → decode (acc ++ more) ≡ decode acc
unfolding decode
decode-append acc more h = ground (
  arith,
  get_or-append acc more 2 0,
  get_or-append acc more 3 0,
  get_or-append acc more 4 0,
  get_or-append acc more 5 0,
  drop-append 6 acc more,
  length-drop 6 acc,
  word_count_bounds (at acc 5),
  read_words-append (word_count (at acc 5)) (drop 6 acc) more,
)

-- A round that goes on does the same whatever follows the bytes that it has.
pub round-append :
    (acc more : Bytes) {e : Event} {rest : Bytes}
    → round acc ≡ again e rest
    → round (acc ++ more) ≡ again e (rest ++ more)
unfolding round
round-append acc more h = ground (
  arith,
  length-append acc more,
  get_or-append acc more 0 0,
  get_or-append acc more 1 0,
  get_or-append acc more 2 0,
  decode-append acc more,
  drop-append 1 acc more,
  drop-append packet_size acc more,
)

-- Such a round drops at least one byte.
pub round-shrinks :
    (acc : Bytes) {e : Event} {rest : Bytes} → round acc ≡ again e rest → length rest < length acc
unfolding round
round-shrinks acc h = ground (arith, length-drop 1 acc, length-drop packet_size acc)
