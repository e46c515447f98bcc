-- ===== src/Parser/Command.antt =====
-- The command word as arithmetic, and the five-bit fields that the monitor takes out of it.
use tcp_1553_bus_analyzer.Prelude.{ℕ, ◌+◌, ◌*◌, ◌%◌, ◌^◌, ◌<◌, ◌≡◌, arith}
use tcp_1553_bus_analyzer.Prelude.Bits.{bit_or-aligned, bit_and-five_bits}
use tcp_1553_bus_analyzer.Parser.{command_word}

-- For addresses of five bits no field of the word runs into the next one.
pub command_word_as_sum :
    (rt tr sa wc : ℕ)
    → rt < 32
    → tr < 2
    → sa < 32
    → command_word rt tr sa wc ≡ rt * 2048 + tr * 1024 + sa * 32 + wc % 32
unfolding command_word
command_word_as_sum rt tr sa wc hr ht hs =
    rw
      (
        bit_or-aligned 11 (rt * 2 ^ 11) (tr * 2 ^ 10) (omega arith) (omega arith),
        bit_or-aligned 10 (rt * 2 ^ 11 + tr * 2 ^ 10) (sa * 2 ^ 5) (omega arith) (omega arith),
        bit_and-five_bits wc,
        bit_or-aligned 5 (rt * 2 ^ 11 + tr * 2 ^ 10 + sa * 2 ^ 5) (wc % 32) (omega arith)
            (omega arith),
      )
      (omega arith)

pub command_word-lt : (rt tr sa wc : ℕ) → command_word rt tr sa wc < 2 ^ 16
unfolding command_word
command_word-lt rt tr sa wc = omega arith
