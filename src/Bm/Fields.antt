-- ===== src/Bm/Fields.antt =====
-- The monitor takes the fields of a packet out of the command word that the parser packs.
use tcp_1553_bus_analyzer.Prelude.{
  ℕ, ◌/◌, ◌^◌, ◌<◌, ◌≤◌, ◌≡◌, refl, ◌∙◌, arith, ◌==◌, if◌then◌else◌,
}
use tcp_1553_bus_analyzer.Prelude.Bits.{bit_and-five_bits, bit_and-one}
use tcp_1553_bus_analyzer.Protocol.{Packet}
use tcp_1553_bus_analyzer.Parser.{command_word, word_count}
use tcp_1553_bus_analyzer.Parser.Command.{command_word_as_sum}
use tcp_1553_bus_analyzer.Parser.RoundTrip.{IsPacket, transaction_of}
use tcp_1553_bus_analyzer.Bm.Format.{rt_of, tr_of, sa_of, actual_wc, header_text, header_line}

-- Addresses of five bits and a word count of at most 32 come out of the command word as they went
-- in, a count of 0 as the 32 words that it stands for.
pub command_word_fields :
    (rt tr sa wc : ℕ)
    → rt < 32
    → tr < 2
    → sa < 32
    → wc ≤ 32
    → let cmd = command_word rt tr sa wc in
      (rt_of cmd ≡ rt) × (tr_of cmd ≡ tr) × (sa_of cmd ≡ sa) × (actual_wc cmd ≡ word_count wc)
unfolding rt_of tr_of sa_of actual_wc word_count
command_word_fields rt tr sa wc hr ht hs hw =
    let cmd = command_word rt tr sa wc in
    let e = command_word_as_sum rt tr sa wc hr ht hs in
    let five = bit_and-five_bits cmd in
    (
      bit_and-five_bits (cmd / 2 ^ 11) ∙ omega (arith, e),
      bit_and-one (cmd / 2 ^ 10) ∙ omega (arith, e),
      bit_and-five_bits (cmd / 2 ^ 5) ∙ omega (arith, e),
      ground (arith, e, five),
    )

-- A packet whose addresses and count are those of the bus.
pub record IsOnBus (p : Packet) : Type 0 where
  pub packet : IsPacket p
  pub rt_range : p.rt < 32
  pub sa_range : p.sa < 32
  pub wc_range : p.wc ≤ 32

-- The header line of a packet on the bus names its own direction, addresses and number of words.
pub header_line-transaction_of :
    (p : Packet)
    → IsOnBus p
    → let t = transaction_of p in
      header_line t.bus1 t.cmd1
      ≡ header_text b'A' (if p.mode == 1 then 1 else 0) p.rt p.sa (word_count p.wc)
unfolding transaction_of header_line
header_line-transaction_of p v =
    let tr : ℕ = if p.mode == 1 then 1 else 0 in
    let (rt, t, sa, wc) =
      command_word_fields p.rt tr p.sa p.wc v.rt_range (ground arith) v.sa_range v.wc_range in
    rw (rt, t, sa, wc) refl
