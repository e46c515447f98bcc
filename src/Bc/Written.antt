-- ===== src/Bc/Written.antt =====
-- What `sendAcyclicFrame` writes is bytes.
use tcp_1553_bus_analyzer.Prelude.{
  ℕ, zero, suc, ◌^◌, ◌<◌, ◌≡◌, List, [], ◌∷◌, arith, if_either, length, ltb, get_or,
}
use tcp_1553_bus_analyzer.Prelude.Int.{to_u8-lt}
use tcp_1553_bus_analyzer.Protocol.{payload_bytes, packet_bytes}
use tcp_1553_bus_analyzer.Text.{Text}
use tcp_1553_bus_analyzer.Common.{FrameConfig, BcMode}
use tcp_1553_bus_analyzer.Parser.Ranges.{AllBelow}
use tcp_1553_bus_analyzer.Bc.Send.{packet_of, words_from, word_of_text, wire_mode, total_size}
use tcp_1553_bus_analyzer.Bc.Payload.{length-packet_of}

word_of_text-lt : (s : Text) → word_of_text s < 2 ^ 16
unfolding word_of_text
word_of_text-lt s = ground arith

words_from-AllBelow : (n i : ℕ) (texts : List Text) → AllBelow (2 ^ 16) (words_from n i texts)
unfolding words_from
words_from-AllBelow zero i texts = tt
words_from-AllBelow (suc n) i texts =
    let word = word_of_text-lt (get_or texts i []) in
    (
      if_either (λ (w : ℕ). w < 2 ^ 16) (ltb i (length texts)) word (omega arith),
      words_from-AllBelow n (suc i) texts,
    )

payload_bytes-AllBelow : (ws : List ℕ) → AllBelow (2 ^ 16) ws → AllBelow 256 (payload_bytes ws)
unfolding payload_bytes
payload_bytes-AllBelow [] v = tt
payload_bytes-AllBelow (w ∷ ws) v =
    (omega (arith, v.0), (omega arith, payload_bytes-AllBelow ws v.1))

wire_mode-lt : (m : BcMode) → wire_mode m < 256
wire_mode-lt m = ground arith

-- Whatever the fields of a frame say, negative numbers and texts that are no numbers included,
-- what is written for it is 70 bytes.
pub packet_bytes-AllBelow :
    (config : FrameConfig)
    → AllBelow 256 (packet_bytes (packet_of config))
      × (length (packet_bytes (packet_of config)) ≡ total_size)
unfolding packet_bytes packet_of
packet_bytes-AllBelow c =
    let texts = c.data_texts in
    let payload : AllBelow 256 (payload_bytes (words_from 32 0 texts)) =
      payload_bytes-AllBelow (words_from 32 0 texts) (words_from-AllBelow 32 0 texts) in
    (
      (
        omega arith,
        (
          omega arith,
          (wire_mode-lt c.mode, (to_u8-lt c.rt, (to_u8-lt c.sa, (to_u8-lt c.wc, payload)))),
        ),
      ),
      length-packet_of c,
    )
