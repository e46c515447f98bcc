-- ===== src/Bc/Payload.antt =====
-- The packet that `sendAcyclicFrame` builds of a frame.
use tcp_1553_bus_analyzer.Prelude.{
  ℕ, zero, suc, ◌^◌, ◌<◌, ◌≡◌, ◌⊎◌, refl, ap, ◌∙◌, List, [], ◌∷◌, ◌++◌, ltb, if◌then◌else◌, length,
  get_or, map, arith, length-append, length-map, get_or-length_append,
}
use mathlib.Core.List.{append_assoc}
use tcp_1553_bus_analyzer.Protocol.{packet_bytes}
use tcp_1553_bus_analyzer.Protocol.Wire.{length-packet_bytes}
use tcp_1553_bus_analyzer.Text.{Text, hex4}
use tcp_1553_bus_analyzer.Text.Hex.{stoul_hex-hex4}
use tcp_1553_bus_analyzer.Common.{FrameConfig, BcMode}
use tcp_1553_bus_analyzer.Parser.RoundTrip.{IsPacket}
use tcp_1553_bus_analyzer.Bc.Send.{packet_of, words_from, word_of_text, wire_mode, total_size}

length-words_from : (n i : ℕ) (texts : List Text) → length (words_from n i texts) ≡ n
unfolding words_from
length-words_from zero i texts = refl
length-words_from (suc n) i texts = ap suc (length-words_from n (suc i) texts)

wire_mode-known : (m : BcMode) → (wire_mode m ≡ 0) ⊎ (wire_mode m ≡ 1)
wire_mode-known m = ground arith

-- Whatever the frame says, what is built of it is a packet that the protocol allows.
pub packet_of-IsPacket : (config : FrameConfig) → IsPacket (packet_of config)
unfolding packet_of
packet_of-IsPacket config = record {
  magic0 = refl;
  magic1 = refl;
  known_mode = wire_mode-known config.mode;
  full = length-words_from 32 0 config.data_texts;
}

pub length-packet_of :
    (config : FrameConfig) → length (packet_bytes (packet_of config)) ≡ total_size
length-packet_of config =
    omega (arith, length-packet_bytes (packet_of config), (packet_of-IsPacket config).full)

abbrev pub AllWords : List ℕ → Type 0
AllWords [] = Unit {0}
AllWords (w ∷ ws) = (w < 2 ^ 16) × AllWords ws

word_of_text-hex4 : (w : ℕ) → w < 2 ^ 16 → word_of_text (hex4 w) ≡ w
unfolding word_of_text
word_of_text-hex4 w h = rw (stoul_hex-hex4 w h, word_of_text) (omega arith)

-- From word i on, where the texts before it are set aside.
words_from-append :
    (before texts : List Text)
    → words_from (length texts) (length before) (before ++ texts) ≡ map word_of_text texts
unfolding words_from get_or
words_from-append before [] = refl
words_from-append before (t ∷ ts) = cc (
  here,
  ap (λ (k : ℕ). words_from (length ts) k (before ++ t ∷ ts)) (one_more),
  ap (words_from (length ts) (length (before ++ t ∷ []))) (append_assoc before (t ∷ []) ts),
  words_from-append (before ++ t ∷ []) ts,
)
  where
    one_more : suc (length before) ≡ length (before ++ t ∷ [])
    one_more = omega (arith, length-append before (t ∷ []))

    at_text : get_or (before ++ t ∷ ts) (length before) [] ≡ t
    at_text =
        ap (λ (k : ℕ). get_or (before ++ t ∷ ts) k []) (omega arith)
        ∙ get_or-length_append before (t ∷ ts) 0 []

    here :
        (if ltb (length before) (length (before ++ t ∷ ts))
          then word_of_text (get_or (before ++ t ∷ ts) (length before) [])
          else 0)
        ≡ word_of_text t
    here = ground (arith, length-append before (t ∷ ts), at_text)

map-word_of_text : (ws : List ℕ) → AllWords ws → map word_of_text (map hex4 ws) ≡ ws
map-word_of_text [] h = refl
map-word_of_text (w ∷ ws) h = cc (word_of_text-hex4 w h.0, map-word_of_text ws h.1)

-- The 32 words of 16 bits whose four-digit texts a frame holds are the payload of its packet,
-- whatever the mode of the frame.
pub packet_of-hex4 :
    (config : FrameConfig) (ws : List ℕ)
    → length ws ≡ 32
    → AllWords ws
    → config.data_texts ≡ map hex4 ws
    → (packet_of config).data_words ≡ ws
unfolding packet_of
packet_of-hex4 config ws long h e =
    ap (words_from 32 0) e
    ∙ ap (λ (k : ℕ). words_from k 0 (map hex4 ws)) (omega (arith, length-map ws hex4))
    ∙ words_from-append [] (map hex4 ws)
    ∙ map-word_of_text ws h
