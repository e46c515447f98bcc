-- ===== src/Defaults/Valid.antt =====
-- What the default frames put on the bus.
use tcp_1553_bus_analyzer.Prelude.{
  ℕ, zero, suc, ◌<◌, ◌≡◌, ◌^◌, refl, ap, ◌∙◌, List, [], ◌∷◌, arith, length, ◌==◌, if◌then◌else◌,
  take-length, take,
}
use tcp_1553_bus_analyzer.Prelude.Int.{to_u8}
use tcp_1553_bus_analyzer.Text.{Text}
use tcp_1553_bus_analyzer.Common.{FrameConfig, is_rt_to_bc}
use tcp_1553_bus_analyzer.Parser.{word_count}
use tcp_1553_bus_analyzer.Parser.RoundTrip.{transaction_of}
use tcp_1553_bus_analyzer.Bc.Send.{packet_of}
use tcp_1553_bus_analyzer.Bc.Payload.{AllWords, packet_of-hex4, packet_of-IsPacket}
use tcp_1553_bus_analyzer.Bm.Format.{header_line, header_text}
use tcp_1553_bus_analyzer.Bm.Fields.{IsOnBus, header_line-transaction_of}
use tcp_1553_bus_analyzer.Frame.Summary.{transmits}
use tcp_1553_bus_analyzer.Defaults.{drawn, randomize_data, default_frame, default_frames}

length-drawn : (n i : ℕ) (dice : ℕ → ℕ) → length (drawn n i dice) ≡ n
unfolding drawn
length-drawn zero i dice = refl
length-drawn (suc n) i dice = ap suc (length-drawn n (suc i) dice)

drawn-AllWords : (n i : ℕ) (dice : ℕ → ℕ) → ((k : ℕ) → dice k < 2 ^ 16) → AllWords (drawn n i dice)
unfolding drawn
drawn-AllWords zero i dice h = tt
drawn-AllWords (suc n) i dice h = (h i, drawn-AllWords n (suc i) dice h)

-- What the monitor makes of a frame: all of the 32 numbers, and a header line with the direction
-- and the addresses of the frame.
abbrev pub IsShown : (ℕ → ℕ) → FrameConfig → Type 0
IsShown dice c =
    let t = transaction_of (packet_of c) in
    (t.data_words ≡ drawn 32 0 dice)
    × (header_line t.bus1 t.cmd1
        ≡ header_text b'A' (if is_rt_to_bc c.mode then 1 else 0) (to_u8 c.rt) (to_u8 c.sa) 32)

module _ (dice : ℕ → ℕ) (range : (k : ℕ) → dice k < 2 ^ 16) (label : Text) (rt sa tr : ℕ)
    (small_rt : rt < 32) (small_sa : sa < 32) where
  frame : FrameConfig
  frame = default_frame dice label rt sa 32 tr

  words : (packet_of frame).data_words ≡ drawn 32 0 dice
  unfolding frame default_frame randomize_data
  words =
      packet_of-hex4 frame (drawn 32 0 dice) (length-drawn 32 0 dice)
        (drawn-AllWords 32 0 dice range) refl

  on_bus : IsOnBus (packet_of frame)
  unfolding frame default_frame packet_of
  on_bus = record {
    packet = packet_of-IsPacket frame;
    rt_range = omega arith;
    sa_range = omega arith;
    wc_range = omega arith;
  }

  default_frame-IsShown : IsShown dice (default_frame dice label rt sa 32 tr)
  unfolding frame transaction_of
  default_frame-IsShown =
      let p = packet_of frame in
      let count : word_count p.wc ≡ 32 = unfold packet_of default_frame word_count in refl in
      let full : length p.data_words ≡ 32 =
        ap (λ (t : List ℕ). length t) words ∙ length-drawn 32 0 dice in
      let fields : (p.rt ≡ to_u8 frame.rt)
          × (p.sa ≡ to_u8 frame.sa)
          × ((p.mode == 1) ≡ is_rt_to_bc frame.mode) =
        (
          unfold packet_of in refl,
          unfold packet_of in refl,
          unfold packet_of in transmits frame.mode,
        ) in
      (
        ap (λ (k : ℕ). take k p.data_words) count ∙ take-length 32 p.data_words full ∙ words,
        header_line-transaction_of p on_bus ∙ rw (fields.0, fields.1, fields.2, count) refl,
      )

-- Frame after frame, each with the numbers drawn for it.
abbrev pub AllShown : (ℕ → ℕ → ℕ) → ℕ → List FrameConfig → Type 0
AllShown dice f [] = Unit {0}
AllShown dice f (c ∷ cs) = IsShown (dice f) c × AllShown dice (suc f) cs

-- Whatever 16-bit numbers are drawn: the monitor decodes from the packet of each of the five
-- default frames the 32 numbers drawn for it, and its header line names the frame's own
-- direction, terminal and subaddress, and 32 words.
pub default_frames-AllShown :
    (dice : ℕ → ℕ → ℕ) → ((f k : ℕ) → dice f k < 2 ^ 16) → AllShown dice 0 (default_frames dice)
unfolding default_frames
default_frames-AllShown dice h = (
  default_frame-IsShown (dice 0) (h 0) _ 2 4 0 (omega arith) (omega arith),
  (
    default_frame-IsShown (dice 1) (h 1) _ 2 6 1 (omega arith) (omega arith),
    (
      default_frame-IsShown (dice 2) (h 2) _ 7 1 1 (omega arith) (omega arith),
      (
        default_frame-IsShown (dice 3) (h 3) _ 21 3 1 (omega arith) (omega arith),
        (default_frame-IsShown (dice 4) (h 4) _ 16 2 1 (omega arith) (omega arith), tt),
      ),
    ),
  ),
)
