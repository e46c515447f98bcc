-- ===== src/Frame/Summary.antt =====
-- What a frame shows.
use tcp_1553_bus_analyzer.Prelude.{
  ℕ, zero, suc, ◌+◌, ◌*◌, ◌%◌, ◌^◌, ◌<◌, ◌≤◌, ◌≡◌, refl, ap, ◌∙◌, true, false, List, [], arith,
  get_or, if◌then◌else◌, ◌==◌,
}
use tcp_1553_bus_analyzer.Prelude.Int.{ℤ, pos, to_u8, above}
use tcp_1553_bus_analyzer.Prelude.Bits.{bit_or-aligned, bit_and-five_bits}
use tcp_1553_bus_analyzer.Text.{Text}
use tcp_1553_bus_analyzer.Common.{
  FrameConfig, BcMode, bc_to_rt, rt_to_bc, rt_to_rt, mode_code_no_data, mode_code_with_data,
  is_rt_to_bc,
}
use tcp_1553_bus_analyzer.Parser.RoundTrip.{transaction_of}
use tcp_1553_bus_analyzer.Parser.Command.{command_word_as_sum}
use tcp_1553_bus_analyzer.Bc.Send.{packet_of, wire_mode}
use tcp_1553_bus_analyzer.Frame.{
  FrameComponent, update_values, labels_from, words_to_show, summary_word,
}

-- A frame whose addresses and count are those of the bus.
pub record IsInRange (c : FrameConfig) (rt sa wc : ℕ) : Type 0 where
  pub rt_is : c.rt ≡ pos rt
  pub sa_is : c.sa ≡ pos sa
  pub wc_is : c.wc ≡ pos wc
  pub rt_range : rt < 32
  pub sa_range : sa < 32
  pub wc_range : wc ≤ 32

small_mod : (n : ℕ) → n < 2 ^ 32 → n % 2 ^ 32 ≡ n
small_mod n h = omega arith

summary_word_as_sum :
    (c : FrameConfig) (rt sa wc : ℕ)
    → IsInRange c rt sa wc
    → summary_word c ≡ rt * 2048 + sa * 32 + wc % 32
unfolding summary_word
summary_word_as_sum c rt sa wc v =
    rw
      (
        v.rt_is,
        v.sa_is,
        v.wc_is,
        small_mod rt (omega (arith, v.rt_range)),
        small_mod sa (omega (arith, v.sa_range)),
        small_mod wc (omega (arith, v.wc_range)),
        bit_and-five_bits wc,
        bit_or-aligned 11 (rt * 2 ^ 11) (sa * 2 ^ 5) (omega arith) (omega (arith, v.sa_range)),
        bit_or-aligned 5 (rt * 2 ^ 11 + sa * 2 ^ 5) (wc % 32) (omega arith) (omega arith),
      )
      (omega (arith, v.rt_range, v.sa_range))

pub transmits : (m : BcMode) → (wire_mode m == 1) ≡ is_rt_to_bc m
transmits bc_to_rt = refl
transmits rt_to_bc = refl
transmits rt_to_rt = refl
transmits mode_code_no_data = refl
transmits mode_code_with_data = refl

-- The word in brackets is the command word that the monitor sees of the frame, for addresses and a
-- count of the bus, but without the transmit bit: for a frame of mode RT_TO_BC it is 1024 too low.
pub summary_word_on_bus :
    (c : FrameConfig) (rt sa wc : ℕ)
    → IsInRange c rt sa wc
    → (transaction_of (packet_of c)).cmd1
      ≡ summary_word c + (if is_rt_to_bc c.mode then 1024 else 0)
unfolding transaction_of packet_of
summary_word_on_bus c rt sa wc v =
    let tr : ℕ = if is_rt_to_bc c.mode then 1 else 0 in
    let cut : (to_u8 c.rt ≡ rt) × (to_u8 c.sa ≡ sa) × (to_u8 c.wc ≡ wc) = (
      ap to_u8 v.rt_is ∙ omega (arith, v.rt_range),
      ap to_u8 v.sa_is ∙ omega (arith, v.sa_range),
      ap to_u8 v.wc_is ∙ omega (arith, v.wc_range),
    ) in
    rw (cut.0, cut.1, cut.2, transmits c.mode)
      (command_word_as_sum rt tr sa wc v.rt_range (ground arith) v.sa_range
        ∙ ground (arith, summary_word_as_sum c rt sa wc v))

get_or-labels_from :
    (n i j : ℕ) (shown : ℤ) (texts : List Text)
    → j < n
    → get_or (labels_from n i shown texts) j ([], false)
      ≡ (if above (i + j) shown then (get_or texts (i + j) [], true) else ([], false))
unfolding labels_from get_or
get_or-labels_from (suc n) i zero shown texts h =
    ap (λ (k : ℕ). if above k shown then (get_or texts k [], true) else ([], false)) (omega arith)
get_or-labels_from (suc n) i (suc j) shown texts h =
    get_or-labels_from n (suc i) j shown texts (omega arith)
    ∙ ap (λ (k : ℕ). if above k shown then (get_or texts k [], true) else ([], false)) (omega arith)
get_or-labels_from zero i j shown texts h = elim h [ ]

-- Label j of a frame shows the text of word j where the frame has so many words to show.
pub get_or-data_labels :
    (c : FrameConfig) (f : FrameComponent) (j : ℕ)
    → j < 32
    → get_or (update_values c f).data_labels j ([], false) ≡ (
        if above j (words_to_show c.mode c.wc)
        then (get_or c.data_texts j [], true)
        else ([], false))
unfolding update_values
get_or-data_labels c f j h =
    get_or-labels_from 32 0 j (words_to_show c.mode c.wc) c.data_texts h
    ∙ ap
        (λ (k : ℕ).
          if above k (words_to_show c.mode c.wc)
          then (get_or c.data_texts k [], true)
          else ([], false))
        (omega arith)
