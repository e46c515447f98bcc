-- ===== src/Editor/Enabled.antt =====
-- Which data fields of the editor can be changed, and which words the saved frame puts on the bus.
use tcp_1553_bus_analyzer.Prelude.{
  ℕ, zero, suc, ◌+◌, ◌<◌, ◌≤◌, ◌≡◌, ap, sym, ◌∙◌, Bool, true, false, ◌&&◌, Option, none, some,
  arith, ltb, get_or, length, length-take,
}
use tcp_1553_bus_analyzer.Prelude.Int.{ℤ, pos, above, to_u8}
use tcp_1553_bus_analyzer.Common.{BcMode, is_mode_code, FrameConfig}
use tcp_1553_bus_analyzer.Parser.{word_count}
use tcp_1553_bus_analyzer.Parser.Rounds.{word_count_bounds}
use tcp_1553_bus_analyzer.Parser.RoundTrip.{transaction_of}
use tcp_1553_bus_analyzer.Bc.Send.{packet_of}
use tcp_1553_bus_analyzer.Bc.Payload.{packet_of-IsPacket}
use tcp_1553_bus_analyzer.Editor.{
  Editor, Widgets, read_long, sends_data, enabled_words, enabled_from, update_control_states,
  on_save,
}

get_or-enabled_from :
    (n i j : ℕ) (sends : Bool) (words : ℤ)
    → j < n
    → get_or (enabled_from n i sends words) j false ≡ (sends && above (i + j) words)
unfolding enabled_from get_or
get_or-enabled_from (suc n) i zero sends words h =
    ap (λ (k : ℕ). sends && above k words) (omega arith)
get_or-enabled_from (suc n) i (suc j) sends words h =
    get_or-enabled_from n (suc i) j sends words (omega arith)
    ∙ ap (λ (k : ℕ). sends && above k words) (omega arith)
get_or-enabled_from zero i j sends words h = elim h [ ]

above-enabled_words :
    (m : BcMode) (n j : ℕ)
    → is_mode_code m ≡ false
    → n ≤ 32
    → above j (enabled_words m (pos n)) ≡ ltb j (word_count n)
unfolding enabled_words word_count
above-enabled_words m n j h k = ground arith

length-data_words :
    (c : FrameConfig) (n : ℕ)
    → c.wc ≡ pos n
    → n ≤ 32
    → length (transaction_of (packet_of c)).data_words ≡ word_count n
unfolding transaction_of
length-data_words c n e h =
    let p = packet_of c in
    let wc : p.wc ≡ n = unfold packet_of in (ap to_u8 e ∙ omega arith) in
    omega (
      arith,
      length-take (word_count p.wc) p.data_words,
      (packet_of-IsPacket c).full,
      ap word_count wc,
      word_count_bounds n,
    )

-- For a transfer in which the controller sends data, but no mode code, and a word count of at most
-- 32: field j can be changed exactly when word j is one of those that the monitor decodes from the
-- packet of the saved frame.
pub enabled_iff_decoded :
    (w : Widgets) (memory : ℤ) (e : Editor) (n j : ℕ)
    → sends_data e.mode ≡ true
    → is_mode_code e.mode ≡ false
    → w.to_long e.wc ≡ some (pos n)
    → n ≤ 32
    → j < 32
    → get_or (update_control_states w e).fields_enabled j false
      ≡ ltb j (length (transaction_of (packet_of (on_save w memory e).0)).data_words)
unfolding update_control_states
enabled_iff_decoded w memory e n j sends plain count small h =
    let read = λ (val : ℤ). ap (λ (o : Option ℤ). elim o [ none ↦ val | some v ↦ v ]) count in
    let words = enabled_words e.mode (read_long w e.wc (pos 0)) in
    let saved : (on_save w memory e).0.wc ≡ pos n = unfold on_save in read _ in
    get_or-enabled_from 32 0 j (sends_data e.mode) words h
    ∙ ap (λ (k : ℕ). sends_data e.mode && above k words) (omega arith)
    ∙ ap (λ (b : Bool). b && above j words) sends
    ∙ ap (λ (z : ℤ). above j (enabled_words e.mode z)) (read (pos 0))
    ∙ above-enabled_words e.mode n j plain small
    ∙ sym (ap (λ (k : ℕ). ltb j k) (length-data_words (on_save w memory e).0 n saved small))
