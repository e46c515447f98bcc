-- ===== src/Editor/Save.antt =====
-- Saving what was opened.
use tcp_1553_bus_analyzer.Prelude.{
  ℕ, ◌<◌, ◌≤◌, ◌≡◌, ap, sym, ◌∙◌, ◌⊎◌, false, List, Option, none, some, arith, ◌==◌, if◌then◌else◌,
}
use tcp_1553_bus_analyzer.Prelude.Int.{ℤ, pos}
use tcp_1553_bus_analyzer.Protocol.{is_nil}
use tcp_1553_bus_analyzer.Text.{Text, decimal, decimal_int}
use tcp_1553_bus_analyzer.Common.{FrameConfig}
use tcp_1553_bus_analyzer.Frame.{label_of}
use tcp_1553_bus_analyzer.Editor.{
  Widgets, rt_options, wc_options, read_long, open_editor, on_save, saved_config, close,
  update_control_states,
}

-- A read-only combo box gives the text that it was opened with where that is one of its choices,
-- and a choice is read back from its decimal digits.
pub record IsFaithful (w : Widgets) : Type 0 where
  pub keeps_rt : (n : ℕ) → n < 32 → w.choice_text rt_options (decimal n) ≡ decimal n
  pub keeps_wc : (n : ℕ) → n < 33 → w.choice_text wc_options (decimal n) ≡ decimal n
  pub reads : (n : ℕ) → n < 33 → w.to_long (decimal n) ≡ some (pos n)

-- A frame that the window can show: a label, one of the two buses, and numbers among the choices.
pub record IsEditable (c : FrameConfig) (rt sa rt2 sa2 wc : ℕ) : Type 0 where
  pub labelled : is_nil c.label ≡ false
  pub on_bus : (c.bus ≡ b'A') ⊎ (c.bus ≡ b'B')
  pub rt_is : c.rt ≡ pos rt
  pub sa_is : c.sa ≡ pos sa
  pub rt2_is : c.rt2 ≡ pos rt2
  pub sa2_is : c.sa2 ≡ pos sa2
  pub wc_is : c.wc ≡ pos wc
  pub rt_range : rt < 32
  pub sa_range : sa < 32
  pub rt2_range : rt2 < 32
  pub sa2_range : sa2 < 32
  pub wc_range : wc ≤ 32

module _ (w : Widgets) (f : IsFaithful w) where
  read_shown :
      (choices : List Text) (z val : ℤ) (n : ℕ)
      → z ≡ pos n
      → n < 33
      → w.choice_text choices (decimal n) ≡ decimal n
      → read_long w (w.choice_text choices (decimal_int z)) val ≡ z
  unfolding decimal_int
  read_shown choices z val n e h kept =
      ap (λ (y : ℤ). read_long w (w.choice_text choices (decimal_int y)) val) e
      ∙ ap (λ (t : Text). read_long w t val) kept
      ∙ ap (λ (o : Option ℤ). elim o [ none ↦ val | some v ↦ v ]) (f.reads n h)
      ∙ sym e

  read_rt :
      (z val : ℤ) (n : ℕ)
      → z ≡ pos n
      → n < 32
      → read_long w (w.choice_text rt_options (decimal_int z)) val ≡ z
  read_rt z val n e h = read_shown rt_options z val n e (omega (arith, h)) (f.keeps_rt n h)

  read_wc :
      (z val : ℤ) (n : ℕ)
      → z ≡ pos n
      → n ≤ 32
      → read_long w (w.choice_text wc_options (decimal_int z)) val ≡ z
  read_wc z val n e h =
      read_shown wc_options z val n e (omega (arith, h)) (f.keeps_wc n (omega (arith, h)))

same_label : (label : Text) → is_nil label ≡ false → label_of label ≡ label
unfolding label_of
same_label label h = ground arith

same_bus :
    (bus : ℕ)
    → (bus ≡ b'A') ⊎ (bus ≡ b'B')
    → (if (if bus == b'B' then 1 else 0) == 0 then b'A' else b'B') ≡ bus
same_bus bus h = ground arith

saved_config-open_editor :
    (w : Widgets) (memory : ℤ) (c : FrameConfig) (rt sa rt2 sa2 wc : ℕ)
    → IsFaithful w
    → IsEditable c rt sa rt2 sa2 wc
    → saved_config w memory (open_editor w (some c)) ≡ c
unfolding saved_config open_editor update_control_states
saved_config-open_editor w memory c rt sa rt2 sa2 wc f v =
    let e = open_editor w (some c) in
    let a = read_long w e.rt1 memory in
    let b = read_long w e.sa1 a in
    let d = read_long w e.rt2 b in
    let g = read_long w e.sa2 d in
    λ i. record {
      label = same_label c.label v.labelled i;
      bus = same_bus c.bus v.on_bus i;
      rt = read_rt w f c.rt memory rt v.rt_is v.rt_range i;
      sa = read_rt w f c.sa a sa v.sa_is v.sa_range i;
      rt2 = read_rt w f c.rt2 b rt2 v.rt2_is v.rt2_range i;
      sa2 = read_rt w f c.sa2 d sa2 v.sa2_is v.sa2_range i;
      wc = read_wc w f c.wc g wc v.wc_is v.wc_range i;
      mode = c.mode;
      data_texts = c.data_texts;
    }

-- A frame that is opened for editing and saved at once is saved as it was, whatever the memory that
-- the conversions start from, and the window is closed.
pub on_save-open_editor :
    (w : Widgets) (memory : ℤ) (c : FrameConfig) (rt sa rt2 sa2 wc : ℕ)
    → IsFaithful w
    → IsEditable c rt sa rt2 sa2 wc
    → on_save w memory (open_editor w (some c)) ≡ (c, close (open_editor w (some c)))
unfolding on_save
on_save-open_editor w memory c rt sa rt2 sa2 wc f v =
    ap (λ (d : FrameConfig). (d, close (open_editor w (some c))))
      (saved_config-open_editor w memory c rt sa rt2 sa2 wc f v)
