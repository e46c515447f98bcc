-- ===== src/Editor.antt =====
-- src/ui/CreateFrameWindow.hpp and src/ui/CreateFrameWindow.cpp: the window in which a frame is
-- made or edited. What wxWidgets does with the texts is an argument: `to_long` is
-- `wxString::ToLong` (with `none` for false, where the number is left as it was), and
-- `choice_text` is what a read-only combo box with the given choices gives for its initial text.
-- The generator of random numbers is a list of its answers.
pub mod Save
pub mod Enabled
use tcp_1553_bus_analyzer.Prelude.{
  ℕ, zero, suc, ◌+◌, Bool, true, false, not, ◌&&◌, ◌||◌, List, [], ◌∷◌, ◌++◌, map, Option, none,
  some, ltb, ◌==◌, if◌then◌else◌, get_or, replicate,
}
use tcp_1553_bus_analyzer.Prelude.Int.{ℤ, pos, is_zero, above}
use tcp_1553_bus_analyzer.Protocol.{is_nil}
use tcp_1553_bus_analyzer.Text.{Text, codes, decimal, decimal_int, hex4}
use tcp_1553_bus_analyzer.Common.{
  FrameConfig, BcMode, bc_to_rt, rt_to_bc, rt_to_rt, mode_code_no_data, mode_code_with_data,
  is_rt_to_rt, is_mode_code,
}
use tcp_1553_bus_analyzer.Frame.{FrameComponent, label_of}

-- The values of the controls, and the states that `updateControlStates` sets. A selection of the
-- mode's choice is a value of `BcMode`, in whose order the choices stand.
pub record Editor : Type 0 where
  pub bus_selection : ℕ
  pub mode : BcMode
  pub rt1 : Text
  pub sa1 : Text
  pub rt2 : Text
  pub sa2 : Text
  pub wc : Text
  pub label : Text
  pub data_fields : List Text
  pub row2_shown : Bool
  pub sa1_label : Text
  pub wc_enabled : Bool
  pub fields_enabled : List Bool
  pub randomize_enabled : Bool
  pub title : Text
  pub save_label : Text
  pub is_open : Bool

pub record Widgets : Type 0 where
  pub to_long : Text → Option ℤ
  pub choice_text : List Text → Text → Text

abbrev pub decimals : ℕ → ℕ → List Text
decimals zero i = []
decimals (suc n) i = decimal i ∷ decimals n (suc i)

abbrev pub rt_options : List Text
rt_options = decimals 32 0

abbrev pub wc_options : List Text
wc_options = decimals 33 0

abbrev pub read_long : Widgets → Text → ℤ → ℤ
read_long w text val = elim (w.to_long text) [ none ↦ val | some v ↦ v ]

unfoldable pub sends_data : BcMode → Bool
sends_data bc_to_rt = true
sends_data rt_to_rt = true
sends_data mode_code_with_data = true
sends_data _ = false

-- `wc` of `updateControlStates`.
unfoldable pub enabled_words : BcMode → ℤ → ℤ
enabled_words mode wc = if is_mode_code mode then pos 1 else if is_zero wc then pos 32 else wc

-- The loop over the data fields, from field i on.
unfoldable pub enabled_from : ℕ → ℕ → Bool → ℤ → List Bool
enabled_from zero i sends words = []
enabled_from (suc n) i sends words = (sends && above i words) ∷ enabled_from n (suc i) sends words

unfoldable pub update_control_states : Widgets → Editor → Editor
update_control_states w e = record e {
  row2_shown = is_rt_to_rt e.mode;
  sa1_label = if is_mode_code e.mode then codes "MC:" else codes "SA:";
  wc_enabled = not (is_mode_code e.mode);
  fields_enabled =
      enabled_from 32 0 (sends_data e.mode) (enabled_words e.mode (read_long w e.wc (pos 0)));
  randomize_enabled = sends_data e.mode;
}

-- The controls as the constructor fills them, of a frame that is edited.
abbrev opened : Widgets → FrameConfig → Editor
opened w c = record {
  bus_selection = if c.bus == b'B' then 1 else 0;
  mode = c.mode;
  rt1 = w.choice_text rt_options (decimal_int c.rt);
  sa1 = w.choice_text rt_options (decimal_int c.sa);
  rt2 = w.choice_text rt_options (decimal_int c.rt2);
  sa2 = w.choice_text rt_options (decimal_int c.sa2);
  wc = w.choice_text wc_options (decimal_int c.wc);
  label = c.label;
  data_fields = c.data_texts;
  row2_shown = true;
  sa1_label = codes "SA:";
  wc_enabled = true;
  fields_enabled = replicate 32 true;
  randomize_enabled = true;
  title = codes "Edit 1553 Frame";
  save_label = codes "Save Changes";
  is_open = true;
}

-- Of a new frame.
abbrev blank : Widgets → Editor
blank w = record {
  bus_selection = 0;
  mode = bc_to_rt;
  rt1 = w.choice_text rt_options (codes "1");
  sa1 = w.choice_text rt_options (codes "1");
  rt2 = w.choice_text rt_options (codes "0");
  sa2 = w.choice_text rt_options (codes "0");
  wc = w.choice_text wc_options (codes "1");
  label = codes "New Frame";
  data_fields = replicate 32 (codes "0000");
  row2_shown = true;
  sa1_label = codes "SA:";
  wc_enabled = true;
  fields_enabled = replicate 32 true;
  randomize_enabled = true;
  title = codes "Create New 1553 Frame";
  save_label = codes "Add Frame";
  is_open = true;
}

unfoldable pub open_editor : Widgets → Option FrameConfig → Editor
unfolding replicate
open_editor w none = update_control_states w (blank w)
open_editor w (some c) = update_control_states w (opened w c)

-- `onAddFrameClicked` of the panel and `onEdit` of a frame.
unfoldable pub on_add_frame_clicked : Widgets → Editor
on_add_frame_clicked w = open_editor w none

unfoldable pub on_edit : Widgets → FrameComponent → Editor
on_edit w f = open_editor w (some f.config)

unfoldable pub on_mode_changed : Widgets → Editor → Editor
on_mode_changed w e = update_control_states w e

-- `Close`, and `onCancel`.
abbrev pub close : Editor → Editor
close e = record e { is_open = false }

unfoldable pub on_cancel : Editor → Editor
on_cancel e = close e

-- The configuration that `onSave` hands to the panel; `memory` is the local `val`, which nothing
-- sets before the first conversion.
unfoldable pub saved_config : Widgets → ℤ → Editor → FrameConfig
saved_config w memory e =
    let rt = read_long w e.rt1 memory in
    let sa = read_long w e.sa1 rt in
    let rt2 = read_long w e.rt2 sa in
    let sa2 = read_long w e.sa2 rt2 in
    record {
      label = label_of e.label;
      bus = if e.bus_selection == 0 then b'A' else b'B';
      rt = rt;
      sa = sa;
      rt2 = rt2;
      sa2 = sa2;
      wc = read_long w e.wc sa2;
      mode = e.mode;
      data_texts = e.data_fields;
    }

-- `onSave`: what the panel is given, and the window, closed. What the panel does with it is
-- Panel.Editing's `saved_moves`.
unfoldable pub on_save : Widgets → ℤ → Editor → FrameConfig × Editor
unfolding saved_config
on_save w memory e = (saved_config w memory e, close e)

-- `onRandomize`: each field that is enabled takes the next random number.
unfoldable pub randomized : List Bool → List Text → List ℕ → List Text
randomized (true ∷ bs) (t ∷ ts) (r ∷ rs) = hex4 r ∷ randomized bs ts rs
randomized (false ∷ bs) (t ∷ ts) rs = t ∷ randomized bs ts rs
randomized _ ts rs = ts

unfoldable pub on_randomize : List ℕ → Editor → Editor
on_randomize rs e = record e { data_fields = randomized e.fields_enabled e.data_fields rs }
