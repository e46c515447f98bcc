-- ===== src/View/Shown.antt =====
-- What the monitor's calls show in the panel of src/ui/BusMonitorPanel.cpp. What the text control
-- says of its lines is an argument.
use tcp_1553_bus_analyzer.Prelude.{
  ℕ, suc, ◌+◌, ◌-◌, ◌%◌, Bool, not, ◌||◌, List, [], ◌∷◌, ◌++◌, ltb, leb, ◌==◌, if◌then◌else◌, drop,
}
use tcp_1553_bus_analyzer.Prelude.Int.{ℤ, pos, negsuc}
use tcp_1553_bus_analyzer.Text.{Text}
use tcp_1553_bus_analyzer.Bm.{GuiCall, show_messages, tree_item}
use tcp_1553_bus_analyzer.MilStd.{rt_count, sa_count}
use tcp_1553_bus_analyzer.View.{View, also}

abbrev is_letter_a : ℕ → Bool
is_letter_a c = c == b'A' || c == b'a'

abbrev pub bus_index : ℕ → ℕ
bus_index bus = if is_letter_a bus then 0 else 1

-- `updateTreeItemVisualState`; a call that does not activate changes nothing.
unfoldable pub update_tree_item : ℕ → ℕ → ℕ → Bool → View → View
update_tree_item bus rt sa active v =
    let i = bus_index bus in
    let style = λ (f : ℕ → Bool).
      also (also (also f (v.tree.sa_id i rt sa)) (v.tree.rt_id i rt)) (v.tree.bus_id i) in
    if leb rt_count rt || leb sa_count sa
    then v
    else if active
    then record v { green = style v.green; bold = style v.bold }
    else v

abbrev pub recent_message_count : ℕ
recent_message_count = 2000

-- What the text control says of a text: its number of lines, and the position at which a line
-- starts.
pub record Lines : Type 0 where
  pub count : Text → ℕ
  pub position : Text → ℕ → ℤ

abbrev remove_front : ℤ → Text → Text
remove_front (pos p) text = drop p text
remove_front (negsuc p) text = text

unfoldable pub append_messages : Lines → Text → View → View
append_messages l chunk v =
    let text = v.message_list ++ chunk in
    let counter = suc v.check_counter in
    let lines = l.count text in
    let surplus = lines - recent_message_count in
    record v {
      check_counter = counter;
      message_list =
          if not (counter % 10 == 0)
          then text
          else if ltb (recent_message_count + 200) lines
          then remove_front (l.position text surplus) text
          else text;
    }

-- The closures that the two callbacks post to the main thread.
unfoldable pub on_gui_call : Lines → GuiCall → View → View
on_gui_call l (show_messages messages) v = append_messages l messages v
on_gui_call l (tree_item bus rt sa active) v = update_tree_item bus rt sa active v

unfoldable pub on_gui_calls : Lines → List GuiCall → View → View
on_gui_calls l [] v = v
on_gui_calls l (call ∷ calls) v = on_gui_calls l calls (on_gui_call l call v)
