-- ===== src/View/Labels.antt =====
-- The texts of the tree that the constructor has built, over the model with the names that its own
-- constructor gives.
use tcp_1553_bus_analyzer.Prelude.{ℕ, ◌<◌, ◌≡◌, ◌∙◌, ◌++◌, ◌==◌, if◌then◌else◌}
use tcp_1553_bus_analyzer.Text.{codes, decimal}
use tcp_1553_bus_analyzer.MilStd.{MilStd1553, construct}
use tcp_1553_bus_analyzer.MilStd.Names.{construct_names}
use tcp_1553_bus_analyzer.View.Place.{bus_at, rt_at, sa_at, mc_at}
use tcp_1553_bus_analyzer.View.Built.{item, mode_code_at}
use tcp_1553_bus_analyzer.View.Build.{build_tree, mode_code_text}
use tcp_1553_bus_analyzer.View.Whole.{build_tree-IsRecorded}

-- In the tree that the panel's constructor builds: the text of a bus is BUS A or BUS B, those of
-- its terminals and subaddresses are RT and SA with their numbers, and those of the eleven mode
-- codes of a terminal are MC with the code and the name of the list; and the item above a
-- subaddress is its terminal's, whose own is its bus's.
pub build_tree-text :
    (new_item : ℕ → ℕ) (root : ℕ) (m : MilStd1553) (i j k c : ℕ)
    → ((x y : ℕ) → new_item x ≡ new_item y → x ≡ y)
    → i < 2
    → j < 32
    → k < 32
    → c < 11
    → let model = construct m in
      let t = (build_tree new_item root model).tree in
      let at = item new_item root model in
      (t.text_of (t.bus_id i) ≡ (if i == 0 then codes "BUS A" else codes "BUS B"))
      × (t.text_of (t.rt_id i j) ≡ codes "RT " ++ decimal j)
      × (t.text_of (t.sa_id i j k) ≡ codes "SA " ++ decimal k)
      × (t.text_of (at (mc_at i j c)) ≡ mode_code_text (mode_code_at c))
      × (t.parent_of (t.sa_id i j k) ≡ t.rt_id i j)
      × (t.parent_of (t.rt_id i j) ≡ t.bus_id i)
build_tree-text new_item root m i j k c new_once hi hj hk hc =
    let recorded = build_tree-IsRecorded new_item root (construct m) new_once in
    let bus = recorded (bus_at i) hi in
    let rt = recorded (rt_at i j) (hi, hj) in
    let sa = recorded (sa_at i j k) (hi, hj, hk) in
    let mc = recorded (mc_at i j c) (hi, hj, hc) in
    let (bus_name, rt_name, sa_name) = construct_names m i j k hi hj hk in
    rw (bus.kept, rt.kept, sa.kept)
      (bus.text ∙ bus_name, rt.text ∙ rt_name, sa.text ∙ sa_name, mc.text, sa.parent, rt.parent)
