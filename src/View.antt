-- ===== src/View.antt =====
-- src/ui/BusMonitorPanel.hpp and src/ui/BusMonitorPanel.cpp: the monitor's panel over the tree of
-- src/core/milStd1553.hpp. A tree item is a number; the identifiers that the tree gave and the
-- parents of its items are arguments. The texts of the status bar are those of App.Status; colours
-- of buttons are left out.
pub mod Find
pub mod Click
pub mod Messages
pub mod Build
pub mod Place
pub mod Built
pub mod Adding
pub mod Whole
pub mod Mode
pub mod Labels
pub mod Lit
pub mod Shown
use tcp_1553_bus_analyzer.Prelude.{
  ℕ, zero, suc, ◌+◌, ◌-◌, ◌%◌, Bool, true, false, not, ◌&&◌, ◌||◌, List, [], ◌∷◌, ◌++◌, Option,
  none, some, ltb, leb, ◌==◌, if◌then◌else◌, drop,
}
use tcp_1553_bus_analyzer.Prelude.Int.{ℤ, pos, negsuc, minus_one, eq_int}
use tcp_1553_bus_analyzer.Text.{Text, codes, decimal, decimal_int}
use tcp_1553_bus_analyzer.TcpProxy.{PcapAnswers, PcapCall}
use tcp_1553_bus_analyzer.Bm.{
  Bm, GuiCall, show_messages, tree_item, is_monitoring, is_filter_enabled, enable_filter,
  set_filter_criteria, enable_data_logging, set_callbacks, start,
}
use tcp_1553_bus_analyzer.Bm
use tcp_1553_bus_analyzer.MilStd.{bus_count, rt_count, sa_count}

-- The identifiers that `AppendItem` returned; `mc_of` is `m_treeItemToMcMap`, `parent_of` is
-- `GetItemParent`, and `text_of` the texts that the items show.
pub record Tree : Type 0 where
  pub bus_id : ℕ → ℕ
  pub rt_id : ℕ → ℕ → ℕ
  pub sa_id : ℕ → ℕ → ℕ → ℕ
  pub mc_of : ℕ → Option ℕ
  pub parent_of : ℕ → ℕ
  pub text_of : ℕ → Text

pub record Criteria : Type 0 where
  pub bus : ℕ
  pub rt : ℤ
  pub sa : ℤ
  pub mc : ℤ

abbrev pub bus_char : ℕ → ℕ
bus_char i = if i == 0 then b'A' else b'B'

abbrev pub or_else {ℓ} : {A : Type ℓ} → Option A → Option A → Option A
or_else none y = y
or_else (some x) y = some x

-- `for (; i < … && !found; ++i)`: the first i, of the n from the given one on, at which the body
-- finds something.
unfoldable pub first_of {ℓ} : {A : Type ℓ} → (ℕ → Option A) → ℕ → ℕ → Option A
first_of f zero i = none
first_of f (suc n) i = or_else (f i) (first_of f n (suc i))

unfoldable pub find_sa : Tree → ℕ → ℕ → ℕ → ℕ → Option Criteria
find_sa t clicked i j k =
    if t.sa_id i j k == clicked
    then some (record { bus = bus_char i; rt = pos j; sa = pos k; mc = minus_one })
    else none

unfoldable pub find_rt : Tree → ℕ → ℕ → ℕ → Option Criteria
find_rt t clicked i j =
    if t.rt_id i j == clicked
    then some (record { bus = bus_char i; rt = pos j; sa = minus_one; mc = minus_one })
    else first_of (find_sa t clicked i j) sa_count 0

unfoldable pub find_bus : Tree → ℕ → ℕ → Option Criteria
find_bus t clicked i =
    if t.bus_id i == clicked
    then some (record { bus = bus_char i; rt = minus_one; sa = minus_one; mc = minus_one })
    else first_of (find_rt t clicked i) rt_count 0

-- The search for a bus, a terminal or a subaddress.
unfoldable pub find_item : Tree → ℕ → Option Criteria
find_item t clicked = first_of (find_bus t clicked) bus_count 0

-- The search for the terminal and the bus of a mode code.
unfoldable pub find_mode_code_rt : Tree → ℕ → ℕ → ℕ → ℕ → Option Criteria
find_mode_code_rt t rt_item mc i j =
    if t.rt_id i j == rt_item
    then some (record { bus = bus_char i; rt = pos j; sa = minus_one; mc = pos mc })
    else none

unfoldable pub find_mode_code_bus : Tree → ℕ → ℕ → ℕ → ℕ → Option Criteria
find_mode_code_bus t rt_item bus_item mc i =
    if t.bus_id i == bus_item then first_of (find_mode_code_rt t rt_item mc i) rt_count 0 else none

unfoldable pub find_mode_code : Tree → ℕ → ℕ → Option Criteria
find_mode_code t clicked mc =
    let rt_item = t.parent_of (t.parent_of clicked) in
    first_of (find_mode_code_bus t rt_item (t.parent_of rt_item) mc) bus_count 0

unfoldable pub find_clicked : Tree → ℕ → Option Criteria
find_clicked t clicked = elim (t.mc_of clicked) [
  | none ↦ find_item t clicked
  | some mc ↦ find_mode_code t clicked mc
]

abbrev part : Text → ℤ → Text
part name value = if eq_int value minus_one then [] else codes ", " ++ name ++ decimal_int value

unfoldable pub filter_label : Criteria → Text
filter_label c =
    codes "Filtering by: "
    ++ (if c.bus == 0 then [] else codes "Bus " ++ c.bus ∷ [])
    ++ part (codes "RT ") c.rt
    ++ part (codes "SA ") c.sa
    ++ part (codes "MC ") c.mc

-- `filter_button` is the text of the filter's button, or `none` where it is disabled; `bold` and
-- `green` are the styles of the tree's items; `says_stop` is whether the button reads Stop, and
-- `timer_running` the status timer.
pub record View : Type 0 where
  pub tree : Tree
  pub host : Text
  pub port : ℕ
  pub says_stop : Bool
  pub timer_running : Bool
  pub message_list : Text
  pub check_counter : ℕ
  pub filter_button : Option Text
  pub bold : ℕ → Bool
  pub green : ℕ → Bool
  pub log_checked : Bool

abbrev is_found : Option Criteria → Bool
is_found none = false
is_found (some c) = true

-- `resetTreeVisualState` goes over the items of buses, terminals and subaddresses, which are those
-- that the search finds.
unfoldable pub reset_tree : View → View
reset_tree v = record v {
  bold = λ x. if is_found (find_item v.tree x) then false else v.bold x;
  green = λ x. if is_found (find_item v.tree x) then false else v.green x;
}

abbrev pub also : (ℕ → Bool) → ℕ → ℕ → Bool
also f k x = if x == k then true else f x

unfoldable pub on_tree_item_clicked : ℕ → View → Bm → View × Bm
on_tree_item_clicked clicked v s = elim (find_clicked v.tree clicked) [
  | none ↦ (v, s)
  | some c ↦
      let w = reset_tree v in
      (
        record w { filter_button = some (filter_label c); bold = also w.bold clicked },
        enable_filter true (set_filter_criteria c.bus c.rt c.sa c.mc s),
      )
]

unfoldable pub on_clear_filter_clicked : View → Bm → View × Bm
on_clear_filter_clicked v s =
    if is_filter_enabled s
    then (reset_tree (record v { filter_button = none }), enable_filter false s)
    else (v, s)

unfoldable pub on_clear_clicked : View → View
on_clear_clicked v = reset_tree (record v { message_list = [] })

unfoldable pub on_reset_stream_clicked : View → Bm → View
on_reset_stream_clicked v s =
    if is_monitoring s then v else reset_tree (record v { message_list = [] })

-- The panel after its constructor, over the tree that this has filled.
abbrev pub new_view : Tree → View
new_view t = record {
  tree = t;
  host = [];
  port = 0;
  says_stop = false;
  timer_running = false;
  message_list = [];
  check_counter = 0;
  filter_button = none;
  bold = λ x. false;
  green = λ x. false;
  log_checked = false;
}

-- The monitor's part of the constructor: both callbacks are set.
unfoldable pub connect_callbacks : Bm → Bm
connect_callbacks s = set_callbacks true true s

unfoldable pub initialize_view : Text → ℕ → Bm → View → View
initialize_view host port s v =
    let w = record v { host = host; port = port } in
    if is_monitoring s then record w { says_stop = true } else w

unfoldable pub on_start_stop_clicked : PcapAnswers → ℕ → View → Bm → View × Bm × List PcapCall
on_start_stop_clicked a now v s =
    let (stopped, closing) = Bm.stop s in
    let (started, ok, opening) = start a now v.host v.port (enable_data_logging v.log_checked s) in
    let w = record (reset_tree v) { message_list = [] } in
    if is_monitoring s
    then (record v { says_stop = false; timer_running = false }, stopped, closing)
    else if ok
    then (record w { says_stop = true; timer_running = true }, started, opening)
    else (w, started, opening)

unfoldable pub on_log_to_file_toggled : Bool → View → Bm → View × Bm
on_log_to_file_toggled checked v s =
    (record v { log_checked = checked }, enable_data_logging checked s)

-- What the status timer shows, if anything.
unfoldable pub on_status_timer : View → Bm → Option Text
on_status_timer v s =
    if is_monitoring s
    then some (
        codes "Passive Monitoring Active. Sniffing traffic on "
        ++ v.host
        ++ codes ":"
        ++ decimal v.port)
    else none

-- The destructor.
unfoldable pub close_view : View → Bm → View × Bm × List PcapCall
close_view v s =
    let (stopped, closing) = Bm.stop s in
    let w = record v { timer_running = false } in
    if is_monitoring s then (w, stopped, closing) else (w, s, [])
