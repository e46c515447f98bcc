-- ===== src/Tests/AppTests.antt =====
-- The theorems on the main window, the tree, the paths and the logger at concrete inputs.
use tcp_1553_bus_analyzer.Prelude.{
  ℕ, suc, ◌≡◌, ◌↔◌, ◌⊎◌, refl, true, false, List, [], ◌∷◌, ◌++◌, Option, none, some, arith,
}
use tcp_1553_bus_analyzer.Prelude.Int.{ℤ, pos, minus_one}
use tcp_1553_bus_analyzer.Text.{Text, codes}
use tcp_1553_bus_analyzer.Common.Paths.{Link, IsProgram}
use tcp_1553_bus_analyzer.Parser.RoundTrip.{transaction_of}
use tcp_1553_bus_analyzer.TcpProxy.{PcapAnswers, start_sniffing, terminate}
use tcp_1553_bus_analyzer.TcpProxy.Handles.{handle_closes}
use tcp_1553_bus_analyzer.Bc.{ServerAnswers, initialize, accept_round}
use tcp_1553_bus_analyzer.Bc.Lifecycle.{accepts, sends, closes}
use tcp_1553_bus_analyzer.Bc.Lifecycle
use tcp_1553_bus_analyzer.Bc.Sockets
use tcp_1553_bus_analyzer.Bm.{Bm, passes, start, process_and_relay_data}
use tcp_1553_bus_analyzer.Bm
use tcp_1553_bus_analyzer.Bm.Handles
use tcp_1553_bus_analyzer.View.{
  View, Tree, new_view, initialize_view, on_tree_item_clicked, connect_callbacks,
}
use tcp_1553_bus_analyzer.View.Shown.{Lines, on_gui_calls}
use tcp_1553_bus_analyzer.View.Whole.{build_tree-IsDistinct}
use tcp_1553_bus_analyzer.Protocol.{packet_bytes}
use tcp_1553_bus_analyzer.Parser.{fresh, parse_stream}
use tcp_1553_bus_analyzer.Bm.Format.{Stamp}
use tcp_1553_bus_analyzer.Bm.Keys.{RtSaKey, Holds}
use tcp_1553_bus_analyzer.Bm.Activity.{Touched}
use tcp_1553_bus_analyzer.Link.Lights.{IsKeyOf, process_lights}
use tcp_1553_bus_analyzer.View.Place.{sa_at, mc_at}
use tcp_1553_bus_analyzer.View.Built.{item}
use tcp_1553_bus_analyzer.MilStd.{MilStd1553, construct, blank}
use tcp_1553_bus_analyzer.View.Mode.{built, over_built, click_built, click_mode_code}
use tcp_1553_bus_analyzer.App.{
  MainFrame, new_main_frame, address, failed_text, on_connect, connect_port, set_status_text,
  initialize_hardware, initialize_monitor_panel, initialize_panels, exit,
}
use tcp_1553_bus_analyzer.App.Run.{
  Event, types, connects, starts_or_stops, clicks_item, controls, step, run,
}
use tcp_1553_bus_analyzer.App.Connect.{connect_outcome}
use tcp_1553_bus_analyzer.App.Sync.{IsSynced, run-IsSynced}
use tcp_1553_bus_analyzer.App.Exit.{all_handles_given, run-exit}
use tcp_1553_bus_analyzer.App.Release.{AllAlone, all_sockets_given, run-exit_sockets}
use tcp_1553_bus_analyzer.Tests.Samples.{sample, sample_frame, answered, sample-IsOnBus}

abbrev clock : ℕ → Stamp
clock n = record { time_of_day = codes "12:00:00"; full_us = n }

-- Items numbered by the calls that append them, below the root 0.
abbrev new_item : ℕ → ℕ
new_item n = suc n

new_once : (m n : ℕ) → new_item m ≡ new_item n → m ≡ n
new_once m n e = omega (arith, e)

abbrev names : MilStd1553
names = construct blank

abbrev tree : Tree
tree = built new_item 0 names

click_built_example :
    (passes
        (on_tree_item_clicked
          (item new_item 0 names (sa_at 1 2 6))
          (over_built new_item 0 names (new_view tree))
          Bm.new).1
        (transaction_of sample)
      ≡ true)
    ↔ ((sample.rt ≡ 2) × (sample.sa ≡ 6))
click_built_example =
    click_built new_item 0 names new_once 1 2 6 (new_view tree) Bm.new sample
      (omega arith, omega arith, omega arith) sample-IsOnBus

click_mode_code_example :
    (passes
        (on_tree_item_clicked
          (item new_item 0 names (mc_at 0 2 10))
          (over_built new_item 0 names (new_view tree))
          Bm.new).1
        (transaction_of sample)
      ≡ true)
    ↔ (sample.rt ≡ 2)
click_mode_code_example =
    click_mode_code new_item 0 names new_once 0 2 10 (new_view tree) Bm.new sample
      (omega arith, omega arith, omega arith) sample-IsOnBus

abbrev no_text : ℕ → Text
no_text errno = []

abbrev reads_port : Text → Option ℤ
reads_port [] = none
reads_port text = some (pos 70538)

abbrev capture : PcapAnswers
capture = record { handle = some 7; compile_fails = false; set_filter_fails = false }

abbrev server : ServerAnswers
server = record {
  socket_fd = pos 3;
  reuse = pos 0;
  bound = minus_one;
  listening = pos 0;
  errno = 98;
}

abbrev window : MainFrame
window = record (new_main_frame tree) { port_text = codes "70538" }

window-idle : window.monitor.monitoring_active ≡ false
unfolding connect_callbacks Bm.set_callbacks
window-idle = refl

connect_outcome_example :
    let (g, _, calls) = on_connect no_text reads_port capture 0 server window in
    let (_, ok, _) = start capture 0 (codes "lo") 5002 window.monitor in
    ((ok ≡ true)
      × (g.setup_shown ≡ false)
      × (g.notebook_shown ≡ true)
      × (g.view.says_stop ≡ true)
      × (g.monitor.current_port ≡ 5002)
      × (g.status ≡ codes "Passive Monitoring Active: " ++ address (codes "lo") 5002)
      × (g.boxes ≡ window.boxes)
      × (g.view.timer_running ≡ window.view.timer_running)
      × (g.controller ≡ (initialize no_text server (codes "lo") 5002 window.controller).0))
    ⊎ ((ok ≡ false)
        × (g.boxes ≡ window.boxes ++ failed_text (codes "lo") (pos 70538) ∷ [])
        × (g.controller ≡ window.controller)
        × (calls ≡ [])
        × (g.view ≡ window.view)
        × (g.setup_shown ≡ window.setup_shown)
        × (g.notebook_shown ≡ window.notebook_shown))
connect_outcome_example =
    connect_outcome no_text reads_port capture 0 server (pos 70538) window refl window-idle

-- A connection, a simulator that connects, a click, and a stop.
abbrev session : List Event
session =
    types (codes "eth0") (codes "5002")
    ∷ connects capture 0 server
    ∷ controls (accepts (pos 4))
    ∷ clicks_item 9
    ∷ starts_or_stops capture 100
    ∷ []

run-IsSynced_example : IsSynced (run no_text reads_port session (new_main_frame tree)).0
run-IsSynced_example = run-IsSynced no_text reads_port tree session

run-exit_example :
    let (f, sniffing, _) = run no_text reads_port session (new_main_frame tree) in
    Handles.count 7 (all_handles_given no_text reads_port session (new_main_frame tree))
    ≡ Handles.count 7 (handle_closes (sniffing ++ (exit f).1))
run-exit_example =
    run-exit no_text reads_port tree session 7 (tt, ((refl, refl), (tt, (tt, ((refl, refl), tt)))))

-- A controller that starts, a simulator that connects, and a frame whose write fails.
abbrev failing : List Event
failing =
    connects capture 0 (record server { bound = pos 0 })
    ∷ controls (accepts (pos 4))
    ∷ controls (
        sends (record answered { written = minus_one; client_then = pos 4 }) (some sample_frame) [])
    ∷ []

failing-AllAlone : AllAlone no_text reads_port failing (new_main_frame tree)
unfolding step on_connect connect_port start start_sniffing terminate initialize_panels
    initialize_monitor_panel initialize_view initialize_hardware set_status_text Lifecycle.step
    initialize accept_round connect_callbacks Bm.set_callbacks
failing-AllAlone = (tt, (tt, (refl, tt)))

run-exit_sockets_example :
    let (f, _, calls) = run no_text reads_port failing (new_main_frame tree) in
    Sockets.count (pos 4) (all_sockets_given no_text reads_port failing (new_main_frame tree))
    ≡ Sockets.count (pos 4) (closes (calls ++ (exit f).2))
run-exit_sockets_example = run-exit_sockets no_text reads_port tree failing (pos 4) failing-AllAlone

abbrev program : Link
program = record { count = pos 14; target = codes "/opt/suite/bus" }

program-IsProgram : IsProgram program (codes "/opt/suit") b'e' (codes "bus")
program-IsProgram = ground arith

-- A panel over the tree, and a monitor whose calls it carries out.
abbrev panel : View
panel = new_view tree

abbrev heard : Bm
heard = record Bm.new { tree_callback = true }

abbrev lines : Lines
lines = record { count = λ t. 1; position = λ t n. minus_one }

process_lights_example :
    let (r, calls) = process_and_relay_data clock 100 (packet_bytes sample) heard in
    let (es, _) = parse_stream fresh (packet_bytes sample) in
    let w = on_gui_calls lines calls panel in
    (w.green (w.tree.sa_id 0 2 6) ≡ true) ↔ (
      (panel.green (panel.tree.sa_id 0 2 6) ≡ true)
      ⊎ ((key : RtSaKey) × IsKeyOf 0 2 6 key × (Touched (passes heard) key es ⊎ Holds key [])))
process_lights_example =
    process_lights 0 2 6 clock 100 (packet_bytes sample) heard lines panel
      (record { bus_range = omega arith; rt_range = omega arith; sa_range = omega arith })
      (build_tree-IsDistinct new_item 0 names new_once) refl refl
