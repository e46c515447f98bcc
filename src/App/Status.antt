-- ===== src/App/Status.antt =====
-- What the handlers of src/ui/BusMonitorPanel.cpp say in the status bar and in message boxes, with
-- what they do.
use tcp_1553_bus_analyzer.Prelude.{ℕ, [], ◌++◌, none, some, if◌then◌else◌}
use tcp_1553_bus_analyzer.Text.{Text, codes}
use tcp_1553_bus_analyzer.TcpProxy.{PcapAnswers}
use tcp_1553_bus_analyzer.Bm.{is_monitoring, is_filter_enabled}
use tcp_1553_bus_analyzer.View.{
  find_clicked, filter_label, on_start_stop_clicked, on_tree_item_clicked, on_clear_filter_clicked,
  on_clear_clicked, on_reset_stream_clicked, on_status_timer,
}
use tcp_1553_bus_analyzer.App.{MainFrame, Outcome, address, show_box}

abbrev say : Text → MainFrame → MainFrame
say text f = record f { status = text }

abbrev pub sniffer_failed : Text
sniffer_failed =
    codes "Failed to initialize Passive Sniffer.\nEnsure you have CAP_NET_RAW or run with sudo."

unfoldable pub start_stop : PcapAnswers → ℕ → MainFrame → Outcome
start_stop a now f =
    let (v, s, calls) = on_start_stop_clicked a now f.view f.monitor in
    let g = record f { view = v; monitor = s } in
    if is_monitoring f.monitor
    then (say (codes "Monitoring stopped.") g, calls, [])
    else if is_monitoring s
    then (say (codes "Sniffer Active on " ++ address v.host v.port) g, calls, [])
    else (
      show_box sniffer_failed (say (codes "Error: Sniffer init failed (Check permissions).") g),
      calls,
      [],
    )

unfoldable pub click_item : ℕ → MainFrame → MainFrame
click_item item f =
    let (v, s) = on_tree_item_clicked item f.view f.monitor in
    let g = record f { view = v; monitor = s } in
    elim (find_clicked f.view.tree item) [ none ↦ g | some c ↦ say (filter_label c) g ]

unfoldable pub clear_filter : MainFrame → MainFrame
clear_filter f =
    let (v, s) = on_clear_filter_clicked f.view f.monitor in
    let g = record f { view = v; monitor = s } in
    if is_filter_enabled f.monitor then say (codes "Filter cleared.") g else g

unfoldable pub clear_messages : MainFrame → MainFrame
clear_messages f = say (codes "Messages cleared.") (record f { view = on_clear_clicked f.view })

unfoldable pub reset_stream : MainFrame → MainFrame
reset_stream f =
    let g = record f { view = on_reset_stream_clicked f.view f.monitor } in
    if is_monitoring f.monitor
    then show_box (codes "Please stop the monitor before resetting.") g
    else say (codes "View and connection status reset.") g

-- A tick of the status timer, where it runs.
unfoldable pub tick : MainFrame → MainFrame
tick f =
    if f.view.timer_running
    then elim (on_status_timer f.view f.monitor) [ none ↦ f | some text ↦ say text f ]
    else f
