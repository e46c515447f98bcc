-- ===== src/App/Sync.antt =====
-- That the window and the monitor agree.
use tcp_1553_bus_analyzer.Prelude.{
  ℕ, ◌≡◌, refl, sym, ◌∙◌, true, not, List, [], ◌∷◌, Option, arith, inl, inr, Option-cases,
}
use tcp_1553_bus_analyzer.Prelude.Int.{ℤ}
use tcp_1553_bus_analyzer.Text.{Text}
use tcp_1553_bus_analyzer.TcpProxy.{PcapAnswers, start_sniffing, terminate}
use tcp_1553_bus_analyzer.Bc.{ServerAnswers}
use tcp_1553_bus_analyzer.Bm.{
  start, stop, enable_filter, set_filter_criteria, enable_data_logging, set_callbacks, GuiCall,
  show_messages, tree_item,
}
use tcp_1553_bus_analyzer.Bm.Handles.{monitor_round_session}
use tcp_1553_bus_analyzer.View.{
  View, Tree, reset_tree, initialize_view, on_start_stop_clicked, on_log_to_file_toggled,
  on_tree_item_clicked, on_clear_filter_clicked, on_clear_clicked, on_reset_stream_clicked,
  connect_callbacks,
}
use tcp_1553_bus_analyzer.View.Shown.{
  Lines, on_gui_call, on_gui_calls, update_tree_item, append_messages,
}
use tcp_1553_bus_analyzer.App.{
  MainFrame, new_main_frame, set_status_text, initialize_hardware, initialize_monitor_panel,
  initialize_panels, connect_port, on_connect,
}
use tcp_1553_bus_analyzer.App.Run.{
  Event, types, connects, starts_or_stops, toggles_log, clicks_item, clears_filter, clears_messages,
  resets_stream, monitors, controls, step, run, ticks, shows,
}
use tcp_1553_bus_analyzer.App.Status.{
  start_stop, click_item, clear_filter, clear_messages, reset_stream, tick,
}

-- The button offers to stop exactly where the monitor is active, the status timer runs only then,
-- and either the connection panel or the notebook is shown.
pub record IsSynced (f : MainFrame) : Type 0 where
  pub button : f.view.says_stop ≡ f.monitor.monitoring_active
  pub timer : f.view.timer_running ≡ true → f.monitor.monitoring_active ≡ true
  pub shown : f.notebook_shown ≡ not f.setup_shown

-- What the monitor's calls leave of the panel.
on_gui_call_lem :
    (l : Lines) (call : GuiCall) (v : View)
    → ((on_gui_call l call v).says_stop ≡ v.says_stop)
      × ((on_gui_call l call v).timer_running ≡ v.timer_running)
unfolding on_gui_call update_tree_item append_messages
on_gui_call_lem l (show_messages m) v = (refl, refl)
on_gui_call_lem l (tree_item bus rt sa active) v = ground arith

on_gui_calls_lem :
    (l : Lines) (calls : List GuiCall) (v : View)
    → ((on_gui_calls l calls v).says_stop ≡ v.says_stop)
      × ((on_gui_calls l calls v).timer_running ≡ v.timer_running)
unfolding on_gui_calls
on_gui_calls_lem l [] v = (refl, refl)
on_gui_calls_lem l (call ∷ calls) v =
    let (a, b) = on_gui_calls_lem l calls (on_gui_call l call v) in
    let (c, d) = on_gui_call_lem l call v in (a ∙ c, b ∙ d)

module _ (strerror : ℕ → Text) (to_long : Text → Option ℤ) where
  connect_port-IsSynced :
      (a : PcapAnswers) (now : ℕ) (server : ServerAnswers) (host : Text) (port : ℤ) (f : MainFrame)
      → IsSynced f
      → IsSynced (connect_port strerror a now server host port f).0
  unfolding connect_port initialize_panels initialize_monitor_panel initialize_hardware
      set_status_text initialize_view start start_sniffing terminate
  connect_port-IsSynced a now server host port f v = ground arith

  step-IsSynced : (e : Event) (f : MainFrame) → IsSynced f → IsSynced (step strerror to_long e f).0
  unfolding step start_stop click_item clear_filter clear_messages reset_stream tick on_connect
      start stop start_sniffing terminate reset_tree on_start_stop_clicked on_log_to_file_toggled
      on_tree_item_clicked on_clear_filter_clicked on_clear_clicked on_reset_stream_clicked
      enable_filter set_filter_criteria enable_data_logging
  step-IsSynced (connects a now server) f v = elim (Option-cases (to_long f.port_text)) [
    | inl e ↦ ground (arith, e)
    | inr (port, e) ↦ ground (arith, e, connect_port-IsSynced a now server f.host_text port f v)
  ]
  step-IsSynced (types host port) f v = ground arith
  step-IsSynced (starts_or_stops a now) f v = ground arith
  step-IsSynced (toggles_log checked) f v = ground arith
  step-IsSynced (clicks_item item) f v = ground arith
  step-IsSynced clears_filter f v = ground arith
  step-IsSynced clears_messages f v = ground arith
  step-IsSynced resets_stream f v = ground arith
  step-IsSynced ticks f v = ground arith
  step-IsSynced (shows l calls) f v = ground (arith, on_gui_calls_lem l calls f.view)
  step-IsSynced (monitors clock now) f v =
      let (same, _, _) = monitor_round_session clock now f.monitor in
      record { button = v.button ∙ sym same; timer = λ t. same ∙ v.timer t; shown = v.shown }
  step-IsSynced (controls o) f v = ground arith

  run_in_sync :
      (es : List Event) (f : MainFrame) → IsSynced f → IsSynced (run strerror to_long es f).0
  unfolding run
  run_in_sync [] f v = v
  run_in_sync (e ∷ es) f v = run_in_sync es _ (step-IsSynced e f v)

  -- After any events of a new window, whatever libpcap, the operating system and the user do: the
  -- button offers to stop exactly where the monitor is active, the status timer runs only where it
  -- is, and either the connection panel or the notebook is shown.
  pub run-IsSynced :
      (t : Tree) (es : List Event) → IsSynced (run strerror to_long es (new_main_frame t)).0
  run-IsSynced t es = run_in_sync es (new_main_frame t) (
      unfold connect_callbacks set_callbacks in
      record { button = refl; timer = λ e. absurd cc; shown = refl })
