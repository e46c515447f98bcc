-- ===== src/App/Exit.antt =====
-- What is left open when the program has ended.
use tcp_1553_bus_analyzer.Prelude.{
  ℕ, ◌+◌, ◌^◌, ◌≡◌, ap, List, [], ◌∷◌, ◌++◌, Option, none, some, arith, inl, inr, Option-cases,
}
use tcp_1553_bus_analyzer.Prelude.Int.{ℤ, wrap}
use tcp_1553_bus_analyzer.Text.{Text}
use tcp_1553_bus_analyzer.TcpProxy.{terminate}
use tcp_1553_bus_analyzer.TcpProxy.Handles.{handle_closes}
use tcp_1553_bus_analyzer.Bm.{
  stop, set_callbacks, enable_filter, set_filter_criteria, enable_data_logging,
}
use tcp_1553_bus_analyzer.Bm.Handles.{
  FilterWorks, held, opened, count, count-append, handle_closes-append, start_balance, stop_balance,
  monitor_round_session,
}
use tcp_1553_bus_analyzer.View.{
  Tree, on_start_stop_clicked, on_log_to_file_toggled, on_tree_item_clicked,
  on_clear_filter_clicked, connect_callbacks, close_view,
}
use tcp_1553_bus_analyzer.App.{
  MainFrame, new_main_frame, set_status_text, initialize_hardware, initialize_monitor_panel,
  initialize_panels, connect_port, on_connect, on_close, destroy_monitor, exit,
}
use tcp_1553_bus_analyzer.App.Run.{
  Event, types, connects, starts_or_stops, toggles_log, clicks_item, clears_filter, clears_messages,
  resets_stream, monitors, controls, step, run, ticks, shows,
}
use tcp_1553_bus_analyzer.App.Status.{
  start_stop, click_item, clear_filter, clear_messages, reset_stream, tick,
}

-- Whether libpcap gives a handle only where the filter then works.
abbrev pub EventFilterWorks : Event → Type 0
EventFilterWorks (connects a now server) = FilterWorks a
EventFilterWorks (starts_or_stops a now) = FilterWorks a
EventFilterWorks _ = Unit {0}

abbrev pub AllFilterWorks : List Event → Type 0
AllFilterWorks [] = Unit {0}
AllFilterWorks (e ∷ es) = EventFilterWorks e × AllFilterWorks es

module _ (strerror : ℕ → Text) (to_long : Text → Option ℤ) where
  -- The handles that libpcap gives at an event.
  abbrev pub handles_given : Event → MainFrame → List ℕ
  handles_given (connects a now server) f = elim (to_long f.port_text) [
    | none ↦ []
    | some port ↦ opened a f.monitor
  ]
  handles_given (starts_or_stops a now) f = opened a f.monitor
  handles_given _ f = []

  unfoldable pub all_handles_given : List Event → MainFrame → List ℕ
  all_handles_given [] f = []
  all_handles_given (e ∷ es) f =
      handles_given e f ++ all_handles_given es (step strerror to_long e f).0

  step_balance :
      (e : Event) (f : MainFrame) (h : ℕ)
      → EventFilterWorks e
      → let (g, sniffing, _) = step strerror to_long e f in
        count h (held f.monitor) + count h (handles_given e f)
        ≡ count h (handle_closes sniffing) + count h (held g.monitor)
  unfolding step start_stop click_item clear_filter clear_messages reset_stream tick on_connect
      connect_port initialize_panels initialize_monitor_panel initialize_hardware set_status_text
      on_start_stop_clicked on_log_to_file_toggled on_tree_item_clicked on_clear_filter_clicked
      enable_filter set_filter_criteria enable_data_logging
  step_balance (connects a now server) f h v = elim (Option-cases (to_long f.port_text)) [
    | inl e ↦ ground (arith, e)
    | inr (port, e) ↦
        ground (arith, e, start_balance a now f.host_text (wrap (2 ^ 16) port) f.monitor h v)
  ]
  step_balance (types host port) f h v = ground arith
  step_balance (starts_or_stops a now) f h v =
      let logging = enable_data_logging f.view.log_checked f.monitor in
      ground
        (arith, start_balance a now f.view.host f.view.port logging h v, stop_balance f.monitor h)
  step_balance (toggles_log checked) f h v = ground arith
  step_balance (clicks_item item) f h v = ground arith
  step_balance clears_filter f h v = ground arith
  step_balance clears_messages f h v = ground arith
  step_balance resets_stream f h v = ground arith
  step_balance ticks f h v = ground arith
  step_balance (shows l calls) f h v = ground arith
  step_balance (monitors clock now) f h v =
      ground (arith, monitor_round_session clock now f.monitor)
  step_balance (controls o) f h v = ground arith

  run_balance :
      (es : List Event) (f : MainFrame) (h : ℕ)
      → AllFilterWorks es
      → let (g, sniffing, _) = run strerror to_long es f in
        count h (held f.monitor) + count h (all_handles_given es f)
        ≡ count h (handle_closes sniffing) + count h (held g.monitor)
  unfolding run all_handles_given
  run_balance [] f h v = omega arith
  run_balance (e ∷ es) f h v =
      let (g, sniffing, _) = step strerror to_long e f in
      let (_, more, _) = run strerror to_long es g in
      omega (
        arith,
        step_balance e f h v.0,
        run_balance es g h v.1,
        count-append h (handles_given e f) (all_handles_given es g),
        ap (count h) (handle_closes-append sniffing more),
        count-append h (handle_closes sniffing) (handle_closes more),
      )

exit_balance :
    (f : MainFrame) (h : ℕ)
    → let (g, closing, _) = exit f in count h (held f.monitor) ≡ count h (handle_closes closing)
unfolding exit on_close close_view destroy_monitor stop terminate
exit_balance f h = ground arith

module _ (strerror : ℕ → Text) (to_long : Text → Option ℤ) where
  -- Over any events of a new window in which the filter works wherever libpcap gives a handle, and
  -- the end of the program: each capture handle is closed as often as libpcap gave it.
  pub run-exit :
      (t : Tree) (es : List Event) (h : ℕ)
      → AllFilterWorks es
      → let (f, sniffing, _) = run strerror to_long es (new_main_frame t) in
        count h (all_handles_given strerror to_long es (new_main_frame t))
        ≡ count h (handle_closes (sniffing ++ (exit f).1))
  unfolding connect_callbacks set_callbacks
  run-exit t es h v =
      let (f, sniffing, _) = run strerror to_long es (new_main_frame t) in
      omega (
        arith,
        run_balance strerror to_long es (new_main_frame t) h v,
        exit_balance f h,
        ap (count h) (handle_closes-append sniffing (exit f).1),
        count-append h (handle_closes sniffing) (handle_closes (exit f).1),
      )
