-- ===== src/App/Run.antt =====
-- The program as events of the main window, one after the other.
use tcp_1553_bus_analyzer.Prelude.{ℕ, Bool, List, [], ◌∷◌, ◌++◌, Option}
use tcp_1553_bus_analyzer.Prelude.Int.{ℤ}
use tcp_1553_bus_analyzer.Text.{Text}
use tcp_1553_bus_analyzer.TcpProxy.{PcapAnswers}
use tcp_1553_bus_analyzer.Bc.{ServerAnswers}
use tcp_1553_bus_analyzer.Bc.Lifecycle.{Op}
use tcp_1553_bus_analyzer.Bc.Lifecycle
use tcp_1553_bus_analyzer.Bm.{GuiCall, monitor_round}
use tcp_1553_bus_analyzer.Bm.Format.{Stamp}
use tcp_1553_bus_analyzer.View.{on_log_to_file_toggled}
use tcp_1553_bus_analyzer.View.Shown.{Lines, on_gui_calls}
use tcp_1553_bus_analyzer.App.{MainFrame, Outcome, on_connect}
use tcp_1553_bus_analyzer.App.Status.{
  start_stop, click_item, clear_filter, clear_messages, reset_stream, tick,
}

-- What happens to the window: text in the fields, the handlers of its panels, a round of the
-- monitor's thread, closures that this has posted, and an operation of the controller.
pub data Event : Type 0 where
  types : Text → Text → Event
  connects : PcapAnswers → ℕ → ServerAnswers → Event
  starts_or_stops : PcapAnswers → ℕ → Event
  toggles_log : Bool → Event
  clicks_item : ℕ → Event
  clears_filter : Event
  clears_messages : Event
  resets_stream : Event
  ticks : Event
  monitors : (ℕ → Stamp) → ℕ → Event
  shows : Lines → List GuiCall → Event
  controls : Op → Event

module _ (strerror : ℕ → Text) (to_long : Text → Option ℤ) where
  unfoldable pub step : Event → MainFrame → Outcome
  step (types host port) f = (record f { host_text = host; port_text = port }, [], [])
  step (connects a now server) f = on_connect strerror to_long a now server f
  step (starts_or_stops a now) f = start_stop a now f
  step (toggles_log checked) f =
      let (v, s) = on_log_to_file_toggled checked f.view f.monitor in
      (record f { view = v; monitor = s }, [], [])
  step (clicks_item item) f = (click_item item f, [], [])
  step clears_filter f = (clear_filter f, [], [])
  step clears_messages f = (clear_messages f, [], [])
  step resets_stream f = (reset_stream f, [], [])
  step ticks f = (tick f, [], [])
  step (shows l calls) f = (record f { view = on_gui_calls l calls f.view }, [], [])
  step (monitors clock now) f =
      let (s, shown) = monitor_round clock now f.monitor in (record f { monitor = s }, [], [])
  step (controls o) f =
      let (c, calls) = Lifecycle.step strerror o f.controller in
      (record f { controller = c }, [], calls)

  unfoldable pub run : List Event → MainFrame → Outcome
  run [] f = (f, [], [])
  run (e ∷ es) f =
      let (g, sniffing, calls) = step e f in
      let (h, more_sniffing, more_calls) = run es g in
      (h, sniffing ++ more_sniffing, calls ++ more_calls)
