-- ===== src/App/Connect.antt =====
-- What the connection panel does with the port that was typed.
use tcp_1553_bus_analyzer.Prelude.{
  ℕ, ◌^◌, ◌≡◌, ◌⊎◌, true, false, [], ◌∷◌, ◌++◌, Option, some, arith,
}
use tcp_1553_bus_analyzer.Prelude.Int.{ℤ, wrap}
use tcp_1553_bus_analyzer.Text.{Text, codes}
use tcp_1553_bus_analyzer.TcpProxy.{PcapAnswers, start_sniffing, terminate}
use tcp_1553_bus_analyzer.Bc.{ServerAnswers, initialize}
use tcp_1553_bus_analyzer.Bm.{start}
use tcp_1553_bus_analyzer.View.{initialize_view}
use tcp_1553_bus_analyzer.App.{
  MainFrame, address, set_status_text, initialize_hardware, initialize_monitor_panel,
  initialize_panels, failed_text, connect_port, on_connect,
}

module _ (strerror : ℕ → Text) (to_long : Text → Option ℤ) (a : PcapAnswers) (now : ℕ)
    (server : ServerAnswers) (port : ℤ) (f : MainFrame) where
  -- A connection with a number in the port's field, where nothing is monitored yet. Where the
  -- sniffer starts, the panels are shown and the monitor's panel offers to stop, on the port cut
  -- to 16 bits; the window says that monitoring is active whatever the controller's `initialize`
  -- returned, and no box is shown; the status timer is not started. Where it does not start, a
  -- box is shown, the controller is not asked, and all panels stay as they were.
  pub connect_outcome :
      to_long f.port_text ≡ some port
      → f.monitor.monitoring_active ≡ false
      → let host = f.host_text in
        let cut = wrap (2 ^ 16) port in
        let (g, _, calls) = on_connect strerror to_long a now server f in
        let (_, ok, _) = start a now host cut f.monitor in
        ((ok ≡ true)
          × (g.setup_shown ≡ false)
          × (g.notebook_shown ≡ true)
          × (g.view.says_stop ≡ true)
          × (g.monitor.current_port ≡ cut)
          × (g.status ≡ codes "Passive Monitoring Active: " ++ address host cut)
          × (g.boxes ≡ f.boxes)
          × (g.view.timer_running ≡ f.view.timer_running)
          × (g.controller ≡ (initialize strerror server host cut f.controller).0))
        ⊎ ((ok ≡ false)
            × (g.boxes ≡ f.boxes ++ failed_text host port ∷ [])
            × (g.controller ≡ f.controller)
            × (calls ≡ [])
            × (g.view ≡ f.view)
            × (g.setup_shown ≡ f.setup_shown)
            × (g.notebook_shown ≡ f.notebook_shown))
  unfolding on_connect connect_port initialize_panels initialize_monitor_panel initialize_hardware
      set_status_text initialize_view start start_sniffing terminate
  connect_outcome h idle = ground (arith, h)
