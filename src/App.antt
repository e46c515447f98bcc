-- ===== src/App.antt =====
-- src/ui/MainFrame.cpp, src/ui/TcpConnectionPanel.cpp, src/app.cpp and `InitializeHardware` of
-- src/ui/BusControllerPanel.cpp: the main window, which holds the connection panel until the
-- sniffer has started and then the two panels, and what is torn down at the end.
-- `wxString::ToLong`, libpcap and the operating system answer by arguments.
pub mod Status
pub mod Run
pub mod Connect
pub mod Sync
pub mod Exit
pub mod Release
use tcp_1553_bus_analyzer.Prelude.{
  ℕ, ◌^◌, Bool, true, false, List, [], ◌∷◌, ◌++◌, Option, none, some, if◌then◌else◌,
}
use tcp_1553_bus_analyzer.Prelude.Int.{ℤ, pos, wrap, is_zero}
use tcp_1553_bus_analyzer.Text.{Text, codes, decimal, decimal_int}
use tcp_1553_bus_analyzer.TcpProxy.{PcapAnswers, PcapCall, terminate}
use tcp_1553_bus_analyzer.Bc.{BusController, ServerAnswers, Call, initialize, shutdown, idle}
use tcp_1553_bus_analyzer.Bc.Lifecycle.{Op}
use tcp_1553_bus_analyzer.Bc.Lifecycle
use tcp_1553_bus_analyzer.Bm.{Bm, start, monitor_round}
use tcp_1553_bus_analyzer.Bm.Format.{Stamp}
use tcp_1553_bus_analyzer.Bm
use tcp_1553_bus_analyzer.View.{
  View, Tree, new_view, connect_callbacks, initialize_view, on_start_stop_clicked,
  on_log_to_file_toggled, on_tree_item_clicked, on_clear_filter_clicked, on_clear_clicked,
  on_reset_stream_clicked, close_view,
}

-- `host_text` and `port_text` are the fields of the connection panel, `boxes` the message boxes so
-- far; the notebook holds the controller's and the monitor's panel.
pub record MainFrame : Type 0 where
  pub setup_shown : Bool
  pub notebook_shown : Bool
  pub has_menu : Bool
  pub host_text : Text
  pub port_text : Text
  pub title : Text
  pub status : Text
  pub boxes : List Text
  pub bc_host : Text
  pub bc_port : ℕ
  pub controller : BusController
  pub view : View
  pub monitor : Bm

-- What the fields of the connection panel start with.
abbrev pub default_interface : Text
default_interface = codes "lo"

abbrev pub default_port : Text
default_port = codes "5002"

-- The constructor, over the tree that the monitor's panel has filled.
abbrev pub new_main_frame : Tree → MainFrame
new_main_frame t = record {
  setup_shown = true;
  notebook_shown = false;
  has_menu = false;
  host_text = default_interface;
  port_text = default_port;
  title = codes "TCP 1553 Suite - Connection Setup";
  status = codes "Ready. Please initialize Passive TCP connection.";
  boxes = [];
  bc_host = [];
  bc_port = 0;
  controller = idle;
  view = new_view t;
  monitor = connect_callbacks Bm.new;
}

unfoldable pub set_status_text : Text → MainFrame → MainFrame
set_status_text text f = record f { status = text }

-- `%s:%u`.
abbrev pub address : Text → ℕ → Text
address host port = host ++ codes ":" ++ decimal port

-- `BusControllerPanel::InitializeHardware`.
unfoldable pub initialize_hardware :
    (ℕ → Text) → ServerAnswers → Text → ℕ → MainFrame → MainFrame × List Call
initialize_hardware strerror server host port f =
    let (c, result, calls) = initialize strerror server host port f.controller in
    let g = record f { bc_host = host; bc_port = port; controller = c } in
    (
      set_status_text
          (if is_zero result
            then codes "BC Panel Initialized for " ++ address host port ++ codes ". Ready."
            else codes "BC initialization failed: " ++ c.last_error)
          g,
      calls,
    )

-- `BusMonitorPanel::InitializeHardware`.
unfoldable pub initialize_monitor_panel : Text → ℕ → MainFrame → MainFrame
initialize_monitor_panel host port f =
    set_status_text
      (codes "BM Panel Ready for Passive Sniffing on " ++ address host port ++ codes ".")
      (record f { view = initialize_view host port f.monitor f.view })

unfoldable pub initialize_panels :
    (ℕ → Text) → ServerAnswers → Text → ℕ → MainFrame → MainFrame × List Call
initialize_panels strerror server host port f =
    let (g, calls) = initialize_hardware strerror server host port f in
    (
      set_status_text (codes "Passive Monitoring Active: " ++ address host port)
          (record (initialize_monitor_panel host port g) {
            setup_shown = false;
            notebook_shown = true;
            has_menu = true;
            title = codes "TCP 1553 Suite - Monitoring " ++ address host port;
          }),
      calls,
    )

-- What a handler has done, with the calls that it made of libpcap and of the operating system.
abbrev pub Outcome : Type 0
Outcome = MainFrame × List PcapCall × List Call

abbrev pub show_box : Text → MainFrame → MainFrame
show_box text f = record f { boxes = f.boxes ++ text ∷ [] }

abbrev pub invalid_port : Text
invalid_port = codes "Invalid bus port number."

-- The text of the box after a start that failed; the port is printed as it was read.
unfoldable pub failed_text : Text → ℤ → Text
failed_text host port =
    codes "Failed to connect TCP Sniffer on "
    ++ host
    ++ codes ":"
    ++ decimal_int port
    ++ codes "\n\nThis is likely a 'Permission Denied' error.\nTo capture packets on "
    ++ host
    ++ codes
        ", the application needs elevated privileges.\n\nSolution:\nRun the permission script provided in the project root:\n  sudo ./scripts/setup_permissions.sh\n\nThen restart this application."

-- `onConnect` behind the test of the text; `(uint16_t)port` cuts the number.
unfoldable pub connect_port :
    (ℕ → Text) → PcapAnswers → ℕ → ServerAnswers → Text → ℤ → MainFrame → Outcome
connect_port strerror a now server host port f =
    let cut = wrap (2 ^ 16) port in
    let (started, ok, sniffing) = start a now host cut f.monitor in
    let g = record f { monitor = started } in
    let (shown, calls) = initialize_panels strerror server host cut g in
    if ok then (shown, sniffing, calls) else (show_box (failed_text host port) g, sniffing, [])

unfoldable pub on_connect :
    (ℕ → Text) → (Text → Option ℤ) → PcapAnswers → ℕ → ServerAnswers → MainFrame → Outcome
on_connect strerror to_long a now server f = elim (to_long f.port_text) [
  | none ↦ (show_box invalid_port f, [], [])
  | some port ↦ connect_port strerror a now server f.host_text port f
]

-- `BusMonitorApp::OnInit`, by what that of wxWidgets returns.
unfoldable pub on_init : Bool → Tree → Option MainFrame
on_init ok t = if ok then some (new_main_frame t) else none

-- `onClose`: the window destroys the panels.
unfoldable pub on_close : MainFrame → Outcome
on_close f =
    let (v, s, calls) = close_view f.view f.monitor in
    (record f { view = v; monitor = s; setup_shown = false; notebook_shown = false }, calls, [])

-- `onExit`, of the menu: `Close(true)`, which sends the event.
unfoldable pub on_exit : MainFrame → Outcome
unfolding on_close
on_exit f = on_close f

-- `BM::~BM`, and then that of its sniffer.
unfoldable pub destroy_monitor : Bm → Bm × List PcapCall
destroy_monitor s =
    let (stopped, closing) = Bm.stop s in
    let (proxy, more) = terminate stopped.tcp_proxy in
    (record stopped { tcp_proxy = proxy }, closing ++ more)

-- The window closes, and then the two instances are destroyed, the later one first.
unfoldable pub exit : MainFrame → Outcome
exit f =
    let (g, closing, _) = on_close f in
    let (c, calls) = shutdown g.controller in
    let (s, more) = destroy_monitor g.monitor in
    (record g { controller = c; monitor = s }, closing ++ more, calls)
