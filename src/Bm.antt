-- ===== src/Bm.antt =====
-- src/core/bm.hpp and src/core/bm.cpp: `BM`, the bus monitor. Its atomics and mutexes are plain
-- fields here. The clocks are arguments: `clock n` is what the system clock gives for the n-th
-- transaction of a call, `now` is the steady clock in milliseconds. The callbacks of the user
-- interface are flags (set or empty) and the calls made of them are listed in order.
pub mod Format
pub mod Keys
pub mod Fields
pub mod Relay
pub mod Monitor
pub mod Reported
pub mod Threads
pub mod StartTwice
pub mod Session
pub mod Filter
pub mod Activity
pub mod Handles
use tcp_1553_bus_analyzer.Prelude.{
  ℕ, zero, suc, ◌+◌, ◌-◌, Bool, true, false, not, ◌&&◌, ◌||◌, List, [], ◌∷◌, ◌++◌, map, Option,
  none, some, ltb, ◌==◌, if◌then◌else◌,
}
use tcp_1553_bus_analyzer.Prelude.Int.{ℤ, pos, minus_one, eq_int}
use tcp_1553_bus_analyzer.Protocol.{Bytes, MessageTransaction, is_nil}
use tcp_1553_bus_analyzer.Text.{Text, codes}
use tcp_1553_bus_analyzer.Parser.{ProtocolParser, fresh, parse_stream, reset, deliver, Event}
use tcp_1553_bus_analyzer.TcpProxy.{
  TcpProxy, PcapAnswers, PcapCall, start_sniffing, terminate, receive_data,
}
use tcp_1553_bus_analyzer.TcpProxy
use Format.{Stamp, rt_of, sa_of, format_transaction}
use Keys.{RtSaKey, insert_key}

-- `monitor_thread` says whether `m_monitorThread` is joinable.
pub record Bm : Type 0 where
  pub tcp_proxy : TcpProxy
  pub parser : ProtocolParser
  pub current_port : ℕ
  pub monitor_thread : Bool
  pub monitoring_active : Bool
  pub shutdown_requested : Bool
  pub data_logging_enabled : Bool
  pub messages_callback : Bool
  pub tree_callback : Bool
  pub filter_enabled : Bool
  pub filter_bus : ℕ
  pub filter_rt : ℤ
  pub filter_sa : ℤ
  pub filter_mc : ℤ
  pub last_gui_update : ℕ
  pub pending_messages : Text
  pub pending_active_keys : List RtSaKey

-- After the constructor.
abbrev pub new : Bm
new = record {
  tcp_proxy = TcpProxy.new;
  parser = fresh;
  current_port = 0;
  monitor_thread = false;
  monitoring_active = false;
  shutdown_requested = false;
  data_logging_enabled = false;
  messages_callback = false;
  tree_callback = false;
  filter_enabled = false;
  filter_bus = 0;
  filter_rt = minus_one;
  filter_sa = minus_one;
  filter_mc = minus_one;
  last_gui_update = 0;
  pending_messages = [];
  pending_active_keys = [];
}

abbrev pub is_monitoring : Bm → Bool
is_monitoring s = s.monitoring_active

abbrev pub is_filter_enabled : Bm → Bool
is_filter_enabled s = s.filter_enabled

unfoldable pub enable_filter : Bool → Bm → Bm
enable_filter enable s = record s { filter_enabled = enable }

unfoldable pub set_filter_criteria : ℕ → ℤ → ℤ → ℤ → Bm → Bm
set_filter_criteria bus rt sa mc s = record s {
  filter_bus = bus;
  filter_rt = rt;
  filter_sa = sa;
  filter_mc = mc;
}

unfoldable pub enable_data_logging : Bool → Bm → Bm
enable_data_logging enable s = record s { data_logging_enabled = enable }

unfoldable pub set_callbacks : Bool → Bool → Bm → Bm
set_callbacks messages tree s = record s { messages_callback = messages; tree_callback = tree }

-- `m_filterRt != -1 && rt != (int)m_filterRt`.
abbrev pub rejects : ℤ → ℕ → Bool
rejects wanted got = not (eq_int wanted minus_one) && not (eq_int (pos got) wanted)

-- The filter at the head of the callback.
unfoldable pub passes : Bm → MessageTransaction → Bool
passes s t =
    if s.filter_enabled
    then not (rejects s.filter_rt (rt_of t.cmd1)) && not (rejects s.filter_sa (sa_of t.cmd1))
    else true

abbrev pub key_of : MessageTransaction → RtSaKey
key_of t = record { bus = t.bus1; rt = rt_of t.cmd1; sa = sa_of t.cmd1 }

-- The callback that `processAndRelayData` gives to the parser.
unfoldable pub relay : Stamp → Bm → MessageTransaction → Bm
relay at s t =
    if passes s t
    then record s {
      pending_messages = s.pending_messages ++ format_transaction at t;
      pending_active_keys =
          if t.cmd1_valid
          then insert_key (key_of t) s.pending_active_keys
          else s.pending_active_keys;
    }
    else s

pub data GuiCall : Type 0 where
  show_messages : Text → GuiCall
  tree_item : ℕ → ℕ → ℕ → Bool → GuiCall

abbrev pub activate : RtSaKey → GuiCall
activate k = tree_item k.bus k.rt k.sa true

-- The second half of `processAndRelayData`: after more than 50 ms what is pending goes out.
unfoldable pub flush : ℕ → Bm → Bm × List GuiCall
flush now s =
    if ltb 50 (now - s.last_gui_update)
    then (
      record s { pending_messages = []; pending_active_keys = []; last_gui_update = now },
      (if s.messages_callback && not (is_nil s.pending_messages)
            then show_messages s.pending_messages ∷ []
            else [])
          ++ (if s.tree_callback && not (is_nil s.pending_active_keys)
              then map activate s.pending_active_keys
              else []),
    )
    else (s, [])

-- The callback with the clock read once for each transaction.
abbrev pub timed : (ℕ → Stamp) → Bm × ℕ → MessageTransaction → Bm × ℕ
timed clock (s, n) t = (relay (clock n) s t, suc n)

unfoldable pub process_and_relay_data : (ℕ → Stamp) → ℕ → Bytes → Bm → Bm × List GuiCall
process_and_relay_data clock now buffer s =
    let (es, parser) = parse_stream s.parser buffer in
    flush now (deliver (some (timed clock)) (record s { parser = parser }, 0) es).0

abbrev pub buffer_size : ℕ
buffer_size = 4096

-- One round of the loop of `monitorThreadFunc`, taken while no shutdown is requested.
unfoldable pub monitor_round : (ℕ → Stamp) → ℕ → Bm → Bm × List GuiCall
monitor_round clock now s =
    let (bytes, proxy) = receive_data buffer_size s.tcp_proxy in
    let s1 = record s { tcp_proxy = proxy } in
    if is_nil bytes then (s1, []) else process_and_relay_data clock now bytes s1

-- The end of `monitorThreadFunc`.
unfoldable pub monitor_exit : Bm → Bm
monitor_exit s = record s { shutdown_requested = false; monitoring_active = false }

abbrev eq_text : Text → Text → Bool
eq_text [] [] = true
eq_text (x ∷ xs) (y ∷ ys) = x == y && eq_text xs ys
eq_text _ _ = false

-- `(host == "127.0.0.1" || host == "localhost") ? "lo" : host`.
pub interface_of : Text → Text
interface_of host =
    if eq_text host (codes "127.0.0.1") || eq_text host (codes "localhost")
    then codes "lo"
    else host

-- `start`; joining an old monitor thread lets it run to its end first.
unfoldable pub start : PcapAnswers → ℕ → Text → ℕ → Bm → Bm × Bool × List PcapCall
start a now host port s =
    let (stopped, closing) = terminate s.tcp_proxy in
    let (proxy, started, opening) = start_sniffing a (interface_of host) port stopped in
    let cleared = record s {
      tcp_proxy = proxy;
      monitor_thread = false;
      parser = reset s.parser;
      pending_messages = [];
      pending_active_keys = [];
      last_gui_update = now;
    } in
    if s.monitoring_active
    then (s, true, [])
    else if started
    then (
      record cleared {
        current_port = port;
        monitoring_active = true;
        shutdown_requested = false;
        monitor_thread = true;
      },
      true,
      closing ++ opening,
    )
    else (cleared, false, closing ++ opening)

unfoldable pub stop : Bm → Bm × List PcapCall
stop s =
    let (proxy, closing) = terminate s.tcp_proxy in
    if s.monitoring_active
    then (
      record s {
        tcp_proxy = proxy;
        monitor_thread = false;
        monitoring_active = false;
        shutdown_requested = false;
      },
      closing,
    )
    else (s, [])
