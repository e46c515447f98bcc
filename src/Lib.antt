-- ===== src/Lib.antt =====
-- The TCP 1553 suite: a bus controller and a bus monitor of MIL-STD-1553 traffic that travels in
-- fixed packets of 70 bytes over TCP. The controller (src/core/bc.cpp) is the TCP server to which
-- the simulator connects; it writes packets and reads replies. The monitor (src/core/bm.cpp) sees
-- the same traffic from outside: the sniffer (src/core/tcp_proxy.cpp) takes the payloads out of
-- captured TCP segments, the parser (src/core/protocol_parser.cpp) makes transactions of them, and
-- the monitor filters and formats these and hands them to the user interface in batches.
--
-- The files:
--   Prelude, Text: native numbers, lists, `int` values and texts as lists of character codes,
--     with `std::to_string`, hexadecimal output and `std::stoul(s, nullptr, 16)`.
--   Common: src/common/common.hpp (`BcMode`, `FrameConfig`), and its path helpers
--     (Common.Paths).
--   Logger: src/common/logger.cpp: the logger made at the first call, and the lines written.
--   MilStd: src/core/milStd1553.hpp: buses, terminals, subaddresses and mode codes.
--   Protocol: src/core/protocol.hpp (`Qemu1553Packet`, `MessageTransaction`).
--   Parser: src/core/protocol_parser.cpp. `parse_stream` is `parseStream`; the callback's calls
--     and the log lines are its events. Its children hold a fuel-free description of the loop
--     (Scan), the cutting of a stream into calls (Chunks), a grammar of streams (Frames) and the
--     round trip.
--   Bc: src/core/bc.cpp. `initialize`, `accept_round` (`acceptLoop`), `shutdown` and
--     `send_acyclic_frame` with the operating system's answers as arguments and its calls as a
--     list; Bc.Race: the same client sockets under any interleaving of the three threads.
--   TcpProxy: src/core/tcp_proxy.cpp, with libpcap's answers as arguments.
--   Bm: src/core/bm.cpp: `start`, `stop`, the filter, `process_and_relay_data`, the rounds of
--     `monitorThreadFunc`, and the text of a transaction (Bm.Format); Bm.Threads: the capture
--     thread, the monitor thread and the main thread under any interleaving, with the sniffer's
--     handle; Bm.StartTwice: test_bm_crash.cpp, which starts and stops the monitor twice.
--   Link: the controller and the monitor together; Link.Interleaved: with the sniffer
--     between them, its thread next to the monitor's; Link.Mixed: the two directions in one
--     stream; Link.Pass: from the panel's list of frames on; Link.Lights: up to the tree of the
--     monitor's panel.
--   Frame: src/ui/FrameComponent.cpp: `update_values` (what a frame shows) and `send_frame`.
--   Panel: src/ui/BusControllerPanel.cpp: the list of frames, and `sendActiveFramesLoop` next to
--     the main thread, as moves of two threads, with the toggles, their labels and the status
--     texts.
--   Defaults: `addDefaultFrames` of the same file.
--   View: src/ui/BusMonitorPanel.cpp: the tree and the filter that a click on it sets, the
--     handlers of the buttons, and the text that is kept; View.Build: the loops that fill the
--     tree.
--   Editor: src/ui/CreateFrameWindow.cpp: the controls of the frame editor, opening and saving.
--   App: src/ui/MainFrame.cpp, src/ui/TcpConnectionPanel.cpp: the window over all of them, from
--     the connection to the end of the program.
--   Tests: the theorems at concrete inputs.
--
-- The model: numbers are natural numbers, and where the code cuts a value to 8, 16 or 64 bits the
-- cut is written out. A byte or a word is a number; what keeps it in range is said where it
-- matters. Of the program's loops one is on fuel, the parser's, with one more than the number of
-- bytes that wait: every round but the last drops a byte. Clocks, sockets, libpcap, `strerror` and
-- the user interface's callbacks are arguments or lists of calls.
--
-- Not modelled: the layout and drawing of wxWidgets, what goes to the console, the single instances
-- of the classes, which are the states themselves, and the headers of libpcap, which are another
-- project's.
pub mod Prelude
pub mod Text
pub mod Common
pub mod Protocol
pub mod Parser
pub mod Bc
pub mod TcpProxy
pub mod Bm
pub mod Link
pub mod App
pub mod Defaults
pub mod Editor
pub mod Frame
pub mod Logger
pub mod MilStd
pub mod Panel
pub mod View
pub mod Tests
