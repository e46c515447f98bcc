-- ===== src/TcpProxy.antt =====
-- src/core/tcp_proxy.hpp and src/core/tcp_proxy.cpp: `TcpProxy`, the passive sniffer. libpcap's
-- answers are arguments, a capture handle is a number, and the calls made of libpcap are listed in
-- order; log lines are left out. The queue's mutex makes `packetHandler` and `receiveData` steps
-- of their own.
pub mod Handles
pub mod Capture
pub mod Dispatch
use tcp_1553_bus_analyzer.Prelude.{
  ℕ, zero, suc, ◌+◌, ◌*◌, ◌-◌, ◌/◌, ◌%◌, Bool, true, false, not, List, [], ◌∷◌, ◌++◌, Option, none,
  some, ltb, ◌==◌, if◌then◌else◌, length, get_or, take, drop, min,
}
use tcp_1553_bus_analyzer.Protocol.{Bytes}
use tcp_1553_bus_analyzer.Text.{Text, codes, decimal}

-- `pcap_handle` is `none` for a null pointer; `capturing` says whether `m_captureThread` is
-- joinable.
pub record TcpProxy : Type 0 where
  pub pcap_handle : Option ℕ
  pub interface : Text
  pub port : ℕ
  pub running : Bool
  pub capturing : Bool
  pub payload_queue : List Bytes

-- After the constructor.
abbrev pub new : TcpProxy
new = record {
  pcap_handle = none;
  interface = [];
  port = 0;
  running = false;
  capturing = false;
  payload_queue = [];
}

pub data PcapCall : Type 0 where
  open_live : Text → PcapCall
  compile : ℕ → Text → PcapCall
  set_filter : ℕ → PcapCall
  break_loop : ℕ → PcapCall
  close : ℕ → PcapCall
  spawn_capture_loop : PcapCall
  join_capture_loop : PcapCall

-- What `pcap_open_live` returns, and whether the two calls after it return -1.
pub record PcapAnswers : Type 0 where
  pub handle : Option ℕ
  pub compile_fails : Bool
  pub set_filter_fails : Bool

abbrev pub filter_text : ℕ → Text
filter_text port = codes "tcp port " ++ decimal port

-- `startSniffing`. The two late error paths close the handle and leave `m_pcapHandle` as it is.
unfoldable pub start_sniffing : PcapAnswers → Text → ℕ → TcpProxy → TcpProxy × Bool × List PcapCall
start_sniffing a interface port p =
    let p1 = record p { interface = interface; port = port; pcap_handle = a.handle } in
    elim a.handle [
      | none ↦ (p1, false, open_live interface ∷ [])
      | some h ↦
          let compiled = open_live interface ∷ compile h (filter_text port) ∷ [] in
          let filtered = compiled ++ set_filter h ∷ [] in
          if a.compile_fails
          then (p1, false, compiled ++ close h ∷ [])
          else if a.set_filter_fails
          then (p1, false, filtered ++ close h ∷ [])
          else (
            record p1 { running = true; capturing = true },
            true,
            filtered ++ spawn_capture_loop ∷ [],
          )
    ]

abbrev on_handle : (ℕ → PcapCall) → Option ℕ → List PcapCall
on_handle call none = []
on_handle call (some h) = call h ∷ []

-- `terminate`, which the destructor calls too.
unfoldable pub terminate : TcpProxy → TcpProxy × List PcapCall
terminate p = (
  record p { running = false; capturing = false; pcap_handle = none },
  on_handle break_loop p.pcap_handle
      ++ (if p.capturing then join_capture_loop ∷ [] else [])
      ++ on_handle close p.pcap_handle,
)

unfoldable pub connected_client_count : TcpProxy → ℕ
connected_client_count p = if p.running then 1 else 0

-- `transmitInjection` is disabled.
abbrev pub transmit_injection : Bytes → Bool
transmit_injection buffer = false

receive_front : ℕ → List Bytes → Bytes × List Bytes
receive_front max_bytes [] = ([], [])
receive_front max_bytes (payload ∷ queue) = (take (min (length payload) max_bytes) payload, queue)

-- `receiveData`: what it copies into the buffer, whose length is what it returns.
unfoldable pub receive_data : ℕ → TcpProxy → Bytes × TcpProxy
unfolding receive_front
receive_data max_bytes p =
    let (copied, queue) = receive_front max_bytes p.payload_queue in
    (copied, record p { payload_queue = queue })

-- The link types of pcap/dlt.h that the handler knows.
abbrev pub dlt_null : ℕ
dlt_null = 0

abbrev pub dlt_en10mb : ℕ
dlt_en10mb = 1

abbrev pub dlt_linux_sll : ℕ
dlt_linux_sll = 113

unfoldable pub link_offset : ℕ → Option ℕ
link_offset link_type =
    if link_type == dlt_en10mb
    then some 14
    else if link_type == dlt_null
    then some 4
    else if link_type == dlt_linux_sll
    then some 16
    else none

-- `ip_v` and `ip_hl` are the high and the low half of the first byte, `doff` the high half of byte
-- 12. A byte that was not captured reads as 0 here; there the code reads past the packet.
unfoldable pub ip_header_len : Bytes → ℕ → ℕ
ip_header_len packet offset =
    let first = get_or packet offset 0 in if first / 16 == 4 then first % 16 * 4 else 40

unfoldable pub tcp_header_len : Bytes → ℕ → ℕ
tcp_header_len packet offset = get_or packet (offset + 12) 0 / 16 * 4

unfoldable pub payload_offset : Bytes → ℕ → ℕ
payload_offset packet offset =
    let tcp = offset + ip_header_len packet offset in tcp + tcp_header_len packet tcp

-- `packetHandler`: `link_type` is `pcap_datalink`'s answer, `packet` the `caplen` captured bytes.
unfoldable pub packet_handler : ℕ → Bytes → TcpProxy → TcpProxy
packet_handler link_type packet p = elim (link_offset link_type) [
  | none ↦ p
  | some offset ↦
      let start = payload_offset packet offset in
      if ltb start (length packet)
      then record p { payload_queue = p.payload_queue ++ drop start packet ∷ [] }
      else p
]

-- One call of `pcap_dispatch`, by the packets that it hands to the handler.
unfoldable pub dispatch : ℕ → List Bytes → TcpProxy → TcpProxy
dispatch link_type [] p = p
dispatch link_type (packet ∷ packets) p =
    dispatch link_type packets (packet_handler link_type packet p)

-- `captureLoop`, by what each round captures and whether `terminate` clears `m_running` meanwhile.
unfoldable pub capture_loop : ℕ → List (List Bytes × Bool) → TcpProxy → TcpProxy
capture_loop link_type [] p = p
capture_loop link_type ((packets, stopping) ∷ rounds) p =
    let q = dispatch link_type packets p in
    let rest =
      capture_loop link_type rounds
        (record q { running = if stopping then false else q.running }) in
    if p.running then rest else p
