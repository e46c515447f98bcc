-- ===== src/Bm/Handles.antt =====
-- The capture handle over the life of the monitor, and what the monitor's rounds leave of a
-- session.
use tcp_1553_bus_analyzer.Prelude.{
  ℕ, suc, ◌+◌, ◌≡◌, refl, ◌∙◌, false, List, [], ◌∷◌, ◌++◌, some, arith, ◌==◌, if◌then◌else◌,
}
use tcp_1553_bus_analyzer.Text.{Text}
use tcp_1553_bus_analyzer.Parser.{Event, decoded, warned, deliver, parse_stream}
use tcp_1553_bus_analyzer.TcpProxy.{PcapAnswers, PcapCall, start_sniffing, terminate, receive_data}
use tcp_1553_bus_analyzer.TcpProxy.Handles.{handle_closes, of_option}
use tcp_1553_bus_analyzer.Bm.Format.{Stamp}
use tcp_1553_bus_analyzer.Bm.{
  Bm, start, stop, relay, timed, flush, process_and_relay_data, monitor_round, buffer_size,
}

-- What belongs to a session of the monitor.
abbrev pub SameSession : Bm → Bm → Type 0
SameSession r s =
    (r.monitoring_active ≡ s.monitoring_active)
    × (r.tcp_proxy.pcap_handle ≡ s.tcp_proxy.pcap_handle)
    × (r.filter_enabled ≡ s.filter_enabled)

deliver_session :
    (clock : ℕ → Stamp) (n : ℕ) (s : Bm) (es : List Event)
    → SameSession (deliver (some (timed clock)) (s, n) es).0 s
unfolding deliver
deliver_session clock n s [] = (refl, refl, refl)
deliver_session clock n s (warned m ∷ es) = deliver_session clock n s es
deliver_session clock n s (decoded t ∷ es) =
    let (a, b, c) = deliver_session clock (suc n) (relay (clock n) s t) es in
    let one : SameSession (relay (clock n) s t) s = unfold relay in ground arith in
    (a ∙ one.0, b ∙ one.1, c ∙ one.2)

flush_session : (now : ℕ) (s : Bm) → SameSession (flush now s).0 s
unfolding flush
flush_session now s = ground arith

process_session :
    (clock : ℕ → Stamp) (now : ℕ) (buffer : List ℕ) (s : Bm)
    → SameSession (process_and_relay_data clock now buffer s).0 s
unfolding process_and_relay_data
process_session clock now buffer s =
    let (es, parser) = parse_stream s.parser buffer in
    let s1 = record s { parser = parser } in
    let delivered = (deliver (some (timed clock)) (s1, 0) es).0 in
    let (a, b, c) = flush_session now delivered in
    let (d, e, f) = deliver_session clock 0 s1 es in (a ∙ d, b ∙ e, c ∙ f)

pub monitor_round_session :
    (clock : ℕ → Stamp) (now : ℕ) (s : Bm) → SameSession (monitor_round clock now s).0 s
unfolding monitor_round receive_data
monitor_round_session clock now s =
    let (bytes, proxy) = receive_data buffer_size s.tcp_proxy in
    ground (arith, process_session clock now bytes (record s { tcp_proxy = proxy }))

abbrev pub count : ℕ → List ℕ → ℕ
count h [] = 0
count h (x ∷ xs) = (if x == h then 1 else 0) + count h xs

pub count-append : (h : ℕ) (xs ys : List ℕ) → count h (xs ++ ys) ≡ count h xs + count h ys
count-append h [] ys = omega arith
count-append h (x ∷ xs) ys = omega (arith, count-append h xs ys)

pub handle_closes-append :
    (xs ys : List PcapCall) → handle_closes (xs ++ ys) ≡ handle_closes xs ++ handle_closes ys
handle_closes-append [] ys = refl
handle_closes-append (x ∷ xs) ys = ground (arith, handle_closes-append xs ys)

-- The handle that a sniffer holds.
abbrev pub held : Bm → List ℕ
held s = of_option s.tcp_proxy.pcap_handle

-- A filter that is compiled and set wherever a handle is given.
abbrev pub FilterWorks : PcapAnswers → Type 0
FilterWorks a = (a.compile_fails ≡ false) × (a.set_filter_fails ≡ false)

-- The handle that libpcap gives to a start.
abbrev pub opened : PcapAnswers → Bm → List ℕ
opened a s = if s.monitoring_active then [] else of_option a.handle

pub start_balance :
    (a : PcapAnswers) (now : ℕ) (host : Text) (port : ℕ) (s : Bm) (h : ℕ)
    → FilterWorks a
    → let (r, _, calls) = start a now host port s in
      count h (held s) + count h (opened a s) ≡ count h (handle_closes calls) + count h (held r)
unfolding start start_sniffing terminate
start_balance a now host port s h v = ground (arith, v.0, v.1)

pub stop_balance :
    (s : Bm) (h : ℕ)
    → let (r, calls) = stop s in count h (held s) ≡ count h (handle_closes calls) + count h (held r)
unfolding stop terminate
stop_balance s h = ground arith
