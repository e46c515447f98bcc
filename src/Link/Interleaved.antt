-- ===== src/Link/Interleaved.antt =====
-- The capture thread and the monitor thread side by side: segments are captured while the monitor
-- makes its rounds. Each captured packet and each `receiveData` holds `m_queueMutex`, and only the
-- monitor thread touches what a round touches besides, so a move is one packet or one round.
pub mod Delivered
use tcp_1553_bus_analyzer.Prelude.{
  ℕ, suc, ◌+◌, ◌≤◌, ◌<◌, ◌≡◌, refl, ap, sym, ◌∙◌, Bool, true, false, List, [], ◌∷◌, ◌++◌, map,
  arith, length, length-append, ltb, if◌then◌else◌,
}
use native.Mathlib.Nat.{add-zero}
use mathlib.Core.Path.{subst}
use mathlib.Core.List.{append_assoc, append-nil}
use tcp_1553_bus_analyzer.Prelude.Int.{is_negative}
use tcp_1553_bus_analyzer.Common.{FrameConfig}
use tcp_1553_bus_analyzer.Protocol.{Bytes, is_nil}
use tcp_1553_bus_analyzer.Parser.{Event, ProtocolParser, fresh, parse_stream}
use tcp_1553_bus_analyzer.Parser.Chunks.{feed, flatten}
use tcp_1553_bus_analyzer.Parser.RoundTrip.{sent, seen, feed-sent}
use tcp_1553_bus_analyzer.Bc.{BusController}
use tcp_1553_bus_analyzer.Bc.Send.{SendAnswers}
use tcp_1553_bus_analyzer.TcpProxy.{TcpProxy, packet_handler, receive_data}
use tcp_1553_bus_analyzer.TcpProxy.Capture.{Capture, captured, packet_handler-captured}
use tcp_1553_bus_analyzer.TcpProxy.Dispatch.{
  AllCaptures, payloads_of, stream_of, flatten_payloads, one, queueing, queue_one, split_one,
}
use tcp_1553_bus_analyzer.Bm.{Bm, GuiCall, passes, buffer_size, monitor_round}
use tcp_1553_bus_analyzer.Bm.Format.{Stamp}
use tcp_1553_bus_analyzer.Bm.Relay.{shown, report}
use tcp_1553_bus_analyzer.Bm.Monitor.{AllFit, receive_data-fits, decoded_count}
use tcp_1553_bus_analyzer.Bm.Reported.{
  Reported, nothing-Reported, Reported-trans, round-Reported, round_queue,
}

-- Payloads that a read of the monitor takes whole.
abbrev pub AllSmall : List Capture → Type 0
AllSmall [] = Unit {0}
AllSmall (c ∷ cs) = (length c.behind ≤ buffer_size) × AllSmall cs

pub data Move : Type 0 where
  captures : Capture → Move
  monitors : ℕ → Move

-- The transactions that the next round decodes.
abbrev pub next_count : Bm → ℕ
next_count s =
    let bytes = (receive_data buffer_size s.tcp_proxy).0 in
    if is_nil bytes then 0 else decoded_count (parse_stream s.parser bytes).0

-- The two threads under a schedule; n transactions were decoded before it.
unfoldable pub run : (ℕ → Stamp) → ℕ → ℕ → List Move → Bm → Bm × List GuiCall × ℕ
run clock link_type n [] s = (s, [], n)
run clock link_type n (captures c ∷ ms) s =
    run clock link_type n ms
      (record s { tcp_proxy = packet_handler link_type (captured c) s.tcp_proxy })
run clock link_type n (monitors now ∷ ms) s =
    let (s1, calls) = monitor_round (λ i. clock (n + i)) now s in
    let (s2, later, k) = run clock link_type (n + next_count s) ms s1 in (s2, calls ++ later, k)

abbrev pub captures_of : List Move → List Capture
captures_of [] = []
captures_of (captures c ∷ ms) = c ∷ captures_of ms
captures_of (monitors now ∷ ms) = captures_of ms

-- The payloads that the monitor takes out of a queue, and those that it leaves there.
abbrev pub taken : List Bytes → List Move → List Bytes
taken q [] = []
taken q (captures c ∷ ms) = taken (q ++ one c) ms
taken [] (monitors now ∷ ms) = taken [] ms
taken (b ∷ bs) (monitors now ∷ ms) = b ∷ taken bs ms

abbrev pub left : List Bytes → List Move → List Bytes
left q [] = q
left q (captures c ∷ ms) = left (q ++ one c) ms
left [] (monitors now ∷ ms) = left [] ms
left (b ∷ bs) (monitors now ∷ ms) = left bs ms

-- First in, first out: nothing is lost, doubled or overtaken.
pub taken-left :
    (q : List Bytes) (ms : List Move) → taken q ms ++ left q ms ≡ q ++ payloads_of (captures_of ms)
taken-left q [] = sym (append-nil q)
taken-left q (captures c ∷ ms) =
    taken-left (q ++ one c) ms
    ∙ append_assoc q (one c) (payloads_of (captures_of ms))
    ∙ ap (◌++◌ q) (split_one (ltb 0 (length c.behind)) c.behind (payloads_of (captures_of ms)))
taken-left [] (monitors now ∷ ms) = taken-left [] ms
taken-left (b ∷ bs) (monitors now ∷ ms) = ap (◌∷◌ b) (taken-left bs ms)

AllFit-append : (xs ys : List Bytes) → AllFit xs → AllFit ys → AllFit (xs ++ ys)
AllFit-append [] ys v w = w
AllFit-append (x ∷ xs) ys v w = (v.0, v.1, AllFit-append xs ys v.2 w)

one-AllFit : (c : Capture) → length c.behind ≤ buffer_size → AllFit (one c)
one-AllFit c h = ground arith

-- A round on an empty queue.
idle_round :
    (clock : ℕ → Stamp) (now : ℕ) (s : Bm)
    → s.tcp_proxy.payload_queue ≡ []
    → monitor_round clock now s
      ≡ (record s { tcp_proxy = record s.tcp_proxy { payload_queue = [] } }, [])
unfolding monitor_round receive_data
idle_round clock now s e = ground (arith, e)

next_count-nil : (s : Bm) → s.tcp_proxy.payload_queue ≡ [] → next_count s ≡ 0
unfolding receive_data
next_count-nil s e = ground (arith, e)

next_count-cons :
    (s : Bm) (b : Bytes) (bs : List Bytes)
    → s.tcp_proxy.payload_queue ≡ b ∷ bs
    → 0 < length b
    → length b ≤ buffer_size
    → next_count s ≡ decoded_count (parse_stream s.parser b).0
next_count-cons s [] bs e h k = absurd (omega arith)
next_count-cons s (x ∷ xs) bs e h k =
    ap
      (λ (r : Bytes × TcpProxy).
        if is_nil r.0 then 0 else decoded_count (parse_stream s.parser r.0).0)
      (receive_data-fits s.tcp_proxy (x ∷ xs) bs e k)

idle-Reported :
    (clock : ℕ → Stamp) (n now : ℕ) (s : Bm)
    → s.tcp_proxy.payload_queue ≡ []
    → let (t, calls) = monitor_round (λ i. clock (n + i)) now s in
      Reported clock n s [] t calls (n + next_count s) × (t.tcp_proxy.payload_queue ≡ [])
unfolding passes
idle-Reported clock n now s e =
    let t = record s { tcp_proxy = record s.tcp_proxy { payload_queue = [] } } in
    rw (idle_round (λ i. clock (n + i)) now s e, next_count-nil s e, add-zero)
      (nothing-Reported clock n s t refl refl refl refl, refl)

-- Under any schedule the monitor reports what it takes, and the queue holds what it leaves.
pub run-Reported :
    (clock : ℕ → Stamp) (link_type n : ℕ) (q : List Bytes) (ms : List Move) (s : Bm)
    → AllCaptures link_type (captures_of ms)
    → AllSmall (captures_of ms)
    → AllFit q
    → s.tcp_proxy.payload_queue ≡ q
    → s.messages_callback ≡ true
    → let (t, calls, k) = run clock link_type n ms s in
      Reported clock n s (taken q ms) t calls k × (t.tcp_proxy.payload_queue ≡ left q ms)
unfolding run passes
run-Reported clock link_type n q [] s v small fit e cb =
    (nothing-Reported clock n s s refl refl refl refl, e)
run-Reported clock link_type n q (captures c ∷ ms) s v small fit e cb =
    let proxy = packet_handler link_type (captured c) s.tcp_proxy in
    let s1 = record s { tcp_proxy = proxy } in
    let (t, calls, k) = run clock link_type n ms s1 in
    let queued : proxy.payload_queue ≡ q ++ one c =
      ap (λ (p : TcpProxy). p.payload_queue)
        (packet_handler-captured link_type c v.0 s.tcp_proxy
          ∙ queue_one (ltb 0 (length c.behind)) c.behind s.tcp_proxy)
      ∙ ap (λ (l : List Bytes). l ++ one c) e in
    let (later, rest) =
      run-Reported clock link_type n (q ++ one c) ms s1 v.1 small.1
        (AllFit-append q (one c) fit (one-AllFit c small.0)) queued cb in
    (
      Reported-trans clock n s [] s1 [] n (taken (q ++ one c) ms) t calls k
          (nothing-Reported clock n s s1 refl refl refl refl) later,
      rest,
    )
run-Reported clock link_type n [] (monitors now ∷ ms) s v small fit e cb =
    let (s1, calls) = monitor_round (λ i. clock (n + i)) now s in
    let (t, later, k) = run clock link_type (n + next_count s) ms s1 in
    let (first, queued) = idle-Reported clock n now s e in
    let (more, rest) =
      run-Reported clock link_type (n + next_count s) [] ms s1 v small fit queued
        (first.called ∙ cb) in
    (
      Reported-trans clock n s [] s1 calls (n + next_count s) (taken [] ms) t later k first more,
      rest,
    )
run-Reported clock link_type n (b ∷ bs) (monitors now ∷ ms) s v small fit e cb =
    let (s1, calls) = monitor_round (λ i. clock (n + i)) now s in
    let (t, later, k) = run clock link_type (n + next_count s) ms s1 in
    let first : Reported clock n s (b ∷ []) s1 calls (n + next_count s) =
      rw (next_count-cons s b bs e fit.0 fit.1)
        (round-Reported clock n now s b bs e fit.0 fit.1 cb) in
    let (more, rest) =
      run-Reported clock link_type (n + next_count s) bs ms s1 v small fit.2
        (round_queue clock n now s b bs e fit.0 fit.1 cb) (first.called ∙ cb) in
    (
      Reported-trans clock n s (b ∷ []) s1 calls (n + next_count s) (taken bs ms) t later k first
          more,
      rest,
    )
