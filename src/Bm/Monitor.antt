-- ===== src/Bm/Monitor.antt =====
-- The monitor thread, round after round, over the payloads that the sniffer has queued.
use tcp_1553_bus_analyzer.Prelude.{
  ℕ, suc, ◌+◌, ◌≤◌, ◌<◌, ◌≡◌, refl, ap, sym, ◌∙◌, Bool, true, List, [], ◌∷◌, ◌++◌, arith,
  if◌then◌else◌, length, min, take, take-length,
}
use mathlib.Core.List.{append_assoc, append-nil}
use mathlib.Core.Path.{ap₂}
use tcp_1553_bus_analyzer.Protocol.{Bytes, MessageTransaction, Packet, is_nil}
use tcp_1553_bus_analyzer.Text.{Text}
use tcp_1553_bus_analyzer.Parser.{Event, decoded, warned, parse_stream, ProtocolParser, fresh}
use tcp_1553_bus_analyzer.Parser.Chunks.{IsSettled, flatten, feed, feed-flatten}
use tcp_1553_bus_analyzer.Parser.RoundTrip.{AllPackets, sent, seen, feed-sent}
use tcp_1553_bus_analyzer.TcpProxy.{TcpProxy, receive_data}
use tcp_1553_bus_analyzer.Bm.Format.{Stamp, format_transaction}
use tcp_1553_bus_analyzer.Bm.Relay.{
  shown, report, shown-append, process_conserves, process_settings, SameSettings,
}
use tcp_1553_bus_analyzer.Bm.{
  Bm, passes, monitor_round, process_and_relay_data, buffer_size, GuiCall,
}

unfoldable pub decoded_count : List Event → ℕ
decoded_count [] = 0
decoded_count (decoded t ∷ es) = suc (decoded_count es)
decoded_count (warned m ∷ es) = decoded_count es

-- The report of a list in two parts.
pub report-append :
    (clock : ℕ → Stamp) (n : ℕ) (keep : MessageTransaction → Bool) (es fs : List Event)
    → report clock n keep (es ++ fs)
      ≡ report clock n keep es ++ report clock (n + decoded_count es) keep fs
unfolding report decoded_count
report-append clock n keep [] fs = ap (λ (k : ℕ). report clock k keep fs) (omega arith)
report-append clock n keep (warned m ∷ es) fs = report-append clock n keep es fs
report-append clock n keep (decoded t ∷ es) fs =
    let line = if keep t then format_transaction (clock n) t else [] in
    ap (◌++◌ line) (report-append clock (suc n) keep es fs)
    ∙ sym (append_assoc line _ _)
    ∙ ap (λ (k : ℕ). (line ++ report clock (suc n) keep es) ++ report clock k keep fs) (omega arith)

-- A clock that starts later.
pub report_later :
    (clock : ℕ → Stamp) (n k : ℕ) (keep : MessageTransaction → Bool) (es : List Event)
    → report (λ i. clock (n + i)) k keep es ≡ report clock (n + k) keep es
unfolding report
report_later clock n k keep [] = refl
report_later clock n k keep (warned m ∷ es) = report_later clock n k keep es
report_later clock n k keep (decoded t ∷ es) =
    ap (◌++◌ (if keep t then format_transaction (clock (n + k)) t else []))
      (report_later clock n (suc k) keep es ∙ ap (λ (j : ℕ). report clock j keep es) (omega arith))

-- Rounds of the monitor thread at the given times; `clock` counts the transactions of them all.
unfoldable pub monitor_rounds : (ℕ → Stamp) → ℕ → List ℕ → Bm → Bm × List GuiCall
monitor_rounds clock n [] s = (s, [])
monitor_rounds clock n (now ∷ nows) s =
    let bytes = (receive_data buffer_size s.tcp_proxy).0 in
    let (s1, calls) = monitor_round (λ i. clock (n + i)) now s in
    let (s2, later) =
      monitor_rounds clock (n + decoded_count (parse_stream s.parser bytes).0) nows s1 in
    (s2, calls ++ later)

-- Payloads that a read of the monitor takes whole.
abbrev pub AllFit : List Bytes → Type 0
AllFit [] = Unit {0}
AllFit (b ∷ bs) = (0 < length b) × (length b ≤ buffer_size) × AllFit bs

pub receive_data-fits :
    (p : TcpProxy) (b : Bytes) (bs : List Bytes)
    → p.payload_queue ≡ b ∷ bs
    → length b ≤ buffer_size
    → receive_data buffer_size p ≡ (b, record p { payload_queue = bs })
unfolding receive_data
receive_data-fits p b bs e h =
    let whole : take (min (length b) buffer_size) b ≡ b =
      take-length (min (length b) buffer_size) b (omega arith) in
    ground (arith, whole)

-- The monitor before a round on payload `b`, with that payload taken out of the queue.
abbrev pub taken : Bm → List Bytes → Bm
taken s bs = record s { tcp_proxy = record s.tcp_proxy { payload_queue = bs } }

monitor_round-fits :
    (clock : ℕ → Stamp) (now : ℕ) (s : Bm) (b : Bytes) (bs : List Bytes)
    → s.tcp_proxy.payload_queue ≡ b ∷ bs
    → 0 < length b
    → length b ≤ buffer_size
    → monitor_round clock now s ≡ process_and_relay_data clock now b (taken s bs)
unfolding monitor_round
monitor_round-fits clock now s [] bs e some_byte h = absurd (omega arith)
monitor_round-fits clock now s (x ∷ xs) bs e some_byte h =
    ap
      (λ (r : Bytes × TcpProxy).
        if is_nil r.0
        then (record s { tcp_proxy = r.1 }, [])
        else process_and_relay_data clock now r.0 (record s { tcp_proxy = r.1 }))
      (receive_data-fits s.tcp_proxy (x ∷ xs) bs e h)

module _ (clock : ℕ → Stamp) (now : ℕ) (s : Bm) (b : Bytes) (bs : List Bytes)
    (queued : s.tcp_proxy.payload_queue ≡ b ∷ bs) (some_byte : 0 < length b)
    (fits : length b ≤ buffer_size) where
  pub monitor_round_conserves :
      s.messages_callback ≡ true
      → let (r, calls) = monitor_round clock now s in
        shown calls ++ r.pending_messages
        ≡ s.pending_messages ++ report clock 0 (passes s) (parse_stream s.parser b).0
  unfolding passes
  monitor_round_conserves h =
      rw (monitor_round-fits clock now s b bs queued some_byte fits)
        (process_conserves clock now b (taken s bs) h)

  pub monitor_round_settings :
      SameSettings
        (monitor_round clock now s).0
        (record (taken s bs) { parser = (parse_stream s.parser b).1 })
  monitor_round_settings =
      rw (monitor_round-fits clock now s b bs queued some_byte fits)
        (process_settings clock now b (taken s bs))

pub regroup :
    (a b c q p r1 r2 : Text) → a ++ q ≡ p ++ r1 → b ++ c ≡ q ++ r2 → (a ++ b) ++ c ≡ p ++ (r1 ++ r2)
regroup a b c q p r1 r2 h k =
    append_assoc a b c
    ∙ ap (◌++◌ a) k
    ∙ sym (append_assoc a q r2)
    ∙ ap (λ (t : Text). t ++ r2) h
    ∙ append_assoc p r1 r2

monitor_rounds-feed :
    (clock : ℕ → Stamp) (n : ℕ) (payloads : List Bytes) (nows : List ℕ) (s : Bm)
    → s.tcp_proxy.payload_queue ≡ payloads
    → length nows ≡ length payloads
    → AllFit payloads
    → s.messages_callback ≡ true
    → let (r, calls) = monitor_rounds clock n nows s in
      shown calls ++ r.pending_messages
      ≡ s.pending_messages ++ report clock n (passes s) (feed s.parser payloads).0
unfolding monitor_rounds feed report passes
monitor_rounds-feed clock n [] [] s e same fit h = sym (append-nil s.pending_messages)
monitor_rounds-feed clock n [] (now ∷ nows) s e same fit h = absurd (omega arith)
monitor_rounds-feed clock n (b ∷ bs) [] s e same fit h = absurd (omega arith)
monitor_rounds-feed clock n (b ∷ bs) (now ∷ nows) s e same fit h =
    let es = (parse_stream s.parser b).0 in
    let q = (parse_stream s.parser b).1 in
    let fs = (feed q bs).0 in
    let k = n + decoded_count (parse_stream s.parser (receive_data buffer_size s.tcp_proxy).0).0 in
    let k' = n + decoded_count es in
    let counted : k ≡ k' =
      ap (λ (r : Bytes × TcpProxy). n + decoded_count (parse_stream s.parser r.0).0)
        (receive_data-fits s.tcp_proxy b bs e fit.1) in
    let later = λ (i : ℕ). clock (n + i) in
    let m = monitor_round later now s in
    let l = monitor_rounds clock k nows m.0 in
    let (cb, keep, parser, proxy) = monitor_round_settings later now s b bs e fit.0 fit.1 in
    let first : shown m.1 ++ m.0.pending_messages
        ≡ s.pending_messages ++ report clock n (passes s) es =
      monitor_round_conserves later now s b bs e fit.0 fit.1 h
      ∙ ap (◌++◌ s.pending_messages) (
          report_later clock n 0 (passes s) es
          ∙ ap (λ (j : ℕ). report clock j (passes s) es) (omega arith)) in
    let ih =
      monitor_rounds-feed clock k bs nows m.0 (ap (λ (p : TcpProxy). p.payload_queue) proxy)
        (omega arith) fit.2 (cb ∙ h) in
    let same_report : report clock k (passes m.0) (feed m.0.parser bs).0
        ≡ report clock k' (passes s) fs =
      ap (λ (j : ℕ). report clock j (passes m.0) (feed m.0.parser bs).0) counted
      ∙ ap₂
          (λ (f : MessageTransaction → Bool) (p : ProtocolParser). report clock k' f (feed p bs).0)
          keep parser in
    ap (λ (t : Text). t ++ l.0.pending_messages) (shown-append m.1 l.1)
    ∙ regroup (shown m.1) (shown l.1) l.0.pending_messages m.0.pending_messages s.pending_messages
        (report clock n (passes s) es) (report clock k' (passes s) fs) first
        (ih ∙ ap (◌++◌ m.0.pending_messages) same_report)
    ∙ ap (◌++◌ s.pending_messages) (sym (report-append clock n (passes s) es fs))

-- Whatever payloads the stream comes in, so that each fits the buffer: once the monitor has gone
-- through them, what it has shown and what it holds back are the report of the whole stream,
-- parsed at once. Nothing depends on where the payloads were cut.
pub monitor_rounds-flatten :
    (clock : ℕ → Stamp) (payloads : List Bytes) (nows : List ℕ) (s : Bm)
    → s.tcp_proxy.payload_queue ≡ payloads
    → length nows ≡ length payloads
    → AllFit payloads
    → s.messages_callback ≡ true
    → IsSettled s.parser
    → let (r, calls) = monitor_rounds clock 0 nows s in
      shown calls ++ r.pending_messages
      ≡ s.pending_messages ++ report clock 0 (passes s) (parse_stream s.parser (flatten payloads)).0
monitor_rounds-flatten clock payloads nows s e same fit h settled =
    monitor_rounds-feed clock 0 payloads nows s e same fit h
    ∙ ap (λ (r : List Event × ProtocolParser). s.pending_messages ++ report clock 0 (passes s) r.0)
        (feed-flatten s.parser payloads settled)

-- So a monitor with a new parser reports every packet that was sent and passes the filter.
pub monitor_rounds-sent :
    (clock : ℕ → Stamp) (ps : List Packet) (payloads : List Bytes) (nows : List ℕ) (s : Bm)
    → s.tcp_proxy.payload_queue ≡ payloads
    → length nows ≡ length payloads
    → AllFit payloads
    → s.messages_callback ≡ true
    → s.parser ≡ fresh
    → AllPackets ps
    → flatten payloads ≡ sent ps
    → let (r, calls) = monitor_rounds clock 0 nows s in
      shown calls ++ r.pending_messages ≡ s.pending_messages ++ report clock 0 (passes s) (seen ps)
monitor_rounds-sent clock ps payloads nows s e same fit h new v cut =
    monitor_rounds-feed clock 0 payloads nows s e same fit h
    ∙ ap (λ (r : List Event × ProtocolParser). s.pending_messages ++ report clock 0 (passes s) r.0)
        (ap (λ (p : ProtocolParser). feed p payloads) new ∙ feed-sent ps payloads v cut)
