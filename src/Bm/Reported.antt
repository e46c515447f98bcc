-- ===== src/Bm/Reported.antt =====
-- What the monitor has done with the payloads that it has taken so far, whatever happens between
-- its rounds.
use tcp_1553_bus_analyzer.Prelude.{
  ℕ, ◌+◌, ◌≤◌, ◌<◌, ◌≡◌, refl, ap, sym, ◌∙◌, Bool, true, List, [], ◌∷◌, ◌++◌, arith, length,
}
use mathlib.Core.List.{append_assoc, append-nil}
use mathlib.Core.Path.{ap₂}
use tcp_1553_bus_analyzer.Protocol.{Bytes, MessageTransaction}
use tcp_1553_bus_analyzer.Text.{Text}
use tcp_1553_bus_analyzer.Parser.{Event, decoded, warned, parse_stream, ProtocolParser}
use tcp_1553_bus_analyzer.Parser.Chunks.{feed}
use tcp_1553_bus_analyzer.TcpProxy.{TcpProxy}
use tcp_1553_bus_analyzer.Bm.Format.{Stamp}
use tcp_1553_bus_analyzer.Bm.Relay.{shown, report, shown-append}
use tcp_1553_bus_analyzer.Bm.Monitor.{
  decoded_count, regroup, report-append, report_later, monitor_round_conserves,
  monitor_round_settings,
}
use tcp_1553_bus_analyzer.Bm.{Bm, passes, monitor_round, buffer_size, GuiCall}

-- From `s`, with n transactions decoded, to `t`, with k: the monitor has taken the payloads `bs`
-- and made `calls`, and what these have shown, with what is pending, is what was pending and the
-- report of `bs`.
pub record Reported (clock : ℕ → Stamp) (n : ℕ) (s : Bm) (bs : List Bytes) (t : Bm)
    (calls : List GuiCall) (k : ℕ) : Type 0 where
  pub text :
      shown calls ++ t.pending_messages
      ≡ s.pending_messages ++ report clock n (passes s) (feed s.parser bs).0
  pub parsed : t.parser ≡ (feed s.parser bs).1
  pub keeps : passes t ≡ passes s
  pub called : t.messages_callback ≡ s.messages_callback
  pub counted : k ≡ n + decoded_count (feed s.parser bs).0

feed-append :
    (p : ProtocolParser) (bs cs : List Bytes)
    → feed p (bs ++ cs) ≡ ((feed p bs).0 ++ (feed (feed p bs).1 cs).0, (feed (feed p bs).1 cs).1)
unfolding feed
feed-append p [] cs = refl
feed-append p (b ∷ bs) cs =
    let (es, q) = parse_stream p b in
    ap (λ (r : List Event × ProtocolParser). (es ++ r.0, r.1)) (feed-append q bs cs)
    ∙ ap (λ (l : List Event). (l, (feed (feed q bs).1 cs).1))
        (sym (append_assoc es (feed q bs).0 (feed (feed q bs).1 cs).0))

decoded_count-append :
    (es fs : List Event) → decoded_count (es ++ fs) ≡ decoded_count es + decoded_count fs
unfolding decoded_count
decoded_count-append [] fs = omega arith
decoded_count-append (decoded t ∷ es) fs = omega (arith, decoded_count-append es fs)
decoded_count-append (warned m ∷ es) fs = decoded_count-append es fs

-- Nothing taken and nothing called: whatever else has changed.
pub nothing-Reported :
    (clock : ℕ → Stamp) (n : ℕ) (s t : Bm)
    → t.pending_messages ≡ s.pending_messages
    → t.parser ≡ s.parser
    → passes t ≡ passes s
    → t.messages_callback ≡ s.messages_callback
    → Reported clock n s [] t [] n
unfolding feed report decoded_count
nothing-Reported clock n s t e p k c = record {
  text = e ∙ sym (append-nil s.pending_messages);
  parsed = p;
  keeps = k;
  called = c;
  counted = omega arith;
}

-- One after the other.
pub Reported-trans :
    (clock : ℕ → Stamp) (n : ℕ) (s : Bm) (bs : List Bytes) (t : Bm) (calls : List GuiCall) (k : ℕ)
    (cs : List Bytes) (u : Bm) (more : List GuiCall) (m : ℕ)
    → Reported clock n s bs t calls k
    → Reported clock k t cs u more m
    → Reported clock n s (bs ++ cs) u (calls ++ more) m
Reported-trans clock n s bs t calls k cs u more m v w =
    let es = (feed s.parser bs).0 in
    let q = (feed s.parser bs).1 in
    let fs = (feed q cs).0 in
    let same : (feed t.parser cs) ≡ feed q cs = ap (λ (p : ProtocolParser). feed p cs) v.parsed in
    let both = feed-append s.parser bs cs in
    let later : report clock k (passes t) (feed t.parser cs).0
        ≡ report clock (n + decoded_count es) (passes s) fs =
      ap (λ (j : ℕ). report clock j (passes t) (feed t.parser cs).0) v.counted
      ∙ ap₂
          (λ (f : MessageTransaction → Bool) (l : List Event).
            report clock (n + decoded_count es) f l)
          v.keeps (ap (λ (r : List Event × ProtocolParser). r.0) same) in
    record {
      text =
          ap (λ (x : Text). x ++ u.pending_messages) (shown-append calls more)
          ∙ regroup (shown calls) (shown more) u.pending_messages t.pending_messages
              s.pending_messages (report clock n (passes s) es)
              (report clock (n + decoded_count es) (passes s) fs) v.text
              (w.text ∙ ap (◌++◌ t.pending_messages) later)
          ∙ ap (◌++◌ s.pending_messages) (
              sym (report-append clock n (passes s) es fs)
              ∙ ap (λ (r : List Event × ProtocolParser). report clock n (passes s) r.0) (sym both));
      parsed =
          w.parsed
          ∙ ap (λ (r : List Event × ProtocolParser). r.1) same
          ∙ ap (λ (r : List Event × ProtocolParser). r.1) (sym both);
      keeps = w.keeps ∙ v.keeps;
      called = w.called ∙ v.called;
      counted = omega (
        arith,
        v.counted,
        w.counted,
        ap (λ (r : List Event × ProtocolParser). decoded_count r.0) same,
        ap (λ (r : List Event × ProtocolParser). decoded_count r.0) both,
        decoded_count-append es fs,
      );
    }

-- One round that finds a payload.
module _ (clock : ℕ → Stamp) (n now : ℕ) (s : Bm) (b : Bytes) (bs : List Bytes)
    (queued : s.tcp_proxy.payload_queue ≡ b ∷ bs) (some_byte : 0 < length b)
    (fits : length b ≤ buffer_size) (h : s.messages_callback ≡ true) where
  pub round-Reported :
      let (t, calls) = monitor_round (λ i. clock (n + i)) now s in
      Reported clock n s (b ∷ []) t calls (n + decoded_count (parse_stream s.parser b).0)
  unfolding feed passes
  round-Reported =
      let later = λ (i : ℕ). clock (n + i) in
      let es = (parse_stream s.parser b).0 in
      let (cb, keep, parser, proxy) =
        monitor_round_settings later now s b bs queued some_byte fits in
      record {
        text =
            monitor_round_conserves later now s b bs queued some_byte fits h
            ∙ ap (◌++◌ s.pending_messages) (
                report_later clock n 0 (passes s) es
                ∙ ap (λ (j : ℕ). report clock j (passes s) es) (omega arith)
                ∙ ap (report clock n (passes s)) (sym (append-nil es)));
        parsed = parser;
        keeps = keep;
        called = cb;
        counted = ap (λ (l : List Event). n + decoded_count l) (sym (append-nil es));
      }

  pub round_queue : (monitor_round (λ i. clock (n + i)) now s).0.tcp_proxy.payload_queue ≡ bs
  round_queue =
      let (cb, keep, parser, proxy) =
        monitor_round_settings (λ i. clock (n + i)) now s b bs queued some_byte fits in
      ap (λ (p : TcpProxy). p.payload_queue) proxy
