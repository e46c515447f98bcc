-- ===== src/Bm/Relay.antt =====
-- What the monitor hands to the user interface, and when.
use tcp_1553_bus_analyzer.Prelude.{
  ℕ, suc, ◌≡◌, refl, sym, ◌∙◌, inl, inr, Bool, true, false, List, [], ◌∷◌, ◌++◌, map, some, arith,
  if◌then◌else◌, Bool-cases, ltb, ◌-◌, ◌&&◌, not,
}
use mathlib.Core.List.{append_assoc, append-nil}
use mathlib.Core.Path.{fun_ext, ap₂}
use tcp_1553_bus_analyzer.Protocol.{Bytes, MessageTransaction, is_nil}
use tcp_1553_bus_analyzer.Text.{Text}
use tcp_1553_bus_analyzer.Parser.{Event, decoded, warned, parse_stream, deliver}
use tcp_1553_bus_analyzer.Bm.Format.{Stamp, format_transaction}
use tcp_1553_bus_analyzer.Bm.Keys.{RtSaKey}
use tcp_1553_bus_analyzer.Bm.{
  Bm, passes, relay, timed, flush, process_and_relay_data, GuiCall, show_messages, tree_item,
  activate,
}

-- The messages among the calls of the user interface, one after the other.
abbrev pub shown : List GuiCall → Text
shown [] = []
shown (show_messages m ∷ calls) = m ++ shown calls
shown (tree_item bus rt sa active ∷ calls) = shown calls

-- What ought to be shown of a list of events: each transaction that passes the filter, formatted
-- with the time at which it was decoded. The number is that of the first transaction.
unfoldable pub report : (ℕ → Stamp) → ℕ → (MessageTransaction → Bool) → List Event → Text
report clock n keep [] = []
report clock n keep (decoded t ∷ es) =
    (if keep t then format_transaction (clock n) t else []) ++ report clock (suc n) keep es
report clock n keep (warned m ∷ es) = report clock n keep es

pub passes-relay : (at : Stamp) (s : Bm) (t : MessageTransaction) → passes (relay at s t) ≡ passes s
unfolding passes relay
passes-relay at s t = fun_ext λ u. ground arith

relay_pending :
    (at : Stamp) (s : Bm) (t : MessageTransaction)
    → (relay at s t).pending_messages
      ≡ s.pending_messages ++ (if passes s t then format_transaction at t else [])
unfolding relay
relay_pending at s t = ground (arith, append-nil s.pending_messages)

deliver_pending :
    (clock : ℕ → Stamp) (n : ℕ) (s : Bm) (es : List Event)
    → (deliver (some (timed clock)) (s, n) es).0.pending_messages
      ≡ s.pending_messages ++ report clock n (passes s) es
unfolding deliver report
deliver_pending clock n s [] = sym (append-nil s.pending_messages)
deliver_pending clock n s (warned m ∷ es) = deliver_pending clock n s es
deliver_pending clock n s (decoded t ∷ es) =
    let s1 = relay (clock n) s t in
    deliver_pending clock (suc n) s1 es
    ∙ ap₂ (λ (p : Text) (keep : MessageTransaction → Bool). p ++ report clock (suc n) keep es)
        (relay_pending (clock n) s t) (passes-relay (clock n) s t)
    ∙ append_assoc s.pending_messages (if passes s t then format_transaction (clock n) t else [])
        (report clock (suc n) (passes s) es)

-- What the callback leaves alone.
abbrev pub SameSettings : Bm → Bm → Type 0
SameSettings r s =
    (r.messages_callback ≡ s.messages_callback)
    × (passes r ≡ passes s)
    × (r.parser ≡ s.parser)
    × (r.tcp_proxy ≡ s.tcp_proxy)

relay_settings : (at : Stamp) (s : Bm) (t : MessageTransaction) → SameSettings (relay at s t) s
relay_settings at s t = (
  unfold relay in ground arith,
  passes-relay at s t,
  unfold relay in ground arith,
  unfold relay in ground arith,
)

deliver_settings :
    (clock : ℕ → Stamp) (n : ℕ) (s : Bm) (es : List Event)
    → SameSettings (deliver (some (timed clock)) (s, n) es).0 s
unfolding deliver
deliver_settings clock n s [] = (refl, refl, refl, refl)
deliver_settings clock n s (warned m ∷ es) = deliver_settings clock n s es
deliver_settings clock n s (decoded t ∷ es) =
    let (a, b, c, d) = relay_settings (clock n) s t in
    let (a', b', c', d') = deliver_settings clock (suc n) (relay (clock n) s t) es in
    (a' ∙ a, b' ∙ b, c' ∙ c, d' ∙ d)

flush_settings : (now : ℕ) (s : Bm) → SameSettings (flush now s).0 s
flush_settings now s = (
  unfold flush in ground arith,
  unfold flush passes in fun_ext λ t. ground arith,
  unfold flush in ground arith,
  unfold flush in ground arith,
)

pub shown-append : (xs ys : List GuiCall) → shown (xs ++ ys) ≡ shown xs ++ shown ys
shown-append [] ys = refl
shown-append (show_messages m ∷ xs) ys = rw (shown-append xs ys) (sym (append_assoc m _ _))
shown-append (tree_item b r s a ∷ xs) ys = shown-append xs ys

shown-activate : (ks : List RtSaKey) → shown (map activate ks) ≡ []
shown-activate [] = refl
shown-activate (k ∷ ks) = shown-activate ks

-- The two parts of what a flush calls.
shown_messages :
    (cb : Bool) (pending : Text)
    → cb ≡ true
    → shown (if cb && not (is_nil pending) then show_messages pending ∷ [] else []) ≡ pending
shown_messages true [] h = refl
shown_messages true (x ∷ xs) h = append-nil (x ∷ xs)
shown_messages false pending h = cc

shown_keys : (b : Bool) (ks : List RtSaKey) → shown (if b then map activate ks else []) ≡ []
shown_keys true ks = shown-activate ks
shown_keys false ks = refl

-- A flush shows what was pending or keeps it.
flush_pending :
    (now : ℕ) (s : Bm)
    → s.messages_callback ≡ true
    → shown (flush now s).1 ++ (flush now s).0.pending_messages ≡ s.pending_messages
unfolding flush
flush_pending now s h =
    let messages =
      if s.messages_callback && not (is_nil s.pending_messages)
      then show_messages s.pending_messages ∷ []
      else [] in
    let b = s.tree_callback && not (is_nil s.pending_active_keys) in
    let out : shown (messages ++ (if b then map activate s.pending_active_keys else []))
        ≡ s.pending_messages ++ [] =
      shown-append messages (if b then map activate s.pending_active_keys else [])
      ∙ ap₂ (λ (x y : Text). x ++ y) (shown_messages s.messages_callback s.pending_messages h)
          (shown_keys b s.pending_active_keys) in
    elim (Bool-cases (ltb 50 (now - s.last_gui_update))) [
      | inl late ↦ rw late (append-nil _ ∙ out ∙ append-nil _)
      | inr soon ↦ rw soon refl
    ]

-- With a callback for messages, what a call shows and what it leaves pending is, put together,
-- what was pending before and then the report of all that the parser decoded: the transactions
-- that pass the filter, each once, in the order of the stream, and nothing else.
pub process_conserves :
    (clock : ℕ → Stamp) (now : ℕ) (buffer : Bytes) (s : Bm)
    → s.messages_callback ≡ true
    → let (r, calls) = process_and_relay_data clock now buffer s in
      shown calls ++ r.pending_messages
      ≡ s.pending_messages ++ report clock 0 (passes s) (parse_stream s.parser buffer).0
unfolding process_and_relay_data passes
process_conserves clock now buffer s h =
    let (es, parser) = parse_stream s.parser buffer in
    let s1 = record s { parser = parser } in
    let (cb, _, _, _) = deliver_settings clock 0 s1 es in
    flush_pending now (deliver (some (timed clock)) (s1, 0) es).0 (cb ∙ h)
    ∙ deliver_pending clock 0 s1 es

-- What a call leaves alone of the rest: the callback, the filter and the sniffer; and the parser
-- is the one that the stream leaves behind.
pub process_settings :
    (clock : ℕ → Stamp) (now : ℕ) (buffer : Bytes) (s : Bm)
    → SameSettings
        (process_and_relay_data clock now buffer s).0
        (record s { parser = (parse_stream s.parser buffer).1 })
unfolding process_and_relay_data
process_settings clock now buffer s =
    let (es, parser) = parse_stream s.parser buffer in
    let s1 = record s { parser = parser } in
    let (a, b, c, d) = deliver_settings clock 0 s1 es in
    let (a', b', c', d') = flush_settings now (deliver (some (timed clock)) (s1, 0) es).0 in
    (a' ∙ a, b' ∙ b, c' ∙ c, d' ∙ d)
