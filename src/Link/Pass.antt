-- ===== src/Link/Pass.antt =====
-- One click on `Send Active Frames`, from the list of frames to what the monitor shows.
use tcp_1553_bus_analyzer.Prelude.{
  ℕ, ◌≡◌, refl, ap, ◌∙◌, Bool, true, false, List, [], ◌∷◌, ◌≤◌, ◌++◌, map, length,
}
use mathlib.Core.List.{append-nil}
use tcp_1553_bus_analyzer.Prelude.Int.{is_negative}
use tcp_1553_bus_analyzer.Parser.{fresh}
use tcp_1553_bus_analyzer.Parser.RoundTrip.{seen}
use tcp_1553_bus_analyzer.Bc.{BusController}
use tcp_1553_bus_analyzer.TcpProxy.Dispatch.{AllCaptures, stream_of}
use tcp_1553_bus_analyzer.Bm.{Bm, passes}
use tcp_1553_bus_analyzer.Bm.Format.{Stamp}
use tcp_1553_bus_analyzer.Bm.Relay.{shown, report}
use tcp_1553_bus_analyzer.Panel.{Panel, run, resting}
use tcp_1553_bus_analyzer.Panel.Round.{actives, sent_onto, one_pass, one_pass_sends}
use tcp_1553_bus_analyzer.Link.{Exchange, AllExchanged, traffic, exchanged}
use tcp_1553_bus_analyzer.Link.Interleaved
use tcp_1553_bus_analyzer.Link.Interleaved.{AllSmall, Move, monitors, captures_of}
use tcp_1553_bus_analyzer.Link.Interleaved.Delivered.{interleaved_reported}

sent_onto-sent_onto : (xs ys zs : List ℕ) → sent_onto (sent_onto xs ys) zs ≡ sent_onto ys (xs ++ zs)
sent_onto-sent_onto [] ys zs = refl
sent_onto-sent_onto (x ∷ xs) ys zs = sent_onto-sent_onto xs (x ∷ ys) zs

-- The frames that a panel has sent, the first one first.
abbrev pub in_order : Panel → List ℕ
in_order s = sent_onto s.sent []

-- The frames that one pass of a panel at rest sends, where those in `replied` get words to show.
abbrev pub sent_in_pass : (ℕ → Bool) → (ℕ → Bool) → List ℕ → List ℕ
sent_in_pass replied is_active fs =
    in_order (run (one_pass replied is_active fs) (resting fs is_active))

pass_in_order :
    (replied : ℕ → Bool) (f : ℕ) (fs : List ℕ) (is_active : ℕ → Bool)
    → sent_in_pass replied is_active (f ∷ fs) ≡ actives is_active (f ∷ fs)
pass_in_order replied f fs is_active =
    ap in_order (one_pass_sends replied f fs is_active)
    ∙ sent_onto-sent_onto (actives is_active (f ∷ fs)) [] []
    ∙ append-nil (actives is_active (f ∷ fs))

-- The sends of a list of frames, each with its configuration, the answers of its calls and its
-- reply.
abbrev pub sends_of : (ℕ → Exchange) → List ℕ → List Exchange
sends_of send_of fs = map send_of fs

-- From the click to the display: a panel at rest with some frames makes one pass without `Repeat`,
-- whichever of the frames get words to show, and the frames that it sends go to a simulator that
-- stays connected, by writes that take each packet whole, those of mode RT_TO_BC answered by
-- nothing or by a well-formed packet, read whole; the segments that carry both directions, without
-- padding, are captured in order, while a monitor with a new parser, an empty queue and a callback
-- for messages makes its rounds, whenever it gets to them, and at last at least as many rounds as
-- there were segments. Then what it has shown, and what it holds back, are, after what was pending
-- before, the active frames of the panel, each with its reply, that pass its filter, in the order
-- of the list and each once.
pub pass_reported :
    (replied : ℕ → Bool) (f : ℕ) (fs : List ℕ) (is_active : ℕ → Bool) (send_of : ℕ → Exchange)
    (received : List ℕ) (c : BusController) (clock : ℕ → Stamp) (link_type : ℕ) (ms : List Move)
    (nows : List ℕ) (s : Bm)
    → is_negative c.client_fd ≡ false
    → AllExchanged (sends_of send_of (sent_in_pass replied is_active (f ∷ fs)))
    → AllCaptures link_type (captures_of ms)
    → AllSmall (captures_of ms)
    → stream_of (captures_of ms)
      ≡ exchanged (sends_of send_of (sent_in_pass replied is_active (f ∷ fs))) received c
    → s.tcp_proxy.payload_queue ≡ []
    → length (captures_of ms) ≤ length nows
    → s.messages_callback ≡ true
    → s.parser ≡ fresh
    → let (r, calls, k) = Interleaved.run clock link_type 0 (ms ++ map monitors nows) s in
      shown calls ++ r.pending_messages
      ≡ s.pending_messages
        ++ report clock 0
            (passes s)
            (seen (traffic (sends_of send_of (actives is_active (f ∷ fs)))))
pass_reported replied f fs is_active send_of received c clock link_type ms nows s connected ok valid
      small stream empty enough cb new =
    let order = sent_in_pass replied is_active (f ∷ fs) in
    let (reported, emptied) =
      interleaved_reported (sends_of send_of order) received c clock link_type ms nows s connected
        ok valid small stream empty enough cb new in
    reported
    ∙ ap
        (λ (fs : List ℕ).
          s.pending_messages ++ report clock 0 (passes s) (seen (traffic (sends_of send_of fs))))
        (pass_in_order replied f fs is_active)
