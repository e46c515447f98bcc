-- ===== src/Link/Interleaved/Delivered.antt =====
-- From the frames that are sent to what the monitor has shown, with the threads interleaved.
use tcp_1553_bus_analyzer.Prelude.{
  ℕ, ◌+◌, ◌≤◌, ◌≡◌, refl, ap, sym, ◌∙◌, true, false, List, [], ◌∷◌, ◌++◌, map, arith, length,
  length-append,
}
use mathlib.Core.Path.{subst}
use mathlib.Core.List.{append-nil}
use tcp_1553_bus_analyzer.Prelude.Int.{is_negative}
use tcp_1553_bus_analyzer.Protocol.{Bytes}
use tcp_1553_bus_analyzer.Parser.{Event, ProtocolParser, fresh}
use tcp_1553_bus_analyzer.Parser.Chunks.{feed, flatten}
use tcp_1553_bus_analyzer.Parser.RoundTrip.{sent, seen, feed-sent}
use tcp_1553_bus_analyzer.Bc.{BusController}
use tcp_1553_bus_analyzer.TcpProxy.Capture.{Capture}
use tcp_1553_bus_analyzer.TcpProxy.Dispatch.{
  AllCaptures, payloads_of, stream_of, flatten_payloads, one,
}
use tcp_1553_bus_analyzer.Bm.{Bm, passes}
use tcp_1553_bus_analyzer.Bm.Format.{Stamp}
use tcp_1553_bus_analyzer.Bm.Relay.{shown, report}
use tcp_1553_bus_analyzer.Link.{
  Exchange, AllExchanged, traffic, exchanged, exchanged-sent, traffic-AllPackets,
}
use tcp_1553_bus_analyzer.Link.Interleaved.{
  AllSmall, Move, captures, monitors, run, captures_of, taken, left, taken-left, run-Reported,
}

-- As many rounds more as payloads are left empty the queue.
left-rounds :
    (q : List Bytes) (nows : List ℕ) → length q ≤ length nows → left q (map monitors nows) ≡ []
left-rounds [] [] h = refl
left-rounds [] (now ∷ nows) h = left-rounds [] nows (omega arith)
left-rounds (b ∷ bs) [] h = absurd (omega arith)
left-rounds (b ∷ bs) (now ∷ nows) h = left-rounds bs nows (omega arith)

left-append : (q : List Bytes) (ms ns : List Move) → left q (ms ++ ns) ≡ left (left q ms) ns
left-append q [] ns = refl
left-append q (captures c ∷ ms) ns = left-append (q ++ one c) ms ns
left-append [] (monitors now ∷ ms) ns = left-append [] ms ns
left-append (b ∷ bs) (monitors now ∷ ms) ns = left-append bs ms ns

length-one : (c : Capture) → length (one c) ≤ 1
length-one c = ground arith

length-left :
    (q : List Bytes) (ms : List Move) → length (left q ms) ≤ length q + length (captures_of ms)
length-left q [] = omega arith
length-left q (captures c ∷ ms) =
    omega (arith, length-left (q ++ one c) ms, length-append q (one c), length-one c)
length-left [] (monitors now ∷ ms) = length-left [] ms
length-left (b ∷ bs) (monitors now ∷ ms) = omega (arith, length-left bs ms)

captures_of-rounds :
    (ms : List Move) (nows : List ℕ) → captures_of (ms ++ map monitors nows) ≡ captures_of ms
captures_of-rounds [] [] = refl
captures_of-rounds [] (now ∷ nows) = captures_of-rounds [] nows
captures_of-rounds (captures c ∷ ms) nows = ap (◌∷◌ c) (captures_of-rounds ms nows)
captures_of-rounds (monitors now ∷ ms) nows = captures_of-rounds ms nows

-- End to end, under any interleaving: frames are sent to a simulator that stays connected, by
-- writes that take each packet whole, and those of mode RT_TO_BC are answered by nothing or by a
-- well-formed packet, read whole before the next is sent; TCP cuts what passes in both directions
-- into segments as it likes, each with headers as long as they say and at most 4096 bytes behind
-- them, without padding, and these are captured in order while the monitor, with a new parser, an
-- empty queue and a callback for messages, makes its rounds, whenever it gets to them, and at last
-- at least as many rounds as there were segments. Then what the monitor has shown, and what it
-- holds back, are, after what was pending before, the frames and the replies that pass its filter,
-- in order and each once, and the queue is empty.
pub interleaved_reported :
    (xs : List Exchange) (received : List ℕ) (c : BusController) (clock : ℕ → Stamp) (link_type : ℕ)
    (ms : List Move) (nows : List ℕ) (s : Bm)
    → is_negative c.client_fd ≡ false
    → AllExchanged xs
    → AllCaptures link_type (captures_of ms)
    → AllSmall (captures_of ms)
    → stream_of (captures_of ms) ≡ exchanged xs received c
    → s.tcp_proxy.payload_queue ≡ []
    → length (captures_of ms) ≤ length nows
    → s.messages_callback ≡ true
    → s.parser ≡ fresh
    → let (r, calls, k) = run clock link_type 0 (ms ++ map monitors nows) s in
      (shown calls ++ r.pending_messages
        ≡ s.pending_messages ++ report clock 0 (passes s) (seen (traffic xs)))
      × (r.tcp_proxy.payload_queue ≡ [])
interleaved_reported xs received c clock link_type ms nows s connected ok valid small stream empty
      enough cb new =
    let all = ms ++ map monitors nows in
    let same = captures_of-rounds ms nows in
    let (v, rest) =
      run-Reported clock link_type 0 [] all s (subst (AllCaptures link_type) (sym same) valid)
        (subst AllSmall (sym same) small) tt empty cb in
    let emptied : left [] all ≡ [] =
      left-append [] ms (map monitors nows)
      ∙ left-rounds (left [] ms) nows (omega (arith, length-left [] ms)) in
    let everything : taken [] all ≡ payloads_of (captures_of ms) =
      sym (append-nil (taken [] all))
      ∙ ap (◌++◌ (taken [] all)) (sym emptied)
      ∙ taken-left [] all
      ∙ ap payloads_of same in
    let cut : flatten (taken [] all) ≡ sent (traffic xs) =
      ap flatten everything
      ∙ flatten_payloads (captures_of ms)
      ∙ stream
      ∙ exchanged-sent xs received c connected ok in
    let events : (feed s.parser (taken [] all)).0 ≡ seen (traffic xs) =
      ap (λ (p : ProtocolParser). (feed p (taken [] all)).0) new
      ∙ ap (λ (r : List Event × ProtocolParser). r.0)
          (feed-sent (traffic xs) (taken [] all) (traffic-AllPackets xs ok) cut) in
    (
      v.text ∙ ap (λ (es : List Event). s.pending_messages ++ report clock 0 (passes s) es) events,
      rest ∙ emptied,
    )
