-- ===== src/Frame/Received.antt =====
-- What a frame makes of the words that a send gives it.
use tcp_1553_bus_analyzer.Prelude.{
  ℕ, zero, suc, ◌<◌, ◌≡◌, refl, ◌∙◌, inr, true, false, List, [], ◌∷◌, map, Option, some, arith,
  get_or, length,
}
use tcp_1553_bus_analyzer.Prelude.Int.{pos, is_negative, above}
use tcp_1553_bus_analyzer.Protocol.{Packet, packet_bytes}
use tcp_1553_bus_analyzer.Text.{Text, hex4}
use tcp_1553_bus_analyzer.Common.{
  is_rt_to_bc, BcMode, bc_to_rt, rt_to_bc, rt_to_rt, mode_code_no_data, mode_code_with_data,
}
use tcp_1553_bus_analyzer.Parser.{word_count}
use tcp_1553_bus_analyzer.Parser.RoundTrip.{IsPacket}
use tcp_1553_bus_analyzer.Bc.{BusController, ServerAnswers, is_ready}
use tcp_1553_bus_analyzer.Bc.Send.{SendAnswers, send_acyclic_frame, packet_of, total_size}
use tcp_1553_bus_analyzer.Bc.Payload.{AllWords, packet_of-hex4}
use tcp_1553_bus_analyzer.Bc.Reply.{IsAnswered, send_reply, length-received}
use tcp_1553_bus_analyzer.Bc.Status.{send_status_iff}
use tcp_1553_bus_analyzer.Frame.{
  FrameComponent, send_frame, ensure_ready, show_received, update_values, words_to_show,
}
use tcp_1553_bus_analyzer.Frame.Summary.{get_or-data_labels}

get_or-map-hex4 :
    (ws : List ℕ) (j : ℕ) → j < length ws → get_or (map hex4 ws) j [] ≡ hex4 (get_or ws j 0)
unfolding get_or
get_or-map-hex4 [] j h = elim h [ ]
get_or-map-hex4 (w ∷ ws) zero h = refl
get_or-map-hex4 (w ∷ ws) (suc j) h = get_or-map-hex4 ws j (omega arith)

counted_lt : (wc j : ℕ) → j < word_count wc → j < 32
unfolding word_count
counted_lt wc j h = ground arith

shows_word :
    (m : BcMode) (wc j : ℕ)
    → is_rt_to_bc m ≡ true
    → j < word_count wc
    → above j (words_to_show m (pos wc)) ≡ true
unfolding words_to_show word_count
shows_word rt_to_bc wc j h k = ground arith
shows_word bc_to_rt wc j h k = cc
shows_word rt_to_rt wc j h k = cc
shows_word mode_code_no_data wc j h k = cc
shows_word mode_code_with_data wc j h k = cc

module _ (strerror : ℕ → Text) (server : ServerAnswers) (parent : Option (Text × ℕ))
    (a : SendAnswers) (memory : List ℕ) (f : FrameComponent) (c : BusController)
    (ready : is_ready c ≡ true) where
  -- The words of a complete reply to a frame of mode RT_TO_BC, a well-formed packet that counts as
  -- many words as the frame asked for, are posted to the frame and shown in its labels, in
  -- hexadecimal.
  pub send_frame_shows :
      (q : Packet) (j : ℕ)
      → IsAnswered a f.config c total_size
      → IsPacket q
      → a.reply ≡ packet_bytes q
      → length memory ≡ 32
      → j < word_count q.wc
      → f.config.wc ≡ pos q.wc
      → (words : List ℕ) × ((send_frame strerror server parent a memory f c).posted ≡ some words)
        × (get_or (show_received words f).data_labels j ([], false)
            ≡ (hex4 (get_or q.data_words j 0), true))
  unfolding send_frame ensure_ready show_received
  send_frame_shows q j answered v reply full counted asked =
      let r = send_acyclic_frame a (some f.config) memory c in
      let ok : r.status ≡ pos 0 =
        (send_status_iff a (some f.config) memory c).1
          (answered.connected, (answered.written, inr (rw answered.size refl))) in
      let size : length r.received ≡ 32 =
        length-received a f.config memory c total_size answered ∙ full in
      let word : get_or r.received j 0 ≡ get_or q.data_words j 0 =
        send_reply a f.config memory c q j answered v reply full (counted_lt q.wc j counted)
        ∙ ground (arith, counted) in
      let config = record f.config { data_texts = map hex4 r.received } in
      let label = get_or-data_labels config f j (counted_lt q.wc j counted) in
      let text = get_or-map-hex4 r.received j (omega (arith, size, counted_lt q.wc j counted)) in
      (
        r.received,
        ground (arith, ready, ok, answered.asks),
        label
            ∙ ground
                (arith, text, word, shows_word f.config.mode q.wc j answered.asks counted, asked),
      )

  -- The bug: a frame of mode RT_TO_RT that is sent without an error takes its 32 texts from the
  -- array that the send leaves unset, and its next packet carries those words.
  pub send_frame_rt_to_rt :
      f.config.mode ≡ rt_to_rt
      → is_negative c.client_fd ≡ false
      → is_negative a.written ≡ false
      → length memory ≡ 32
      → AllWords memory
      → ((send_frame strerror server parent a memory f c).posted ≡ some memory)
        × ((packet_of (show_received memory f).config).data_words ≡ memory)
  unfolding send_frame ensure_ready send_acyclic_frame show_received update_values
  send_frame_rt_to_rt mode connected written full words =
      (ground arith, packet_of-hex4 _ memory full words refl)
