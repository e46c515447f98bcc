-- ===== src/Bc/Reply.antt =====
-- What `sendAcyclicFrame` takes from a reply.
use tcp_1553_bus_analyzer.Prelude.{
  ℕ, zero, suc, ◌+◌, ◌*◌, ◌/◌, ◌%◌, ◌≤◌, ◌<◌, ◌≡◌, inr, refl, ap, ◌∙◌, true, false, ◌&&◌, List, [],
  ◌∷◌, ◌++◌, some, ltb, leb, if◌then◌else◌, length, get_or, set, take, drop, arith,
  get_or-length_append, get_or-drop, ◌-◌, length-set, get_or-set, get_or-append, take-length,
}
use tcp_1553_bus_analyzer.Prelude.Int.{pos, is_negative}
use tcp_1553_bus_analyzer.Protocol.{Bytes, Packet, packet_bytes, payload_bytes}
use tcp_1553_bus_analyzer.Protocol.Wire.{length-packet_bytes}
use tcp_1553_bus_analyzer.Common.{FrameConfig, is_rt_to_bc}
use tcp_1553_bus_analyzer.Parser.{word_count}
use tcp_1553_bus_analyzer.Parser.RoundTrip.{IsPacket}
use tcp_1553_bus_analyzer.Bc.Send.{
  SendAnswers, send_acyclic_frame, capped, received_words, store_words, reply_word, receive_reply,
  response_after, total_size,
}
use tcp_1553_bus_analyzer.Bc.Status.{send_status_iff}
use tcp_1553_bus_analyzer.Bc.{BusController}

-- The loop that stores a reply: word j of the caller's array is the reply's where the loop came
-- to it, and is as before elsewhere.
get_or-store_words :
    (n i j : ℕ) (response : Bytes) (received : List ℕ)
    → i + n ≤ length received
    → get_or (store_words n i response received) j 0
      ≡ (if leb i j && ltb j (i + n) then reply_word response j else get_or received j 0)
unfolding store_words
get_or-store_words zero i j response received h = ground arith
get_or-store_words (suc n) i j response received h = ground (
  arith,
  length-set received i (reply_word response i),
  get_or-store_words n (suc i) j response (set received i (reply_word response i)),
  get_or-set received i j (reply_word response i) 0,
)

length-store_words :
    (n i : ℕ) (response : Bytes) (received : List ℕ)
    → length (store_words n i response received) ≡ length received
unfolding store_words
length-store_words zero i response received = refl
length-store_words (suc n) i response received =
    length-store_words n (suc i) response (set received i (reply_word response i))
    ∙ length-set received i (reply_word response i)

-- Byte 2j and byte 2j + 1 of a payload.
get_or-payload_bytes :
    (ws : List ℕ) (j : ℕ)
    → (get_or (payload_bytes ws) (j * 2) 0 ≡ get_or ws j 0 / 256)
      × (get_or (payload_bytes ws) (suc (j * 2)) 0 ≡ get_or ws j 0 % 256)
unfolding payload_bytes get_or
get_or-payload_bytes [] zero = (omega arith, omega arith)
get_or-payload_bytes [] (suc j) = (ground arith, ground arith)
get_or-payload_bytes (w ∷ ws) zero = (refl, refl)
get_or-payload_bytes (w ∷ ws) (suc j) =
    let e : suc j * 2 ≡ suc (suc (j * 2)) = omega arith in rw e (get_or-payload_bytes ws j)

-- Past the header a packet is its payload.
get_or-packet_bytes :
    (q : Packet) (k : ℕ)
    → get_or (packet_bytes q) (6 + k) 0 ≡ get_or (payload_bytes q.data_words) k 0
unfolding packet_bytes get_or
get_or-packet_bytes q k =
    let e : 6 + k ≡ suc (suc (suc (suc (suc (suc k))))) = omega arith in rw e refl

reply_word-packet_bytes :
    (q : Packet) (more : Bytes) (j : ℕ)
    → IsPacket q
    → j < 32
    → reply_word (packet_bytes q ++ more) j ≡ get_or q.data_words j 0
reply_word-packet_bytes q more j v h =
    let w = get_or q.data_words j 0 in
    let inside : length (packet_bytes q) ≡ 70 = omega (arith, length-packet_bytes q, v.full) in
    let e : 7 + j * 2 ≡ 6 + suc (j * 2) = omega arith in
    let high =
      get_or-append (packet_bytes q) more (6 + j * 2) 0 (omega arith)
      ∙ get_or-packet_bytes q (j * 2)
      ∙ (get_or-payload_bytes q.data_words j).0 in
    let low =
      get_or-append (packet_bytes q) more (7 + j * 2) 0 (omega arith)
      ∙ ap (λ (k : ℕ). get_or (packet_bytes q) k 0) e
      ∙ get_or-packet_bytes q (suc (j * 2))
      ∙ (get_or-payload_bytes q.data_words j).1 in
    omega (arith, high, low)

received_words-packet_bytes :
    (q : Packet) (more : Bytes) → get_or (packet_bytes q ++ more) 5 0 ≡ q.wc
unfolding packet_bytes get_or
received_words-packet_bytes q more = refl

-- A frame of mode RT_TO_BC, sent to a connected simulator by a write that does not fail, where
-- `read` returns n.
pub record IsAnswered (a : SendAnswers) (config : FrameConfig) (c : BusController) (n : ℕ)
    : Type 0 where
  pub connected : is_negative c.client_fd ≡ false
  pub written : is_negative a.written ≡ false
  pub asks : is_rt_to_bc config.mode ≡ true
  pub size : a.reply_size ≡ pos n
  pub header : 6 ≤ n

send_stores :
    (a : SendAnswers) (config : FrameConfig) (received : List ℕ) (c : BusController) (n : ℕ)
    → IsAnswered a config c n
    → let response = response_after a n in
      (send_acyclic_frame a (some config) received c).received
      ≡ store_words (capped (received_words response)) 0 response received
unfolding send_acyclic_frame receive_reply
send_stores a config received c n v = ground (arith, v)

pub length-received :
    (a : SendAnswers) (config : FrameConfig) (received : List ℕ) (c : BusController) (n : ℕ)
    → IsAnswered a config c n
    → length (send_acyclic_frame a (some config) received c).received ≡ length received
length-received a config received c n v =
    ap (λ (t : List ℕ). length t) (send_stores a config received c n v)
    ∙ length-store_words _ 0 _ received

-- A complete reply to a transmit command, a well-formed packet, gives the caller's 32 words the
-- words that the packet counts, and leaves the others as they were.
pub send_reply :
    (a : SendAnswers) (config : FrameConfig) (received : List ℕ) (c : BusController) (q : Packet)
    (j : ℕ)
    → IsAnswered a config c total_size
    → IsPacket q
    → a.reply ≡ packet_bytes q
    → length received ≡ 32
    → j < 32
    → get_or (send_acyclic_frame a (some config) received c).received j 0
      ≡ (if ltb j (word_count q.wc) then get_or q.data_words j 0 else get_or received j 0)
unfolding word_count
send_reply a config received c q j answered v reply full h =
    let response = response_after a total_size in
    let same : take total_size a.reply ≡ packet_bytes q =
      ap (take total_size) reply
      ∙ take-length total_size (packet_bytes q) (omega (arith, length-packet_bytes q, v.full)) in
    let split : response ≡ packet_bytes q ++ drop total_size a.memory =
      ap (λ (t : Bytes). t ++ drop total_size a.memory) same in
    let wc : get_or response 5 0 ≡ q.wc =
      ap (λ (t : Bytes). get_or t 5 0) split ∙ received_words-packet_bytes q _ in
    let word : reply_word response j ≡ get_or q.data_words j 0 =
      ap (λ (t : Bytes). reply_word t j) split ∙ reply_word-packet_bytes q _ j v h in
    let n = capped (received_words response) in
    ap (λ (t : List ℕ). get_or t j 0) (send_stores a config received c total_size answered)
    ∙ get_or-store_words n 0 j response received (ground arith)
    ∙ ground (arith, wc, word)

-- The memory of a reply of n bytes: the reply, and then what was there before.
module _ (a : SendAnswers) (n : ℕ) (exact : length a.reply ≡ n) where
  response_split : response_after a n ≡ a.reply ++ drop n a.memory
  response_split = ap (λ (t : Bytes). t ++ drop n a.memory) (take-length n a.reply exact)

  get_or-response_within : (k : ℕ) → k < n → get_or (response_after a n) k 0 ≡ get_or a.reply k 0
  get_or-response_within k h =
      ap (λ (t : Bytes). get_or t k 0) response_split
      ∙ get_or-append a.reply (drop n a.memory) k 0 (omega arith)

  get_or-response_past : (k : ℕ) → n ≤ k → get_or (response_after a n) k 0 ≡ get_or a.memory k 0
  get_or-response_past k h =
      let e : k ≡ length a.reply + (k - n) = omega arith in
      let e' : n + (k - n) ≡ k = omega arith in
      ap (λ (t : Bytes). get_or t k 0) response_split
      ∙ ap (λ (i : ℕ). get_or (a.reply ++ drop n a.memory) i 0) e
      ∙ get_or-length_append a.reply (drop n a.memory) (k - n) 0
      ∙ get_or-drop n a.memory (k - n) 0
      ∙ ap (λ (i : ℕ). get_or a.memory i 0) e'

-- A reply to a transmit command that is cut short after n bytes, six at least, is taken for
-- complete: the status is 0, and a word that it counts but that lies past its end is given to the
-- caller out of memory that nothing has set.
pub send_short_reply :
    (a : SendAnswers) (config : FrameConfig) (received : List ℕ) (c : BusController) (n j : ℕ)
    → IsAnswered a config c n
    → length a.reply ≡ n
    → length received ≡ 32
    → n ≤ 6 + j * 2
    → j < capped (received_words a.reply)
    → ((send_acyclic_frame a (some config) received c).status ≡ pos 0)
      × (get_or (send_acyclic_frame a (some config) received c).received j 0
          ≡ reply_word a.memory j)
send_short_reply a config received c n j v exact full past counted =
    let response = response_after a n in
    let m = capped (received_words response) in
    let wc = get_or-response_within a n exact 5 (omega (arith, v)) in
    (
      (send_status_iff a (some config) received c).1
          (v.connected, (v.written, inr (ground (arith, v)))),
      ap (λ (t : List ℕ). get_or t j 0) (send_stores a config received c n v)
          ∙ get_or-store_words m 0 j response received (ground arith)
          ∙ ground (
            arith,
            wc,
            get_or-response_past a n exact (6 + j * 2),
            get_or-response_past a n exact (7 + j * 2),
          ),
    )
