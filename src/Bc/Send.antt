-- ===== src/Bc/Send.antt =====
-- `BusController::sendAcyclicFrame` and the packet that it builds.
use tcp_1553_bus_analyzer.Prelude.{
  ℕ, zero, suc, ◌+◌, ◌*◌, ◌%◌, ◌^◌, List, [], ◌∷◌, ◌++◌, Option, none, some, ltb, leb, ◌==◌,
  if◌then◌else◌, length, get_or, set, take, drop,
}
use tcp_1553_bus_analyzer.Prelude.Int.{ℤ, pos, negsuc, is_negative, minus_one, to_u8, eq_int}
use tcp_1553_bus_analyzer.Protocol.{Bytes, Packet, packet_bytes}
use tcp_1553_bus_analyzer.Text.{Text, stoul_hex}
use tcp_1553_bus_analyzer.Common.{FrameConfig, BcMode, bc_to_rt, rt_to_bc, is_rt_to_bc}
use tcp_1553_bus_analyzer.Bc.{BusController, Call, close, write, receive_timeout, read}

abbrev pub wire_mode : BcMode → ℕ
wire_mode bc_to_rt = 0x00
wire_mode rt_to_bc = 0x01
wire_mode _ = 0x00

-- `(uint16_t)std::stoul(text, nullptr, 16)`, and 0 where it throws.
unfoldable pub word_of_text : Text → ℕ
word_of_text s = elim (stoul_hex s) [ none ↦ 0 | some v ↦ v % 2 ^ 16 ]

-- The loop that fills the payload, from word i on.
unfoldable pub words_from : ℕ → ℕ → List Text → List ℕ
words_from zero i texts = []
words_from (suc n) i texts =
    (if ltb i (length texts) then word_of_text (get_or texts i []) else 0)
    ∷ words_from n (suc i) texts

unfoldable pub packet_of : FrameConfig → Packet
packet_of config = record {
  magic0 = 0xaa;
  magic1 = 0x55;
  mode = wire_mode config.mode;
  rt = to_u8 config.rt;
  sa = to_u8 config.sa;
  wc = to_u8 config.wc;
  data_words = words_from 32 0 config.data_texts;
}

abbrev pub total_size : ℕ
total_size = 6 + 64

-- What the calls of one send return. `client_then` is what `m_clientFd` holds when a failed write
-- takes it out, and `memory` the 70 bytes of `response` before the read, which nothing sets.
pub record SendAnswers : Type 0 where
  pub written : ℤ
  pub client_then : ℤ
  pub reply_size : ℤ
  pub reply : Bytes
  pub memory : Bytes

-- `ntohs(response.dataWords[i])`.
abbrev pub reply_word : Bytes → ℕ → ℕ
reply_word response i = get_or response (6 + i * 2) 0 * 256 + get_or response (7 + i * 2) 0

-- `for (i = 0; i < receivedWords && i < 32; ++i) receivedData[i] = …`; the first number is the
-- rounds left, the second is i.
unfoldable pub store_words : ℕ → ℕ → Bytes → List ℕ → List ℕ
store_words zero i response received = received
store_words (suc n) i response received =
    store_words n (suc i) response (set received i (reply_word response i))

-- `read` overwrites the front of `response` and leaves the rest of it as it was.
abbrev pub response_after : SendAnswers → ℕ → Bytes
response_after a n = take n a.reply ++ drop n a.memory

abbrev pub capped : ℕ → ℕ
capped n = if ltb n 32 then n else 32

abbrev pub received_words : Bytes → ℕ
received_words response = let wc = get_or response 5 0 in if wc == 0 then 32 else wc

pub record Sent : Type 0 where
  pub controller : BusController
  pub status : ℤ
  pub received : List ℕ
  pub calls : List Call

-- The reply to a transmit command.
unfoldable pub receive_reply : SendAnswers → ℤ → List ℕ → ℤ × List ℕ
receive_reply a (pos n) received =
    if leb 6 n
    then (
      pos 0,
      let response = response_after a n in
          store_words (capped (received_words response)) 0 response received,
    )
    else (minus_one, received)
receive_reply a (negsuc n) received = (minus_one, received)

abbrev timeout_us : ℕ
timeout_us = 100000

-- `sendAcyclicFrame`; a null frame is `none`.
unfoldable pub send_acyclic_frame : SendAnswers → Option FrameConfig → List ℕ → BusController → Sent
send_acyclic_frame a frame received c =
    if is_negative c.client_fd
    then record { controller = c; status = minus_one; received = received; calls = [] }
    else elim frame [
      | none ↦ record { controller = c; status = minus_one; received = received; calls = [] }
      | some config ↦
          let fd = c.client_fd in
          let sending = write fd (take total_size (packet_bytes (packet_of config))) ∷ [] in
          let asking = sending ++ receive_timeout fd timeout_us ∷ read fd total_size ∷ [] in
          let (status, words) = receive_reply a a.reply_size received in
          if is_negative a.written
          then record {
            controller = record c { client_fd = minus_one };
            status = minus_one;
            received = received;
            calls = sending ++ (if eq_int a.client_then fd then close fd ∷ [] else []);
          }
          else if is_rt_to_bc config.mode
          then record { controller = c; status = status; received = words; calls = asking }
          else record { controller = c; status = pos 0; received = received; calls = sending }
    ]
