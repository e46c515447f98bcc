-- ===== src/Tests/Samples.antt =====
-- Data that the tests share.
use tcp_1553_bus_analyzer.Prelude.{ℕ, refl, inr, true, List, [], ◌∷◌, ◌++◌, map, arith}
use tcp_1553_bus_analyzer.Prelude.Int.{pos}
use tcp_1553_bus_analyzer.Common.{FrameConfig, rt_to_bc}
use tcp_1553_bus_analyzer.Protocol.{Packet, packet_bytes}
use tcp_1553_bus_analyzer.Parser.RoundTrip.{IsPacket}
use tcp_1553_bus_analyzer.Bc.{BusController, idle}
use tcp_1553_bus_analyzer.Bm.Fields.{IsOnBus}
use tcp_1553_bus_analyzer.Bc.Send.{SendAnswers}
use tcp_1553_bus_analyzer.Text.{hex4}

abbrev pub eight : List ℕ
eight = 0x0001 ∷ 0xbeef ∷ 0xaa55 ∷ 0xffff ∷ 0x0000 ∷ 0x1234 ∷ 0x8000 ∷ 0x00ff ∷ []

abbrev pub words : List ℕ
words = eight ++ (eight ++ (eight ++ eight))

-- RT 2 sends 2 words from subaddress 6.
abbrev pub sample : Packet
sample = record {
  magic0 = 0xaa;
  magic1 = 0x55;
  mode = 1;
  rt = 2;
  sa = 6;
  wc = 2;
  data_words = words;
}

pub sample-IsPacket : IsPacket sample
sample-IsPacket = record { magic0 = refl; magic1 = refl; known_mode = inr refl; full = refl }

pub sample-IsOnBus : IsOnBus sample
sample-IsOnBus = record {
  packet = sample-IsPacket;
  rt_range = omega arith;
  sa_range = omega arith;
  wc_range = omega arith;
}

abbrev pub sample_frame : FrameConfig
sample_frame = record {
  label = [];
  bus = b'A';
  rt = pos 2;
  sa = pos 6;
  rt2 = pos 0;
  sa2 = pos 0;
  wc = pos 2;
  mode = rt_to_bc;
  data_texts = map hex4 words;
}

-- A controller to which a simulator is connected.
abbrev pub connected : BusController
connected = record idle {
  is_initialized = true;
  server_fd = pos 3;
  client_fd = pos 4;
  accept_thread = true;
}

-- Calls that succeed, with a complete reply.
abbrev pub answered : SendAnswers
answered = record {
  written = pos 70;
  client_then = pos 4;
  reply_size = pos 70;
  reply = packet_bytes sample;
  memory = [];
}
