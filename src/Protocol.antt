-- ===== src/Protocol.antt =====
-- src/core/protocol.hpp: the packet that travels over TCP and the transaction that it is decoded
-- to.
pub mod Wire
use tcp_1553_bus_analyzer.Prelude.{
  ℕ, zero, suc, ◌+◌, ◌*◌, ◌/◌, ◌%◌, Bool, true, false, not, ◌&&◌, List, [], ◌∷◌, ◌++◌, ◌==◌,
}

abbrev pub Bytes : Type 0
Bytes = List ℕ

-- `Qemu1553Packet`; the words are as the wire has them, the high byte first in memory.
pub record Packet : Type 0 where
  pub magic0 : ℕ
  pub magic1 : ℕ
  pub mode : ℕ
  pub rt : ℕ
  pub sa : ℕ
  pub wc : ℕ
  pub data_words : List ℕ

-- A word in network order, which is what `htons` leaves in memory.
abbrev pub word_bytes : ℕ → Bytes
word_bytes w = (w / 256) ∷ (w % 256) ∷ []

unfoldable pub payload_bytes : List ℕ → Bytes
payload_bytes [] = []
payload_bytes (w ∷ ws) = word_bytes w ++ payload_bytes ws

-- The packed memory of a packet, which `write` is given.
unfoldable pub packet_bytes : Packet → Bytes
unfolding payload_bytes
packet_bytes p = p.magic0 ∷ p.magic1 ∷ p.mode ∷ p.rt ∷ p.sa ∷ p.wc ∷ payload_bytes p.data_words

pub record MessageTransaction : Type 0 where
  pub full_timetag : ℕ
  pub last_timetag_l_data : ℕ
  pub last_timetag_h_data : ℕ
  pub cmd1 : ℕ
  pub bus1 : ℕ
  pub cmd1_valid : Bool
  pub cmd2 : ℕ
  pub bus2 : ℕ
  pub cmd2_valid : Bool
  pub stat1 : ℕ
  pub stat1_bus : ℕ
  pub stat1_valid : Bool
  pub stat2 : ℕ
  pub stat2_bus : ℕ
  pub stat2_valid : Bool
  pub data_words : List ℕ
  pub error_word : ℕ
  pub error_valid : Bool

-- What `clear` leaves, which is also what the members' initialisers give.
abbrev pub cleared : MessageTransaction
cleared = record {
  full_timetag = 0;
  last_timetag_l_data = 0;
  last_timetag_h_data = 0;
  cmd1 = 0;
  bus1 = 0;
  cmd1_valid = false;
  cmd2 = 0;
  bus2 = 0;
  cmd2_valid = false;
  stat1 = 0;
  stat1_bus = 0;
  stat1_valid = false;
  stat2 = 0;
  stat2_bus = 0;
  stat2_valid = false;
  data_words = [];
  error_word = 0;
  error_valid = false;
}

unfoldable pub clear : MessageTransaction → MessageTransaction
clear t = cleared

abbrev pub is_nil {ℓ} : {A : Type ℓ} → List A → Bool
is_nil [] = true
is_nil (x ∷ xs) = false

unfoldable pub is_empty : MessageTransaction → Bool
is_empty t = not t.cmd1_valid && not t.error_valid && t.full_timetag == 0 && is_nil t.data_words
