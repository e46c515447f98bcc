-- ===== src/Bm/Format.antt =====
-- `BM::formatAndRelayTransaction` of src/core/bm.cpp: the text of a transaction, and the fields of
-- a command word. The time of day is an argument.
use tcp_1553_bus_analyzer.Prelude.{
  ℕ, suc, ◌+◌, ◌-◌, ◌/◌, ◌%◌, ◌^◌, bit_and, List, [], ◌∷◌, ◌++◌, ltb, ◌==◌, if◌then◌else◌, length,
  replicate,
}
use tcp_1553_bus_analyzer.Protocol.{MessageTransaction, is_nil}
use tcp_1553_bus_analyzer.Text.{Text, codes, decimal, hex4}

-- `(cmd1 >> 11) & 0x1F` and so on.
unfoldable pub rt_of : ℕ → ℕ
rt_of cmd = bit_and (cmd / 2 ^ 11) 0x1f

unfoldable pub tr_of : ℕ → ℕ
tr_of cmd = bit_and (cmd / 2 ^ 10) 0x01

unfoldable pub sa_of : ℕ → ℕ
sa_of cmd = bit_and (cmd / 2 ^ 5) 0x1f

unfoldable pub actual_wc : ℕ → ℕ
actual_wc cmd = let wc = bit_and cmd 0x1f in if wc == 0 then 32 else wc

-- What the clock gives for one transaction: `put_time(localtime(&now), "%H:%M:%S")`, and the
-- microseconds since the epoch.
pub record Stamp : Type 0 where
  pub time_of_day : Text
  pub full_us : ℕ

-- `setfill('0') << setw(6)`.
unfoldable pub padded6 : ℕ → Text
unfolding replicate
padded6 n = let digits = decimal n in replicate (6 - length digits) b'0' ++ digits

pub time_line : Stamp → Text
time_line at =
    codes "Time: " ++ at.time_of_day ++ codes "." ++ padded6 (at.full_us % 1000000) ++ codes "us\n"

unfoldable pub type_text : ℕ → Text
type_text tr = if tr == 0 then codes "BC to RT" else codes "RT to BC"

-- The header line of a transfer, by its fields.
pub header_text : ℕ → ℕ → ℕ → ℕ → ℕ → Text
header_text bus tr rt sa wc =
    codes "Bus: "
    ++ bus ∷ codes " Type: "
    ++ type_text tr
    ++ codes " RT: "
    ++ decimal rt
    ++ codes " SA: "
    ++ decimal sa
    ++ codes " WC: "
    ++ decimal wc
    ++ codes " Header: AA 55\n"

unfoldable pub header_line : ℕ → ℕ → Text
header_line bus cmd = header_text bus (tr_of cmd) (rt_of cmd) (sa_of cmd) (actual_wc cmd)

-- What follows word i of n: a line break every eight words, but none behind the last word.
unfoldable pub separator : ℕ → ℕ → Text
separator n i =
    if (i + 1) % 8 == 0 then if ltb (i + 1) n then codes "\n      " else [] else codes " "

-- The loop over the data words, from word i on.
unfoldable pub word_texts : ℕ → ℕ → List ℕ → Text
word_texts n i [] = []
word_texts n i (w ∷ ws) = hex4 w ++ separator n i ++ word_texts n (suc i) ws

unfoldable pub data_lines : List ℕ → Text
data_lines ws = codes "Data: " ++ word_texts (length ws) 0 ws ++ codes "\n"

unfoldable pub format_transaction : Stamp → MessageTransaction → Text
format_transaction at t =
    time_line at
    ++ (if t.cmd1_valid then header_line t.bus1 t.cmd1 else [])
    ++ (if is_nil t.data_words then [] else data_lines t.data_words)
    ++ codes "\n"
