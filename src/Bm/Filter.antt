-- ===== src/Bm/Filter.antt =====
-- The filter of the monitor.
use tcp_1553_bus_analyzer.Prelude.{refl, ℕ, ◌≡◌, ◌↔◌, ◌⊎◌, true, false, arith, if◌then◌else◌, ◌==◌}
use tcp_1553_bus_analyzer.Prelude.Int.{ℤ, pos, minus_one}
use tcp_1553_bus_analyzer.Protocol.{Packet, MessageTransaction}
use tcp_1553_bus_analyzer.Parser.RoundTrip.{transaction_of}
use tcp_1553_bus_analyzer.Bm.Fields.{IsOnBus, command_word_fields}
use tcp_1553_bus_analyzer.Bm.Format.{rt_of, sa_of}
use tcp_1553_bus_analyzer.Bm.{Bm, passes, enable_filter, set_filter_criteria}

-- -1 stands for any address.
abbrev pub Admits : ℤ → ℕ → Type 0
Admits wanted address = (wanted ≡ minus_one) ⊎ (wanted ≡ pos address)

abbrev pub Matches : Bm → ℕ → ℕ → Type 0
Matches s rt sa = (s.filter_enabled ≡ false) ⊎ (Admits s.filter_rt rt × Admits s.filter_sa sa)

passes-Matches :
    (s : Bm) (t : MessageTransaction) (rt sa : ℕ)
    → rt_of t.cmd1 ≡ rt
    → sa_of t.cmd1 ≡ sa
    → (passes s t ≡ true) ↔ Matches s rt sa
unfolding passes
passes-Matches s t rt sa hr hs = (ground arith, ground arith)

-- A packet on the bus passes exactly when the filter is off or admits its two addresses.
pub passes_iff :
    (s : Bm) (p : Packet) → IsOnBus p → (passes s (transaction_of p) ≡ true) ↔ Matches s p.rt p.sa
unfolding transaction_of
passes_iff s p v =
    let tr : ℕ = if p.mode == 1 then 1 else 0 in
    let (rt, _, sa, _) =
      command_word_fields p.rt tr p.sa p.wc v.rt_range (ground arith) v.sa_range v.wc_range in
    passes-Matches s (transaction_of p) p.rt p.sa rt sa

-- Neither the bus nor the mode code of a filter decides anything: two filters for the same terminal
-- and subaddress pass the same transactions, and a filter for any terminal and any subaddress
-- passes them all.
pub filter_ignores_bus :
    (s : Bm) (bus bus2 : ℕ) (rt sa mc mc2 : ℤ) (t : MessageTransaction)
    → (passes (set_filter_criteria bus rt sa mc s) t
        ≡ passes (set_filter_criteria bus2 rt sa mc2 s) t)
      × (passes (enable_filter true (set_filter_criteria bus minus_one minus_one mc s)) t ≡ true)
unfolding passes enable_filter set_filter_criteria
filter_ignores_bus s bus bus2 rt sa mc mc2 t = (refl, ground arith)
