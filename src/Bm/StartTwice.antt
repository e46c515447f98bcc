-- ===== src/Bm/StartTwice.antt =====
-- test_bm_crash.cpp: the program that starts and stops the monitor twice. What it prints of the two
-- calls of `start` is a result.
use tcp_1553_bus_analyzer.Prelude.{ℕ, ◌≡◌, Bool, true, false, List, [], ◌∷◌, ◌++◌, some, arith}
use tcp_1553_bus_analyzer.Text.{codes}
use tcp_1553_bus_analyzer.TcpProxy.{PcapAnswers, PcapCall, start_sniffing, terminate}
use tcp_1553_bus_analyzer.TcpProxy.Handles.{handle_closes}
use tcp_1553_bus_analyzer.Bm.{Bm, new, start, stop}

-- `main`, with the answers of libpcap and the times of the two calls.
unfoldable pub start_twice : PcapAnswers → PcapAnswers → ℕ → ℕ → Bm × List Bool × List PcapCall
start_twice a b now later =
    let (s1, started, opening) = start a now (codes "lo") 5002 new in
    let (s2, closing) = stop s1 in
    let (s3, again, reopening) = start b later (codes "lo") 5002 s2 in
    let (s4, reclosing) = stop s3 in
    (s4, started ∷ again ∷ [], opening ++ closing ++ reopening ++ reclosing)

-- Where libpcap gives a handle each time and its filter works, both calls succeed, each handle is
-- closed once, and the monitor is at rest.
pub start_twice_closes :
    (a b : PcapAnswers) (g h now later : ℕ)
    → a.handle ≡ some g
    → a.compile_fails ≡ false
    → a.set_filter_fails ≡ false
    → b.handle ≡ some h
    → b.compile_fails ≡ false
    → b.set_filter_fails ≡ false
    → let (s, started, calls) = start_twice a b now later in
      (started ≡ true ∷ true ∷ [])
      × (handle_closes calls ≡ g ∷ h ∷ [])
      × (s.monitoring_active ≡ false)
unfolding start_twice start stop start_sniffing terminate
start_twice_closes a b g h now later e f k e' f' k' = ground arith
