-- ===== src/Tests/ThreadTests.antt =====
-- The theorems on the monitor's threads at a concrete schedule.
use tcp_1553_bus_analyzer.Prelude.{
  ℕ, zero, suc, arith, ◌≡◌, refl, Bool, true, false, not, List, [], ◌∷◌, some,
}
use tcp_1553_bus_analyzer.Bm.Threads.{
  Opening, free, Move, capture_moves, monitor_moves, main_moves, starts, stops, capture_move,
  monitor_move, join_capture, join_monitor, open_handle, main_move, step, run, at_rest, dangles,
  is_null,
}
use tcp_1553_bus_analyzer.Bm.Threads.Sound.{IsSound, run-IsSound}
use tcp_1553_bus_analyzer.Bm.Threads.Stopping.{AllFair, one_by_one, IsStopped, stop_completes}

abbrev none_open : ℕ → Bool
none_open h = false

abbrev given : Opening
given = record { handle = some 7; filter_works = true }

-- A start, up to the end, with the threads at work between its last steps.
abbrev session : List Move
session =
    starts given
    ∷ main_moves
    ∷ main_moves
    ∷ main_moves
    ∷ main_moves
    ∷ main_moves
    ∷ main_moves
    ∷ main_moves
    ∷ capture_moves
    ∷ main_moves
    ∷ capture_moves
    ∷ main_moves
    ∷ main_moves
    ∷ capture_moves
    ∷ monitor_moves
    ∷ []

session-free : (run session (at_rest none_open)).main_at ≡ free
unfolding run step main_move capture_move monitor_move join_capture join_monitor open_handle
session-free = refl

session-active : (run session (at_rest none_open)).monitoring_active ≡ true
unfolding run step main_move capture_move monitor_move join_capture join_monitor open_handle
session-active = refl

run-IsSound_example : IsSound (run session (at_rest none_open))
run-IsSound_example = run-IsSound session none_open refl

-- Each thread moves once.
abbrev turn : List Move
turn = main_moves ∷ capture_moves ∷ monitor_moves ∷ []

abbrev turns : ℕ → List (List Move)
turns zero = []
turns (suc n) = turn ∷ turns n

turns-AllFair : (n : ℕ) → AllFair (turns n)
turns-AllFair zero = tt
turns-AllFair (suc n) =
    (record { threads = refl; captures = refl; monitors = refl; mains = refl }, turns-AllFair n)

stop_completes_example :
    let s = run session (at_rest none_open) in
    let t = run (stops ∷ one_by_one (turns 16)) s in
    IsStopped t × (dangles s.pcap_handle t.is_open ≡ not (is_null s.pcap_handle))
stop_completes_example =
    stop_completes (run session (at_rest none_open)) (turns 16) session-free session-active
      (turns-AllFair 16) (omega arith)
