-- ===== src/Tests/BusTests.antt =====
-- The controller's and the sniffer's theorems at concrete inputs.
use tcp_1553_bus_analyzer.Prelude.{ℕ, ◌≡◌, ◌⊎◌, refl, true, false, List, [], ◌∷◌, some, arith}
use tcp_1553_bus_analyzer.Prelude.Int.{pos, minus_one, is_negative}
use tcp_1553_bus_analyzer.Text.{Text}
use tcp_1553_bus_analyzer.Bc.{idle, ServerAnswers, initialize, is_ready}
use tcp_1553_bus_analyzer.Bc.Lifecycle.{
  IsConsistent, closes, Op, initializes, accepts, sends, initialize_outcome,
}
use tcp_1553_bus_analyzer.Bc.Race.{
  Move, accept_returns, accept_moves, send_loads, write_fails, send_moves, stop_moves, listening,
  run, step, accept_return, accept_move, send_load, write_fail, send_move,
}
use tcp_1553_bus_analyzer.Bc.Race.Ownership.{close_of_open}
use tcp_1553_bus_analyzer.Bc.Race.Leak.{reconnect, IsLost, reconnect_leaks}
use tcp_1553_bus_analyzer.Tests.Samples.{sample_frame, answered}

abbrev no_text : ℕ → Text
no_text errno = []

abbrev server : ServerAnswers
server = record { socket_fd = pos 3; reuse = pos 0; bound = pos 0; listening = pos 0; errno = 0 }

-- A port that is in use.
abbrev port_taken : ServerAnswers
port_taken = record server { bound = minus_one; errno = 98 }

idle-IsConsistent : IsConsistent idle
idle-IsConsistent = record { thread = refl; server = refl }

initialize_outcome_example :
    let r = initialize no_text port_taken [] 5002 idle in
    ((r.1 ≡ pos 0) × (is_ready r.0 ≡ true) × (r.0.server_fd ≡ pos 3) × (closes r.2 ≡ []))
    ⊎ ((r.1 ≡ minus_one)
        × (is_ready r.0 ≡ false)
        × (is_negative r.0.server_fd ≡ true)
        × (closes r.2 ≡ pos 3 ∷ []))
initialize_outcome_example =
    initialize_outcome no_text port_taken [] 5002 idle idle-IsConsistent refl

-- A server that two simulators connect to, one after the other, and a send that fails.
abbrev session : List Op
session =
    initializes server [] 5002
    ∷ accepts (pos 4)
    ∷ accepts (pos 5)
    ∷ sends (record answered { written = minus_one }) (some sample_frame) []
    ∷ []

-- A simulator connects, and a write to it fails.
abbrev failing : List Move
failing =
    accept_returns 5
    ∷ accept_moves
    ∷ accept_moves
    ∷ accept_moves
    ∷ send_loads
    ∷ write_fails
    ∷ send_moves
    ∷ []

failing_closes : (step send_moves (run failing listening)).1 ≡ some 5
unfolding run step accept_return accept_move send_load write_fail send_move
failing_closes = refl

close_of_open_example : (run failing listening).is_open 5 ≡ true
close_of_open_example = close_of_open failing send_moves 5 failing_closes

abbrev stopping : List Move
stopping = stop_moves ∷ stop_moves ∷ stop_moves ∷ accept_moves ∷ []

reconnect_leaks_example : IsLost 6 (run stopping (run (reconnect 5 6) listening))
reconnect_leaks_example = reconnect_leaks 5 6 stopping (omega arith)
