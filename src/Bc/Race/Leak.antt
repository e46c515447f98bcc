-- ===== src/Bc/Race/Leak.antt =====
-- A failed write after a new simulator has connected, in the model of `BusController`'s threads.
use tcp_1553_bus_analyzer.Prelude.{ℕ, ◌≡◌, ◌≢◌, refl, true, List, [], ◌∷◌, none, some, arith}
use tcp_1553_bus_analyzer.Bc.Race.{
  AcceptAt, in_accept, got, passed, replaced, left_loop, SendAt, no_send, loaded, failed, took,
  StopAt, not_stopping, flagged, emptied, System, Move, accept_returns, accept_moves, send_loads,
  write_succeeds, write_fails, send_moves, stop_moves, accept_return, accept_move, send_load,
  write_succeed, write_fail, send_move, stop_move, step, run, listening, owners,
}

-- Simulator `a` connects and a send loads its socket; simulator `b` connects in its place, and
-- the accept thread closes `a`; then the write fails.
abbrev pub reconnect : ℕ → ℕ → List Move
reconnect a b =
    accept_returns a
    ∷ accept_moves
    ∷ accept_moves
    ∷ accept_moves
    ∷ send_loads
    ∷ accept_returns b
    ∷ accept_moves
    ∷ accept_moves
    ∷ accept_moves
    ∷ write_fails
    ∷ send_moves
    ∷ send_moves
    ∷ []

-- Nobody will close it, and it is open.
abbrev pub IsLost : ℕ → System → Type 0
IsLost fd s = (s.is_open fd ≡ true) × (owners fd s ≡ 0)

accept_move-IsLost :
    (fd : ℕ) (p : AcceptAt) (s : System)
    → s.accept_at ≡ p
    → IsLost fd s
    → IsLost fd (accept_move p s).0
unfolding accept_move
accept_move-IsLost fd (got k) s e v = ground arith
accept_move-IsLost fd (passed k) s e v = ground arith
accept_move-IsLost fd (replaced none) s e v = ground arith
accept_move-IsLost fd (replaced (some k)) s e v = ground arith
accept_move-IsLost fd in_accept s e v = v
accept_move-IsLost fd left_loop s e v = v

send_move-IsLost :
    (fd : ℕ) (p : SendAt) (s : System) → s.send_at ≡ p → IsLost fd s → IsLost fd (send_move p s).0
unfolding send_move
send_move-IsLost fd (took k none) s e v = ground arith
send_move-IsLost fd (took k (some j)) s e v = ground arith
send_move-IsLost fd (failed k) s e v = ground arith
send_move-IsLost fd no_send s e v = v
send_move-IsLost fd (loaded k) s e v = v

stop_move-IsLost :
    (fd : ℕ) (p : StopAt) (s : System) → s.stop_at ≡ p → IsLost fd s → IsLost fd (stop_move p s).0
unfolding stop_move
stop_move-IsLost fd not_stopping s e v = ground arith
stop_move-IsLost fd flagged s e v = ground arith
stop_move-IsLost fd (emptied none) s e v = ground arith
stop_move-IsLost fd (emptied (some k)) s e v = ground arith

step-IsLost : (m : Move) (fd : ℕ) (s : System) → IsLost fd s → IsLost fd (step m s).0
unfolding step accept_return send_load write_succeed write_fail
step-IsLost (accept_returns k) fd s v = ground arith
step-IsLost accept_moves fd s v = accept_move-IsLost fd s.accept_at s refl v
step-IsLost send_loads fd s v = ground arith
step-IsLost write_succeeds fd s v = ground arith
step-IsLost write_fails fd s v = ground arith
step-IsLost send_moves fd s v = send_move-IsLost fd s.send_at s refl v
step-IsLost stop_moves fd s v = stop_move-IsLost fd s.stop_at s refl v

run-IsLost : (ms : List Move) (fd : ℕ) (s : System) → IsLost fd s → IsLost fd (run ms s)
unfolding run
run-IsLost [] fd s v = v
run-IsLost (m ∷ ms) fd s v = run-IsLost ms fd (step m s).0 (step-IsLost m fd s v)

reconnect-IsLost : (a b : ℕ) → a ≢ b → IsLost b (run (reconnect a b) listening)
unfolding run step accept_return accept_move send_load write_fail send_move
reconnect-IsLost a b h = ground arith

-- The bug: where a send has loaded the socket of one simulator, another simulator connects in its
-- place and the write then fails, the socket of the second is open and nobody will close it; and
-- so it stays, whatever the three threads do afterwards, `shutdown` included.
pub reconnect_leaks :
    (a b : ℕ) (later : List Move) → a ≢ b → IsLost b (run later (run (reconnect a b) listening))
reconnect_leaks a b later h = run-IsLost later b _ (reconnect-IsLost a b h)
