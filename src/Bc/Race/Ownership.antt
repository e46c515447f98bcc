-- ===== src/Bc/Race/Ownership.antt =====
-- Who may close a client socket, in the model of `BusController`'s threads.
use tcp_1553_bus_analyzer.Prelude.{ℕ, ◌<◌, ◌≡◌, refl, true, List, [], ◌∷◌, none, some, arith}
use tcp_1553_bus_analyzer.Bc.Race.{
  AcceptAt, in_accept, got, passed, replaced, left_loop, SendAt, no_send, loaded, failed, took,
  StopAt, not_stopping, flagged, emptied, System, Move, accept_returns, accept_moves, send_loads,
  write_succeeds, write_fails, send_moves, stop_moves, accept_return, accept_move, send_load,
  write_succeed, write_fail, send_move, stop_move, step, run, listening, owners, IsOwned,
}

accept_return-IsOwned :
    (k fd : ℕ) (p : AcceptAt) (s : System)
    → s.accept_at ≡ p
    → IsOwned fd s
    → IsOwned fd (accept_return k p s).0
unfolding accept_return
accept_return-IsOwned k fd in_accept s e v = ground arith
accept_return-IsOwned k fd _ s e v = ground arith

accept_move-IsOwned :
    (fd : ℕ) (p : AcceptAt) (s : System)
    → s.accept_at ≡ p
    → IsOwned fd s
    → IsOwned fd (accept_move p s).0
unfolding accept_move
accept_move-IsOwned fd in_accept s e v = ground arith
accept_move-IsOwned fd (got k) s e v = ground arith
accept_move-IsOwned fd (passed k) s e v = ground arith
accept_move-IsOwned fd (replaced none) s e v = ground arith
accept_move-IsOwned fd (replaced (some k)) s e v = ground arith
accept_move-IsOwned fd left_loop s e v = ground arith

send_move-IsOwned :
    (fd : ℕ) (p : SendAt) (s : System) → s.send_at ≡ p → IsOwned fd s → IsOwned fd (send_move p s).0
unfolding send_move
send_move-IsOwned fd (took k none) s e v = ground arith
send_move-IsOwned fd (took k (some j)) s e v = ground arith
send_move-IsOwned fd (failed k) s e v = ground arith
send_move-IsOwned fd no_send s e v = v
send_move-IsOwned fd (loaded k) s e v = v

stop_move-IsOwned :
    (fd : ℕ) (p : StopAt) (s : System) → s.stop_at ≡ p → IsOwned fd s → IsOwned fd (stop_move p s).0
unfolding stop_move
stop_move-IsOwned fd not_stopping s e v = ground arith
stop_move-IsOwned fd flagged s e v = ground arith
stop_move-IsOwned fd (emptied none) s e v = ground arith
stop_move-IsOwned fd (emptied (some k)) s e v = ground arith

pub step-IsOwned : (m : Move) (fd : ℕ) (s : System) → IsOwned fd s → IsOwned fd (step m s).0
unfolding step send_load write_succeed write_fail
step-IsOwned (accept_returns k) fd s v = accept_return-IsOwned k fd s.accept_at s refl v
step-IsOwned accept_moves fd s v = accept_move-IsOwned fd s.accept_at s refl v
step-IsOwned send_loads fd s v = ground arith
step-IsOwned write_succeeds fd s v = ground arith
step-IsOwned write_fails fd s v = ground arith
step-IsOwned send_moves fd s v = send_move-IsOwned fd s.send_at s refl v
step-IsOwned stop_moves fd s v = stop_move-IsOwned fd s.stop_at s refl v

run-IsOwned : (ms : List Move) (fd : ℕ) (s : System) → IsOwned fd s → IsOwned fd (run ms s)
unfolding run
run-IsOwned [] fd s v = v
run-IsOwned (m ∷ ms) fd s v = run-IsOwned ms fd (step m s).0 (step-IsOwned m fd s v)

-- A socket that a move closes is one that is known.
accept_move-owned :
    (fd : ℕ) (p : AcceptAt) (s : System)
    → s.accept_at ≡ p
    → (accept_move p s).1 ≡ some fd
    → 0 < owners fd s
unfolding accept_move
accept_move-owned fd (got k) s e c = ground arith
accept_move-owned fd (replaced none) s e c = ground arith
accept_move-owned fd (replaced (some k)) s e c = ground arith
accept_move-owned fd in_accept s e c = cc
accept_move-owned fd (passed k) s e c = cc
accept_move-owned fd left_loop s e c = cc

send_move-owned :
    (fd : ℕ) (p : SendAt) (s : System)
    → s.send_at ≡ p
    → (send_move p s).1 ≡ some fd
    → 0 < owners fd s
unfolding send_move
send_move-owned fd (took k none) s e c = ground arith
send_move-owned fd (took k (some j)) s e c = ground arith
send_move-owned fd (failed k) s e c = cc
send_move-owned fd no_send s e c = cc
send_move-owned fd (loaded k) s e c = cc

stop_move-owned :
    (fd : ℕ) (p : StopAt) (s : System)
    → s.stop_at ≡ p
    → (stop_move p s).1 ≡ some fd
    → 0 < owners fd s
unfolding stop_move
stop_move-owned fd (emptied none) s e c = ground arith
stop_move-owned fd (emptied (some k)) s e c = ground arith
stop_move-owned fd not_stopping s e c = cc
stop_move-owned fd flagged s e c = cc

step-owned : (m : Move) (fd : ℕ) (s : System) → (step m s).1 ≡ some fd → 0 < owners fd s
unfolding step accept_return send_load write_succeed write_fail
step-owned (accept_returns k) fd s c = ground arith
step-owned accept_moves fd s c = accept_move-owned fd s.accept_at s refl c
step-owned send_loads fd s c = ground arith
step-owned write_succeeds fd s c = ground arith
step-owned write_fails fd s c = ground arith
step-owned send_moves fd s c = send_move-owned fd s.send_at s refl c
step-owned stop_moves fd s c = stop_move-owned fd s.stop_at s refl c

-- Under every schedule of the three threads, a socket that the next move closes is open: none is
-- closed twice, and none that the controller was not handed.
pub close_of_open :
    (ms : List Move) (m : Move) (fd : ℕ)
    → (step m (run ms listening)).1 ≡ some fd
    → (run ms listening).is_open fd ≡ true
close_of_open ms m fd c =
    let s = run ms listening in
    ground (arith, step-owned m fd s c, run-IsOwned ms fd listening (ground arith))
