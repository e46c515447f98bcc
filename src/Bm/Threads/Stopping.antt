-- ===== src/Bm/Threads/Stopping.antt =====
-- `BM::stop` comes to its end, whatever the order in which the threads run: how far it is from
-- there, and what holds on the way.
use tcp_1553_bus_analyzer.Prelude.{
  ℕ, suc, ◌+◌, ◌≤◌, ◌<◌, ◌≡◌, ◌⊎◌, inl, inr, refl, ap, sym, ◌∙◌, Bool, true, false, not, ◌&&◌, ◌||◌,
  List, [], ◌∷◌, ◌++◌, Option, none, arith, if◌then◌else◌, length,
}
use tcp_1553_bus_analyzer.Bm.Threads.{
  CaptureAt, no_capture, at_test, dispatching, ended, MonitorAt, no_monitor, testing, reading,
  leaving, cleared, finished, Caller, MainAt, free, requesting, clearing, breaking, joining_capture,
  closing, joining_monitor, deactivating, forgetting, opening, spawning_capture, activating,
  unrequesting, spawning_monitor, for_stop, for_start, System, Move, capture_moves, monitor_moves,
  main_moves, starts, stops, dangles, is_null, capture_move, monitor_move, join_capture,
  join_monitor, main_move, step, run,
}

-- How many steps of `stop` are left.
abbrev pub stage : MainAt → ℕ
stage requesting = 8
stage (clearing k) = 7
stage (breaking k) = 6
stage (joining_capture k) = 5
stage (closing k) = 4
stage (joining_monitor k) = 3
stage deactivating = 2
stage forgetting = 1
stage _ = 0

abbrev pub is_for_stop : Caller → Bool
is_for_stop for_stop = true
is_for_stop (for_start o) = false

-- The main thread is in `stop`, or has returned from it.
abbrev pub in_stop : MainAt → Bool
in_stop free = true
in_stop requesting = true
in_stop (clearing k) = is_for_stop k
in_stop (breaking k) = is_for_stop k
in_stop (joining_capture k) = is_for_stop k
in_stop (closing k) = is_for_stop k
in_stop (joining_monitor k) = is_for_stop k
in_stop deactivating = true
in_stop forgetting = true
in_stop _ = false

abbrev pub is_looping : MonitorAt → Bool
is_looping testing = true
is_looping reading = true
is_looping _ = false

-- On the way of a `stop` that found `handle`.
record IsStopping (handle : Option ℕ) (s : System) : Type 0 where
  way : in_stop s.main_at ≡ true
  asked : stage s.main_at ≤ 7 → is_looping s.monitor_at ≡ true → s.shutdown_requested ≡ true
  asleep : stage s.main_at ≤ 6 → s.running ≡ false
  uncaptured : stage s.main_at ≤ 4 → s.capture_at ≡ no_capture
  kept : 4 ≤ stage s.main_at → s.pcap_handle ≡ handle
  let_go : stage s.main_at ≤ 3 → s.pcap_handle ≡ none
  shut : stage s.main_at ≤ 3 → dangles handle s.is_open ≡ not (is_null handle)
  unmonitored : stage s.main_at ≤ 2 → s.monitor_at ≡ no_monitor
  inactive : stage s.main_at ≤ 1 → s.monitoring_active ≡ false
  forgotten : stage s.main_at ≤ 0 → s.shutdown_requested ≡ false

-- How many moves the capture thread is away from its end, and the monitor thread; one more than
-- that as long as its flag says to go on.
abbrev capture_rank : Bool → CaptureAt → ℕ
capture_rank running no_capture = 0
capture_rank running at_test = if running then 3 else 1
capture_rank running dispatching = if running then 3 else 2
capture_rank running ended = 0

abbrev monitor_rank : Bool → MonitorAt → ℕ
monitor_rank requested no_monitor = 0
monitor_rank requested testing = if requested then 3 else 5
monitor_rank requested reading = if requested then 4 else 5
monitor_rank requested leaving = 2
monitor_rank requested cleared = 1
monitor_rank requested finished = 0

abbrev rank : System → ℕ
rank s =
    stage s.main_at
    + capture_rank s.running s.capture_at
    + monitor_rank s.shutdown_requested s.monitor_at

-- A move of one of the three threads, which is no call.
abbrev pub is_thread : Move → Bool
is_thread capture_moves = true
is_thread monitor_moves = true
is_thread main_moves = true
is_thread _ = false

abbrev pub same : Move → Move → Bool
same capture_moves capture_moves = true
same monitor_moves monitor_moves = true
same main_moves main_moves = true
same _ _ = false

-- The thread on which `stop` waits: the one that it joins, or the main thread itself.
abbrev waits_capture : CaptureAt → Move
waits_capture at_test = capture_moves
waits_capture dispatching = capture_moves
waits_capture _ = main_moves

abbrev waits_monitor : MonitorAt → Move
waits_monitor no_monitor = main_moves
waits_monitor finished = main_moves
waits_monitor _ = monitor_moves

abbrev awaited_at : MainAt → CaptureAt → MonitorAt → Move
awaited_at (joining_capture k) c m = waits_capture c
awaited_at (joining_monitor k) c m = waits_monitor m
awaited_at _ c m = main_moves

abbrev awaited : System → Move
awaited s = awaited_at s.main_at s.capture_at s.monitor_at

-- From `s` to `t` by move `m`: still on the way, and nearer to the end, or as near, the same thread
-- still being awaited, which was not the one that moved.
record IsProgress (handle : Option ℕ) (m : Move) (s t : System) : Type 0 where
  stopping : IsStopping handle t
  nearer :
      (rank t < rank s)
      ⊎ ((rank t ≡ rank s)
          × (awaited t ≡ awaited s)
          × ((same (awaited s) m ≡ false) ⊎ (rank s ≡ 0)))

capture_move-IsProgress :
    (h : Option ℕ) (c : CaptureAt) (a : MainAt) (s : System)
    → s.capture_at ≡ c
    → s.main_at ≡ a
    → IsStopping h s
    → IsProgress h capture_moves s (capture_move c s)
unfolding capture_move
capture_move-IsProgress h no_capture a s e f v = ground (arith, v, e, f)
capture_move-IsProgress h at_test a s e f v = ground (arith, v, e, f)
capture_move-IsProgress h dispatching a s e f v = ground (arith, v, e, f)
capture_move-IsProgress h ended a s e f v = ground (arith, v, e, f)

monitor_move-IsProgress :
    (h : Option ℕ) (m : MonitorAt) (s : System)
    → s.monitor_at ≡ m
    → IsStopping h s
    → IsProgress h monitor_moves s (monitor_move m s)
unfolding monitor_move
monitor_move-IsProgress h no_monitor s e v = ground (arith, v, e)
monitor_move-IsProgress h testing s e v = ground (arith, v, e)
monitor_move-IsProgress h reading s e v = ground (arith, v, e)
monitor_move-IsProgress h leaving s e v = ground (arith, v, e)
monitor_move-IsProgress h cleared s e v = ground (arith, v, e)
monitor_move-IsProgress h finished s e v = ground (arith, v, e)

main_move-IsProgress :
    (h : Option ℕ) (a : MainAt) (s : System)
    → s.main_at ≡ a
    → IsStopping h s
    → IsProgress h main_moves s (main_move a s)
unfolding main_move join_capture join_monitor
main_move-IsProgress h free s e v = ground (arith, v, e)
main_move-IsProgress h requesting s e v = ground (arith, v, e)
main_move-IsProgress h (clearing k) s e v = ground (arith, v, e)
main_move-IsProgress h (breaking k) s e v = ground (arith, v, e)
main_move-IsProgress h (joining_capture k) s e v = ground (arith, v, e)
main_move-IsProgress h (closing k) s e v = ground (arith, v, e)
main_move-IsProgress h (joining_monitor k) s e v = ground (arith, v, e)
main_move-IsProgress h deactivating s e v = ground (arith, v, e)
main_move-IsProgress h forgetting s e v = ground (arith, v, e)
main_move-IsProgress h (opening o) s e v = ground (arith, v, e)
main_move-IsProgress h spawning_capture s e v = ground (arith, v, e)
main_move-IsProgress h activating s e v = ground (arith, v, e)
main_move-IsProgress h unrequesting s e v = ground (arith, v, e)
main_move-IsProgress h spawning_monitor s e v = ground (arith, v, e)

step-IsProgress :
    (h : Option ℕ) (m : Move) (s : System)
    → is_thread m ≡ true
    → IsStopping h s
    → IsProgress h m s (step m s)
unfolding step
step-IsProgress h capture_moves s t v =
    capture_move-IsProgress h s.capture_at s.main_at s refl refl v
step-IsProgress h monitor_moves s t v = monitor_move-IsProgress h s.monitor_at s refl v
step-IsProgress h main_moves s t v = main_move-IsProgress h s.main_at s refl v
step-IsProgress h (starts o) s t v = cc
step-IsProgress h stops s t v = cc

abbrev pub all_threads : List Move → Bool
all_threads [] = true
all_threads (m ∷ ms) = is_thread m && all_threads ms

-- Thread `m` moves.
abbrev pub moves : Move → List Move → Bool
moves m [] = false
moves m (n ∷ ns) = same m n || moves m ns

-- Nothing on the way to the end of `stop` takes it further from there.
record IsNearer (handle : Option ℕ) (t : System) (n : ℕ) : Type 0 where
  stopping : IsStopping handle t
  near : rank t ≤ n

run-le :
    (h : Option ℕ) (ms : List Move) (s : System) (n : ℕ)
    → all_threads ms ≡ true
    → IsStopping h s
    → rank s ≤ n
    → IsNearer h (run ms s) n
unfolding run
run-le h [] s n a v r = record { stopping = v; near = r }
run-le h (m ∷ ms) s n a v r =
    let p = step-IsProgress h m s (ground arith) v in
    run-le h ms (step m s) n (ground arith) p.stopping (ground (arith, p.nearer))

-- Where the awaited thread moves, `stop` is nearer to its end.
run-lt :
    (h : Option ℕ) (ms : List Move) (s : System) (n : ℕ)
    → all_threads ms ≡ true
    → moves (awaited s) ms ≡ true
    → IsStopping h s
    → rank s ≤ suc n
    → IsNearer h (run ms s) n
unfolding run
run-lt h [] s n a w v r = cc
run-lt h (m ∷ ms) s n a w v r =
    let p = step-IsProgress h m s (ground arith) v in
    let rest = run-le h ms (step m s) n (ground arith) p.stopping in
    elim p.nearer [
      | inl less ↦ rest (ground (arith, less))
      | inr (even, still, moved) ↦ elim moved [
        | inl other ↦
            let late : moves (awaited (step m s)) ms ≡ true =
              ap (λ (a : Move). moves a ms) still
              ∙ ap (λ (b : Bool). b || moves (awaited s) ms) (sym other)
              ∙ w in
            run-lt h ms (step m s) n (ground arith) late p.stopping (omega (arith, even, r))
        | inr none_left ↦ rest (omega (arith, even, none_left))
      ]
    ]

-- A round in which each of the three threads moves, in any order, and as often as it likes.
pub record IsFair (ms : List Move) : Type 0 where
  pub threads : all_threads ms ≡ true
  pub captures : moves capture_moves ms ≡ true
  pub monitors : moves monitor_moves ms ≡ true
  pub mains : moves main_moves ms ≡ true

abbrev pub AllFair : List (List Move) → Type 0
AllFair [] = Unit {0}
AllFair (ms ∷ rounds) = IsFair ms × AllFair rounds

abbrev pub one_by_one : List (List Move) → List Move
one_by_one [] = []
one_by_one (ms ∷ rounds) = ms ++ one_by_one rounds

awaited-moves : (s : System) (ms : List Move) → IsFair ms → moves (awaited s) ms ≡ true
awaited-moves s ms v = ground (arith, v)

run-append : (ms ns : List Move) (s : System) → run (ms ++ ns) s ≡ run ns (run ms s)
unfolding run
run-append [] ns s = refl
run-append (m ∷ ms) ns s = run-append ms ns (step m s)

-- As many rounds as there are moves left.
rounds_end :
    (h : Option ℕ) (rounds : List (List Move)) (s : System)
    → AllFair rounds
    → IsStopping h s
    → rank s ≤ length rounds
    → IsNearer h (run (one_by_one rounds) s) 0
unfolding run
rounds_end h [] s a v r = record { stopping = v; near = r }
rounds_end h (ms ∷ rounds) s a v r =
    let p = run-lt h ms s (length rounds) a.0.threads (awaited-moves s ms a.0) v r in
    let q = rounds_end h rounds (run ms s) a.1 p.stopping p.near in
    rw (run-append ms (one_by_one rounds) s) q

-- Nothing is left of a session.
pub record IsStopped (s : System) : Type 0 where
  pub returned : s.main_at ≡ free
  pub inactive : s.monitoring_active ≡ false
  pub asleep : s.running ≡ false
  pub forgotten : s.shutdown_requested ≡ false
  pub no_handle : s.pcap_handle ≡ none
  pub uncaptured : s.capture_at ≡ no_capture
  pub unmonitored : s.monitor_at ≡ no_monitor

at_last :
    (h : Option ℕ) (s : System)
    → IsStopping h s
    → rank s ≤ 0
    → IsStopped s × (dangles h s.is_open ≡ not (is_null h))
at_last h s v r = ground (arith, v, r)

-- Where the main thread is free and the monitor is active, a call of `stop` returns under every
-- fair schedule: sixteen or more rounds in each of which the capture thread, the monitor thread and
-- the main thread move, in any order and each at least once, and in which no other call is made.
-- At the end the call has returned, the monitor is not active, both threads are joined, the handle
-- is closed and forgotten, and the flags are clear.
pub stop_completes :
    (s : System) (rounds : List (List Move))
    → s.main_at ≡ free
    → s.monitoring_active ≡ true
    → AllFair rounds
    → 16 ≤ length rounds
    → let t = run (stops ∷ one_by_one rounds) s in
      IsStopped t × (dangles s.pcap_handle t.is_open ≡ not (is_null s.pcap_handle))
unfolding run step
stop_completes s rounds idle active fair enough =
    let start = step stops s in
    let v : IsStopping s.pcap_handle start = ground (arith, idle, active) in
    let far : rank start ≤ length rounds = ground (arith, idle, active, enough) in
    let q = rounds_end s.pcap_handle rounds start fair v far in
    at_last s.pcap_handle _ q.stopping q.near
