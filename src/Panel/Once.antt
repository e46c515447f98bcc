-- ===== src/Panel/Once.antt =====
-- One session of the sending thread of src/ui/BusControllerPanel.cpp that the user leaves alone.
use tcp_1553_bus_analyzer.Prelude.{
  ℕ, ◌≡◌, refl, Bool, true, false, ◌||◌, ◌&&◌, List, [], ◌∷◌, ◌++◌, none, some, arith,
}
use tcp_1553_bus_analyzer.Text.{codes}
use tcp_1553_bus_analyzer.Panel.{
  Posted, fetch, stop, fail, tell, reset, show, destroy, SenderAt, no_thread, top, waiting, looping,
  pausing, chosen, ended, Answers, MainAt, free, joining, Panel, Move, sender_moves, main_handles,
  join_returns, clicks_send, clicks_repeat, activates, adds, deletes, clears, idle_round, end_round,
  take_frames, shows, sender_move, stop_sending_thread, start_sending_thread,
  on_send_active_frames_toggle, on_repeat_toggle, remove_frame, remove_frames,
  on_clear_frames_clicked, say, reset_toggle, handle, join_return, step, run, resting,
}

abbrev is_stop : Posted → Bool
is_stop (stop status) = true
is_stop fail = true
is_stop _ = false

-- A `stopSendingThread` is still to be run.
abbrev pub has_stop : List Posted → Bool
has_stop [] = false
has_stop (p ∷ ps) = is_stop p || has_stop ps

has_stop-append : (ps qs : List Posted) → has_stop (ps ++ qs) ≡ has_stop ps || has_stop qs
has_stop-append [] qs = refl
has_stop-append (p ∷ ps) qs = ground (arith, has_stop-append ps qs)

-- The thread has left its loop, or there is none.
abbrev pub is_done : SenderAt → Bool
is_done no_thread = true
is_done ended = true
is_done _ = false

-- The main thread joins only a thread that has left its loop, and `stopSendingThread` is posted
-- only there.
record IsOnce (s : Panel) : Type 0 where
  joins : s.main_at ≡ joining → s.sender_at ≡ ended
  stops : has_stop s.posted ≡ true → is_done s.sender_at ≡ true

sender_move-IsOnce :
    (r : Answers) (p : SenderAt) (s : Panel)
    → s.sender_at ≡ p
    → IsOnce s
    → IsOnce (sender_move r p s)
unfolding sender_move end_round take_frames
sender_move-IsOnce r no_thread s e v = v
sender_move-IsOnce r top s e v = ground (arith, has_stop-append s.posted (fetch ∷ []))
sender_move-IsOnce r waiting s e v = ground arith
sender_move-IsOnce r (looping [] any) s e v =
    ground (arith, has_stop-append s.posted (idle_round any))
sender_move-IsOnce r (looping (f ∷ fs) any) s e v =
    ground (arith, has_stop-append s.posted (idle_round any))
sender_move-IsOnce r (chosen f fs any) s e v =
    ground (arith, has_stop-append s.posted (shows r.is_answered f))
sender_move-IsOnce r pausing s e v = ground arith
sender_move-IsOnce r ended s e v = v

remove_frame-IsOnce : (f : ℕ) (s : Panel) → IsOnce s → IsOnce (remove_frame f s)
unfolding remove_frame
remove_frame-IsOnce f s v = ground (arith, has_stop-append s.posted (destroy f ∷ []))

remove_frames-IsOnce : (fs : List ℕ) (s : Panel) → IsOnce s → IsOnce (remove_frames fs s)
unfolding remove_frames
remove_frames-IsOnce [] s v = v
remove_frames-IsOnce (f ∷ fs) s v = remove_frames-IsOnce fs _ (remove_frame-IsOnce f s v)

stop_sending_thread-IsOnce :
    (s : Panel) → is_done s.sender_at ≡ true → IsOnce (stop_sending_thread s)
unfolding stop_sending_thread
stop_sending_thread-IsOnce s d = ground arith

handle-IsOnce : (ps : List Posted) (s : Panel) → s.posted ≡ ps → IsOnce s → IsOnce (handle ps s)
unfolding handle say reset_toggle
handle-IsOnce [] s e v = v
handle-IsOnce (fetch ∷ later) s e v = ground arith
handle-IsOnce (stop none ∷ later) s e v =
    stop_sending_thread-IsOnce (record s { posted = later }) (ground arith)
handle-IsOnce (stop (some status) ∷ later) s e v =
    stop_sending_thread-IsOnce (record s { posted = later; status_text = status }) (ground arith)
handle-IsOnce (fail ∷ later) s e v =
    stop_sending_thread-IsOnce
      (record s { posted = later; status_text = codes "BC init failed: " ++ s.last_error })
      (ground arith)
handle-IsOnce (tell status ∷ later) s e v = ground arith
handle-IsOnce (show f ∷ later) s e v = ground arith
handle-IsOnce (reset ∷ later) s e v = ground arith
handle-IsOnce (destroy f ∷ later) s e v = ground arith

join_return-IsOnce :
    (m : MainAt) (p : SenderAt) (s : Panel)
    → s.main_at ≡ m
    → s.sender_at ≡ p
    → IsOnce s
    → IsOnce (join_return m p s)
unfolding join_return
join_return-IsOnce m p s e f v = ground arith

-- A move that is no click on `Send Active Frames`.
abbrev pub leaves_alone : Move → Bool
leaves_alone clicks_send = false
leaves_alone _ = true

abbrev pub all_leave_alone : List Move → Bool
all_leave_alone [] = true
all_leave_alone (m ∷ ms) = leaves_alone m && all_leave_alone ms

step-IsOnce : (m : Move) (s : Panel) → leaves_alone m ≡ true → IsOnce s → IsOnce (step m s)
unfolding step on_repeat_toggle on_clear_frames_clicked
step-IsOnce (sender_moves r) s h v = sender_move-IsOnce r s.sender_at s refl v
step-IsOnce main_handles s h v = ground (arith, handle-IsOnce s.posted s refl v)
step-IsOnce join_returns s h v = join_return-IsOnce s.main_at s.sender_at s refl refl v
step-IsOnce clicks_send s h v = cc
step-IsOnce clicks_repeat s h v = ground arith
step-IsOnce (activates f on) s h v = ground arith
step-IsOnce (adds f) s h v = ground arith
step-IsOnce (deletes f) s h v = ground (arith, remove_frame-IsOnce f s v)
step-IsOnce clears s h v = ground (arith, remove_frames-IsOnce s.frames s v)

run-IsOnce : (ms : List Move) (s : Panel) → all_leave_alone ms ≡ true → IsOnce s → IsOnce (run ms s)
unfolding run
run-IsOnce [] s h v = v
run-IsOnce (m ∷ ms) s h v =
    run-IsOnce ms (step m s) (ground arith) (step-IsOnce m s (ground arith) v)

-- A session that the user starts at a panel at rest and does not touch again never hangs, whatever
-- else happens and however long it runs: wherever the main thread waits in `join`, the sending
-- thread has left its loop, and the wait is over at once.
pub one_session_joins :
    (ms : List Move) (frames : List ℕ) (is_active : ℕ → Bool)
    → all_leave_alone ms ≡ true
    → (run ms (step clicks_send (resting frames is_active))).main_at ≡ joining
    → let s = run ms (step clicks_send (resting frames is_active)) in
      (s.sender_at ≡ ended) × ((step join_returns s).main_at ≡ free)
unfolding step join_return on_send_active_frames_toggle start_sending_thread
one_session_joins ms frames is_active h j =
    let start : IsOnce (step clicks_send (resting frames is_active)) = record {
      joins = λ e. cc;
      stops = λ e. cc;
    } in
    let v = run-IsOnce ms _ h start in let e = v.joins j in (e, rw (j, e) refl)
