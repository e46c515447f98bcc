-- ===== src/Panel/Invariant.antt =====
-- The start and the join of the sending thread of src/ui/BusControllerPanel.cpp.
use tcp_1553_bus_analyzer.Prelude.{ℕ, ◌≡◌, ◌≢◌, refl, Bool, false, List, [], ◌∷◌, none, some, arith}
use tcp_1553_bus_analyzer.Panel.{
  Posted, fetch, stop, fail, show, destroy, SenderAt, no_thread, top, waiting, looping, pausing,
  chosen, ended, MainAt, free, joining, terminated, Panel, Move, sender_moves, main_handles,
  join_returns, Answers, clicks_send, clicks_repeat, tell, reset, say, reset_toggle,
  on_send_active_frames_toggle, on_repeat_toggle, on_clear_frames_clicked, activates, adds, deletes,
  clears, end_round, take_frames, sender_move, is_joinable, stop_sending_thread,
  start_sending_thread, remove_frame, remove_frames, handle, join_return, step, run, resting,
}

-- The main thread is not terminated; it joins only with the flag cleared; and where it is free and
-- the flag is clear, there is no thread.
pub record IsOrderly (s : Panel) : Type 0 where
  pub alive : s.main_at ≢ terminated
  pub stopped : s.main_at ≡ joining → s.is_sending ≡ false
  pub joined : s.main_at ≡ free → s.is_sending ≡ false → is_joinable s.sender_at ≡ false

sender_move-IsOrderly :
    (r : Answers) (p : SenderAt) (s : Panel)
    → s.sender_at ≡ p
    → IsOrderly s
    → IsOrderly (sender_move r p s)
unfolding sender_move end_round take_frames
sender_move-IsOrderly r no_thread s e v = v
sender_move-IsOrderly r top s e v = ground arith
sender_move-IsOrderly r waiting s e v = ground arith
sender_move-IsOrderly r (looping [] any) s e v = ground arith
sender_move-IsOrderly r (looping (f ∷ fs) any) s e v = ground arith
sender_move-IsOrderly r (chosen f fs any) s e v = ground arith
sender_move-IsOrderly r pausing s e v = ground arith
sender_move-IsOrderly r ended s e v = v

remove_frames-IsOrderly : (fs : List ℕ) (s : Panel) → IsOrderly s → IsOrderly (remove_frames fs s)
unfolding remove_frames remove_frame
remove_frames-IsOrderly [] s v = v
remove_frames-IsOrderly (f ∷ fs) s v = remove_frames-IsOrderly fs _ (ground arith)

handle-IsOrderly :
    (ps : List Posted) (s : Panel) → s.main_at ≡ free → IsOrderly s → IsOrderly (handle ps s)
unfolding handle stop_sending_thread say reset_toggle
handle-IsOrderly [] s e v = v
handle-IsOrderly (fetch ∷ later) s e v = ground arith
handle-IsOrderly (stop none ∷ later) s e v = ground arith
handle-IsOrderly (stop (some status) ∷ later) s e v = ground arith
handle-IsOrderly (tell status ∷ later) s e v = ground arith
handle-IsOrderly (show f ∷ later) s e v = ground arith
handle-IsOrderly (fail ∷ later) s e v = ground arith
handle-IsOrderly (reset ∷ later) s e v = ground arith
handle-IsOrderly (destroy f ∷ later) s e v = ground arith

join_return-IsOrderly :
    (m : MainAt) (p : SenderAt) (s : Panel)
    → s.main_at ≡ m
    → s.sender_at ≡ p
    → IsOrderly s
    → IsOrderly (join_return m p s)
unfolding join_return
join_return-IsOrderly m p s e f v = ground arith

pub step-IsOrderly : (m : Move) (s : Panel) → IsOrderly s → IsOrderly (step m s)
unfolding step stop_sending_thread start_sending_thread on_send_active_frames_toggle
    on_repeat_toggle on_clear_frames_clicked remove_frame
step-IsOrderly (sender_moves r) s v = sender_move-IsOrderly r s.sender_at s refl v
step-IsOrderly main_handles s v = ground (arith, handle-IsOrderly s.posted s)
step-IsOrderly join_returns s v = join_return-IsOrderly s.main_at s.sender_at s refl refl v
step-IsOrderly clicks_send s v = ground arith
step-IsOrderly clicks_repeat s v = ground arith
step-IsOrderly (activates f on) s v = ground arith
step-IsOrderly (adds f) s v = ground arith
step-IsOrderly (deletes f) s v = ground arith
step-IsOrderly clears s v = ground (arith, remove_frames-IsOrderly s.frames s v)

pub run-IsOrderly : (ms : List Move) (s : Panel) → IsOrderly s → IsOrderly (run ms s)
unfolding run
run-IsOrderly [] s v = v
run-IsOrderly (m ∷ ms) s v = run-IsOrderly ms (step m s) (step-IsOrderly m s v)

pub resting-IsOrderly :
    (frames : List ℕ) (is_active : ℕ → Bool) → IsOrderly (resting frames is_active)
resting-IsOrderly frames is_active = record {
  alive = λ e. cc;
  stopped = λ e. cc;
  joined = λ e f. refl;
}

-- Under every schedule the program is never terminated by starting the sending thread where the
-- last one was not joined.
pub never_terminates :
    (ms : List Move) (frames : List ℕ) (is_active : ℕ → Bool)
    → let s = run ms (resting frames is_active) in s.main_at ≢ terminated
never_terminates ms frames is_active =
    let v = run-IsOrderly ms _ (resting-IsOrderly frames is_active) in v.alive
