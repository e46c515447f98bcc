-- ===== src/Panel/Shown.antt =====
-- What the two toggles of src/ui/BusControllerPanel.cpp show, next to the sending thread.
use tcp_1553_bus_analyzer.Prelude.{
  ℕ, ◌≡◌, refl, Bool, true, false, not, ◌||◌, List, [], ◌∷◌, ◌++◌, none, some, arith,
}
use tcp_1553_bus_analyzer.Text.{codes}
use tcp_1553_bus_analyzer.Panel.{
  Posted, fetch, stop, fail, tell, reset, show, destroy, SenderAt, no_thread, top, waiting, looping,
  pausing, chosen, ended, Answers, MainAt, Panel, Move, sender_moves, main_handles, join_returns,
  clicks_send, clicks_repeat, activates, adds, deletes, clears, end_round, take_frames, shows,
  sender_move, is_joinable, stop_sending_thread, start_sending_thread, on_send_active_frames_toggle,
  repeat_text, on_repeat_toggle, remove_frame, remove_frames, on_clear_frames_clicked, say,
  reset_toggle, handle, join_return, step, run, resting,
}
use tcp_1553_bus_analyzer.Panel.Invariant.{IsOrderly, step-IsOrderly, resting-IsOrderly}

abbrev is_reset : Posted → Bool
is_reset reset = true
is_reset _ = false

-- The toggle is still to be put back.
abbrev pub has_reset : List Posted → Bool
has_reset [] = false
has_reset (p ∷ ps) = is_reset p || has_reset ps

has_reset-append : (ps qs : List Posted) → has_reset (ps ++ qs) ≡ has_reset ps || has_reset qs
has_reset-append [] qs = refl
has_reset-append (p ∷ ps) qs = ground (arith, has_reset-append ps qs)

-- The flag of `Repeat` is its toggle, which its label names; there is a thread where the flag of
-- sending is set; and where there is none, and nothing is left to put back, the toggle of sending
-- is up and offers to send.
pub record IsShown (s : Panel) : Type 0 where
  pub repeats : s.is_repeat_on ≡ s.repeat_toggle
  pub labelled : s.repeat_label ≡ repeat_text s.repeat_toggle
  pub threaded : s.is_sending ≡ true → is_joinable s.sender_at ≡ true
  pub up : is_joinable s.sender_at ≡ false → has_reset s.posted ≡ false → s.send_toggle ≡ false
  pub offers :
      is_joinable s.sender_at ≡ false
      → has_reset s.posted ≡ false
      → s.send_label ≡ codes "Send Active Frames"

sender_move-IsShown :
    (r : Answers) (p : SenderAt) (s : Panel)
    → s.sender_at ≡ p
    → IsShown s
    → IsShown (sender_move r p s)
unfolding sender_move end_round take_frames
sender_move-IsShown r no_thread s e v = v
sender_move-IsShown r top s e v = ground arith
sender_move-IsShown r waiting s e v = ground arith
sender_move-IsShown r (looping [] any) s e v = ground arith
sender_move-IsShown r (looping (f ∷ fs) any) s e v = ground arith
sender_move-IsShown r (chosen f fs any) s e v =
    ground (arith, has_reset-append s.posted (shows r.is_answered f))
sender_move-IsShown r pausing s e v = ground arith
sender_move-IsShown r ended s e v = v

remove_frame-IsShown : (f : ℕ) (s : Panel) → IsShown s → IsShown (remove_frame f s)
unfolding remove_frame
remove_frame-IsShown f s v = ground (arith, has_reset-append s.posted (destroy f ∷ []))

remove_frames-IsShown : (fs : List ℕ) (s : Panel) → IsShown s → IsShown (remove_frames fs s)
unfolding remove_frames
remove_frames-IsShown [] s v = v
remove_frames-IsShown (f ∷ fs) s v = remove_frames-IsShown fs _ (remove_frame-IsShown f s v)

stop_sending_thread-IsShown :
    (s : Panel)
    → s.is_repeat_on ≡ s.repeat_toggle
    → s.repeat_label ≡ repeat_text s.repeat_toggle
    → IsShown (stop_sending_thread s)
unfolding stop_sending_thread
stop_sending_thread-IsShown s e f = ground (arith, has_reset-append s.posted (reset ∷ []))

handle-IsShown : (ps : List Posted) (s : Panel) → s.posted ≡ ps → IsShown s → IsShown (handle ps s)
unfolding handle say reset_toggle
handle-IsShown [] s e v = v
handle-IsShown (fetch ∷ later) s e v = ground arith
handle-IsShown (stop none ∷ later) s e v =
    stop_sending_thread-IsShown (record s { posted = later }) v.repeats v.labelled
handle-IsShown (stop (some status) ∷ later) s e v =
    stop_sending_thread-IsShown (record s { posted = later; status_text = status }) v.repeats
      v.labelled
handle-IsShown (fail ∷ later) s e v =
    stop_sending_thread-IsShown
      (record s { posted = later; status_text = codes "BC init failed: " ++ s.last_error })
      v.repeats v.labelled
handle-IsShown (tell status ∷ later) s e v = ground arith
handle-IsShown (show f ∷ later) s e v = ground arith
handle-IsShown (reset ∷ later) s e v = ground arith
handle-IsShown (destroy f ∷ later) s e v = ground arith

join_return-IsShown :
    (m : MainAt) (p : SenderAt) (s : Panel)
    → s.main_at ≡ m
    → s.sender_at ≡ p
    → IsOrderly s
    → IsShown s
    → IsShown (join_return m p s)
unfolding join_return
join_return-IsShown m p s e f o v = ground (arith, has_reset-append s.posted (reset ∷ []))

toggle-IsShown :
    (s : Panel)
    → IsShown s
    → (on : Bool) → IsShown (on_send_active_frames_toggle (record s { send_toggle = on }))
unfolding on_send_active_frames_toggle start_sending_thread
toggle-IsShown s v false =
    stop_sending_thread-IsShown (record s { send_toggle = false }) v.repeats v.labelled
toggle-IsShown s v true = ground arith

step-IsShown : (m : Move) (s : Panel) → IsOrderly s → IsShown s → IsShown (step m s)
unfolding step on_repeat_toggle on_clear_frames_clicked
step-IsShown (sender_moves r) s o v = sender_move-IsShown r s.sender_at s refl v
step-IsShown main_handles s o v = ground (arith, handle-IsShown s.posted s refl v)
step-IsShown join_returns s o v = join_return-IsShown s.main_at s.sender_at s refl refl o v
step-IsShown clicks_send s o v = ground (arith, toggle-IsShown s v (not s.send_toggle))
step-IsShown clicks_repeat s o v = ground arith
step-IsShown (activates f on) s o v = ground arith
step-IsShown (adds f) s o v = ground arith
step-IsShown (deletes f) s o v = ground (arith, remove_frame-IsShown f s v)
step-IsShown clears s o v = ground (arith, remove_frames-IsShown s.frames s v)

run-IsShown_from : (ms : List Move) (s : Panel) → IsOrderly s → IsShown s → IsShown (run ms s)
unfolding run
run-IsShown_from [] s o v = v
run-IsShown_from (m ∷ ms) s o v =
    run-IsShown_from ms (step m s) (step-IsOrderly m s o) (step-IsShown m s o v)

-- Under every schedule of a new panel: the flag of `Repeat` is the value of its toggle, which its
-- label names; a thread that is not joined is there wherever `m_isSending` is set; and where there
-- is none, and no `stopSendingThread` has left the toggle to be put back, the toggle of sending is
-- up and offers to send.
pub run-IsShown :
    (ms : List Move) (frames : List ℕ) (is_active : ℕ → Bool)
    → IsShown (run ms (resting frames is_active))
run-IsShown ms frames is_active =
    let v : IsShown (resting frames is_active) = record {
      repeats = refl;
      labelled = refl;
      threaded = λ e. cc;
      up = λ e f. refl;
      offers = λ e f. refl;
    } in
    run-IsShown_from ms (resting frames is_active) (resting-IsOrderly frames is_active) v
