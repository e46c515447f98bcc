-- ===== src/Panel/Hidden.antt =====
-- The status texts that the sending thread of src/ui/BusControllerPanel.cpp posts before it ends,
-- and what becomes of them.
use tcp_1553_bus_analyzer.Prelude.{
  ℕ, ◌≡◌, ◌⊎◌, refl, Bool, true, false, not, ◌&&◌, List, [], ◌∷◌, ◌++◌, none, some, arith,
}
use tcp_1553_bus_analyzer.Text.{codes}
use tcp_1553_bus_analyzer.Panel.{
  Posted, fetch, stop, fail, tell, reset, show, destroy, SenderAt, no_thread, top, waiting, looping,
  pausing, chosen, ended, Answers, MainAt, joining, ready, Panel, Move, sender_moves, main_handles,
  join_returns, clicks_send, clicks_repeat, activates, adds, deletes, clears, end_round,
  take_frames, sender_move, is_joinable, stop_sending_thread, start_sending_thread,
  on_send_active_frames_toggle, on_repeat_toggle, remove_frame, say, reset_toggle, handle,
  join_return, step, run, resting,
}

-- What is shown once all this is handled, if nothing more is posted but by these: `Sending
-- stopped.`, for a `stopSendingThread` posts it behind them all.
abbrev pub ends_stopped : Bool → List Posted → Bool
ends_stopped now [] = now
ends_stopped now (stop status ∷ ps) = true
ends_stopped now (fail ∷ ps) = true
ends_stopped now (tell status ∷ ps) = ends_stopped false ps
ends_stopped now (reset ∷ ps) = ends_stopped true ps
ends_stopped now (_ ∷ ps) = ends_stopped now ps

ends_stopped-reset : (ps : List Posted) (now : Bool) → ends_stopped now (ps ++ reset ∷ []) ≡ true
ends_stopped-reset [] now = refl
ends_stopped-reset (fetch ∷ ps) now = ends_stopped-reset ps now
ends_stopped-reset (stop status ∷ ps) now = refl
ends_stopped-reset (fail ∷ ps) now = refl
ends_stopped-reset (tell status ∷ ps) now = ends_stopped-reset ps false
ends_stopped-reset (reset ∷ ps) now = ends_stopped-reset ps true
ends_stopped-reset (show f ∷ ps) now = ends_stopped-reset ps now
ends_stopped-reset (destroy f ∷ ps) now = ends_stopped-reset ps now

ends_stopped-destroy :
    (f : ℕ) (ps : List Posted) (now : Bool)
    → ends_stopped now (ps ++ destroy f ∷ []) ≡ ends_stopped now ps
ends_stopped-destroy f [] now = refl
ends_stopped-destroy f (fetch ∷ ps) now = ends_stopped-destroy f ps now
ends_stopped-destroy f (stop status ∷ ps) now = refl
ends_stopped-destroy f (fail ∷ ps) now = refl
ends_stopped-destroy f (tell status ∷ ps) now = ends_stopped-destroy f ps false
ends_stopped-destroy f (reset ∷ ps) now = ends_stopped-destroy f ps true
ends_stopped-destroy f (show g ∷ ps) now = ends_stopped-destroy f ps now
ends_stopped-destroy f (destroy g ∷ ps) now = ends_stopped-destroy f ps now

-- Where there is no thread, `Sending stopped.` is what will be shown at the end, or it is shown and
-- stays.
record IsHidden (s : Panel) : Type 0 where
  hides :
      is_joinable s.sender_at ≡ false
      → (ends_stopped false s.posted ≡ true)
        ⊎ ((ends_stopped true s.posted ≡ true) × (s.status_text ≡ codes "Sending stopped."))

sender_move-IsHidden :
    (r : Answers) (p : SenderAt) (s : Panel)
    → s.sender_at ≡ p
    → IsHidden s
    → IsHidden (sender_move r p s)
unfolding sender_move end_round take_frames
sender_move-IsHidden r no_thread s e v = v
sender_move-IsHidden r top s e v = ground arith
sender_move-IsHidden r waiting s e v = ground arith
sender_move-IsHidden r (looping [] any) s e v = ground arith
sender_move-IsHidden r (looping (f ∷ fs) any) s e v = ground arith
sender_move-IsHidden r (chosen f fs any) s e v = ground arith
sender_move-IsHidden r pausing s e v = ground arith
sender_move-IsHidden r ended s e v = v

stop_sending_thread-IsHidden : (s : Panel) → IsHidden (stop_sending_thread s)
unfolding stop_sending_thread
stop_sending_thread-IsHidden s = ground (arith, ends_stopped-reset s.posted false)

handle-IsHidden :
    (ps : List Posted) (s : Panel) → s.posted ≡ ps → IsHidden s → IsHidden (handle ps s)
unfolding handle say reset_toggle
handle-IsHidden [] s e v = v
handle-IsHidden (fetch ∷ later) s e v = ground arith
handle-IsHidden (stop none ∷ later) s e v =
    stop_sending_thread-IsHidden (record s { posted = later })
handle-IsHidden (stop (some status) ∷ later) s e v =
    stop_sending_thread-IsHidden (record s { posted = later; status_text = status })
handle-IsHidden (fail ∷ later) s e v =
    stop_sending_thread-IsHidden
      (record s { posted = later; status_text = codes "BC init failed: " ++ s.last_error })
handle-IsHidden (tell status ∷ later) s e v = ground arith
handle-IsHidden (reset ∷ later) s e v = ground arith
handle-IsHidden (show f ∷ later) s e v = ground arith
handle-IsHidden (destroy f ∷ later) s e v = ground arith

join_return-IsHidden :
    (m : MainAt) (p : SenderAt) (s : Panel)
    → s.sender_at ≡ p
    → IsHidden s
    → IsHidden (join_return m p s)
unfolding join_return
join_return-IsHidden m p s e v = ground (arith, ends_stopped-reset s.posted false)

remove_frame-IsHidden : (f : ℕ) (s : Panel) → IsHidden s → IsHidden (remove_frame f s)
unfolding remove_frame
remove_frame-IsHidden f s v =
    ground (arith, ends_stopped-destroy f s.posted false, ends_stopped-destroy f s.posted true)

toggle-IsHidden :
    (s : Panel)
    → IsHidden s
    → (on : Bool) → IsHidden (on_send_active_frames_toggle (record s { send_toggle = on }))
unfolding on_send_active_frames_toggle start_sending_thread
toggle-IsHidden s v false = stop_sending_thread-IsHidden (record s { send_toggle = false })
toggle-IsHidden s v true = ground arith

-- A move that is no click on `Clear All`, which has a text of its own.
abbrev pub spares_status : Move → Bool
spares_status clears = false
spares_status _ = true

abbrev pub all_spare_status : List Move → Bool
all_spare_status [] = true
all_spare_status (m ∷ ms) = spares_status m && all_spare_status ms

step-IsHidden : (m : Move) (s : Panel) → spares_status m ≡ true → IsHidden s → IsHidden (step m s)
unfolding step on_repeat_toggle
step-IsHidden (sender_moves r) s h v = sender_move-IsHidden r s.sender_at s refl v
step-IsHidden main_handles s h v = ground (arith, handle-IsHidden s.posted s refl v)
step-IsHidden join_returns s h v = join_return-IsHidden s.main_at s.sender_at s refl v
step-IsHidden clicks_send s h v = ground (arith, toggle-IsHidden s v (not s.send_toggle))
step-IsHidden clicks_repeat s h v = ground arith
step-IsHidden (activates f on) s h v = ground arith
step-IsHidden (adds f) s h v = ground arith
step-IsHidden (deletes f) s h v = ground (arith, remove_frame-IsHidden f s v)
step-IsHidden clears s h v = cc

run-IsHidden :
    (ms : List Move) (s : Panel) → all_spare_status ms ≡ true → IsHidden s → IsHidden (run ms s)
unfolding run
run-IsHidden [] s h v = v
run-IsHidden (m ∷ ms) s h v =
    run-IsHidden ms (step m s) (ground arith) (step-IsHidden m s (ground arith) v)

-- The bug: from the first click on `Send Active Frames` of a panel at rest, under every schedule
-- without a click on `Clear All`: wherever the sending thread is joined and no closure is left to
-- be run, the status text is `Sending stopped.`, whatever error or reason the thread has posted.
pub error_hidden :
    (ms : List Move) (frames : List ℕ) (is_active : ℕ → Bool)
    → all_spare_status ms ≡ true
    → (run ms (step clicks_send (resting frames is_active))).sender_at ≡ no_thread
    → (run ms (step clicks_send (resting frames is_active))).posted ≡ []
    → (run ms (step clicks_send (resting frames is_active))).status_text ≡ codes "Sending stopped."
unfolding step on_send_active_frames_toggle start_sending_thread
error_hidden ms frames is_active h gone handled =
    let start : IsHidden (step clicks_send (resting frames is_active)) = record {
      hides = λ e. cc;
    } in
    let v = run-IsHidden ms _ h start in ground (arith, v.hides (rw gone refl), gone, handled)

-- The panel that the user has stopped and started again before what the last session posted was
-- handled.
abbrev pub restart : List Move
restart = clicks_send ∷ clicks_send ∷ sender_moves ready ∷ join_returns ∷ clicks_send ∷ []

-- The bug: `stopSendingThread` of a thread's end is posted without a word on which session it is
-- meant for. Where the user stops the sending and starts it again before the main thread comes to
-- what the first thread has posted, that closure ends the second session: `m_isSending` is cleared
-- and the main thread joins the new thread, which has sent nothing.
pub restart_is_stopped :
    (frames : List ℕ) (is_active : ℕ → Bool)
    → let s = run restart (resting frames is_active) in
      let t = step main_handles s in
      (s.is_sending ≡ true)
      × (s.sender_at ≡ top)
      × (t.is_sending ≡ false)
      × (t.main_at ≡ joining)
      × (t.sender_at ≡ top)
      × (t.sent ≡ [])
unfolding run step on_send_active_frames_toggle start_sending_thread sender_move handle say
    stop_sending_thread join_return
restart_is_stopped frames is_active = (refl, refl, refl, refl, refl, refl)
