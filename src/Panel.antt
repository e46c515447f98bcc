-- ===== src/Panel.antt =====
-- src/ui/BusControllerPanel.hpp and src/ui/BusControllerPanel.cpp: the list of frames and the
-- thread that sends them, `sendActiveFramesLoop`, next to the main thread. A frame is a number, the
-- pointer to its component. A move is one event of the main thread, or what the sender does from
-- one access of a member that the main thread changes to the next; a schedule is a list of moves,
-- and one that its thread cannot make where it stands changes nothing. `CallAfter` puts a closure
-- at the end of `posted`; `sent` and `shown` list the frames whose `sendFrame` was called and whose
-- received words were shown, the newest first.
mod State
pub mod Invariant
pub mod Stopping
pub mod Deleting
pub mod Round
pub mod Editing
pub mod Shown
pub mod Hidden
pub mod Once
use tcp_1553_bus_analyzer.Text.{Text, codes}
use tcp_1553_bus_analyzer.Prelude.{
  ℕ, Bool, true, false, not, List, [], ◌∷◌, ◌++◌, Option, none, some, ◌==◌, if◌then◌else◌,
}
pub use State.{
  Posted, fetch, stop, fail, tell, reset, show, destroy, SenderAt, no_thread, top, waiting, looping,
  pausing, chosen, ended, Answers, ready, answered, refused, MainAt, free, joining, terminated,
  Panel, Move, sender_moves, main_handles, join_returns, clicks_send, clicks_repeat, activates,
  adds, deletes, clears,
}
unfoldable pub use State.{is_joinable, repeat_text, resting}

abbrev pub without : ℕ → List ℕ → List ℕ
without f [] = []
without f (g ∷ gs) = if g == f then without f gs else g ∷ without f gs

-- Behind the loop: `stopSendingThread` is posted, after what the last round has posted.
abbrev finish : List Posted → Panel → Panel
finish before s = record s { posted = s.posted ++ before ++ stop none ∷ []; sender_at = ended }

-- What a round that has sent nothing posts.
abbrev pub idle_round : Bool → List Posted
idle_round sent_any = if sent_any then [] else tell (codes "All frames are disabled.") ∷ []

-- The end of a round, from `if (!m_isSending) break;` to the pause of one that has sent nothing.
unfoldable pub end_round : Bool → Panel → Panel
end_round sent_any s =
    if not s.is_sending
    then finish [] s
    else record s { posted = s.posted ++ idle_round sent_any; sender_at = pausing }

-- What the promise gives.
unfoldable pub take_frames : Option (List ℕ) → Panel → Panel
take_frames none s = s
take_frames (some []) s =
    finish (stop (some (codes "No frames available.")) ∷ []) (record s { promise = none })
take_frames (some (f ∷ fs)) s = record s { promise = none; sender_at = looping (f ∷ fs) false }

-- `getLastError`, after a call of `initialize` that may have set it.
abbrev pub note : Option Text → Text → Text
note none error = error
note (some error) _ = error

-- What `sendFrame` posts where the frame has received words.
abbrev pub shows : Bool → ℕ → List Posted
shows is_answered f = if is_answered then show f ∷ [] else []

-- `sendActiveFramesLoop`, one move.
unfoldable pub sender_move : Answers → SenderAt → Panel → Panel
sender_move r no_thread s = s
sender_move r top s =
    if not s.is_sending
    then finish [] s
    else if r.is_refused
    then finish (fail ∷ []) (record s { last_error = note r.error_text s.last_error })
    else record s {
      last_error = note r.error_text s.last_error;
      posted = s.posted ++ fetch ∷ [];
      promise = none;
      sender_at = waiting;
    }
sender_move r waiting s = take_frames s.promise s
sender_move r (looping [] sent_any) s = end_round sent_any s
sender_move r (looping (f ∷ fs) sent_any) s =
    if s.is_sending then record s { sender_at = chosen f fs sent_any } else end_round sent_any s
sender_move r (chosen f fs sent_any) s =
    if s.is_active f
    then record s {
      sent = f ∷ s.sent;
      last_error = note r.error_text s.last_error;
      posted = s.posted ++ shows r.is_answered f;
      sender_at = looping fs true;
    }
    else record s { sender_at = looping fs sent_any }
sender_move r pausing s = if s.is_repeat_on then record s { sender_at = top } else finish [] s
sender_move r ended s = s

-- `stopSendingThread`, up to `join` where there is a thread to join.
unfoldable pub stop_sending_thread : Panel → Panel
stop_sending_thread s =
    if is_joinable s.sender_at
    then record s { is_sending = false; main_at = joining }
    else record s { is_sending = false; main_at = free; posted = s.posted ++ reset ∷ [] }

-- `startSendingThread`.
unfoldable pub start_sending_thread : Panel → Panel
start_sending_thread s = if s.is_sending then s else record s {
  is_sending = true;
  is_repeat_on = s.repeat_toggle;
  sender_at = top;
  main_at = if is_joinable s.sender_at then terminated else free;
}

-- `onSendActiveFramesToggle` and `onRepeatToggle`, once the click has set the toggle.
unfoldable pub on_send_active_frames_toggle : Panel → Panel
on_send_active_frames_toggle s =
    if not s.send_toggle
    then stop_sending_thread s
    else if s.is_sending
    then s
    else start_sending_thread (record s { send_label = codes "Sending..." })

unfoldable pub on_repeat_toggle : Panel → Panel
on_repeat_toggle s = record s {
  repeat_label = repeat_text s.repeat_toggle;
  is_repeat_on = s.repeat_toggle;
}

-- `~BusControllerPanel`.
unfoldable pub destroy_panel : Panel → Panel
unfolding stop_sending_thread
destroy_panel s = stop_sending_thread s

unfoldable pub remove_frame : ℕ → Panel → Panel
remove_frame f s = record s { frames = without f s.frames; posted = s.posted ++ destroy f ∷ [] }

unfoldable pub remove_frames : List ℕ → Panel → Panel
remove_frames [] s = s
remove_frames (f ∷ fs) s = remove_frames fs (remove_frame f s)

unfoldable pub on_clear_frames_clicked : Panel → Panel
on_clear_frames_clicked s =
    if s.is_sending
    then record s {
      boxes = s.boxes ++ codes "Please stop sending frames before clearing the list." ∷ [];
    }
    else record (remove_frames s.frames s) { status_text = codes "All frames cleared." }

unfoldable pub say : Option Text → Panel → Panel
say none s = s
say (some status) s = record s { status_text = status }

-- The closure at the end of `stopSendingThread`; the toggle that it enables is never disabled.
unfoldable pub reset_toggle : Panel → Panel
reset_toggle s = record s {
  send_toggle = false;
  send_label = codes "Send Active Frames";
  status_text = codes "Sending stopped.";
}

-- One event that was posted.
unfoldable pub handle : List Posted → Panel → Panel
handle [] s = s
handle (fetch ∷ later) s = record s { posted = later; promise = some s.frames }
handle (stop status ∷ later) s = stop_sending_thread (say status (record s { posted = later }))
handle (fail ∷ later) s =
    stop_sending_thread
      (say (some (codes "BC init failed: " ++ s.last_error)) (record s { posted = later }))
handle (tell status ∷ later) s = record s { posted = later; status_text = status }
handle (reset ∷ later) s = reset_toggle (record s { posted = later })
handle (show f ∷ later) s = record s { posted = later; shown = f ∷ s.shown }
handle (destroy f ∷ later) s = record s {
  posted = later;
  is_freed = λ g. if g == f then true else s.is_freed g;
}

-- An event of the main thread, taken where it is free.
abbrev when_free : MainAt → Panel → Panel → Panel
when_free free s t = t
when_free _ s t = s

unfoldable pub join_return : MainAt → SenderAt → Panel → Panel
join_return joining ended s = record s {
  sender_at = no_thread;
  main_at = free;
  posted = s.posted ++ reset ∷ [];
}
join_return _ _ s = s

unfoldable pub step : Move → Panel → Panel
step (sender_moves r) s = sender_move r s.sender_at s
step main_handles s = when_free s.main_at s (handle s.posted s)
step join_returns s = join_return s.main_at s.sender_at s
step clicks_send s =
    when_free s.main_at s
      (on_send_active_frames_toggle (record s { send_toggle = not s.send_toggle }))
step clicks_repeat s =
    when_free s.main_at s (on_repeat_toggle (record s { repeat_toggle = not s.repeat_toggle }))
step (activates f on) s =
    when_free s.main_at s (record s { is_active = λ g. if g == f then on else s.is_active g })
step (adds f) s = when_free s.main_at s (record s { frames = s.frames ++ f ∷ [] })
step (deletes f) s = when_free s.main_at s (remove_frame f s)
step clears s = when_free s.main_at s (on_clear_frames_clicked s)

unfoldable pub run : List Move → Panel → Panel
run [] s = s
run (m ∷ ms) s = run ms (step m s)
