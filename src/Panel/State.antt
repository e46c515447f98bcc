-- ===== src/Panel/State.antt =====
-- The state of src/ui/BusControllerPanel.hpp and of the two threads that share it, and the moves of
-- these.
use tcp_1553_bus_analyzer.Prelude.{
  ℕ, Bool, true, false, List, [], Option, none, some, if◌then◌else◌,
}
use tcp_1553_bus_analyzer.Text.{Text, codes}

-- What is posted to the main thread: fetching the frames for the sender; `stopSendingThread`,
-- behind a status text or by itself, or behind the text of an error that is read when the closure
-- runs; a status text; the end of `stopSendingThread`, which puts the toggle back; the words that a
-- frame has received, to be shown; and the `Destroy` of a frame.
pub data Posted : Type 0 where
  fetch : Posted
  stop : Option Text → Posted
  fail : Posted
  tell : Text → Posted
  reset : Posted
  show : ℕ → Posted
  destroy : ℕ → Posted

-- Where the sending thread stands: not there, or joined; at the condition of the loop; at
-- `future.get`; at the next frame of the list, with `sentAny`; behind the round, at the test of
-- `m_isRepeatOn`; behind the test of `m_isSending`, with the frame that it goes to; at its end, not
-- joined.
pub data SenderAt : Type 0 where
  no_thread : SenderAt
  top : SenderAt
  waiting : SenderAt
  looping : List ℕ → Bool → SenderAt
  pausing : SenderAt
  chosen : ℕ → List ℕ → Bool → SenderAt
  ended : SenderAt

-- What the controller does for a move of the sender: the text that `initialize`, where the move
-- calls it, leaves as `getLastError`, if it sets one; whether `initialize` has failed; and whether
-- `sendFrame` has words to show.
pub record Answers : Type 0 where
  pub error_text : Option Text
  pub is_refused : Bool
  pub is_answered : Bool

-- The controller was ready, and there is nothing to show, or there is.
abbrev pub ready : Answers
ready = record { error_text = none; is_refused = false; is_answered = false }

abbrev pub answered : Bool → Answers
answered shows = record { error_text = none; is_refused = false; is_answered = shows }

abbrev pub refused : Text → Answers
refused error = record { error_text = some error; is_refused = true; is_answered = false }

-- The main thread takes events, or is in the `join` of `stopSendingThread`; `terminated` is what
-- assigning to a joinable `std::thread` does.
pub data MainAt : Type 0 where
  free : MainAt
  joining : MainAt
  terminated : MainAt

pub record Panel : Type 0 where
  pub frames : List ℕ
  pub is_active : ℕ → Bool
  pub is_freed : ℕ → Bool
  pub repeat_toggle : Bool
  pub repeat_label : Text
  pub send_toggle : Bool
  pub send_label : Text
  pub status_text : Text
  pub last_error : Text
  pub boxes : List Text
  pub is_repeat_on : Bool
  pub is_sending : Bool
  pub posted : List Posted
  pub promise : Option (List ℕ)
  pub sender_at : SenderAt
  pub main_at : MainAt
  pub sent : List ℕ
  pub shown : List ℕ

-- The moves of the sender, and the events of the main thread: a posted closure, the return of
-- `join`, a click on each of the two toggles, the toggle of a frame, a new frame, the deletion of
-- one (an edited frame is deleted and added), and `Clear All`.
pub data Move : Type 0 where
  sender_moves : Answers → Move
  main_handles : Move
  join_returns : Move
  clicks_send : Move
  clicks_repeat : Move
  activates : ℕ → Bool → Move
  adds : ℕ → Move
  deletes : ℕ → Move
  clears : Move

abbrev pub is_joinable : SenderAt → Bool
is_joinable no_thread = false
is_joinable _ = true

abbrev pub repeat_text : Bool → Text
repeat_text on = if on then codes "Repeat On" else codes "Repeat Off"

-- A panel with the given frames, of which none was freed, and no thread: the two toggles are as
-- the constructor makes them.
abbrev pub resting : List ℕ → (ℕ → Bool) → Panel
resting frames is_active = record {
  frames = frames;
  is_active = is_active;
  is_freed = λ f. false;
  repeat_toggle = false;
  repeat_label = codes "Repeat Off";
  send_toggle = false;
  send_label = codes "Send Active Frames";
  status_text = [];
  last_error = [];
  boxes = [];
  is_repeat_on = false;
  is_sending = false;
  posted = [];
  promise = none;
  sender_at = no_thread;
  main_at = free;
  sent = [];
  shown = [];
}
