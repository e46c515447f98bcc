-- ===== src/Tests/PanelTests.antt =====
-- The theorems on the controller's panel and its frames at concrete inputs.
use tcp_1553_bus_analyzer.Prelude.{
  ℕ, ◌+◌, ◌≤◌, length, ◌≡◌, refl, Bool, true, false, List, [], ◌∷◌, some, none, get_or, arith,
}
use tcp_1553_bus_analyzer.Prelude.Int.{pos, minus_one}
use tcp_1553_bus_analyzer.Text.{Text, codes, hex4}
use tcp_1553_bus_analyzer.Common.{rt_to_rt}
use tcp_1553_bus_analyzer.Parser.{word_count}
use tcp_1553_bus_analyzer.Parser.RoundTrip.{transaction_of}
use tcp_1553_bus_analyzer.Bc.{ServerAnswers, is_ready}
use tcp_1553_bus_analyzer.Bc.Send.{packet_of}
use tcp_1553_bus_analyzer.Frame.{FrameComponent, send_frame, show_received, summary_word}
use tcp_1553_bus_analyzer.Frame.Summary.{summary_word_on_bus}
use tcp_1553_bus_analyzer.Frame.Received.{send_frame_shows, send_frame_rt_to_rt}
use tcp_1553_bus_analyzer.Panel.{
  deletes, without, no_thread, chosen, free, joining, Panel, Move, handle, say, take_frames,
  stop_sending_thread, sender_moves, main_handles, join_returns, clicks_send, clicks_repeat, ready,
  refused, reset_toggle, join_return, fetch, waiting, ended, destroy_panel,
  on_send_active_frames_toggle, start_sending_thread, sender_move, step, run, resting,
}
use tcp_1553_bus_analyzer.Panel.Shown.{IsShown, run-IsShown}
use tcp_1553_bus_analyzer.Panel.Hidden.{error_hidden}
use tcp_1553_bus_analyzer.Panel.Once.{one_session_joins}
use tcp_1553_bus_analyzer.Panel.Stopping.{
  IsStuck, asking, stop_deadlocks, stop_returns, sends_no_more,
}
use tcp_1553_bus_analyzer.Panel.Deleting.{delete_dangles}
use tcp_1553_bus_analyzer.Tests.Samples.{
  words, sample, sample-IsPacket, sample_frame, connected, answered,
}

abbrev frame : FrameComponent
frame = record {
  config = sample_frame;
  label = [];
  summary = [];
  data_labels = [];
  is_active = true;
  toggle_label = [];
  xfer_id = 0;
  hdr_id = 0;
  buf_id = 0;
}

abbrev unused : ServerAnswers
unused = record {
  socket_fd = minus_one;
  reuse = pos 0;
  bound = pos 0;
  listening = pos 0;
  errno = 0;
}

abbrev no_error_text : ℕ → Text
no_error_text errno = []

connected-is_ready : is_ready connected ≡ true
unfolding is_ready
connected-is_ready = refl

summary_word_on_bus_example :
    (transaction_of (packet_of sample_frame)).cmd1 ≡ summary_word sample_frame + 1024
summary_word_on_bus_example = summary_word_on_bus sample_frame 2 6 2 (record {
  rt_is = refl;
  sa_is = refl;
  wc_is = refl;
  rt_range = omega arith;
  sa_range = omega arith;
  wc_range = omega arith;
})

send_frame_shows_example :
    (received : List ℕ) × ((send_frame no_error_text unused none answered words frame
        connected).posted
      ≡ some received)
    × (get_or (show_received received frame).data_labels 1 ([], false) ≡ (hex4 0xbeef, true))
unfolding get_or
send_frame_shows_example =
    send_frame_shows no_error_text unused none answered words frame connected connected-is_ready
      sample 1
      (record { connected = refl; written = refl; asks = refl; size = refl; header = omega arith })
      sample-IsPacket refl refl (unfold word_count in omega arith) refl

abbrev relayed : FrameComponent
relayed = record frame { config = record sample_frame { mode = rt_to_rt } }

send_frame_rt_to_rt_example :
    ((send_frame no_error_text unused none answered words relayed connected).posted ≡ some words)
    × ((packet_of (show_received words relayed).config).data_words ≡ words)
send_frame_rt_to_rt_example =
    send_frame_rt_to_rt no_error_text unused none answered words relayed connected
      connected-is_ready refl refl refl refl (ground arith)

abbrev all_active : ℕ → Bool
all_active f = true

abbrev two : List ℕ
two = 1 ∷ 2 ∷ []

-- The sender waits for the frames.
abbrev asked : Panel
asked = record (resting two all_active) {
  is_sending = true;
  send_toggle = true;
  posted = fetch ∷ [];
  sender_at = waiting;
}

asking-asked : (run asking (resting two all_active)).sender_at ≡ asked.sender_at
unfolding run step on_send_active_frames_toggle start_sending_thread sender_move
asking-asked = refl

stop_deadlocks_example :
    let t = step clicks_send asked in
    let later = main_handles ∷ sender_moves ready ∷ join_returns ∷ [] in
    IsStuck t
    × (run later t ≡ t)
    × IsStuck (destroy_panel asked)
    × (run later (destroy_panel asked) ≡ destroy_panel asked)
stop_deadlocks_example =
    stop_deadlocks asked (main_handles ∷ sender_moves ready ∷ join_returns ∷ []) refl refl refl refl

-- The user has stopped a sender that is about to send frame 1.
abbrev stopped : Panel
stopped = record (resting two all_active) { sender_at = chosen 1 (2 ∷ []) false; main_at = joining }

stop_returns_example :
    let r = run (sender_moves ready ∷ sender_moves ready ∷ join_returns ∷ []) stopped in
    (r.main_at ≡ free) × (r.sender_at ≡ no_thread)
stop_returns_example = stop_returns ready ready stopped refl refl refl tt

-- The rest of a schedule: the frame that the sender has gone to, and the join.
abbrev rest : List Move
rest =
    clicks_repeat ∷ sender_moves ready ∷ sender_moves ready ∷ sender_moves ready ∷ join_returns ∷ []

sends_no_more_example : length (run rest stopped).sent ≤ 0 + 1
sends_no_more_example = sends_no_more rest stopped refl refl

-- The sender is about to send frame 1 of two.
abbrev chosen_first : Panel
chosen_first = record (resting two all_active) {
  is_sending = true;
  send_toggle = true;
  sender_at = chosen 1 (2 ∷ []) false;
}

delete_dangles_example :
    let t = run (deletes 1 ∷ main_handles ∷ []) chosen_first in
    (t.is_freed 1 ≡ true)
    × (t.frames ≡ without 1 two)
    × (t.sender_at ≡ chosen 1 (2 ∷ []) false)
    × ((step (sender_moves ready) t).sent ≡ 1 ∷ [])
delete_dangles_example = delete_dangles 1 (2 ∷ []) false chosen_first refl refl refl refl

run-IsShown_example :
    IsShown (run (clicks_repeat ∷ clicks_send ∷ clicks_send ∷ []) (resting two all_active))
run-IsShown_example = run-IsShown (clicks_repeat ∷ clicks_send ∷ clicks_send ∷ []) two all_active

-- The controller is refused; the text is shown, and overwritten.
abbrev refused_start : List Move
refused_start =
    sender_moves (refused (codes "Port is already in use."))
    ∷ main_handles
    ∷ join_returns
    ∷ main_handles
    ∷ main_handles
    ∷ main_handles
    ∷ []

refused_start-joined :
    (run refused_start (step clicks_send (resting two all_active))).sender_at ≡ no_thread
unfolding run step on_send_active_frames_toggle start_sending_thread sender_move handle say
    stop_sending_thread join_return reset_toggle
refused_start-joined = refl

refused_start-handled : (run refused_start (step clicks_send (resting two all_active))).posted ≡ []
unfolding run step on_send_active_frames_toggle start_sending_thread sender_move handle say
    stop_sending_thread join_return reset_toggle
refused_start-handled = refl

error_hidden_example :
    (run refused_start (step clicks_send (resting two all_active))).status_text
    ≡ codes "Sending stopped."
error_hidden_example =
    error_hidden refused_start two all_active refl refused_start-joined refused_start-handled

-- A session without frames, up to the `join` of its thread.
abbrev to_join : List Move
to_join = sender_moves ready ∷ main_handles ∷ sender_moves ready ∷ main_handles ∷ []

to_join-joining : (run to_join (step clicks_send (resting [] all_active))).main_at ≡ joining
unfolding run step on_send_active_frames_toggle start_sending_thread sender_move take_frames handle
    say stop_sending_thread
to_join-joining = refl

one_session_joins_example :
    let s = run to_join (step clicks_send (resting [] all_active)) in
    (s.sender_at ≡ ended) × ((step join_returns s).main_at ≡ free)
one_session_joins_example = one_session_joins to_join [] all_active refl to_join-joining
