-- ===== src/Panel/Round.antt =====
-- One pass of the sending thread, from the click to rest.
use tcp_1553_bus_analyzer.Prelude.{
  ℕ, ◌≡◌, refl, ap, sym, ◌∙◌, none, Bool, true, false, List, [], ◌∷◌, ◌++◌, arith, if◌then◌else◌,
}
use mathlib.Core.List.{append_assoc, append-nil}
use tcp_1553_bus_analyzer.Text.{codes}
use tcp_1553_bus_analyzer.Panel.{
  looping, Panel, Move, sender_moves, main_handles, join_returns, clicks_send, ready, answered,
  Posted, show, shows, stop, ended, idle_round, say, reset_toggle, on_send_active_frames_toggle,
  end_round, take_frames, sender_move, stop_sending_thread, start_sending_thread, top, handle,
  join_return, step, run, resting,
}

-- The active ones of a list of frames.
abbrev pub actives : (ℕ → Bool) → List ℕ → List ℕ
actives is_active [] = []
actives is_active (f ∷ fs) = if is_active f then f ∷ actives is_active fs else actives is_active fs

-- `sent` has the newest first.
abbrev pub sent_onto : List ℕ → List ℕ → List ℕ
sent_onto [] out = out
sent_onto (f ∷ fs) out = sent_onto fs (f ∷ out)

-- Two moves of the sender for each frame; `replied` says which frames get words to show.
abbrev pub passes_over : (ℕ → Bool) → List ℕ → List Move
passes_over replied [] = []
passes_over replied (f ∷ fs) =
    sender_moves ready ∷ sender_moves (answered (replied f)) ∷ passes_over replied fs

-- The frames that are sent and get words to show, and what is posted for these.
abbrev pub answers_of : (ℕ → Bool) → (ℕ → Bool) → List ℕ → List ℕ
answers_of replied is_active fs = actives replied (actives is_active fs)

abbrev pub show_all : List ℕ → List Posted
show_all [] = []
show_all (f ∷ fs) = show f ∷ show_all fs

abbrev pub any_active : (ℕ → Bool) → List ℕ → Bool → Bool
any_active is_active [] any = any
any_active is_active (f ∷ fs) any = any_active is_active fs (if is_active f then true else any)

pub run-append : (ms ns : List Move) (s : Panel) → run (ms ++ ns) s ≡ run ns (run ms s)
unfolding run
run-append [] ns s = refl
run-append (m ∷ ms) ns s = run-append ms ns (step m s)

-- The sender with the frames `fs` before it.
abbrev pub over : Panel → List ℕ → Bool → List ℕ → List Posted → Panel
over s fs any sent posted = record s { sender_at = looping fs any; sent = sent; posted = posted }

-- What is posted, after a frame and the ones behind it.
abbrev after : (ℕ → Bool) → (ℕ → Bool) → ℕ → List Posted → List Posted
after replied is_active f posted = if is_active f then posted ++ shows (replied f) f else posted

show_all-after :
    (replied is_active : ℕ → Bool) (f : ℕ) (fs : List ℕ) (posted : List Posted)
    → after replied is_active f posted ++ show_all (answers_of replied is_active fs)
      ≡ posted ++ show_all (answers_of replied is_active (f ∷ fs))
show_all-after replied is_active f fs posted =
    let later = show_all (answers_of replied is_active fs) in
    ground (arith, append_assoc posted (show f ∷ []) later, append_assoc posted [] later)

two_moves :
    (replied : ℕ → Bool) (s : Panel) (f : ℕ) (fs : List ℕ) (any : Bool) (sent : List ℕ)
    (posted : List Posted)
    → s.is_sending ≡ true
    → step
        (sender_moves (answered (replied f)))
        (step (sender_moves ready) (over s (f ∷ fs) any sent posted))
      ≡ over s fs
          (if s.is_active f then true else any)
          (if s.is_active f then f ∷ sent else sent)
          (after replied s.is_active f posted)
unfolding step sender_move
two_moves replied s f fs any sent posted h = ground (arith, h)

run-passes_over :
    (replied : ℕ → Bool) (fs : List ℕ) (s : Panel) (any : Bool) (sent : List ℕ)
    (posted : List Posted)
    → s.is_sending ≡ true
    → run (passes_over replied fs) (over s fs any sent posted)
      ≡ over s []
          (any_active s.is_active fs any)
          (sent_onto (actives s.is_active fs) sent)
          (posted ++ show_all (answers_of replied s.is_active fs))
unfolding run
run-passes_over replied [] s any sent posted h = ap (over s [] any sent) (sym (append-nil posted))
run-passes_over replied (f ∷ fs) s any sent posted h =
    let later = if s.is_active f then true else any in
    let more = if s.is_active f then f ∷ sent else sent in
    let now = after replied s.is_active f posted in
    let any_later = any_active s.is_active fs later in
    ap (run (passes_over replied fs)) (two_moves replied s f fs any sent posted h)
    ∙ run-passes_over replied fs s later more now h
    ∙ ap
        (λ (l : List ℕ).
          over s [] any_later l (now ++ show_all (answers_of replied s.is_active fs)))
        (ground arith)
    ∙ ap (over s [] any_later (sent_onto (actives s.is_active (f ∷ fs)) sent))
        (show_all-after replied s.is_active f fs posted)

-- A session with the sender at the head of its loop, in a panel that was at rest.
abbrev pub going : List ℕ → (ℕ → Bool) → Panel
going frames is_active = record (resting frames is_active) {
  is_sending = true;
  send_toggle = true;
  send_label = codes "Sending...";
  sender_at = top;
}

-- The thread's question for the frames, and its answer.
abbrev pub asks : List Move
asks = sender_moves ready ∷ main_handles ∷ sender_moves ready ∷ []

-- The end of the thread behind its round.
abbrev pub ends : List Move
ends = sender_moves ready ∷ sender_moves ready ∷ []

-- The main thread shows the words of each frame that has received some.
abbrev pub handle_all : List ℕ → List Move
handle_all [] = []
handle_all (f ∷ fs) = main_handles ∷ handle_all fs

-- What is posted then, a text and `stopSendingThread`, or the latter by itself; the join, and the
-- toggle put back.
abbrev pub settles : List Move
settles = main_handles ∷ main_handles ∷ join_returns ∷ main_handles ∷ []

-- `Send Active Frames` without `Repeat`: the click, the thread's question and its answer, the pass,
-- and what the thread has posted.
abbrev pub one_pass : (ℕ → Bool) → (ℕ → Bool) → List ℕ → List Move
one_pass replied is_active fs =
    clicks_send
    ∷ (asks
        ++ (passes_over replied fs
            ++ (ends ++ (handle_all (answers_of replied is_active fs) ++ settles))))

-- The thread has ended, with this posted, and frames shown before.
abbrev leaves : List ℕ → (ℕ → Bool) → List ℕ → List Posted → List ℕ → Panel
leaves frames is_active sent posted shown = record (going frames is_active) {
  sender_at = ended;
  sent = sent;
  posted = posted;
  shown = shown;
}

run-ends :
    (frames : List ℕ) (is_active : ℕ → Bool) (any : Bool) (sent : List ℕ) (posted : List Posted)
    → run ends (over (going frames is_active) [] any sent posted)
      ≡ leaves frames is_active sent (posted ++ (idle_round any ++ stop none ∷ [])) []
unfolding run step sender_move end_round
run-ends frames is_active any sent posted =
    let ending = stop none ∷ [] in
    ap (λ (l : List Posted). leaves frames is_active sent l [])
      (ap (λ (l : List Posted). l ++ ending) (append-nil (posted ++ idle_round any))
        ∙ append_assoc posted (idle_round any) ending)

run-handle_all :
    (frames : List ℕ) (is_active : ℕ → Bool) (sent fs : List ℕ) (later : List Posted)
    (shown : List ℕ)
    → run (handle_all fs) (leaves frames is_active sent (show_all fs ++ later) shown)
      ≡ leaves frames is_active sent later (sent_onto fs shown)
unfolding run step handle
run-handle_all frames is_active sent [] later shown = refl
run-handle_all frames is_active sent (f ∷ fs) later shown =
    run-handle_all frames is_active sent fs later (f ∷ shown)

run-settles :
    (frames : List ℕ) (is_active : ℕ → Bool) (any : Bool) (sent shown : List ℕ)
    → run settles (leaves frames is_active sent (idle_round any ++ stop none ∷ []) shown)
      ≡ record (resting frames is_active) {
        sent = sent;
        shown = shown;
        status_text = codes "Sending stopped.";
      }
unfolding run step handle say stop_sending_thread join_return reset_toggle
run-settles frames is_active true sent shown = refl
run-settles frames is_active false sent shown = refl

asks_taken :
    (f : ℕ) (fs : List ℕ) (is_active : ℕ → Bool)
    → run asks (step clicks_send (resting (f ∷ fs) is_active))
      ≡ over (going (f ∷ fs) is_active) (f ∷ fs) false [] []
unfolding run step on_send_active_frames_toggle start_sending_thread sender_move handle take_frames
asks_taken f fs is_active = refl

-- Of a panel at rest with some frames, one pass without `Repeat` sends the active ones, each once
-- and in the order of the list, shows what those have received that were answered, and leaves the
-- panel at rest with the same frames, its toggle put back and the status text `Sending stopped.`
pub one_pass_sends :
    (replied : ℕ → Bool) (f : ℕ) (fs : List ℕ) (is_active : ℕ → Bool)
    → run (one_pass replied is_active (f ∷ fs)) (resting (f ∷ fs) is_active)
      ≡ record (resting (f ∷ fs) is_active) {
        sent = sent_onto (actives is_active (f ∷ fs)) [];
        shown = sent_onto (answers_of replied is_active (f ∷ fs)) [];
        status_text = codes "Sending stopped.";
      }
one_pass_sends replied f fs is_active =
    let all = f ∷ fs in
    let s = going all is_active in
    let some_answers = answers_of replied is_active all in
    let any = any_active is_active all false in
    let sent = sent_onto (actives is_active all) [] in
    let closing = handle_all some_answers ++ settles in
    unfold run in
    run-append asks (passes_over replied all ++ (ends ++ closing)) _
    ∙ ap (run (passes_over replied all ++ (ends ++ closing))) (asks_taken f fs is_active)
    ∙ run-append (passes_over replied all) (ends ++ closing) (over s all false [] [])
    ∙ ap (run (ends ++ closing)) (run-passes_over replied all s false [] [] refl)
    ∙ run-append ends closing _
    ∙ ap (run closing) (run-ends all is_active any sent (show_all some_answers))
    ∙ run-append (handle_all some_answers) settles _
    ∙ ap (run settles) (run-handle_all all is_active sent some_answers _ [])
    ∙ run-settles all is_active any sent (sent_onto some_answers [])
