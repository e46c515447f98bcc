-- ===== src/Panel/Stopping.antt =====
-- What happens to the sending thread once the main thread waits for its end.
use tcp_1553_bus_analyzer.Prelude.{
  ℕ, suc, ◌+◌, ◌≤◌, ◌≡◌, refl, ap, ◌∙◌, true, false, List, [], ◌∷◌, length, Option, none, some,
  arith,
}
use tcp_1553_bus_analyzer.Panel.Once.{leaves_alone, all_leave_alone}
use tcp_1553_bus_analyzer.Panel.{
  Posted, fetch, stop, fail, tell, reset, show, destroy, main_handles, on_repeat_toggle,
  remove_frame, remove_frames, on_clear_frames_clicked, say, reset_toggle, handle, SenderAt,
  no_thread, top, waiting, looping, pausing, chosen, ended, free, joining, Panel, Move,
  sender_moves, join_returns, Answers, ready, clicks_send, clicks_repeat, destroy_panel,
  on_send_active_frames_toggle, activates, adds, deletes, clears, end_round, take_frames,
  sender_move, is_joinable, stop_sending_thread, join_return, step, run,
}

-- The main thread is in `join`, and the sender waits for what only the main thread can give it.
pub record IsStuck (s : Panel) : Type 0 where
  pub main : s.main_at ≡ joining
  pub sender : s.sender_at ≡ waiting
  pub nothing : s.promise ≡ none

step-IsStuck : (m : Move) (s : Panel) → IsStuck s → step m s ≡ s
unfolding step sender_move take_frames join_return
step-IsStuck (sender_moves r) s v = rw (v.sender, v.nothing) refl
step-IsStuck main_handles s v = rw v.main refl
step-IsStuck join_returns s v = rw (v.main, v.sender) refl
step-IsStuck clicks_send s v = rw v.main refl
step-IsStuck clicks_repeat s v = rw v.main refl
step-IsStuck (activates f on) s v = rw v.main refl
step-IsStuck (adds f) s v = rw v.main refl
step-IsStuck (deletes f) s v = rw v.main refl
step-IsStuck clears s v = rw v.main refl

run-IsStuck : (ms : List Move) (s : Panel) → IsStuck s → run ms s ≡ s
unfolding run
run-IsStuck [] s v = refl
run-IsStuck (m ∷ ms) s v = ap (run ms) (step-IsStuck m s v) ∙ run-IsStuck ms s v

-- A click, and the question for the frames that the sender posts.
abbrev pub asking : List Move
asking = clicks_send ∷ sender_moves ready ∷ []

-- `stopSendingThread`, called while the sender waits for the list of frames.
stop-IsStuck :
    (s : Panel) → s.sender_at ≡ waiting → s.promise ≡ none → IsStuck (stop_sending_thread s)
unfolding stop_sending_thread
stop-IsStuck s at_get nothing = ground arith

-- The bug: where the sender waits for the list of frames, which it does after the first two moves
-- of every session that the controller does not refuse, and the user clicks on the pressed toggle,
-- or closes the window, so that the panel is destroyed, the two threads wait for each other: no
-- move of either changes anything any more.
pub stop_deadlocks :
    (s : Panel) (later : List Move)
    → s.main_at ≡ free
    → s.sender_at ≡ waiting
    → s.promise ≡ none
    → s.send_toggle ≡ true
    → let t = step clicks_send s in
      IsStuck t
      × (run later t ≡ t)
      × IsStuck (destroy_panel s)
      × (run later (destroy_panel s) ≡ destroy_panel s)
unfolding step on_send_active_frames_toggle destroy_panel
stop_deadlocks s later free_now at_get nothing pressed =
    let t : IsStuck (step clicks_send s) =
      rw (free_now, pressed) (stop-IsStuck (record s { send_toggle = false }) at_get nothing) in
    let u = stop-IsStuck s at_get nothing in (t, run-IsStuck later _ t, u, run-IsStuck later _ u)

-- The sender can go on by itself.
abbrev pub CanGo : SenderAt → Option (List ℕ) → Type 0
CanGo waiting none = ⊥
CanGo _ promise = Unit {0}

-- How many moves the sender is away from its end, with the flag clear; a promise may take one more.
abbrev distance : SenderAt → ℕ
distance no_thread = 0
distance top = 1
distance waiting = 2
distance (looping fs any) = 1
distance (chosen f fs any) = 2
distance pausing = 2
distance ended = 0

record IsEnding (n : ℕ) (s : Panel) : Type 0 where
  main : s.main_at ≡ joining
  flag : s.is_sending ≡ false
  thread : is_joinable s.sender_at ≡ true
  goes : CanGo s.sender_at s.promise
  near : distance s.sender_at ≤ n

sender_move-IsEnding :
    (n : ℕ) (q : Answers) (p : SenderAt) (s : Panel)
    → s.sender_at ≡ p
    → IsEnding (suc n) s
    → IsEnding n (sender_move q p s)
unfolding sender_move end_round take_frames
sender_move-IsEnding n q no_thread s e v = ground (arith, v, e)
sender_move-IsEnding n q top s e v = ground (arith, v, e)
sender_move-IsEnding n q waiting s e v = ground (arith, v, e)
sender_move-IsEnding n q (looping [] any) s e v = ground (arith, v, e)
sender_move-IsEnding n q (looping (f ∷ fs) any) s e v = ground (arith, v, e)
sender_move-IsEnding n q (chosen f fs any) s e v = ground (arith, v, e)
sender_move-IsEnding n q pausing s e v = ground (arith, v, e)
sender_move-IsEnding n q ended s e v = ground (arith, v, e)

at_end : (p : SenderAt) → is_joinable p ≡ true → distance p ≤ 0 → p ≡ ended
at_end p j d = ground arith

-- In every other position the wait ends: two moves of the sender, which is not joined yet, and the
-- return of `join`.
pub stop_returns :
    (a b : Answers) (s : Panel)
    → s.main_at ≡ joining
    → s.is_sending ≡ false
    → is_joinable s.sender_at ≡ true
    → CanGo s.sender_at s.promise
    → let r = run (sender_moves a ∷ sender_moves b ∷ join_returns ∷ []) s in
      (r.main_at ≡ free) × (r.sender_at ≡ no_thread)
unfolding run step join_return
stop_returns a b s m e j g =
    let v : IsEnding 2 s = record {
      main = m;
      flag = e;
      thread = j;
      goes = g;
      near = ground arith;
    } in
    let s1 = sender_move a s.sender_at s in
    let v1 = sender_move-IsEnding 1 a s.sender_at s refl v in
    let s2 = sender_move b s1.sender_at s1 in
    let v2 = sender_move-IsEnding 0 b s1.sender_at s1 refl v1 in
    rw (v2.main, at_end s2.sender_at v2.thread v2.near) (refl, refl)

-- One more if the sender is already behind its test.
abbrev pub underway : SenderAt → ℕ
underway (chosen f fs any) = 1
underway _ = 0

sender_move-sent :
    (q : Answers) (p : SenderAt) (s : Panel)
    → s.sender_at ≡ p
    → s.is_sending ≡ false
    → let r = sender_move q p s in
      (r.is_sending ≡ false) × (length r.sent + underway r.sender_at ≤ length s.sent + underway p)
unfolding sender_move end_round take_frames
sender_move-sent q no_thread s e h = ground arith
sender_move-sent q top s e h = ground arith
sender_move-sent q waiting s e h = ground arith
sender_move-sent q (looping [] any) s e h = ground arith
sender_move-sent q (looping (f ∷ fs) any) s e h = ground arith
sender_move-sent q (chosen f fs any) s e h = ground arith
sender_move-sent q pausing s e h = ground arith
sender_move-sent q ended s e h = ground arith

-- Not more frames sent, counting the one that the sender has gone to, and the flag clear.
record IsNoMore (s t : Panel) : Type 0 where
  clear : t.is_sending ≡ false
  fewer : length t.sent + underway t.sender_at ≤ length s.sent + underway s.sender_at

remove_frames-IsNoMore :
    (fs : List ℕ) (s t : Panel) → IsNoMore s t → IsNoMore s (remove_frames fs t)
unfolding remove_frames remove_frame
remove_frames-IsNoMore [] s t v = v
remove_frames-IsNoMore (f ∷ fs) s t v = remove_frames-IsNoMore fs s _ (ground arith)

handle-IsNoMore : (ps : List Posted) (s : Panel) → s.is_sending ≡ false → IsNoMore s (handle ps s)
unfolding handle stop_sending_thread say reset_toggle
handle-IsNoMore [] s h = ground arith
handle-IsNoMore (fetch ∷ later) s h = ground arith
handle-IsNoMore (stop none ∷ later) s h = ground arith
handle-IsNoMore (stop (some status) ∷ later) s h = ground arith
handle-IsNoMore (fail ∷ later) s h = ground arith
handle-IsNoMore (tell status ∷ later) s h = ground arith
handle-IsNoMore (reset ∷ later) s h = ground arith
handle-IsNoMore (show f ∷ later) s h = ground arith
handle-IsNoMore (destroy f ∷ later) s h = ground arith

step-IsNoMore :
    (m : Move) (s : Panel) → leaves_alone m ≡ true → s.is_sending ≡ false → IsNoMore s (step m s)
unfolding step join_return on_repeat_toggle on_clear_frames_clicked remove_frame
step-IsNoMore (sender_moves q) s l h =
    let (clear, fewer) = sender_move-sent q s.sender_at s refl h in
    record { clear = clear; fewer = fewer }
step-IsNoMore main_handles s l h = ground (arith, handle-IsNoMore s.posted s h)
step-IsNoMore join_returns s l h = ground arith
step-IsNoMore clicks_send s l h = cc
step-IsNoMore clicks_repeat s l h = ground arith
step-IsNoMore (activates f on) s l h = ground arith
step-IsNoMore (adds f) s l h = ground arith
step-IsNoMore (deletes f) s l h = ground arith
step-IsNoMore clears s l h =
    let here : IsNoMore s s = ground arith in
    ground (arith, remove_frames-IsNoMore s.frames s s here)

-- Once `m_isSending` is clear, and until the user clicks on `Send Active Frames` again: under every
-- schedule the sender sends no frame but the one that it has already gone to, if there is one,
-- whether `Repeat` is pressed or not and however long it runs on.
pub sends_no_more :
    (ms : List Move) (s : Panel)
    → all_leave_alone ms ≡ true
    → s.is_sending ≡ false
    → length (run ms s).sent ≤ length s.sent + underway s.sender_at
unfolding run
sends_no_more [] s l h = omega arith
sends_no_more (m ∷ ms) s l h =
    let v = step-IsNoMore m s (ground arith) h in
    omega (arith, v.fewer, sends_no_more ms (step m s) (ground arith) v.clear)
