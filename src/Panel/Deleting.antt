-- ===== src/Panel/Deleting.antt =====
-- A frame that is deleted while it is being sent.
use tcp_1553_bus_analyzer.Prelude.{ℕ, ◌≡◌, refl, Bool, true, false, List, [], ◌∷◌, arith}
use tcp_1553_bus_analyzer.Panel.{
  Panel, free, without, Move, ready, on_send_active_frames_toggle, sender_moves, main_handles,
  clicks_send, deletes, chosen, take_frames, sender_move, start_sending_thread, remove_frame,
  handle, step, run, resting,
}

-- The sender takes the list of frames and goes to the first of them.
abbrev pub choose : List Move
choose =
    clicks_send ∷ sender_moves ready ∷ main_handles ∷ sender_moves ready ∷ sender_moves ready ∷ []

-- It comes to that position.
pub to_chosen :
    (f : ℕ) (fs : List ℕ) (is_active : ℕ → Bool)
    → let s = run choose (resting (f ∷ fs) is_active) in
      (s.main_at ≡ free) × (s.sender_at ≡ chosen f fs false) × (s.posted ≡ [])
unfolding run step on_send_active_frames_toggle start_sending_thread sender_move take_frames handle
to_chosen f fs is_active = (refl, refl, refl)

-- The bug: unlike `Clear All`, the deletion of a frame does not ask whether frames are being sent.
-- Where the sender has gone to an active frame, the user deletes that frame and the main thread
-- handles what the deletion has posted, the frame is destroyed and gone from the list, and the
-- sender goes on to ask it whether it is active and to send it.
pub delete_dangles :
    (f : ℕ) (fs : List ℕ) (any : Bool) (s : Panel)
    → s.main_at ≡ free
    → s.sender_at ≡ chosen f fs any
    → s.posted ≡ []
    → s.is_active f ≡ true
    → let t = run (deletes f ∷ main_handles ∷ []) s in
      (t.is_freed f ≡ true)
      × (t.frames ≡ without f s.frames)
      × (t.sender_at ≡ chosen f fs any)
      × ((step (sender_moves ready) t).sent ≡ f ∷ s.sent)
unfolding run step sender_move handle remove_frame
delete_dangles f fs any s free_now at_frame nothing active = ground arith
