-- ===== src/Panel/Editing.antt =====
-- What `onSave` of src/ui/CreateFrameWindow.cpp does to the list of frames at its end, and the
-- handlers of src/ui/FrameComponent.cpp that go to the panel.
use tcp_1553_bus_analyzer.Prelude.{
  ℕ, ◌≡◌, ◌≢◌, Bool, true, List, [], ◌∷◌, ◌++◌, Option, none, some, arith,
}
use tcp_1553_bus_analyzer.Panel.{
  Panel, free, Move, adds, deletes, activates, destroy, without, remove_frame, step, run,
}

-- `updateFrame` for the frame that was edited, or `addFrameToList` for a new one; the component
-- that is made has its toggle set.
unfoldable pub saved_moves : Option ℕ → ℕ → List Move
saved_moves none made = adds made ∷ activates made true ∷ []
saved_moves (some old) made = deletes old ∷ adds made ∷ activates made true ∷ []

-- `onDelete`, and a click on the toggle of a frame, whose label is `on_toggle` of Frame.
unfoldable pub deleted_moves : ℕ → List Move
deleted_moves f = deletes f ∷ []

unfoldable pub toggled_moves : ℕ → Bool → List Move
toggled_moves f on = activates f on ∷ []

-- An edited frame goes to the end of the list, whichever place it had, and is active, whether or
-- not it was; the other frames keep their order and their toggles; the old component is left to
-- be destroyed.
pub saved_last :
    (old made f : ℕ) (s : Panel)
    → s.main_at ≡ free
    → f ≢ made
    → let r = run (saved_moves (some old) made) s in
      (r.frames ≡ without old s.frames ++ made ∷ [])
      × (r.is_active made ≡ true)
      × (r.is_active f ≡ s.is_active f)
      × (r.posted ≡ s.posted ++ destroy old ∷ [])
unfolding saved_moves run step remove_frame
saved_last old made f s free_now h = ground (arith, free_now)
