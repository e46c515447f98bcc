-- ===== src/Link/Lights.antt =====
-- The monitor and its panel together: which subaddresses a burst of traffic lights up in the tree.
use tcp_1553_bus_analyzer.Prelude.{
  ℕ, ◌-◌, ◌≡◌, ◌↔◌, ◌⊎◌, inl, inr, refl, ◌∙◌, suc, Bool, true, false, not, ◌&&◌, List, [], ◌∷◌,
  ◌++◌, map, some, arith, ltb, if◌then◌else◌,
}
use mathlib.Core.Path.{subst}
use tcp_1553_bus_analyzer.Protocol.{Bytes, is_nil}
use tcp_1553_bus_analyzer.Parser.{Event, decoded, warned, parse_stream, deliver}
use tcp_1553_bus_analyzer.Bm.{
  Bm, passes, relay, timed, flush, process_and_relay_data, GuiCall, show_messages, activate,
}
use tcp_1553_bus_analyzer.Bm.Format.{Stamp}
use tcp_1553_bus_analyzer.Bm.Keys.{RtSaKey, Holds}
use tcp_1553_bus_analyzer.Bm.Activity.{Touched, deliver_keys_iff}
use tcp_1553_bus_analyzer.View.{View}
use tcp_1553_bus_analyzer.View.Shown.{Lines, bus_index, on_gui_calls}
use tcp_1553_bus_analyzer.View.Find.{IsAddress, IsDistinct}
use tcp_1553_bus_analyzer.View.Lit.{IsActivated, on_gui_calls-IsLit}

-- The key of a subaddress.
abbrev pub IsKeyOf : ℕ → ℕ → ℕ → RtSaKey → Type 0
IsKeyOf i j k key = (bus_index key.bus ≡ i) × (key.rt ≡ j) × (key.sa ≡ k)

module _ (i j k : ℕ) where
  map-IsActivated :
      (keys : List RtSaKey)
      → IsActivated i j k (map activate keys)
        ↔ ((key : RtSaKey) × IsKeyOf i j k key × Holds key keys)
  map-IsActivated [] = (λ h. absurd h, λ (key, same, h). absurd h)
  map-IsActivated (o ∷ keys) =
      let (down, up) = map-IsActivated keys in
      (
        λ h. elim h [
          | inl (on, bus, rt, sa) ↦ (o, (bus, rt, sa), inl refl)
          | inr later ↦ let (key, same, h) = down later in (key, same, inr h)
        ],
        λ (key, same, h). elim h [
          | inl e ↦ let (bus, rt, sa) = subst (IsKeyOf i j k) e same in inl (refl, bus, rt, sa)
          | inr later ↦ inr (up (key, same, later))
        ],
      )

  after_messages :
      (b : Bool) (m : List ℕ) (calls : List GuiCall)
      → IsActivated i j k ((if b then show_messages m ∷ [] else []) ++ calls)
        ↔ IsActivated i j k calls
  after_messages true m calls = (λ h. h, λ h. h)
  after_messages false m calls = (λ h. h, λ h. h)

  if_keys :
      (keys : List RtSaKey) (cb : Bool)
      → cb ≡ true
      → IsActivated i j k (if cb && not (is_nil keys) then map activate keys else [])
        ↔ IsActivated i j k (map activate keys)
  if_keys [] true h = (λ g. g, λ g. g)
  if_keys (o ∷ keys) true h = (λ g. g, λ g. g)
  if_keys keys false h = absurd cc

  -- What a flush that is due activates.
  flush-IsActivated :
      (now : ℕ) (s : Bm)
      → ltb 50 (now - s.last_gui_update) ≡ true
      → s.tree_callback ≡ true
      → IsActivated i j k (flush now s).1
        ↔ ((key : RtSaKey) × IsKeyOf i j k key × Holds key s.pending_active_keys)
  unfolding flush
  flush-IsActivated now s due cb =
      let messages = s.messages_callback && not (is_nil s.pending_messages) in
      let (down, up) = map-IsActivated s.pending_active_keys in
      let (down1, up1) = if_keys s.pending_active_keys s.tree_callback cb in
      let (down2, up2) = after_messages messages s.pending_messages (
        if s.tree_callback && not (is_nil s.pending_active_keys)
        then map activate s.pending_active_keys
        else []) in
      rw due ((λ h. down (down1 (down2 h))), (λ h. up2 (up1 (up h))))

-- What a flush tests, after the transactions of a call.
deliver_flush_state :
    (clock : ℕ → Stamp) (n : ℕ) (s : Bm) (es : List Event)
    → let d = (deliver (some (timed clock)) (s, n) es).0 in
      (d.last_gui_update ≡ s.last_gui_update) × (d.tree_callback ≡ s.tree_callback)
unfolding deliver
deliver_flush_state clock n s [] = (refl, refl)
deliver_flush_state clock n s (warned m ∷ es) = deliver_flush_state clock n s es
deliver_flush_state clock n s (decoded t ∷ es) =
    let (a, b) = deliver_flush_state clock (suc n) (relay (clock n) s t) es in
    let one : ((relay (clock n) s t).last_gui_update ≡ s.last_gui_update)
        × ((relay (clock n) s t).tree_callback ≡ s.tree_callback) =
      unfold relay in ground arith in
    (a ∙ one.0, b ∙ one.1)

-- A call of the monitor with its callback set, more than 50 ms after the last update, whose calls
-- of the user interface the panel has carried out. The item of a subaddress is then lit exactly
-- where it was lit before, or where a transaction of that bus, terminal and subaddress was
-- decoded and passes the filter, or was already pending.
pub process_lights :
    (i j k : ℕ) (clock : ℕ → Stamp) (now : ℕ) (buffer : Bytes) (s : Bm) (l : Lines) (v : View)
    → IsAddress i j k
    → IsDistinct v.tree
    → ltb 50 (now - s.last_gui_update) ≡ true
    → s.tree_callback ≡ true
    → let (r, calls) = process_and_relay_data clock now buffer s in
      let (es, _) = parse_stream s.parser buffer in
      ((on_gui_calls l calls v).green ((on_gui_calls l calls v).tree.sa_id i j k) ≡ true) ↔ (
        (v.green (v.tree.sa_id i j k) ≡ true)
        ⊎ ((key : RtSaKey) × IsKeyOf i j k key
            × (Touched (passes s) key es ⊎ Holds key s.pending_active_keys)))
unfolding process_and_relay_data passes
process_lights i j k clock now buffer s l v a tree due cb =
    let (es, parser) = parse_stream s.parser buffer in
    let s1 = record s { parser = parser } in
    let d = (deliver (some (timed clock)) (s1, 0) es).0 in
    let (last, tree_cb) = deliver_flush_state clock 0 s1 es in
    let due_then : ltb 50 (now - d.last_gui_update) ≡ true = rw last due in
    let (down, up) = on_gui_calls-IsLit i j k a l (flush now d).1 v tree in
    let (down1, up1) = flush-IsActivated i j k now d due_then (tree_cb ∙ cb) in
    (
      λ h. elim (down h) [
        | inl before ↦ inl before
        | inr on ↦
            let (key, same, held) = down1 on in
            inr (key, same, (deliver_keys_iff clock 0 s1 es key).0 held)
      ],
      λ h. elim h [
        | inl before ↦ up (inl before)
        | inr (key, same, touched) ↦
            up (inr (up1 (key, same, (deliver_keys_iff clock 0 s1 es key).1 touched)))
      ],
    )
