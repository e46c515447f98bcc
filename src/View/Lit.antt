-- ===== src/View/Lit.antt =====
-- Which items of the tree the monitor's calls light up.
use tcp_1553_bus_analyzer.Prelude.{
  ℕ, ◌<◌, ◌≡◌, ◌↔◌, ◌⊎◌, inl, inr, refl, sym, Bool, true, ◌||◌, List, [], ◌∷◌, arith, leb,
  Bool-cases,
}
use mathlib.Core.Path.{subst}
use tcp_1553_bus_analyzer.Bm.{GuiCall, show_messages, tree_item}
use tcp_1553_bus_analyzer.MilStd.{bus_count, rt_count, sa_count}
use tcp_1553_bus_analyzer.View.{View}
use tcp_1553_bus_analyzer.View.Shown.{
  Lines, bus_index, update_tree_item, append_messages, on_gui_call, on_gui_calls,
}
use tcp_1553_bus_analyzer.View.Find.{IsAddress, IsDistinct}

-- Among the calls is one that activates the subaddress.
abbrev pub IsActivated : ℕ → ℕ → ℕ → List GuiCall → Type 0
IsActivated i j k [] = ⊥
IsActivated i j k (show_messages messages ∷ calls) = IsActivated i j k calls
IsActivated i j k (tree_item bus rt sa active ∷ calls) =
    ((active ≡ true) × (bus_index bus ≡ i) × (rt ≡ j) × (sa ≡ k)) ⊎ IsActivated i j k calls

bus_index-lt : (bus : ℕ) → bus_index bus < bus_count
bus_index-lt bus = ground arith

module _ (i j k : ℕ) (a : IsAddress i j k) where
  abbrev pub IsLit : View → Type 0
  IsLit v = v.green (v.tree.sa_id i j k) ≡ true

  update_tree_item-IsLit :
      (bus rt sa : ℕ) (active : Bool) (v : View)
      → IsDistinct v.tree
      → IsLit (update_tree_item bus rt sa active v)
        ↔ (IsLit v ⊎ ((active ≡ true) × (bus_index bus ≡ i) × (rt ≡ j) × (sa ≡ k)))
  unfolding update_tree_item
  update_tree_item-IsLit bus rt sa active v d =
      elim (Bool-cases (leb rt_count rt || leb sa_count sa)) [
        | inl out ↦ ground (arith, out, a.rt_range, a.sa_range)
        | inr inside ↦
            let b = bus_index-lt bus in
            let rt_ok : rt < rt_count = ground (arith, inside) in
            let sa_ok : sa < sa_count = ground (arith, inside) in
            let place : IsAddress (bus_index bus) rt sa = record {
              bus_range = b;
              rt_range = rt_ok;
              sa_range = sa_ok;
            } in
            ground (
              arith,
              inside,
              d.sa_once i j k (bus_index bus) rt sa a place,
              d.rt_not_sa i j k (bus_index bus) rt a b rt_ok,
              d.bus_not_sa i j k (bus_index bus) a b,
            )
      ]

  same_tree : (l : Lines) (call : GuiCall) (v : View) → (on_gui_call l call v).tree ≡ v.tree
  unfolding on_gui_call update_tree_item append_messages
  same_tree l (show_messages messages) v = refl
  same_tree l (tree_item bus rt sa active) v = ground arith

  -- After the monitor's calls of the user interface, the item of a subaddress is lit exactly
  -- where it was lit before or one of the calls activates that subaddress on its bus.
  pub on_gui_calls-IsLit :
      (l : Lines) (calls : List GuiCall) (v : View)
      → IsDistinct v.tree
      → (IsLit (on_gui_calls l calls v)) ↔ (IsLit v ⊎ IsActivated i j k calls)
  unfolding on_gui_calls on_gui_call append_messages
  on_gui_calls-IsLit l [] v d = ground arith
  on_gui_calls-IsLit l (show_messages messages ∷ calls) v d =
      on_gui_calls-IsLit l calls (append_messages l messages v) d
  on_gui_calls-IsLit l (tree_item bus rt sa active ∷ calls) v d =
      let call = tree_item bus rt sa active in
      let v1 = on_gui_call l call v in
      let (down, up) =
        on_gui_calls-IsLit l calls v1 (subst IsDistinct (sym (same_tree l call v)) d) in
      let (down1, up1) = update_tree_item-IsLit bus rt sa active v d in
      (
        λ h. elim (down h) [
          | inl lit ↦ elim (down1 lit) [ inl before ↦ inl before | inr here ↦ inr (inl here) ]
          | inr later ↦ inr (inr later)
        ],
        λ h. elim h [
          | inl before ↦ up (inl (up1 (inl before)))
          | inr (inl here) ↦ up (inl (up1 (inr here)))
          | inr (inr later) ↦ up (inr later)
        ],
      )
