-- ===== src/View/Mode.antt =====
-- A click on a mode code of the tree that the constructor has built.
use tcp_1553_bus_analyzer.Prelude.{ℕ, ◌<◌, ◌≡◌, ◌↔◌, ap, ◌∙◌, true, none, some, arith}
use mathlib.Core.Path.{subst}
use tcp_1553_bus_analyzer.Prelude.Int.{pos, minus_one}
use tcp_1553_bus_analyzer.Protocol.{Packet}
use tcp_1553_bus_analyzer.Parser.RoundTrip.{transaction_of}
use tcp_1553_bus_analyzer.Bm.{Bm, passes, enable_filter, set_filter_criteria}
use tcp_1553_bus_analyzer.Bm.Fields.{IsOnBus}
use tcp_1553_bus_analyzer.Bm.Filter.{Matches, passes_iff}
use tcp_1553_bus_analyzer.View.{
  Tree, View, Criteria, bus_char, find_mode_code_rt, find_mode_code_bus, find_mode_code,
  find_clicked, on_tree_item_clicked,
}
use tcp_1553_bus_analyzer.MilStd.{MilStd1553, bus_count, rt_count}
use tcp_1553_bus_analyzer.View.Find.{IsAddress, first_of-some}
use tcp_1553_bus_analyzer.View.Click.{click_filters}
use tcp_1553_bus_analyzer.View.Build.{build_tree}
use tcp_1553_bus_analyzer.View.Place.{Place, bus_at, rt_at, sa_at, root_at, mc_at, IsPlace, number}
use tcp_1553_bus_analyzer.View.Built.{item, mode_code_at, IsRecorded}
use tcp_1553_bus_analyzer.View.Whole.{build_tree-IsRecorded, build_tree-IsDistinct}

-- The tree that the constructor has built, and a panel over it.
abbrev pub built : (ℕ → ℕ) → ℕ → MilStd1553 → Tree
built new_item root model = (build_tree new_item root model).tree

abbrev pub over_built : (ℕ → ℕ) → ℕ → MilStd1553 → View → View
over_built new_item root model v = record v { tree = built new_item root model }

module _ (new_item : ℕ → ℕ) (root : ℕ) (model : MilStd1553)
    (new_once : (m n : ℕ) → new_item m ≡ new_item n → m ≡ n) where
  recorded : (p : Place) → IsPlace p → IsRecorded new_item root model (built new_item root model) p
  recorded = build_tree-IsRecorded new_item root model new_once

  module _ (i j m : ℕ) (a : IsPlace (mc_at i j m)) where
    criteria : Criteria
    criteria = record {
      bus = bus_char i;
      rt = pos j;
      sa = minus_one;
      mc = pos (mode_code_at m).code;
    }

    -- The bus and the terminal at which the search looks.
    rt_item : ℕ
    rt_item = item new_item root model (rt_at i j)

    bus_item : ℕ
    bus_item = item new_item root model (bus_at i)

    search_rt-here :
        find_mode_code_rt (built new_item root model) rt_item (mode_code_at m).code i j
        ≡ some criteria
    unfolding find_mode_code_rt criteria rt_item
    search_rt-here = ground (arith, (recorded (rt_at i j) (a.0, a.1)).kept)

    search_rt-other :
        (n : ℕ)
        → n < 32
        → n < j
        → find_mode_code_rt (built new_item root model) rt_item (mode_code_at m).code i n ≡ none
    unfolding find_mode_code_rt rt_item
    search_rt-other n h l = ground (
      arith,
      (recorded (rt_at i n) (a.0, h)).kept,
      new_once (number (rt_at i n)) (number (rt_at i j)),
    )

    search_bus-here :
        find_mode_code_bus (built new_item root model) rt_item bus_item (mode_code_at m).code i
        ≡ some criteria
    unfolding find_mode_code_bus bus_item
    search_bus-here = ground (
      arith,
      (recorded (bus_at i) a.0).kept,
      first_of-some (find_mode_code_rt (built new_item root model) rt_item (mode_code_at m).code i)
          rt_count 0 j criteria (omega arith) (omega (arith, a)) search_rt-here
          (λ n x y. search_rt-other n (omega (arith, a, y)) y),
    )

    search_bus-other :
        (n : ℕ)
        → n < i
        → find_mode_code_bus (built new_item root model) rt_item bus_item (mode_code_at m).code n
          ≡ none
    unfolding find_mode_code_bus bus_item
    search_bus-other n l = ground (
      arith,
      (recorded (bus_at n) (omega (arith, a, l))).kept,
      new_once (number (bus_at n)) (number (bus_at i)),
    )

    find_mode_code_at :
        find_mode_code
          (built new_item root model)
          (item new_item root model (mc_at i j m))
          (mode_code_at m).code
        ≡ some criteria
    unfolding find_mode_code rt_item bus_item
    find_mode_code_at =
        let code = (recorded (mc_at i j m) a).parent in
        let above = (recorded (root_at i j) (a.0, a.1)).parent in
        let rt = (recorded (rt_at i j) (a.0, a.1)).parent in
        rw (code, above, rt)
          (first_of-some
            (find_mode_code_bus (built new_item root model) rt_item bus_item (mode_code_at m).code)
            bus_count 0 i criteria (omega arith) (omega (arith, a)) search_bus-here
            (λ n x y. search_bus-other n y))

  -- In the tree that the constructor has built: after a click on the item of a subaddress the
  -- monitor passes, of the packets on the bus, exactly those with that terminal and that
  -- subaddress, whichever of the two buses the item belongs to.
  pub click_built :
      (i j k : ℕ) (v : View) (s : Bm) (p : Packet)
      → IsPlace (sa_at i j k)
      → IsOnBus p
      → let clicked = item new_item root model (sa_at i j k) in
        (passes
            (on_tree_item_clicked clicked (over_built new_item root model v) s).1
            (transaction_of p)
          ≡ true)
        ↔ ((p.rt ≡ j) × (p.sa ≡ k))
  click_built i j k v s p a on =
      let here = recorded (sa_at i j k) a in
      let place : IsAddress i j k = record { bus_range = a.0; rt_range = a.1; sa_range = a.2 } in
      let distinct = build_tree-IsDistinct new_item root model new_once in
      subst
        (λ (x : ℕ).
          (passes (on_tree_item_clicked x (over_built new_item root model v) s).1 (transaction_of p)
            ≡ true)
          ↔ ((p.rt ≡ j) × (p.sa ≡ k)))
        here.kept
        (click_filters i j k (over_built new_item root model v) s p distinct place
          (ap (built new_item root model).mc_of here.kept ∙ here.code) on)

  Matches-mode_code :
      (s : Bm) (bus rt sa j code : ℕ)
      → Matches (enable_filter true (set_filter_criteria bus (pos j) minus_one (pos code) s)) rt sa
        ↔ (rt ≡ j)
  unfolding enable_filter set_filter_criteria
  Matches-mode_code s bus rt sa j code = (ground arith, ground arith)

  clicked_mode_code :
      (i j m : ℕ) (v : View) (s : Bm)
      → IsPlace (mc_at i j m)
      → (on_tree_item_clicked
          (item new_item root model (mc_at i j m))
          (over_built new_item root model v)
          s).1
        ≡ enable_filter true
            (set_filter_criteria (bus_char i) (pos j) minus_one (pos (mode_code_at m).code) s)
  unfolding on_tree_item_clicked find_clicked criteria
  clicked_mode_code i j m v s a =
      ground (arith, (recorded (mc_at i j m) a).code, find_mode_code_at i j m a)

  -- In the tree that the constructor has built: after a click on one of the eleven mode codes of a
  -- terminal the monitor passes, of the packets on the bus, all those with that terminal, whatever
  -- their subaddress and mode code, and on either bus.
  pub click_mode_code :
      (i j m : ℕ) (v : View) (s : Bm) (p : Packet)
      → IsPlace (mc_at i j m)
      → IsOnBus p
      → let clicked = item new_item root model (mc_at i j m) in
        (passes
            (on_tree_item_clicked clicked (over_built new_item root model v) s).1
            (transaction_of p)
          ≡ true)
        ↔ (p.rt ≡ j)
  click_mode_code i j m v s p a on =
      let t =
        enable_filter true
          (set_filter_criteria (bus_char i) (pos j) minus_one (pos (mode_code_at m).code) s) in
      let (down, up) = passes_iff t p on in
      let (only, all) = Matches-mode_code s (bus_char i) p.rt p.sa j (mode_code_at m).code in
      rw (clicked_mode_code i j m v s a) ((λ h. only (down h)), (λ h. up (all h)))
