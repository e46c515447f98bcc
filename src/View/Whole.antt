-- ===== src/View/Whole.antt =====
-- The tree that the constructor's loops have built.
use tcp_1553_bus_analyzer.Prelude.{
  ℕ, zero, suc, ◌+◌, ◌<◌, ◌≡◌, refl, ap, sym, ◌∙◌, List, [], ◌∷◌, none, arith, get_or, length,
}
use mathlib.Core.Path.{subst}
use tcp_1553_bus_analyzer.MilStd.{MilStd1553, ModeCode, mode_code_list, sa_count}
use tcp_1553_bus_analyzer.View.Build.{
  Building, rounds, append_sa, append_mode_code, append_mode_codes, append_mode_root,
  append_rt_item, append_rt, append_bus, build_tree,
}
use tcp_1553_bus_analyzer.View.Place.{Place, bus_at, rt_at, sa_at, root_at, mc_at, IsPlace, number}
use tcp_1553_bus_analyzer.View.Built.{item, IsRecorded, IsFilled, add, mode_code_at, no_mode_code}
use tcp_1553_bus_analyzer.View.Adding.{adds_bus, adds_rt, adds_sa, adds_root, adds_mc}
use tcp_1553_bus_analyzer.View.Find.{IsDistinct}

module _ (new_item : ℕ → ℕ) (root : ℕ) (model : MilStd1553)
    (new_once : (m n : ℕ) → new_item m ≡ new_item n → m ≡ n) where
  moved :
      (b : Building) (m n : ℕ)
      → m ≡ n
      → IsFilled new_item root model b m
      → IsFilled new_item root model b n
  moved b m n e v = subst (IsFilled new_item root model b) e v

  free :
      (p : Place) (b : Building)
      → IsFilled new_item root model b (number p)
      → b.tree.mc_of (item new_item root model p) ≡ none
  free p b v = v.later (number p) (omega arith)

  -- The loops, from any point on.
  fill_sas :
      (r i j k : ℕ) (b : Building)
      → k + r ≡ 32
      → IsPlace (rt_at i j)
      → IsFilled new_item root model b (number (sa_at i j k))
      → IsFilled new_item root model
          (rounds (append_sa new_item root model i j) r k b)
          (number (root_at i j))
  unfolding rounds
  fill_sas zero i j k b e a v = moved b _ _ (omega (arith, e)) v
  fill_sas (suc r) i j k b e a v =
      let p = sa_at i j k in
      let rt = (v.recorded (rt_at i j) a (omega arith)).kept in
      let w =
        add new_item root model new_once p b _ (a.0, a.1, omega (arith, e)) v
          (adds_sa new_item root model b i j k rt v.count (free p b v)) in
      fill_sas r i j (suc k) _ (omega (arith, e)) a (moved _ _ _ (omega arith) w)

  fill_codes :
      (cs : List ModeCode) (i j m : ℕ) (b : Building)
      → length cs + m ≡ 11
      → ((x : ℕ) → get_or cs x no_mode_code ≡ mode_code_at (m + x))
      → IsPlace (rt_at i j)
      → IsFilled new_item root model b (number (mc_at i j m))
      → IsFilled new_item root model
          (append_mode_codes new_item root model (item new_item root model (root_at i j)) cs b)
          (number (mc_at i j 11))
  unfolding append_mode_codes get_or
  fill_codes [] i j m b e codes a v = moved b _ _ (omega (arith, e)) v
  fill_codes (c ∷ cs) i j m b e codes a v =
      let p = mc_at i j m in
      let mc_root = item new_item root model (root_at i j) in
      let first : c ≡ mode_code_at m = codes 0 ∙ ap mode_code_at (omega arith) in
      let w =
        add new_item root model new_once p b _ (a.0, a.1, omega (arith, e)) v
          (adds_mc new_item root model b i j m v.count (free p b v)) in
      let next = append_mode_code new_item root model mc_root c b in
      let u : IsFilled new_item root model next (suc (number p)) =
        subst
          (λ (x : ModeCode).
            IsFilled new_item root model (append_mode_code new_item root model mc_root x b)
              (suc (number p)))
          (sym first) w in
      fill_codes cs i j (suc m) next (omega (arith, e))
        (λ x. codes (suc x) ∙ ap mode_code_at (omega arith)) a (moved next _ _ (omega arith) u)

  codes_at : (x : ℕ) → get_or mode_code_list x no_mode_code ≡ mode_code_at (0 + x)
  unfolding mode_code_at
  codes_at x = ap (λ (y : ℕ). get_or mode_code_list y no_mode_code) (omega arith)

  -- One terminal, and one bus.
  fill_rt :
      (i j : ℕ) (b : Building)
      → IsPlace (rt_at i j)
      → IsFilled new_item root model b (number (rt_at i j))
      → IsFilled new_item root model
          (append_rt new_item root model i j b)
          (number (rt_at i (suc j)))
  unfolding append_rt
  fill_rt i j b a v =
      let p = rt_at i j in
      let bus = (v.recorded (bus_at i) a.0 (omega arith)).kept in
      let b1 = append_rt_item new_item root model i j b in
      let v1 = moved b1 _ (number (sa_at i j 0)) (omega arith) (
        add new_item root model new_once p b b1 a v
          (adds_rt new_item root model b i j bus v.count (free p b v))) in
      let b2 = rounds (append_sa new_item root model i j) sa_count 0 b1 in
      let v2 = fill_sas 32 i j 0 b1 refl a v1 in
      let rt = (v2.recorded p a (omega arith)).kept in
      let q = root_at i j in
      let b3 = append_mode_root new_item root model i j b2 in
      let v3 = moved b3 _ (number (mc_at i j 0)) (omega arith) (
        add new_item root model new_once q b2 b3 a v2
          (adds_root new_item root model b2 i j rt v2.count (free q b2 v2))) in
      let v4 = fill_codes mode_code_list i j 0 b3 refl codes_at a v3 in
      let filled = moved _ _ (number (rt_at i (suc j))) (omega arith) v4 in
      subst
        (λ (x : ℕ).
          IsFilled new_item root model
            (append_mode_codes new_item root model (new_item x) mode_code_list b3)
            (number (rt_at i (suc j))))
        (sym v2.count) filled

  fill_rts :
      (r i j : ℕ) (b : Building)
      → j + r ≡ 32
      → i < 2
      → IsFilled new_item root model b (number (rt_at i j))
      → IsFilled new_item root model
          (rounds (append_rt new_item root model i) r j b)
          (number (bus_at (suc i)))
  unfolding rounds
  fill_rts zero i j b e h v = moved b _ _ (omega (arith, e)) v
  fill_rts (suc r) i j b e h v =
      fill_rts r i (suc j) _ (omega (arith, e)) h (fill_rt i j b (h, omega (arith, e)) v)

  fill_bus :
      (i : ℕ) (b : Building)
      → i < 2
      → IsFilled new_item root model b (number (bus_at i))
      → IsFilled new_item root model (append_bus new_item root model i b) (number (bus_at (suc i)))
  unfolding append_bus
  fill_bus i b h v =
      let p = bus_at i in
      let w =
        add new_item root model new_once p b _ h v
          (adds_bus new_item root model b i v.count (free p b v)) in
      fill_rts 32 i 0 _ refl h (moved _ _ _ (omega arith) w)

  -- The whole tree.
  build_tree-IsFilled : IsFilled new_item root model (build_tree new_item root model) 2882
  unfolding build_tree rounds
  build_tree-IsFilled =
      let none_yet : IsFilled new_item root model _ (number (bus_at 0)) = record {
        count = refl;
        recorded = λ p q h. absurd (omega (arith, h));
        later = λ m h. refl;
      } in
      fill_bus 1 _ (omega arith) (fill_bus 0 _ (omega arith) none_yet)

  number-lt : (p : Place) → IsPlace p → number p < 2882
  number-lt (bus_at i) v = omega (arith, v)
  number-lt (rt_at i j) v = omega (arith, v)
  number-lt (sa_at i j k) v = omega (arith, v)
  number-lt (root_at i j) v = omega (arith, v)
  number-lt (mc_at i j m) v = omega (arith, v)

  -- Every item of the tree is recorded: with the item above it, its text, and its mode code if it
  -- has one.
  pub build_tree-IsRecorded :
      (p : Place)
      → IsPlace p
      → IsRecorded new_item root model (build_tree new_item root model).tree p
  build_tree-IsRecorded p v = build_tree-IsFilled.recorded p v (number-lt p v)

  -- No identifier is given twice.
  pub build_tree-IsDistinct : IsDistinct (build_tree new_item root model).tree
  build_tree-IsDistinct =
      let kept = λ (p : Place) (v : IsPlace p). (build_tree-IsRecorded p v).kept in
      record {
        sa_once = λ i j k i2 j2 k2 a a2 e.
            let p : IsPlace (sa_at i j k) = (a.bus_range, a.rt_range, a.sa_range) in
            let q : IsPlace (sa_at i2 j2 k2) = (a2.bus_range, a2.rt_range, a2.sa_range) in
            let same =
              new_once (number (sa_at i j k)) (number (sa_at i2 j2 k2))
                (sym (kept (sa_at i j k) p) ∙ e ∙ kept (sa_at i2 j2 k2) q) in
            (omega (arith, same, p, q), omega (arith, same, p, q), omega (arith, same, p, q));
        rt_not_sa = λ i j k i2 j2 a h h2 e.
            let p : IsPlace (sa_at i j k) = (a.bus_range, a.rt_range, a.sa_range) in
            let same =
              new_once (number (rt_at i2 j2)) (number (sa_at i j k))
                (sym (kept (rt_at i2 j2) (h, h2)) ∙ e ∙ kept (sa_at i j k) p) in
            absurd (omega (arith, same, p));
        bus_not_sa = λ i j k i2 a h e.
            let p : IsPlace (sa_at i j k) = (a.bus_range, a.rt_range, a.sa_range) in
            let same =
              new_once (number (bus_at i2)) (number (sa_at i j k))
                (sym (kept (bus_at i2) h) ∙ e ∙ kept (sa_at i j k) p) in
            absurd (omega (arith, same, p));
      }
