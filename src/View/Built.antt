-- ===== src/View/Built.antt =====
-- What each call of `AppendItem` adds to the tree.
use tcp_1553_bus_analyzer.Prelude.{
  ℕ, suc, ◌≤◌, ◌<◌, ◌≡◌, ◌≢◌, ap, sym, ◌∙◌, Option, none, some, arith, get_or, ◌==◌, Bool-cases,
  inl, inr, [], ==_iff,
}
use mathlib.Core.Path.{subst}
use tcp_1553_bus_analyzer.Text.{Text, codes}
use tcp_1553_bus_analyzer.MilStd.{MilStd1553, ModeCode, mode_code_list}
use tcp_1553_bus_analyzer.View.{Tree}
use tcp_1553_bus_analyzer.View.Place.{
  Place, bus_at, rt_at, sa_at, root_at, mc_at, IsPlace, number, number-inj,
}
use tcp_1553_bus_analyzer.View.Build.{Building, mode_code_text}

abbrev pub no_mode_code : ModeCode
no_mode_code = record { code = 0; label = [] }

unfoldable pub mode_code_at : ℕ → ModeCode
mode_code_at m = get_or mode_code_list m no_mode_code

module _ (new_item : ℕ → ℕ) (root : ℕ) (model : MilStd1553) where
  abbrev pub item : Place → ℕ
  item p = new_item (number p)

  -- What the tree ought to hold of an item: what stands above it, its text, and its mode code.
  abbrev pub above : Place → ℕ
  above (bus_at i) = root
  above (rt_at i j) = item (bus_at i)
  above (sa_at i j k) = item (rt_at i j)
  above (root_at i j) = item (rt_at i j)
  above (mc_at i j m) = item (root_at i j)

  abbrev pub text_at : Place → Text
  text_at (bus_at i) = (model.bus_list i).item.name
  text_at (rt_at i j) = ((model.bus_list i).rt_list j).item.name
  text_at (sa_at i j k) = (((model.bus_list i).rt_list j).sa_list k).name
  text_at (root_at i j) = codes "Mode Codes"
  text_at (mc_at i j m) = mode_code_text (mode_code_at m)

  abbrev pub code_at : Place → Option ℕ
  code_at (mc_at i j m) = some (mode_code_at m).code
  code_at _ = none

  -- The identifier that is kept of an item, if one is.
  abbrev pub kept_id : Tree → Place → ℕ
  kept_id t (bus_at i) = t.bus_id i
  kept_id t (rt_at i j) = t.rt_id i j
  kept_id t (sa_at i j k) = t.sa_id i j k
  kept_id t p = item p

  pub record IsRecorded (t : Tree) (p : Place) : Type 0 where
    pub kept : kept_id t p ≡ item p
    pub parent : t.parent_of (item p) ≡ above p
    pub text : t.text_of (item p) ≡ text_at p
    pub code : t.mc_of (item p) ≡ code_at p

  -- The first n calls are made, and what they appended is recorded.
  pub record IsFilled (b : Building) (n : ℕ) : Type 0 where
    pub count : b.appended ≡ n
    pub recorded : (p : Place) → IsPlace p → number p < n → IsRecorded b.tree p
    pub later : (m : ℕ) → n ≤ m → b.tree.mc_of (new_item m) ≡ none

  -- A call that appends the item and touches no other.
  pub record Appends (p : Place) (b c : Building) : Type 0 where
    pub one_more : c.appended ≡ suc b.appended
    pub here : IsRecorded c.tree p
    pub others : (q : Place) → IsPlace q → q ≢ p → kept_id c.tree q ≡ kept_id b.tree q
    pub parents : (x : ℕ) → x ≢ item p → c.tree.parent_of x ≡ b.tree.parent_of x
    pub texts : (x : ℕ) → x ≢ item p → c.tree.text_of x ≡ b.tree.text_of x
    pub codes_kept : (x : ℕ) → x ≢ item p → c.tree.mc_of x ≡ b.tree.mc_of x

  module _ (new_once : (m n : ℕ) → new_item m ≡ new_item n → m ≡ n) where
    -- One call more.
    pub add :
        (p : Place) (b c : Building)
        → IsPlace p
        → IsFilled b (number p)
        → Appends p b c
        → IsFilled c (suc (number p))
    add p b c a v w = record {
      count = w.one_more ∙ ap suc v.count;
      recorded = λ q z h. elim (Bool-cases (number q == number p)) [
        | inl e ↦
            let same : q ≡ p = number-inj q p z a ((==_iff (number q) (number p)).0 e) in
            subst (IsRecorded c.tree) (sym same) w.here
        | inr e ↦
            let less : number q < number p = ground (arith, e, h) in
            let apart : number q ≢ number p = λ (s : number q ≡ number p). omega (arith, s, less) in
            let other : item q ≢ item p =
              λ (s : item q ≡ item p). apart (new_once (number q) (number p) s) in
            let before = v.recorded q z less in
            record {
              kept = w.others q z (λ s. apart (ap number s)) ∙ before.kept;
              parent = w.parents (item q) other ∙ before.parent;
              text = w.texts (item q) other ∙ before.text;
              code = w.codes_kept (item q) other ∙ before.code;
            }
      ];
      later = λ m h.
          let apart : new_item m ≢ item p =
            λ (s : new_item m ≡ item p). omega (arith, new_once m (number p) s, h) in
          w.codes_kept (new_item m) apart ∙ v.later m (omega (arith, h));
    }
