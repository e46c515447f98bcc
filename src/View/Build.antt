-- ===== src/View/Build.antt =====
-- The loops of the constructor of src/ui/BusMonitorPanel.cpp, which fill the tree. `AppendItem`
-- is an argument: `new_item n` is the identifier that its call number n returns.
use tcp_1553_bus_analyzer.Prelude.{ℕ, zero, suc, List, [], ◌∷◌, ◌++◌, none, some}
use tcp_1553_bus_analyzer.MilStd.{
  MilStd1553, ModeCode, mode_code_list, modify, bus_count, rt_count, sa_count,
}
use tcp_1553_bus_analyzer.Text.{Text, codes, decimal}
use tcp_1553_bus_analyzer.View.{Tree}

-- The tree so far, and the number of calls of `AppendItem`.
pub record Building : Type 0 where
  pub tree : Tree
  pub appended : ℕ

abbrev empty_tree : Tree
empty_tree = record {
  bus_id = λ i. 0;
  rt_id = λ i j. 0;
  sa_id = λ i j k. 0;
  mc_of = λ x. none;
  parent_of = λ x. 0;
  text_of = λ x. [];
}

-- `for (size_t i = …; i < …; ++i)`: n rounds from index i on.
unfoldable pub rounds {ℓ} : {S : Type ℓ} → (ℕ → S → S) → ℕ → ℕ → S → S
rounds body zero i s = s
rounds body (suc n) i s = rounds body n (suc i) (body i s)

-- `wxString::Format("MC %d: %s", …)`.
unfoldable pub mode_code_text : ModeCode → Text
mode_code_text c = codes "MC " ++ decimal c.code ++ codes ": " ++ c.label

module _ (new_item : ℕ → ℕ) (root : ℕ) (model : MilStd1553) where
  -- `AppendItem(parent, text)`: the identifier is that of the next call.
  abbrev pub append_under : ℕ → Text → Building → Building
  append_under parent text b = record b {
    tree = record b.tree {
      parent_of = modify (new_item b.appended) (λ p. parent) b.tree.parent_of;
      text_of = modify (new_item b.appended) (λ t. text) b.tree.text_of;
    };
    appended = suc b.appended;
  }

  unfoldable pub append_sa : ℕ → ℕ → ℕ → Building → Building
  append_sa i j k b =
      let sa = ((model.bus_list i).rt_list j).sa_list k in
      let c = append_under (b.tree.rt_id i j) sa.name b in
      record c {
        tree = record c.tree {
          sa_id =
              modify i
                (λ (f : ℕ → ℕ → ℕ).
                  modify j (λ (g : ℕ → ℕ). modify k (λ x. new_item b.appended) g) f)
                b.tree.sa_id;
        };
      }

  unfoldable pub append_mode_code : ℕ → ModeCode → Building → Building
  append_mode_code mc_root m b =
      let c = append_under mc_root (mode_code_text m) b in
      record c {
        tree = record c.tree {
          mc_of = modify (new_item b.appended) (λ x. some m.code) b.tree.mc_of;
        };
      }

  unfoldable pub append_mode_codes : ℕ → List ModeCode → Building → Building
  append_mode_codes mc_root [] b = b
  append_mode_codes mc_root (m ∷ ms) b = append_mode_codes mc_root ms (append_mode_code mc_root m b)

  unfoldable pub append_mode_root : ℕ → ℕ → Building → Building
  append_mode_root i j b = append_under (b.tree.rt_id i j) (codes "Mode Codes") b

  unfoldable pub append_rt_item : ℕ → ℕ → Building → Building
  append_rt_item i j b =
      let c = append_under (b.tree.bus_id i) ((model.bus_list i).rt_list j).item.name b in
      record c {
        tree = record c.tree {
          rt_id = modify i (λ (f : ℕ → ℕ). modify j (λ x. new_item b.appended) f) b.tree.rt_id;
        };
      }

  unfoldable pub append_bus_item : ℕ → Building → Building
  append_bus_item i b =
      let c = append_under root (model.bus_list i).item.name b in
      record c {
        tree = record c.tree { bus_id = modify i (λ x. new_item b.appended) b.tree.bus_id };
      }

  -- A terminal: its item, its subaddresses, and its mode codes below an item of their own.
  unfoldable pub append_rt : ℕ → ℕ → Building → Building
  append_rt i j b =
      let c = rounds (append_sa i j) sa_count 0 (append_rt_item i j b) in
      append_mode_codes (new_item c.appended) mode_code_list (append_mode_root i j c)

  unfoldable pub append_bus : ℕ → Building → Building
  append_bus i b = rounds (append_rt i) rt_count 0 (append_bus_item i b)

  unfoldable pub build_tree : Building
  build_tree = rounds append_bus bus_count 0 (record { tree = empty_tree; appended = 0 })
