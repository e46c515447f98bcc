-- ===== src/MilStd.antt =====
-- src/core/milStd1553.hpp: the model of two buses with 32 terminals of 32 subaddresses each, and
-- the list of mode codes. An array is a function of the index; every index that the code uses is
-- in range.
pub mod Names
use tcp_1553_bus_analyzer.Prelude.{ℕ, zero, suc, List, [], ◌∷◌, ◌++◌, ◌==◌, if◌then◌else◌}
use tcp_1553_bus_analyzer.Text.{Text, codes, decimal}

abbrev pub bus_count : ℕ
bus_count = 2

abbrev pub rt_count : ℕ
rt_count = 32

abbrev pub sa_count : ℕ
sa_count = 32

-- `MilStd1553Item`; the tree object 0 is one that is not set.
pub record Item : Type 0 where
  pub name : Text
  pub tree_object : ℕ

unfoldable pub set_name : Text → Item → Item
set_name name i = record i { name = name }

unfoldable pub set_tree_object : ℕ → Item → Item
set_tree_object x i = record i { tree_object = x }

pub record Rt : Type 0 where
  pub item : Item
  pub sa_list : ℕ → Item

pub record Bus : Type 0 where
  pub item : Item
  pub rt_list : ℕ → Rt

pub record MilStd1553 : Type 0 where
  pub bus_list : ℕ → Bus

-- An element of an array, changed in place.
abbrev pub modify {ℓ} : {A : Type ℓ} → ℕ → (A → A) → (ℕ → A) → ℕ → A
modify k change f i = if i == k then change (f i) else f i

-- `for (…; i < …; ++i) array.at(i) = …`: n rounds from index i on.
unfoldable pub for_each {ℓ} : {A : Type ℓ} → (ℕ → A → A) → ℕ → ℕ → (ℕ → A) → ℕ → A
for_each change zero i f = f
for_each change (suc n) i f = for_each change n (suc i) (modify i (change i) f)

unfoldable pub name_sa : ℕ → Item → Item
name_sa j = set_name (codes "SA " ++ decimal j)

unfoldable pub name_rt : ℕ → Rt → Rt
name_rt i r = record r {
  item = set_name (codes "RT " ++ decimal i) r.item;
  sa_list = for_each name_sa sa_count 0 r.sa_list;
}

unfoldable pub name_bus : ℕ → Bus → Bus
name_bus b bus = record bus { rt_list = for_each name_rt rt_count 0 bus.rt_list }

abbrev pub name_of_bus : Text → Bus → Bus
name_of_bus name bus = record bus { item = set_name name bus.item }

abbrev no_item : Item
no_item = record { name = []; tree_object = 0 }

abbrev pub blank : MilStd1553
blank = record {
  bus_list = λ b. record {
    item = no_item;
    rt_list = λ i. record { item = no_item; sa_list = λ j. no_item };
  };
}

-- The constructor.
unfoldable pub construct : MilStd1553 → MilStd1553
construct m = record {
  bus_list =
      for_each name_bus bus_count 0 (
        modify 1 (name_of_bus (codes "BUS B")) (modify 0 (name_of_bus (codes "BUS A")) m.bus_list));
}

pub record ModeCode : Type 0 where
  pub code : ℕ
  pub label : Text

abbrev mode_code : ℕ → Text → ModeCode
mode_code code label = record { code = code; label = label }

-- `getModeCodeList`.
abbrev pub mode_code_list : List ModeCode
mode_code_list =
    mode_code 0 (codes "Dynamic Bus Control")
    ∷ mode_code 1 (codes "Synchronize")
    ∷ mode_code 2 (codes "Transmit Status Word")
    ∷ mode_code 3 (codes "Initiate Self-Test")
    ∷ mode_code 4 (codes "Transmitter Shutdown")
    ∷ mode_code 5 (codes "Override Transmitter Shutdown")
    ∷ mode_code 8 (codes "Reset Remote Terminal")
    ∷ mode_code 16 (codes "Transmit Vector Word")
    ∷ mode_code 17 (codes "Synchronize (with data)")
    ∷ mode_code 18 (codes "Transmit Last Command")
    ∷ mode_code 19 (codes "Transmit BIT Word")
    ∷ []
