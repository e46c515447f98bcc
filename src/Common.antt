-- ===== src/Common.antt =====
-- src/common/common.hpp: the modes of a frame and its configuration.
pub mod Paths
use tcp_1553_bus_analyzer.Prelude.{ℕ, Bool, true, false, List}
use tcp_1553_bus_analyzer.Prelude.Int.{ℤ}
use tcp_1553_bus_analyzer.Text.{Text}

abbrev pub bc_max_data_words : ℕ
bc_max_data_words = 32

pub data BcMode : Type 0 where
  bc_to_rt rt_to_bc rt_to_rt mode_code_no_data mode_code_with_data : BcMode

abbrev pub is_bc_to_rt : BcMode → Bool
is_bc_to_rt bc_to_rt = true
is_bc_to_rt _ = false

abbrev pub is_rt_to_bc : BcMode → Bool
is_rt_to_bc rt_to_bc = true
is_rt_to_bc _ = false

abbrev pub is_rt_to_rt : BcMode → Bool
is_rt_to_rt rt_to_rt = true
is_rt_to_rt _ = false

abbrev pub is_mode_code_with_data : BcMode → Bool
is_mode_code_with_data mode_code_with_data = true
is_mode_code_with_data _ = false

abbrev pub is_mode_code : BcMode → Bool
is_mode_code mode_code_no_data = true
is_mode_code mode_code_with_data = true
is_mode_code _ = false

-- `data` is an array of 32 texts: here a list, whose length statements name where they need it.
pub record FrameConfig : Type 0 where
  pub label : Text
  pub bus : ℕ
  pub rt : ℤ
  pub sa : ℤ
  pub rt2 : ℤ
  pub sa2 : ℤ
  pub wc : ℤ
  pub mode : BcMode
  pub data_texts : List Text
