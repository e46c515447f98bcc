-- ===== src/Defaults.antt =====
-- `addDefaultFrames` of src/ui/BusControllerPanel.cpp: the frames that the panel starts with. The
-- random numbers are an argument: `dice f i` is the i-th one drawn for the f-th frame.
pub mod Valid
use tcp_1553_bus_analyzer.Prelude.{ℕ, zero, suc, List, [], ◌∷◌, map, ◌==◌, if◌then◌else◌}
use tcp_1553_bus_analyzer.Prelude.Int.{ℤ, pos}
use tcp_1553_bus_analyzer.Text.{Text, codes, hex4}
use tcp_1553_bus_analyzer.Common.{FrameConfig, bc_to_rt, rt_to_bc}
use tcp_1553_bus_analyzer.Frame.{FrameComponent, new_component}

-- The numbers that one call of `randomizeData` draws, from number i on, and their texts.
unfoldable pub drawn : ℕ → ℕ → (ℕ → ℕ) → List ℕ
drawn zero i dice = []
drawn (suc n) i dice = dice i ∷ drawn n (suc i) dice

unfoldable pub randomize_data : (ℕ → ℕ) → List Text
randomize_data dice = map hex4 (drawn 32 0 dice)

unfoldable pub default_frame : (ℕ → ℕ) → Text → ℕ → ℕ → ℕ → ℕ → FrameConfig
default_frame dice label rt sa wc tr = record {
  label = label;
  bus = b'A';
  mode = if tr == 0 then bc_to_rt else rt_to_bc;
  rt = pos rt;
  sa = pos sa;
  rt2 = pos 0;
  sa2 = pos 0;
  wc = pos wc;
  data_texts = randomize_data dice;
}

unfoldable pub default_frames : (ℕ → ℕ → ℕ) → List FrameConfig
default_frames dice =
    default_frame (dice 0) (codes "SATELLITE_U.DT_TRQ_CTRL_RW (RT2/SA4)") 2 4 32 0
    ∷ default_frame (dice 1) (codes "SATELLITE_Y.DT_SENSOR_DATA.RW_DATA.RW_SPD_MEAS (RT2/SA6)") 2 6
        32 1
    ∷ default_frame (dice 2) (codes "SATELLITE_Y.DT_SENSOR_DATA.GPS_DATA (RT7/SA1)") 7 1 32 1
    ∷ default_frame (dice 3) (codes "SATELLITE_Y.DT_SENSOR_DATA.STR_DATA.Q_BI (RT21/SA3)") 21 3 32 1
    ∷ default_frame (dice 4) (codes "SATELLITE_Y.DT_SENSOR_DATA.GYRO_DATA.W_B_MEAS (RT16/SA2)") 16 2
        32 1
    ∷ []

-- The components of the list, each made by `addFrameToList`.
unfoldable pub default_components : (ℕ → ℕ → ℕ) → List FrameComponent
default_components dice = map new_component (default_frames dice)
