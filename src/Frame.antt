-- ===== src/Frame.antt =====
-- src/ui/FrameComponent.hpp and src/ui/FrameComponent.cpp: one frame of the controller's list,
-- with the texts that it shows. Texts are lists of character codes on both sides of the widgets. A
-- closure that is posted to the main thread is a result, applied by a function of its own.
pub mod Summary
pub mod Received
use tcp_1553_bus_analyzer.Prelude.{
  ℕ, zero, suc, ◌+◌, ◌*◌, ◌%◌, ◌^◌, bit_and, bit_or, Bool, true, false, ◌||◌, List, [], ◌∷◌, ◌++◌,
  map, Option, none, some, ltb, if◌then◌else◌, get_or, replicate, ◌&&◌,
}
use tcp_1553_bus_analyzer.Prelude.Int.{ℤ, pos, to_u32, is_zero, above}
use tcp_1553_bus_analyzer.Protocol.{is_nil}
use tcp_1553_bus_analyzer.Text.{Text, codes, decimal_int, hex4}
use tcp_1553_bus_analyzer.Common.{
  FrameConfig, BcMode, bc_to_rt, rt_to_bc, rt_to_rt, mode_code_no_data, mode_code_with_data,
  is_rt_to_bc, is_rt_to_rt,
}
use tcp_1553_bus_analyzer.Bc.{BusController, ServerAnswers, Call, initialize, is_ready}
use tcp_1553_bus_analyzer.Bc.Send.{SendAnswers, send_acyclic_frame}

-- `data_labels` holds, for each of the 32 labels, its text and whether it is shown.
pub record FrameComponent : Type 0 where
  pub config : FrameConfig
  pub label : Text
  pub summary : Text
  pub data_labels : List (Text × Bool)
  pub is_active : Bool
  pub toggle_label : Text
  pub xfer_id : ℕ
  pub hdr_id : ℕ
  pub buf_id : ℕ

unfoldable pub label_of : Text → Text
label_of label = if is_nil label then codes "Untitled Frame" else label

-- The `switch` over the mode.
unfoldable pub transfer_text : FrameConfig → BcMode → Text
transfer_text c bc_to_rt =
    codes "BC -> RT "
    ++ decimal_int c.rt
    ++ codes " | SA "
    ++ decimal_int c.sa
    ++ codes " | WC "
    ++ decimal_int c.wc
transfer_text c rt_to_bc =
    codes "RT "
    ++ decimal_int c.rt
    ++ codes " -> BC | SA "
    ++ decimal_int c.sa
    ++ codes " | WC "
    ++ decimal_int c.wc
transfer_text c rt_to_rt =
    codes "RT "
    ++ decimal_int c.rt
    ++ codes "(SA"
    ++ decimal_int c.sa
    ++ codes ") -> RT "
    ++ decimal_int c.rt2
    ++ codes "(SA"
    ++ decimal_int c.sa2
    ++ codes ") | WC "
    ++ decimal_int c.wc
transfer_text c mode_code_no_data =
    codes "BC -> RT " ++ decimal_int c.rt ++ codes " | MC " ++ decimal_int c.sa
transfer_text c mode_code_with_data =
    codes "BC -> RT "
    ++ decimal_int c.rt
    ++ codes " | MC "
    ++ decimal_int c.sa
    ++ codes " (w/ data)"

-- `cmdVal`: `(rt << 11) | (sa << 5) | (wc & 0x1F)` of three `int`s, cut to 16 bits.
unfoldable pub summary_word : FrameConfig → ℕ
summary_word c =
    bit_or (bit_or (to_u32 c.rt * 2 ^ 11) (to_u32 c.sa * 2 ^ 5)) (bit_and (to_u32 c.wc) 0x1f)
    % 2 ^ 16

unfoldable pub summary_text : FrameConfig → Text
summary_text c =
    codes "Bus: "
    ++ c.bus ∷ codes " | "
    ++ transfer_text c c.mode
    ++ codes " ["
    ++ hex4 (summary_word c)
    ++ codes "]"

unfoldable pub words_to_show : BcMode → ℤ → ℤ
words_to_show mode_code_no_data wc = pos 0
words_to_show mode_code_with_data wc = pos 1
words_to_show _ wc = if is_zero wc then pos 32 else wc

-- The loop over the labels, from label i on.
unfoldable pub labels_from : ℕ → ℕ → ℤ → List Text → List (Text × Bool)
labels_from zero i shown texts = []
labels_from (suc n) i shown texts =
    (if above i shown then (get_or texts i [], true) else ([], false))
    ∷ labels_from n (suc i) shown texts

unfoldable pub update_values : FrameConfig → FrameComponent → FrameComponent
update_values c f = record f {
  config = c;
  label = label_of c.label;
  summary = summary_text c;
  data_labels = labels_from 32 0 (words_to_show c.mode c.wc) c.data_texts;
}

-- A new component: the texts that the constructor gives its widgets, the toggle set, and then
-- `updateValues`.
unfoldable pub new_component : FrameConfig → FrameComponent
unfolding replicate
new_component c = update_values c (record {
  config = c;
  label = label_of c.label;
  summary = [];
  data_labels = replicate 32 (codes "----", true);
  is_active = true;
  toggle_label = codes "Active";
  xfer_id = 0;
  hdr_id = 0;
  buf_id = 0;
})

-- `onToggle`, once the click has given the toggle its value.
unfoldable pub on_toggle : Bool → FrameComponent → FrameComponent
on_toggle on f = record f {
  is_active = on;
  toggle_label = if on then codes "Active" else codes "Activate";
}

-- `setAimIds`; the three identifiers are read by their getters only.
unfoldable pub set_aim_ids : ℕ → ℕ → ℕ → FrameComponent → FrameComponent
set_aim_ids xfer hdr buf f = record f { xfer_id = xfer; hdr_id = hdr; buf_id = buf }

-- `posted` is what the closure given to `CallAfter` has captured, if one was posted.
pub record FrameSend : Type 0 where
  pub controller : BusController
  pub calls : List Call
  pub posted : Option (List ℕ)

-- The `initialize` at the head of `sendFrame`; `parent` is the panel's host and port, or `none`
-- where the cast fails.
unfoldable pub ensure_ready :
    (ℕ → Text) → ServerAnswers → Option (Text × ℕ) → BusController → BusController × List Call
ensure_ready strerror server parent c = if is_ready c then (c, []) else elim parent [
  | none ↦ (c, [])
  | some (host, port) ↦ let (d, _, calls) = initialize strerror server host port c in (d, calls)
]

-- `sendFrame`; `memory` is the local array `received`, which nothing sets before the send.
unfoldable pub send_frame :
    (ℕ → Text)
    → ServerAnswers
    → Option (Text × ℕ)
    → SendAnswers
    → List ℕ
    → FrameComponent
    → BusController
    → FrameSend
send_frame strerror server parent a memory f c =
    let (d, opening) = ensure_ready strerror server parent c in
    let r = send_acyclic_frame a (some f.config) memory d in
    record {
      controller = r.controller;
      calls = opening ++ r.calls;
      posted =
          if is_zero r.status && (is_rt_to_bc f.config.mode || is_rt_to_rt f.config.mode)
          then some r.received
          else none;
    }

-- The posted closure.
unfoldable pub show_received : List ℕ → FrameComponent → FrameComponent
show_received received f = update_values (record f.config { data_texts = map hex4 received }) f
