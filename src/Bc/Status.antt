-- ===== src/Bc/Status.antt =====
-- What `sendAcyclicFrame` returns.
use tcp_1553_bus_analyzer.Prelude.{ℕ, ◌≡◌, ◌↔◌, ◌⊎◌, true, false, List, Option, none, some, arith}
use tcp_1553_bus_analyzer.Prelude.Int.{pos, is_negative, above}
use tcp_1553_bus_analyzer.Common.{FrameConfig, is_rt_to_bc}
use tcp_1553_bus_analyzer.Bc.Send.{SendAnswers, send_acyclic_frame, receive_reply}
use tcp_1553_bus_analyzer.Bc.{BusController}

-- What a send needs of its frame and of the answers to its calls.
abbrev pub Goes : SendAnswers → Option FrameConfig → Type 0
Goes a none = ⊥
Goes a (some config) =
    (is_negative a.written ≡ false)
    × ((is_rt_to_bc config.mode ≡ false) ⊎ (above 5 a.reply_size ≡ true))

-- The status of a send is 0 exactly when the simulator was connected, there was a
-- frame, the write did not fail, and a frame of mode RT_TO_BC got six bytes back at least.
pub send_status_iff :
    (a : SendAnswers) (frame : Option FrameConfig) (received : List ℕ) (c : BusController)
    → ((send_acyclic_frame a frame received c).status ≡ pos 0)
      ↔ ((is_negative c.client_fd ≡ false) × Goes a frame)
unfolding send_acyclic_frame receive_reply
send_status_iff a none received c = (ground arith, ground arith)
send_status_iff a (some config) received c = (ground arith, ground arith)

abbrev pub Asks : Option FrameConfig → Type 0
Asks none = ⊥
Asks (some config) = is_rt_to_bc config.mode ≡ true

-- The caller's words are left as they are, but by a send of mode RT_TO_BC that succeeds.
pub send_received_kept :
    (a : SendAnswers) (frame : Option FrameConfig) (received : List ℕ) (c : BusController)
    → let r = send_acyclic_frame a frame received c in
      ((r.status ≡ pos 0) × Asks frame) ⊎ (r.received ≡ received)
unfolding send_acyclic_frame receive_reply
send_received_kept a none received c = ground arith
send_received_kept a (some config) received c = ground arith
