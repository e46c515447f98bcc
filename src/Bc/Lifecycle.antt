-- ===== src/Bc/Lifecycle.antt =====
-- `initialize`, `acceptLoop`, `sendAcyclicFrame` and `shutdown` as steps of one controller, each run
-- whole, one after the other: what they keep, and where every socket goes. Bc.Race has the threads
-- that run them interleaved, access by access.
use tcp_1553_bus_analyzer.Prelude.{
  ℕ, ◌≡◌, ◌⊎◌, true, false, not, List, [], ◌∷◌, Option, none, some, arith, if◌then◌else◌,
}
use tcp_1553_bus_analyzer.Prelude.Int.{ℤ, pos, is_negative, minus_one}
use tcp_1553_bus_analyzer.Text.{Text}
use tcp_1553_bus_analyzer.Common.{FrameConfig}
use tcp_1553_bus_analyzer.Bc.Send.{SendAnswers, send_acyclic_frame}
use tcp_1553_bus_analyzer.Bc.{
  BusController, Call, close, ServerAnswers, initialize, accept_round, shutdown, is_ready,
}

-- A controller is ready, with its thread and its server socket, or has neither.
pub record IsConsistent (c : BusController) : Type 0 where
  pub thread : c.accept_thread ≡ c.is_initialized
  pub server : is_negative c.server_fd ≡ not c.is_initialized

-- The sockets that a list of calls closes.
abbrev pub closes : List Call → List ℤ
closes [] = []
closes (close fd ∷ calls) = fd ∷ closes calls
closes (_ ∷ calls) = closes calls

pub data Op : Type 0 where
  initializes : ServerAnswers → Text → ℕ → Op
  accepts : ℤ → Op
  sends : SendAnswers → Option FrameConfig → List ℕ → Op
  shuts_down : Op

-- No other thread has changed `m_clientFd` between a write that fails and the exchange behind it.
abbrev pub IsAlone : Op → BusController → Type 0
IsAlone (sends a frame received) c = a.client_then ≡ c.client_fd
IsAlone _ c = Unit {0}

unfoldable pub step : (ℕ → Text) → Op → BusController → BusController × List Call
step strerror (initializes a host port) c = let r = initialize strerror a host port c in (r.0, r.2)
step strerror (accepts new_socket) c = let r = accept_round new_socket c in (r.0, r.2)
step strerror (sends a frame received) c =
    let r = send_acyclic_frame a frame received c in (r.controller, r.calls)
step strerror shuts_down c = shutdown c

module _ (strerror : ℕ → Text) where
  pub initialize-IsConsistent :
      (a : ServerAnswers) (host : Text) (port : ℕ) (c : BusController)
      → IsConsistent c
      → IsConsistent (initialize strerror a host port c).0
  unfolding initialize
  initialize-IsConsistent a host port c v = ground arith

  -- Every operation leaves a consistent controller consistent: ready, with its thread and its
  -- server socket, or with neither of them.
  pub step-IsConsistent :
      (o : Op) (c : BusController) → IsConsistent c → IsConsistent (step strerror o c).0
  unfolding step accept_round shutdown send_acyclic_frame
  step-IsConsistent (initializes a host port) c v = initialize-IsConsistent a host port c v
  step-IsConsistent (accepts n) c v = ground arith
  step-IsConsistent (sends a none r) c v = ground arith
  step-IsConsistent (sends a (some f) r) c v = ground arith
  step-IsConsistent shuts_down c v = ground arith

  -- `initialize` of a consistent controller that is not ready: it returns 0 and is ready with the
  -- new socket, which it has not closed; or it returns -1 and is not ready, with no server socket,
  -- having closed the one that it got, once, if it got one.
  pub initialize_outcome :
      (a : ServerAnswers) (host : Text) (port : ℕ) (c : BusController)
      → IsConsistent c
      → c.is_initialized ≡ false
      → let r = initialize strerror a host port c in
        ((r.1 ≡ pos 0) × (is_ready r.0 ≡ true) × (r.0.server_fd ≡ a.socket_fd) × (closes r.2 ≡ []))
        ⊎ ((r.1 ≡ minus_one)
            × (is_ready r.0 ≡ false)
            × (is_negative r.0.server_fd ≡ true)
            × (closes r.2 ≡ (if is_negative a.socket_fd then [] else a.socket_fd ∷ [])))
  unfolding initialize is_ready
  initialize_outcome a host port c v e = ground arith

-- A second `shutdown` does nothing.
pub shutdown-shutdown : (c : BusController) → shutdown (shutdown c).0 ≡ ((shutdown c).0, [])
unfolding shutdown
shutdown-shutdown c = ground arith
