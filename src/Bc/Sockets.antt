-- ===== src/Bc/Sockets.antt =====
-- The balance of sockets over any sequence of operations of one controller.
use tcp_1553_bus_analyzer.Prelude.{
  ℕ, ◌+◌, ◌≡◌, refl, ap, List, [], ◌∷◌, ◌++◌, none, some, arith, if◌then◌else◌,
}
use tcp_1553_bus_analyzer.Prelude.Int.{ℤ, is_negative, eq_int, eq_int_self}
use tcp_1553_bus_analyzer.Text.{Text}
use tcp_1553_bus_analyzer.Bc.Send.{send_acyclic_frame}
use tcp_1553_bus_analyzer.Bc.Lifecycle.{
  Op, initializes, accepts, sends, shuts_down, IsAlone, step, closes, IsConsistent,
  step-IsConsistent,
}
use tcp_1553_bus_analyzer.Bc.{BusController, Call, initialize, accept_round, shutdown, idle}

abbrev if_open : ℤ → List ℤ
if_open fd = if is_negative fd then [] else fd ∷ []

-- The sockets that the controller holds.
abbrev pub held : BusController → List ℤ
held c = if_open c.server_fd ++ if_open c.client_fd

-- The sockets that the operating system hands out during an operation.
abbrev pub opened : Op → BusController → List ℤ
opened (initializes a host port) c = if c.is_initialized then [] else if_open a.socket_fd
opened (accepts n) c = if_open n
opened (sends a f r) c = []
opened shuts_down c = []

abbrev pub count : ℤ → List ℤ → ℕ
count fd [] = 0
count fd (x ∷ xs) = (if eq_int x fd then 1 else 0) + count fd xs

pub count-append : (fd : ℤ) (xs ys : List ℤ) → count fd (xs ++ ys) ≡ count fd xs + count fd ys
count-append fd [] ys = omega arith
count-append fd (x ∷ xs) ys = omega (arith, count-append fd xs ys)

module _ (strerror : ℕ → Text) where
  -- One operation: what was held and what came in is closed or still held.
  abbrev pub Balanced : Op → BusController → ℤ → Type 0
  Balanced o c fd =
      let (d, calls) = step strerror o c in
      count fd (held c) + count fd (opened o c) ≡ count fd (closes calls) + count fd (held d)

  pub step-Balanced :
      (o : Op) (c : BusController) (fd : ℤ) → IsAlone o c → IsConsistent c → Balanced o c fd
  unfolding step initialize accept_round shutdown send_acyclic_frame
  step-Balanced (initializes a host port) c fd h v = ground arith
  step-Balanced (accepts n) c fd h v = ground arith
  step-Balanced (sends a none r) c fd h v = ground arith
  step-Balanced (sends a (some f) r) c fd h v = ground (arith, eq_int_self c.client_fd)
  step-Balanced shuts_down c fd h v = ground arith

  -- The operations of a list, one after the other, with all their calls in order.
  unfoldable pub run : List Op → BusController → BusController × List Call
  run [] c = (c, [])
  run (o ∷ os) c =
      let (d, calls) = step strerror o c in let (e, later) = run os d in (e, calls ++ later)

  unfoldable pub opened_run : List Op → BusController → List ℤ
  opened_run [] c = []
  opened_run (o ∷ os) c = opened o c ++ opened_run os (step strerror o c).0

  pub closes-append : (xs ys : List Call) → closes (xs ++ ys) ≡ closes xs ++ closes ys
  closes-append [] ys = refl
  closes-append (x ∷ xs) ys = ground (arith, closes-append xs ys)

  abbrev pub AllAlone : List Op → BusController → Type 0
  AllAlone [] c = Unit {0}
  AllAlone (o ∷ os) c = IsAlone o c × AllAlone os (step strerror o c).0

  run-Balanced :
      (os : List Op) (c : BusController) (fd : ℤ)
      → AllAlone os c
      → IsConsistent c
      → let (d, calls) = run os c in
        count fd (held c) + count fd (opened_run os c) ≡ count fd (closes calls) + count fd (held d)
  unfolding run opened_run
  run-Balanced [] c fd h v = omega arith
  run-Balanced (o ∷ os) c fd h v =
      let (d, calls) = step strerror o c in
      let (e, later) = run os d in
      omega (
        arith,
        step-Balanced o c fd h.0 v,
        run-Balanced os d fd h.1 (step-IsConsistent strerror o c v),
        count-append fd (opened o c) (opened_run os d),
        ap (count fd) (closes-append calls later),
        count-append fd (closes calls) (closes later),
      )

  run-IsConsistent : (os : List Op) (c : BusController) → IsConsistent c → IsConsistent (run os c).0
  unfolding run
  run-IsConsistent [] c v = v
  run-IsConsistent (o ∷ os) c v = run-IsConsistent os _ (step-IsConsistent strerror o c v)

  pub held-shutdown : (c : BusController) → IsConsistent c → held (shutdown c).0 ≡ []
  unfolding shutdown
  held-shutdown c v = ground arith

  pub shutdown-Balanced :
      (c : BusController) (fd : ℤ)
      → let (d, calls) = shutdown c in
        count fd (held c) ≡ count fd (closes calls) + count fd (held d)
  unfolding shutdown
  shutdown-Balanced c fd = ground arith

  -- Over any operations of a new controller that do not overlap, one after the other, and a
  -- `shutdown` at the end, each socket is closed as often as the operating system handed it out.
  pub run-shutdown :
      (os : List Op) (fd : ℤ)
      → AllAlone os idle
      → let (c, calls) = run os idle in
        count fd (opened_run os idle) ≡ count fd (closes (calls ++ (shutdown c).1))
  run-shutdown os fd h =
      let (c, calls) = run os idle in
      let start : IsConsistent idle = record { thread = refl; server = refl } in
      let v = run-IsConsistent os idle start in
      omega (
        arith,
        run-Balanced os idle fd h start,
        shutdown-Balanced c fd,
        ap (count fd) (held-shutdown c v),
        ap (count fd) (closes-append calls (shutdown c).1),
        count-append fd (closes calls) (closes (shutdown c).1),
      )
