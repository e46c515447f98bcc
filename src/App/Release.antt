-- ===== src/App/Release.antt =====
-- The sockets of the controller over a run of the program.
use tcp_1553_bus_analyzer.Prelude.{
  ℕ, ◌+◌, ◌^◌, ◌≡◌, refl, ap, List, [], ◌∷◌, ◌++◌, Option, none, some, arith, inl, inr,
  Option-cases, if◌then◌else◌,
}
use tcp_1553_bus_analyzer.Prelude.Int.{ℤ, wrap}
use tcp_1553_bus_analyzer.Text.{Text}
use tcp_1553_bus_analyzer.TcpProxy.{PcapAnswers}
use tcp_1553_bus_analyzer.Bc.{ServerAnswers}
use tcp_1553_bus_analyzer.Bc.Lifecycle.{
  closes, IsConsistent, IsAlone, initializes, step-IsConsistent,
}
use tcp_1553_bus_analyzer.Bc.Lifecycle
use tcp_1553_bus_analyzer.Bc.Sockets.{
  held, opened, count, count-append, closes-append, step-Balanced, shutdown-Balanced, held-shutdown,
}
use tcp_1553_bus_analyzer.Bm.{start}
use tcp_1553_bus_analyzer.View.{Tree}
use tcp_1553_bus_analyzer.App.{
  MainFrame, new_main_frame, set_status_text, initialize_hardware, initialize_monitor_panel,
  initialize_panels, connect_port, on_connect, on_close, exit,
}
use tcp_1553_bus_analyzer.App.Run.{
  Event, types, connects, starts_or_stops, toggles_log, clicks_item, clears_filter, clears_messages,
  resets_stream, monitors, controls, step, run, ticks, shows,
}
use tcp_1553_bus_analyzer.App.Status.{
  start_stop, click_item, clear_filter, clear_messages, reset_stream, tick,
}

module _ (strerror : ℕ → Text) (to_long : Text → Option ℤ) where
  connected : PcapAnswers → ℕ → ServerAnswers → Text → ℤ → MainFrame → List ℤ
  connected a now server host port f =
      let cut = wrap (2 ^ 16) port in
      let (_, ok, _) = start a now host cut f.monitor in
      if ok then opened (initializes server host cut) f.controller else []

  -- The sockets that the operating system hands out at an event.
  unfoldable pub sockets_given : Event → MainFrame → List ℤ
  unfolding connected
  sockets_given (connects a now server) f = elim (to_long f.port_text) [
    | none ↦ []
    | some port ↦ connected a now server f.host_text port f
  ]
  sockets_given (controls o) f = opened o f.controller
  sockets_given _ f = []

  unfoldable pub all_sockets_given : List Event → MainFrame → List ℤ
  all_sockets_given [] f = []
  all_sockets_given (e ∷ es) f =
      sockets_given e f ++ all_sockets_given es (step strerror to_long e f).0

  -- The operations of the controller do not overlap: none runs inside another's send.
  abbrev pub IsAloneAt : Event → MainFrame → Type 0
  IsAloneAt (controls o) f = IsAlone o f.controller
  IsAloneAt _ f = Unit {0}

  abbrev pub AllAlone : List Event → MainFrame → Type 0
  AllAlone [] f = Unit {0}
  AllAlone (e ∷ es) f = IsAloneAt e f × AllAlone es (step strerror to_long e f).0

  -- What an event does to the controller.
  abbrev Released : Event → MainFrame → ℤ → Type 0
  Released e f fd =
      let (g, _, calls) = step strerror to_long e f in
      IsConsistent g.controller
      × (count fd (held f.controller) + count fd (sockets_given e f)
          ≡ count fd (closes calls) + count fd (held g.controller))

  connected-Released :
      (a : PcapAnswers) (now : ℕ) (server : ServerAnswers) (host : Text) (port : ℤ) (f : MainFrame)
      (fd : ℤ)
      → IsConsistent f.controller
      → let (g, _, calls) = connect_port strerror a now server host port f in
        IsConsistent g.controller
        × (count fd (held f.controller) + count fd (connected a now server host port f)
            ≡ count fd (closes calls) + count fd (held g.controller))
  unfolding connected connect_port initialize_panels initialize_monitor_panel initialize_hardware
      set_status_text Lifecycle.step
  connected-Released a now server host port f fd v =
      let o = initializes server host (wrap (2 ^ 16) port) in
      ground (
        arith,
        step-IsConsistent strerror o f.controller v,
        step-Balanced strerror o f.controller fd tt v,
      )

  step-Released :
      (e : Event) (f : MainFrame) (fd : ℤ)
      → IsAloneAt e f
      → IsConsistent f.controller
      → Released e f fd
  unfolding step start_stop click_item clear_filter clear_messages reset_stream tick on_connect
      sockets_given
  step-Released (connects a now server) f fd h v = elim (Option-cases (to_long f.port_text)) [
    | inl e ↦ ground (arith, e, v)
    | inr (port, e) ↦ ground (arith, e, connected-Released a now server f.host_text port f fd v)
  ]
  step-Released (controls o) f fd h v =
      (step-IsConsistent strerror o f.controller v, step-Balanced strerror o f.controller fd h v)
  step-Released (types host port) f fd h v = (v, omega arith)
  step-Released (starts_or_stops a now) f fd h v = ground arith
  step-Released (toggles_log checked) f fd h v = (v, omega arith)
  step-Released (clicks_item item) f fd h v = ground arith
  step-Released clears_filter f fd h v = ground arith
  step-Released clears_messages f fd h v = ground arith
  step-Released resets_stream f fd h v = ground arith
  step-Released ticks f fd h v = ground arith
  step-Released (shows l calls) f fd h v = (v, omega arith)
  step-Released (monitors clock now) f fd h v = (v, omega arith)

  run_released :
      (es : List Event) (f : MainFrame) (fd : ℤ)
      → AllAlone es f
      → IsConsistent f.controller
      → let (g, _, calls) = run strerror to_long es f in
        IsConsistent g.controller
        × (count fd (held f.controller) + count fd (all_sockets_given es f)
            ≡ count fd (closes calls) + count fd (held g.controller))
  unfolding run all_sockets_given
  run_released [] f fd h v = (v, omega arith)
  run_released (e ∷ es) f fd lone v =
      let (g, _, calls) = step strerror to_long e f in
      let (h, _, more) = run strerror to_long es g in
      let (w, one) = step-Released e f fd lone.0 v in
      let (x, rest) = run_released es g fd lone.1 w in
      (
        x,
        omega (
          arith,
          one,
          rest,
          count-append fd (sockets_given e f) (all_sockets_given es g),
          ap (count fd) (closes-append strerror calls more),
          count-append fd (closes calls) (closes more),
        ),
      )

  exit_released :
      (f : MainFrame) (fd : ℤ)
      → IsConsistent f.controller
      → let (_, _, calls) = exit f in count fd (held f.controller) ≡ count fd (closes calls)
  unfolding exit on_close
  exit_released f fd v = omega (
    arith,
    shutdown-Balanced strerror f.controller fd,
    ap (count fd) (held-shutdown strerror f.controller v),
  )

  -- Over any events of a new window and the end of the program, where the operations of the
  -- controller run one after the other, so that no other thread changes `m_clientFd` between a
  -- write that fails and the exchange behind it: each socket is closed as often as the operating
  -- system handed it out.
  pub run-exit_sockets :
      (t : Tree) (es : List Event) (fd : ℤ)
      → AllAlone es (new_main_frame t)
      → let (f, _, calls) = run strerror to_long es (new_main_frame t) in
        count fd (all_sockets_given es (new_main_frame t)) ≡ count fd (closes (calls ++ (exit f).2))
  run-exit_sockets t es fd h =
      let (f, _, calls) = run strerror to_long es (new_main_frame t) in
      let (w, all) =
        run_released es (new_main_frame t) fd h (record { thread = refl; server = refl }) in
      omega (
        arith,
        all,
        exit_released f fd w,
        ap (count fd) (closes-append strerror calls (exit f).2),
        count-append fd (closes calls) (closes (exit f).2),
      )
