-- ===== src/Tests/Schedules.antt =====
-- A run of trajectory_follower with a node that has a second timer.
use lf_autoware.Base.{◌≡◌, refl, false, List, [], ◌∷◌, All}
use lf_autoware.Scheduling.{
  construct, cancel, share, start_thread, Schedule, member, Running, perform, react, fresh,
  NodeTimer, act, tag, fire, Steps, stop, next,
}
use lf_autoware.Scheduling.Schedules.{trajectory_follower_schedule}
use lf_autoware.Scheduling.Exclusive.{Taken, calls_of, schedules-exclusive}

abbrev follower : Schedule
follower = trajectory_follower_schedule

abbrev timers : List NodeTimer
timers = ("timer_control_", "callbackTimerControl") ∷ ("timer_diagnostics_", "diagnose") ∷ []

abbrev started : Running
started = perform (start_thread "spin_node") [] (
    perform share (start_thread "spin_node" ∷ []) (
      perform (cancel "timer_control_") (share ∷ start_thread "spin_node" ∷ []) (
        perform construct (cancel "timer_control_" ∷ share ∷ start_thread "spin_node" ∷ [])
          (fresh follower))))

-- Two tags, with the second timer of the node between them.
abbrev ran : Running
ran =
    let once = react follower started in
    react follower
      (record once { timer_calls = ("timer_diagnostics_", "diagnose") ∷ once.timer_calls })

ran-Steps : Steps follower timers (fresh follower) ran
ran-Steps =
    next
      (next
        (next
          (next
            (next
              (next
                (next stop (
                  act construct (cancel "timer_control_" ∷ share ∷ start_thread "spin_node" ∷ [])
                    refl))
                (act (cancel "timer_control_") (share ∷ start_thread "spin_node" ∷ []) refl))
              (act share (start_thread "spin_node" ∷ []) refl))
            (act (start_thread "spin_node") [] refl))
          (tag refl))
        (fire 1 ("timer_diagnostics_", "diagnose") refl refl refl))
      (tag refl)

abbrev follower_taken : Taken
follower_taken = record {
  period = 30;
  methods = "callbackTimerControl" ∷ [];
  timers = "timer_control_" ∷ [];
}

schedules-exclusive_example :
    All (λ t. member t.0 ("timer_control_" ∷ []) ≡ false) ran.timer_calls
    × (ran.reaction_calls ≡ calls_of follower_taken 2)
schedules-exclusive_example =
    schedules-exclusive 19 follower follower_taken refl refl timers ran ran-Steps

ran_calls : ran.reaction_calls ≡ (0, "callbackTimerControl") ∷ (30, "callbackTimerControl") ∷ []
ran_calls = refl
