-- ===== src/Tests/Ticks.antt =====
-- Two tags of the reactors with a timer, with numbers as messages.
use lf_autoware.Base.{ℕ, ◌+◌, ◌≡◌, refl, false, Option, none, some, List, [], ◌∷◌}
use lf_autoware.Slots.{Slot}
use lf_autoware.Timers.{Single, BehaviorPathPlanner}
use lf_autoware.Timers.Machine.{reactor_outputs, machine_outputs}
use lf_autoware.Timers.Runs.{
  trajectory_follower_node, shift_decider_node, costmap_generator_node, behavior_path_planner_node,
  single_node, single-eq-machine, behavior_path_planner-eq-machine,
}

abbrev unset : Slot ℕ
unset = record { value = 0; is_set = false }

-- Nothing happens before the first tag, and the state is raised by 10 before the second.
abbrev callbacks : List (ℕ → ℕ)
callbacks = (λ n. n) ∷ (λ n. n + 10) ∷ []

abbrev control : ℕ → ℕ × Option ℕ
control n = (n + 1, some n)

abbrev follower : Single ℕ ℕ
follower = record { output = unset; rest = 3 }

single-eq-machine_example :
    (reactor_outputs (trajectory_follower_node control) callbacks follower
      ≡ machine_outputs (trajectory_follower_node control) callbacks follower.rest)
    × (reactor_outputs (shift_decider_node control) callbacks follower
        ≡ machine_outputs (shift_decider_node control) callbacks follower.rest)
    × (reactor_outputs (costmap_generator_node control) callbacks follower
        ≡ machine_outputs (costmap_generator_node control) callbacks follower.rest)
single-eq-machine_example = single-eq-machine control callbacks follower refl

control_outputs :
    machine_outputs (trajectory_follower_node control) callbacks 3 ≡ some 3 ∷ some 14 ∷ []
unfolding trajectory_follower_node single_node
control_outputs = refl

abbrev plan : ℕ → ℕ × (Option ℕ × Option ℕ × Option ℕ)
plan n = (n + 1, (some n, none, some (n + 1)))

abbrev planner : BehaviorPathPlanner ℕ ℕ ℕ ℕ
planner = record { path = unset; turn_signal = unset; hazard_signal = unset; rest = 5 }

behavior_path_planner-eq-machine_example :
    reactor_outputs (behavior_path_planner_node plan) callbacks planner
    ≡ machine_outputs (behavior_path_planner_node plan) callbacks planner.rest
behavior_path_planner-eq-machine_example =
    behavior_path_planner-eq-machine plan callbacks planner refl refl refl
