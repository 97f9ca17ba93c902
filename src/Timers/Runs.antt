-- ===== src/Timers/Runs.antt =====
-- The reactors with a timer put out what their nodes raise, tag by tag.
use lf_autoware.Base.{◌≡◌, refl, Bool, Option, none, List}
use lf_autoware.Slots.{waiting, newest, newest-none, forward-raise}
use lf_autoware.Timers.{
  Single, BehaviorPathPlanner, FreespacePlanner, poll, trajectory_follower_reaction,
  shift_decider_reaction, costmap_generator_reaction, behavior_path_planner_reaction,
  freespace_planner_reaction,
}
use lf_autoware.Timers.Machine.{Polling, reactor_outputs, machine_outputs, reactor-eq-machine}

-- A node with one slot, with any reaction that polls it.
unfoldable pub single_node :
    {A N : Type 0} (method : N → N × Option A) → Polling (Single A N) N (Option A)
unfolding poll
single_node method = record {
  reaction = poll method;
  method = method;
  rest = λ s. s.rest;
  with_rest = λ r s. record s { rest = r };
  pending = λ s. waiting s.output;
  absent = none;
  newer = newest;
  newer-absent = newest-none;
  forwards = λ s. (forward-raise (method s.rest).1 none s.output).0;
  clears = λ s. (forward-raise (method s.rest).1 none s.output).1;
  advances = λ s. refl;
  rest-with_rest = λ r s. refl;
  pending-with_rest = λ r s. refl;
}

unfoldable pub trajectory_follower_node :
    {A N : Type 0} (callback_timer_control : N → N × Option A) → Polling (Single A N) N (Option A)
unfolding single_node trajectory_follower_reaction poll
trajectory_follower_node callback_timer_control = record (single_node callback_timer_control) {
  reaction = trajectory_follower_reaction callback_timer_control;
}

unfoldable pub shift_decider_node :
    {A N : Type 0} (on_timer : N → N × Option A) → Polling (Single A N) N (Option A)
unfolding single_node shift_decider_reaction poll
shift_decider_node on_timer = record (single_node on_timer) {
  reaction = shift_decider_reaction on_timer;
}

unfoldable pub costmap_generator_node :
    {A N : Type 0} (on_timer : N → N × Option A) → Polling (Single A N) N (Option A)
unfolding single_node costmap_generator_reaction poll
costmap_generator_node on_timer = record (single_node on_timer) {
  reaction = costmap_generator_reaction on_timer;
}

-- Each of several outputs is forwarded by itself.
abbrev three_newest :
    {P T H : Type 0}
    → Option P × Option T × Option H
    → Option P × Option T × Option H
    → Option P × Option T × Option H
three_newest (p, t, h) (p', t', h') = (newest p p', newest t t', newest h h')

unfoldable pub behavior_path_planner_node :
    {P T H N : Type 0} (run : N → N × (Option P × Option T × Option H))
    → Polling (BehaviorPathPlanner P T H N) N (Option P × Option T × Option H)
unfolding behavior_path_planner_reaction
behavior_path_planner_node run = record {
  reaction = behavior_path_planner_reaction run;
  method = run;
  rest = λ s. s.rest;
  with_rest = λ r s. record s { rest = r };
  pending = λ s. (waiting s.path, waiting s.turn_signal, waiting s.hazard_signal);
  absent = (none, none, none);
  newer = three_newest;
  newer-absent = λ (p, t, h). λ i. (newest-none p i, newest-none t i, newest-none h i);
  forwards = λ s. λ i. (
    (forward-raise (run s.rest).1.0 none s.path).0 i,
    (forward-raise (run s.rest).1.1 none s.turn_signal).0 i,
    (forward-raise (run s.rest).1.2 none s.hazard_signal).0 i,
  );
  clears = λ s. λ i. (
    (forward-raise (run s.rest).1.0 none s.path).1 i,
    (forward-raise (run s.rest).1.1 none s.turn_signal).1 i,
    (forward-raise (run s.rest).1.2 none s.hazard_signal).1 i,
  );
  advances = λ s. refl;
  rest-with_rest = λ r s. refl;
  pending-with_rest = λ r s. refl;
}

abbrev two_newest : {T B : Type 0} → Option T × Option B → Option T × Option B → Option T × Option B
two_newest (t, b) (t', b') = (newest t t', newest b b')

unfoldable pub freespace_planner_node :
    {T N : Type 0} (on_timer : N → N × (Option T × Option Bool))
    → Polling (FreespacePlanner T N) N (Option T × Option Bool)
unfolding freespace_planner_reaction
freespace_planner_node on_timer = record {
  reaction = freespace_planner_reaction on_timer;
  method = on_timer;
  rest = λ s. s.rest;
  with_rest = λ r s. record s { rest = r };
  pending = λ s. (waiting s.trajectory, waiting s.is_completed);
  absent = (none, none);
  newer = two_newest;
  newer-absent = λ (t, b). λ i. (newest-none t i, newest-none b i);
  forwards = λ s. λ i. (
    (forward-raise (on_timer s.rest).1.0 none s.trajectory).0 i,
    (forward-raise (on_timer s.rest).1.1 none s.is_completed).0 i,
  );
  clears = λ s. λ i. (
    (forward-raise (on_timer s.rest).1.0 none s.trajectory).1 i,
    (forward-raise (on_timer s.rest).1.1 none s.is_completed).1 i,
  );
  advances = λ s. refl;
  rest-with_rest = λ r s. refl;
  pending-with_rest = λ r s. refl;
}

-- Let nothing wait in the slot of the node. Then at every tag trajectory_follower, shift_decider and
-- costmap_generator set their output to exactly what the timer method of the node raises at that
-- tag, whatever the callbacks of the spin thread do to the rest of the node between the tags.
pub single-eq-machine :
    {A N : Type 0} (method : N → N × Option A) (fs : List (N → N)) (s : Single A N)
    → waiting s.output ≡ none
    → (reactor_outputs (trajectory_follower_node method) fs s
        ≡ machine_outputs (trajectory_follower_node method) fs s.rest)
      × (reactor_outputs (shift_decider_node method) fs s
          ≡ machine_outputs (shift_decider_node method) fs s.rest)
      × (reactor_outputs (costmap_generator_node method) fs s
          ≡ machine_outputs (costmap_generator_node method) fs s.rest)
unfolding trajectory_follower_node shift_decider_node costmap_generator_node single_node
single-eq-machine method fs s h = (
  reactor-eq-machine (trajectory_follower_node method) fs s h,
  reactor-eq-machine (shift_decider_node method) fs s h,
  reactor-eq-machine (costmap_generator_node method) fs s h,
)

-- Let nothing wait in the three slots of the node. Then at every tag behavior_path_planner sets its
-- path, its turn signal and its hazard signal to exactly what `run` raises at that tag, whatever the
-- callbacks of the spin thread do to the rest of the node between the tags.
pub behavior_path_planner-eq-machine :
    {P T H N : Type 0} (run : N → N × (Option P × Option T × Option H)) (fs : List (N → N))
    (s : BehaviorPathPlanner P T H N)
    → waiting s.path ≡ none
    → waiting s.turn_signal ≡ none
    → waiting s.hazard_signal ≡ none
    → reactor_outputs (behavior_path_planner_node run) fs s
      ≡ machine_outputs (behavior_path_planner_node run) fs s.rest
unfolding behavior_path_planner_node
behavior_path_planner-eq-machine run fs s p t h =
    reactor-eq-machine (behavior_path_planner_node run) fs s (λ i. (p i, t i, h i))

-- Let nothing wait in the two slots of the node. Then at every tag freespace_planner sets its
-- trajectory and its completion flag to exactly what `onTimer` raises at that tag, whatever the
-- callbacks of the spin thread do to the rest of the node between the tags.
pub freespace_planner-eq-machine :
    {T N : Type 0} (on_timer : N → N × (Option T × Option Bool)) (fs : List (N → N))
    (s : FreespacePlanner T N)
    → waiting s.trajectory ≡ none
    → waiting s.is_completed ≡ none
    → reactor_outputs (freespace_planner_node on_timer) fs s
      ≡ machine_outputs (freespace_planner_node on_timer) fs s.rest
unfolding freespace_planner_node
freespace_planner-eq-machine on_timer fs s t b =
    reactor-eq-machine (freespace_planner_node on_timer) fs s (λ i. (t i, b i))
