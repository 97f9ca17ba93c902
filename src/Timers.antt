-- ===== src/Timers.antt =====
-- The other reactors with a timer whose reaction calls the node and forwards what it has raised:
-- behavior_path_planner, costmap_generator, freespace_planner, shift_decider and
-- trajectory_follower (lf-src/<name>/<name>_main.lf). The methods of the nodes are parameters.
pub mod Machine
pub mod Runs
use lf_autoware.Base.{Bool, Option}
use lf_autoware.Slots.{Slot, forward, raise}

-- A node with one output, and a method that may raise it.
pub record Single (A N : Type 0) : Type 0 where
  pub output : Slot A
  pub rest : N

pub record BehaviorPathPlanner (P T H N : Type 0) : Type 0 where
  pub path : Slot P
  pub turn_signal : Slot T
  pub hazard_signal : Slot H
  pub rest : N

pub record FreespacePlanner (T N : Type 0) : Type 0 where
  pub trajectory : Slot T
  pub is_completed : Slot Bool
  pub rest : N

module _ {A N : Type 0} (method : N → N × Option A) where
  -- method(); if (lf_<output>_is_set) { lf_set(…); lf_<output>_is_set = false; }
  unfoldable pub poll : Single A N → Option A × Single A N
  unfolding forward
  poll node =
      let (rest, raised) = method node.rest in
      let (output, slot) = forward (raise raised node.output) in
      (output, record { output = slot; rest = rest })

-- self->node->callbackTimerControl(); control_cmd
unfoldable pub trajectory_follower_reaction :
    {A N : Type 0} → (N → N × Option A) → Single A N → Option A × Single A N
unfolding poll
trajectory_follower_reaction callback_timer_control = poll callback_timer_control

-- self->node->onTimer(); gear_cmd
unfoldable pub shift_decider_reaction :
    {A N : Type 0} → (N → N × Option A) → Single A N → Option A × Single A N
unfolding poll
shift_decider_reaction on_timer = poll on_timer

-- self->node->onTimer(); occupancy_grid_out
unfoldable pub costmap_generator_reaction :
    {A N : Type 0} → (N → N × Option A) → Single A N → Option A × Single A N
unfolding poll
costmap_generator_reaction on_timer = poll on_timer

module _ {P T H N : Type 0} (run : N → N × (Option P × Option T × Option H)) where
  -- The reaction of behavior_path_planner: path_out, turn_signal_out and hazard_signal_out.
  unfoldable pub behavior_path_planner_reaction :
      BehaviorPathPlanner P T H N → (Option P × Option T × Option H) × BehaviorPathPlanner P T H N
  unfolding forward
  behavior_path_planner_reaction node0 =
      let (rest, (p, t, h)) = run node0.rest in
      let node1 : BehaviorPathPlanner P T H N = record {
        path = raise p node0.path;
        turn_signal = raise t node0.turn_signal;
        hazard_signal = raise h node0.hazard_signal;
        rest = rest;
      } in
      let (path, slot1) = forward node1.path in
      let node2 = record node1 { path = slot1 } in
      let (turn_signal, slot2) = forward node2.turn_signal in
      let node3 = record node2 { turn_signal = slot2 } in
      let (hazard_signal, slot3) = forward node3.hazard_signal in
      ((path, turn_signal, hazard_signal), record node3 { hazard_signal = slot3 })

module _ {T N : Type 0} (on_timer : N → N × (Option T × Option Bool)) where
  -- The reaction of freespace_planner: trajectory_out and is_completed.
  unfoldable pub freespace_planner_reaction :
      FreespacePlanner T N → (Option T × Option Bool) × FreespacePlanner T N
  unfolding forward
  freespace_planner_reaction node0 =
      let (rest, (t, b)) = on_timer node0.rest in
      let node1 : FreespacePlanner T N = record {
        trajectory = raise t node0.trajectory;
        is_completed = raise b node0.is_completed;
        rest = rest;
      } in
      let (trajectory, slot1) = forward node1.trajectory in
      let node2 = record node1 { trajectory = slot1 } in
      let (is_completed, slot2) = forward node2.is_completed in
      ((trajectory, is_completed), record node2 { is_completed = slot2 })
