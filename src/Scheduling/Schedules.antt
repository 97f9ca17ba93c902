-- ===== src/Scheduling/Schedules.antt =====
-- The 21 reactors with a timer: what each startup reaction does with the node once its options are
-- read, the period of the timer, and the methods that its reaction calls (lf-src/<name>/<name>_main.lf).
use lf_autoware.Base.{List, [], ◌∷◌}
use lf_autoware.Scheduling.{Schedule, construct, cancel, share, start_thread}

abbrev pub automatic_pose_initializer_schedule : Schedule
automatic_pose_initializer_schedule = record {
  startup = construct ∷ cancel "timer_" ∷ share ∷ start_thread "spin_node_with_executor" ∷ [];
  period = 1000;
  methods = "on_timer" ∷ [];
}

abbrev pub behavior_path_planner_schedule : Schedule
behavior_path_planner_schedule = record {
  startup = construct ∷ cancel "timer_" ∷ share ∷ start_thread "spin_node" ∷ [];
  period = 100;
  methods = "run" ∷ [];
}

abbrev pub component_state_monitor_schedule : Schedule
component_state_monitor_schedule = record {
  startup = construct ∷ cancel "timer_" ∷ share ∷ start_thread "spin_node" ∷ [];
  period = 1000;
  methods = "on_timer" ∷ [];
}

abbrev pub costmap_generator_schedule : Schedule
costmap_generator_schedule = record {
  startup = construct ∷ cancel "timer_" ∷ share ∷ start_thread "spin_node" ∷ [];
  period = 200;
  methods = "onTimer" ∷ [];
}

abbrev pub duplicated_node_checker_schedule : Schedule
duplicated_node_checker_schedule = record {
  startup = construct ∷ cancel "timer_" ∷ share ∷ start_thread "spin_node" ∷ [];
  period = 1000;
  methods = "onTimer" ∷ [];
}

abbrev pub external_cmd_selector_schedule : Schedule
external_cmd_selector_schedule = record {
  startup = construct ∷ cancel "timer_" ∷ share ∷ start_thread "spin_node" ∷ [];
  period = 100;
  methods = "on_timer" ∷ [];
}

abbrev pub freespace_planner_schedule : Schedule
freespace_planner_schedule = record {
  startup = construct ∷ cancel "timer_" ∷ share ∷ start_thread "spin_node" ∷ [];
  period = 100;
  methods = "onTimer" ∷ [];
}

abbrev pub mission_planner_schedule : Schedule
mission_planner_schedule = record {
  startup = construct ∷ share ∷ start_thread "spin_node" ∷ [];
  period = 100;
  methods = [];
}

abbrev pub mrm_comfortable_stop_operator_schedule : Schedule
mrm_comfortable_stop_operator_schedule = record {
  startup = construct ∷ cancel "timer_" ∷ share ∷ start_thread "spin_node" ∷ [];
  period = 100;
  methods = "onTimer" ∷ [];
}

abbrev pub mrm_emergency_stop_operator_schedule : Schedule
mrm_emergency_stop_operator_schedule = record {
  startup = construct ∷ cancel "timer_" ∷ share ∷ start_thread "spin_node" ∷ [];
  period = 100;
  methods = "onTimer" ∷ [];
}

abbrev pub mrm_handler_schedule : Schedule
mrm_handler_schedule = record {
  startup = construct ∷ cancel "timer_" ∷ share ∷ start_thread "spin_node_with_executor" ∷ [];
  period = 100;
  methods = "onTimer" ∷ [];
}

abbrev pub obstacle_collision_checker_schedule : Schedule
obstacle_collision_checker_schedule = record {
  startup = construct ∷ cancel "timer_" ∷ share ∷ start_thread "spin_node" ∷ [];
  period = 100;
  methods = "on_timer" ∷ [];
}

abbrev pub path_generator_schedule : Schedule
path_generator_schedule = record {
  startup = construct ∷ cancel "timer_" ∷ share ∷ start_thread "spin_node" ∷ [];
  period = 100;
  methods = "run" ∷ [];
}

abbrev pub pipeline_latency_monitor_schedule : Schedule
pipeline_latency_monitor_schedule = record {
  startup = construct ∷ cancel "timer_" ∷ share ∷ start_thread "spin_node" ∷ [];
  period = 1000;
  methods = "on_timer" ∷ [];
}

abbrev pub pose_instability_detector_schedule : Schedule
pose_instability_detector_schedule = record {
  startup = construct ∷ cancel "timer_" ∷ share ∷ start_thread "spin_node" ∷ [];
  period = 100;
  methods = "callback_timer" ∷ [];
}

abbrev pub predicted_path_checker_schedule : Schedule
predicted_path_checker_schedule = record {
  startup = construct ∷ cancel "timer_" ∷ share ∷ start_thread "spin_node" ∷ [];
  period = 100;
  methods = "onTimer" ∷ [];
}

abbrev pub processing_time_checker_schedule : Schedule
processing_time_checker_schedule = record {
  startup = construct ∷ cancel "timer_" ∷ share ∷ start_thread "spin_node" ∷ [];
  period = 1000;
  methods = "on_timer" ∷ [];
}

abbrev pub scenario_selector_schedule : Schedule
scenario_selector_schedule = record {
  startup = construct ∷ cancel "timer_" ∷ share ∷ start_thread "spin_node" ∷ [];
  period = 100;
  methods = "onTimer" ∷ [];
}

abbrev pub shift_decider_schedule : Schedule
shift_decider_schedule = record {
  startup = construct ∷ cancel "timer_" ∷ share ∷ start_thread "spin_node" ∷ [];
  period = 100;
  methods = "onTimer" ∷ [];
}

abbrev pub trajectory_follower_schedule : Schedule
trajectory_follower_schedule = record {
  startup = construct ∷ cancel "timer_control_" ∷ share ∷ start_thread "spin_node" ∷ [];
  period = 30;
  methods = "callbackTimerControl" ∷ [];
}

abbrev pub vehicle_cmd_gate_schedule : Schedule
vehicle_cmd_gate_schedule = record {
  startup =
      construct
      ∷ cancel "timer_"
      ∷ cancel "timer_pub_status_"
      ∷ share
      ∷ start_thread "spin_node"
      ∷ [];
  period = 50;
  methods = "onTimer" ∷ "publishStatus" ∷ [];
}

abbrev pub schedules : List Schedule
schedules =
    automatic_pose_initializer_schedule ∷ behavior_path_planner_schedule
    ∷ component_state_monitor_schedule ∷ costmap_generator_schedule
    ∷ duplicated_node_checker_schedule ∷ external_cmd_selector_schedule ∷ freespace_planner_schedule
    ∷ mission_planner_schedule ∷ mrm_comfortable_stop_operator_schedule
    ∷ mrm_emergency_stop_operator_schedule ∷ mrm_handler_schedule
    ∷ obstacle_collision_checker_schedule ∷ path_generator_schedule
    ∷ pipeline_latency_monitor_schedule ∷ pose_instability_detector_schedule
    ∷ predicted_path_checker_schedule ∷ processing_time_checker_schedule
    ∷ scenario_selector_schedule ∷ shift_decider_schedule ∷ trajectory_follower_schedule
    ∷ vehicle_cmd_gate_schedule ∷ []
