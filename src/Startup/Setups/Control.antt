-- ===== src/Startup/Setups/Control.antt =====
-- What the startup reactions load and add: the reactors that AutowareFederated.lf lists under Control.
use lf_autoware.Base.{List, [], ◌∷◌, codes, true, false}
use lf_autoware.Config.Yaml.{bool, text}
use lf_autoware.Startup.{Setup, from_yaml, from_yamls, parameter}
use lf_autoware.Startup.Paths.Further.{control_validator_param}
use lf_autoware.Startup.Paths.Common.{vehicle_info_param}
use lf_autoware.Startup.Paths.Control.{
  autonomous_emergency_braking_param, collision_detector_param, external_cmd_selector_param,
  lane_departure_checker_param, control_nearest_search_param, obstacle_collision_checker_param,
  operation_mode_transition_manager_param, predicted_path_checker_param, shift_decider_param,
  trajectory_follower_param, mpc_lateral_param, pid_longitudinal_param, vehicle_cmd_gate_param,
}

abbrev pub autonomous_emergency_braking : {D : Type 0} → Setup D
autonomous_emergency_braking = record {
  loading = from_yamls (autonomous_emergency_braking_param ∷ vehicle_info_param ∷ []);
  extra = [];
}

abbrev pub collision_detector : {D : Type 0} → Setup D
collision_detector = record {
  loading = from_yamls (collision_detector_param ∷ vehicle_info_param ∷ []);
  extra = [];
}

abbrev pub external_cmd_selector : {D : Type 0} → Setup D
external_cmd_selector = record { loading = from_yaml external_cmd_selector_param; extra = [] }

abbrev pub lane_departure_checker : {D : Type 0} → Setup D
lane_departure_checker = record {
  loading =
      from_yamls
        (lane_departure_checker_param ∷ control_nearest_search_param ∷ vehicle_info_param ∷ []);
  extra = [];
}

abbrev pub obstacle_collision_checker : {D : Type 0} → Setup D
obstacle_collision_checker = record {
  loading = from_yamls (obstacle_collision_checker_param ∷ vehicle_info_param ∷ []);
  extra = [];
}

abbrev pub operation_mode_transition_manager : {D : Type 0} → Setup D
operation_mode_transition_manager = record {
  loading = from_yamls (
      operation_mode_transition_manager_param ∷ control_nearest_search_param ∷ vehicle_info_param
      ∷ []);
  extra = [];
}

abbrev pub predicted_path_checker : {D : Type 0} → Setup D
predicted_path_checker = record {
  loading = from_yamls (predicted_path_checker_param ∷ vehicle_info_param ∷ []);
  extra = [];
}

abbrev pub shift_decider : {D : Type 0} → Setup D
shift_decider = record { loading = from_yaml shift_decider_param; extra = [] }

abbrev pub trajectory_follower : {D : Type 0} → Setup D
trajectory_follower = record {
  loading = from_yamls (
      control_nearest_search_param ∷ trajectory_follower_param ∷ mpc_lateral_param
      ∷ pid_longitudinal_param ∷ vehicle_info_param ∷ []);
  extra =
      parameter (codes "lateral_controller_mode") (text (codes "mpc"))
      ∷ parameter (codes "longitudinal_controller_mode") (text (codes "pid"))
      ∷ [];
}

abbrev pub vehicle_cmd_gate : {D : Type 0} → Setup D
vehicle_cmd_gate = record {
  loading = from_yamls (vehicle_cmd_gate_param ∷ vehicle_info_param ∷ []);
  extra =
      parameter (codes "check_external_emergency_heartbeat") (bool false)
      ∷ parameter (codes "is_simulation") (bool true)
      ∷ [];
}

abbrev pub control_validator : {D : Type 0} → Setup D
control_validator = record { loading = from_yaml control_validator_param; extra = [] }

abbrev pub control_setups : {D : Type 0} → List (Setup D)
control_setups =
    autonomous_emergency_braking ∷ collision_detector ∷ external_cmd_selector
    ∷ lane_departure_checker ∷ obstacle_collision_checker ∷ operation_mode_transition_manager
    ∷ predicted_path_checker ∷ shift_decider ∷ trajectory_follower ∷ vehicle_cmd_gate
    ∷ control_validator ∷ []
