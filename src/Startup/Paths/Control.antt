-- ===== src/Startup/Paths/Control.antt =====
-- Parameter paths of lf-src/lf-include/constants.hpp: control.
use lf_autoware.Base.{◌++◌, Text, codes}
use lf_autoware.Startup.Paths.Common.{launcher_config_path}

abbrev pub control_nearest_search_param : Text
control_nearest_search_param =
    launcher_config_path ++ codes "/control/common/nearest_search.param.yaml"

abbrev pub trajectory_follower_param_dir : Text
trajectory_follower_param_dir = launcher_config_path ++ codes "/control/trajectory_follower"

abbrev pub trajectory_follower_param : Text
trajectory_follower_param =
    trajectory_follower_param_dir ++ codes "/trajectory_follower_node.param.yaml"

abbrev pub mpc_lateral_param : Text
mpc_lateral_param = trajectory_follower_param_dir ++ codes "/lateral/mpc.param.yaml"

abbrev pub pid_longitudinal_param : Text
pid_longitudinal_param = trajectory_follower_param_dir ++ codes "/longitudinal/pid.param.yaml"

abbrev pub vehicle_cmd_gate_param : Text
vehicle_cmd_gate_param =
    launcher_config_path ++ codes "/control/vehicle_cmd_gate/vehicle_cmd_gate.param.yaml"

abbrev pub shift_decider_param : Text
shift_decider_param =
    launcher_config_path ++ codes "/control/shift_decider/shift_decider.param.yaml"

abbrev pub operation_mode_transition_manager_param : Text
operation_mode_transition_manager_param =
    launcher_config_path
    ++ codes
        "/control/operation_mode_transition_manager/operation_mode_transition_manager.param.yaml"

abbrev pub lane_departure_checker_param : Text
lane_departure_checker_param =
    launcher_config_path
    ++ codes "/control/lane_departure_checker/lane_departure_checker.param.yaml"

abbrev pub autonomous_emergency_braking_param : Text
autonomous_emergency_braking_param =
    launcher_config_path
    ++ codes
        "/control/autoware_autonomous_emergency_braking/autonomous_emergency_braking.param.yaml"

abbrev pub collision_detector_param : Text
collision_detector_param =
    launcher_config_path
    ++ codes "/control/autoware_collision_detector/collision_detector.param.yaml"

abbrev pub obstacle_collision_checker_param : Text
obstacle_collision_checker_param =
    launcher_config_path
    ++ codes "/control/obstacle_collision_checker/obstacle_collision_checker.param.yaml"

abbrev pub predicted_path_checker_param : Text
predicted_path_checker_param =
    launcher_config_path
    ++ codes "/control/predicted_path_checker/predicted_path_checker.param.yaml"

abbrev pub external_cmd_selector_param : Text
external_cmd_selector_param =
    launcher_config_path ++ codes "/control/external_cmd_selector/external_cmd_selector.param.yaml"
