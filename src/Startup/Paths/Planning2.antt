-- ===== src/Startup/Paths/Planning2.antt =====
-- Parameter paths of lf-src/lf-include/constants.hpp: planning.
use lf_autoware.Base.{◌++◌, Text, codes}
use lf_autoware.Startup.Paths.Common.{launcher_config_path}
use lf_autoware.Startup.Paths.Planning.{motion_velocity_planner_param_dir}

abbrev pub motion_velocity_planner_obstacle_slow_down_param : Text
motion_velocity_planner_obstacle_slow_down_param =
    motion_velocity_planner_param_dir ++ codes "/obstacle_slow_down.param.yaml"

abbrev pub motion_velocity_planner_obstacle_cruise_param : Text
motion_velocity_planner_obstacle_cruise_param =
    motion_velocity_planner_param_dir ++ codes "/obstacle_cruise.param.yaml"

abbrev pub motion_velocity_planner_dynamic_obstacle_stop_param : Text
motion_velocity_planner_dynamic_obstacle_stop_param =
    motion_velocity_planner_param_dir ++ codes "/dynamic_obstacle_stop.param.yaml"

abbrev pub motion_velocity_planner_out_of_lane_param : Text
motion_velocity_planner_out_of_lane_param =
    motion_velocity_planner_param_dir ++ codes "/out_of_lane.param.yaml"

abbrev pub motion_velocity_planner_obstacle_velocity_limiter_param : Text
motion_velocity_planner_obstacle_velocity_limiter_param =
    motion_velocity_planner_param_dir ++ codes "/obstacle_velocity_limiter.param.yaml"

abbrev pub motion_velocity_planner_run_out_param : Text
motion_velocity_planner_run_out_param =
    motion_velocity_planner_param_dir ++ codes "/run_out.param.yaml"

abbrev pub motion_velocity_planner_boundary_departure_prevention_param : Text
motion_velocity_planner_boundary_departure_prevention_param =
    motion_velocity_planner_param_dir ++ codes "/boundary_departure_prevention.param.yaml"

abbrev pub motion_velocity_planner_road_user_stop_param : Text
motion_velocity_planner_road_user_stop_param =
    motion_velocity_planner_param_dir ++ codes "/road_user_stop.param.yaml"

abbrev pub surround_obstacle_checker_param : Text
surround_obstacle_checker_param =
    launcher_config_path
    ++ codes
        "/planning/scenario_planning/lane_driving/motion_planning/surround_obstacle_checker/surround_obstacle_checker.param.yaml"

abbrev pub planning_validator_param_dir : Text
planning_validator_param_dir =
    launcher_config_path ++ codes "/planning/scenario_planning/common/planning_validator"

abbrev pub planning_validator_param : Text
planning_validator_param = planning_validator_param_dir ++ codes "/planning_validator.param.yaml"

abbrev pub planning_validator_latency_checker_param : Text
planning_validator_latency_checker_param =
    planning_validator_param_dir ++ codes "/latency_checker.param.yaml"

abbrev pub planning_validator_trajectory_checker_param : Text
planning_validator_trajectory_checker_param =
    planning_validator_param_dir ++ codes "/trajectory_checker.param.yaml"

abbrev pub planning_validator_intersection_collision_checker_param : Text
planning_validator_intersection_collision_checker_param =
    planning_validator_param_dir ++ codes "/intersection_collision_checker.param.yaml"

abbrev pub planning_validator_rear_collision_checker_param : Text
planning_validator_rear_collision_checker_param =
    planning_validator_param_dir ++ codes "/rear_collision_checker.param.yaml"

abbrev pub external_velocity_limit_selector_common_param : Text
external_velocity_limit_selector_common_param =
    codes
      "src/universe/autoware_universe/planning/autoware_external_velocity_limit_selector/config/default_common.param.yaml"

abbrev pub external_velocity_limit_selector_param : Text
external_velocity_limit_selector_param =
    codes
      "src/universe/autoware_universe/planning/autoware_external_velocity_limit_selector/config/default.param.yaml"

abbrev pub path_generator_param : Text
path_generator_param =
    launcher_config_path
    ++ codes
        "/planning/scenario_planning/lane_driving/behavior_planning/path_generator/path_generator.param.yaml"

abbrev pub path_sampler_param : Text
path_sampler_param =
    launcher_config_path
    ++ codes
        "/planning/scenario_planning/lane_driving/motion_planning/path_sampler/path_sampler.param.yaml"
