-- ===== src/Startup/Setups/Planning.antt =====
-- What the startup reactions load and add: the reactors that AutowareFederated.lf lists under Planning.
use lf_autoware.Base.{List, [], ◌∷◌, codes, false}
use lf_autoware.Config.Yaml.{bool, other}
use lf_autoware.Startup.{Setup, from_yaml, from_yamls, parameter}
use lf_autoware.Startup.Paths.Common.{vehicle_info_param}
use lf_autoware.Startup.Paths.Planning.{
  planning_common_param, planning_nearest_search_param, behavior_path_planner_param,
  behavior_path_planner_drivable_area_param, behavior_path_planner_scene_manager_param,
  behavior_path_planner_side_shift_param, behavior_path_planner_avoidance_param,
  behavior_path_planner_avoidance_by_lc_param, behavior_path_planner_dynamic_avoidance_param,
  behavior_path_planner_lane_change_param, behavior_path_planner_goal_planner_param,
  behavior_path_planner_start_planner_param, behavior_path_planner_bidirectional_traffic_param,
  behavior_path_planner_sampling_param, velocity_smoother_param, velocity_smoother_algorithm_param,
  behavior_velocity_planner_common_param, behavior_velocity_planner_param,
  behavior_velocity_planner_blind_spot_param, behavior_velocity_planner_crosswalk_param,
  behavior_velocity_planner_walkway_param, behavior_velocity_planner_detection_area_param,
  behavior_velocity_planner_intersection_param, behavior_velocity_planner_roundabout_param,
  behavior_velocity_planner_stop_line_param, behavior_velocity_planner_traffic_light_param,
  behavior_velocity_planner_virtual_traffic_light_param,
  behavior_velocity_planner_occlusion_spot_param, behavior_velocity_planner_no_stopping_area_param,
  behavior_velocity_planner_speed_bump_param, behavior_velocity_planner_no_drivable_lane_param,
  costmap_generator_param, freespace_planner_param, mission_planner_default_param,
  mission_planner_param, motion_velocity_planner_param, motion_velocity_planner_obstacle_stop_param,
  path_optimizer_param, path_smoother_param, scenario_selector_param,
}
use lf_autoware.Startup.Paths.Planning2.{
  external_velocity_limit_selector_common_param, external_velocity_limit_selector_param,
  motion_velocity_planner_obstacle_slow_down_param, motion_velocity_planner_obstacle_cruise_param,
  motion_velocity_planner_dynamic_obstacle_stop_param, motion_velocity_planner_out_of_lane_param,
  motion_velocity_planner_obstacle_velocity_limiter_param, motion_velocity_planner_run_out_param,
  motion_velocity_planner_boundary_departure_prevention_param,
  motion_velocity_planner_road_user_stop_param, path_generator_param, path_sampler_param,
  planning_validator_param, planning_validator_latency_checker_param,
  planning_validator_trajectory_checker_param,
  planning_validator_intersection_collision_checker_param,
  planning_validator_rear_collision_checker_param, surround_obstacle_checker_param,
}

abbrev pub behavior_path_planner : {D : Type 0} → Setup D
behavior_path_planner = record {
  loading = from_yamls (
      planning_common_param ∷ planning_nearest_search_param ∷ behavior_path_planner_param
      ∷ behavior_path_planner_drivable_area_param ∷ behavior_path_planner_scene_manager_param
      ∷ behavior_path_planner_side_shift_param ∷ behavior_path_planner_avoidance_param
      ∷ behavior_path_planner_avoidance_by_lc_param ∷ behavior_path_planner_dynamic_avoidance_param
      ∷ behavior_path_planner_lane_change_param ∷ behavior_path_planner_goal_planner_param
      ∷ behavior_path_planner_start_planner_param
      ∷ behavior_path_planner_bidirectional_traffic_param ∷ behavior_path_planner_sampling_param
      ∷ vehicle_info_param ∷ []);
  extra = parameter (codes "launch_modules") other ∷ [];
}

abbrev pub behavior_velocity_planner : {D : Type 0} → Setup D
behavior_velocity_planner = record {
  loading = from_yamls (
      planning_common_param ∷ vehicle_info_param ∷ planning_nearest_search_param
      ∷ velocity_smoother_param ∷ velocity_smoother_algorithm_param
      ∷ behavior_velocity_planner_common_param ∷ behavior_velocity_planner_param
      ∷ behavior_velocity_planner_blind_spot_param ∷ behavior_velocity_planner_crosswalk_param
      ∷ behavior_velocity_planner_walkway_param ∷ behavior_velocity_planner_detection_area_param
      ∷ behavior_velocity_planner_intersection_param ∷ behavior_velocity_planner_roundabout_param
      ∷ behavior_velocity_planner_stop_line_param ∷ behavior_velocity_planner_traffic_light_param
      ∷ behavior_velocity_planner_virtual_traffic_light_param
      ∷ behavior_velocity_planner_occlusion_spot_param
      ∷ behavior_velocity_planner_no_stopping_area_param
      ∷ behavior_velocity_planner_speed_bump_param
      ∷ behavior_velocity_planner_no_drivable_lane_param ∷ []);
  extra =
      parameter (codes "launch_modules") other
      ∷ parameter (codes "enable_all_modules_auto_mode") (bool false)
      ∷ parameter (codes "is_simulation") (bool false)
      ∷ [];
}

abbrev pub costmap_generator : {D : Type 0} → Setup D
costmap_generator = record {
  loading = from_yamls (costmap_generator_param ∷ vehicle_info_param ∷ []);
  extra = [];
}

abbrev pub external_velocity_limit_selector : {D : Type 0} → Setup D
external_velocity_limit_selector = record {
  loading =
      from_yamls (
        external_velocity_limit_selector_common_param ∷ external_velocity_limit_selector_param
        ∷ []);
  extra = [];
}

abbrev pub freespace_planner : {D : Type 0} → Setup D
freespace_planner = record {
  loading = from_yamls (freespace_planner_param ∷ vehicle_info_param ∷ []);
  extra = [];
}

abbrev pub mission_planner : {D : Type 0} → Setup D
mission_planner = record {
  loading =
      from_yamls (mission_planner_default_param ∷ mission_planner_param ∷ vehicle_info_param ∷ []);
  extra = [];
}

abbrev pub motion_velocity_planner : {D : Type 0} → Setup D
motion_velocity_planner = record {
  loading = from_yamls (
      planning_common_param ∷ vehicle_info_param ∷ planning_nearest_search_param
      ∷ velocity_smoother_param ∷ velocity_smoother_algorithm_param ∷ motion_velocity_planner_param
      ∷ motion_velocity_planner_obstacle_stop_param
      ∷ motion_velocity_planner_obstacle_slow_down_param
      ∷ motion_velocity_planner_obstacle_cruise_param
      ∷ motion_velocity_planner_dynamic_obstacle_stop_param
      ∷ motion_velocity_planner_out_of_lane_param
      ∷ motion_velocity_planner_obstacle_velocity_limiter_param
      ∷ motion_velocity_planner_run_out_param
      ∷ motion_velocity_planner_boundary_departure_prevention_param
      ∷ motion_velocity_planner_road_user_stop_param ∷ []);
  extra = parameter (codes "launch_modules") other ∷ [];
}

abbrev pub path_generator : {D : Type 0} → Setup D
path_generator = record {
  loading = from_yamls (path_generator_param ∷ vehicle_info_param ∷ []);
  extra = [];
}

abbrev pub path_optimizer : {D : Type 0} → Setup D
path_optimizer = record {
  loading = from_yamls (
      path_optimizer_param ∷ planning_common_param ∷ vehicle_info_param
      ∷ planning_nearest_search_param ∷ []);
  extra = [];
}

abbrev pub path_sampler : {D : Type 0} → Setup D
path_sampler = record {
  loading = from_yamls (path_sampler_param ∷ vehicle_info_param ∷ []);
  extra = [];
}

abbrev pub path_smoother : {D : Type 0} → Setup D
path_smoother = record {
  loading = from_yamls (
      path_smoother_param ∷ planning_common_param ∷ vehicle_info_param
      ∷ planning_nearest_search_param ∷ []);
  extra = [];
}

abbrev pub planning_validator : {D : Type 0} → Setup D
planning_validator = record {
  loading = from_yamls (
      planning_validator_param ∷ planning_validator_latency_checker_param
      ∷ planning_validator_trajectory_checker_param
      ∷ planning_validator_intersection_collision_checker_param
      ∷ planning_validator_rear_collision_checker_param ∷ vehicle_info_param ∷ []);
  extra = parameter (codes "launch_modules") other ∷ [];
}

abbrev pub scenario_selector : {D : Type 0} → Setup D
scenario_selector = record { loading = from_yaml scenario_selector_param; extra = [] }

abbrev pub surround_obstacle_checker : {D : Type 0} → Setup D
surround_obstacle_checker = record {
  loading = from_yamls (
      surround_obstacle_checker_param ∷ planning_common_param ∷ vehicle_info_param
      ∷ planning_nearest_search_param ∷ []);
  extra = [];
}

abbrev pub planning_setups : {D : Type 0} → List (Setup D)
planning_setups =
    behavior_path_planner ∷ behavior_velocity_planner ∷ costmap_generator
    ∷ external_velocity_limit_selector ∷ freespace_planner ∷ mission_planner
    ∷ motion_velocity_planner ∷ path_generator ∷ path_optimizer ∷ path_sampler ∷ path_smoother
    ∷ planning_validator ∷ scenario_selector ∷ surround_obstacle_checker ∷ []
