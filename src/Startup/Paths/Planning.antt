-- ===== src/Startup/Paths/Planning.antt =====
-- Parameter paths of lf-src/lf-include/constants.hpp: planning.
use lf_autoware.Base.{◌++◌, Text, codes}
use lf_autoware.Startup.Paths.Common.{launcher_config_path}

abbrev pub velocity_smoother_param_dir : Text
velocity_smoother_param_dir =
    launcher_config_path ++ codes "/planning/scenario_planning/common/autoware_velocity_smoother"

abbrev pub velocity_smoother_param : Text
velocity_smoother_param = velocity_smoother_param_dir ++ codes "/velocity_smoother.param.yaml"

abbrev pub velocity_smoother_algorithm_param : Text
velocity_smoother_algorithm_param = velocity_smoother_param_dir ++ codes "/Analytical.param.yaml"

abbrev pub velocity_smoother_common_param : Text
velocity_smoother_common_param =
    codes
      "src/core/autoware_core/planning/autoware_velocity_smoother/config/default_common.param.yaml"

abbrev pub planning_common_param : Text
planning_common_param =
    launcher_config_path ++ codes "/planning/scenario_planning/common/common.param.yaml"

abbrev pub planning_nearest_search_param : Text
planning_nearest_search_param =
    launcher_config_path ++ codes "/planning/scenario_planning/common/nearest_search.param.yaml"

abbrev pub behavior_path_planner_param_dir : Text
behavior_path_planner_param_dir =
    launcher_config_path
    ++ codes "/planning/scenario_planning/lane_driving/behavior_planning/behavior_path_planner"

abbrev pub behavior_path_planner_param : Text
behavior_path_planner_param =
    behavior_path_planner_param_dir ++ codes "/behavior_path_planner.param.yaml"

abbrev pub behavior_path_planner_drivable_area_param : Text
behavior_path_planner_drivable_area_param =
    behavior_path_planner_param_dir ++ codes "/drivable_area_expansion.param.yaml"

abbrev pub behavior_path_planner_scene_manager_param : Text
behavior_path_planner_scene_manager_param =
    behavior_path_planner_param_dir ++ codes "/scene_module_manager.param.yaml"

abbrev pub behavior_path_planner_side_shift_param : Text
behavior_path_planner_side_shift_param =
    behavior_path_planner_param_dir ++ codes "/side_shift/side_shift.param.yaml"

abbrev pub behavior_path_planner_avoidance_param : Text
behavior_path_planner_avoidance_param =
    behavior_path_planner_param_dir
    ++ codes
        "/autoware_behavior_path_static_obstacle_avoidance_module/static_obstacle_avoidance.param.yaml"

abbrev pub behavior_path_planner_avoidance_by_lc_param : Text
behavior_path_planner_avoidance_by_lc_param =
    behavior_path_planner_param_dir
    ++ codes "/avoidance_by_lane_change/avoidance_by_lane_change.param.yaml"

abbrev pub behavior_path_planner_dynamic_avoidance_param : Text
behavior_path_planner_dynamic_avoidance_param =
    behavior_path_planner_param_dir
    ++ codes
        "/autoware_behavior_path_dynamic_obstacle_avoidance_module/dynamic_obstacle_avoidance.param.yaml"

abbrev pub behavior_path_planner_lane_change_param : Text
behavior_path_planner_lane_change_param =
    behavior_path_planner_param_dir ++ codes "/lane_change/lane_change.param.yaml"

abbrev pub behavior_path_planner_goal_planner_param : Text
behavior_path_planner_goal_planner_param =
    behavior_path_planner_param_dir ++ codes "/goal_planner/goal_planner.param.yaml"

abbrev pub behavior_path_planner_start_planner_param : Text
behavior_path_planner_start_planner_param =
    behavior_path_planner_param_dir ++ codes "/start_planner/start_planner.param.yaml"

abbrev pub behavior_path_planner_bidirectional_traffic_param : Text
behavior_path_planner_bidirectional_traffic_param =
    behavior_path_planner_param_dir
    ++ codes "/autoware_behavior_path_bidirectional_traffic_module/bidirectional_traffic.param.yaml"

abbrev pub behavior_path_planner_sampling_param : Text
behavior_path_planner_sampling_param =
    behavior_path_planner_param_dir ++ codes "/sampling_planner/sampling_planner.param.yaml"

abbrev pub mission_planner_param : Text
mission_planner_param =
    launcher_config_path
    ++ codes "/planning/mission_planning/mission_planner/mission_planner.param.yaml"

abbrev pub mission_planner_default_param : Text
mission_planner_default_param =
    codes
      "src/core/autoware_core/planning/autoware_mission_planner/config/mission_planner.param.yaml"

abbrev pub freespace_planner_param : Text
freespace_planner_param =
    launcher_config_path
    ++ codes "/planning/scenario_planning/parking/freespace_planner/freespace_planner.param.yaml"

abbrev pub scenario_selector_param : Text
scenario_selector_param =
    codes
      "src/universe/autoware_universe/planning/autoware_scenario_selector/config/scenario_selector.param.yaml"

abbrev pub costmap_generator_param : Text
costmap_generator_param =
    codes
      "src/universe/autoware_universe/planning/autoware_costmap_generator/config/costmap_generator.param.yaml"

abbrev pub behavior_velocity_planner_param_dir : Text
behavior_velocity_planner_param_dir =
    launcher_config_path
    ++ codes "/planning/scenario_planning/lane_driving/behavior_planning/behavior_velocity_planner"

abbrev pub behavior_velocity_planner_param : Text
behavior_velocity_planner_param =
    behavior_velocity_planner_param_dir ++ codes "/behavior_velocity_planner.param.yaml"

abbrev pub behavior_velocity_planner_common_param : Text
behavior_velocity_planner_common_param =
    behavior_velocity_planner_param_dir ++ codes "/behavior_velocity_planner_common.param.yaml"

abbrev pub behavior_velocity_planner_blind_spot_param : Text
behavior_velocity_planner_blind_spot_param =
    behavior_velocity_planner_param_dir ++ codes "/blind_spot.param.yaml"

abbrev pub behavior_velocity_planner_crosswalk_param : Text
behavior_velocity_planner_crosswalk_param =
    behavior_velocity_planner_param_dir ++ codes "/crosswalk.param.yaml"

abbrev pub behavior_velocity_planner_walkway_param : Text
behavior_velocity_planner_walkway_param =
    behavior_velocity_planner_param_dir ++ codes "/walkway.param.yaml"

abbrev pub behavior_velocity_planner_detection_area_param : Text
behavior_velocity_planner_detection_area_param =
    behavior_velocity_planner_param_dir ++ codes "/detection_area.param.yaml"

abbrev pub behavior_velocity_planner_intersection_param : Text
behavior_velocity_planner_intersection_param =
    behavior_velocity_planner_param_dir ++ codes "/intersection.param.yaml"

abbrev pub behavior_velocity_planner_roundabout_param : Text
behavior_velocity_planner_roundabout_param =
    behavior_velocity_planner_param_dir ++ codes "/roundabout.param.yaml"

abbrev pub behavior_velocity_planner_stop_line_param : Text
behavior_velocity_planner_stop_line_param =
    behavior_velocity_planner_param_dir ++ codes "/stop_line.param.yaml"

abbrev pub behavior_velocity_planner_traffic_light_param : Text
behavior_velocity_planner_traffic_light_param =
    behavior_velocity_planner_param_dir ++ codes "/traffic_light.param.yaml"

abbrev pub behavior_velocity_planner_virtual_traffic_light_param : Text
behavior_velocity_planner_virtual_traffic_light_param =
    behavior_velocity_planner_param_dir ++ codes "/virtual_traffic_light.param.yaml"

abbrev pub behavior_velocity_planner_occlusion_spot_param : Text
behavior_velocity_planner_occlusion_spot_param =
    behavior_velocity_planner_param_dir ++ codes "/occlusion_spot.param.yaml"

abbrev pub behavior_velocity_planner_no_stopping_area_param : Text
behavior_velocity_planner_no_stopping_area_param =
    behavior_velocity_planner_param_dir ++ codes "/no_stopping_area.param.yaml"

abbrev pub behavior_velocity_planner_speed_bump_param : Text
behavior_velocity_planner_speed_bump_param =
    behavior_velocity_planner_param_dir ++ codes "/speed_bump.param.yaml"

abbrev pub behavior_velocity_planner_no_drivable_lane_param : Text
behavior_velocity_planner_no_drivable_lane_param =
    behavior_velocity_planner_param_dir ++ codes "/no_drivable_lane.param.yaml"

abbrev pub path_smoother_param : Text
path_smoother_param =
    launcher_config_path
    ++ codes
        "/planning/scenario_planning/lane_driving/motion_planning/path_smoother/elastic_band_smoother.param.yaml"

abbrev pub path_optimizer_param : Text
path_optimizer_param =
    launcher_config_path
    ++ codes
        "/planning/scenario_planning/lane_driving/motion_planning/autoware_path_optimizer/path_optimizer.param.yaml"

abbrev pub motion_velocity_planner_param_dir : Text
motion_velocity_planner_param_dir =
    launcher_config_path
    ++ codes "/planning/scenario_planning/lane_driving/motion_planning/motion_velocity_planner"

abbrev pub motion_velocity_planner_param : Text
motion_velocity_planner_param =
    motion_velocity_planner_param_dir ++ codes "/motion_velocity_planner.param.yaml"

abbrev pub motion_velocity_planner_obstacle_stop_param : Text
motion_velocity_planner_obstacle_stop_param =
    motion_velocity_planner_param_dir ++ codes "/obstacle_stop.param.yaml"
